-- ===== src/Auth/Service/Rotation.antt =====
-- Rotation of refresh tokens: `AuthService.loginByRefresh` (src/auth/auth.service.ts).
use otto_handler.Prelude.{
  ℕ, ◌<◌, ◌≤◌, ◌≡◌, inl, inr, Bool, true, false, String, List, ◌∷◌, none, some, arith, leb,
}
use otto_handler.Prelude.Effects.{
  ok, throw, Env, Clock, resolve, Reply-cases, >>=-eq-ok, when, ◌>>◌, return,
}
use otto_handler.Auth.Types.{
  RefreshToken, Call, find_unrevoked, save_token, save_new_token, delete_revoked_before, sign,
  random_hex, set_cookie, Ret, access_token_ttl_sec, refresh_token_ttl_sec, access_token_cookie,
  refresh_token_cookie, unauthorized, refresh_fail,
}
use otto_handler.Auth.Service.{
  LoginResponse, revoked, expiry, hour_before, login_by_refresh, set_auth_cookies, refresh_found,
  refresh_live,
}

module _ (env : Env Call Ret) (clock : Clock Call) where
  -- The calls that replace the token `old` by the pair in `r`, newest first: the old one is saved
  -- revoked before the new one exists, and the new one belongs to the same user.
  abbrev pub issued : RefreshToken → LoginResponse → ℕ → List Call → List Call
  issued old r start h =
      save_new_token
        (record { user_id = old.user_id; token = r.refresh_token; expires_at = expiry start })
      ∷ random_hex 64
      ∷ sign old.user_id access_token_ttl_sec
      ∷ save_token (revoked old)
      ∷ h

  abbrev pub cleaned : RefreshToken → LoginResponse → ℕ → List Call → List Call
  cleaned old r start h =
      delete_revoked_before (hour_before (clock (issued old r start h))) ∷ issued old r start h

  abbrev pub cookies : Bool → LoginResponse → List Call → List Call
  cookies true r h =
      set_cookie refresh_token_cookie r.refresh_token refresh_token_ttl_sec
      ∷ set_cookie access_token_cookie r.access_token access_token_ttl_sec
      ∷ h
  cookies false r h = h

  refresh_live_calls :
      (old : RefreshToken) (start : ℕ) (h : List Call) {r : LoginResponse} {h' : List Call}
      → refresh_live env clock old start h ≡ ok r h'
      → h' ≡ cleaned old r start h
  unfolding refresh_live
  refresh_live_calls old start h e = ground arith

  set_auth_cookies_calls :
      (response : Bool) (r r' : LoginResponse) (h h' : List Call)
      → (when response (set_auth_cookies env clock r.access_token r.refresh_token) >> return r) h
        ≡ ok r' h'
      → (r ≡ r') × (h' ≡ cookies response r h)
  unfolding set_auth_cookies
  set_auth_cookies_calls true r r' h h' e = ground arith
  set_auth_cookies_calls false r r' h h' e = ground arith

  -- How a refresh that resolves came about.
  pub record Rotated (token : String) (response : Bool) (h : List Call) (r : LoginResponse)
      (h' : List Call) : Type 0 where
    pub old : RefreshToken
    pub found : env h (find_unrevoked token) ≡ resolve (some old)
    pub live : clock (find_unrevoked token ∷ h) < old.expires_at
    pub calls : h' ≡ cookies response r (cleaned old r (clock h) (find_unrevoked token ∷ h))

  refresh_found-Rotated :
      (token : String) (response : Bool) (h : List Call) (r : LoginResponse) (h' : List Call)
      (old : RefreshToken)
      → env h (find_unrevoked token) ≡ resolve (some old)
      → login_by_refresh env clock token response h ≡ ok r h'
      → Rotated token response h r h'
  unfolding login_by_refresh refresh_found
  refresh_found-Rotated token response h r h' old f e =
      let live : leb old.expires_at (clock (find_unrevoked token ∷ h)) ≡ false = ground arith in
      let (r1, h1, e1, e2) =
        >>=-eq-ok (refresh_live env clock old (clock h) (find_unrevoked token ∷ h)) _
          (rw (f, live) at e) in
      let after_live = refresh_live_calls old (clock h) (find_unrevoked token ∷ h) e1 in
      let (same, after_cookies) = set_auth_cookies_calls response r1 r h1 h' e2 in
      record {
        old = old;
        found = f;
        live = ground arith;
        calls = rw (after_cookies, after_live, same);
      }

  pub login_by_refresh-Rotated :
      (token : String) (response : Bool) (h : List Call) (r : LoginResponse) (h' : List Call)
      → login_by_refresh env clock token response h ≡ ok r h'
      → Rotated token response h r h'
  unfolding login_by_refresh
  login_by_refresh-Rotated token response h r h' e =
      elim (Reply-cases (env h (find_unrevoked token))) [
        | inl (some old, f) ↦ refresh_found-Rotated token response h r h' old f e
        | inl (none, f) ↦ cc
        | inr (x, f) ↦ cc
      ]

  -- An expired token is saved revoked and nothing else is written; the refresh fails.
  login_by_refresh_expired :
      (token : String) (response : Bool) (h : List Call) (old saved : RefreshToken)
      → env h (find_unrevoked token) ≡ resolve (some old)
      → old.expires_at ≤ clock (find_unrevoked token ∷ h)
      → env (find_unrevoked token ∷ h) (save_token (revoked old)) ≡ resolve saved
      → login_by_refresh env clock token response h
        ≡ throw (unauthorized refresh_fail) (save_token (revoked old) ∷ find_unrevoked token ∷ h)
  unfolding login_by_refresh
  login_by_refresh_expired token response h old saved f late e = ground arith

  -- A token that is not stored, or is revoked, makes no write at all.
  pub login_by_refresh_unknown :
      (token : String) (response : Bool) (h : List Call)
      → env h (find_unrevoked token) ≡ resolve none
      → login_by_refresh env clock token response h
        ≡ throw (unauthorized refresh_fail) (find_unrevoked token ∷ h)
  unfolding login_by_refresh
  login_by_refresh_unknown token response h f = ground arith
