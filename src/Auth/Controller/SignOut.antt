-- ===== src/Auth/Controller/SignOut.antt =====
-- The end of a session (src/auth/auth.controller.ts), over a repository that keeps what is saved in it.
use otto_handler.Prelude.{
  ◌≡◌, refl, inl, inr, true, String, List, ◌∷◌, ◌++◌, Option, some, truthy, or_text, arith, str_eq,
  eq_iff, Bool-cases,
}
use otto_handler.Prelude.Effects.{Env, Clock, ok, resolve}
use otto_handler.Auth.Types.{
  RefreshToken, Call, find_token, save_token, clear_cookie, access_token_cookie,
  refresh_token_cookie, Ret,
}
use otto_handler.Auth.Service.{LoginResponse, revoked, logout}
use otto_handler.Auth.Service.Rotation.{login_by_refresh-Rotated}
use otto_handler.Auth.Service.SingleUse.{IsTokenStore, saved_revoked, saved_revoked-append}
use otto_handler.Auth.Controller.{auth_sign_out, auth_refresh_sign_in}

module _ (env : Env Call Ret) (clock : Clock Call) where
  logout_calls :
      (token : String) (old saved : RefreshToken) (m : String) (h h' : List Call)
      → env h (find_token token) ≡ resolve (some old)
      → env (find_token token ∷ h) (save_token (revoked old)) ≡ resolve saved
      → logout env clock token h ≡ ok m h'
      → h'
        ≡ clear_cookie refresh_token_cookie
          ∷ clear_cookie access_token_cookie
          ∷ save_token (revoked old)
          ∷ find_token token
          ∷ h
  unfolding logout
  logout_calls token old saved m h h' found kept e = ground arith

  -- Over a repository that keeps what is saved in it, the refresh token of a session that has been
  -- signed out cannot be used again, whatever was called in between, where the row of the token was
  -- found and saved.
  pub auth_refresh_sign_in_after-auth_sign_out :
      IsTokenStore env
      → (cookie : Option String) (old saved : RefreshToken) (m : String)
        (h h' later h'' : List Call) (r : LoginResponse)
      → env h (find_token (or_text cookie "")) ≡ resolve (some old)
      → env (find_token (or_text cookie "") ∷ h) (save_token (revoked old)) ≡ resolve saved
      → old.token ≡ or_text cookie ""
      → auth_sign_out env clock cookie h ≡ ok m h'
      → ¬ (auth_refresh_sign_in env clock cookie (later ++ h') ≡ ok r h'')
  unfolding auth_sign_out auth_refresh_sign_in
  auth_refresh_sign_in_after-auth_sign_out store cookie old saved m h h' later h'' r found kept same
        out again =
      elim (Bool-cases (truthy cookie)) [
        | inr e ↦ cc (rw e at again)
        | inl e ↦
            let c =
              login_by_refresh-Rotated env clock (or_text cookie "") true (later ++ h') r h''
                (rw e at again) in
            let calls = logout_calls (or_text cookie "") old saved m h h' found kept out in
            let equal : str_eq old.token (or_text cookie "") ≡ true = (eq_iff _ _).1 same in
            let used : saved_revoked (or_text cookie "") h' ≡ true = rw calls (rw equal refl) in
            cc (
              store.hides (later ++ h') (or_text cookie "") c.old c.found,
              saved_revoked-append env clock store (or_text cookie "") later h' used,
            )
      ]
