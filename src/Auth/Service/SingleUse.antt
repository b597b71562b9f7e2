-- ===== src/Auth/Service/SingleUse.antt =====
-- A refresh token can be used once (src/auth/auth.service.ts), over a repository that keeps what is
-- saved in it.
use otto_handler.Prelude.{
  ◌≡◌, Bool, true, false, ◌&&◌, ◌||◌, String, List, [], ◌∷◌, ◌++◌, some, arith, str_eq, eq_iff,
}
use otto_handler.Prelude.Effects.{Env, Clock, ok, resolve}
use otto_handler.Auth.Types.{RefreshToken, Call, find_unrevoked, save_token, Ret}
use otto_handler.Auth.Service.{LoginResponse, login_by_refresh}
use otto_handler.Auth.Service.Rotation.{Rotated, login_by_refresh-Rotated, cookies}

abbrev revokes : String → Call → Bool
revokes token (save_token r) = str_eq r.token token && r.is_revoked
revokes token _ = false

-- Whether a row with this token has been saved as revoked.
abbrev pub saved_revoked : String → List Call → Bool
saved_revoked token [] = false
saved_revoked token (c ∷ h) = revokes token c || saved_revoked token h

-- What the service relies on in the repository of refresh tokens, whose tokens are 64 random bytes
-- and so distinct: a lookup returns a row with the token that it asks for, and none whose token was
-- saved as revoked before.
pub record IsTokenStore (env : Env Call Ret) : Type 0 where
  pub matches :
      (h : List Call) (token : String) (r : RefreshToken)
      → env h (find_unrevoked token) ≡ resolve (some r)
      → r.token ≡ token
  pub hides :
      (h : List Call) (token : String) (r : RefreshToken)
      → env h (find_unrevoked token) ≡ resolve (some r)
      → saved_revoked token h ≡ false

module _ (env : Env Call Ret) (clock : Clock Call) (store : IsTokenStore env) where
  pub saved_revoked-append :
      (token : String) (later h : List Call)
      → saved_revoked token h ≡ true
      → saved_revoked token (later ++ h) ≡ true
  saved_revoked-append token [] h e = e
  saved_revoked-append token (c ∷ later) h e = ground (arith, saved_revoked-append token later h e)

  saved_revoked-cookies :
      (token : String) (response : Bool) (r : LoginResponse) (h : List Call)
      → saved_revoked token h ≡ true
      → saved_revoked token (cookies env clock response r h) ≡ true
  saved_revoked-cookies token true r h e = e
  saved_revoked-cookies token false r h e = e

  saved_revoked-Rotated :
      (token : String) (response : Bool) (h : List Call) (r : LoginResponse) (h' : List Call)
      → Rotated env clock token response h r h'
      → saved_revoked token h' ≡ true
  saved_revoked-Rotated token response h r h' c =
      let same : str_eq c.old.token token ≡ true =
        (eq_iff _ _).1 (store.matches h token c.old c.found) in
      rw (c.calls) (saved_revoked-cookies token response r _ (rw same))

  -- A token that has been refreshed cannot be refreshed again, whatever was called in between.
  pub login_by_refresh_once :
      (token : String) (first second : Bool) (h later : List Call) (r r' : LoginResponse)
      (h' h'' : List Call)
      → login_by_refresh env clock token first h ≡ ok r h'
      → ¬ (login_by_refresh env clock token second (later ++ h') ≡ ok r' h'')
  login_by_refresh_once token first second h later r r' h' h'' e again =
      let c = login_by_refresh-Rotated env clock token second (later ++ h') r' h'' again in
      let used = saved_revoked-append token later h' (
        saved_revoked-Rotated token first h r h'
          (login_by_refresh-Rotated env clock token first h r h' e)) in
      cc (store.hides (later ++ h') token c.old c.found, used)
