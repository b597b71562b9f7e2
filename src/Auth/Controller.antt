-- ===== src/Auth/Controller.antt =====
-- The class `AuthController` of src/auth/auth.controller.ts. Of a request, its handlers read the cookie
-- of the refresh token.
pub mod SignOut
use otto_handler.Prelude.{String, Option, truthy, or_text, true, if◌then◌else◌}
use otto_handler.Prelude.Effects.{Env, Clock, M, fail}
use otto_handler.Auth.Types.{Call, Ret, unauthorized}
use otto_handler.Auth.Service.{LoginResponse, login_by_refresh, logout}
use otto_handler.Auth.Oauth.{authenticate_with_github}

module _ (env : Env Call Ret) (clock : Clock Call) where
  unfoldable pub auth_github_sign_in : (code state : String) → M Call LoginResponse
  unfolding authenticate_with_github
  auth_github_sign_in code state = authenticate_with_github env clock code state

  unfoldable pub auth_refresh_sign_in : Option String → M Call LoginResponse
  unfolding login_by_refresh
  auth_refresh_sign_in cookie =
      if truthy cookie
      then login_by_refresh env clock (or_text cookie "") true
      else fail (unauthorized "Refresh token not found")

  unfoldable pub auth_sign_out : Option String → M Call String
  unfolding logout
  auth_sign_out cookie = logout env clock (or_text cookie "")
