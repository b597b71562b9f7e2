-- ===== src/Auth/Oauth.antt =====
-- The class `GithubOauthService` of src/auth/github-oauth.service.ts, and
-- `AuthService.authenticateWithGithub` of src/auth/auth.service.ts over it.
pub mod SignIn
use otto_handler.Prelude.{ℕ, Bool, String, Option, none, some, truthy, or_text, if◌then◌else◌}
use otto_handler.Prelude.Effects.{
  Error, error, Outcome, Env, Clock, M, ◌>>=◌, ◌>>◌, return, fail, call, or_throw, try_catch,
}
use otto_handler.Auth.Types.{
  GithubUser, GithubToken, Response, Call, fetch_github_token, fetch_github_user, Ret,
}
use otto_handler.Auth.Service.{LoginResponse, create_or_update_github_user, set_auth_cookies}

-- `new HttpException(message, HttpStatus.UNAUTHORIZED)`
abbrev pub http_unauthorized : String → Error
http_unauthorized m = record { name = "HttpException"; message = m }

-- What the body of the token endpoint gives: no token if it reports an error or holds none.
token_of : GithubToken → Option String
token_of body =
    if truthy body.error then none else if truthy body.access_token then body.access_token else none

-- `if (!res.ok) throw …; return res.json()`. Both callers discard the message of this error, which is
-- shortened here.
accepted : {Body : Type 0} → Response Body → M Call Body
accepted r = if r.is_ok then return r.body else fail (error "HTTP error!")

module _ (env : Env Call Ret) (clock : Clock Call) where
  unfoldable pub get_github_token : String → String → M Call (Option String)
  unfolding token_of accepted
  get_github_token code state =
      try_catch
        (do r ← call env (fetch_github_token code state); body ← accepted r; return (token_of body))
        (λ _. return none)

  unfoldable pub get_user_info : String → String → M Call GithubUser
  unfolding get_github_token accepted
  get_user_info code state = do
    found ← get_github_token code state
    token ← or_throw found (http_unauthorized "GitHub 토큰 획득 실패")
    try_catch (do r ← call env (fetch_github_user token); accepted r)
        (λ _. fail (http_unauthorized "로그인 실패"))

  unfoldable pub authenticate_with_github : String → String → M Call LoginResponse
  unfolding get_user_info create_or_update_github_user set_auth_cookies
  authenticate_with_github code state = do
    g ← get_user_info code state
    result ← create_or_update_github_user env clock g
    set_auth_cookies env clock result.access_token result.refresh_token
    return result
