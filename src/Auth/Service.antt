-- ===== src/Auth/Service.antt =====
-- The class `AuthService` of src/auth/auth.service.ts.
pub mod Rotation
pub mod SingleUse
use otto_handler.Prelude.{
  ℕ, ◌+◌, ◌-◌, ◌*◌, ◌/◌, Bool, true, false, String, List, [], ◌∷◌, Option, none, some, leb, or_text,
  truthy, if◌then◌else◌,
}
use otto_handler.Prelude.Text.{template}
use otto_handler.Prelude.Effects.{
  Error, Outcome, ok, throw, Env, Clock, M, ◌>>=◌, ◌>>◌, return, fail, call, now, or_throw, when,
  try_catch,
}
use otto_handler.Auth.Types.{
  User, RefreshToken, NewToken, NewUser, GithubUser, Call, find_unrevoked, find_token, save_token,
  save_new_token, delete_revoked_before, find_user_by_github_id, save_user, save_new_user, sign,
  random_hex, set_cookie, clear_cookie, Ret, access_token_ttl_sec, refresh_token_ttl_sec,
  access_token_cookie, refresh_token_cookie, unauthorized, refresh_fail, login_success,
}

pub record LoginResponse : Type 0 where
  pub message : String
  pub access_token : String
  pub refresh_token : String
  pub access_token_expires_in : ℕ
  pub refresh_token_expires_in : ℕ

abbrev pub login_response : String → String → LoginResponse
login_response access refresh = record {
  message = login_success;
  access_token = access;
  refresh_token = refresh;
  access_token_expires_in = access_token_ttl_sec;
  refresh_token_expires_in = refresh_token_ttl_sec;
}

abbrev pub revoked : RefreshToken → RefreshToken
revoked t = record t { is_revoked = true }

-- `new Date((nowSec + refreshTokenExpiresIn) * 1000)`, with `nowSec` from `Date.now()`
abbrev pub expiry : ℕ → ℕ
expiry now_ms = (now_ms / 1000 + refresh_token_ttl_sec) * 1000

-- `new Date(Date.now() - 60 * 60 * 1000)`; the clock is past the first hour of 1970
abbrev pub hour_before : ℕ → ℕ
hour_before now_ms = now_ms - 60 * 60 * 1000

-- `if (githubUser.email) user.email = githubUser.email`, and so for the avatar
unfoldable pub updated_user : GithubUser → User → User
updated_user g user = record user {
  github_user_name = g.login;
  email = or_text g.email user.email;
  github_avatar_url = or_text g.avatar_url user.github_avatar_url;
}

unfoldable pub new_user : GithubUser → NewUser
new_user g = record {
  email = or_text g.email (template (g.login ∷ "@github.local" ∷ []));
  github_user_name = g.login;
  github_avatar_url = or_text g.avatar_url "";
  github_id = g.id;
}

module _ (env : Env Call Ret) (clock : Clock Call) where
  unfoldable pub set_auth_cookies : String → String → M Call (Unit {0})
  set_auth_cookies access refresh = do
    call env (set_cookie access_token_cookie access access_token_ttl_sec)
    call env (set_cookie refresh_token_cookie refresh refresh_token_ttl_sec)

  -- Signing, drawing and storing a new pair of tokens; the code repeats it in `loginByRefresh` and
  -- `createOrUpdateGithubUser`.
  unfoldable pub issue_tokens : String → ℕ → M Call LoginResponse
  issue_tokens user_id now_ms = do
    access ← call env (sign user_id access_token_ttl_sec)
    refresh ← call env (random_hex 64)
    call env
        (save_new_token (record { user_id = user_id; token = refresh; expires_at = expiry now_ms }))
    return (login_response access refresh)

  -- An expired token is revoked, and the refresh fails.
  unfoldable pub refresh_expired : RefreshToken → M Call LoginResponse
  refresh_expired existing = do
    call env (save_token (revoked existing))
    fail (unauthorized refresh_fail)

  -- A live token is revoked, a new pair is issued, and old revoked tokens are deleted.
  unfoldable pub refresh_live : RefreshToken → ℕ → M Call LoginResponse
  unfolding issue_tokens
  refresh_live existing start = do
    call env (save_token (revoked existing))
    result ← issue_tokens existing.user_id start
    late ← now clock
    call env (delete_revoked_before (hour_before late))
    return result

  unfoldable pub refresh_found : RefreshToken → ℕ → M Call LoginResponse
  unfolding refresh_expired refresh_live
  refresh_found existing start = do
    time ← now clock
    if leb existing.expires_at time then refresh_expired existing else refresh_live existing start

  -- `response` says whether the caller passes the reply on which to set cookies.
  unfoldable pub login_by_refresh : String → Bool → M Call LoginResponse
  unfolding refresh_found set_auth_cookies
  login_by_refresh token response = do
    start ← now clock
    found ← call env (find_unrevoked token)
    existing ← or_throw found (unauthorized refresh_fail)
    result ← refresh_found existing start
    when response (set_auth_cookies result.access_token result.refresh_token)
    return result

  clear_auth_cookies : M Call (Unit {0})
  clear_auth_cookies = do
    call env (clear_cookie access_token_cookie)
    call env (clear_cookie refresh_token_cookie)

  revoke_found : Option RefreshToken → M Call (Unit {0})
  revoke_found none = return tt
  revoke_found (some token) = do call env (save_token (revoked token)); return tt

  unfoldable pub logout : String → M Call String
  unfolding clear_auth_cookies revoke_found
  logout token = do
    try_catch (do found ← call env (find_token token); revoke_found found) (λ _. return tt)
    clear_auth_cookies
    return "로그아웃되었습니다."

  unfoldable pub store_user : GithubUser → Option User → M Call User
  unfolding updated_user new_user
  store_user g none = call env (save_new_user (new_user g))
  store_user g (some user) = call env (save_user (updated_user g user))

  unfoldable pub create_or_update_github_user : GithubUser → M Call LoginResponse
  unfolding store_user issue_tokens
  create_or_update_github_user g = do
    start ← now clock
    found ← call env (find_user_by_github_id g.id)
    user ← store_user g found
    issue_tokens user.user_id start
