-- ===== src/Auth/Types.antt =====
-- What src/auth/auth.service.ts and src/auth/github-oauth.service.ts call: the two repositories,
-- the token signer, the random generator, the HTTP client and the response's cookies. Times are in
-- milliseconds, and an entity holds the fields that the services read or write.
use otto_handler.Prelude.{ℕ, ◌*◌, Bool, String, Option}
use otto_handler.Prelude.Effects.{Error}

-- src/database/entities/user.entity.ts
pub record User : Type 0 where
  pub user_id : String
  pub email : String
  pub github_user_name : String
  pub github_avatar_url : String
  pub github_id : ℕ

-- src/database/entities/refresh-token.entity.ts
pub record RefreshToken : Type 0 where
  pub refresh_token_id : String
  pub user_id : String
  pub token : String
  pub expires_at : ℕ
  pub is_revoked : Bool

-- What `repository.create` is given for a new token and for a new user.
pub record NewToken : Type 0 where
  pub user_id : String
  pub token : String
  pub expires_at : ℕ

pub record NewUser : Type 0 where
  pub email : String
  pub github_user_name : String
  pub github_avatar_url : String
  pub github_id : ℕ

-- The GitHub account that signs in.
pub record GithubUser : Type 0 where
  pub id : ℕ
  pub login : String
  pub email : Option String
  pub avatar_url : Option String

-- An HTTP answer: its status class and the parsed body.
pub record Response (Body : Type 0) : Type 0 where
  pub is_ok : Bool
  pub body : Body

-- The body of GitHub's token endpoint.
pub record GithubToken : Type 0 where
  pub error : Option String
  pub access_token : Option String

pub data Call : Type 0 where
  find_unrevoked : String → Call
  find_token : String → Call
  save_token : RefreshToken → Call
  save_new_token : NewToken → Call
  delete_revoked_before : ℕ → Call
  find_user_by_github_id : ℕ → Call
  save_user : User → Call
  save_new_user : NewUser → Call
  sign : String → ℕ → Call
  random_hex : ℕ → Call
  fetch_github_token : String → String → Call
  fetch_github_user : String → Call
  set_cookie : String → String → ℕ → Call
  clear_cookie : String → Call

abbrev pub Ret : Call → Type 0
Ret (find_unrevoked t) = Option RefreshToken
Ret (find_token t) = Option RefreshToken
Ret (save_token r) = RefreshToken
Ret (save_new_token r) = RefreshToken
Ret (delete_revoked_before t) = Unit
Ret (find_user_by_github_id n) = Option User
Ret (save_user u) = User
Ret (save_new_user u) = User
Ret (sign s n) = String
Ret (random_hex n) = String
Ret (fetch_github_token code state) = Response GithubToken
Ret (fetch_github_user token) = Response GithubUser
Ret (set_cookie name value age) = Unit
Ret (clear_cookie name) = Unit

-- TOKEN_CONSTANTS
abbrev pub access_token_ttl_sec : ℕ
access_token_ttl_sec = 60 * 15

abbrev pub refresh_token_ttl_sec : ℕ
refresh_token_ttl_sec = 60 * 60 * 24 * 14

abbrev pub access_token_cookie : String
access_token_cookie = "access_token"

abbrev pub refresh_token_cookie : String
refresh_token_cookie = "refresh_token"

-- `new UnauthorizedException(message)`
abbrev pub unauthorized : String → Error
unauthorized m = record { name = "UnauthorizedException"; message = m }

-- AuthErrorEnum
abbrev pub refresh_fail : String
refresh_fail = "세션이 만료되었어요. 다시 로그인 해주세요"

abbrev pub not_valid_user : String
not_valid_user = "로그인이 필요합니다"

-- AuthResponseEnum
abbrev pub login_success : String
login_success = "로그인 성공"
