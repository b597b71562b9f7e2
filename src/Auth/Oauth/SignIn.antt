-- ===== src/Auth/Oauth/SignIn.antt =====
-- Sign-in by GitHub (src/auth/auth.service.ts, src/auth/github-oauth.service.ts).
use otto_handler.Prelude.{◌≡◌, ◌⊎◌, String, List, ◌∷◌, Option, none, some, arith}
use otto_handler.Prelude.Effects.{Error, ok, throw, Env, Clock, resolve}
use otto_handler.Auth.Types.{
  User, GithubUser, Call, find_user_by_github_id, save_user, save_new_user, save_new_token, sign,
  random_hex, Ret, access_token_ttl_sec,
}
use otto_handler.Auth.Service.{LoginResponse, updated_user, new_user, expiry, store_user}
use otto_handler.Auth.Oauth.{get_user_info, http_unauthorized}

-- The write that stores the account: an update of the user that the repository holds for its
-- GitHub id, or else a new user.
abbrev pub store_call : GithubUser → Option User → Call
store_call g none = save_new_user (new_user g)
store_call g (some user) = save_user (updated_user g user)

module _ (env : Env Call Ret) (clock : Clock Call) where
  -- How a sign-in that resolves came about.
  pub record SignedIn (g : GithubUser) (h : List Call) (r : LoginResponse) (h' : List Call)
      : Type 0 where
    pub known : Option User
    pub found : env h (find_user_by_github_id g.id) ≡ resolve known
    pub user : User
    pub stored :
        store_user env clock g known (find_user_by_github_id g.id ∷ h)
        ≡ ok user (store_call g known ∷ find_user_by_github_id g.id ∷ h)
    pub calls :
        h'
        ≡ save_new_token (record {
          user_id = user.user_id;
          token = r.refresh_token;
          expires_at = expiry (clock h);
        })
          ∷ random_hex 64
          ∷ sign user.user_id access_token_ttl_sec
          ∷ store_call g known
          ∷ find_user_by_github_id g.id
          ∷ h

  -- The token lookup never rejects; the profile lookup rejects with status 401 alone.
  get_user_info_rejects :
      (code state : String) (h : List Call) (e : Error) (h' : List Call)
      → get_user_info env clock code state h ≡ throw e h'
      → (e ≡ http_unauthorized "GitHub 토큰 획득 실패") ⊎ (e ≡ http_unauthorized "로그인 실패")
  unfolding get_user_info
  get_user_info_rejects code state h e h' p = ground arith
