-- ===== src/Auth/Examples.antt =====
-- Runs of the authentication code against a repository and a clock, and the theorems at them.
use otto_handler.Prelude.{
  ◌≡◌, refl, Bool, true, false, String, List, [], ◌∷◌, Option, none, some, arith, nonempty,
  if◌then◌else◌,
}
use otto_handler.Prelude.Text.{strip_prefix}
use otto_handler.Prelude.Effects.{error, resolve, reject, ok, throw, Env, Clock, history}
use otto_handler.Auth.Types
use otto_handler.Auth.Types.{
  User, RefreshToken, GithubUser, find_unrevoked, find_token, save_token, save_new_token,
  delete_revoked_before, find_user_by_github_id, save_user, save_new_user, sign, random_hex,
  fetch_github_token, fetch_github_user, set_cookie, clear_cookie, unauthorized, refresh_fail,
}
use otto_handler.Auth.Service.{
  login_response, revoked, login_by_refresh, create_or_update_github_user,
}
use otto_handler.Auth.Service.Rotation.{login_by_refresh_unknown}
use otto_handler.Auth.Service.SingleUse.{saved_revoked, IsTokenStore, login_by_refresh_once}
use otto_handler.Auth.Guard
use otto_handler.Auth.Guard.{
  Request, RequestUser, request_user, can_activate, denied, verify, find_user,
}
use otto_handler.Auth.Controller.{auth_sign_out, auth_refresh_sign_in}
use otto_handler.Auth.Controller.SignOut.{auth_refresh_sign_in_after-auth_sign_out}
use otto_handler.Auth.Guard.Laws.{Passes, can_activate-Passes}

abbrev ann : User
ann = record {
  user_id = "u1";
  email = "ann@example.org";
  github_user_name = "ann";
  github_avatar_url = "";
  github_id = 7;
}

abbrev row : String → RefreshToken
row t = record {
  refresh_token_id = "r1";
  user_id = "u1";
  token = t;
  expires_at = 2000000;
  is_revoked = false;
}

abbrev stored : Bool → String → Option RefreshToken
stored true t = none
stored false t = some (row t)

-- A repository in which every token is stored until it is saved as revoked.
abbrev store : Env Types.Call Types.Ret
store h (find_unrevoked t) = resolve (stored (saved_revoked t h) t)
store h (find_token t) = resolve (some (row t))
store h (save_token r) = resolve r
store h (save_new_token r) = resolve (row r.token)
store h (delete_revoked_before t) = resolve tt
store h (find_user_by_github_id n) = resolve (some ann)
store h (save_user u) = resolve u
store h (save_new_user u) = resolve ann
store h (sign s n) = resolve "jwt"
store h (random_hex n) = resolve "fresh"
store h (fetch_github_token code state) = reject (error "down")
store h (fetch_github_user token) = reject (error "down")
store h (set_cookie name value age) = resolve tt
store h (clear_cookie name) = resolve tt

abbrev early : Clock Types.Call
early h = 1000000

stored_token :
    (b : Bool) (t : String) (r : RefreshToken)
    → resolve (stored b t) ≡ resolve (some r)
    → (r.token ≡ t) × (b ≡ false)
stored_token true t r e = cc
stored_token false t r e = ground arith

store-IsTokenStore : IsTokenStore store
store-IsTokenStore = record {
  matches = λ h t r e. (stored_token (saved_revoked t h) t r e).0;
  hides = λ h t r e. (stored_token (saved_revoked t h) t r e).1;
}

abbrev first_calls : List Types.Call
first_calls = history (login_by_refresh store early "t" true [])

login_by_refresh_unknown_example :
    login_by_refresh store early "t" false (save_token (revoked (row "t")) ∷ [])
    ≡ throw (unauthorized refresh_fail) (find_unrevoked "t" ∷ save_token (revoked (row "t")) ∷ [])
login_by_refresh_unknown_example =
    login_by_refresh_unknown store early "t" false (save_token (revoked (row "t")) ∷ []) refl

login_by_refresh_once_example : ¬ (
    login_by_refresh store early "t" true (clear_cookie "x" ∷ first_calls)
    ≡ ok (login_response "jwt" "fresh") [])
unfolding login_by_refresh
login_by_refresh_once_example =
    login_by_refresh_once store early store-IsTokenStore "t" true true [] (clear_cookie "x" ∷ [])
      (login_response "jwt" "fresh") (login_response "jwt" "fresh") first_calls [] refl

abbrev octocat : GithubUser
octocat = record { id = 7; login = "octocat"; email = none; avatar_url = some "pic" }

abbrev sign_in_calls : List Types.Call
sign_in_calls = history (create_or_update_github_user store early octocat [])

-- A verifier that knows one token, and the user that it names.
abbrev keys : Env Guard.Call Guard.Ret
keys h (verify t) = if nonempty t then resolve (some "u1") else reject (error "jwt malformed")
keys h (find_user id) = resolve (some ann)

abbrev signed_request : Request
signed_request = record { cookie = none; authorization = some "Bearer abc" }

can_activate-Passes_example :
    Passes keys signed_request [] (request_user ann) (find_user "u1" ∷ verify "abc" ∷ [])
unfolding can_activate strip_prefix
can_activate-Passes_example =
    can_activate-Passes keys signed_request [] (request_user ann)
      (find_user "u1" ∷ verify "abc" ∷ []) refl

abbrev signed_out : List Types.Call
signed_out = history (auth_sign_out store early (some "t") [])

auth_refresh_sign_in_after-auth_sign_out_example : ¬ (
    auth_refresh_sign_in store early (some "t") (clear_cookie "x" ∷ signed_out)
    ≡ ok (login_response "jwt" "fresh") [])
unfolding auth_sign_out auth_refresh_sign_in
auth_refresh_sign_in_after-auth_sign_out_example =
    auth_refresh_sign_in_after-auth_sign_out store early store-IsTokenStore (some "t") (row "t")
      (revoked (row "t")) "로그아웃되었습니다." [] signed_out (clear_cookie "x" ∷ []) []
      (login_response "jwt" "fresh") refl refl refl refl

-- Without a cookie, no row is looked up.
auth_refresh_sign_in_without_cookie :
    auth_refresh_sign_in store early none [] ≡ throw (unauthorized "Refresh token not found") []
unfolding auth_refresh_sign_in
auth_refresh_sign_in_without_cookie = refl
