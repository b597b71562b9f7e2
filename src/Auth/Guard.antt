-- ===== src/Auth/Guard.antt =====
-- The class `AuthGuardRole` of src/common/guard/auth.guard.ts, with `JwtService.decode` of
-- src/auth/jwt.service.ts.
pub mod Laws
use otto_handler.Prelude.{
  Bool, true, false, String, Option, none, some, nonempty, truthy, or_text, str_eq, if◌then◌else◌,
}
use otto_handler.Prelude.Text.{strip_prefix}
use otto_handler.Prelude.Effects.{
  Error, Env, M, ◌>>=◌, ◌>>◌, return, fail, call, or_throw, try_catch,
}
use otto_handler.Auth.Types.{User, unauthorized, not_valid_user}

pub data Call : Type 0 where
  -- `verify` of jsonwebtoken; the payload's `sub`, if it has one
  verify : String → Call
  find_user : String → Call

abbrev pub Ret : Call → Type 0
Ret (verify t) = Option String
Ret (find_user id) = Option User

-- What the guard reads of a request: the access cookie and the `authorization` header.
pub record Request : Type 0 where
  pub cookie : Option String
  pub authorization : Option String

-- `request.user`
pub record RequestUser : Type 0 where
  pub email : String
  pub user_id : String
  pub nickname : String

abbrev pub bearer : String
bearer = "Bearer "

from_header : Option String → Option String
from_header none = none
from_header (some header) = if nonempty header then strip_prefix bearer header else none

unfoldable pub extract_token : Request → Option String
unfolding from_header
extract_token r = if truthy r.cookie then r.cookie else from_header r.authorization

-- The value as a condition: an absent or empty text counts as missing.
unfoldable pub present : Option String → Option String
present none = none
present (some s) = if nonempty s then some s else none

abbrev pub denied : Error
denied = unauthorized not_valid_user

unfoldable pub request_user : User → RequestUser
request_user u = record {
  email = u.email;
  user_id = u.user_id;
  nickname = or_text (some u.github_user_name) "user";
}

-- the `catch` block: a ForbiddenException passes, all else becomes the one error
rethrow : Error → M Call RequestUser
rethrow e = if str_eq e.name "ForbiddenException" then fail e else fail denied

module _ (env : Env Call Ret) where
  -- `decode` answers null where verification throws.
  decode : String → M Call (Option String)
  decode token = try_catch (call env (verify token)) (λ _. return none)

  check : String → M Call RequestUser
  unfolding decode
  check token = do
    payload ← decode token
    sub ← or_throw (present payload) denied
    found ← call env (find_user sub)
    user ← or_throw found denied
    return (request_user user)

  admit : Option String → M Call RequestUser
  unfolding check
  admit none = fail denied
  admit (some token) = try_catch (check token) rethrow

  unfoldable pub can_activate : Request → M Call RequestUser
  unfolding admit extract_token present rethrow
  can_activate r = admit (present (extract_token r))
