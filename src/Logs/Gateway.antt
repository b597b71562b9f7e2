-- ===== src/Logs/Gateway.antt =====
-- `LogsGateway` of src/logs/logs.gateway.ts: the web sockets of browsers that follow executions.
pub mod Access
pub mod Examples
use otto_handler.Prelude.{
  ℕ, Bool, true, false, String, List, [], ◌∷◌, map, ◌++◌, Option, none, some, truthy, nonempty,
  or_text, if◌then◌else◌,
}
use otto_handler.Prelude.Text.{template, split}
use otto_handler.Prelude.Maps.{Dictionary, insert, lookup}
use otto_handler.Prelude.Effects.{
  Error, Env, Clock, M, ◌>>=◌, ◌>>◌, return, call, try_catch, for_each,
}
use otto_handler.Prelude.Lift.{lifted, inner_clock}
use otto_handler.Cloudwatch.Types
use otto_handler.Cloudwatch.Types.{ExecutionStatus, LogEvent, LogRow, recent_logs}
use otto_handler.Logs.Executions.{check_access}
use otto_handler.Logs.Combined.{get_historical_logs}

-- What a verified token says of its user.
pub record Claims : Type 0 where
  pub sub : Option String
  pub user_id : Option String

-- `String.prototype.trim`, and `decodeURIComponent`, which may throw.
pub record Runtime : Type 0 where
  pub trim : String → String
  pub decode_uri : String → Option String

pub data Call : Type 0 where
  logs : Types.Call → Call
  decode_token : String → Call
  emit_error : (message code : String) → Option String → Call
  disconnect : Call
  join leave : (room : String) → Call
  emit_buffered : List LogEvent → Call
  emit_historical : List LogRow → Call
  emit_subscribed emit_unsubscribed : (id : String) → Call
  new_log : (room : String) → LogEvent → Call
  status_changed : (room id : String) → ExecutionStatus → Call
  execution_complete : (room id status : String) → Call

abbrev pub Ret : Call → Type 0
Ret (logs c) = Types.Ret c
Ret (decode_token token) = Option Claims
Ret _ = Unit

abbrev pub with_logs :
    {A : Type 0}
    → Env Call Ret
    → Clock Call
    → (Env Types.Call Types.Ret → Clock Types.Call → M Types.Call A)
    → M Call A
with_logs env clock run h =
    lifted logs h (run (λ k c. env (map logs k ++ h) (logs c)) (inner_clock logs clock h) [])

abbrev pub room_of : String → String
room_of id = template ("execution:" ∷ id ∷ [])

-- `rest.join('=')`
abbrev joined_by : String → List String → String
joined_by c [] = ""
joined_by c (s ∷ []) = s
joined_by c (s ∷ t ∷ rest) = template (s ∷ c ∷ joined_by c (t ∷ rest) ∷ [])

abbrev with_cookie : Runtime → List String → Dictionary String → Option (Dictionary String)
with_cookie r [] cookies = some cookies
with_cookie r (key ∷ rest) cookies =
    if nonempty key
    then elim (r.decode_uri (joined_by "=" rest)) [
      | none ↦ none
      | some value ↦ some (insert key value cookies)
    ]
    else some cookies

-- A cookie that cannot be decoded ends the loop.
unfoldable pub cookies_from : Runtime → List String → Dictionary String → Dictionary String
cookies_from r [] cookies = cookies
cookies_from r (cookie ∷ rest) cookies = elim (with_cookie r (split b'=' (r.trim cookie)) cookies) [
  | none ↦ cookies
  | some more ↦ cookies_from r rest more
]

unfoldable pub parse_cookies : Runtime → String → Dictionary String
unfolding cookies_from
parse_cookies r text = if nonempty text then cookies_from r (split b';' text) [] else []

-- The token of the handshake, or else that of the cookie.
abbrev pub handshake_token : Runtime → (token cookie : Option String) → String
handshake_token r token cookie =
    if truthy token
    then or_text token ""
    else if truthy cookie
    then or_text (lookup "access_token" (parse_cookies r (or_text cookie ""))) ""
    else ""

module _ (env : Env Call Ret) (clock : Clock Call) where
  abbrev pub user_of : Option Claims → Option String
  user_of none = none
  user_of (some c) = if truthy c.sub then c.sub else if truthy c.user_id then c.user_id else none

  unfoldable pub validate_token : String → M Call (Option String)
  validate_token token =
      if nonempty token
      then try_catch (do claims ← call env (decode_token token); return (user_of claims))
          (λ _. return none)
      else return none

  abbrev pub refuse : (message code : String) → Option String → M Call (Option String)
  refuse message code details = do
    call env (emit_error message code details)
    call env disconnect
    return none

  abbrev pub admit_user : Bool → Option String → M Call (Option String)
  admit_user development (some user) = return (some user)
  admit_user true none = return (some "dev-user-no-auth")
  admit_user false none = refuse "Authentication failed: Invalid token" "AUTH_FAILED" none

  abbrev pub admit_error : Bool → Error → M Call (Option String)
  admit_error true e = return (some "dev-user-error")
  admit_error false e = refuse "Authentication error" "AUTH_ERROR" (some e.message)

  abbrev pub is_anonymous : Bool → String → Bool
  is_anonymous development token =
      if development then if nonempty token then false else true else false

  -- The user that is kept with the connection, unless it is refused.
  unfoldable pub handle_connection :
      Runtime → Bool → (token cookie : Option String) → M Call (Option String)
  unfolding parse_cookies validate_token
  handle_connection r development token cookie =
      if is_anonymous development (handshake_token r token cookie)
      then return (some "dev-user")
      else try_catch
          (do user ← validate_token (handshake_token r token cookie); admit_user development user)
          (admit_error development)

  abbrev pub send_buffered : List LogEvent → M Call (Unit {0})
  send_buffered [] = return tt
  send_buffered (log ∷ rest) = call env (emit_buffered (log ∷ rest))

  abbrev pub send_historical : List LogRow → M Call (Unit {0})
  send_historical [] = return tt
  send_historical (row ∷ rows) = call env (emit_historical (row ∷ rows))

  abbrev pub follow_room : Bool → String → M Call (Unit {0})
  follow_room development id = do
    call env (join (room_of id))
    buffered ← call env (logs (recent_logs id none))
    send_buffered buffered
    rows ← with_logs env clock (λ e c. get_historical_logs e c development id 1000)
    send_historical rows
    call env (emit_subscribed id)

  abbrev pub follow_if : Bool → String → Bool → M Call (Unit {0})
  follow_if development id true = follow_room development id
  follow_if development id false =
      call env (emit_error "Access denied to this execution" "ACCESS_DENIED" none)

  abbrev pub refuse_anonymous : M Call (Unit {0})
  refuse_anonymous = call env (emit_error "Unauthorized" "UNAUTHORIZED" none)

  abbrev pub checked : Bool → (user id : String) → M Call (Unit {0})
  checked development user id = do
    granted ← with_logs env clock (λ e c. check_access e c development user id)
    follow_if development id granted

  abbrev pub subscribe_as : Bool → Option String → String → M Call (Unit {0})
  subscribe_as development none id = refuse_anonymous
  subscribe_as development (some user) id =
      if nonempty user
      then if nonempty id
        then checked development user id
        else call env (emit_error "Execution ID is required" "INVALID_PAYLOAD" none)
      else refuse_anonymous

  unfoldable pub handle_subscribe : Bool → Option String → String → M Call (Unit {0})
  unfolding check_access get_historical_logs
  handle_subscribe development user id = try_catch (subscribe_as development user id) (λ e.
      call env
        (emit_error "Failed to subscribe to execution logs" "SUBSCRIBE_FAILED" (some e.message)))

  unfoldable pub handle_unsubscribe : String → M Call (Unit {0})
  handle_unsubscribe id = do call env (leave (room_of id)); call env (emit_unsubscribed id)

  -- Each log is sent on its own; `broadcastLogs` does the same.
  unfoldable pub handle_new_logs : String → List LogEvent → M Call (Unit {0})
  handle_new_logs id new = for_each new (λ log. call env (new_log (room_of id) log))

  broadcast_status_change : String → ExecutionStatus → M Call (Unit {0})
  broadcast_status_change id status = call env (status_changed (room_of id) id status)

  broadcast_execution_complete : (id status : String) → M Call (Unit {0})
  broadcast_execution_complete id status = call env (execution_complete (room_of id) id status)
