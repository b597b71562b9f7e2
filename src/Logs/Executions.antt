-- ===== src/Logs/Executions.antt =====
-- `LogsService` of src/logs/logs.service.ts: the rows of executions and who may see them.
pub mod Laws
use otto_handler.Prelude.{
  ℕ, zero, ◌-◌, ◌+◌, ◌/◌, Bool, true, false, String, List, [], ◌∷◌, Option, none, some, truthy, leb,
  str_eq, if◌then◌else◌,
}
use otto_handler.Prelude.Json.{Metadata, spread, or_empty}
use otto_handler.Prelude.Text.{template}
use otto_handler.Prelude.Effects.{
  Error, Env, Clock, M, ◌>>=◌, ◌>>◌, return, fail, call, now, or_throw, try_catch, when,
}
use otto_handler.Cloudwatch.Types.{
  ExecutionStatus, pending, running, success, failed, Duration, after, before, Execution,
  NewExecution, ExecutionQuery, Call, save_execution, save_new_execution, find_execution,
  find_executions, stop_timer, Ret,
}
use otto_handler.Cloudwatch.Service.{start_polling}

-- `new NotFoundException(message)` and `new ForbiddenException(message)`
abbrev pub not_found : String → Error
not_found m = record { name = "NotFoundException"; message = m }

abbrev pub forbidden : String → Error
forbidden m = record { name = "ForbiddenException"; message = m }

abbrev pub no_execution : String → Error
no_execution id = not_found (template ("Execution " ∷ id ∷ " not found" ∷ []))

-- `if (query.x)`: an empty text and a count of 0 set no condition.
abbrev named_text : Option String → Option String
named_text o = if truthy o then o else none

abbrev present_count : Option ℕ → Option ℕ
present_count (some zero) = none
present_count o = o

effective : ExecutionQuery → ExecutionQuery
effective query = record {
  user_id = named_text query.user_id;
  pipeline_id = named_text query.pipeline_id;
  project_id = named_text query.project_id;
  status = query.status;
  execution_type = query.execution_type;
  limit = present_count query.limit;
  offset = present_count query.offset;
}

abbrev pub is_final : ExecutionStatus → Bool
is_final success = true
is_final failed = true
is_final _ = false

-- `Math.floor((completedAt - startedAt) / 1000)`
unfoldable pub duration_of : (started completed : ℕ) → Duration
duration_of started completed =
    if leb started completed
    then after ((completed - started) / 1000)
    else before ((started - completed + 999) / 1000)

abbrev pub new_duration : Option ℕ → ℕ → Option Duration → Option Duration
new_duration none time old = old
new_duration (some started) time old = some (duration_of started time)

abbrev pub merged : Option Metadata → Option Metadata → Option Metadata
merged none old = old
merged (some m) old = some (spread (or_empty old) m)

-- The row that `updateExecutionStatus` saves.
unfoldable pub with_status : ExecutionStatus → Option Metadata → ℕ → Execution → Execution
with_status status metadata time x =
    if is_final status
    then record x {
      status = status;
      metadata = merged metadata x.metadata;
      completed_at = some time;
      duration = new_duration x.started_at time x.duration;
    }
    else record x { status = status; metadata = merged metadata x.metadata }

abbrev pub has_owner : Option String → String → Bool
has_owner none user = false
has_owner (some owner) user = str_eq owner user

-- `userId && execution.userId !== userId`
abbrev pub is_denied : Option String → Execution → Bool
is_denied none x = false
is_denied (some user) x =
    if truthy (some user) then if str_eq x.user_id user then false else true else false

module _ (env : Env Call Ret) (clock : Clock Call) where
  abbrev pub poll_if_named : Option String → Execution → M Call (Unit {0})
  poll_if_named name x =
      if truthy name
      then try_catch (do start_polling env clock x; return tt) (λ _. return tt)
      else return tt

  unfoldable pub register_execution : NewExecution → M Call Execution
  unfolding start_polling
  register_execution dto = do
    saved ← call env (save_new_execution dto pending)
    poll_if_named dto.log_stream_name saved
    return saved

  unfoldable pub get_executions : ExecutionQuery → M Call (List Execution)
  unfolding effective
  get_executions query = call env (find_executions (effective query))

  unfoldable pub get_execution_by_id : String → Option String → M Call Execution
  get_execution_by_id id user = do
    found ← call env (find_execution id)
    x ← or_throw found (no_execution id)
    if is_denied user x then fail (forbidden "Access denied to this execution") else return x

  -- The end of `updateExecutionStatus`, at the time given.
  abbrev pub store_status :
      String → Execution → ExecutionStatus → Option Metadata → ℕ → M Call (Unit {0})
  store_status id x status metadata time = do
    when (is_final status) (call env (stop_timer id))
    call env (save_execution (with_status status metadata time x))
    return tt

  unfoldable pub update_execution_status :
      String → ExecutionStatus → Option Metadata → M Call (Unit {0})
  unfolding with_status
  update_execution_status id status metadata = do
    found ← call env (find_execution id)
    x ← or_throw found (no_execution id)
    time ← now clock
    store_status id x status metadata time

  -- `development` says whether NODE_ENV is `development`.
  unfoldable pub check_access : Bool → String → String → M Call Bool
  check_access true user id = return true
  check_access false user id = do
    found ← call env (find_execution id)
    x ← or_throw found (no_execution id)
    return (if str_eq x.user_id user then true else has_owner x.project_owner user)
