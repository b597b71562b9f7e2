-- ===== src/Logs/Stale.antt =====
-- `LogsService` of src/logs/logs.service.ts: the scheduled tasks that check running executions and
-- recover missing logs.
pub mod Checks
pub mod Asks
use otto_handler.Prelude.{
  ℕ, zero, suc, ◌+◌, ◌-◌, ◌*◌, Bool, true, false, String, List, [], ◌∷◌, length, Option, none, some,
  truthy, or_text, ltb, str_eq, if◌then◌else◌,
}
use otto_handler.Prelude.Json.{Metadata, Value, text, number, flag, iso_date, spread}
use otto_handler.Prelude.Text.{template}
use otto_handler.Prelude.Effects.{
  Error, Env, Clock, M, ◌>>=◌, ◌>>◌, return, call, now, try_catch, for_each,
}
use otto_handler.Cloudwatch.Types.{
  ExecutionStatus, pending, running, success, failed, Execution, BuildInfo, Call, find_stale,
  find_successful_since, build_info, save_execution, Ret,
}
use otto_handler.Cloudwatch.Storage.{get_execution_log_count}
use otto_handler.Cloudwatch.Service.{fetch_and_save_all_logs, auto_recover_logs_for_execution}
use otto_handler.Logs.Executions.{update_execution_status}

abbrev pub minutes : ℕ → ℕ
minutes n = n * 60000

-- What the check does with the status that CodeBuild gives.
pub data Verdict : Type 0 where
  succeeded : Verdict
  broken : String → Verdict
  in_progress unknown : Verdict

unfoldable pub verdict : String → Verdict
verdict status =
    if str_eq status "SUCCEEDED"
    then succeeded
    else if str_eq status "FAILED"
    then broken "Build failed"
    else if str_eq status "STOPPED"
    then broken "Build stopped"
    else if str_eq status "TIMED_OUT"
    then broken "Build timed_out"
    else if str_eq status "IN_PROGRESS"
    then in_progress
    else unknown

-- The metadata of a recovery that stored `count` logs.
pub recovered : String → ℕ → Metadata
recovered warning count =
    if ltb 0 count
    then ("logsRecovered", flag true) ∷ ("logsRecoveredCount", number count) ∷ []
    else ("logsRecovered", flag false) ∷ ("warning", text warning) ∷ []

abbrev pub recovery_failed : Metadata
recovery_failed =
    ("logsRecovered", flag false) ∷ ("warning", text "Build succeeded but log recovery failed") ∷ []

abbrev pub both : Option String → Option String → Option (String × String)
both (some group) (some stream) =
    if truthy (some group)
    then if truthy (some stream) then some (group, stream) else none
    else none
both _ _ = none

abbrev pub changes_running : ExecutionStatus → ExecutionStatus → Bool
changes_running running running = false
changes_running pending pending = false
changes_running success success = false
changes_running failed failed = false
changes_running _ _ = true

-- The first loop of a check, over the executions that it found: no failure ends it.
module _ (env : Env Call Ret) (clock : Clock Call) where
  abbrev pub fetch : String → Execution → (group stream : String) → M Call Metadata
  fetch warning x group stream =
      try_catch
        (do
          count ← fetch_and_save_all_logs env clock x.execution_id group stream
          return (recovered warning count))
        (λ _. return recovery_failed)

  abbrev pub from_stream : Execution → M Call Metadata
  from_stream x =
      if truthy x.log_stream_name
      then fetch "Build succeeded but no logs found" x
          (template ("/aws/codebuild/" ∷ x.project_id ∷ [])) (or_text x.log_stream_name "")
      else return (
          ("logsRecovered", flag false)
          ∷ ("warning", text "Build succeeded but no log stream information available")
          ∷ [])

  abbrev pub from_build : Execution → Option (String × String) → M Call Metadata
  from_build x none = from_stream x
  from_build x (some (group, stream)) =
      fetch "Build succeeded but no logs could be retrieved" x group stream

  -- The metadata of a build that succeeded: what the search for missing logs found.
  abbrev pub check_logs : Execution → BuildInfo → ℕ → M Call Metadata
  check_logs x info zero = from_build x (both info.group_name info.stream_name)
  check_logs x info (suc count) = return []

  abbrev pub heartbeat : Metadata → ℕ → Metadata
  heartbeat metadata time =
      spread metadata (("updatedBy", text "heartbeat") ∷ ("checkedAt", iso_date time) ∷ [])

  abbrev pub set_status_at : Execution → ExecutionStatus → Metadata → ℕ → M Call (Unit {0})
  set_status_at x status metadata time =
      if changes_running status x.status
      then update_execution_status env clock x.execution_id status (some (heartbeat metadata time))
      else return tt

  abbrev pub set_status : Execution → ExecutionStatus → Metadata → M Call (Unit {0})
  set_status x status metadata = do time ← now clock; set_status_at x status metadata time

  -- Still running: the row is touched.
  abbrev pub touch : Execution → ℕ → M Call (Unit {0})
  touch x time = do call env (save_execution (record x { updated_at = some time })); return tt

  abbrev pub follow : Execution → BuildInfo → Verdict → M Call (Unit {0})
  follow x info succeeded = do
    count ← get_execution_log_count env clock x.execution_id
    metadata ← check_logs x info count
    set_status x success metadata
  follow x info (broken reason) = set_status x failed (("failureReason", text reason) ∷ [])
  follow x info in_progress = do time ← now clock; touch x time
  follow x info unknown = return tt

  abbrev pub with_info : Execution → String → M Call (Unit {0})
  with_info x id = do info ← call env (build_info id); follow x info (verdict info.build_status)

  abbrev pub check_build : Execution → Option String → M Call (Unit {0})
  check_build x none = return tt
  check_build x (some id) = if truthy (some id) then with_info x id else return tt

  unfoldable pub check_one : Execution → M Call (Unit {0})
  unfolding recovered
  check_one x = try_catch (check_build x x.aws_build_id) (λ _. return tt)

  unfoldable pub check_stale_executions : M Call (Unit {0})
  unfolding check_one
  check_stale_executions =
      try_catch
        (do
          time ← now clock
          stale ← call env (find_stale (time - minutes 5))
          for_each stale check_one)
        (λ _. return tt)

  -- The check by hand counts the executions that it changed.
  abbrev pub settle : Execution → String → M Call Bool
  settle x status = if str_eq status "IN_PROGRESS" then return false else (do
    update_execution_status env clock x.execution_id
        (if str_eq status "SUCCEEDED" then success else failed)
        (some (
          ("updatedBy", text "manual-check")
          ∷ ("previousStatus", text "RUNNING")
          ∷ ("awsStatus", text status)
          ∷ []))
    return true)

  abbrev pub settle_build : Execution → Option String → M Call Bool
  settle_build x none = return false
  settle_build x (some id) =
      if truthy (some id)
      then (do info ← call env (build_info id); settle x info.build_status)
      else return false

  unfoldable pub settle_one : Execution → M Call Bool
  settle_one x = try_catch (settle_build x x.aws_build_id) (λ _. return false)

  unfoldable pub settle_all : List Execution → ℕ → M Call ℕ
  unfolding settle_one
  settle_all [] count = return count
  settle_all (x ∷ xs) count = settle_one x >>= λ b. settle_all xs (if b then count + 1 else count)

  -- How many executions were checked, and how many changed.
  unfoldable pub check_stale_executions_manually : M Call (ℕ × ℕ)
  unfolding settle_all
  check_stale_executions_manually = do
    time ← now clock
    stale ← call env (find_stale (time - minutes 5))
    updated ← settle_all stale 0
    return (length stale, updated)

  abbrev pub recover_if : String → Execution → ℕ → M Call (Unit {0})
  recover_if node_env x (suc count) = return tt
  recover_if node_env x zero =
      if truthy x.log_stream_name
      then (do auto_recover_logs_for_execution env clock node_env x; return tt)
      else return tt

  -- The count of recovered executions is only logged.
  unfoldable pub recover_one : String → Execution → M Call (Unit {0})
  recover_one node_env x =
      try_catch
        (do count ← get_execution_log_count env clock x.execution_id; recover_if node_env x count)
        (λ _. return tt)

  unfoldable pub recover_missing_logs : String → M Call (Unit {0})
  unfolding recover_one
  recover_missing_logs node_env =
      try_catch
        (do
          time ← now clock
          found ← call env (find_successful_since (time - 24 * minutes 60))
          for_each found (recover_one node_env))
        (λ _. return tt)
