-- ===== src/EventBridge/Service.antt =====
-- `EventBridgeService` of src/logs/eventbridge.service.ts: the handling of an event.
use otto_handler.Prelude.{
  ℕ, zero, suc, Bool, true, false, String, List, [], ◌∷◌, Option, none, some, truthy, or_text,
  str_eq, if◌then◌else◌,
}
use otto_handler.Prelude.Text.{split, last_of, strip_prefix}
use otto_handler.Prelude.Json.{Metadata, text, iso_date, object, field, end}
use otto_handler.Prelude.Effects.{Env, Clock, M, ◌>>=◌, ◌>>◌, return, call, now, try_catch, when}
use otto_handler.Cloudwatch.Types.{
  pending, Execution, LogRow, find_execution, save_execution, stop_timer,
}
use otto_handler.Cloudwatch.Storage.{get_execution_log_count, get_execution_logs}
use otto_handler.Cloudwatch.Service.{start_polling, auto_recover_logs_for_execution}
use otto_handler.Logs.Executions.{update_execution_status}
use otto_handler.Deployment.Types.{Config}
use otto_handler.EventBridge.Types.{
  Detail, Event, Call, logs, find_by_build, create_build, is_polling, emit_phase, broadcast_status,
  broadcast_logs, broadcast_rows, broadcast_complete, sleep, with_logs, Ret,
}
use otto_handler.EventBridge.Dedup.{check_duplicate, save_event_history}
use otto_handler.EventBridge.Deploy.{
  value_of, trigger_deployment_after_build, update_deployment_to_success,
}
use otto_handler.EventBridge.Builds.{
  new_build, build_metadata, is_status, status_of, get_log_level, format_log_message,
}

-- `config` holds what the services read of the configuration, and `node_env` is NODE_ENV.
module _ (env : Env Call Ret) (clock : Clock Call) (config : Config) (node_env : String) where
  -- A poller that cannot be started is only logged.
  abbrev pub poll : Execution → M Call (Unit {0})
  poll x =
      try_catch (do with_logs env clock (λ e c. start_polling e c x); return tt) (λ _. return tt)

  unfoldable pub find_execution_by_build_id : String → M Call (Option Execution)
  find_execution_by_build_id id = try_catch (call env (find_by_build id)) (λ _. return none)

  abbrev pub poll_unless : Execution → Bool → M Call (Unit {0})
  poll_unless x true = return tt
  poll_unless x false = poll x

  abbrev pub phase_of : Detail → Option Execution → M Call (Unit {0})
  phase_of d none = return tt
  phase_of d (some x) = do
    polling ← call env (is_polling x.execution_id)
    poll_unless x polling
    call env (
        emit_phase x.execution_id (or_text d.current_phase (or_text d.completed_phase ""))
          (or_text d.current_phase_status (or_text d.completed_phase_status "")))

  abbrev pub change_phase : Detail → M Call (Unit {0})
  change_phase d = do found ← find_execution_by_build_id d.build_id; phase_of d found

  unfoldable pub create_new_execution : Event → Detail → M Call (Unit {0})
  unfolding new_build start_polling
  create_new_execution event d = do x ← call env (create_build (new_build event d)); poll x

  -- A row that the build service has created gets the id of the build.
  abbrev pub adopted : Detail → Execution → Execution
  adopted d x = record x {
    log_stream_name =
        if truthy x.log_stream_name
        then x.log_stream_name
        else some (last_of (split b':' d.build_id));
    aws_build_id = some d.build_id;
  }

  abbrev pub adopt : Event → Detail → Option Execution → M Call (Option Execution)
  adopt event d none = do create_new_execution event d; return none
  adopt event d (some x) = do
    call env (logs (save_execution (adopted d x)))
    poll (adopted d x)
    return (some (adopted d x))

  -- The execution of an event, if it is to be updated.
  abbrev pub execution_of : Event → Detail → Option Execution → M Call (Option Execution)
  execution_of event d (some x) = return (some x)
  execution_of event d none =
      if is_status "IN_PROGRESS" d.build_status
      then (do
        found ← call env (logs (find_execution (last_of (split b':' d.build_id))))
        adopt event d found)
      else return none

  abbrev pub broadcast_recovered : String → List LogRow → M Call (Unit {0})
  broadcast_recovered id [] = return tt
  broadcast_recovered id (row ∷ rows) = call env (broadcast_rows id (row ∷ rows))

  abbrev pub after_recovery : String → ℕ → M Call (Unit {0})
  after_recovery id zero = return tt
  after_recovery id (suc n) = do
    rows ← with_logs env clock (λ e c. get_execution_logs e c id (some 1000) (some 0))
    broadcast_recovered id rows

  abbrev pub recover_if_empty : Execution → ℕ → M Call (Unit {0})
  recover_if_empty x (suc n) = return tt
  recover_if_empty x zero = do
    count ← with_logs env clock (λ e c. auto_recover_logs_for_execution e c node_env x)
    after_recovery x.execution_id count

  abbrev pub recover_found : Option Execution → M Call (Unit {0})
  recover_found none = return tt
  recover_found (some x) = do
    count ← with_logs env clock (λ e c. get_execution_log_count e c x.execution_id)
    recover_if_empty x count

  unfoldable pub check_and_recover_logs : String → M Call (Unit {0})
  unfolding auto_recover_logs_for_execution get_execution_log_count get_execution_logs
  check_and_recover_logs id =
      try_catch
        (do call env (sleep 2000); found ← call env (logs (find_execution id)); recover_found found)
        (λ _. return tt)

  abbrev pub final_event : String → Option String → ℕ → Metadata
  final_event id status time =
      ("executionId", text id)
      ∷ ("type", text "execution-complete")
      ∷ ("status", value_of status)
      ∷ ("completedAt", iso_date time)
      ∷ []

  abbrev pub after_success : Execution → M Call (Unit {0})
  after_success x = do
    check_and_recover_logs x.execution_id
    trigger_deployment_after_build env clock x

  abbrev pub announce_end : Execution → Option String → ℕ → M Call (Unit {0})
  announce_end x status time = do
    call env (broadcast_complete x.execution_id (or_text status ""))
    call env (broadcast_logs x.execution_id (final_event x.execution_id status time))

  unfoldable pub finalize_execution : Execution → Option String → M Call (Unit {0})
  unfolding check_and_recover_logs trigger_deployment_after_build
  finalize_execution x status =
      try_catch
        (do
          call env (logs (stop_timer x.execution_id))
          time ← now clock
          announce_end x status time
          when (is_status "SUCCEEDED" status) (after_success x))
        (λ _. return tt)

  abbrev pub is_end : Option String → Bool
  is_end status =
      if is_status "SUCCEEDED" status
      then true
      else if is_status "FAILED" status
      then true
      else is_status "STOPPED" status

  -- The event as the browsers see it.
  abbrev pub build_log_event : Event → Detail → Execution → Metadata
  build_log_event event d x =
      ("executionId", text x.execution_id)
      ∷ ("timestamp", iso_date event.time)
      ∷ ("type", text "build-status-change")
      ∷ ("level", text (get_log_level d.build_status))
      ∷ ("message", text (format_log_message d))
      ∷ (
        "metadata",
        object (
            field "buildId" (text d.build_id) (
              field "status" (value_of d.build_status) (
                field "phase" (value_of d.current_phase) (
                  field "phaseContext" (value_of d.current_phase_context) (
                    field "projectName" (text d.project_name)
                      (field "source" (text "eventbridge") end)))))),
      )
      ∷ []

  abbrev pub caught : M Call (Unit {0}) → M Call (Unit {0})
  caught m = try_catch m (λ _. return tt)

  abbrev pub update_known : Event → Detail → Option Execution → M Call (Unit {0})
  update_known event d none = return tt
  update_known event d (some x) = do
    with_logs env clock (λ e c.
        update_execution_status e c x.execution_id (status_of d.build_status x.status)
          (some (build_metadata d)))
    caught (call env (broadcast_status x.execution_id (status_of d.build_status pending)))
    caught (call env (broadcast_logs x.execution_id (build_log_event event d x)))
    when (is_end d.build_status) (finalize_execution x d.build_status)

  abbrev pub change_state : Event → Detail → M Call (Unit {0})
  change_state event d = do
    found ← find_execution_by_build_id d.build_id
    x ← execution_of event d found
    update_known event d x

  unfoldable pub process_code_build_event : Event → Detail → M Call (Unit {0})
  unfolding find_execution_by_build_id create_new_execution finalize_execution
      update_execution_status status_of build_metadata
  process_code_build_event event d =
      if truthy d.build_status
      then change_state event d
      else if str_eq event.detail_type "CodeBuild Build Phase Change"
      then change_phase d
      else change_state event d

  -- `group.startsWith('service:') ? group.substring(8) : group || 'unknown'`
  abbrev pub service_of : Option String → String
  service_of none = "unknown"
  service_of (some group) = elim (strip_prefix "service:" group) [
    | some s ↦ s
    | none ↦ or_text (some group) "unknown"
  ]

  -- Of the events of ECS, only a running task does more than write log messages.
  unfoldable pub process_ecs_event : Event → Detail → M Call (Unit {0})
  unfolding update_deployment_to_success
  process_ecs_event event d =
      if str_eq event.detail_type "ECS Task State Change"
      then if is_status "RUNNING" d.last_status
        then update_deployment_to_success env clock config (service_of d.task_group)
        else return tt
      else return tt

  abbrev pub by_source : Event → Detail → M Call (Unit {0})
  by_source event d =
      if str_eq event.source "aws.codebuild"
      then process_code_build_event event d
      else if str_eq event.source "aws.ecs"
      then process_ecs_event event d
      else return tt

  abbrev pub process_new : Event → Detail → Bool → M Call (Unit {0})
  process_new event d false = return tt
  process_new event d true = do save_event_history env clock event.id; by_source event d

  unfoldable pub process_event : Event → Detail → M Call (Unit {0})
  unfolding check_duplicate save_event_history process_code_build_event process_ecs_event
  process_event event d = do is_new ← check_duplicate env clock event.id; process_new event d is_new
