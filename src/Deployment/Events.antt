-- ===== src/Deployment/Events.antt =====
-- The class `DeploymentEventsService` of src/deployment/deployment-events.service.ts.
pub mod Writes
pub mod Rows
pub mod Entries
pub mod Handled
pub mod Progress
use otto_handler.Prelude.{
  ℕ, Bool, true, false, zero, suc, String, List, [], ◌∷◌, Option, none, some, truthy, nonempty,
  if◌then◌else◌,
}
use otto_handler.Prelude.Text.{template, strip_prefix}
use otto_handler.Prelude.Maps.{lookup}
use otto_handler.Prelude.Effects.{Error, Env, M, Clock, now, ◌>>=◌, ◌>>◌, return, call, try_catch}
use otto_handler.Deployment.Types
use otto_handler.Deployment.Types.{
  DeploymentStatus, pending, in_progress, deploying_ecs, configuring_alb, waiting_health_check,
  success, failed, rolled_back, Value, undefined, text, number, flag, iso_date, items, object,
  Values, nil, cons, Fields, end, field, Metadata, spread, or_empty, Deployment, Call,
  find_by_pipeline, find_by_service_arn, find_by_target_group, Ret, Config,
}
use otto_handler.Deployment.Tracker.{with_metadata, update_deployment_status, complete_deployment}
use otto_handler.Deployment.Details.{
  optional, ServiceEventType, EcsServiceDetail, TaskStatus, EcsTaskDetail, TargetState,
  TargetDetail, add_entry, running_task, stopped_task, healthy_target, unhealthy_target,
  service_task_definition_updated, service_steady_state, unknown_event, task_pending, task_running,
  task_stopped, healthy, unhealthy, unavailable, draining, unknown_state,
}

abbrev pub active_statuses : List DeploymentStatus
active_statuses =
    pending ∷ in_progress ∷ deploying_ecs ∷ configuring_alb ∷ waiting_health_check ∷ []

abbrev pub target_statuses : List DeploymentStatus
target_statuses = configuring_alb ∷ waiting_health_check ∷ []

-- `exitCode !== 0`, also of a missing exit code
abbrev pub failed_exit : Option ℕ → Bool
failed_exit (some zero) = false
failed_exit _ = true

-- `/^service-(.+)$/` and `/^service:(.+)$/`: the text behind the prefix, if there is any.
after_prefix : String → String → Option String
after_prefix prefix s = elim (strip_prefix prefix s) [
  | none ↦ none
  | some rest ↦ if nonempty rest then some rest else none
]

unfoldable pub extract_service_name : String → Option String
unfolding after_prefix
extract_service_name group = after_prefix "service:" group

-- `deployment.deployUrl || undefined`
abbrev pub present_text : Option String → Option String
present_text o = if truthy o then o else none

module _ (env : Env Call Ret) (config : Config) (clock : Clock Call) where
  abbrev pub by_service_arn : String → M Call (Option Deployment)
  by_service_arn name =
      call env (find_by_service_arn (template ("%" ∷ name ∷ "%" ∷ [])) active_statuses)

  abbrev pub or_by_arn : String → Option Deployment → M Call (Option Deployment)
  or_by_arn name none = by_service_arn name
  or_by_arn name (some d) = return (some d)

  abbrev pub find_by_name : String → Option String → M Call (Option Deployment)
  find_by_name name none = by_service_arn name
  find_by_name name (some id) = do
    found ← call env (find_by_pipeline id active_statuses)
    or_by_arn name found

  unfoldable pub find_deployment_by_service_name : String → M Call (Option Deployment)
  unfolding after_prefix
  find_deployment_by_service_name name = find_by_name name (after_prefix "service-" name)

  -- `updateDeploymentStatus` as the handlers call it, which discard the row.
  abbrev pub update : Deployment → DeploymentStatus → Metadata → M Call (Unit {0})
  update d status metadata = do
    update_deployment_status env config clock d.deployment_id status (with_metadata metadata)
    return tt

  unfoldable pub handle_service_task_definition_updated :
      Deployment → EcsServiceDetail → M Call (Unit {0})
  handle_service_task_definition_updated d detail = update d deploying_ecs (
      spread (or_empty d.metadata) (
        ("taskDefinitionArn", optional detail.task_definition_arn)
        ∷ ("desiredCount", number detail.desired_count)
        ∷ ("runningCount", number detail.running_count)
        ∷ ("pendingCount", number detail.pending_count)
        ∷ []))

  unfoldable pub handle_service_steady_state : Deployment → EcsServiceDetail → M Call (Unit {0})
  handle_service_steady_state d detail = do
    time ← now clock
    update d configuring_alb (
        spread (or_empty d.metadata) (
          ("steadyStateReached", flag true)
          ∷ ("steadyStateAt", iso_date time)
          ∷ ("runningCount", number detail.running_count)
          ∷ []))

  -- At most one of the two conditions of the source holds.
  abbrev pub by_task_status : TaskStatus → Deployment → EcsTaskDetail → M Call (Unit {0})
  by_task_status task_running d detail =
      update d d.status (add_entry "runningTasks" (running_task detail) d.metadata)
  by_task_status task_stopped d detail =
      if failed_exit detail.exit_code
      then update d d.status (add_entry "stoppedTasks" (stopped_task detail) d.metadata)
      else return tt
  by_task_status task_pending d detail = return tt

  unfoldable pub handle_task_status_update : Deployment → EcsTaskDetail → M Call (Unit {0})
  unfolding running_task stopped_task
  handle_task_status_update d detail = by_task_status detail.last_status d detail

  abbrev pub healthy_in : DeploymentStatus → Deployment → TargetDetail → M Call (Unit {0})
  healthy_in waiting_health_check d detail =
      complete_deployment env config clock d.deployment_id true (present_text d.deploy_url)
  healthy_in _ d detail =
      update d d.status (add_entry "healthyTargets" (healthy_target detail) d.metadata)

  unfoldable pub handle_target_healthy : Deployment → TargetDetail → M Call (Unit {0})
  unfolding healthy_target
  handle_target_healthy d detail = healthy_in d.status d detail

  unfoldable pub handle_target_unhealthy : Deployment → TargetDetail → M Call (Unit {0})
  unfolding unhealthy_target
  handle_target_unhealthy d detail =
      update d d.status (add_entry "unhealthyTargets" (unhealthy_target detail) d.metadata)

  abbrev pub by_event_type : ServiceEventType → Deployment → EcsServiceDetail → M Call (Unit {0})
  by_event_type service_task_definition_updated d detail =
      handle_service_task_definition_updated d detail
  by_event_type service_steady_state d detail = handle_service_steady_state d detail
  by_event_type unknown_event d detail = return tt

  abbrev pub by_target_state : TargetState → Deployment → TargetDetail → M Call (Unit {0})
  by_target_state healthy d detail = handle_target_healthy d detail
  by_target_state unhealthy d detail = handle_target_unhealthy d detail
  by_target_state _ d detail = return tt

  -- `if (!deployment) return`
  abbrev pub if_found : Option Deployment → (Deployment → M Call (Unit {0})) → M Call (Unit {0})
  if_found none f = return tt
  if_found (some d) f = f d

  -- A failure of the steps is logged and goes no further.
  abbrev pub logged : M Call (Unit {0}) → M Call (Unit {0})
  logged m = try_catch m (λ _. return tt)

  unfoldable pub handle_ecs_service_state_change : EcsServiceDetail → M Call (Unit {0})
  unfolding find_deployment_by_service_name
  handle_ecs_service_state_change detail = logged (do
    found ← find_deployment_by_service_name detail.service_name
    if_found found (λ d. by_event_type detail.event_type d detail))

  abbrev pub on_task : Option String → EcsTaskDetail → M Call (Unit {0})
  on_task none detail = return tt
  on_task (some name) detail = do
    found ← find_deployment_by_service_name name
    if_found found (λ d. handle_task_status_update d detail)

  unfoldable pub handle_ecs_task_state_change : EcsTaskDetail → M Call (Unit {0})
  unfolding find_deployment_by_service_name handle_task_status_update
  handle_ecs_task_state_change detail = logged (on_task (extract_service_name detail.group) detail)

  unfoldable pub handle_alb_target_health_state_change : TargetDetail → M Call (Unit {0})
  unfolding handle_target_healthy handle_target_unhealthy
  handle_alb_target_health_state_change detail = logged (do
    found ← call env (find_by_target_group detail.target_group_arn target_statuses)
    if_found found (λ d. by_target_state detail.state d detail))
