-- ===== src/Deployment/Events/Rows.antt =====
-- What the handlers of src/deployment/deployment-events.service.ts save of the row that they found.
use otto_handler.Prelude.{◌≡◌, refl, subst, inl, inr, Bool-cases, List}
use otto_handler.Prelude.Effects.{history, M, Env, Clock}
use otto_handler.Deployment.Types.{
  DeploymentStatus, pending, in_progress, deploying_ecs, configuring_alb, waiting_health_check,
  success, failed, rolled_back, Metadata, Deployment, Call, Ret, Config,
}
use otto_handler.Deployment.Tracker.Saved.{saved}
use otto_handler.Deployment.Details.{
  ServiceEventType, service_task_definition_updated, service_steady_state, unknown_event,
  EcsServiceDetail, EcsTaskDetail, TaskStatus, task_pending, task_running, task_stopped,
  TargetState, healthy, unhealthy, unavailable, draining, unknown_state, TargetDetail,
}
use otto_handler.Deployment.Events.{
  failed_exit, by_event_type, by_task_status, update, healthy_in, by_target_state,
  handle_service_task_definition_updated, handle_service_steady_state, handle_task_status_update,
  handle_target_healthy, handle_target_unhealthy,
}
use otto_handler.Deployment.Events.Writes.{Writes, none_saved, update-Writes, complete-Writes}

pub data Event : Type 0 where
  service_event : EcsServiceDetail → Event
  task_event : EcsTaskDetail → Event
  target_event : TargetDetail → Event

-- The status that a handler gives to a row, from the status that it finds.
unfoldable pub service_status : ServiceEventType → DeploymentStatus → DeploymentStatus
service_status service_task_definition_updated s = deploying_ecs
service_status service_steady_state s = configuring_alb
service_status unknown_event s = s

unfoldable pub target_status : TargetState → DeploymentStatus → DeploymentStatus
target_status healthy waiting_health_check = success
target_status _ s = s

unfoldable pub next_status : Event → DeploymentStatus → DeploymentStatus
next_status (service_event detail) s = service_status detail.event_type s
next_status (task_event detail) s = s
next_status (target_event detail) s = target_status detail.state s

module _ (env : Env Call Ret) (config : Config) (clock : Clock Call) where
  -- What a handler does with the row that it found.
  abbrev pub on_row : Event → Deployment → M Call (Unit {0})
  on_row (service_event detail) d = by_event_type env config clock detail.event_type d detail
  on_row (task_event detail) d = handle_task_status_update env config clock d detail
  on_row (target_event detail) d = by_target_state env config clock detail.state d detail

  service-Writes :
      (t : ServiceEventType) (detail : EcsServiceDetail) (d : Deployment) (k : List Call)
      → Writes
          (service_status t d.status)
          (saved k)
          (saved (history (by_event_type env config clock t d detail k)))
  unfolding service_status handle_service_task_definition_updated handle_service_steady_state
  service-Writes service_task_definition_updated detail d k =
      update-Writes env config clock d deploying_ecs _ k
  service-Writes service_steady_state detail d k =
      update-Writes env config clock d configuring_alb _ k
  service-Writes unknown_event detail d k = none_saved

  task-Writes :
      (t : TaskStatus) (detail : EcsTaskDetail) (d : Deployment) (k : List Call)
      → Writes d.status (saved k) (saved (history (by_task_status env config clock t d detail k)))
  task-Writes task_running detail d k = update-Writes env config clock d d.status _ k
  task-Writes task_pending detail d k = none_saved
  task-Writes task_stopped detail d k = elim (Bool-cases (failed_exit detail.exit_code)) [
    | inl e ↦ rw e (update-Writes env config clock d d.status _ k)
    | inr e ↦ rw e none_saved
  ]

  kept-Writes :
      (d : Deployment) (m : Metadata) (k : List Call) {s : DeploymentStatus}
      → d.status ≡ s
      → Writes s (saved k) (saved (history (update env config clock d d.status m k)))
  kept-Writes d m k e =
      subst (λ t. Writes t (saved k) (saved (history (update env config clock d d.status m k)))) e
        (update-Writes env config clock d d.status m k)

  healthy-Writes :
      (s : DeploymentStatus) (detail : TargetDetail) (d : Deployment) (k : List Call)
      → d.status ≡ s
      → Writes
          (target_status healthy s)
          (saved k)
          (saved (history (healthy_in env config clock s d detail k)))
  unfolding target_status
  healthy-Writes waiting_health_check detail d k e =
      complete-Writes env config clock d.deployment_id _ k
  healthy-Writes pending detail d k e = kept-Writes d _ k e
  healthy-Writes in_progress detail d k e = kept-Writes d _ k e
  healthy-Writes deploying_ecs detail d k e = kept-Writes d _ k e
  healthy-Writes configuring_alb detail d k e = kept-Writes d _ k e
  healthy-Writes success detail d k e = kept-Writes d _ k e
  healthy-Writes failed detail d k e = kept-Writes d _ k e
  healthy-Writes rolled_back detail d k e = kept-Writes d _ k e

  target-Writes :
      (t : TargetState) (detail : TargetDetail) (d : Deployment) (k : List Call)
      → Writes
          (target_status t d.status)
          (saved k)
          (saved (history (by_target_state env config clock t d detail k)))
  unfolding target_status handle_target_healthy handle_target_unhealthy
  target-Writes healthy detail d k = healthy-Writes d.status detail d k refl
  target-Writes unhealthy detail d k = update-Writes env config clock d d.status _ k
  target-Writes unavailable detail d k = none_saved
  target-Writes draining detail d k = none_saved
  target-Writes unknown_state detail d k = none_saved

  pub on_row-Writes :
      (event : Event) (d : Deployment) (k : List Call)
      → Writes (next_status event d.status) (saved k) (saved (history (on_row event d k)))
  unfolding next_status handle_task_status_update
  on_row-Writes (service_event detail) d k = service-Writes detail.event_type detail d k
  on_row-Writes (task_event detail) d k = task-Writes detail.last_status detail d k
  on_row-Writes (target_event detail) d k = target-Writes detail.state detail d k
