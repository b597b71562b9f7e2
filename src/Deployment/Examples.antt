-- ===== src/Deployment/Examples.antt =====
-- Runs of src/deployment, on a repository with one deployment that waits for its health check.
use otto_handler.Prelude.{◌≡◌, ◌≢◌, refl, sym, ap, subst, ◌∙◌, List, [], ◌∷◌, none, some}
use otto_handler.Prelude.Effects.{error, resolve, reject, history, Env, Clock}
use otto_handler.Deployment.Types
use otto_handler.Deployment.Types.{
  DeploymentStatus, pending, in_progress, deploying_ecs, configuring_alb, waiting_health_check,
  success, failed, rolled_back, Value, items, text, number, nil, cons, or_empty, Metadata,
  Deployment, Pipeline, ecs_service, Call, find_pipeline, find_deployment, find_recent,
  find_by_pipeline, find_by_service_arn, find_by_target_group, save_new, save, emit_status_changed,
  send_progress, send_status, put_rule, Ret, Config,
}
use otto_handler.Deployment.Rules.{cleanup_deployment_event_rules}
use otto_handler.Deployment.Tracker.{
  no_updates, changed, get_step_from_status, get_message_from_status, update_deployment_status,
  final_updates, complete_deployment,
}
use otto_handler.Deployment.Tracker.Saved.{saved}
use otto_handler.Deployment.Tracker.Changes.{Updated, update_deployment_status-Updated}
use otto_handler.Deployment.Details.{TargetDetail, healthy, EcsServiceDetail, service_steady_state}
use otto_handler.Deployment.Events.{handle_alb_target_health_state_change}
use otto_handler.Deployment.Events.Rows.{service_event, target_event}
use otto_handler.Deployment.Events.Handled.{
  handle, Found, pipeline_row, service_row, target_row, Handled, saved-handle,
}
use otto_handler.Deployment.Events.Progress.{
  Held, at_start, newest, All, Building, Recalls, handle_all, saved-handle_all-Building, Completed,
  saved-handle_success,
}

abbrev pub config : Config
config = record { environment = "dev"; region = "r"; lambda_arn = some "a:b:c:d:e:f:g" }

abbrev clock : Clock Call
clock h = 7

abbrev pub row : DeploymentStatus → Deployment
row s = record {
  deployment_id = "d1";
  pipeline_id = "p1";
  status = s;
  deploy_url = some "x.shop";
  ecs_service_arn = some "arn-s";
  ecs_cluster_arn = none;
  target_group_arn = some "tg";
  alb_arn = none;
  alb_dns_name = none;
  error_message = none;
  metadata = none;
  deployed_at = none;
  completed_at = none;
}

-- A repository whose queries resolve to one row.
abbrev env_of : (List Call → Deployment) → Env Call Ret
env_of found h (find_pipeline id) =
    resolve (some (record { pipeline_name = "p"; project_name = none }))
env_of found h (find_deployment id) = resolve (some (found h))
env_of found h (find_recent user limit) = resolve []
env_of found h (find_by_pipeline id active) = resolve (some (found h))
env_of found h (find_by_service_arn name active) = resolve (some (found h))
env_of found h (find_by_target_group arn active) = resolve (some (found h))
env_of found h (save_new d) = resolve (found h)
env_of found h (save d) = resolve d
env_of found h (put_rule name pattern) = reject (error "denied")
env_of found h (Types.emit_status_changed d p n) = resolve tt
env_of found h (Types.emit_completed id b u) = resolve tt
env_of found h (Types.send_progress id s a b m) = resolve tt
env_of found h (Types.send_status id s a) = resolve tt
env_of found h (Types.put_targets a b n) = resolve tt
env_of found h (Types.remove_targets a) = resolve tt
env_of found h (Types.delete_rule a) = reject (error "in use")
env_of found h (Types.add_permission a b c) = resolve tt
env_of found h (Types.remove_permission a b) = resolve tt
env_of found h (Types.find_all_of_pipeline id) = resolve (found h ∷ [])
env_of found h (Types.delete_all_of_pipeline id) = resolve tt
env_of found h Types.infrastructure =
    resolve (record { cluster_name = "main"; hosted_zone_id = "Z1" })
env_of found h (Types.list_services c) = resolve ("arn:service/main/otto-l1" ∷ [])
env_of found h (Types.update_service c s n) = resolve tt
env_of found h (Types.describe_services c s) =
    resolve (record { running_count = some 1; pending_count = some 0 } ∷ [])
env_of found h (Types.delete_service c s) = resolve tt
env_of found h (Types.sleep n) = resolve tt
env_of found h (Types.find_load_balancer n) = reject (error "throttled")
env_of found h (Types.describe_listeners arn) = resolve []
env_of found h (Types.describe_rules arn) = resolve []
env_of found h (Types.delete_listener_rule arn) = resolve tt
env_of found h (Types.delete_target_group arn) = resolve tt
env_of found h (Types.delete_record z n d) = reject (error "no such record")

abbrev pub env : Env Call Ret
env = env_of (λ h. row waiting_health_check)

-- The last row that was saved, or else one with the status CONFIGURING_ALB.
abbrev last_row : List Deployment → Deployment
last_row [] = row configuring_alb
last_row (d ∷ ds) = d

recall_row : List Call → Deployment
unfolding saved
recall_row h = last_row (saved h)

waiting_done : waiting_health_check ≢ success
waiting_done e = cc

abbrev target : TargetDetail
target = record {
  target_group_arn = "tg";
  target_id = "10.0.0.1";
  port = 80;
  state = healthy;
  reason = none;
  timestamp = "now";
}

abbrev steady : EcsServiceDetail
steady = record {
  event_type = service_steady_state;
  service_name = "otto-p1";
  task_definition_arn = none;
  desired_count = 1;
  running_count = 1;
  pending_count = 0;
}

unfoldable done : Deployment
done = changed success no_updates 7 (row waiting_health_check)

abbrev done_calls : List Call
done_calls =
    Types.send_status "d1" success "completed"
    ∷ Types.send_progress "d1" success "completed" "배포가 성공적으로 완료되었습니다! 🎉" none
    ∷ Types.emit_status_changed done success success
    ∷ save done
    ∷ find_deployment "d1"
    ∷ []

update_deployment_status-Updated_example :
    Updated env config clock "d1" success no_updates [] done done_calls
unfolding update_deployment_status get_step_from_status get_message_from_status changed done
update_deployment_status-Updated_example =
    update_deployment_status-Updated env config clock "d1" success no_updates [] done done_calls
      refl

saved-handle_example :
    Handled env config clock
      (target_event target)
      (saved [])
      (saved (history (handle env config clock (target_event target) [])))
saved-handle_example = saved-handle env config clock (target_event target) []

-- The row that a query of the repository found.
query_row :
    (found : List Call → Deployment) (rows : List Deployment) (d : Deployment)
    → Found (env_of found) config clock rows d
    → (k : List Call) × (saved k ≡ rows) × (found k ≡ d)
query_row found rows d (pipeline_row k id e f) = (k, e, cc)
query_row found rows d (service_row k name e f) = (k, e, cc)
query_row found rows d (target_row k arn e f) = (k, e, cc)

last_row-Held : (rows : List Deployment) → Held configuring_alb rows (last_row rows).status
last_row-Held [] = at_start
last_row-Held (d ∷ ds) = newest d

last_row-Recalls : Recalls (env_of recall_row) config clock configuring_alb
unfolding recall_row
last_row-Recalls rows d f =
    let (k, e, g) = query_row recall_row rows d f in
    subst (λ r. Held configuring_alb rows r.status) (ap last_row (sym e) ∙ g) (last_row-Held rows)

saved-handle_all-Building_example : All Building (
    saved (
      history (
        handle_all
          (env_of recall_row)
          config
          clock
          (target_event target ∷ service_event steady ∷ target_event target ∷ [])
          [])))
saved-handle_all-Building_example =
    saved-handle_all-Building (env_of recall_row) config clock last_row-Recalls
      (target_event target ∷ service_event steady ∷ target_event target ∷ [])

never_done : (d : Deployment) → Found env config clock [] d → d.status ≢ success
never_done d f e =
    let (k, _, g) = query_row (λ h. row waiting_health_check) [] d f in
    waiting_done (ap (λ r. r.status) g ∙ e)

-- The row that the healthy target completes.
abbrev completed_row : Deployment
completed_row = changed success (final_updates 7 (some "x.shop")) 7 (row waiting_health_check)

saved-handle_success_example : Completed env config clock (target_event target) (saved [])
unfolding handle_alb_target_health_state_change saved changed final_updates complete_deployment
    cleanup_deployment_event_rules
saved-handle_success_example =
    saved-handle_success env config clock (target_event target) [] completed_row never_done refl
      refl
