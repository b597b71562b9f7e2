-- ===== src/Deployment/Tracker.antt =====
-- The class `DeploymentTrackerService` of src/deployment/deployment-tracker.service.ts.
pub mod Saved
pub mod Changes
use otto_handler.Prelude.{
  ℕ, Bool, true, String, List, [], ◌∷◌, Option, none, some, truthy, nonempty, or_text,
  if◌then◌else◌,
}
use otto_handler.Prelude.Text.{template}
use otto_handler.Prelude.Effects.{
  Error, error, Env, M, Clock, now, or_throw, ◌>>=◌, ◌>>◌, return, fail, call, try_catch,
}
use otto_handler.Deployment.Types
use otto_handler.Deployment.Types.{
  DeploymentStatus, pending, in_progress, deploying_ecs, configuring_alb, waiting_health_check,
  success, failed, rolled_back, DeploymentType, initial, Value, undefined, text, flag, iso_date,
  Metadata, spread, or_empty, Deployment, NewDeployment, Pipeline, Call, find_pipeline,
  find_deployment, find_recent, save_new, save, emit_status_changed, emit_completed, send_progress,
  send_status, Ret, Config,
}
use otto_handler.Deployment.Rules.{
  create_deployment_event_rule, create_target_health_event_rule, cleanup_deployment_event_rules,
}

-- The argument of `startDeploymentTracking`.
pub record Start : Type 0 where
  pub pipeline_id : String
  pub user_id : String
  pub project_id : String
  pub deployment_type : Option DeploymentType
  pub ecr_image_uri : Option String

-- What an update may replace.
pub record Updates : Type 0 where
  pub deploy_url : Option String
  pub ecs_service_arn : Option String
  pub ecs_cluster_arn : Option String
  pub target_group_arn : Option String
  pub alb_arn : Option String
  pub alb_dns_name : Option String
  pub error_message : Option String
  pub metadata : Option Metadata

abbrev pub no_updates : Updates
no_updates = record {
  deploy_url = none;
  ecs_service_arn = none;
  ecs_cluster_arn = none;
  target_group_arn = none;
  alb_arn = none;
  alb_dns_name = none;
  error_message = none;
  metadata = none;
}

-- An update of the metadata alone, and one of the error message alone.
abbrev pub with_metadata : Metadata → Updates
with_metadata m = record no_updates { metadata = some m }

abbrev pub with_error : String → Updates
with_error m = record no_updates { error_message = some m }

unfoldable pub get_step_from_status : DeploymentStatus → String
get_step_from_status pending = "initialization"
get_step_from_status in_progress = "deployment"
get_step_from_status deploying_ecs = "ecs-deployment"
get_step_from_status configuring_alb = "alb-configuration"
get_step_from_status waiting_health_check = "health-check"
get_step_from_status success = "completed"
get_step_from_status failed = "failed"
get_step_from_status rolled_back = "rollback"

unfoldable pub get_message_from_status : DeploymentStatus → String
get_message_from_status pending = "배포 준비 중..."
get_message_from_status in_progress = "배포 진행 중..."
get_message_from_status deploying_ecs = "ECS 서비스 배포 중..."
get_message_from_status configuring_alb = "ALB 설정 중..."
get_message_from_status waiting_health_check = "헬스체크 대기 중..."
get_message_from_status success = "배포가 성공적으로 완료되었습니다! 🎉"
get_message_from_status failed = "배포에 실패했습니다. ❌"
get_message_from_status rolled_back = "배포가 롤백되었습니다."

-- `if (updates.x) deployment.x = updates.x`
abbrev pub assign : Option String → Option String → Option String
assign new old = if truthy new then new else old

-- `{ ...deployment.metadata, ...updates.metadata }`, if the update has metadata
abbrev pub merged : Option Metadata → Option Metadata → Option Metadata
merged none old = old
merged (some m) old = some (spread (or_empty old) m)

-- The moment the status is set, for the statuses that `deployedAt` and `completedAt` record.
abbrev pub deployed_time : DeploymentStatus → ℕ → Option ℕ → Option ℕ
deployed_time success time old = some time
deployed_time _ time old = old

abbrev pub completed_time : DeploymentStatus → ℕ → Option ℕ → Option ℕ
completed_time success time old = some time
completed_time failed time old = some time
completed_time rolled_back time old = some time
completed_time _ time old = old

unfoldable pub changed : DeploymentStatus → Updates → ℕ → Deployment → Deployment
changed status updates time d = record {
  deployment_id = d.deployment_id;
  pipeline_id = d.pipeline_id;
  status = status;
  deploy_url = assign updates.deploy_url d.deploy_url;
  ecs_service_arn = assign updates.ecs_service_arn d.ecs_service_arn;
  ecs_cluster_arn = assign updates.ecs_cluster_arn d.ecs_cluster_arn;
  target_group_arn = assign updates.target_group_arn d.target_group_arn;
  alb_arn = assign updates.alb_arn d.alb_arn;
  alb_dns_name = assign updates.alb_dns_name d.alb_dns_name;
  error_message = assign updates.error_message d.error_message;
  metadata = merged updates.metadata d.metadata;
  deployed_at = deployed_time status time d.deployed_at;
  completed_at = completed_time status time d.completed_at;
}

-- `config.deploymentType || DeploymentType.INITIAL`
abbrev type_of : Option DeploymentType → DeploymentType
type_of none = initial
type_of (some t) = t

new_deployment : Start → Pipeline → ℕ → NewDeployment
new_deployment start pipeline time = record {
  pipeline_id = start.pipeline_id;
  user_id = start.user_id;
  project_id = start.project_id;
  status = pending;
  deployment_type = type_of start.deployment_type;
  ecr_image_uri = start.ecr_image_uri;
  started_at = time;
  metadata =
      ("pipelineName", text pipeline.pipeline_name)
      ∷ ("projectName", text (or_text pipeline.project_name "Unknown"))
      ∷ [];
}

abbrev url_value : Option String → Value
url_value none = undefined
url_value (some url) = text url

-- What `completeDeployment` updates.
unfoldable pub final_updates : ℕ → Option String → Updates
final_updates time final_url = record no_updates {
  deploy_url = final_url;
  metadata = some (("completedAt", iso_date time) ∷ ("finalUrl", url_value final_url) ∷ []);
}

module _ (env : Env Call Ret) (config : Config) (clock : Clock Call) where
  abbrev pub broadcast_progress :
      String → DeploymentStatus → (step message : String) → Option Metadata → M Call (Unit {0})
  broadcast_progress id status step message metadata = do
    call env (send_progress id status step message metadata)
    call env (send_status id status step)

  unfoldable pub start_deployment_tracking : Start → M Call Deployment
  unfolding new_deployment
  start_deployment_tracking start = do
    found ← call env (find_pipeline start.pipeline_id)
    pipeline ← or_throw found (error (template ("Pipeline not found: " ∷ start.pipeline_id ∷ [])))
    time ← now clock
    saved ← call env (save_new (new_deployment start pipeline time))
    broadcast_progress saved.deployment_id pending "initialization" "배포 준비 중..." none
    return saved

  unfoldable pub update_deployment_status : String → DeploymentStatus → Updates → M Call Deployment
  unfolding changed get_step_from_status get_message_from_status
  update_deployment_status id status updates = do
    found ← call env (find_deployment id)
    deployment ← or_throw found (error (template ("Deployment not found: " ∷ id ∷ [])))
    time ← now clock
    updated ← call env (save (changed status updates time deployment))
    call env (emit_status_changed updated ((changed status updates time deployment).status) status)
    broadcast_progress id status (get_step_from_status status) (get_message_from_status status)
        updates.metadata
    return updated

  unfoldable pub setup_ecs_event_tracking : (id service cluster : String) → M Call (Unit {0})
  unfolding update_deployment_status
  setup_ecs_event_tracking id service cluster =
      try_catch
        (do
          create_deployment_event_rule env config service cluster id
          update_deployment_status id deploying_ecs (
              with_metadata (
                ("ecsServiceName", text service)
                ∷ ("ecsClusterName", text cluster)
                ∷ ("eventRuleCreated", flag true)
                ∷ []))
          return tt)
        (λ e. do
          update_deployment_status id failed
              (with_error (template ("ECS event tracking setup failed: " ∷ e.message ∷ [])))
          fail e)

  unfoldable pub setup_target_health_tracking : (id target_group_arn : String) → M Call (Unit {0})
  unfolding update_deployment_status
  setup_target_health_tracking id arn =
      try_catch
        (do
          create_target_health_event_rule env config arn id
          update_deployment_status id waiting_health_check (
              with_metadata
                (("targetGroupArn", text arn) ∷ ("healthCheckRuleCreated", flag true) ∷ []))
          return tt)
        (λ e. do
          update_deployment_status id failed
              (with_error (template ("Target health tracking setup failed: " ∷ e.message ∷ [])))
          fail e)

  -- The `catch` of the source logs the error and throws it again.
  unfoldable pub complete_deployment : String → Bool → Option String → M Call (Unit {0})
  unfolding update_deployment_status final_updates
  complete_deployment id is_success final_url =
      try_catch
        (do
          time ← now clock
          update_deployment_status id (if is_success then success else failed)
              (final_updates time final_url)
          cleanup_deployment_event_rules env config id
          call env (emit_completed id is_success final_url))
        fail

  unfoldable pub get_deployment_progress : String → M Call (Option Deployment)
  get_deployment_progress id = call env (find_deployment id)

  unfoldable pub get_recent_deployments : String → ℕ → M Call (List Deployment)
  get_recent_deployments user limit = call env (find_recent user limit)
