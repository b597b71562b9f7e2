-- ===== src/Deployment/Types.antt =====
-- The rows, the external calls and the configuration of src/deployment and
-- src/database/entities/deployment.entity.ts. An entity holds the fields that the services read or
-- write; times are in milliseconds.
use otto_handler.Prelude.{ℕ, Bool, String, List, Option}
pub use otto_handler.Prelude.Json.{
  Value, undefined, text, number, flag, iso_date, items, object, Values, nil, cons, Fields, end,
  field, Metadata, or_empty,
}
unfoldable pub use otto_handler.Prelude.Json.{spread}

pub data DeploymentStatus : Type 0 where
  pending in_progress deploying_ecs configuring_alb waiting_health_check success failed
        rolled_back :
      DeploymentStatus

pub data DeploymentType : Type 0 where
  initial update rollback : DeploymentType

pub record Deployment : Type 0 where
  pub deployment_id : String
  pub pipeline_id : String
  pub status : DeploymentStatus
  pub deploy_url : Option String
  pub ecs_service_arn : Option String
  pub ecs_cluster_arn : Option String
  pub target_group_arn : Option String
  pub alb_arn : Option String
  pub alb_dns_name : Option String
  pub error_message : Option String
  pub metadata : Option Metadata
  pub deployed_at : Option ℕ
  pub completed_at : Option ℕ

-- What `repository.create` is given for a new deployment.
pub record NewDeployment : Type 0 where
  pub pipeline_id : String
  pub user_id : String
  pub project_id : String
  pub status : DeploymentStatus
  pub deployment_type : DeploymentType
  pub ecr_image_uri : Option String
  pub started_at : ℕ
  pub metadata : Metadata

-- A pipeline with the name of its project, if it has one.
pub record Pipeline : Type 0 where
  pub pipeline_name : String
  pub project_name : Option String

-- The events that an EventBridge rule selects: those of an ECS service in a cluster, or the health
-- changes of a target group.
pub data EventPattern : Type 0 where
  ecs_service : (service cluster : String) → EventPattern
  target_health : (target_group_arn : String) → EventPattern

-- What the infrastructure service gives.
pub record Infrastructure : Type 0 where
  pub cluster_name : String
  pub hosted_zone_id : String

-- The tasks of an ECS service.
pub record TaskCounts : Type 0 where
  pub running_count : Option ℕ
  pub pending_count : Option ℕ

-- A condition of a rule of a load balancer.
pub record Condition : Type 0 where
  pub field_name : String
  pub values : List String

pub record ListenerRule : Type 0 where
  pub rule_arn : String
  pub priority : String
  pub conditions : List Condition

pub data Call : Type 0 where
  find_pipeline : String → Call
  find_deployment : String → Call
  find_recent : String → ℕ → Call
  find_by_pipeline : String → List DeploymentStatus → Call
  find_by_service_arn : String → List DeploymentStatus → Call
  find_by_target_group : String → List DeploymentStatus → Call
  save_new : NewDeployment → Call
  save : Deployment → Call
  emit_status_changed : Deployment → (previous new : DeploymentStatus) → Call
  emit_completed : String → Bool → Option String → Call
  send_progress : String → DeploymentStatus → (step message : String) → Option Metadata → Call
  send_status : String → DeploymentStatus → String → Call
  put_rule : String → EventPattern → Call
  put_targets : (rule lambda : String) → ℕ → Call
  remove_targets : String → Call
  delete_rule : String → Call
  add_permission : (function statement source : String) → Call
  remove_permission : (function statement : String) → Call
  find_all_of_pipeline : String → Call
  delete_all_of_pipeline : String → Call
  infrastructure : Call
  list_services : (cluster : String) → Call
  update_service : (cluster service : String) → ℕ → Call
  describe_services : (cluster service : String) → Call
  delete_service : (cluster service : String) → Call
  sleep : ℕ → Call
  find_load_balancer : String → Call
  describe_listeners : String → Call
  describe_rules : String → Call
  delete_listener_rule : String → Call
  delete_target_group : String → Call
  delete_record : (zone name dns : String) → Call

abbrev pub Ret : Call → Type 0
Ret (find_pipeline id) = Option Pipeline
Ret (find_deployment id) = Option Deployment
Ret (find_recent user limit) = List Deployment
Ret (find_by_pipeline id active) = Option Deployment
Ret (find_by_service_arn name active) = Option Deployment
Ret (find_by_target_group arn active) = Option Deployment
Ret (save_new d) = Deployment
Ret (save d) = Deployment
Ret (find_all_of_pipeline id) = List Deployment
Ret infrastructure = Infrastructure
Ret (list_services cluster) = List String
Ret (describe_services cluster service) = List TaskCounts
Ret (find_load_balancer name) = Option String
Ret (describe_listeners arn) = List String
Ret (describe_rules arn) = List ListenerRule
Ret _ = Unit

-- What the services read of the configuration.
pub record Config : Type 0 where
  pub environment : String
  pub region : String
  pub lambda_arn : Option String
