-- ===== src/Rollout/Types.antt =====
-- The rows, the configuration and the external calls of src/deployment/deployment.service.ts.
use otto_handler.Prelude.{ℕ, String, List, Option}
use otto_handler.Prelude.Effects.{Env, Clock, M}
use otto_handler.Prelude.Lift.{inside}
use otto_handler.Deployment

-- A pipeline, with the port and the command of its `deployOption`.
pub record Pipeline : Type 0 where
  pub pipeline_id : String
  pub project_id : String
  pub ecr_image_uri : Option String
  pub deploy_url : Option String
  pub port : Option ℕ
  pub command : Option String
  pub variables : Option (List (String × String))

pub record Infrastructure : Type 0 where
  pub cluster_name : String
  pub subnets : List String
  pub vpc_id : String
  pub security_groups : List String

pub record LoadBalancer : Type 0 where
  pub arn : String
  pub dns_name : String
  pub vpc_id : Option String
  pub canonical_hosted_zone_id : String

pub record Listener : Type 0 where
  pub arn : String
  pub protocol : String
  pub port : ℕ

-- What the deployment needs of the load balancer.
pub record Balancer : Type 0 where
  pub alb_arn : String
  pub dns_name : String
  pub listener_arn : String
  pub vpc_id : String
  pub canonical_hosted_zone_id : String

-- What varies in a task definition.
pub record Task : Type 0 where
  pub family : String
  pub execution_role_arn : Option String
  pub image : String
  pub container_port : ℕ
  pub command : List String
  pub log_group : String
  pub log_region : String
  pub log_stream_prefix : String
  pub environment : List (String × String)

pub record NewService : Type 0 where
  pub service_name : String
  pub cluster : String
  pub task_definition : String
  pub desired_count : ℕ
  pub subnets : List String
  pub security_groups : List String
  pub target_group_arn : Option String
  pub container_port : ℕ

-- A service that ECS describes.
pub record Described : Type 0 where
  pub service_name : Option String
  pub status : Option String

-- What the service reads of the configuration and of the runtime: the SHA-256 hash of a text, in
-- hexadecimal digits, and `Number.prototype.toString`.
pub record Setting : Type 0 where
  pub alb_name : Option String
  pub role_arn : Option String
  pub region : Option String
  pub subnets : String
  pub vpc_id : String
  pub security_groups : String
  pub sha256 : String → String
  pub to_text : ℕ → String
  pub config : Deployment.Types.Config

pub record Deployed : Type 0 where
  pub deploy_url : String
  pub ecs_service_arn : String
  pub target_group_arn : String
  pub alb_dns_name : String
  pub deployment_id : String

pub data Call : Type 0 where
  deployments : Deployment.Types.Call → Call
  find_pipeline : String → Call
  set_deploy_url : (id url : String) → Call
  set_execution : (id stream deployment : String) → Call
  infrastructure : Call
  find_load_balancer : String → Call
  describe_listeners : String → Call
  create_load_balancer : String → (subnets security_groups : List String) → Call
  create_listener : String → Call
  list_target_groups : Call
  create_target_group : String → ℕ → (vpc : String) → Call
  find_rules : (listener host : String) → Call
  modify_rule : (rule target_group_arn : String) → Call
  create_rule : (listener host target_group_arn : String) → ℕ → Call
  random : ℕ → Call
  describe_log_groups : String → Call
  create_log_group : String → Call
  put_retention : String → ℕ → Call
  register_task : Task → Call
  describe_service : (cluster service : String) → Call
  update_service : (cluster service : String) → ℕ → Option String → Call
  create_service : NewService → Call
  find_zone : String → Call
  create_zone : String → Call
  create_record : (zone name dns alias_zone : String) → Call

-- Target groups are given with their names.
abbrev pub Ret : Call → Type 0
Ret (deployments c) = Deployment.Types.Ret c
Ret (find_pipeline id) = Option Pipeline
Ret infrastructure = Infrastructure
Ret (find_load_balancer name) = Option LoadBalancer
Ret (describe_listeners arn) = List Listener
Ret (create_load_balancer name subnets groups) = LoadBalancer
Ret (create_listener arn) = String
Ret list_target_groups = List (String × String)
Ret (create_target_group name port vpc) = String
Ret (find_rules listener host) = List String
Ret (random n) = ℕ
Ret (describe_log_groups prefix) = List (Option String)
Ret (register_task task) = Option String
Ret (describe_service cluster service) = List Described
Ret (update_service cluster service count task) = Option String
Ret (create_service service) = Option String
Ret (find_zone domain) = Option String
Ret (create_zone domain) = String
Ret _ = Unit

-- A computation of the deployment services.
abbrev pub with_deployments :
    {A : Type 0}
    → Env Call Ret
    → Clock Call
    → (Env Deployment.Types.Call Deployment.Types.Ret
        → Clock Deployment.Types.Call
        → M Deployment.Types.Call A)
    → M Call A
with_deployments env clock run = inside deployments (λ h c. env h (deployments c)) clock run
