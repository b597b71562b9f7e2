-- ===== src/Rollout/Tasks.antt =====
-- `DeploymentService` of src/deployment/deployment.service.ts: the task definition and the service of ECS.
use otto_handler.Prelude.{
  Bool, true, false, String, List, [], ◌∷◌, Option, none, some, nonempty, or_text, str_eq,
  if◌then◌else◌,
}
use otto_handler.Prelude.Text.{template, split}
use otto_handler.Prelude.Effects.{Env, M, ◌>>=◌, return, call, try_catch}
use otto_handler.Rollout.Types.{
  Pipeline, Task, NewService, Described, Setting, Call, infrastructure, register_task,
  describe_service, update_service, create_service, Ret,
}
use otto_handler.Rollout.Network.{
  log_group, rethrow_as, get_available_subnets, get_default_security_groups,
}
use otto_handler.Rollout.Routing.{port_of}

abbrev pub service_name : String → String
service_name pipeline = template ("otto-" ∷ pipeline ∷ [])

abbrev or_no_variables : Option (List (String × String)) → List (String × String)
or_no_variables none = []
or_no_variables (some vs) = vs

unfoldable pub task_of : Setting → Pipeline → (url : String) → Option String → Task
task_of s p url execution = record {
  family = template ("otto-task-" ∷ p.pipeline_id ∷ []);
  execution_role_arn = s.role_arn;
  image = or_text p.ecr_image_uri "";
  container_port = port_of p;
  command = split b' ' (or_text p.command "npm start");
  log_group = log_group p.pipeline_id;
  log_region = or_text s.region "ap-northeast-2";
  log_stream_prefix = or_text execution "otto-fallback";
  environment =
      ("NODE_ENV", "production")
      ∷ ("PORT", s.to_text (port_of p))
      ∷ ("DEPLOY_URL", url)
      ∷ ("DEBUG", "codecat-express:*")
      ∷ or_no_variables p.variables;
}

-- `services?.find((s) => s.serviceName === serviceName)`, which must be active.
abbrev is_named : String → Option String → Bool
is_named name none = false
is_named name (some n) = str_eq n name

abbrev pub is_active : String → List Described → Bool
is_active name [] = false
is_active name (d ∷ ds) =
    if is_named name d.service_name then is_named "ACTIVE" d.status else is_active name ds

module _ (env : Env Call Ret) (s : Setting) where
  unfoldable pub service_exists : (cluster name : String) → M Call Bool
  service_exists cluster name =
      try_catch
        (do services ← call env (describe_service cluster name); return (is_active name services))
        (λ _. return false)

  abbrev pub new_service :
      Pipeline
      → (cluster : String) → (group : String) → Option String
      → List String
      → List String
      → NewService
  new_service p cluster group task subnets groups = record {
    service_name = service_name p.pipeline_id;
    cluster = cluster;
    task_definition = or_text task "";
    desired_count = 2;
    subnets = subnets;
    security_groups = groups;
    target_group_arn = if nonempty group then some group else none;
    container_port = port_of p;
  }

  abbrev pub create_in :
      Pipeline → (cluster group : String) → Option String → List String × String → M Call String
  create_in p cluster group task (subnets, vpc) = do
    groups ← get_default_security_groups env s vpc
    arn ← call env (create_service (new_service p cluster group task subnets groups))
    return (or_text arn "")

  abbrev pub update_or_create :
      Pipeline → (cluster group : String) → Option String → Bool → M Call String
  update_or_create p cluster group task true = do
    arn ← call env (update_service cluster (service_name p.pipeline_id) 2 task)
    return (or_text arn "")
  update_or_create p cluster group task false = do
    subnets ← get_available_subnets env s
    create_in p cluster group task subnets

  abbrev pub in_cluster : Pipeline → (url group : String) → Option String → String → M Call String
  in_cluster p url group execution cluster = do
    task ← call env (register_task (task_of s p url execution))
    exists ← service_exists cluster (service_name p.pipeline_id)
    update_or_create p cluster group task exists

  -- The infrastructure is read before the `try`.
  unfoldable pub setup_ecs_service : Pipeline → (url group : String) → Option String → M Call String
  unfolding task_of service_exists get_available_subnets get_default_security_groups
  setup_ecs_service p url group execution = do
    i ← call env infrastructure
    try_catch (in_cluster p url group execution i.cluster_name) (rethrow_as "ECS 서비스 설정 실패")
