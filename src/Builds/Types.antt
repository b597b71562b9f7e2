-- ===== src/Builds/Types.antt =====
-- The configuration and the external calls of src/codebuild: the AWS clients, the table of executions,
-- and the service that polls CloudWatch.
use otto_handler.Prelude.{ℕ, Bool, String, List, Option}
use otto_handler.Prelude.Effects.{Env, Clock, M}
use otto_handler.Prelude.Lift.{inside}
use otto_handler.Prelude.Json.{Metadata}
use otto_handler.BuildSpec.Types.{Node, BuildSpec}
use otto_handler.Cloudwatch.Types
use otto_handler.Cloudwatch.Types.{Execution}

-- What the services read of the environment, and `toString` and `toISOString`.
pub record Setting : Type 0 where
  pub node_env : Option String
  pub region : String
  pub lambda_arn : Option String
  pub service_role_arn : Option String
  pub use_eventbridge : Option String
  pub to_text : ℕ → String
  pub to_iso : ℕ → String

-- An image repository, as ECR describes it.
pub record Repository : Type 0 where
  pub repository_uri : String
  pub registry_id : String

-- What `createRepositoryIfNotExists` gives.
pub record ReadyRepository : Type 0 where
  pub repository_name : String
  pub repository_uri : String
  pub registry_id : String

-- What varies in the input of `CreateProjectCommand`. The specification stands before JSON.stringify.
pub record BuildProject : Type 0 where
  pub name : String
  pub description : String
  pub location : String
  pub build_spec : BuildSpec
  pub source_version : String
  pub image : String
  pub compute_type : String
  pub timeout_in_minutes : ℕ
  pub log_group : String
  pub service_role : String
  pub variables : List (String × String)
  pub tags : List (String × String)

-- The argument of `createProject`.
pub record NewProject : Type 0 where
  pub user_id : String
  pub project_id : String
  pub project_name : String
  pub github_repository_url : String
  pub branch : String
  pub flow_nodes : List Node
  pub build_image : Option String
  pub compute_type : Option String
  pub timeout_in_minutes : Option ℕ

pub record Created : Type 0 where
  pub arn : String
  pub project_name : String
  pub log_group : String
  pub ecr_repository : String
  pub ecr_repository_uri : String

-- The argument of `startBuild`.
pub record NewBuild : Type 0 where
  pub project_name : String
  pub user_id : String
  pub project_id : String
  pub pipeline_id : Option String
  pub flow_nodes : List Node

pub record Started : Type 0 where
  pub build_id : String
  pub build_number : String
  pub image_tag : String

-- A build, as CodeBuild describes it.
pub record Build : Type 0 where
  pub id : Option String
  pub build_number : Option ℕ
  pub build_status : Option String
  pub current_phase : Option String
  pub start_time : Option ℕ
  pub end_time : Option ℕ
  pub group_name : Option String
  pub stream_name : Option String

-- The row of a build that was started here.
pub record NewExecution : Type 0 where
  pub execution_id : Option String
  pub aws_build_id : String
  pub project_id : String
  pub pipeline_id : String
  pub user_id : String
  pub log_stream_name : Option String
  pub started_at : ℕ
  pub metadata : Metadata

pub data Call : Type 0 where
  describe_repositories : String → Call
  create_repository : (name : String) → (tags : List (String × String)) → Call
  delete_repository : String → Call
  caller_identity : Call
  create_log_group : String → Call
  put_retention : String → ℕ → Call
  delete_log_group : String → Call
  put_rule : (rule build_project : String) → Call
  put_targets : (rule lambda : String) → Call
  remove_targets : String → Call
  delete_rule : String → Call
  add_permission : (function statement source : String) → Call
  remove_permission : (function statement : String) → Call
  create_build_project : BuildProject → Call
  delete_build_project : String → Call
  start_codebuild : String → List (String × String) → Option BuildSpec → Call
  get_builds : String → Call
  save_execution : NewExecution → Call
  get_cloudwatch_service : Call
  logs : Types.Call → Call

-- The account of the caller may be absent. `getCloudwatchService` says whether the module has the
-- service.
abbrev pub Ret : Call → Type 0
Ret (describe_repositories name) = List Repository
Ret (create_repository name tags) = Repository
Ret caller_identity = Option String
Ret (create_build_project p) = Option String
Ret (start_codebuild project variables spec) = Option Build
Ret (get_builds id) = List Build
Ret (save_execution x) = Execution
Ret get_cloudwatch_service = Bool
Ret (logs c) = Types.Ret c
Ret _ = Unit

-- A computation of the log services.
abbrev pub with_logs :
    {A : Type 0}
    → Env Call Ret
    → Clock Call
    → (Env Types.Call Types.Ret → Clock Types.Call → M Types.Call A)
    → M Call A
with_logs env clock run = inside logs (λ h c. env h (logs c)) clock run
