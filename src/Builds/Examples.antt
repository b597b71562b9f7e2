-- ===== src/Builds/Examples.antt =====
-- Runs of src/codebuild on one project, in production, where a permission is refused and no row can be
-- stored.
use otto_handler.Prelude.{◌≡◌, refl, false, List, [], ◌∷◌, none, some}
use otto_handler.Prelude.Text.{template}
use otto_handler.Prelude.Splits.{lacks}
use otto_handler.Prelude.Effects.{ok, throw, resolve, reject, error, Error, Env, Clock}
use otto_handler.Prelude.Grows.{Made}
use otto_handler.EventBridge.Deploy.{project_of_name}
use otto_handler.Builds.Types.{
  Setting, Repository, NewBuild, Build, Call, describe_repositories, create_repository,
  delete_repository, caller_identity, create_log_group, put_retention, delete_log_group, put_rule,
  put_targets, remove_targets, delete_rule, add_permission, remove_permission, create_build_project,
  delete_build_project, start_codebuild, get_builds, save_execution, get_cloudwatch_service, logs,
  Ret,
}
use otto_handler.Builds.Rules.{rule_name, create_codebuild_event_rule}
use otto_handler.Builds.Rules.Names.{dashed, rule_name-build_project_name}
use otto_handler.Builds.Rules.Permission.{create_codebuild_event_rule-Made}
use otto_handler.Builds.Runs.{started, start_build}
use otto_handler.Builds.Service.{build_project_name}
use otto_handler.Builds.Service.Names.{production, project_of_name-build_project_name}
use otto_handler.Builds.Runs.Starts.{start_build_resolves}

abbrev pub setting : Setting
setting = record {
  node_env = some "production";
  region = "r";
  lambda_arn = some "arn:aws:lambda:r:123:function:otto";
  service_role_arn = none;
  use_eventbridge = some "true";
  to_text = λ n. "7";
  to_iso = λ n. "now";
}

abbrev pub repository : Repository
repository = record { repository_uri = "uri"; registry_id = "123" }

abbrev pub running_build : Build
running_build = record {
  id = some "otto-production-j1-build:e1";
  build_number = some 7;
  build_status = some "IN_PROGRESS";
  current_phase = none;
  start_time = none;
  end_time = none;
  group_name = none;
  stream_name = none;
}

-- Everything resolves but the permission of the Lambda function and the storing of rows.
abbrev pub env : Env Call Ret
env h (describe_repositories name) = resolve []
env h (create_repository name tags) = resolve repository
env h (delete_repository name) = resolve tt
env h caller_identity = resolve (some "123")
env h (create_log_group name) = resolve tt
env h (put_retention name days) = resolve tt
env h (delete_log_group name) = resolve tt
env h (put_rule rule project) = resolve tt
env h (put_targets rule lambda) = resolve tt
env h (remove_targets rule) = resolve tt
env h (delete_rule rule) = resolve tt
env h (add_permission function statement source) = reject (error "denied")
env h (remove_permission function statement) = resolve tt
env h (create_build_project p) = resolve (some "arn")
env h (delete_build_project name) = resolve tt
env h (start_codebuild project variables spec) = resolve (some running_build)
env h (get_builds id) = resolve []
env h (save_execution x) = reject (error "down")
env h get_cloudwatch_service = resolve false
env h (logs c) = reject (error "down")

abbrev pub clock : Clock Call
clock h = 7

abbrev request : NewBuild
request = record {
  project_name = "otto-production-j1-build";
  user_id = "u1";
  project_id = "j1";
  pipeline_id = some "p1";
  flow_nodes = [];
}

rule_name-build_project_name_example :
    rule_name setting.node_env
      (build_project_name setting (dashed "550e8400-e29b-41d4-a716" "446655440000"))
    ≡ template ("otto-" ∷ "prod" ∷ "-" ∷ "446655440000" ∷ [])
unfolding lacks
rule_name-build_project_name_example =
    rule_name-build_project_name setting "550e8400-e29b-41d4-a716" "446655440000" refl

project_of_name-build_project_name_example :
    project_of_name (build_project_name setting "550e8400-446655440000")
    ≡ some "550e8400-446655440000"
project_of_name-build_project_name_example =
    project_of_name-build_project_name setting "550e8400-446655440000" production refl

create_codebuild_event_rule-Made_example :
    (x : Error) × (k : List Call) × (create_codebuild_event_rule env setting
        "otto-production-j1-build" []
      ≡ throw x k)
    × Made (delete_rule (rule_name setting.node_env "otto-production-j1-build")) k
create_codebuild_event_rule-Made_example =
    create_codebuild_event_rule-Made env setting "otto-production-j1-build" [] (error "denied") refl
      refl refl refl refl

start_build_resolves_example :
    (k : List Call) × (start_build env clock setting request []
      ≡ ok (started env clock setting request "otto-production-j1-build:e1" "7") k)
start_build_resolves_example =
    start_build_resolves env clock setting request [] (some running_build)
      "otto-production-j1-build:e1" 7 refl refl refl
