-- ===== src/Projects/Examples.antt =====
-- Runs of src/project/project.service.ts in production: over build services that cannot permit the rule,
-- and over a table that cannot be written.
use otto_handler.Prelude.{◌≡◌, refl, String, List, [], ◌∷◌, none, some}
use otto_handler.Prelude.Effects.{ok, throw, resolve, reject, history, error, Error, Env, Clock}
use otto_handler.Prelude.Grows.{Made}
use otto_handler.Builds
use otto_handler.Builds.Types
use otto_handler.Builds.Types.{
  Created, delete_repository, delete_rule, delete_log_group, delete_build_project,
}
use otto_handler.Builds.Rules.{delete_rule_by_name}
use otto_handler.Builds.Registry.{repository_name}
use otto_handler.Builds.Service.{build_project_name, log_group_of}
use otto_handler.Builds.Examples.{setting}
use otto_handler.Projects.Types.{
  Project, CreateProject, UpdateProject, Call, builds, random_digit, save_project, find_project,
  find_projects, delete_pipelines, delete_row, Ret,
}
use otto_handler.Projects.Service.{
  creation_error, cleanup_rule, generate_project_id, create_build, create_project, delete_project,
  update_project,
}
use otto_handler.Projects.Service.Creation.{deleted, create_project_leaves}
use otto_handler.Projects.Service.Rollback.{create_project-RolledBack}
use otto_handler.Projects.Service.Deletion.{delete_project-Made}

abbrev project : Project
project = record {
  project_id = "j1";
  user_id = "u1";
  project_name = "site";
  project_description = none;
  github_repository_name = "site";
  github_repository_id = "1";
  github_owner = "octocat";
  selected_branch = "main";
  installation_id = none;
  codebuild_project_name = some "otto-production-j1-build";
  codebuild_project_arn = none;
  cloudwatch_log_group = some "/logs";
  ecr_repository = some "otto/production/u1/j1";
  codebuild_status = none;
  codebuild_error_message = none;
}

abbrev dto : CreateProject
dto = record {
  project_name = "site";
  project_description = none;
  github_repository_name = "site";
  github_repository_id = "1";
  github_owner = "octocat";
  selected_branch = "main";
  installation_id = none;
  flow_nodes = none;
}

abbrev clock : Clock Call
clock h = 7

-- Over the environment of the build services, whose permissions are refused.
abbrev env : Env Call Ret
env h (builds c) = Builds.Examples.env [] c
env h random_digit = resolve 0
env h (save_project p) = reject (error "down")
env h (find_project id user) = resolve (some project)
env h (find_projects user) = resolve []
env h (delete_pipelines id) = resolve tt
env h (delete_row id user) = resolve 1

-- The same, where no Lambda function is configured.
abbrev plain : Types.Setting
plain = record setting { lambda_arn = none }

abbrev id : String
id = "00000000-0000-4000-8000-000000000000"

abbrev drawn : List Call
drawn = history (generate_project_id env clock setting [])

generated : generate_project_id env clock setting [] ≡ ok id drawn
unfolding generate_project_id
generated = refl

abbrev attempted : List Call
attempted = history (create_build env clock setting dto "u1" id drawn)

abbrev no_build : Error
no_build = error "CodeBuild 프로젝트 생성 실패: EventBridge Rule 생성 실패: Lambda 권한 추가 실패: denied"

create_project_leaves_example :
    (create_project env clock setting dto "u1" [] ≡ throw (creation_error no_build) attempted)
    × (deleted attempted ≡ deleted drawn)
unfolding create_project delete_rule_by_name
create_project_leaves_example =
    create_project_leaves env clock setting dto "u1" id [] drawn attempted no_build generated refl

abbrev plain_drawn : List Call
plain_drawn = history (generate_project_id env clock plain [])

abbrev built : List Call
built = history (create_build env clock plain dto "u1" id plain_drawn)

abbrev built_project : Created
built_project = record {
  arn = "arn";
  project_name = "otto-production-00000000-0000-4000-8000-000000000000-build";
  log_group = "/aws/codebuild/otto/production/u1/00000000-0000-4000-8000-000000000000";
  ecr_repository = "otto/production/u1/00000000-0000-4000-8000-000000000000";
  ecr_repository_uri = "uri";
}

create_project-RolledBack_example :
    (l : List Call) × (create_project env clock plain dto "u1" []
      ≡ throw (creation_error (error "down")) l)
    × Made (builds (delete_build_project (build_project_name plain id))) l
    × Made (builds (delete_repository (repository_name plain "u1" id))) l
    × Made (builds (delete_log_group (log_group_of plain "u1" id))) l
unfolding create_project
create_project-RolledBack_example =
    create_project-RolledBack env clock plain dto "u1" id [] plain_drawn built built_project
      (error "down") refl refl refl

delete_project-Made_example :
    Made
      (builds (delete_build_project "otto-production-j1-build"))
      (history (delete_project env clock setting "j1" "u1" []))
    × Made
        (builds (delete_repository "otto/production/u1/j1"))
        (history (delete_project env clock setting "j1" "u1" []))
    × Made
        (builds (delete_rule (cleanup_rule setting "j1")))
        (history (delete_project env clock setting "j1" "u1" []))
    × Made
        (builds (delete_log_group "/logs"))
        (history (delete_project env clock setting "j1" "u1" []))
    × Made (delete_pipelines "j1") (history (delete_project env clock setting "j1" "u1" []))
delete_project-Made_example =
    delete_project-Made env clock setting "j1" "u1" [] project "otto-production-j1-build"
      "otto/production/u1/j1" "/logs" refl refl refl refl refl refl refl

-- The branch alone is changed.
abbrev switch : UpdateProject
switch = record { project_name = none; project_description = none; selected_branch = some "next" }

-- The row of the other fields as they were is saved, here by a table that cannot be written.
switched :
    update_project env clock setting "j1" switch "u1" []
    ≡ throw
        (error "down")
        (save_project (record project { selected_branch = "next" }) ∷ find_project "j1" "u1" ∷ [])
unfolding update_project
switched = refl
