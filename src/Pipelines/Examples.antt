-- ===== src/Pipelines/Examples.antt =====
-- Runs of src/pipeline/pipeline.service.ts: the user "u1" has the pipeline "l1" and another user has none.
use otto_handler.Prelude.{refl, false, String, [], ◌∷◌, none, some, str_eq, if◌then◌else◌}
use otto_handler.Prelude.Effects.{resolve, history, Env, Clock}
use otto_handler.Prelude.Grows.{Made, first}
use otto_handler.Deployment.Types.{
  waiting_health_check, delete_target_group, delete_all_of_pipeline,
}
use otto_handler.Deployment.Health.{axios_error}
use otto_handler.Deployment.Examples as DeployRuns
use otto_handler.Rollout.Examples as RolloutRuns
use otto_handler.Builds.Examples as BuildRuns
use otto_handler.Builds.Runs.{start_build}
use otto_handler.Builds.Registry.{image_uri}
use otto_handler.Pipelines.Types.{
  Project, Pipeline, Executed, Setting, Call, builds, rollouts, cleanups, checks, find_project,
  save_new, save, remove, find_mine, list_mine, count_mine, find_pipeline, update_images,
  find_latest, Ret,
}
use otto_handler.Pipelines.Service.{delete_pipeline, execute_pipeline}
use otto_handler.Pipelines.Service.Images.{Stored, execute_pipeline-Stored}
use otto_handler.Pipelines.Service.Deletion.{delete_pipeline-Made}

abbrev project : Project
project = record {
  project_id = "j1";
  user_id = "u1";
  codebuild_project_name = some "otto-production-j1-build";
}

abbrev pipeline : Pipeline
pipeline = record {
  pipeline_id = "l1";
  project_id = "j1";
  pipeline_name = "main";
  content = record { flow_nodes = none; others = [] };
  ecr_image_uri = none;
  image_tag = none;
  deploy_url = none;
  variables = none;
  deploy_option = none;
  created_at = 0;
  updated_at = 0;
  project = some project;
}

abbrev setting : Setting
setting = record { builds = BuildRuns.setting; rollout = RolloutRuns.setting; development = false }

abbrev clock : Clock Call
clock h = 7

abbrev env : Env Call Ret
env h (builds c) = BuildRuns.env [] c
env h (rollouts c) = RolloutRuns.env [] c
env h (cleanups c) = DeployRuns.env [] c
env h (checks c) = resolve (axios_error none "ENOTFOUND" "no such host")
env h (find_project id user) = resolve (some project)
env h (save_new p) = resolve pipeline
env h (save p) = resolve p
env h (remove p) = resolve tt
env h (find_mine id user) = resolve (if str_eq user "u1" then some pipeline else none)
env h (list_mine user _) = resolve []
env h (count_mine _ user) = resolve 0
env h (find_pipeline id) = resolve (some pipeline)
env h (update_images id uri tag) = resolve tt
env h (find_latest id) = resolve none

abbrev tag : String
tag = "user-u1-project-j1-build-7"

abbrev run : Executed
run = record {
  build_id = "otto-production-j1-build:e1";
  build_number = "7";
  image_tag = tag;
  ecr_image_uri = image_uri BuildRuns.setting (some "123") "u1" "j1" "7";
}

execute_pipeline-Stored_example :
    Stored env clock setting "l1" "u1" [] run
      (history (execute_pipeline env clock setting "l1" "u1" []))
unfolding execute_pipeline start_build
execute_pipeline-Stored_example =
    execute_pipeline-Stored env clock setting "l1" "u1" [] run
      (history (execute_pipeline env clock setting "l1" "u1" [])) refl

delete_pipeline-Made_example :
    Made
      (cleanups (delete_target_group "tg"))
      (history (delete_pipeline env clock setting "l1" "u1" []))
    × Made
        (cleanups (delete_all_of_pipeline "l1"))
        (history (delete_pipeline env clock setting "l1" "u1" []))
delete_pipeline-Made_example =
    delete_pipeline-Made env clock setting "l1" "u1" [] pipeline
      (record { pipeline_name = "p"; project_name = none })
      (DeployRuns.row waiting_health_check ∷ []) (DeployRuns.row waiting_health_check) "tg" refl
      refl refl first refl refl
