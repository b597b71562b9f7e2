-- ===== src/Deployment/Cleanup/Examples.antt =====
-- Runs of src/deployment/pipeline-cleanup.service.ts on one deployment, where the load balancer and the
-- DNS record cannot be read or deleted.
use otto_handler.Prelude.{◌≡◌, refl, ◌≤◌, ◌+◌, List, [], ◌∷◌, none}
use otto_handler.Prelude.Effects.{ok, history}
use otto_handler.Prelude.Grows.{Made, first}
use otto_handler.Deployment.Types.{
  waiting_health_check, Pipeline, Call, delete_target_group, delete_all_of_pipeline,
}
use otto_handler.Deployment.Examples.{config, row, env}
use otto_handler.Deployment.Cleanup.{wait_for_tasks_to_stop, cleanup_pipeline_resources}
use otto_handler.Deployment.Cleanup.Waits.{looks, looks-wait_for_tasks_to_stop}
use otto_handler.Deployment.Cleanup.Parts.{cleanup_pipeline_resources-Made}

abbrev pipeline : Pipeline
pipeline = record { pipeline_name = "p"; project_name = none }

cleanup_pipeline_resources-Made_example :
    Made (delete_target_group "tg") (history (cleanup_pipeline_resources env config none "p1" []))
    × Made
        (delete_all_of_pipeline "p1")
        (history (cleanup_pipeline_resources env config none "p1" []))
cleanup_pipeline_resources-Made_example =
    cleanup_pipeline_resources-Made env config none "p1" pipeline (row waiting_health_check ∷ []) []
      refl refl (row waiting_health_check) "tg" first refl refl

looks-wait_for_tasks_to_stop_example :
    (k : List Call) × (wait_for_tasks_to_stop env config none "otto-p1" "main" [] ≡ ok tt k)
    × (looks k ≤ 30 + looks [])
looks-wait_for_tasks_to_stop_example =
    looks-wait_for_tasks_to_stop env config none "otto-p1" "main" []
