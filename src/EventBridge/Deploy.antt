-- ===== src/EventBridge/Deploy.antt =====
-- `EventBridgeService` of src/logs/eventbridge.service.ts: the deployment that a build or a running task
-- brings about.
use otto_handler.Prelude.{
  ℕ, Bool, false, String, [], ◌∷◌, Option, none, some, truthy, or_text, str_eq, if◌then◌else◌,
}
use otto_handler.Prelude.Text.{strip_prefix, remove_first}
use otto_handler.Prelude.Json.{Metadata, Value, undefined, text, iso_date, spread, or_empty}
use otto_handler.Prelude.Maps.{lookup}
use otto_handler.Prelude.Effects.{Error, Env, Clock, M, ◌>>=◌, ◌>>◌, return, call, now, try_catch}
use otto_handler.Cloudwatch.Types.{Execution}
use otto_handler.Deployment.Types.{
  Deployment, waiting_health_check, deploying_ecs, success, Config, find_by_pipeline,
}
use otto_handler.Deployment.Tracker.{no_updates, update_deployment_status}
use otto_handler.EventBridge.Types.{
  Deployed, Target, Call, find_pipeline, find_latest_pipeline, deploy_after_build_success,
  broadcast_logs, deployments, with_deployments, Ret,
}

-- `metadata?.key as string | undefined`
abbrev pub as_text : Option Value → Option String
as_text (some (text s)) = some s
as_text _ = none

abbrev pub text_at : String → Option Metadata → Option String
text_at key none = none
text_at key (some m) = as_text (lookup key m)

-- The text before a suffix.
unfoldable pub before_suffix : String → String → Option String
before_suffix suffix String.[] = if str_eq suffix "" then some "" else none
before_suffix suffix (String.◌∷◌ c s) =
    let rest = before_suffix suffix s in
    if str_eq (String.◌∷◌ c s) suffix
    then some ""
    else elim rest [ none ↦ none | some t ↦ some (String.◌∷◌ c t) ]

-- `/^otto-(development|production)-(.+?)-build$/`: the project's id in the name of a build project.
abbrev pub some_nonempty : Option String → Option String
some_nonempty o = if truthy o then o else none

abbrev pub behind_prefix : String → Option String
behind_prefix name = elim (strip_prefix "otto-development-" name) [
  | some s ↦ some s
  | none ↦ strip_prefix "otto-production-" name
]

unfoldable pub project_of_name : String → Option String
unfolding before_suffix
project_of_name name = elim (behind_prefix name) [
  | none ↦ none
  | some s ↦ some_nonempty (before_suffix "-build" s)
]

abbrev pub all_three : Option String → Option String → Option String → Bool
all_three a b c = if truthy a then if truthy b then truthy c else false else false

abbrev pub value_of : Option String → Value
value_of none = undefined
value_of (some s) = text s

module _ (env : Env Call Ret) (clock : Clock Call) where
  abbrev pub deploy_complete : String → Deployed → ℕ → M Call (Unit {0})
  deploy_complete id deployed time = call env (
      broadcast_logs id (
        ("executionId", text id)
        ∷ ("type", text "deployment-complete")
        ∷ ("deployUrl", value_of deployed.deploy_url)
        ∷ ("ecsServiceArn", value_of deployed.ecs_service_arn)
        ∷ ("timestamp", iso_date time)
        ∷ []))

  abbrev pub deploy_latest : String → Option Target → M Call (Unit {0})
  deploy_latest id none = return tt
  deploy_latest id (some target) = do
    deployed ← call env (deploy_after_build_success target.pipeline_id target.user_id id)
    time ← now clock
    deploy_complete id deployed time

  -- The older way, by the name of the build project.
  abbrev pub deploy_project : String → Option String → M Call (Unit {0})
  deploy_project id none = return tt
  deploy_project id (some project) = do
    target ← call env (find_latest_pipeline project)
    deploy_latest id target

  abbrev pub deploy_by_name : String → Option String → M Call (Unit {0})
  deploy_by_name id none = return tt
  deploy_by_name id (some name) =
      if truthy (some name) then deploy_project id (project_of_name name) else return tt

  abbrev pub deploy_target :
      Execution → (pipeline user : String) → Option Target → M Call (Unit {0})
  deploy_target x pipeline user none =
      deploy_by_name x.execution_id (text_at "projectName" x.metadata)
  deploy_target x pipeline user (some target) = do
    call env (deploy_after_build_success pipeline user x.execution_id)
    return tt

  abbrev pub deploy_named : Execution → M Call (Unit {0})
  deploy_named x =
      if all_three (text_at "ottoUserId" x.metadata) (text_at "ottoProjectId" x.metadata)
        (text_at "pipelineId" x.metadata)
      then (do
        target ← call env (find_pipeline (or_text (text_at "pipelineId" x.metadata) ""))
        deploy_target x (or_text (text_at "pipelineId" x.metadata) "")
            (or_text (text_at "ottoUserId" x.metadata) "") target)
      else deploy_by_name x.execution_id (text_at "projectName" x.metadata)

  abbrev pub deploy_failed : String → Error → ℕ → M Call (Unit {0})
  deploy_failed id e time = call env (
      broadcast_logs id (
        ("executionId", text id)
        ∷ ("type", text "deployment-failed")
        ∷ ("error", text e.message)
        ∷ ("timestamp", iso_date time)
        ∷ []))

  unfoldable pub trigger_deployment_after_build : Execution → M Call (Unit {0})
  unfolding project_of_name
  trigger_deployment_after_build x =
      try_catch (deploy_named x) (λ e. do time ← now clock; deploy_failed x.execution_id e time)

  abbrev pub running_metadata : Deployment → ℕ → Metadata
  running_metadata d time =
      spread (or_empty d.metadata)
        (("completedAt", iso_date time) ∷ ("ecsTaskStatus", text "RUNNING") ∷ [])

  abbrev pub set_success_at : Config → Deployment → ℕ → M Call (Unit {0})
  set_success_at config d time = do
    with_deployments env clock (λ e c.
        update_deployment_status e config c d.deployment_id success
          (record no_updates { metadata = some (running_metadata d time) }))
    return tt

  abbrev pub set_success : Config → Option Deployment → M Call (Unit {0})
  set_success config none = return tt
  set_success config (some d) = do time ← now clock; set_success_at config d time

  abbrev pub or_deploying : String → Option Deployment → M Call (Option Deployment)
  or_deploying pipeline (some d) = return (some d)
  or_deploying pipeline none =
      call env (deployments (find_by_pipeline pipeline (deploying_ecs ∷ [])))

  unfoldable pub update_deployment_to_success : Config → String → M Call (Unit {0})
  unfolding update_deployment_status remove_first
  update_deployment_to_success config service =
      try_catch
        (do
          waiting ← call env (
              deployments
                (find_by_pipeline (remove_first "otto-" service) (waiting_health_check ∷ [])))
          found ← or_deploying (remove_first "otto-" service) waiting
          set_success config found)
        (λ _. return tt)
