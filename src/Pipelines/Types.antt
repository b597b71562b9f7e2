-- ===== src/Pipelines/Types.antt =====
-- The rows, the configuration and the external calls of src/pipeline/pipeline.service.ts, over the build
-- services, the roll-out, the clean-up and the health check.
use otto_handler.Prelude.{ℕ, Bool, String, List, Option}
use otto_handler.Prelude.Effects.{Env, Clock, M}
use otto_handler.Prelude.Lift.{inside}
use otto_handler.Prelude.Json.{Metadata}
use otto_handler.BuildSpec.Types.{Node}
use otto_handler.Deployment
use otto_handler.Deployment.Types.{DeploymentStatus}
use otto_handler.Builds
use otto_handler.Rollout

-- The project of a pipeline.
pub record Project : Type 0 where
  pub project_id : String
  pub user_id : String
  pub codebuild_project_name : Option String

-- `PipelineData`: the nodes of the flow, if there are any, and the other properties.
pub record PipelineData : Type 0 where
  pub flow_nodes : Option (List Node)
  pub others : Metadata

pub record DeployOption : Type 0 where
  pub port : ℕ
  pub command : String

pub record Pipeline : Type 0 where
  pub pipeline_id : String
  pub project_id : String
  pub pipeline_name : String
  pub content : PipelineData
  pub ecr_image_uri : Option String
  pub image_tag : Option String
  pub deploy_url : Option String
  pub variables : Option (List (String × String))
  pub deploy_option : Option DeployOption
  pub created_at : ℕ
  pub updated_at : ℕ
  pub project : Option Project

-- `CreatePipelineRequestDto`, which is also what `repository.create` is given.
pub record CreatePipeline : Type 0 where
  pub project_id : String
  pub pipeline_name : String
  pub content : PipelineData

-- `UpdatePipelineRequestDto`: a field that is none is undefined.
pub record UpdatePipeline : Type 0 where
  pub pipeline_name : Option String
  pub content : Option PipelineData
  pub variables : Option (List (String × String))
  pub deploy_option : Option DeployOption

pub record PipelineResponse : Type 0 where
  pub pipeline_id : String
  pub project_id : String
  pub pipeline_name : String
  pub content : PipelineData
  pub ecr_image_uri : Option String
  pub image_tag : Option String
  pub created_at : ℕ
  pub updated_at : ℕ
  pub deploy_url : Option String

pub record Executed : Type 0 where
  pub build_id : String
  pub build_number : String
  pub image_tag : String
  pub ecr_image_uri : String

-- The newest deployment of a pipeline.
pub record Latest : Type 0 where
  pub status : DeploymentStatus
  pub deploy_url : Option String
  pub updated_at : ℕ

-- The status of a pipeline's deployment: none is `NOT_DEPLOYED`.
pub record Deployed : Type 0 where
  pub status : Option DeploymentStatus
  pub deploy_url : Option String
  pub updated_at : ℕ

pub record Checked : Type 0 where
  pub health : Deployment.Health.Health
  pub deploy_url : String

pub record Setting : Type 0 where
  pub builds : Builds.Types.Setting
  pub rollout : Rollout.Types.Setting
  pub development : Bool

-- `findMine` is the query for a pipeline by its id and the user of its project.
pub data Call : Type 0 where
  builds : Builds.Types.Call → Call
  rollouts : Rollout.Types.Call → Call
  cleanups : Deployment.Types.Call → Call
  checks : Deployment.Health.Call → Call
  find_project : (id user : String) → Call
  save_new : CreatePipeline → Call
  save : Pipeline → Call
  remove : Pipeline → Call
  find_mine : (id user : String) → Call
  list_mine : (user : String) → Option String → Call
  count_mine : (project user : String) → Call
  find_pipeline : String → Call
  update_images : (id uri tag : String) → Call
  find_latest : String → Call

abbrev pub Ret : Call → Type 0
Ret (builds c) = Builds.Types.Ret c
Ret (rollouts c) = Rollout.Types.Ret c
Ret (cleanups c) = Deployment.Types.Ret c
Ret (checks c) = Deployment.Health.Ret c
Ret (find_project id user) = Option Project
Ret (save_new p) = Pipeline
Ret (save p) = Pipeline
Ret (find_mine id user) = Option Pipeline
Ret (list_mine user project) = List Pipeline
Ret (count_mine project user) = ℕ
Ret (find_pipeline id) = Option Pipeline
Ret (find_latest id) = Option Latest
Ret _ = Unit

-- A computation of the build services, of the roll-out, of the clean-up and of the health check.
module _ {A : Type 0} (env : Env Call Ret) (clock : Clock Call) where
  abbrev pub with_builds :
      (Env Builds.Types.Call Builds.Types.Ret → Clock Builds.Types.Call → M Builds.Types.Call A)
      → M Call A
  with_builds run = inside builds (λ h c. env h (builds c)) clock run

  abbrev pub with_rollouts :
      (Env Rollout.Types.Call Rollout.Types.Ret → Clock Rollout.Types.Call → M Rollout.Types.Call A)
      → M Call A
  with_rollouts run = inside rollouts (λ h c. env h (rollouts c)) clock run

  abbrev pub with_cleanups :
      (Env Deployment.Types.Call Deployment.Types.Ret
        → Clock Deployment.Types.Call
        → M Deployment.Types.Call A)
      → M Call A
  with_cleanups run = inside cleanups (λ h c. env h (cleanups c)) clock run

  abbrev pub with_checks :
      (Env Deployment.Health.Call Deployment.Health.Ret
        → Clock Deployment.Health.Call
        → M Deployment.Health.Call A)
      → M Call A
  with_checks run = inside checks (λ h c. env h (checks c)) clock run
