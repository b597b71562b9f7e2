-- ===== src/EventBridge/Types.antt =====
-- The events and the external calls of src/logs/eventbridge.service.ts. A detail holds the fields, of
-- all sources, that are read for more than a log message.
use otto_handler.Prelude.{ℕ, Bool, String, List, Option}
use otto_handler.Prelude.Json.{Metadata}
use otto_handler.Prelude.Effects.{Env, Clock, M}
use otto_handler.Prelude.Lift.{inside}
use otto_handler.Cloudwatch.Types
use otto_handler.Cloudwatch.Types.{ExecutionStatus, Execution, LogRow}
use otto_handler.Deployment

pub record Detail : Type 0 where
  pub build_status : Option String
  pub build_id : String
  pub project_name : String
  pub current_phase : Option String
  pub current_phase_context : Option String
  pub completed_phase : Option String
  pub current_phase_status : Option String
  pub completed_phase_status : Option String
  pub variables : Option (List (String × String))
  pub log_group : Option String
  pub log_stream : Option String
  pub task_group : Option String
  pub last_status : Option String

pub record Event : Type 0 where
  pub id : String
  pub source : String
  pub detail_type : String
  pub time : ℕ
  pub region : String
  pub account : String
  pub detail : Option Detail

-- What `repository.create` is given for a build that is not known yet.
pub record NewBuild : Type 0 where
  pub aws_build_id : String
  pub started_at : ℕ
  pub project_id : String
  pub user_id : String
  pub pipeline_id : String
  pub log_stream_name : String
  pub metadata : Metadata

-- What a deployment gives back.
pub record Deployed : Type 0 where
  pub deploy_url : Option String
  pub ecs_service_arn : Option String

-- A pipeline with the user of its project.
pub record Target : Type 0 where
  pub pipeline_id : String
  pub user_id : String

pub data Call : Type 0 where
  setnx : (key : String) → ℕ → Call
  expire : (key : String) → ℕ → Call
  setex : (key : String) → ℕ → Call
  logs : Types.Call → Call
  find_by_build : String → Call
  create_build : NewBuild → Call
  is_polling : String → Call
  emit_phase : (id phase status : String) → Call
  broadcast_status : String → ExecutionStatus → Call
  broadcast_logs : String → Metadata → Call
  broadcast_rows : String → List LogRow → Call
  broadcast_complete : (id status : String) → Call
  sleep : ℕ → Call
  find_pipeline : String → Call
  find_latest_pipeline : (project : String) → Call
  deploy_after_build_success : (pipeline user execution : String) → Call
  deployments : Deployment.Types.Call → Call

abbrev pub Ret : Call → Type 0
Ret (setnx key time) = ℕ
Ret (logs c) = Types.Ret c
Ret (find_by_build id) = Option Execution
Ret (create_build build) = Execution
Ret (is_polling id) = Bool
Ret (find_pipeline id) = Option Target
Ret (find_latest_pipeline project) = Option Target
Ret (deploy_after_build_success pipeline user execution) = Deployed
Ret (deployments c) = Deployment.Types.Ret c
Ret _ = Unit

-- A computation of the log services.
abbrev pub with_logs :
    {A : Type 0}
    → Env Call Ret
    → Clock Call
    → (Env Types.Call Types.Ret → Clock Types.Call → M Types.Call A)
    → M Call A
with_logs env clock run = inside logs (λ h c. env h (logs c)) clock run

-- A computation of the deployment services.
abbrev pub with_deployments :
    {A : Type 0}
    → Env Call Ret
    → Clock Call
    → (Env Deployment.Types.Call Deployment.Types.Ret
        → Clock Deployment.Types.Call
        → M Deployment.Types.Call A)
    → M Call A
with_deployments env clock run = inside deployments (λ h c. env h (deployments c)) clock run
