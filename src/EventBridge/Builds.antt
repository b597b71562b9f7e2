-- ===== src/EventBridge/Builds.antt =====
-- `EventBridgeService` of src/logs/eventbridge.service.ts: the events of CodeBuild.
use otto_handler.Prelude.{
  Bool, false, String, List, [], ◌∷◌, Option, none, some, truthy, nonempty, or_text, str_eq,
  if◌then◌else◌,
}
use otto_handler.Prelude.Text.{template, split, last_of}
use otto_handler.Prelude.Json.{Metadata, text}
use otto_handler.Cloudwatch.Types.{ExecutionStatus, running, success, failed}
use otto_handler.EventBridge.Types.{Detail, Event, NewBuild}
use otto_handler.EventBridge.Deploy.{value_of}

-- Of the variables, the last one with each name; PIPELINE_ID only counts where nothing is found before.
pub record Context : Type 0 where
  pub user_id : String
  pub project_id : String
  pub pipeline_id : String

abbrev with_variable : Context → String × String → Context
with_variable c (name, value) =
    if str_eq name "OTTO_USER_ID"
    then record c { user_id = value }
    else if str_eq name "OTTO_PROJECT_ID"
    then record c { project_id = value }
    else if str_eq name "OTTO_PIPELINE_ID"
    then record c { pipeline_id = value }
    else if str_eq name "PIPELINE_ID"
    then record c { pipeline_id = if nonempty c.pipeline_id then c.pipeline_id else value }
    else c

unfoldable pub context_from : Context → List (String × String) → Context
context_from c [] = c
context_from c (v ∷ vs) = context_from (with_variable c v) vs

abbrev no_context : Context
no_context = record { user_id = ""; project_id = ""; pipeline_id = "" }

unfoldable pub context_of : Option (List (String × String)) → Context
unfolding context_from
context_of none = no_context
context_of (some vs) = context_from no_context vs

-- The third part of a project's name that has at least four.
abbrev third_part : List String → String
third_part (a ∷ b ∷ c ∷ d ∷ rest) = c
third_part _ = ""

abbrev or_else_text : String → String → String
or_else_text s t = if nonempty s then s else t

unfoldable pub new_build : Event → Detail → NewBuild
unfolding context_of
new_build event d =
    let c = context_of d.variables in
    let stream = last_of (split b':' d.build_id) in
    record {
      aws_build_id = d.build_id;
      started_at = event.time;
      project_id =
          or_else_text (or_else_text c.project_id (third_part (split b'-' d.project_name)))
            "unknown";
      user_id = or_else_text c.user_id "eventbridge-user";
      pipeline_id = c.pipeline_id;
      log_stream_name = stream;
      metadata =
          ("source", text "eventbridge")
          ∷ ("projectName", text d.project_name)
          ∷ ("region", text event.region)
          ∷ ("account", text event.account)
          ∷ ("logGroup", value_of d.log_group)
          ∷ ("logStream", text (or_text d.log_stream stream))
          ∷ [];
    }

-- `envVars.find((v) => v.name === name)?.value`
unfoldable pub variable : String → List (String × String) → Option String
variable name [] = none
variable name ((n, value) ∷ vs) =
    let rest = variable name vs in if str_eq n name then some value else rest

abbrev three : Option String → Option String → Option String → String → Metadata
three (some user) (some project) (some pipeline) name =
    if nonempty user
    then if nonempty project
      then if nonempty pipeline
        then ("ottoUserId", text user)
          ∷ ("ottoProjectId", text project)
          ∷ ("pipelineId", text pipeline)
          ∷ ("projectName", text name)
          ∷ []
        else []
      else []
    else []
three _ _ _ name = []

abbrev from_variables : Option (List (String × String)) → String → Metadata
from_variables none name = []
from_variables (some vs) name =
    three (variable "OTTO_USER_ID" vs) (variable "OTTO_PROJECT_ID" vs) (variable "PIPELINE_ID" vs)
      name

abbrev with_phase : Detail → Metadata → Metadata
with_phase d rest =
    if truthy d.current_phase
    then ("currentPhase", value_of d.current_phase)
      ∷ ("currentPhaseContext", value_of d.current_phase_context)
      ∷ rest
    else rest

unfoldable pub build_metadata : Detail → Metadata
unfolding variable
build_metadata d = with_phase d (from_variables d.variables d.project_name)

abbrev pub is_status : String → Option String → Bool
is_status s none = false
is_status s (some t) = str_eq t s

-- `statusMap[status] || execution.status`, and with PENDING the status that is broadcast.
unfoldable pub status_of : Option String → ExecutionStatus → ExecutionStatus
status_of status other =
    if is_status "IN_PROGRESS" status
    then running
    else if is_status "SUCCEEDED" status
    then success
    else if is_status "FAILED" status
    then failed
    else if is_status "STOPPED" status
    then failed
    else other

abbrev pub get_log_level : Option String → String
get_log_level status =
    if is_status "FAILED" status
    then "error"
    else if is_status "STOPPED" status
    then "error"
    else "info"

-- An undefined status is printed as `undefined`.
abbrev printed : Option String → String
printed none = "undefined"
printed (some s) = s

abbrev pub format_log_message : Detail → String
format_log_message d =
    if truthy d.current_phase
    then template (
        "["
        ∷ d.project_name
        ∷ "] Build "
        ∷ printed d.build_status
        ∷ ": "
        ∷ or_text d.current_phase ""
        ∷ [])
    else template ("[" ∷ d.project_name ∷ "] Build " ∷ printed d.build_status ∷ [])
