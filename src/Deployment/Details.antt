-- ===== src/Deployment/Details.antt =====
-- The events of src/deployment/deployment-events.service.ts, with the fields that its handlers read for
-- more than their log messages, and the entries that they leave in the metadata of a deployment.
use otto_handler.Prelude.{ℕ, String, [], ◌∷◌, Option, none, some}
use otto_handler.Prelude.Maps.{lookup}
use otto_handler.Deployment.Types.{
  Value, undefined, text, number, items, object, Values, nil, cons, end, field, Metadata, spread,
  or_empty,
}

pub data ServiceEventType : Type 0 where
  service_task_definition_updated service_steady_state unknown_event : ServiceEventType

pub record EcsServiceDetail : Type 0 where
  pub event_type : ServiceEventType
  pub service_name : String
  pub task_definition_arn : Option String
  pub desired_count : ℕ
  pub running_count : ℕ
  pub pending_count : ℕ

pub data TaskStatus : Type 0 where
  task_pending task_running task_stopped : TaskStatus

pub record EcsTaskDetail : Type 0 where
  pub task_arn : String
  pub group : String
  pub last_status : TaskStatus
  pub started_at : Option String
  pub stopped_at : Option String
  pub stopped_reason : Option String
  pub exit_code : Option ℕ
  pub connectivity : String

pub data TargetState : Type 0 where
  healthy unhealthy unavailable draining unknown_state : TargetState

pub record TargetDetail : Type 0 where
  pub target_group_arn : String
  pub target_id : String
  pub port : ℕ
  pub state : TargetState
  pub reason : Option String
  pub timestamp : String

-- An optional field of an object.
abbrev pub optional : Option String → Value
optional none = undefined
optional (some s) = text s

abbrev optional_number : Option ℕ → Value
optional_number none = undefined
optional_number (some n) = number n

-- The entries of a list in the metadata, or none if there is no list.
abbrev pub entries : Option Value → Values
entries (some (items vs)) = vs
entries _ = nil

unfoldable pub append_value : Values → Value → Values
append_value nil v = cons v nil
append_value (cons u us) v = cons u (append_value us v)

-- `{ ...deployment.metadata, [key]: [...(list or []), entry] }`
unfoldable pub add_entry : String → Value → Option Metadata → Metadata
add_entry key entry metadata =
    spread (or_empty metadata)
      ((key, items (append_value (entries (lookup key (or_empty metadata))) entry)) ∷ [])

unfoldable pub running_task : EcsTaskDetail → Value
running_task detail = object (
    field "taskArn" (text detail.task_arn) (
      field "startedAt" (optional detail.started_at)
        (field "connectivity" (text detail.connectivity) end)))

unfoldable pub stopped_task : EcsTaskDetail → Value
stopped_task detail = object (
    field "taskArn" (text detail.task_arn) (
      field "exitCode" (optional_number detail.exit_code) (
        field "stoppedReason" (optional detail.stopped_reason)
          (field "stoppedAt" (optional detail.stopped_at) end))))

unfoldable pub healthy_target : TargetDetail → Value
healthy_target detail = object (
    field "id" (text detail.target_id)
      (field "port" (number detail.port) (field "healthyAt" (text detail.timestamp) end)))

unfoldable pub unhealthy_target : TargetDetail → Value
unhealthy_target detail = object (
    field "id" (text detail.target_id) (
      field "port" (number detail.port) (
        field "reason" (optional detail.reason) (field "unhealthyAt" (text detail.timestamp) end))))
