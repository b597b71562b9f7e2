-- ===== src/EventBridge/Lambda.antt =====
-- The function of lambda/index.ts, which forwards events, and `EventBridgeController` of
-- src/logs/eventbridge.controller.ts, which takes them.
pub mod Ignored
use otto_handler.Prelude.{
  ℕ, Bool, true, false, not, String, [], ◌∷◌, Option, none, some, nonempty, str_eq, if◌then◌else◌,
}
use otto_handler.Prelude.Text.{template}
use otto_handler.Prelude.Effects.{Error, error, Env, Clock, M, ◌>>=◌, ◌>>◌, return, fail, try_catch}
use otto_handler.Deployment.Types.{Config}
use otto_handler.EventBridge.Types.{Detail, Event, Call, Ret}
use otto_handler.EventBridge.Dedup.{check_duplicate}
use otto_handler.EventBridge.Service.{process_event}

abbrev pub refusal : String → Error
refusal m = record { name = "BadRequestException"; message = m }

-- What the controller answers, with the status 200.
pub record Answer : Type 0 where
  pub success : Bool
  pub message : String

pub record LambdaResponse : Type 0 where
  pub status_code : ℕ
  pub success : Bool
  pub message : String
  pub event_id : String

-- The keys of the two sides, the configuration, and the status and body of the response that the
-- framework makes of an error.
pub record Setting : Type 0 where
  pub lambda_key : String
  pub backend_key : String
  pub config : Config
  pub node_env : String
  pub status_line : Error → String

abbrev pub is_supported : String → Bool
is_supported source =
    if str_eq source "aws.codebuild"
    then true
    else if str_eq source "aws.ecs"
    then true
    else str_eq source "aws.elasticloadbalancing"

module _ (env : Env Call Ret) (clock : Clock Call) (s : Setting) where
  abbrev pub validate_api_key : String → M Call (Unit {0})
  validate_api_key key =
      if nonempty key
      then if str_eq key s.backend_key then return tt else fail (refusal "Invalid API key")
      else fail (refusal "Invalid API key")

  abbrev pub check_id : String → M Call Bool
  check_id id =
      if nonempty id
      then (do is_new ← check_duplicate env clock id; return (not is_new))
      else fail (refusal "Event ID is required")

  -- `POST /events/check`: whether the event is a duplicate.
  unfoldable pub check_event : (key id : String) → M Call Bool
  unfolding check_duplicate
  check_event key id = do validate_api_key key; check_id id

  abbrev pub accept_event : Event → Detail → M Call Answer
  accept_event event d =
      if is_supported event.source
      then (do
        process_event env clock s.config s.node_env event d
        return (record { success = true; message = "Event processed successfully" }))
      else return (record {
        success = true;
        message = template ("Event from " ∷ event.source ∷ " ignored" ∷ []);
      })

  abbrev pub valid : Event → Option Detail → M Call Answer
  valid event none = fail (refusal "Invalid event format")
  valid event (some d) =
      if nonempty event.id
      then if nonempty event.source
        then accept_event event d
        else fail (refusal "Invalid event format")
      else fail (refusal "Invalid event format")

  abbrev pub failed_answer : Error → M Call Answer
  failed_answer e =
      if str_eq e.name "BadRequestException"
      then fail e
      else return (record {
        success = false;
        message = if nonempty e.message then e.message else "Failed to process event";
      })

  -- `POST /events/process`
  unfoldable pub process_posted : String → Event → M Call Answer
  unfolding process_event
  process_posted key event = do
    validate_api_key key
    try_catch (valid event event.detail) failed_answer

  -- A request that the backend refuses is an error of the function.
  abbrev pub send_to_backend : {A : Type 0} → M Call A → M Call A
  send_to_backend request =
      try_catch request
        (λ e. fail (error (template ("Backend returned status " ∷ s.status_line e ∷ []))))

  abbrev pub respond : Event → String → M Call LambdaResponse
  respond event message =
      return (record { status_code = 200; success = true; message = message; event_id = event.id })

  abbrev pub forward : Event → Bool → M Call LambdaResponse
  forward event true = respond event "Duplicate event ignored"
  forward event false = do
    send_to_backend (process_posted s.lambda_key event)
    respond event "Event processed successfully"

  unfoldable pub handler : Event → M Call LambdaResponse
  unfolding check_event process_posted
  handler event =
      try_catch
        (do
          is_duplicate ← send_to_backend (check_event s.lambda_key event.id)
          forward event is_duplicate)
        (λ e.
          return (record {
            status_code = 500;
            success = false;
            message = e.message;
            event_id = event.id;
          }))
