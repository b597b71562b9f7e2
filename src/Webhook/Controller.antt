-- ===== src/Webhook/Controller.antt =====
-- `GithubWebhookController` of src/github-app/github-webhook.controller.ts.
pub mod Signed
use otto_handler.Prelude.{
  ℕ, Bool, true, false, String, List, [], ◌∷◌, Option, none, some, truthy, or_text, str_eq,
  if◌then◌else◌,
}
use otto_handler.Prelude.Text.{template, strip_prefix}
use otto_handler.Prelude.Effects.{Error, Env, M, ◌>>=◌, ◌>>◌, return, fail, try_catch}
use otto_handler.Webhook.Types.{Payload, Call, Ret}
use otto_handler.Webhook.Events.{
  handle_push_event, handle_branch_create_event, handle_branch_delete_event,
  handle_pull_request_event, handle_installation_event, handle_installation_repositories_event,
}

abbrev pub bad_request : String → Error
bad_request m = record { name = "BadRequestException"; message = m }

abbrev pub range_error : Error
range_error = record {
  name = "RangeError";
  message = "Input buffers must have the same byte length";
}

-- What GitHub and the runtime do outside the repository: `JSON.stringify` of a payload, the hexadecimal
-- HMAC with SHA-256 under a key, whether two texts have the same number of bytes, and
-- `Number.prototype.toString`.
pub record Runtime : Type 0 where
  pub stringify : Payload → String
  pub hmac : (key text : String) → String
  pub same_length : String → String → Bool
  pub to_text : ℕ → String

abbrev pub signature_of : Runtime → (secret body : String) → String
signature_of r secret body = template ("sha256=" ∷ r.hmac secret body ∷ [])

-- `crypto.timingSafeEqual`, which throws for texts of different lengths.
abbrev pub timing_safe_equal : Runtime → String → String → M Call Bool
timing_safe_equal r a b = if r.same_length a b then return (str_eq a b) else fail range_error

module _ (env : Env Call Ret) (r : Runtime) (secret : Option String) where
  abbrev pub verify_with : Option String → String → Option String → M Call Bool
  verify_with none body signature = return false
  verify_with (some key) body signature =
      if truthy (some key)
      then timing_safe_equal r (signature_of r key body) (or_text signature "")
      else return false

  unfoldable pub verify_webhook_signature : String → Option String → M Call Bool
  verify_webhook_signature body signature = verify_with secret body signature

  abbrev is_branch : Option String → Bool
  is_branch none = false
  is_branch (some ref) =
      if truthy (some ref)
      then elim (strip_prefix "refs/tags/" ref) [ some _ ↦ false | none ↦ true ]
      else false

  unfoldable pub dispatch : String → Payload → M Call (Unit {0})
  dispatch event payload =
      if str_eq event "push"
      then handle_push_event env r.to_text payload
      else if str_eq event "create"
      then if is_branch payload.ref
        then handle_branch_create_event env r.to_text payload
        else return tt
      else if str_eq event "delete"
      then if is_branch payload.ref
        then handle_branch_delete_event env r.to_text payload
        else return tt
      else if str_eq event "pull_request"
      then handle_pull_request_event env r.to_text payload
      else if str_eq event "installation"
      then handle_installation_event env r.to_text payload
      else if str_eq event "installation_repositories"
      then handle_installation_repositories_event env r.to_text payload
      else return tt

  abbrev pub process : String → Payload → M Call String
  process event payload =
      try_catch
        (do
          dispatch event payload
          return (template ("GitHub webhook " ∷ event ∷ " processed successfully" ∷ [])))
        (λ e. fail (bad_request (template ("Failed to process webhook: " ∷ e.message ∷ []))))

  abbrev pub if_verified : String → Payload → Bool → M Call String
  if_verified event payload verified =
      if verified then process event payload else fail (bad_request "Invalid webhook signature")

  unfoldable pub handle_github_webhook : String → Option String → Payload → M Call String
  unfolding verify_webhook_signature dispatch
  handle_github_webhook event signature payload = do
    verified ← verify_webhook_signature (r.stringify payload) signature
    if_verified event payload verified
