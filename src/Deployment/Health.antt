-- ===== src/Deployment/Health.antt =====
-- `HealthCheckService` of src/deployment/health-check.service.ts.
pub mod Found
pub mod Examples
use otto_handler.Prelude.{
  ℕ, ◌-◌, Bool, true, false, String, [], ◌∷◌, Option, none, some, ltb, str_eq, if◌then◌else◌,
}
use otto_handler.Prelude.Text.{template}
use otto_handler.Prelude.Effects.{Error, Env, Clock, M, ◌>>=◌, return, call, now, try_catch}
use otto_handler.Cloudwatch.Message.{includes}

-- What `axios.get` gives: a response with a status below 500, as `validateStatus` has it, or an error of
-- axios with the status of the response, if there was one, its code and its message. Other errors
-- reject the call.
pub data HttpResult : Type 0 where
  answered : ℕ → HttpResult
  axios_error : Option ℕ → (code message : String) → HttpResult

pub record Health : Type 0 where
  pub is_healthy : Bool
  pub response_status : ℕ
  pub response_time : ℕ
  pub error_message : Option String
  pub last_checked : ℕ

pub data Call : Type 0 where
  get : (url host : String) → Call

abbrev pub Ret : Call → Type 0
Ret _ = HttpResult

abbrev pub is_local : String → Bool
is_local url = if includes "localhost" url then true else includes "127.0.0.1" url

-- `error.response?.status || 0`
abbrev pub status_or_zero : Option ℕ → ℕ
status_or_zero none = 0
status_or_zero (some n) = n

abbrev pub is_unreachable : String → Bool
is_unreachable code = if str_eq code "ENOTFOUND" then true else str_eq code "ECONNREFUSED"

abbrev pub of_error : Bool → (start time : ℕ) → Option ℕ → (code message : String) → Health
of_error development start time status code message =
    if (if development then is_unreachable code else false)
    then record {
      is_healthy = true;
      response_status = 200;
      response_time = time - start;
      error_message = some (
          template
            ("Development mode - DNS resolution failed but treated as healthy: " ∷ message ∷ []));
      last_checked = start;
    }
    else record {
      is_healthy = if ltb 0 (status_or_zero status) then ltb (status_or_zero status) 500 else false;
      response_status = status_or_zero status;
      response_time = time - start;
      error_message = some message;
      last_checked = start;
    }

abbrev pub of_result : Bool → (start time : ℕ) → HttpResult → Health
of_result development start time (answered status) = record {
  is_healthy = ltb status 500;
  response_status = status;
  response_time = time - start;
  error_message = none;
  last_checked = start;
}
of_result development start time (axios_error status code message) =
    of_error development start time status code message

abbrev pub unknown_error : (start time : ℕ) → Error → Health
unknown_error start time e = record {
  is_healthy = false;
  response_status = 0;
  response_time = time - start;
  error_message = some e.message;
  last_checked = start;
}

module _ (env : Env Call Ret) (clock : Clock Call) where
  abbrev pub skipped : ℕ → ℕ → Health
  skipped start time = record {
    is_healthy = true;
    response_status = 200;
    response_time = time - start;
    error_message = some "Development mode - health check skipped";
    last_checked = start;
  }

  abbrev pub measured : Bool → String → ℕ → M Call Health
  measured development url start =
      try_catch
        (do
          result ← call env (get (template ("http://" ∷ url ∷ [])) url)
          time ← now clock
          return (of_result development start time result))
        (λ e. do time ← now clock; return (unknown_error start time e))

  -- `development` says whether NODE_ENV is `development`.
  abbrev pub from_start : Bool → String → ℕ → M Call Health
  from_start development url start =
      if (if development then (if is_local url then false else true) else false)
      then (do time ← now clock; return (skipped start time))
      else measured development url start

  unfoldable pub check_deployment_health : Bool → String → M Call Health
  check_deployment_health development url = do start ← now clock; from_start development url start
