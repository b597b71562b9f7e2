-- ===== src/Cloudwatch/Service.antt =====
-- The class `CloudwatchService` of src/logs/services/cloudwatch/cloudwatch.service.ts. The ticks of a
-- poller run one after the other here.
pub mod Polling
pub mod Fetch
use otto_handler.Prelude.{
  ℕ, zero, suc, ◌+◌, Bool, true, false, String, List, [], ◌∷◌, map, length, Option, none, some,
  is_some, truthy, or_text, nonempty, leb, ltb, str_eq, if◌then◌else◌,
}
use otto_handler.Prelude.Text.{template}
use otto_handler.Prelude.Effects.{
  Error, error, Outcome, ok, throw, Env, Clock, M, ◌>>=◌, ◌>>◌, return, fail, call, or_throw,
  try_catch,
}
use otto_handler.Cloudwatch.Types
use otto_handler.Cloudwatch.Types.{
  ExecutionStatus, success, failed, LogEvent, Execution, Page, Call, get_log_events, find_execution,
  find_log_group, add_to_buffer, Ret,
}
use otto_handler.Cloudwatch.Storage.{save_logs, get_execution_log_count}
use otto_handler.Cloudwatch.Message.{detect_log_level, parse_log_phase_and_step}

unfoldable pub log_event : String → ℕ × String → LogEvent
unfolding detect_log_level parse_log_phase_and_step
log_event id (time, message) = record {
  execution_id = id;
  timestamp = time;
  message = message;
  level = detect_log_level message;
  phase = (parse_log_phase_and_step message).phase;
  step = (parse_log_phase_and_step message).step;
  step_order = (parse_log_phase_and_step message).step_order;
}

abbrev pub logs_of : String → Page → List LogEvent
logs_of id page = map (log_event id) page.events

-- `response.nextForwardToken === nextToken || !response.nextForwardToken`
abbrev same_text : Option String → Option String → Bool
same_text (some a) (some b) = str_eq a b
same_text none none = true
same_text _ _ = false

abbrev pub no_more : Option String → Option String → Bool
no_more next token = if same_text next token then true else if truthy next then false else true

abbrev pub is_not_found : Error → Bool
is_not_found e = str_eq e.name "ResourceNotFoundException"

-- A poller: its token, its count of failures, and whether its timer runs.
pub record Poller : Type 0 where
  pub group : String
  pub stream : String
  pub execution_id : String
  pub token : Option String
  pub retries : ℕ
  pub is_polling : Bool

abbrev pub max_retries : ℕ
max_retries = 5

abbrev pub max_attempts : ℕ
max_attempts = 10

abbrev pub stopped : Poller → Poller
stopped p = record p { is_polling = false }

-- The `catch` of a tick.
unfoldable pub failed_tick : Poller → Error → Poller
failed_tick p e =
    if is_not_found e
    then p
    else if leb max_retries (p.retries + 1)
    then record p { retries = p.retries + 1; is_polling = false }
    else record p { retries = p.retries + 1 }

abbrev pub is_complete : Option Execution → Bool
is_complete none = false
is_complete (some x) = elim x.status [ success ↦ true | failed ↦ true | _ ↦ false ]

-- The name by the pattern of the environment, or none without a project.
pub log_group_name : String → Execution → Option String
log_group_name node_env x =
    let stage = if str_eq node_env "production" then "production" else "development" in
    if truthy x.project_log_group
    then x.project_log_group
    else if nonempty x.project_id
    then if nonempty x.user_id
      then some
          (template ("/aws/codebuild/otto/" ∷ stage ∷ "/" ∷ x.user_id ∷ "/" ∷ x.project_id ∷ []))
      else some (template ("/aws/codebuild/otto/" ∷ stage ∷ "/" ∷ x.project_id ∷ []))
    else none

module _ (env : Env Call Ret) (clock : Clock Call) where
  abbrev group_or_throw : String → Option String → M Call String
  group_or_throw project group =
      if truthy group
      then return (or_text group "")
      else fail (error (template ("CloudWatch log group not found for project " ∷ project ∷ [])))

  unfoldable pub start_polling : Execution → M Call Poller
  start_polling x = do
    found ← call env (find_log_group x.project_id)
    group ← group_or_throw x.project_id found
    if truthy x.log_stream_name
        then return (record {
          group = group;
          stream = or_text x.log_stream_name "";
          execution_id = x.execution_id;
          token = none;
          retries = 0;
          is_polling = true;
        })
        else fail
            (error (template ("Log stream name not found for execution " ∷ x.execution_id ∷ [])))

  -- `if (response.events && response.events.length > 0)`: saving and buffering the page
  abbrev pub take_page : String → List LogEvent → M Call (Unit {0})
  take_page id [] = return tt
  take_page id (log ∷ logs) = do
    save_logs env clock (log ∷ logs)
    call env (add_to_buffer id (log ∷ logs))

  unfoldable pub poll_page : Poller → M Call (Option String)
  unfolding save_logs
  poll_page p = do
    page ← call env (get_log_events p.group p.stream p.token)
    take_page p.execution_id (logs_of p.execution_id page)
    return page.next_token

  -- After a page: the token is the new one and the count of failures is 0, whatever follows.
  abbrev pub turned : Poller → Option String → Poller
  turned p token = record p { token = token; retries = 0 }

  abbrev pub check_complete : Poller → M Call Poller
  check_complete p =
      try_catch
        (do
          x ← call env (find_execution p.execution_id)
          return (if is_complete x then stopped p else p))
        (λ e. return (failed_tick p e))

  abbrev pub after_page : Poller → Outcome Call (Option String) → Outcome Call Poller
  after_page p (ok token h) = check_complete (turned p token) h
  after_page p (throw e h) = ok (failed_tick p e) h

  -- One tick of the timer.
  unfoldable pub tick : Poller → M Call Poller
  unfolding poll_page failed_tick
  tick p h = if p.is_polling then after_page p (poll_page p h) else ok p h

  -- The loop of `fetchAndSaveAllLogs`, with the number of attempts that are left.
  unfoldable pub fetch_loop : (id group stream : String) → ℕ → Option String → ℕ → M Call ℕ
  unfolding save_logs
  fetch_loop id group stream zero token total h = ok total h
  fetch_loop id group stream (suc left) token total h =
      (do
        page ← call env (get_log_events group stream token)
        save_logs env clock (logs_of id page)
        let sum = total + length page.events
        if no_more page.next_token token
            then return sum
            else fetch_loop id group stream left page.next_token sum)
        h

  unfoldable pub fetch_and_save_all_logs : (id group stream : String) → M Call ℕ
  unfolding fetch_loop
  fetch_and_save_all_logs id group stream = do
    found ← call env (find_execution id)
    x ← or_throw found (error (template ("Execution " ∷ id ∷ " not found" ∷ [])))
    try_catch (fetch_loop id group stream max_attempts none 0)
        (λ e. if is_not_found e then return 0 else fail e)

  abbrev pub recover_from : Option String → Execution → M Call ℕ
  recover_from none x = return 0
  recover_from (some group) x =
      fetch_and_save_all_logs x.execution_id group (or_text x.log_stream_name x.execution_id)

  unfoldable pub auto_recover_logs_for_execution : String → Execution → M Call ℕ
  unfolding log_group_name
  auto_recover_logs_for_execution node_env x =
      try_catch
        (do
          count ← get_execution_log_count env clock x.execution_id
          if ltb 0 count then return count else recover_from (log_group_name node_env x) x)
        (λ _. return 0)
