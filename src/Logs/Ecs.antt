-- ===== src/Logs/Ecs.antt =====
-- `LogsService` of src/logs/logs.service.ts: the logs of the containers of a pipeline.
pub mod Access
use otto_handler.Prelude.{
  ℕ, zero, Bool, true, false, String, List, [], ◌∷◌, map, filter, length, min, Option, none, some,
  truthy, nonempty, or_text, is_some, leb, ◌==◌, str_eq, if◌then◌else◌,
}
use otto_handler.Prelude.Text.{template, strip_prefix, split}
use otto_handler.Prelude.Effects.{
  Error, Env, Clock, M, ◌>>=◌, ◌>>◌, return, fail, call, now, or_throw, try_catch,
}
use otto_handler.Cloudwatch.Types.{
  Execution, StreamEvent, FilterPage, LogFilter, Call, find_pipeline_owner, filter_events,
  describe_streams, Ret,
}
use otto_handler.Cloudwatch.Message.{includes, includes_lower}
use otto_handler.Logs.Executions.{not_found, forbidden, get_execution_by_id}
use otto_handler.Logs.Combined.{group_of}

pub record EcsLog : Type 0 where
  pub timestamp : ℕ
  pub message : String
  pub level : String
  pub stream_name : String
  pub container_name : Option String

pub record EcsLogs : Type 0 where
  pub logs : List EcsLog
  pub log_group_name : String
  pub has_more : Bool
  pub total_streams : ℕ

-- The options of a query for logs.
pub record EcsOptions : Type 0 where
  pub limit : Option ℕ
  pub container_name : Option String
  pub start_time : Option ℕ
  pub end_time : Option ℕ

-- Whether one of the parts is in the text, whatever its case.
abbrev includes_one : List String → String → Bool
includes_one [] s = false
includes_one (part ∷ parts) s = if includes_lower part s then true else includes_one parts s

unfoldable pub detect_ecs_log_level : String → String
detect_ecs_log_level message =
    if includes_one ("error" ∷ "failed" ∷ "exception" ∷ "fatal" ∷ []) message
    then "ERROR"
    else if includes_one ("warn" ∷ "warning" ∷ []) message
    then "WARNING"
    else if includes_one ("info" ∷ "starting" ∷ "listening" ∷ "server" ∷ []) message
    then "INFO"
    else if includes_one ("debug" ∷ "trace" ∷ []) message
    then "DEBUG"
    else "INFO"

-- `options.limit || 1000`
abbrev pub or_thousand : Option ℕ → ℕ
or_thousand none = 1000
or_thousand (some zero) = 1000
or_thousand (some n) = n

abbrev pub asked_limit : Option ℕ → ℕ
asked_limit limit = min (or_thousand limit) 10000

abbrev second : List String → Option String
second (a ∷ b ∷ rest) = some b
second _ = none

pub extract_container_name_from_stream : String → Option String
extract_container_name_from_stream stream = second (split b'/' stream)

pub ecs_log : StreamEvent → EcsLog
unfolding detect_ecs_log_level
ecs_log event = record {
  timestamp = event.timestamp;
  message = or_text event.message "";
  level = detect_ecs_log_level (or_text event.message "");
  stream_name = or_text event.stream "unknown";
  container_name = none;
}

-- `event.timestamp || Date.now()`
abbrev or_time : ℕ → ℕ → ℕ
or_time zero time = time
or_time t time = t

runtime_log : ℕ → StreamEvent → EcsLog
unfolding ecs_log extract_container_name_from_stream
runtime_log time event = record (ecs_log event) {
  timestamp = or_time event.timestamp time;
  container_name = extract_container_name_from_stream (or_text event.stream "unknown");
}

insert_log : EcsLog → List EcsLog → List EcsLog
insert_log log [] = log ∷ []
insert_log log (other ∷ logs) =
    let later = other ∷ insert_log log logs in
    if leb log.timestamp other.timestamp then log ∷ other ∷ logs else later

sort_logs : List EcsLog → List EcsLog
unfolding insert_log
sort_logs [] = []
sort_logs (log ∷ logs) = insert_log log (sort_logs logs)

abbrev pub no_logs : String → EcsLogs
no_logs group = record { logs = []; log_group_name = group; has_more = false; total_streams = 0 }

-- `userId && pipeline.project?.userId !== userId`
abbrev pub is_foreign : Option String → Option String → Bool
is_foreign none owner = false
is_foreign (some user) none = truthy (some user)
is_foreign (some user) (some owner) =
    if truthy (some user) then if str_eq owner user then false else true else false

-- The streams of an execution among those found: they start with its id and, if a container is
-- named, contain that name.
unfoldable pub is_matching : String → Option String → String → Bool
is_matching id container stream =
    if is_some (strip_prefix id stream)
    then if truthy container then includes (or_text container "") stream else true
    else false

unfoldable pub matching : String → Option String → List (Option String) → List String
unfolding is_matching
matching id container [] = []
matching id container (none ∷ streams) = matching id container streams
matching id container (some s ∷ streams) =
    let rest = matching id container streams in
    if is_matching id container s then if nonempty s then s ∷ rest else rest else rest

abbrev pub is_absent : Error → Bool
is_absent e = str_eq e.name "ResourceNotFoundException"

-- Nothing is found in a group that is not there yet; another failure is passed on.
abbrev pub or_none_of : {A : Type 0} → A → Error → M Call A
or_none_of a e = if is_absent e then return a else fail e

module _ (env : Env Call Ret) (clock : Clock Call) where
  abbrev pub owner_checked : Option String → Option String → M Call (Unit {0})
  owner_checked user owner =
      if is_foreign user owner then fail (forbidden "Access denied to this pipeline") else return tt

  abbrev pub page_logs : String → Option ℕ → FilterPage → EcsLogs
  page_logs group limit page = record {
    logs = map ecs_log page.events;
    log_group_name = group;
    has_more =
        if truthy page.next_token
        then length (map ecs_log page.events) == or_thousand limit
        else false;
    total_streams = 0;
  }

  unfoldable pub get_ecs_deployment_logs : String → Option String → EcsOptions → M Call EcsLogs
  unfolding ecs_log
  get_ecs_deployment_logs pipeline user options =
      try_catch
        (do
          found ← call env (find_pipeline_owner pipeline)
          owner ← or_throw found (not_found (template ("Pipeline " ∷ pipeline ∷ " not found" ∷ [])))
          owner_checked user owner
          page ← call env (
              filter_events (record {
                group = group_of pipeline;
                streams = none;
                limit = asked_limit options.limit;
                start_time = options.start_time;
                end_time = options.end_time;
              }))
          return (page_logs (group_of pipeline) options.limit page))
        (or_none_of (no_logs (group_of pipeline)))

  unfoldable pub discover_execution_log_streams :
      (group id : String) → Option String → M Call (List String)
  unfolding matching
  discover_execution_log_streams group id container =
      try_catch
        (do streams ← call env (describe_streams group id); return (matching id container streams))
        (λ _. return [])

  abbrev from_streams : String → EcsOptions → List String → M Call EcsLogs
  from_streams group options [] = return (no_logs group)
  from_streams group options (stream ∷ streams) = do
    page ← call env (
        filter_events (record {
          group = group;
          streams = some (stream ∷ streams);
          limit = asked_limit options.limit;
          start_time = options.start_time;
          end_time = options.end_time;
        }))
    time ← now clock
    return (record {
      logs = sort_logs (map (runtime_log time) page.events);
      log_group_name = group;
      has_more = truthy page.next_token;
      total_streams = length (stream ∷ streams);
    })

  unfoldable pub get_ecs_runtime_logs_by_execution :
      (id user : String) → EcsOptions → M Call EcsLogs
  unfolding sort_logs runtime_log discover_execution_log_streams get_execution_by_id
  get_ecs_runtime_logs_by_execution id user options = do
    x ← get_execution_by_id env clock id (some user)
    if nonempty x.pipeline_id
        then try_catch
            (do
              streams ←
                  discover_execution_log_streams (group_of x.pipeline_id) id options.container_name
              from_streams (group_of x.pipeline_id) options streams)
            (or_none_of (no_logs (group_of x.pipeline_id)))
        else fail (not_found "Pipeline not found for execution")
