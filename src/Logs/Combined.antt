-- ===== src/Logs/Combined.antt =====
-- `LogsService` of src/logs/logs.service.ts: the logs of an execution, from the database, the buffer
-- and the stream of its deployment.
pub mod Order
use otto_handler.Prelude.{
  ℕ, zero, Bool, true, false, String, List, [], ◌∷◌, ◌++◌, map, take, Option, none, some, truthy,
  nonempty, or_text, leb, ◌==◌, if◌then◌else◌,
}
use otto_handler.Prelude.Text.{template, strip_prefix}
use otto_handler.Prelude.Effects.{
  Error, Env, Clock, M, ◌>>=◌, ◌>>◌, return, fail, call, now, or_throw, try_catch,
}
use otto_handler.Cloudwatch.Types.{
  LogLevel, info, LogEvent, LogRow, ExecutionType, build, deploy, Execution, StreamEvent,
  FilterPage, LogFilter, Call, find_execution, latest_deploy, recent_logs, clear_logs,
  filter_events, Ret,
}
use otto_handler.Cloudwatch.Storage
use otto_handler.Logs.Executions.{no_execution}

-- `{ ...log, executionId, createdAt: log.timestamp || new Date() }`: the time is an object, so it is
-- never falsy.
buffered_row : String → LogEvent → LogRow
buffered_row id log = record { log = record log { execution_id = id }; created_at = log.timestamp }

abbrev or_time : ℕ → ℕ → ℕ
or_time zero time = time
or_time t time = t

-- The order of the sort: `timestamp.getTime() || createdAt.getTime() || 0`
abbrev pub time_of : LogRow → ℕ
time_of row = or_time row.log.timestamp row.created_at

-- `sort((a, b) => timeA - timeB)`, which keeps the order of equal times.
unfoldable pub insert_row : LogRow → List LogRow → List LogRow
insert_row row [] = row ∷ []
insert_row row (other ∷ rows) =
    let later = other ∷ insert_row row rows in
    if leb (time_of row) (time_of other) then row ∷ other ∷ rows else later

unfoldable pub sort_rows : List LogRow → List LogRow
sort_rows [] = []
sort_rows (row ∷ rows) = insert_row row (sort_rows rows)

-- `if (query.limit) return allLogs.slice(0, query.limit)`
abbrev pub limited : Option ℕ → List LogRow → List LogRow
limited (some zero) rows = rows
limited (some n) rows = take n rows
limited none rows = rows

pub deploy_row : String → StreamEvent → LogRow
deploy_row id event = record {
  log = record {
    execution_id = id;
    timestamp = event.timestamp;
    message = or_text event.message "";
    level = info;
    phase = some "DEPLOY";
    step = some "ECS_SERVICE";
    step_order = some 1000;
  };
  created_at = event.timestamp;
}

abbrev pub group_of : String → String
group_of pipeline = template ("/ecs/otto-pipelines/" ∷ pipeline ∷ [])

module _ (env : Env Call Ret) (clock : Clock Call) where
  abbrev or_buffered : String → Option ℕ → List LogRow → M Call (List LogRow)
  or_buffered id limit [] = do
    logs ← call env (recent_logs id limit)
    return (map (buffered_row id) logs)
  or_buffered id limit (row ∷ rows) = return (row ∷ rows)

  unfoldable pub get_execution_logs : String → (limit offset : Option ℕ) → M Call (List LogRow)
  unfolding buffered_row
  get_execution_logs id limit offset = do
    rows ← Storage.get_execution_logs env clock id limit offset
    or_buffered id limit rows

  unfoldable pub get_ecs_logs_for_execution : Execution → M Call (List LogRow)
  unfolding deploy_row
  get_ecs_logs_for_execution x =
      if nonempty x.pipeline_id
      then if truthy x.log_stream_name
        then try_catch
            (do
              page ← call env (
                  filter_events (record {
                    group = group_of x.pipeline_id;
                    streams = some (or_text x.log_stream_name "" ∷ []);
                    limit = 1000;
                    start_time = none;
                    end_time = none;
                  }))
              return (map (deploy_row x.execution_id) page.events))
            (λ _. return [])
        else return []
      else return []

  -- The execution whose stream has the logs of the deployment.
  abbrev or_else_execution : Execution → Option Execution → Execution
  or_else_execution x none = x
  or_else_execution x (some y) = y

  abbrev deploy_of : ExecutionType → Execution → M Call Execution
  deploy_of build x = do
    found ← call env (latest_deploy x.pipeline_id)
    return (or_else_execution x found)
  deploy_of deploy x = return x

  abbrev stream_rows : Execution → M Call (List LogRow)
  stream_rows x = if truthy x.log_stream_name then get_ecs_logs_for_execution x else return []

  unfoldable pub deploy_rows : Execution → M Call (List LogRow)
  unfolding get_ecs_logs_for_execution
  deploy_rows x =
      if nonempty x.pipeline_id
      then try_catch (do target ← deploy_of x.execution_type x; stream_rows target) (λ _. return [])
      else return []

  unfoldable pub get_combined_execution_logs :
      String → (limit offset : Option ℕ) → M Call (List LogRow)
  unfolding get_execution_logs deploy_rows
  get_combined_execution_logs id limit offset = do
    found ← call env (find_execution id)
    x ← or_throw found (no_execution id)
    build_rows ← get_execution_logs id limit offset
    later_rows ← deploy_rows x
    return (limited limit (sort_rows (build_rows ++ later_rows)))

  -- A test execution of the development environment has no logs if they cannot be read.
  unfoldable pub get_historical_logs : Bool → String → ℕ → M Call (List LogRow)
  get_historical_logs development id limit =
      if development
      then elim (strip_prefix "test-" id) [
        | none ↦ Storage.get_execution_logs env clock id (some limit) none
        | some _ ↦
            try_catch (Storage.get_execution_logs env clock id (some limit) none) (λ _. return [])
      ]
      else Storage.get_execution_logs env clock id (some limit) none

  get_buffered_logs : String → Option ℕ → M Call (List LogEvent)
  get_buffered_logs id limit = call env (recent_logs id limit)

  clear_execution_buffer : String → M Call (Unit {0})
  clear_execution_buffer id = call env (clear_logs id)
