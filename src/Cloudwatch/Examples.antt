-- ===== src/Cloudwatch/Examples.antt =====
-- Runs of src/logs/services/cloudwatch and src/logs/services/log-storage, on a stream of two pages.
use otto_handler.Prelude.{
  ◌≡◌, ◌≢◌, refl, inr, ◌≤◌, ◌+◌, true, String, List, [], ◌∷◌, Option, none, some, arith,
}
use otto_handler.Prelude.Effects.{error, Reply, resolve, reject, ok, throw, history, Env, Clock}
use otto_handler.Cloudwatch.Types
use otto_handler.Cloudwatch.Types.{
  info, running, LogEvent, Execution, Page, Call, get_log_events, connect, begin, commit, rollback,
  release, save_rows, find_execution, Ret,
}
use otto_handler.Cloudwatch.Storage.{save_logs}
use otto_handler.Cloudwatch.Storage.Transaction.{pages_read}
use otto_handler.Cloudwatch.Storage.Atomic.{Settled, save_logs-Settled}
use otto_handler.Cloudwatch.Message.{parse_log_phase_and_step}
use otto_handler.Cloudwatch.Message.Markers.{parse_log_phase_and_step_order}
use otto_handler.Cloudwatch.Service.{Poller, tick, log_event, fetch_and_save_all_logs}
use otto_handler.Cloudwatch.Service.Polling.{Bounded, tick-Bounded}
use otto_handler.Cloudwatch.Service.Fetch.{pages_read-fetch_and_save_all_logs}

abbrev pub execution : Execution
execution = record {
  execution_id = "e1";
  pipeline_id = "l1";
  project_id = "p1";
  user_id = "u1";
  execution_type = Types.build;
  status = running;
  aws_build_id = some "b1";
  aws_deployment_id = none;
  log_stream_name = some "stream";
  metadata = none;
  started_at = some 1;
  completed_at = none;
  duration = none;
  updated_at = some 1;
  project_log_group = none;
  project_owner = some "u2";
}

abbrev page_of : Option String → Page
page_of none = record { events = (1, "hello") ∷ (2, "POST_BUILD") ∷ []; next_token = some "t" }
page_of (some t) = record { events = []; next_token = some "t" }

-- A database whose saves of rows are answered as given.
abbrev pub env_of : Reply (Unit {0}) → Env Call Ret
env_of saving h (get_log_events g s token) = resolve (page_of token)
env_of saving h connect = resolve tt
env_of saving h begin = resolve tt
env_of saving h commit = resolve tt
env_of saving h rollback = resolve tt
env_of saving h release = resolve tt
env_of saving h (save_rows logs) = saving
env_of saving h (Types.find_rows id l o) = resolve []
env_of saving h (Types.count_rows id) = resolve 0
env_of saving h (Types.count_level id l) = resolve 0
env_of saving h (Types.latest_row id) = resolve none
env_of saving h (Types.rows_of_level id l) = resolve []
env_of saving h (Types.delete_rows id) = resolve tt
env_of saving h (Types.delete_before t) = resolve none
env_of saving h (find_execution id) = resolve (some execution)
env_of saving h (Types.set_execution id s t) = resolve tt
env_of saving h (Types.find_log_group id) = resolve (some "group")
env_of saving h (Types.add_to_buffer id logs) = resolve tt
env_of saving h (Types.recent_logs id limit) = resolve []
env_of saving h (Types.clear_logs id) = resolve tt
env_of saving h (Types.save_execution x) = resolve x
env_of saving h (Types.save_new_execution x s) = resolve execution
env_of saving h (Types.find_executions q) = resolve []
env_of saving h (Types.find_stale t) = resolve (execution ∷ [])
env_of saving h (Types.find_successful_since t) = resolve (execution ∷ [])
env_of saving h (Types.latest_deploy id) = resolve none
env_of saving h (Types.find_pipeline_owner id) = resolve (some (some "u2"))
env_of saving h (Types.build_info id) =
    resolve (record { build_status = "SUCCEEDED"; group_name = none; stream_name = none })
env_of saving h (Types.stop_timer id) = resolve tt
env_of saving h (Types.filter_events f) = resolve (record { events = []; next_token = none })
env_of saving h (Types.describe_streams g p) = resolve []

abbrev pub up : Env Call Ret
up = env_of (resolve tt)

abbrev down : Env Call Ret
down = env_of (reject (error "disk full"))

abbrev pub clock : Clock Call
clock h = 7

abbrev pub entry : LogEvent
entry = record {
  execution_id = "e1";
  timestamp = 1;
  message = "hello";
  level = info;
  phase = none;
  step = none;
  step_order = none;
}

save_logs-Settled_example :
    Settled down clock (entry ∷ []) [] (save_logs down clock (entry ∷ []) [])
save_logs-Settled_example = save_logs-Settled down clock entry [] []

-- Rows that cannot be saved.
disk_full :
    save_logs down clock (entry ∷ []) []
    ≡ throw (error "disk full") (release ∷ rollback ∷ save_rows (entry ∷ []) ∷ begin ∷ connect ∷ [])
unfolding save_logs
disk_full = refl

parse_log_phase_and_step_order_example :
    (parse_log_phase_and_step "Entering phase POST_BUILD").step_order ≢ some 5
parse_log_phase_and_step_order_example = parse_log_phase_and_step_order "Entering phase POST_BUILD"

abbrev poller : Poller
poller = record {
  group = "group";
  stream = "stream";
  execution_id = "e1";
  token = none;
  retries = 4;
  is_polling = true;
}

tick-Bounded_example :
    (p : Poller) × (h : List Call) × (tick down clock poller [] ≡ ok p h) × Bounded p
tick-Bounded_example = tick-Bounded down clock poller [] (inr (omega arith))

pages_read-fetch_and_save_all_logs_example :
    pages_read (history (fetch_and_save_all_logs up clock "e1" "group" "stream" []))
    ≤ 10 + pages_read []
pages_read-fetch_and_save_all_logs_example =
    pages_read-fetch_and_save_all_logs up clock "e1" "group" "stream" []

abbrev fetched : List Call
fetched =
    get_log_events "group" "stream" (some "t")
    ∷ release
    ∷ commit
    ∷ save_rows (log_event "e1" (1, "hello") ∷ log_event "e1" (2, "POST_BUILD") ∷ [])
    ∷ begin
    ∷ connect
    ∷ get_log_events "group" "stream" none
    ∷ []
