-- ===== src/Logs/Examples.antt =====
-- Runs of src/logs/logs.service.ts, on one execution.
use otto_handler.Prelude.{
  ◌≡◌, refl, subst, ◌≤◌, zero, suc, false, ℕ, List, [], ◌∷◌, length, none, some, arith,
}
use otto_handler.Prelude.Effects.{history, Env, resolve}
use otto_handler.Cloudwatch.Storage
use otto_handler.Prelude.Grows.{Made, first}
use otto_handler.Cloudwatch.Types.{
  success, LogRow, StreamEvent, FilterPage, LogFilter, Call, find_execution, latest_deploy,
  find_rows, build_info, save_execution, stop_timer, find_pipeline_owner, filter_events,
  describe_streams, Ret,
}
use otto_handler.Cloudwatch.Examples.{env_of, clock, execution, entry}
use otto_handler.Logs.Executions.{with_status, update_execution_status}
use otto_handler.Logs.Executions.Laws.{Finished, update_execution_status-Finished}
use otto_handler.Logs.Combined.{sort_rows, insert_row, deploy_row, get_combined_execution_logs}
use otto_handler.Logs.Combined.Order.{Combined, get_combined_execution_logs-Combined}
use otto_handler.Logs.Stale.{check_stale_executions}
use otto_handler.Logs.Stale.Asks.{check_stale_executions-Made}
use otto_handler.Logs.Ecs.{EcsOptions, page_logs, get_ecs_deployment_logs}
use otto_handler.Logs.Ecs.Access.{get_ecs_deployment_logs_over}

abbrev row : LogRow
row = record { log = entry; created_at = 1 }

abbrev event : StreamEvent
event = record { timestamp = 0; message = some "listening"; stream = some "e1/web" }

-- One event of a longer stream, if it may be answered.
abbrev page_within : ℕ → FilterPage
page_within zero = record { events = []; next_token = some "t" }
page_within (suc n) = record { events = event ∷ []; next_token = some "t" }

abbrev env : Env Call Ret
env h (find_rows id l o) = resolve (row ∷ [])
env h (latest_deploy id) = resolve (some execution)
env h (filter_events f) = resolve (page_within f.limit)
env h (describe_streams g p) = resolve (some "e1/web" ∷ some "e2/web" ∷ [])
env h c = env_of (resolve tt) h c

update_execution_status-Finished_example : Finished env clock "e1" success none [] (
    save_execution (with_status success none 7 execution)
    ∷ stop_timer "e1"
    ∷ find_execution "e1"
    ∷ [])
unfolding update_execution_status
update_execution_status-Finished_example =
    update_execution_status-Finished env clock "e1" success none []
      (save_execution (with_status success none 7 execution)
        ∷ stop_timer "e1"
        ∷ find_execution "e1"
        ∷ [])
      refl refl

abbrev combined_calls : List Call
combined_calls =
    filter_events (record {
      group = "/ecs/otto-pipelines/l1";
      streams = some ("stream" ∷ []);
      limit = 1000;
      start_time = none;
      end_time = none;
    })
    ∷ latest_deploy "l1"
    ∷ find_rows "e1" none none
    ∷ find_execution "e1"
    ∷ []

get_combined_execution_logs-Combined_example :
    Combined env clock "e1" none none [] (deploy_row "e1" event ∷ row ∷ []) combined_calls
unfolding get_combined_execution_logs Storage.get_execution_logs sort_rows insert_row
get_combined_execution_logs-Combined_example =
    get_combined_execution_logs-Combined env clock "e1" none none []
      (deploy_row "e1" event ∷ row ∷ []) combined_calls refl

check_stale_executions-Made_example :
    Made (build_info "b1") (history (check_stale_executions env clock []))
check_stale_executions-Made_example =
    check_stale_executions-Made env clock [] (execution ∷ []) execution "b1" refl first refl refl

abbrev many : EcsOptions
many = record {
  limit = some 20000;
  container_name = some "web";
  start_time = none;
  end_time = none;
}

resolved : {p q : FilterPage} → resolve p ≡ resolve q → p ≡ q
resolved e = cc

events_within : (n : ℕ) → length (page_within n).events ≤ n
events_within zero = omega arith
events_within (suc n) = omega arith

abbrev asked : LogFilter
asked = record {
  group = "/ecs/otto-pipelines/l1";
  streams = none;
  limit = 10000;
  start_time = none;
  end_time = none;
}

get_ecs_deployment_logs_over_example :
    (page_logs env clock "/ecs/otto-pipelines/l1" (some 20000) (page_within 10000)).has_more ≡ false
unfolding get_ecs_deployment_logs
get_ecs_deployment_logs_over_example =
    get_ecs_deployment_logs_over env clock "l1" (some "u2") many 20000 []
      (page_logs env clock "/ecs/otto-pipelines/l1" (some 20000) (page_within 10000))
      (filter_events asked ∷ find_pipeline_owner "l1" ∷ [])
      (λ k f page e. subst (λ p. length p.events ≤ f.limit) (resolved e) (events_within f.limit))
      refl (omega arith) refl
