-- ===== src/Logs/Stale/Checks.antt =====
-- Each stale execution is checked, whatever becomes of the others (src/logs/logs.service.ts).
use otto_handler.Prelude.{
  ◌≡◌, ℕ, zero, suc, String, List, [], ◌∷◌, Option, none, some, truthy, true, arith,
}
use otto_handler.Prelude.Effects.{Env, Clock, history, call, return}
use otto_handler.Prelude.Grows.{
  Made, Grows, Made-and_then, Made-or_else, Made-call, Grows->>=, Grows-call, Grows-or_throw,
  Grows-now, Grows-return, Grows-if, Grows-finally, Grows-try_catch, Grows-fail,
}
use otto_handler.Cloudwatch.Types.{
  Execution, LogEvent, Call, BuildInfo, success, failed, count_rows, stop_timer, save_execution,
  commit, release, build_info, Ret, ExecutionStatus,
}
use otto_handler.Prelude.Json.{Metadata}
use otto_handler.Cloudwatch.Storage.{save_logs, get_execution_log_count}
use otto_handler.Cloudwatch.Service.{
  logs_of, no_more, max_attempts, is_not_found, fetch_loop, fetch_and_save_all_logs,
}
use otto_handler.Logs.Executions.{is_final, with_status, store_status, update_execution_status}
use otto_handler.Logs.Stale.{
  check_one, Verdict, succeeded, broken, in_progress, unknown, verdict, recovered, recovery_failed,
  both, changes_running, fetch, from_stream, from_build, check_logs, set_status, set_status_at,
  follow, touch, with_info, check_build,
}

same_id : {a b : String} → some a ≡ some b → a ≡ b
same_id e = cc

module _ (env : Env Call Ret) (clock : Clock Call) where
  store_status-Grows :
      (id : String) (x : Execution) (status : ExecutionStatus) (metadata : Option Metadata)
      (time : ℕ)
      → Grows (store_status env clock id x status metadata time)
  store_status-Grows id x status metadata time =
      Grows->>= _ _
        (Grows-if (is_final status) (call env (stop_timer id)) (return tt)
          (Grows-call env (stop_timer id)) (Grows-return tt))
        (λ _.
          Grows->>= _ _ (Grows-call env (save_execution (with_status status metadata time x)))
            (λ _. Grows-return tt))

  update_execution_status-Grows :
      (id : String) (status : ExecutionStatus) (metadata : Option Metadata)
      → Grows (update_execution_status env clock id status metadata)
  unfolding update_execution_status
  update_execution_status-Grows id status metadata = Grows->>= _ _ (Grows-call env _) (λ found.
      Grows->>= _ _ (Grows-or_throw found _) (λ x.
        Grows->>= _ (store_status env clock id x status metadata) (Grows-now clock)
          (store_status-Grows id x status metadata)))

  save_logs-Grows : (logs : List LogEvent) → Grows (save_logs env clock logs)
  unfolding save_logs
  save_logs-Grows [] = Grows-return tt
  save_logs-Grows (log ∷ logs) = Grows->>= _ _ (Grows-call env _) (λ _.
      Grows->>= _ _ (Grows-call env _) (λ _.
        Grows-finally _ _
          (Grows-try_catch _ _ (Grows->>= _ _ (Grows-call env _) (λ _. Grows-call env commit))
            (λ e. Grows->>= _ _ (Grows-call env _) (λ _. Grows-fail e)))
          (Grows-call env release)))

  fetch_loop-Grows :
      (id group stream : String) (left : ℕ) (token : Option String) (total : ℕ)
      → Grows (fetch_loop env clock id group stream left token total)
  unfolding fetch_loop
  fetch_loop-Grows id group stream zero token total = Grows-return total
  fetch_loop-Grows id group stream (suc left) token total =
      Grows->>= _ _ (Grows-call env _) (λ page.
        Grows->>= _ _ (save_logs-Grows (logs_of id page)) (λ _.
          Grows-if (no_more page.next_token token) _ _ (Grows-return _)
            (fetch_loop-Grows id group stream left page.next_token _)))

  fetch_and_save_all_logs-Grows :
      (id group stream : String) → Grows (fetch_and_save_all_logs env clock id group stream)
  unfolding fetch_and_save_all_logs
  fetch_and_save_all_logs-Grows id group stream = Grows->>= _ _ (Grows-call env _) (λ found.
      Grows->>= _ _ (Grows-or_throw found _) (λ x.
        Grows-try_catch _ _ (fetch_loop-Grows id group stream max_attempts none 0)
          (λ e. Grows-if (is_not_found e) _ _ (Grows-return 0) (Grows-fail e))))

  fetch-Grows :
      (warning : String) (x : Execution) (group stream : String)
      → Grows (fetch env clock warning x group stream)
  fetch-Grows warning x group stream =
      Grows-try_catch _ _
        (Grows->>= _ _ (fetch_and_save_all_logs-Grows x.execution_id group stream)
          (λ count. Grows-return (recovered warning count)))
        (λ _. Grows-return recovery_failed)

  from_stream-Grows : (x : Execution) → Grows (from_stream env clock x)
  from_stream-Grows x =
      Grows-if (truthy x.log_stream_name) _ _ (fetch-Grows _ x _ _) (Grows-return _)

  from_build-Grows :
      (x : Execution) (found : Option (String × String)) → Grows (from_build env clock x found)
  from_build-Grows x none = from_stream-Grows x
  from_build-Grows x (some (group, stream)) = fetch-Grows _ x group stream

  check_logs-Grows :
      (x : Execution) (info : BuildInfo) (count : ℕ) → Grows (check_logs env clock x info count)
  check_logs-Grows x info zero = from_build-Grows x (both info.group_name info.stream_name)
  check_logs-Grows x info (suc count) = Grows-return []

  set_status-Grows :
      (x : Execution) (status : ExecutionStatus) (metadata : Metadata)
      → Grows (set_status env clock x status metadata)
  set_status-Grows x status metadata =
      Grows->>= _ (set_status_at env clock x status metadata) (Grows-now clock) (λ time.
        Grows-if (changes_running status x.status) _ _
          (update_execution_status-Grows x.execution_id status _) (Grows-return tt))

  follow-Grows :
      (x : Execution) (info : BuildInfo) (v : Verdict) → Grows (follow env clock x info v)
  unfolding get_execution_log_count
  follow-Grows x info succeeded =
      Grows->>= _ _ (Grows-call env (count_rows x.execution_id)) (λ count.
        Grows->>= _ _ (check_logs-Grows x info count)
          (λ metadata. set_status-Grows x success metadata))
  follow-Grows x info (broken reason) = set_status-Grows x failed _
  follow-Grows x info in_progress = Grows->>= _ (touch env clock x) (Grows-now clock) (λ time.
      Grows->>= _ _ (Grows-call env (save_execution (record x { updated_at = some time })))
        (λ _. Grows-return tt))
  follow-Grows x info unknown = Grows-return tt

  with_info-Grows : (x : Execution) (id : String) → Grows (with_info env clock x id)
  with_info-Grows x id =
      Grows->>= _ _ (Grows-call env (build_info id))
        (λ info. follow-Grows x info (verdict info.build_status))

  check_build-Grows : (x : Execution) (id : Option String) → Grows (check_build env clock x id)
  check_build-Grows x none = Grows-return tt
  check_build-Grows x (some id) =
      Grows-if (truthy (some id)) _ _ (with_info-Grows x id) (Grows-return tt)

  pub check_one-Grows : (x : Execution) → Grows (check_one env clock x)
  unfolding check_one
  check_one-Grows x =
      Grows-try_catch _ _ (check_build-Grows x x.aws_build_id) (λ _. Grows-return tt)

  Made-check_build :
      (x : Execution) (o : Option String) (id : String) (h : List Call)
      → o ≡ some id
      → truthy o ≡ true
      → Made (build_info id) (history (check_build env clock x o h))
  Made-check_build x none id h e t = absurd (ground arith)
  Made-check_build x (some a) id h e t =
      rw (t, ← same_id e)
        (Made-and_then (call env (build_info a) h)
          (λ info. follow env clock x info (verdict info.build_status)) (build_info a)
          (λ info. follow-Grows x info (verdict info.build_status))
          (Made-call env (build_info a) h))

  pub Made-check_one :
      (x : Execution) (id : String) (h : List Call)
      → x.aws_build_id ≡ some id
      → truthy x.aws_build_id ≡ true
      → Made (build_info id) (history (check_one env clock x h))
  unfolding check_one
  Made-check_one x id h e t =
      Made-or_else (check_build env clock x x.aws_build_id h) (λ _. return tt) (build_info id)
        (λ _. Grows-return tt) (Made-check_build x x.aws_build_id id h e t)
