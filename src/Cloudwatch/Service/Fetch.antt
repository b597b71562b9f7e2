-- ===== src/Cloudwatch/Service/Fetch.antt =====
-- Reading a whole log stream (src/logs/services/cloudwatch/cloudwatch.service.ts).
use otto_handler.Prelude.{
  ◌≡◌, refl, inl, inr, ℕ, zero, suc, ◌+◌, ◌≤◌, length, Bool, true, false, ltb, if◌then◌else◌,
  String, List, ◌∷◌, arith, Option, none, some,
}
use otto_handler.Prelude.Effects.{
  M, Error, fail, Outcome, ok, throw, history, Env, Clock, Outcome-cases, Reply-cases, ◌>>=◌,
  return, or_else,
}
use otto_handler.Cloudwatch.Types.{Execution, Call, get_log_events, find_execution, Ret}
use otto_handler.Cloudwatch.Storage.{save_logs, get_execution_log_count}
use otto_handler.Cloudwatch.Storage.Transaction.{pages_read, pages_read-save_logs}
use otto_handler.Cloudwatch.Service.{
  logs_of, no_more, fetch_loop, max_attempts, is_not_found, fetch_and_save_all_logs, recover_from,
  log_group_name, auto_recover_logs_for_execution,
}

pages_read_if :
    (last : Bool) (sum : ℕ) (loop : M Call ℕ) (k : List Call) {n : ℕ}
    → pages_read k ≤ n
    → pages_read (history (loop k)) ≤ n
    → pages_read (history ((if last then return sum else loop) k)) ≤ n
pages_read_if true sum loop k a b = a
pages_read_if false sum loop k a b = b

module _ (env : Env Call Ret) (clock : Clock Call) where
  -- The loop reads at most as many pages as it has attempts.
  pages_read-fetch_loop :
      (id group stream : String) (left : ℕ) (token : Option String) (total : ℕ) (h : List Call)
      → pages_read (history (fetch_loop env clock id group stream left token total h))
        ≤ left + pages_read h
  unfolding fetch_loop pages_read
  pages_read-fetch_loop id group stream zero token total h = omega arith
  pages_read-fetch_loop id group stream (suc left) token total h =
      let read = get_log_events group stream token ∷ h in
      elim (Reply-cases (env h (get_log_events group stream token))) [
        | inr (x, f) ↦ rw f (omega arith)
        | inl (page, f) ↦
            let sum = total + length page.events in
            let kept = pages_read-save_logs env clock (logs_of id page) read in
            rw f (elim (Outcome-cases (save_logs env clock (logs_of id page) read)) [
              | inr (x, k, e) ↦ rw e (omega (arith, rw e at kept))
              | inl (_, k, e) ↦ rw e (
                  pages_read_if (no_more page.next_token token) sum
                    (fetch_loop env clock id group stream left page.next_token sum) k
                    (omega (arith, rw e at kept))
                    (omega (
                      arith,
                      rw e at kept,
                      pages_read-fetch_loop id group stream left page.next_token sum k,
                    )))
            ])
      ]

  pages_read_else :
      (o : Outcome Call ℕ) (f : Error → M Call ℕ) {n : ℕ}
      → pages_read (history o) ≤ n
      → ((e : Error) (k : List Call) → history (f e k) ≡ k)
      → pages_read (history (or_else o f)) ≤ n
  pages_read_else (ok a k) f b q = b
  pages_read_else (throw e k) f b q = rw (q e k) b

  -- Reading the logs of an execution reads at most ten pages, also when it fails.
  pub pages_read-fetch_and_save_all_logs :
      (id group stream : String) (h : List Call)
      → pages_read (history (fetch_and_save_all_logs env clock id group stream h))
        ≤ 10 + pages_read h
  unfolding fetch_and_save_all_logs pages_read
  pages_read-fetch_and_save_all_logs id group stream h =
      elim (Reply-cases (env h (find_execution id))) [
        | inr (x, f) ↦ rw f (omega arith)
        | inl (none, f) ↦ rw f (omega arith)
        | inl (some x, f) ↦ rw f (
            pages_read_else
              (fetch_loop env clock id group stream max_attempts none 0 (find_execution id ∷ h))
              (λ e. if is_not_found e then return 0 else fail e)
              (pages_read-fetch_loop id group stream max_attempts none 0 (find_execution id ∷ h))
              (λ e k. ground arith))
      ]

  or_zero_resolves :
      (o : Outcome Call ℕ) → (n : ℕ) × (k : List Call) × (or_else o (λ _. return 0) ≡ ok n k)
  or_zero_resolves (ok n k) = (n, k, refl)
  or_zero_resolves (throw e k) = (0, k, refl)

  -- The recovery of the logs of an execution never rejects.
  auto_recover_resolves :
      (node_env : String) (x : Execution) (h : List Call)
      → (n : ℕ) × (k : List Call) × (auto_recover_logs_for_execution env clock node_env x h
          ≡ ok n k)
  unfolding auto_recover_logs_for_execution
  auto_recover_resolves node_env x h = or_zero_resolves (
      (get_execution_log_count env clock x.execution_id >>= λ count.
      if ltb 0 count then return count else recover_from env clock (log_group_name node_env x) x)
        h)
