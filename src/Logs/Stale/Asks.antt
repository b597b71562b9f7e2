-- ===== src/Logs/Stale/Asks.antt =====
-- `checkStaleExecutions` of src/logs/logs.service.ts asks CodeBuild for every stale execution.
use otto_handler.Prelude.{◌≡◌, true, ◌-◌, String, List, ◌∷◌, some, truthy}
use otto_handler.Prelude.Effects.{ok, Env, Clock, resolve, history, return, for_each}
use otto_handler.Prelude.Grows.{
  Made, In, Grows-return, Made-or_else, Made-for_each, caught_resolves,
}
use otto_handler.Cloudwatch.Types.{Execution, Call, find_stale, build_info, Ret}
use otto_handler.Logs.Stale.{minutes, check_build, check_one, check_stale_executions}
use otto_handler.Logs.Stale.Checks.{check_one-Grows, Made-check_one}

module _ (env : Env Call Ret) (clock : Clock Call) where
  check_one_resolves :
      (x : Execution) (h : List Call) → (k : List Call) × (check_one env clock x h ≡ ok tt k)
  unfolding check_one
  check_one_resolves x h = caught_resolves (check_build env clock x x.aws_build_id) h

  -- A check asks CodeBuild for the build of each stale execution that names one, whatever becomes of
  -- the executions before it.
  pub check_stale_executions-Made :
      (h : List Call) (stale : List Execution) (x : Execution) (id : String)
      → env h (find_stale (clock h - minutes 5)) ≡ resolve stale
      → In x stale
      → x.aws_build_id ≡ some id
      → truthy x.aws_build_id ≡ true
      → Made (build_info id) (history (check_stale_executions env clock h))
  unfolding check_stale_executions
  check_stale_executions-Made h stale x id f i e t =
      let asked = find_stale (clock h - minutes 5) ∷ h in
      rw f (
        Made-or_else (for_each stale (check_one env clock) asked) (λ _. return tt) (build_info id)
          (λ _. Grows-return tt)
          (Made-for_each stale (check_one env clock) x (build_info id) asked check_one_resolves
            (check_one-Grows env clock) (λ k. Made-check_one env clock x id k e t) i))
