-- ===== src/Cloudwatch/Storage.antt =====
-- The class `LogStorageService` of src/logs/services/log-storage/log-storage.service.ts.
pub mod Transaction
pub mod Atomic
use otto_handler.Prelude.{
  ℕ, zero, ◌*◌, ◌-◌, Bool, true, false, String, List, [], ◌∷◌, Option, none, some, ltb,
  if◌then◌else◌,
}
use otto_handler.Prelude.Effects.{
  Env, Clock, M, ◌>>=◌, ◌>>◌, return, fail, call, now, try_catch, finally,
}
use otto_handler.Cloudwatch.Types.{
  LogLevel, error_level, ExecutionStatus, success, failed, LogEvent, LogRow, Call, connect, begin,
  commit, rollback, release, save_rows, find_rows, count_rows, count_level, latest_row,
  rows_of_level, delete_rows, delete_before, set_execution, Ret,
}

-- `if (offset)`, `if (limit)`: a count other than 0
abbrev positive : Option ℕ → Option ℕ
positive (some zero) = none
positive o = o

abbrev or_zero : Option ℕ → ℕ
or_zero none = 0
or_zero (some n) = n

-- `completedAt || new Date()`
abbrev or_now : Option ℕ → ℕ → ℕ
or_now none time = time
or_now (some t) time = t

module _ (env : Env Call Ret) (clock : Clock Call) where
  -- Saving the rows in the transaction that has begun.
  abbrev pub in_transaction : List LogEvent → M Call (Unit {0})
  in_transaction logs =
      try_catch (do call env (save_rows logs); call env commit) (λ e. do call env rollback; fail e)

  unfoldable pub save_logs : List LogEvent → M Call (Unit {0})
  save_logs [] = return tt
  save_logs (log ∷ logs) = do
    call env connect
    call env begin
    finally (in_transaction (log ∷ logs)) (call env release)

  unfoldable pub get_execution_logs : String → (limit offset : Option ℕ) → M Call (List LogRow)
  get_execution_logs id limit offset = call env (find_rows id (positive limit) (positive offset))

  unfoldable pub get_execution_log_count : String → M Call ℕ
  get_execution_log_count id = call env (count_rows id)

  get_latest_log : String → M Call (Option LogRow)
  get_latest_log id = call env (latest_row id)

  delete_execution_logs : String → M Call (Unit {0})
  delete_execution_logs id = call env (delete_rows id)

  -- A day is 24 hours here.
  delete_old_logs : ℕ → M Call ℕ
  delete_old_logs days = do
    time ← now clock
    affected ← call env (delete_before (time - days * 86400000))
    return (or_zero affected)

  get_logs_by_level : String → LogLevel → M Call (List LogRow)
  get_logs_by_level id level = call env (rows_of_level id level)

  has_errors : String → M Call Bool
  has_errors id = do count ← call env (count_level id error_level); return (ltb 0 count)

  update_execution_status : String → Bool → Option ℕ → M Call (Unit {0})
  update_execution_status id succeeded completed_at = do
    time ← now clock
    call env (set_execution id (if succeeded then success else failed) (or_now completed_at time))
