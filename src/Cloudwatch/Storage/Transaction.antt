-- ===== src/Cloudwatch/Storage/Transaction.antt =====
-- The transaction of `saveLogs` (src/logs/services/log-storage/log-storage.service.ts).
use otto_handler.Prelude.{◌≡◌, refl, ℕ, suc, ◌+◌, List, [], ◌∷◌, length, arith}
use otto_handler.Prelude.Effects.{ok, history, Env, Clock}
use otto_handler.Cloudwatch.Types.{
  LogEvent, Call, connect, begin, commit, release, save_rows, get_log_events, Ret,
}
use otto_handler.Cloudwatch.Storage.{save_logs}

-- The number of rows that the calls save.
unfoldable pub rows_saved : List Call → ℕ
rows_saved [] = 0
rows_saved (save_rows logs ∷ h) = length logs + rows_saved h
rows_saved (_ ∷ h) = rows_saved h

-- The calls that read a page.
unfoldable pub pages_read : List Call → ℕ
pages_read [] = 0
pages_read (get_log_events g s t ∷ h) = suc (pages_read h)
pages_read (_ ∷ h) = pages_read h

module _ (env : Env Call Ret) (clock : Clock Call) where
  -- A save of logs that resolves has committed them: it made exactly these calls.
  save_logs_committed :
      (log : LogEvent) (logs : List LogEvent) (h h' : List Call)
      → save_logs env clock (log ∷ logs) h ≡ ok tt h'
      → h' ≡ release ∷ commit ∷ save_rows (log ∷ logs) ∷ begin ∷ connect ∷ h
  unfolding save_logs
  save_logs_committed log logs h h' e = ground arith

  pub rows_saved-save_logs :
      (logs : List LogEvent) (h h' : List Call)
      → save_logs env clock logs h ≡ ok tt h'
      → rows_saved h' ≡ length logs + rows_saved h
  unfolding save_logs rows_saved
  rows_saved-save_logs [] h h' e = ground arith
  rows_saved-save_logs (log ∷ logs) h h' e = rw (save_logs_committed log logs h h' e) refl

  pub pages_read-save_logs :
      (logs : List LogEvent) (h : List Call)
      → pages_read (history (save_logs env clock logs h)) ≡ pages_read h
  unfolding save_logs pages_read
  pages_read-save_logs [] h = refl
  pages_read-save_logs (log ∷ logs) h = ground arith
