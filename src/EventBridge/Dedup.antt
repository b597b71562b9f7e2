-- ===== src/EventBridge/Dedup.antt =====
-- `RedisService` of src/common/redis/redis.service.ts, and the check for duplicates over it in
-- src/logs/eventbridge.service.ts.
use otto_handler.Prelude.{ℕ, Bool, true, false, String, [], ◌∷◌, ◌==◌, if◌then◌else◌}
use otto_handler.Prelude.Text.{template}
use otto_handler.Prelude.Effects.{Env, Clock, M, ◌>>=◌, ◌>>◌, return, call, now, try_catch}
use otto_handler.EventBridge.Types.{Call, setnx, expire, setex, Ret}

abbrev pub event_ttl : ℕ
event_ttl = 3600

abbrev pub event_key : String → String
event_key id = template ("eventbridge:event:" ∷ id ∷ [])

abbrev pub history_key : String → String
history_key id = template ("eventbridge:history:" ∷ id ∷ [])

module _ (env : Env Call Ret) (clock : Clock Call) where
  abbrev pub set_new : String → ℕ → M Call Bool
  set_new id time = do
    result ← call env (setnx (event_key id) time)
    if result == 1
        then (do call env (expire (event_key id) event_ttl); return true)
        else return false

  -- Whether the id is new; it is marked as seen.
  unfoldable pub mark_seen : String → M Call Bool
  mark_seen id = do time ← now clock; set_new id time

  unfoldable pub save_event_history : String → M Call (Unit {0})
  save_event_history id = try_catch (call env (setex (history_key id) event_ttl)) (λ _. return tt)

  -- An id counts as new where Redis fails.
  unfoldable pub check_duplicate : String → M Call Bool
  unfolding mark_seen
  check_duplicate id = try_catch (mark_seen id) (λ _. return true)
