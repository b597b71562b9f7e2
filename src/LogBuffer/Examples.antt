-- ===== src/LogBuffer/Examples.antt =====
-- Runs of the log buffers, and the theorems at concrete inputs.
use otto_handler.Prelude.{ℕ, ◌≡◌, refl, List, [], ◌∷◌, map, min, some, arith}
use otto_handler.LogBuffer.Ring.{new, push, push_all, to_array, get_size}
use otto_handler.LogBuffer.Ring.Represents.{last}
use otto_handler.LogBuffer.Ring.Contract.{to_array-push_all, get_size-push_all}
use otto_handler.LogBuffer.Service.{LogEntry, init, get_recent_logs, default_size}
use otto_handler.LogBuffer.Service.History.{
  Operation, add, clear_one, perform_all, limit_to, added, get_recent_logs-perform_all,
}

wraps : to_array (push_all (1 ∷ 2 ∷ 3 ∷ 4 ∷ 5 ∷ []) (new {T = ℕ} 3)) ≡ some 3 ∷ some 4 ∷ some 5 ∷ []
unfolding to_array push_all push new
wraps = refl

to_array-push_all_example :
    to_array (push_all (1 ∷ 2 ∷ 3 ∷ 4 ∷ []) (new {T = ℕ} 3))
    ≡ map some (last 3 (1 ∷ 2 ∷ 3 ∷ 4 ∷ []))
to_array-push_all_example = to_array-push_all 3 (1 ∷ 2 ∷ 3 ∷ 4 ∷ []) (omega arith)

get_size-push_all_example : get_size (push_all (1 ∷ 2 ∷ 3 ∷ 4 ∷ []) (new {T = ℕ} 3)) ≡ min 4 3
get_size-push_all_example = get_size-push_all 3 (1 ∷ 2 ∷ 3 ∷ 4 ∷ []) (omega arith)

abbrev entry : ℕ → LogEntry
entry n = record { execution_id = "e"; timestamp = n; message = "line"; level = "info" }

abbrev calls : List Operation
calls = add "e" (entry 1 ∷ []) ∷ clear_one "e" ∷ add "e" (entry 2 ∷ entry 3 ∷ []) ∷ []

get_recent_logs-perform_all_example :
    get_recent_logs "e" (some 1) (perform_all calls init)
    ≡ map some (limit_to (some 1) (last default_size (added "e" calls)))
get_recent_logs-perform_all_example = get_recent_logs-perform_all calls "e" (some 1)
