-- ===== src/LogBuffer/Service.antt =====
-- The class `LogBufferService` of src/logs/services/log-buffer/log-buffer.service.ts.
-- Its fields are the record's; the events that it emits are kept in order beside them. A limit is
-- absent or a natural number: a negative one is treated by the code as an absent one.
pub mod History
use otto_handler.Prelude.{
  ℕ, ◌+◌, ◌-◌, ◌&&◌, Bool, true, false, String, List, [], ◌∷◌, ◌++◌, Option, none, some, ltb,
  is_some, if◌then◌else◌, length, drop,
}
use otto_handler.Prelude.Maps.{Dictionary, lookup, insert, delete, keys}
use otto_handler.LogBuffer.Ring.{CircularBuffer, new, push_all, to_array, clear, get_size, is_full}

pub record LogEntry : Type 0 where
  pub execution_id : String
  pub timestamp : ℕ
  pub message : String
  pub level : String

pub record LogBufferService : Type 0 where
  pub buffers : Dictionary (CircularBuffer LogEntry)
  pub default_buffer_size : ℕ
  -- the payloads of the `logs.new` events, oldest first
  pub emitted : List (String × List LogEntry)

abbrev pub default_size : ℕ
default_size = 1000

unfoldable pub init : LogBufferService
init = record { buffers = []; default_buffer_size = default_size; emitted = [] }

-- `if (!this.buffers.has(executionId)) this.buffers.set(executionId, new CircularBuffer(…))`
ensure_buffer : String → LogBufferService → LogBufferService
ensure_buffer id s =
    if is_some (lookup id s.buffers)
    then s
    else record s { buffers = insert id (new s.default_buffer_size) s.buffers }

-- `const buffer = this.buffers.get(executionId)!; logs.forEach((log) => buffer.push(log))`
push_logs : String → List LogEntry → LogBufferService → LogBufferService
push_logs id logs s = elim (lookup id s.buffers) [
  | none ↦ s
  | some buffer ↦ record s { buffers = insert id (push_all logs buffer) s.buffers }
]

emit : String → List LogEntry → LogBufferService → LogBufferService
emit id logs s = record s { emitted = s.emitted ++ (id, logs) ∷ [] }

unfoldable pub add_logs : String → List LogEntry → LogBufferService → LogBufferService
unfolding ensure_buffer push_logs emit
add_logs id logs s = emit id logs (push_logs id logs (ensure_buffer id s))

-- `logs.slice(-limit)`
slice_last {ℓ} : {A : Type ℓ} → ℕ → List A → List A
slice_last n xs = drop (length xs - n) xs

-- `limit && limit > 0`
limited : Option ℕ → List (Option LogEntry) → List (Option LogEntry)
unfolding slice_last
limited none logs = logs
limited (some n) logs = if ltb 0 n then slice_last n logs else logs

recent : Option ℕ → Option (CircularBuffer LogEntry) → List (Option LogEntry)
unfolding limited
recent limit none = []
recent limit (some buffer) = limited limit (to_array buffer)

unfoldable pub get_recent_logs : String → Option ℕ → LogBufferService → List (Option LogEntry)
unfolding recent
get_recent_logs id limit s = recent limit (lookup id s.buffers)

unfoldable pub clear_buffer : String → LogBufferService → LogBufferService
clear_buffer id s = elim (lookup id s.buffers) [
  | none ↦ s
  | some buffer ↦ record s { buffers = delete id (insert id (clear buffer) s.buffers) }
]

-- `executionIds.forEach((executionId) => this.clearBuffer(executionId))`
clear_each : List String → LogBufferService → LogBufferService
clear_each [] s = s
clear_each (id ∷ ids) s = clear_each ids (clear_buffer id s)

unfoldable pub clear_all_buffers : LogBufferService → LogBufferService
unfolding clear_each clear_buffer
clear_all_buffers s = clear_each (keys s.buffers) s

stats : Dictionary (CircularBuffer LogEntry) → List (String × ℕ × Bool)
stats [] = []
stats ((id, buffer) ∷ m) = (id, get_size buffer, is_full buffer) ∷ stats m

pub get_buffer_stats : LogBufferService → List (String × ℕ × Bool)
unfolding stats
get_buffer_stats s = stats s.buffers

total_from : ℕ → Dictionary (CircularBuffer LogEntry) → ℕ
total_from total [] = total
total_from total ((id, buffer) ∷ m) = total_from (total + get_size buffer) m

pub get_total_buffered_logs : LogBufferService → ℕ
unfolding total_from
get_total_buffered_logs s = total_from 0 s.buffers
