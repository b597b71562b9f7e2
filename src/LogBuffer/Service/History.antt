-- ===== src/LogBuffer/Service/History.antt =====
-- The buffers of `LogBufferService` (log-buffer.service.ts) against the history of its calls.
use native.Mathlib.Nat.{zero-sub}
use otto_handler.Prelude.{
  ℕ, zero, suc, ◌≡◌, refl, ◌∙◌, inl, inr, true, String, List, [], ◌∷◌, ◌++◌, map, Option, none,
  some, arith, ltb, str_eq, eq_iff, eq_refl, if◌then◌else◌, Bool-cases, Option-cases, drop,
  length-map,
}
use otto_handler.Prelude.Maps.{
  lookup, insert, keys, has_key, lookup-insert, lookup-delete, lookup_missing,
}
use otto_handler.LogBuffer.Ring.{CircularBuffer, new, push_all, clear}
use otto_handler.LogBuffer.Ring.Represents.{last, Represents, to_array-Represents}
use otto_handler.LogBuffer.Ring.Contract.{
  push_all-Represents, push_all-new-Represents, capacity-push_all, capacity-push_all-new,
}
use otto_handler.LogBuffer.Service.{
  LogEntry, LogBufferService, default_size, init, add_logs, clear_buffer, clear_each,
  clear_all_buffers, get_recent_logs, limited, recent,
}

-- The calls that change a buffer.
pub data Operation : Type 0 where
  add : String → List LogEntry → Operation
  clear_one : String → Operation
  clear_all : Operation

pub perform : Operation → LogBufferService → LogBufferService
perform (add id logs) s = add_logs id logs s
perform (clear_one id) s = clear_buffer id s
perform clear_all s = clear_all_buffers s

pub perform_all : List Operation → LogBufferService → LogBufferService
unfolding perform
perform_all [] s = s
perform_all (o ∷ os) s = perform_all os (perform o s)

-- The logs added for an execution since its buffer was last cleared.
abbrev pub after : String → Operation → List LogEntry → List LogEntry
after id (add j logs) seen = if str_eq j id then seen ++ logs else seen
after id (clear_one j) seen = if str_eq j id then [] else seen
after id clear_all seen = []

abbrev pub added_from : String → List LogEntry → List Operation → List LogEntry
added_from id seen [] = seen
added_from id seen (o ∷ os) = added_from id (after id o seen) os

abbrev pub added : String → List Operation → List LogEntry
added id os = added_from id [] os

-- A limit that is absent or 0 is no limit.
abbrev pub limit_to : Option ℕ → List LogEntry → List LogEntry
limit_to none xs = xs
limit_to (some zero) xs = xs
limit_to (some (suc n)) xs = last (suc n) xs

abbrev slot : Option (CircularBuffer LogEntry) → CircularBuffer LogEntry
slot none = new default_size
slot (some b) = b

-- What the entry of an execution holds.
data Holds (seen : List LogEntry) : Option (CircularBuffer LogEntry) → Type 0 where
  empty : seen ≡ [] → Holds seen none
  present :
      (b : CircularBuffer LogEntry)
      → b.capacity ≡ default_size
      → Represents b (last default_size seen)
      → Holds seen (some b)

lookup-add_logs :
    (id j : String) (logs : List LogEntry) (s : LogBufferService)
    → s.default_buffer_size ≡ default_size
    → lookup j (add_logs id logs s).buffers ≡ (
        if str_eq id j
        then some (push_all logs (slot (lookup id s.buffers)))
        else lookup j s.buffers)
unfolding add_logs
lookup-add_logs id j logs s e = elim (Option-cases (lookup id s.buffers)) [
  | inl missing ↦ ground (
    arith,
    eq_refl id,
    lookup-insert id id (new s.default_buffer_size) s.buffers,
    lookup-insert id j (new s.default_buffer_size) s.buffers,
    lookup-insert id j (push_all logs (new s.default_buffer_size))
        (insert id (new s.default_buffer_size) s.buffers),
  )
  | inr (b, found) ↦ ground (arith, lookup-insert id j (push_all logs b) s.buffers)
]

lookup-clear_buffer :
    (id j : String) (s : LogBufferService)
    → lookup j (clear_buffer id s).buffers ≡ (if str_eq id j then none else lookup j s.buffers)
unfolding clear_buffer
lookup-clear_buffer id j s = elim (Option-cases (lookup id s.buffers)) [
  | inl missing ↦ ground (arith, eq_iff id j)
  | inr (b, found) ↦ ground (
    arith,
    lookup-delete id j (insert id (clear b) s.buffers),
    lookup-insert id j (clear b) s.buffers,
  )
]

lookup-clear_each :
    (ids : List String) (j : String) (s : LogBufferService)
    → lookup j (clear_each ids s).buffers ≡ (if has_key j ids then none else lookup j s.buffers)
unfolding clear_each has_key
lookup-clear_each [] j s = refl
lookup-clear_each (id ∷ ids) j s =
    ground (arith, lookup-clear_each ids j (clear_buffer id s), lookup-clear_buffer id j s)

lookup-clear_all_buffers :
    (j : String) (s : LogBufferService) → lookup j (clear_all_buffers s).buffers ≡ none
unfolding clear_all_buffers
lookup-clear_all_buffers j s =
    ground (arith, lookup-clear_each (keys s.buffers) j s, lookup_missing j s.buffers)

Holds-push_all :
    (seen logs : List LogEntry) (o : Option (CircularBuffer LogEntry))
    → Holds seen o
    → Holds (seen ++ logs) (some (push_all logs (slot o)))
Holds-push_all seen logs none (empty e) =
    present (push_all logs (new default_size)) (capacity-push_all-new default_size logs)
      (rw e (push_all-new-Represents default_size logs (omega arith)))
Holds-push_all seen logs (some b) (present b' c r) =
    present (push_all logs b) (capacity-push_all logs b ∙ c)
      (push_all-Represents default_size b seen logs (omega arith) c r)

perform-Holds :
    (o : Operation) (id : String) (seen : List LogEntry) (s : LogBufferService)
    → s.default_buffer_size ≡ default_size
    → Holds seen (lookup id s.buffers)
    → Holds (after id o seen) (lookup id (perform o s).buffers)
unfolding perform
perform-Holds (add j logs) id seen s e h =
    rw (lookup-add_logs j id logs s e) (elim (Bool-cases (str_eq j id)) [
      | inl same ↦
          let e' = (eq_iff j id).0 same in
          rw (same, e') (Holds-push_all seen logs (lookup id s.buffers) h)
      | inr other ↦ rw other h
    ])
perform-Holds (clear_one j) id seen s e h =
    rw (lookup-clear_buffer j id s)
      (elim (Bool-cases (str_eq j id)) [ inl same ↦ rw same (empty refl) | inr other ↦ rw other h ])
perform-Holds clear_all id seen s e h = rw (lookup-clear_all_buffers id s) (empty refl)

default_size-clear_each :
    (ids : List String) (s : LogBufferService)
    → (clear_each ids s).default_buffer_size ≡ s.default_buffer_size
unfolding clear_each clear_buffer
default_size-clear_each [] s = refl
default_size-clear_each (id ∷ ids) s =
    ground (arith, default_size-clear_each ids (clear_buffer id s))

default_size-perform :
    (o : Operation) (s : LogBufferService)
    → (perform o s).default_buffer_size ≡ s.default_buffer_size
unfolding perform add_logs clear_buffer clear_all_buffers
default_size-perform (add id logs) s = ground arith
default_size-perform (clear_one id) s = ground arith
default_size-perform clear_all s = default_size-clear_each (keys s.buffers) s

empty_map : (id : String) → Holds [] (lookup id [])
unfolding lookup
empty_map id = empty refl

perform_all-Holds :
    (os : List Operation) (id : String) (seen : List LogEntry) (s : LogBufferService)
    → s.default_buffer_size ≡ default_size
    → Holds seen (lookup id s.buffers)
    → Holds (added_from id seen os) (lookup id (perform_all os s).buffers)
unfolding perform_all
perform_all-Holds [] id seen s e h = h
perform_all-Holds (o ∷ os) id seen s e h =
    perform_all-Holds os id (after id o seen) (perform o s) (default_size-perform o s ∙ e)
      (perform-Holds o id seen s e h)

map-drop : (n : ℕ) (xs : List LogEntry) → drop n (map some xs) ≡ map some (drop n xs)
map-drop zero xs = refl
map-drop (suc n) [] = refl
map-drop (suc n) (x ∷ xs) = map-drop n xs

limited-limit_to :
    (limit : Option ℕ) (xs : List LogEntry)
    → limited limit (map some xs) ≡ map some (limit_to limit xs)
unfolding limited
limited-limit_to none xs = refl
limited-limit_to (some zero) xs = refl
limited-limit_to (some (suc n)) xs =
    let e : ltb 0 (suc n) ≡ true = ground arith in rw (e, length-map xs some) (map-drop _ xs)

limit_to_empty : (limit : Option ℕ) → limit_to limit [] ≡ []
limit_to_empty none = refl
limit_to_empty (some zero) = refl
limit_to_empty (some (suc n)) = rw (zero-sub (suc n))

recent-Holds :
    (limit : Option ℕ) (seen : List LogEntry) (o : Option (CircularBuffer LogEntry))
    → Holds seen o
    → recent limit o ≡ map some (limit_to limit (last default_size seen))
unfolding recent
recent-Holds limit seen none (empty e) = rw e (rw (limit_to_empty limit))
recent-Holds limit seen (some b) (present b' c r) =
    rw (to_array-Represents b (last default_size seen) r)
      (limited-limit_to limit (last default_size seen))

-- After any calls of `addLogs`, `clearBuffer` and `clearAllBuffers` on a new service, and for any
-- limit, `getRecentLogs` returns the last thousand (or `limit`, if that is fewer and not 0) of the
-- logs added for the execution since its buffer was last cleared, oldest first.
pub get_recent_logs-perform_all :
    (os : List Operation) (id : String) (limit : Option ℕ)
    → get_recent_logs id limit (perform_all os init)
      ≡ map some (limit_to limit (last default_size (added id os)))
unfolding init get_recent_logs
get_recent_logs-perform_all os id limit =
    recent-Holds limit (added id os) (lookup id (perform_all os init).buffers)
      (perform_all-Holds os id [] init refl (empty_map id))
