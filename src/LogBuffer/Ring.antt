-- ===== src/LogBuffer/Ring.antt =====
-- The class `CircularBuffer` of src/logs/services/log-buffer/log-buffer.service.ts.
-- A slot of the array is `none` until it is written. A buffer of capacity 0 is never built by the
-- service (its pointer would be NaN), and the laws exclude it.
pub mod Represents
pub mod Contract
use otto_handler.Prelude.{
  ℕ, suc, ◌+◌, ◌-◌, ◌%◌, min, Bool, List, [], ◌∷◌, ◌++◌, Option, none, some, ltb, ◌==◌,
  if◌then◌else◌, length, set, take, drop, replicate,
}

pub record CircularBuffer {ℓ} (T : Type ℓ) : Type ℓ where
  pub buffer : List (Option T)
  pub pointer : ℕ
  pub size : ℕ
  pub capacity : ℕ

module _ {ℓ} {T : Type ℓ} where
  unfoldable pub new : ℕ → CircularBuffer T
  new capacity = record {
    buffer = replicate capacity none;
    pointer = 0;
    size = 0;
    capacity = capacity;
  }

  unfoldable pub push : T → CircularBuffer T → CircularBuffer T
  push item b = record b {
    buffer = set b.buffer b.pointer (some item);
    pointer = (b.pointer + 1) % b.capacity;
    size = min (b.size + 1) b.capacity;
  }

  unfoldable pub to_array : CircularBuffer T → List (Option T)
  to_array b =
      if ltb b.size b.capacity
      then take b.size b.buffer
      else drop b.pointer b.buffer ++ take b.pointer b.buffer

  pub clear : CircularBuffer T → CircularBuffer T
  clear b = record b { buffer = replicate b.capacity none; pointer = 0; size = 0 }

  pub get_size : CircularBuffer T → ℕ
  get_size b = b.size

  pub is_full : CircularBuffer T → Bool
  is_full b = b.size == b.capacity

  -- `logs.forEach((log) => buffer.push(log))`
  unfoldable pub push_all : List T → CircularBuffer T → CircularBuffer T
  push_all [] b = b
  push_all (x ∷ xs) b = push_all xs (push x b)
