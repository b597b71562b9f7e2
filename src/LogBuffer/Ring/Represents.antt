-- ===== src/LogBuffer/Ring/Represents.antt =====
-- What a state of the class `CircularBuffer` stands for (log-buffer.service.ts), and one push.
use otto_handler.Prelude.{
  ℕ, zero, suc, ◌+◌, ◌-◌, ◌%◌, ◌≤◌, ◌<◌, min, ◌≡◌, refl, sym, ap, ◌∙◌, inl, inr, false, List, [],
  ◌∷◌, ◌++◌, map, append-nil, append_assoc, Option, none, some, arith, ltb, if◌then◌else◌,
  Bool-cases, ltb-eq-false, lt→ltb, ltb→lt, length, set, take, drop, replicate, length-append,
  length-map, drop-append, length-drop,
}
use otto_handler.LogBuffer.Ring.{CircularBuffer, new, push, to_array}
use mathlib.Core.List.{map-append}
use native.Mathlib.Nat.{mod-eq_of_lt}

next_wraps : (p c : ℕ) → p + 1 ≡ c → (p + 1) % c ≡ 0
next_wraps p c h = grind arith

next_within : (p c : ℕ) → p + 1 < c → (p + 1) % c ≡ p + 1
next_within p c h = mod-eq_of_lt h

module _ {ℓ} {T : Type ℓ} where
  -- The contract: the last `n` items of `xs`.
  abbrev pub last : ℕ → List T → List T
  last n xs = drop (length xs - n) xs

  -- The window after one more item.
  pub slide : ℕ → List T → T → List T
  slide n xs x = if ltb (length xs) n then xs ++ x ∷ [] else drop 1 xs ++ x ∷ []

  -- A buffer that holds the window `xs`.
  pub data Represents (b : CircularBuffer T) (xs : List T) : Type ℓ where
    filling :
        (room : ℕ)
        → b.buffer ≡ map some xs ++ replicate (suc room) none
        → b.pointer ≡ length xs
        → b.size ≡ length xs
        → b.capacity ≡ length xs + suc room
        → Represents b xs
    wrapped :
        (newer older : List (Option T))
        → b.buffer ≡ newer ++ older
        → older ++ newer ≡ map some xs
        → b.pointer ≡ length newer
        → b.size ≡ b.capacity
        → b.capacity ≡ length newer + length older
        → length newer < b.capacity
        → Represents b xs

  set-append :
      (xs : List (Option T)) (v w : Option T) (ys : List (Option T))
      → set (xs ++ w ∷ ys) (length xs) v ≡ xs ++ v ∷ ys
  set-append [] v w ys = refl
  set-append (x ∷ xs) v w ys = ap (◌∷◌ x) (set-append xs v w ys)

  take-append : (xs ys : List (Option T)) → take (length xs) (xs ++ ys) ≡ xs
  take-append [] ys = refl
  take-append (x ∷ xs) ys = ap (◌∷◌ x) (take-append xs ys)

  drop-append_length : (xs ys : List (Option T)) → drop (length xs) (xs ++ ys) ≡ ys
  drop-append_length [] ys = refl
  drop-append_length (x ∷ xs) ys = drop-append_length xs ys

  pub new-Represents : (n : ℕ) → 0 < n → Represents (new n) []
  unfolding new
  new-Represents zero h = elim h [ ]
  new-Represents (suc n) h = filling n refl refl refl (omega arith)

  take-map :
      (xs : List T) (ys : List (Option T)) → take (length xs) (map some xs ++ ys) ≡ map some xs
  take-map [] ys = refl
  take-map (x ∷ xs) ys = ap (◌∷◌ (some x)) (take-map xs ys)

  set-map :
      (xs : List T) (x : T) (v : Option T) (ys : List (Option T))
      → set (map some xs ++ v ∷ ys) (length xs) (some x) ≡ map some (xs ++ x ∷ []) ++ ys
  set-map [] x v ys = refl
  set-map (y ∷ xs) x v ys = ap (◌∷◌ (some y)) (set-map xs x v ys)

  pub to_array-Represents :
      (b : CircularBuffer T) (xs : List T) → Represents b xs → to_array b ≡ map some xs
  unfolding to_array
  to_array-Represents b xs (filling room eb ep es ec) =
      rw (lt→ltb b.size b.capacity (omega arith)) (rw (es, eb) (take-map xs _))
  to_array-Represents b xs (wrapped newer older eb ex ep es ec low) =
      rw (ltb-eq-false b.size b.capacity (omega arith))
        (rw (ep, eb, drop-append_length, take-append) ex)

  length-slide_lem : (n : ℕ) (xs : List T) → length (last n xs) ≡ min (length xs) n
  length-slide_lem n xs = omega (arith, length-drop (length xs - n) xs)

  drop-drop : (m : ℕ) (xs : List T) → drop (m + 1) xs ≡ drop 1 (drop m xs)
  drop-drop zero xs = refl
  drop-drop (suc m) [] = ground arith
  drop-drop (suc m) (x ∷ xs) = ground (arith, drop-drop m xs)

  -- A window that is not full grows.
  last-append_short :
      (n : ℕ) (xs : List T) (x : T) → length xs < n → last n (xs ++ x ∷ []) ≡ slide n (last n xs) x
  unfolding slide
  last-append_short n xs x h =
      let e : length (xs ++ x ∷ []) - n ≡ 0 = omega (arith, length-append {ℓ} xs (x ∷ [])) in
      let k : length xs - n ≡ 0 = omega arith in rw (e, k, lt→ltb (length xs) n h)

  -- A full window moves on by one.
  last-append_long :
      (n : ℕ) (xs : List T) (x : T)
      → 0 < n
      → n ≤ length xs
      → last n (xs ++ x ∷ []) ≡ slide n (last n xs) x
  unfolding slide
  last-append_long n xs x h m =
      let k = length xs - n in
      let e : length (xs ++ x ∷ []) - n ≡ k + 1 = omega (arith, length-append {ℓ} xs (x ∷ [])) in
      let long : ltb (length (drop k xs)) n ≡ false =
        ltb-eq-false (length (drop k xs)) n (omega (arith, length-drop {ℓ} k xs)) in
      rw (e, long)
        (drop-drop k (xs ++ x ∷ [])
          ∙ ap (drop 1) (drop-append k xs (x ∷ []) (omega arith))
          ∙ drop-append 1 (drop k xs) (x ∷ []) (omega (arith, length-drop {ℓ} k xs)))

  pub last-append :
      (n : ℕ) (xs : List T) (x : T) → 0 < n → last n (xs ++ x ∷ []) ≡ slide n (last n xs) x
  last-append n xs x h = elim (Bool-cases (ltb (length xs) n)) [
    | inl short ↦ last-append_short n xs x (ltb→lt _ _ short)
    | inr long ↦ last-append_long n xs x h (ground arith)
  ]

  length-map-some : (xs : List T) → length (map some xs) ≡ length xs
  length-map-some xs = length-map xs some

  pub length-wrapped :
      (newer older : List (Option T)) (xs : List T)
      → older ++ newer ≡ map some xs
      → length older + length newer ≡ length xs
  length-wrapped newer older xs e =
      sym (length-append older newer) ∙ ap length e ∙ length-map xs some

  map-snoc :
      (ys : List (Option T)) (xs : List T) (x : T)
      → ys ≡ map some xs
      → ys ++ some x ∷ [] ≡ map some (xs ++ x ∷ [])
  map-snoc ys xs x e = rw e (sym (map-append some xs (x ∷ [])))

  -- One push moves the window on by one.
  pub push-Represents :
      (b : CircularBuffer T) (xs : List T) (x : T)
      → Represents b xs
      → Represents (push x b) (slide b.capacity xs x)
  unfolding push slide
  push-Represents b xs x (filling zero eb ep es ec) =
      rw (lt→ltb (length xs) b.capacity (omega arith)) (
        wrapped [] (map some (xs ++ x ∷ [])) (rw (eb, ep) (set-map xs x none [] ∙ append-nil _))
          (append-nil _) (next_wraps b.pointer b.capacity (omega arith)) (omega arith)
          (omega (arith, length-map-some (xs ++ x ∷ []), length-append xs (x ∷ []))) (omega arith))
  push-Represents b xs x (filling (suc room) eb ep es ec) =
      let e = length-append xs (x ∷ []) in
      rw (lt→ltb (length xs) b.capacity (omega arith)) (
        filling room (rw (eb, ep) (set-map xs x none _))
          (next_within b.pointer b.capacity (omega arith) ∙ omega arith) (omega arith)
          (omega arith))
  push-Represents b [] x (wrapped newer older eb ex ep es ec low) =
      absurd (omega (arith, length-wrapped newer older [] ex))
  push-Represents b xs x (wrapped newer [] eb ex ep es ec low) = absurd (omega arith)
  push-Represents b (y ∷ xs) x (wrapped newer (o ∷ []) eb ex ep es ec low) =
      rw
        (ltb-eq-false (length (y ∷ xs)) b.capacity
          (omega (arith, length-wrapped newer (o ∷ []) (y ∷ xs) ex)))
        (wrapped [] (newer ++ some x ∷ []) (rw (eb, ep) (set-append newer (some x) o []))
          (append-nil _ ∙ map-snoc newer xs x (ap (drop 1) ex))
          (next_wraps b.pointer b.capacity (omega arith)) (omega arith)
          (omega (arith, length-append newer (some x ∷ []))) (omega arith))
  push-Represents b (y ∷ xs) x (wrapped newer (o ∷ o' ∷ older) eb ex ep es ec low) =
      let e = length-append newer (some x ∷ []) in
      rw
        (ltb-eq-false (length (y ∷ xs)) b.capacity
          (omega (arith, length-wrapped newer (o ∷ o' ∷ older) (y ∷ xs) ex)))
        (wrapped (newer ++ some x ∷ []) (o' ∷ older)
          (rw (eb, ep)
            (set-append newer (some x) o (o' ∷ older)
              ∙ sym (append_assoc newer (some x ∷ []) (o' ∷ older))))
          (sym (append_assoc (o' ∷ older) newer (some x ∷ []))
            ∙ map-snoc (o' ∷ older ++ newer) xs x (ap (drop 1) ex))
          (next_within b.pointer b.capacity (omega arith) ∙ omega arith) (omega arith) (omega arith)
          (omega arith))
