-- ===== src/LogBuffer/Ring/Contract.antt =====
-- The class `CircularBuffer` (log-buffer.service.ts) against its contract.
use native.Mathlib.Nat.{zero-sub}
use mathlib.Core.List.{append-nil, append_assoc}
use otto_handler.Prelude.{
  ℕ, ◌<◌, ◌≡◌, refl, sym, subst, List, [], ◌∷◌, ◌++◌, map, some, arith, length, drop, length-drop,
  min, ◌-◌,
}
use otto_handler.LogBuffer.Ring.{CircularBuffer, new, push, to_array, push_all, get_size}
use otto_handler.LogBuffer.Ring.Represents.{
  last, slide, Represents, filling, wrapped, new-Represents, to_array-Represents, last-append,
  push-Represents, length-wrapped,
}

module _ {ℓ} {T : Type ℓ} where
  pub capacity-push_all :
      (xs : List T) (b : CircularBuffer T) → (push_all xs b).capacity ≡ b.capacity
  unfolding push_all push
  capacity-push_all [] b = refl
  capacity-push_all (x ∷ xs) b = capacity-push_all xs (push x b)

  pub push_all-Represents :
      (n : ℕ) (b : CircularBuffer T) (seen xs : List T)
      → 0 < n
      → b.capacity ≡ n
      → Represents b (last n seen)
      → Represents (push_all xs b) (last n (seen ++ xs))
  unfolding push_all push
  push_all-Represents n b seen [] h c r =
      subst (λ l. Represents b (last n l)) (sym (append-nil seen)) r
  push_all-Represents n b seen (x ∷ xs) h c r =
      subst (λ l. Represents (push_all xs (push x b)) (last n l)) (append_assoc seen (x ∷ []) xs)
        (push_all-Represents n (push x b) (seen ++ x ∷ []) xs h c (
          subst (Represents (push x b)) (sym (last-append n seen x h)) (
            subst (λ k. Represents (push x b) (slide k (last n seen) x)) c
              (push-Represents b (last n seen) x r))))

  pub capacity-push_all-new : (n : ℕ) (xs : List T) → (push_all xs (new n)).capacity ≡ n
  unfolding new
  capacity-push_all-new n xs = capacity-push_all xs (new n)

  pub push_all-new-Represents :
      (n : ℕ) (xs : List T) → 0 < n → Represents (push_all xs (new n)) (last n xs)
  unfolding new
  push_all-new-Represents n xs h =
      push_all-Represents n (new n) [] xs h refl (
        subst (λ k. Represents (new n) (drop {A = T} k [])) (sym (zero-sub n)) (new-Represents n h))

  -- A buffer of capacity at least 1 gives back the last `n` of all that was pushed, oldest first.
  pub to_array-push_all :
      (n : ℕ) (xs : List T) → 0 < n → to_array (push_all xs (new n)) ≡ map some (last n xs)
  to_array-push_all n xs h = to_array-Represents _ _ (push_all-new-Represents n xs h)

  size_of_Represents :
      (b : CircularBuffer T) (xs : List T) → Represents b xs → get_size b ≡ length xs
  unfolding get_size
  size_of_Represents b xs (filling room eb ep es ec) = es
  size_of_Represents b xs (wrapped newer older eb ex ep es ec low) =
      omega (arith, length-wrapped newer older xs ex)

  -- The size of a buffer of capacity n, at least 1, is the number of items pushed into it, up to n.
  pub get_size-push_all :
      (n : ℕ) (xs : List T) → 0 < n → get_size (push_all xs (new n)) ≡ min (length xs) n
  get_size-push_all n xs h = omega (
    arith,
    size_of_Represents _ _ (push_all-new-Represents n xs h),
    length-drop {ℓ} (length xs - n) xs,
  )
