-- ===== src/Prelude/Maps.antt =====
-- A JavaScript `Map` with text keys, as the list of its entries in insertion order.
use Prim.Native.String.{String}
use mathlib.Core.Path.{◌≡◌, refl}
use mathlib.Core.Bool.{Bool, true, false}
use mathlib.Core.List.{List, [], ◌∷◌}
use mathlib.Core.Option.{Option, none, some}
use native.Mathlib.Omega.{arith}
use text.Mathlib.Text.{◌==◌ as str_eq}
use text.Mathlib.TextEquality.{eq_iff}
use otto_handler.Prelude.Tests.{if◌then◌else◌}

abbrev pub Dictionary {ℓ} : Type ℓ → Type ℓ
Dictionary V = List (String × V)

-- Whether the key is among the texts.
unfoldable pub has_key : String → List String → Bool
has_key key [] = false
has_key key (k ∷ ks) = if str_eq k key then true else has_key key ks

module _ {ℓ} {V : Type ℓ} where
  -- `map.get(key)`
  unfoldable pub lookup : String → Dictionary V → Option V
  lookup key [] = none
  lookup key ((name, value) ∷ rest) = if str_eq name key then some value else lookup key rest

  -- `map.set(key, value)`: in place for a present key, else at the end.
  unfoldable pub insert : String → V → Dictionary V → Dictionary V
  insert key value [] = (key, value) ∷ []
  insert key value ((name, old) ∷ rest) =
      let kept = (name, old) ∷ insert key value rest in
      if str_eq name key then (key, value) ∷ rest else kept

  -- `map.delete(key)`
  unfoldable pub delete : String → List (String × V) → List (String × V)
  delete key [] = []
  delete key ((k, v) ∷ m) = if str_eq k key then delete key m else (k, v) ∷ delete key m

  unfoldable pub keys : List (String × V) → List String
  keys [] = []
  keys ((k, v) ∷ m) = k ∷ keys m

  pub lookup-insert :
      (key other : String) (value : V) (entries : Dictionary V)
      → lookup other (insert key value entries)
        ≡ (if str_eq key other then some value else lookup other entries)
  unfolding lookup insert
  lookup-insert key other value [] = refl
  lookup-insert key other value ((name, old) ∷ rest) = ground (
    arith,
    lookup-insert key other value rest,
    eq_iff name key,
    eq_iff name other,
    eq_iff key other,
  )

  pub lookup-delete :
      (key other : String) (entries : Dictionary V)
      → lookup other (delete key entries)
        ≡ (if str_eq key other then none else lookup other entries)
  unfolding lookup delete
  lookup-delete key other [] = ground arith
  lookup-delete key other ((name, old) ∷ rest) =
      ground
        (arith, lookup-delete key other rest, eq_iff name key, eq_iff name other, eq_iff key other)

  pub lookup_missing :
      (j : String) (m : List (String × V)) → has_key j (keys m) ≡ false → lookup j m ≡ none
  unfolding lookup has_key keys
  lookup_missing j [] h = refl
  lookup_missing j ((k, v) ∷ m) h = ground (arith, lookup_missing j m)
