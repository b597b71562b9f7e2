-- ===== src/Prelude/Splits.antt =====
-- What `split` makes of a text that is put together.
use Prim.Native.Nat.{ℕ}
use Prim.Native.Char.{Char, code}
use Prim.Native.String
use Prim.Native.String.{String}
use mathlib.Core.Path.{◌≡◌, refl, ap, ◌∙◌}
use mathlib.Core.Logic.{inl, inr}
use mathlib.Core.Bool.{Bool, true, false}
use mathlib.Core.List.{List, [], ◌∷◌, ◌++◌}
use native.Mathlib.Omega.{arith}
use text.Mathlib.TextLemmas.{cons-append, nil-append}
use otto_handler.Prelude.Tests.{◌==◌, if◌then◌else◌, Bool-cases}
use otto_handler.Prelude.Text.{split, onto_first}

-- The character is not in the text.
unfoldable pub lacks : ℕ → String → Bool
lacks c String.[] = true
lacks c (String.◌∷◌ d s) = let rest = lacks c s in if code d == c then false else rest

pub split-lacks : (c : ℕ) (s : String) → lacks c s ≡ true → split c s ≡ s ∷ []
unfolding lacks split
split-lacks c String.[] e = refl
split-lacks c (String.◌∷◌ d s) e = elim (Bool-cases (code d == c)) [
  | inl f ↦ let g = rw f at e in absurd (ground arith)
  | inr f ↦ rw (f, split-lacks c s (rw f at e)) refl
]

split-cons : (c : ℕ) (s : String) → (t : String) × (ts : List String) × (split c s ≡ t ∷ ts)
unfolding split
split-cons c String.[] = ("", [], refl)
split-cons c (String.◌∷◌ d s) = elim (Bool-cases (code d == c)) [
  | inl f ↦ ("", split c s, rw f refl)
  | inr f ↦ let (t, ts, e) = split-cons c s in (String.◌∷◌ d t, ts, rw (f, e) refl)
]

onto_first-append :
    (d : Char) (t : String) (ss ts us : List String)
    → ss ≡ t ∷ ts
    → onto_first d (ss ++ us) ≡ onto_first d ss ++ us
onto_first-append d t ss ts us e = rw e refl

-- A text is split where it has the character.
pub split-append :
    (c : ℕ) (d : Char) (s t : String)
    → (code d == c) ≡ true
    → split c (String.◌++◌ s (String.◌∷◌ d t)) ≡ split c s ++ split c t
unfolding split
split-append c d String.[] t e = ap (split c) (nil-append (String.◌∷◌ d t)) ∙ rw e refl
split-append c d (String.◌∷◌ a s) t e =
    ap (split c) (cons-append a s (String.◌∷◌ d t)) ∙ elim (Bool-cases (code a == c)) [
      | inl f ↦ rw (f, split-append c d s t e) refl
      | inr f ↦
          let (u, us, g) = split-cons c s in
          rw (f, split-append c d s t e) (onto_first-append a u (split c s) us (split c t) g)
    ]
