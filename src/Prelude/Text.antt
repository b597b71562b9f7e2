-- ===== src/Prelude/Text.antt =====
-- Texts: what template literals, `startsWith` and `replace` at the start of a text need.
use Prim.Native.Nat.{ℕ, zero, suc}
use Prim.Native.Char.{Char, code}
use Prim.Native.String
use Prim.Native.String.{String}
use mathlib.Core.List.{List, [], ◌∷◌}
use mathlib.Core.Option.{Option, none, some}
use otto_handler.Prelude.Tests.{◌==◌, if◌then◌else◌}

-- A template literal, as the list of its parts.
abbrev pub template : List String → String
template [] = ""
template (s ∷ ss) = String.◌++◌ s (template ss)

-- `s.startsWith(prefix)` with `s.replace(prefix, '')`: the rest of a text behind its prefix.
unfoldable pub strip_prefix : String → String → Option String
strip_prefix String.[] s = some s
strip_prefix (String.◌∷◌ c p) String.[] = none
strip_prefix (String.◌∷◌ c p) (String.◌∷◌ d s) = if code c == code d then strip_prefix p s else none

-- `s.split(c)` at a character.
abbrev pub onto_first : Char → List String → List String
onto_first d [] = []
onto_first d (s ∷ ss) = (String.◌∷◌ d s) ∷ ss

unfoldable pub split : ℕ → String → List String
split c String.[] = "" ∷ []
split c (String.◌∷◌ d s) =
    let rest = split c s in if code d == c then "" ∷ rest else onto_first d rest

-- `s.replace(part, '')`: the text without the first occurrence of a part of it.
unfoldable pub remove_first : String → String → String
remove_first part String.[] = ""
remove_first part (String.◌∷◌ c s) =
    let rest = String.◌∷◌ c (remove_first part s) in
    elim (strip_prefix part (String.◌∷◌ c s)) [ some after ↦ after | none ↦ rest ]

-- `s.split(c).pop()`
abbrev pub last_of : List String → String
last_of [] = ""
last_of (s ∷ []) = s
last_of (s ∷ t ∷ rest) = last_of (t ∷ rest)

-- `s.split(c)[n]`
abbrev pub part_at : ℕ → List String → Option String
part_at n [] = none
part_at zero (s ∷ ss) = some s
part_at (suc n) (s ∷ ss) = part_at n ss

-- The text that `undefined` is in a template literal.
abbrev pub shown_part : Option String → String
shown_part none = "undefined"
shown_part (some s) = s
