-- ===== src/Prelude/Json.antt =====
-- JSON values and objects, as the `metadata` columns of src/database/entities hold them.
use Prim.Native.String.{String}
use Prim.Native.Nat.{ℕ}
use mathlib.Core.Bool.{Bool}
use mathlib.Core.List.{[], ◌∷◌}
use mathlib.Core.Option.{Option, none, some}
use otto_handler.Prelude.Maps.{Dictionary, insert}

-- A JSON value, as the metadata holds it; `iso_date` is the text of `toISOString()`.
mutual
  pub data Value : Type 0 where
    undefined : Value
    text : String → Value
    number : ℕ → Value
    iso_date : ℕ → Value
    flag : Bool → Value
    items : Values → Value
    object : Fields → Value

  pub data Values : Type 0 where
    nil : Values
    cons : Value → Values → Values

  pub data Fields : Type 0 where
    end : Fields
    field : String → Value → Fields → Fields

abbrev pub Metadata : Type 0
Metadata = Dictionary Value

-- `{ ...a, ...b }`
unfoldable pub spread : Metadata → Metadata → Metadata
spread a [] = a
spread a ((k, v) ∷ b) = spread (insert k v a) b

abbrev pub or_empty : Option Metadata → Metadata
or_empty none = []
or_empty (some m) = m
