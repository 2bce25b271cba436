-- ===== src/Base/Text.antt =====
-- Bytes, text literals, and dictionaries with text keys.
use Prim.Native.Nat.{ℕ}
use Prim.Native.Char.{code}
use Prim.Native.String.{String}
use mathlib.Core.Path.{◌≡◌, refl}
use mathlib.Core.Bool.{Bool, true, false}
use mathlib.Core.List.{List, [], ◌∷◌}
use native.Mathlib.Omega.{arith}
use mathlib.Core.Option.{Option, none, some}
use text.Mathlib.Text.{◌==◌}
use text.Mathlib.TextEquality.{eq_iff}
use clue.Base.Tests.{if◌then◌else◌, ◌==◌ as ◌==ℕ◌}
pub use text.Mathlib.Text.{◌==◌ as str_eq}
pub use text.Mathlib.TextEquality.{eq_iff}
pub use text.Mathlib.TextPositions.{eq_refl}

abbrev pub Bytes : Type 0
Bytes = List ℕ

-- The code points of a literal: its bytes, the text being ASCII.
abbrev pub codes : String → Bytes
codes String.[] = []
codes (String.◌∷◌ c s) = code c ∷ codes s

-- s == t
abbrev pub same_bytes : Bytes → Bytes → Bool
same_bytes [] [] = true
same_bytes [] (d ∷ t) = false
same_bytes (c ∷ s) [] = false
same_bytes (c ∷ s) (d ∷ t) = if c ==ℕ d then same_bytes s t else false

-- A Go map with text keys, its entries in some order.
module _ {ℓ} {V : Type ℓ} where
  -- m[key], with the `ok` of a comma-ok read
  abbrev pub lookup : String → List (String × V) → Option V
  lookup key [] = none
  lookup key ((name, val) ∷ entries) = if name == key then some val else lookup key entries

  -- m[key] = val
  abbrev pub insert : String → V → List (String × V) → List (String × V)
  insert key new [] = (key, new) ∷ []
  insert key new ((name, val) ∷ entries) =
      if name == key then (name, new) ∷ entries else (name, val) ∷ insert key new entries

  -- A write is seen under its key alone.
  pub lookup-insert :
      (key other : String) (new : V) (entries : List (String × V))
      → lookup other (insert key new entries)
        ≡ (if key == other then some new else lookup other entries)
  lookup-insert key other new [] = refl
  lookup-insert key other new ((name, val) ∷ entries) =
      let rest = lookup-insert key other new entries in
      ground (arith, rest, eq_iff name key, eq_iff name other, eq_iff key other)
