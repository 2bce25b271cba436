-- ===== src/Generator/Types/Added.antt =====
-- What addType does, and that it does it once (mock/cmd/cmg/pkg/generate/type.go).
use clue.Base.{ℕ, suc, ◌<◌, ◌≡◌, refl, String, Option, none, some, Bytes, ◌>>=◌}
use clue.Generator.Names.{Numbers}
use clue.Generator.Imports.{Texts}
use clue.Generator.Types.{Node, TypeAdder, name, zero_value, add_type}
use clue.Generator.Types.Spelled.{Spelled, ZeroOf}
use clue.Generator.Types.Kept.{Kept, Good, IsHeap}
use clue.Generator.Types.Steps.{Returns}
use clue.Generator.Types.Finds.{Added, add_type-Added}

pub Returns-some :
    (P : TypeAdder → Bytes × Bytes → Type 0) (o : Option (TypeAdder × (Bytes × Bytes)))
    → Returns P o
    → (s' : TypeAdder) × (text : Bytes) × (z : Bytes) × (o ≡ some (s', (text, z))) × P s' (text, z)
Returns-some P none h = absurd h
Returns-some P (some (s', (text, z))) h = (s', text, z, refl, h)

-- With more fuel than a type's rank, `addType` ends without a panic, for types as go/types makes them
-- and a typeAdder whose imports have names of their own and whose maps are true of the types. It
-- leaves such a typeAdder, which keeps all names, zero values and imports of before. The name it
-- returns is put together as Go's syntax of the type, without the tags of structs and the parentheses
-- of channels' elements, from the names of the types in it, with the name of an import of its path for
-- each package; the zero value is Go's. Numbers give a name texts that differ and are not empty.
pub add_type-Spelled :
    (texts : Texts) (mod_path : String) (heap : ℕ → Node) (rank : ℕ → ℕ) (fuel type : ℕ)
    (s : TypeAdder)
    → Numbers texts.numbered
    → IsHeap heap rank
    → Good heap s
    → rank type < fuel
    → (s' : TypeAdder) × (text : Bytes) × (z : Bytes) × (add_type texts mod_path heap fuel type s
        ≡ some (s', (text, z)))
      × (Good heap s'
          × Kept s s'
          × (Spelled s' (heap type) text × ZeroOf s' heap type (heap type) z))
add_type-Spelled texts mod_path heap rank fuel type s numbers sound good lt =
    let (s', text, z, e, (good', kept, (h, h'))) =
      Returns-some (Added texts mod_path numbers heap rank sound fuel type s)
        (add_type texts mod_path heap fuel type s)
        (add_type-Added texts mod_path numbers heap rank sound fuel type s good lt) in
    (s', text, z, e, (good', kept, (good'.spelled type text h, good'.zeroed type z h')))

known_again :
    (texts : Texts) (mod_path : String) (heap : ℕ → Node) (fuel type : ℕ) (s : TypeAdder)
    (text z : Bytes)
    → s.names type ≡ some text
    → s.zeros type ≡ some z
    → add_type texts mod_path heap (suc fuel) type s ≡ some (s, (text, z))
unfolding add_type name zero_value ◌>>=◌
known_again texts mod_path heap fuel type s text z e e' = rw (e, name) (rw (e', zero_value) refl)

-- Under the same conditions, a type that is added once more, after another one was, changes nothing
-- and has the same name and zero value.
pub add_type_again :
    (texts : Texts) (mod_path : String) (heap : ℕ → Node) (rank : ℕ → ℕ) (fuel type next : ℕ)
    (s : TypeAdder)
    → Numbers texts.numbered
    → IsHeap heap rank
    → Good heap s
    → rank type < suc fuel
    → rank next < suc fuel
    → (s' s'' : TypeAdder) × (first second : Bytes × Bytes) × (add_type texts mod_path heap
          (suc fuel)
          type
          s
        ≡ some (s', first))
      × (add_type texts mod_path heap (suc fuel) next s' ≡ some (s'', second))
      × (add_type texts mod_path heap (suc fuel) type s'' ≡ some (s'', first))
add_type_again texts mod_path heap rank fuel type next s numbers sound good lt lt' =
    let added = Added texts mod_path numbers heap rank sound (suc fuel) in
    let (s', text, z, e, (good', kept', (h, h'))) =
      Returns-some (added type s) (add_type texts mod_path heap (suc fuel) type s)
        (add_type-Added texts mod_path numbers heap rank sound (suc fuel) type s good lt) in
    let (s'', text', z', e', (good'', kept'', found)) =
      Returns-some (added next s') (add_type texts mod_path heap (suc fuel) next s')
        (add_type-Added texts mod_path numbers heap rank sound (suc fuel) next s' good' lt') in
    (
      s',
      s'',
      (text, z),
      (text', z'),
      e,
      e',
      known_again texts mod_path heap fuel type s'' text z (kept''.names_kept type text h)
          (kept''.zeros_kept type z h'),
    )
