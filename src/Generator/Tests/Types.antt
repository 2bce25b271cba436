-- ===== src/Generator/Tests/Types.antt =====
-- The types of a method with a parameter of type []template.Template.
use clue.Base.{
  ℕ, zero, suc, ◌≡◌, refl, true, false, Option, none, some, [], ◌∷◌, Bytes, codes, arith, ◌>>=◌,
}
use clue.Generator.Types.{
  Node, named, slice, struct, TypeAdder, add_type, fields_of, embedding, groups, name, node_text,
  object_name, add_package, type_args, zero_value, node_zero, composite,
}
use clue.Generator.Types.Spelled.{Spelled, ZeroOf}
use clue.Generator.Types.Kept.{Kept, Good, IsHeap}
use clue.Generator.Types.Added.{add_type-Spelled, add_type_again}
use clue.Generator.Tests.{texts, texts-Numbers, one_import, one_import-IsProper}
use clue.Generator.Imports.{add_import, find_alias}

abbrev pub heap : ℕ → Node
heap zero = slice 1
heap (suc zero) = named (some ("text/template", "template")) "Template" none 2
heap (suc (suc n)) = struct []

abbrev pub rank : ℕ → ℕ
rank zero = 1
rank (suc n) = 0

pub heap-IsHeap : IsHeap heap rank
heap-IsHeap zero = omega arith
heap-IsHeap (suc zero) = (tt, tt)
heap-IsHeap (suc (suc n)) = tt

abbrev no_types : TypeAdder
no_types = record { names = λ type. none; zeros = λ type. none; imports = one_import }

no_types-Good : Good heap no_types
no_types-Good = record {
  proper = one_import-IsProper;
  spelled = λ type t h. ground (arith, h);
  zeroed = λ type z h. ground (arith, h);
}

-- The texts of the slice and of its element, when the package's name is taken.
abbrev texts_of : Option (TypeAdder × (Bytes × Bytes)) → Option (Bytes × Bytes)
texts_of none = none
texts_of (some (s, made)) = some made

abbrev type_texts : ℕ → Option (Bytes × Bytes)
type_texts type = texts_of (add_type texts "example.com" heap 2 type no_types)

slice_test : type_texts 0 ≡ some (codes "[]11.Template", codes "nil")
unfolding add_type ◌>>=◌ name node_text object_name add_package add_import find_alias type_args
    zero_value node_zero composite
slice_test = refl

named_test : type_texts 1 ≡ some (codes "11.Template", codes "11.Template{}")
unfolding add_type ◌>>=◌ name node_text object_name add_package add_import find_alias type_args
    zero_value node_zero composite
named_test = refl

-- Fields of one type in a row are one group.
groups_test :
    groups (
      record { name = "a"; embedded = false; type = 3 }
      ∷ (record { name = "b"; embedded = false; type = 3 }
          ∷ (record { name = "T"; embedded = true; type = 3 }
              ∷ (record { name = "c"; embedded = false; type = 3 } ∷ []))))
    ≡ fields_of (codes "a, b") 3 ∷ (embedding 3 ∷ (fields_of (codes "c") 3 ∷ []))
unfolding groups
groups_test = refl

add_type-Spelled_example :
    (s' : TypeAdder) × (text : Bytes) × (z : Bytes) × (add_type texts "example.com" heap 2 0
        no_types
      ≡ some (s', (text, z)))
    × (Good heap s' × Kept no_types s' × (Spelled s' (heap 0) text × ZeroOf s' heap 0 (heap 0) z))
add_type-Spelled_example =
    add_type-Spelled texts "example.com" heap rank 2 0 no_types texts-Numbers heap-IsHeap
      no_types-Good (omega arith)

add_type_again_example :
    (s' s'' : TypeAdder) × (first second : Bytes × Bytes) × (add_type texts "example.com" heap 2 0
        no_types
      ≡ some (s', first))
    × (add_type texts "example.com" heap 2 1 s' ≡ some (s'', second))
    × (add_type texts "example.com" heap 2 0 s'' ≡ some (s'', first))
add_type_again_example =
    add_type_again texts "example.com" heap rank 1 0 1 no_types texts-Numbers heap-IsHeap
      no_types-Good (omega arith) (omega arith)
