-- ===== src/Generator/Tests/Mocks.antt =====
-- The mocks of an interface with a method of a parameter of type []template.Template.
use clue.Base.{◌≡◌, refl, false, some, [], ◌∷◌, codes, str_eq, if◌then◌else◌, arith}
use clue.Generator.Imports.{Texts}
use clue.Generator.Methods.{Method}
use clue.Generator.Mocks.{Interface, Package, Mocks, new_mocks}
use clue.Generator.Mocks.Complete.{IsComplete, Bases, new_mocks-IsComplete}
use clue.Generator.Types.{TypeAdder}
use clue.Generator.Tests.{texts, texts-Numbers}
use clue.Generator.Tests.Types.{heap, rank, heap-IsHeap}

abbrev pub path_texts : Texts
path_texts = record texts { base = λ path. if str_eq path "testing" then "testing" else "mock" }

path_texts-Bases : Bases path_texts
path_texts-Bases = (refl, refl)

abbrev render : Method
render = record {
  name = "Render";
  parameters = record { name = "m"; type = 0 } ∷ [];
  results = record { name = ""; type = 1 } ∷ [];
  variadic = false;
}

abbrev renderer : Interface
renderer = record { name = "Renderer"; type_parameters = []; methods = render ∷ [] }

abbrev views : Package
views = record { name = "views"; pkg_path = "example.com/views"; mod_path = "example.com" }

new_mocks-IsComplete_example :
    (s : TypeAdder) × (m : Mocks) × (new_mocks path_texts
        (λ l. l)
        heap
        2
        (codes "mock")
        views
        (renderer ∷ [])
      ≡ some (s, m))
    × IsComplete heap views (renderer ∷ []) s m
new_mocks-IsComplete_example =
    new_mocks-IsComplete path_texts (λ l. l) heap rank 2 (codes "mock") views (renderer ∷ [])
      texts-Numbers heap-IsHeap path_texts-Bases (λ i l h. h)
      ((tt, (((omega arith, tt), (omega arith, tt)), tt)), tt)
