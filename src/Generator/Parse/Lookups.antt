-- ===== src/Generator/Parse/Lookups.antt =====
-- When reading a package panics (mock/cmd/cmg/pkg/parse/package.go and interface.go).
use clue.Base.{
  ◌≡◌, ◌<◌, inl, inr, All, All-append, Bool, String, Option, Option-cases, none, some, List, [],
  ◌∷◌, ◌++◌, length, ◌>>=◌, arith,
}
use clue.Generator.Parse.{
  AstField, AstMethod, func_type, embedded_type, AstNode, interface_spec, other_node, FileInterface,
  named_methods, methods_of, visit, visit_files,
}

module _ (variadic : String → String → Option Bool) where
  -- If the methods of an interface cannot be had, then the lookup of one of them fails.
  abbrev pub Looked : FileInterface → Type 0
  Looked i = i.methods ≡ none → (method : String) × (variadic i.name method ≡ none)

  named_methods-none :
      (i : String) (names : List String) (params : List AstField) (results : Option (List AstField))
      → named_methods variadic i names params results ≡ none
      → (method : String) × (variadic i method ≡ none)
  unfolding named_methods ◌>>=◌
  named_methods-none i [] params results e = ground (arith, e)
  named_methods-none i (name ∷ names) params results e = elim (Option-cases (variadic i name)) [
    | inl failed ↦ (name, failed)
    | inr (v, found) ↦ elim (Option-cases (named_methods variadic i names params results)) [
      | inl failed ↦ named_methods-none i names params results failed
      | inr (ms, made) ↦ ground (arith, e, found, made)
    ]
  ]

  methods_of-none :
      (i : String) (ms : List AstMethod)
      → methods_of variadic i ms ≡ none
      → (method : String) × (variadic i method ≡ none)
  unfolding methods_of ◌>>=◌
  methods_of-none i [] e = ground (arith, e)
  methods_of-none i (func_type names params results ∷ ms) e =
      elim (Option-cases (named_methods variadic i names params results)) [
        | inl failed ↦ named_methods-none i names params results failed
        | inr (here, made) ↦ elim (Option-cases (methods_of variadic i ms)) [
          | inl failed ↦ methods_of-none i ms failed
          | inr (rest, made') ↦ ground (arith, e, made, made')
        ]
      ]
  methods_of-none i (embedded_type ∷ ms) e = methods_of-none i ms e

  visit-Looked : (file : String) (nodes : List AstNode) → All Looked (visit variadic file nodes)
  unfolding visit
  visit-Looked file [] = tt
  visit-Looked file (interface_spec i ∷ nodes) =
      (methods_of-none i.name i.methods, visit-Looked file nodes)
  visit-Looked file (other_node ∷ nodes) = visit-Looked file nodes

  -- What the visit of all files makes: interfaces, or nothing if syntax is missing.
  abbrev pub Visited : List String → List (List AstNode) → Option (List FileInterface) → Type 0
  Visited files syntax none = length syntax < length files
  Visited files syntax (some is) = All Looked is

  pub visit_files-Visited :
      (files : List String) (syntax : List (List AstNode))
      → Visited files syntax (visit_files variadic files syntax)
  unfolding visit_files ◌>>=◌
  visit_files-Visited [] syntax = tt
  visit_files-Visited (file ∷ files) [] = omega arith
  visit_files-Visited (file ∷ files) (nodes ∷ syntax) =
      more (visit_files variadic files syntax) (visit_files-Visited files syntax)
    where
      more :
          (o : Option (List FileInterface))
          → Visited files syntax o
          → Visited
              (file ∷ files)
              (nodes ∷ syntax)
              (o >>= λ rest. some (visit variadic file nodes ++ rest))
      more none h = omega (arith, h)
      more (some is) h =
          All-append Looked (visit variadic file nodes) is (visit-Looked file nodes) h
