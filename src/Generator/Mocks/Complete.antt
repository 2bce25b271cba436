-- ===== src/Generator/Mocks/Complete.antt =====
-- That NewMocks has all that the generated file needs (mock/cmd/cmg/pkg/generate/mocks.go).
use clue.Base.{
  ◌⊎◌, ℕ, suc, ◌≡◌, refl, sym, ap, ◌∙◌, subst, inl, inr, Bool-cases, String, none, some, List, [],
  ◌∷◌, ◌++◌, Bytes, codes, length, map, All, All-mono, if◌then◌else◌, ◌>>=◌, arith, lookup, str_eq,
}
use clue.Generator.Names.{Numbers}
use clue.Generator.Imports.{Import, Texts, all_imports, all_keys, new_import, alias_or_pkg_name}
use clue.Generator.Imports.Names.{Has}
use clue.Generator.Imports.Unique.{IsProper, insert_at-Added, add_import-Added}
use clue.Generator.Mocks.{
  Interface, Package, MockMethod, MockInterface, Mocks, new_interface, new_interfaces, imports_in,
  first_imports, new_mocks,
}
use clue.Generator.Mocks.Methods.{
  AllKnown, AllKnown-mono, MethodMade, MethodMade-mono, Ranked, MethodRanked, add_types_lem,
  add_methods_lem,
}
use clue.Generator.Types.{Node, TypeAdder}
use clue.Generator.Types.Kept.{Kept, Kept-refl, Kept-trans, Good, IsHeap}
use clue.Generator.Types.Steps.{package_named}

-- The methods are those of the interface in its order, each made as it should be.
abbrev pub InterfaceMade : TypeAdder → MockInterface → Type 0
InterfaceMade s made =
    AllKnown s made.interface.type_parameters
    × (map (λ (m : MockMethod). m.method) made.methods ≡ made.interface.methods)
    × All (MethodMade made.interface.type_parameters s made.max_func_len) made.methods

InterfaceMade-mono :
    (s s' : TypeAdder)
    → Kept s s'
    → (made : MockInterface) → InterfaceMade s made
    → InterfaceMade s' made
InterfaceMade-mono s s' kept made (known, same, mades) = (
  AllKnown-mono s s' kept made.interface.type_parameters known,
  same,
  All-mono (MethodMade made.interface.type_parameters s made.max_func_len)
      (MethodMade made.interface.type_parameters s' made.max_func_len) made.methods
      (MethodMade-mono made.interface.type_parameters s s' made.max_func_len made.max_func_len kept
        known (omega arith))
      mades,
)

module _ (texts : Texts) (mod_path : String) (numbers : Numbers texts.numbered) (heap : ℕ → Node)
    (rank : ℕ → ℕ) (sound : IsHeap heap rank) (fuel : ℕ) where
  abbrev pub InterfaceRanked : Interface → Type 0
  InterfaceRanked i =
      Ranked texts mod_path numbers heap rank sound fuel i.type_parameters
      × All (MethodRanked texts mod_path numbers heap rank sound fuel) i.methods

  new_interface_lem :
      (i : Interface) (s : TypeAdder)
      → Good heap s
      → InterfaceRanked i
      → (s' : TypeAdder) × (made : MockInterface) × (new_interface texts mod_path heap fuel i s
          ≡ some (s', made))
        × (Good heap s' × Kept s s' × ((made.interface ≡ i) × InterfaceMade s' made))
  unfolding new_interface ◌>>=◌
  new_interface_lem i s good (lt, lts) =
      let (s', e, (good', kept, known)) =
        add_types_lem texts mod_path numbers heap rank sound fuel i.type_parameters s good lt in
      let (s'', made, e', (good'', kept', (same, in_order, mades))) =
        add_methods_lem texts mod_path numbers heap rank sound fuel i i.methods
          (record { interface = i; methods = []; max_func_len = 0 }) s' good' known lts tt in
      let known' = AllKnown-mono s' s'' kept' i.type_parameters known in
      (
        s'',
        made,
        rw e e',
        (
          good'',
          Kept-trans s s' s'' kept kept',
          (
            same,
            (
              subst (λ (j : Interface). AllKnown s'' j.type_parameters) (sym same) known',
              in_order ∙ ap (λ (j : Interface). j.methods) (sym same),
              subst
                  (λ (j : Interface).
                    All (MethodMade j.type_parameters s'' made.max_func_len) made.methods)
                  (sym same) mades,
            ),
          ),
        ),
      )

  new_interfaces_lem :
      (is : List Interface) (s : TypeAdder)
      → Good heap s
      → All InterfaceRanked is
      → (s' : TypeAdder) × (mades : List MockInterface) × (new_interfaces texts mod_path heap fuel
            is s
          ≡ some (s', mades))
        × (Good heap s'
            × Kept s s'
            × ((map (λ (made : MockInterface). made.interface) mades ≡ is)
                × All (InterfaceMade s') mades))
  unfolding new_interfaces ◌>>=◌
  new_interfaces_lem [] s good h = (s, [], refl, (good, Kept-refl s, (refl, tt)))
  new_interfaces_lem (i ∷ is) s good (h, hs) =
      let (s', made, e, (good', kept, (same, whole))) = new_interface_lem i s good h in
      let (s'', mades, e', (good'', kept', (same', wholes))) = new_interfaces_lem is s' good' hs in
      (
        s'',
        made ∷ mades,
        rw (e, new_interfaces) (rw (e', new_interfaces) refl),
        (
          good'',
          Kept-trans s s' s'' kept kept',
          (cc, (InterfaceMade-mono s' s'' kept' made whole, wholes)),
        ),
      )

-- The import is in the list.
abbrev pub Listed : Import → List Import → Type 0
Listed i [] = ⊥
Listed i (j ∷ js) = (i ≡ j) ⊎ Listed i js

lookup-Listed :
    (k : String) (i : Import) (m : List (String × Import))
    → lookup k m ≡ some i
    → Listed i (imports_in m)
lookup-Listed k i [] e = ground (arith, e)
lookup-Listed k i ((name, j) ∷ m) e = elim (Bool-cases (str_eq name k)) [
  | inl same ↦
      let here : some j ≡ some i = ap (λ b. if b then some j else lookup k m) (sym same) ∙ e in
      inl (ground (arith, here))
  | inr next ↦ inr (lookup-Listed k i m (ap (λ b. if b then some j else lookup k m) (sym next) ∙ e))
]

-- What the file of some mocks has: the interfaces in order, all types in their methods known to a good
-- typeAdder, the import of the package, and the imports of each kind of the typeAdder in its list.
abbrev pub IsComplete : (ℕ → Node) → Package → List Interface → TypeAdder → Mocks → Type 0
IsComplete heap p interfaces s m =
    Good heap s
    × (map (λ (made : MockInterface). made.interface) m.interfaces ≡ interfaces)
    × All (InterfaceMade s) m.interfaces
    × ((m.pkg_import.pkg_path ≡ p.pkg_path)
        × Has (alias_or_pkg_name m.pkg_import) m.pkg_import (all_imports s.imports)
        × ((k : String) (i : Import)
            → (lookup k s.imports.std_imports ≡ some i → Listed i m.std_imports)
              × (lookup k s.imports.ext_imports ≡ some i → Listed i m.ext_imports)
              × (lookup k s.imports.int_imports ≡ some i → Listed i m.int_imports)))

-- path.Base of the two paths that are always imported.
abbrev pub Bases : Texts → Type 0
Bases texts = (texts.base "testing" ≡ "testing") × (texts.base "goa.design/clue/mock" ≡ "mock")

first_imports-IsProper :
    (texts : Texts) → Bases texts → IsProper (all_imports (first_imports texts))
first_imports-IsProper texts (e, e') =
    let none_yet : IsProper ([] ∷ ([] ∷ ([] ∷ []))) =
      (λ k i h. ground (arith, h), λ k i j h h'. ground (arith, h)) in
    let one =
      (insert_at-Added ([] ∷ ([] ∷ ([] ∷ []))) none_yet "testing" 0 "testing"
        (new_import texts "testing" []) (omega arith) e refl (λ i h. ground (arith, h))).0 in
    (insert_at-Added ((("testing", new_import texts "testing" []) ∷ []) ∷ ([] ∷ ([] ∷ []))) one
      "goa.design/clue/mock" 1 "mock" (new_import texts "goa.design/clue/mock" []) (omega arith) e'
      refl (λ i h. ground (arith, h))).0

-- `NewMocks` ends without a panic, with more fuel than any type's rank. The mocks have the interfaces
-- in their order, each with its methods in their order: every type in them has a name and a zero value,
-- the variables of a method are none of its parameters, and MaxFuncLenFmt is as wide as the name of
-- each function with its type parameters. The package's own import is there, and each standard,
-- external and internal import of the typeAdder is in the mocks' list of its kind. Numbers give a name texts that differ and are not empty,
-- path.Base has its documented value at the two paths that are always imported, and sorting a list
-- keeps its elements.
pub new_mocks-IsComplete :
    (texts : Texts) (sort_by_path : List Import → List Import) (heap : ℕ → Node) (rank : ℕ → ℕ)
    (fuel : ℕ) (prefix : Bytes) (p : Package) (interfaces : List Interface)
    (numbers : Numbers texts.numbered) (sound : IsHeap heap rank)
    → Bases texts
    → ((i : Import) (l : List Import) → Listed i l → Listed i (sort_by_path l))
    → All (InterfaceRanked texts p.mod_path numbers heap rank sound fuel) interfaces
    → (s : TypeAdder) × (m : Mocks) × (new_mocks texts sort_by_path heap fuel prefix p interfaces
        ≡ some (s, m))
      × IsComplete heap p interfaces s m
unfolding new_mocks ◌>>=◌
new_mocks-IsComplete texts sort_by_path heap rank fuel prefix p interfaces numbers sound bases
      sorted ranked =
    let im = first_imports texts in
    let (im', i, e, (proper, has, path, old)) =
      add_import-Added texts (suc (length (all_keys (all_imports im)))) p.mod_path im
        (new_import texts p.pkg_path (p.name ∷ [])) numbers (first_imports-IsProper texts bases)
        (package_named texts p.mod_path numbers heap rank p.pkg_path p.name) (omega arith) in
    let s : TypeAdder = record { names = λ type. none; zeros = λ type. none; imports = im' } in
    let good : Good heap s = record {
      proper = proper;
      spelled = λ type t h. ground (arith, h);
      zeroed = λ type z h. ground (arith, h);
    } in
    let (s', mades, e', (good', kept, (same, whole))) =
      new_interfaces_lem texts p.mod_path numbers heap rank sound fuel interfaces s good ranked in
    let lists = s'.imports in
    (
      s',
      record {
        pkg_name = prefix ++ codes p.name;
        pkg_path = p.pkg_path;
        pkg_import = i;
        std_imports = sort_by_path (imports_in lists.std_imports);
        ext_imports = sort_by_path (imports_in lists.ext_imports);
        int_imports = sort_by_path (imports_in lists.int_imports);
        interfaces = mades;
      },
      rw e (rw e' refl),
      (
        good',
        same,
        whole,
        (
          path,
          kept.imports_kept (alias_or_pkg_name i) i has,
          λ k j. (
            λ h. sorted j (imports_in lists.std_imports) (lookup-Listed k j lists.std_imports h),
            λ h. sorted j (imports_in lists.ext_imports) (lookup-Listed k j lists.ext_imports h),
            λ h. sorted j (imports_in lists.int_imports) (lookup-Listed k j lists.int_imports h),
          ),
        ),
      ),
    )
