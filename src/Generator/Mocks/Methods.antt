-- ===== src/Generator/Mocks/Methods.antt =====
-- What newInterface makes of the methods of an interface (mock/cmd/cmg/pkg/generate/interface.go and
-- method.go).
use clue.Base.{
  ℕ, suc, ◌<◌, ◌≤◌, ◌≡◌, refl, sym, ap, ◌∙◌, subst, false, String, some, List, [], ◌∷◌, ◌++◌,
  append-nil, append_assoc, map-append, Bytes, codes, length, map, All, All-append, All-mono,
  if◌then◌else◌, ◌>>=◌, arith,
}
use clue.Generator.Names.{Numbers}
use clue.Generator.Imports.{Texts}
use clue.Generator.Methods.{
  Parameter, Method, type_parameters, type_parameter_texts, next_alike, in_brackets, is_used,
}
use clue.Generator.Methods.Vars.{method_vars-IsFresh}
use clue.Generator.Mocks.{
  Interface, MockMethod, MockInterface, or_empty, name_in, add_types, new_method, longer,
  add_methods,
}
use clue.Generator.Types.{Node, TypeAdder, add_type}
use clue.Generator.Types.Kept.{Kept, Kept-refl, Kept-trans, Good, IsHeap}
use clue.Generator.Types.Finds.{Added, add_type-Added}
use clue.Generator.Types.Added.{Returns-some}

-- A type has a name and a zero value.
abbrev pub Known : TypeAdder → ℕ → Type 0
Known s type = (t z : Bytes) × ((s.names type ≡ some t) × (s.zeros type ≡ some z))

abbrev pub AllKnown : TypeAdder → List Parameter → Type 0
AllKnown s ps = All (λ (p : Parameter). Known s p.type) ps

module _ (s s' : TypeAdder) (kept : Kept s s') where
  Known-mono : (type : ℕ) → Known s type → Known s' type
  Known-mono type (t, z, (h, h')) = (t, z, (kept.names_kept type t h, kept.zeros_kept type z h'))

  pub AllKnown-mono : (ps : List Parameter) → AllKnown s ps → AllKnown s' ps
  AllKnown-mono ps h =
      All-mono (λ p. Known s p.type) (λ p. Known s' p.type) ps (λ p k. Known-mono p.type k) h

  name_kept : (type : ℕ) → Known s type → name_in s type ≡ name_in s' type
  name_kept type (t, z, (h, h')) = ap or_empty (h ∙ sym (kept.names_kept type t h))

  texts_kept :
      (ps : List Parameter)
      → AllKnown s ps
      → type_parameter_texts (name_in s) ps ≡ type_parameter_texts (name_in s') ps
  texts_kept [] h = refl
  texts_kept (p ∷ ps) (h, hs) =
      ap
        (λ t.
          (codes p.name ++ (if next_alike p ps then [] else codes " " ++ t))
          ∷ type_parameter_texts (name_in s) ps)
        (name_kept p.type h)
      ∙ ap
          (λ ts.
            (codes p.name ++ (if next_alike p ps then [] else codes " " ++ name_in s' p.type)) ∷ ts)
          (texts_kept ps hs)

  type_parameters_kept :
      (ps : List Parameter)
      → AllKnown s ps
      → type_parameters (name_in s) ps ≡ type_parameters (name_in s') ps
  type_parameters_kept ps h = ap in_brackets (texts_kept ps h)

-- The method's types are known, its variables are none of its parameters, and the name of its function
-- with the type parameters has at most a length.
abbrev pub MethodMade : List Parameter → TypeAdder → ℕ → MockMethod → Type 0
MethodMade tps s n made =
    AllKnown s made.method.parameters
    × AllKnown s made.method.results
    × ((is_used made.interface_var (map (λ p. p.name) made.method.parameters) ≡ false)
        × (is_used made.func_var (map (λ p. p.name) made.method.parameters) ≡ false)
        × (length (made.func ++ type_parameters (name_in s) tps) ≤ n))

pub MethodMade-mono :
    (tps : List Parameter) (s s' : TypeAdder) (n n' : ℕ)
    → Kept s s'
    → AllKnown s tps
    → n ≤ n'
    → (made : MockMethod) → MethodMade tps s n made
    → MethodMade tps s' n' made
MethodMade-mono tps s s' n n' kept known le made (hp, hr, (fresh, fresh', short)) = (
  AllKnown-mono s s' kept made.method.parameters hp,
  AllKnown-mono s s' kept made.method.results hr,
  (
    fresh,
    fresh',
    subst (λ t. length (made.func ++ t) ≤ n') (type_parameters_kept s s' kept tps known)
        (omega (arith, short, le)),
  ),
)

module _ (texts : Texts) (mod_path : String) (numbers : Numbers texts.numbered) (heap : ℕ → Node)
    (rank : ℕ → ℕ) (sound : IsHeap heap rank) (fuel : ℕ) where
  abbrev pub Ranked : List Parameter → Type 0
  Ranked ps = All (λ (p : Parameter). rank p.type < fuel) ps

  abbrev pub MethodRanked : Method → Type 0
  MethodRanked m = Ranked m.parameters × Ranked m.results

  pub add_types_lem :
      (ps : List Parameter) (s : TypeAdder)
      → Good heap s
      → Ranked ps
      → (s' : TypeAdder) × (add_types texts mod_path heap fuel ps s ≡ some s')
        × (Good heap s' × Kept s s' × AllKnown s' ps)
  unfolding add_types ◌>>=◌
  add_types_lem [] s good h = (s, refl, (good, Kept-refl s, tt))
  add_types_lem (p ∷ ps) s good (lt, lts) =
      let (s', t, z, e, (good', kept, (h, h'))) =
        Returns-some (Added texts mod_path numbers heap rank sound fuel p.type s)
          (add_type texts mod_path heap fuel p.type s)
          (add_type-Added texts mod_path numbers heap rank sound fuel p.type s good lt) in
      let (s'', e', (good'', kept', known)) = add_types_lem ps s' good' lts in
      (
        s'',
        rw (e, add_types) e',
        (
          good'',
          Kept-trans s s' s'' kept kept',
          (Known-mono s' s'' kept' p.type (t, z, (h, h')), known),
        ),
      )

  longer_le : (a b : ℕ) → (a ≤ longer a b) × (b ≤ longer a b)
  longer_le a b = ground arith

  new_method_lem :
      (i : Interface) (m : Method) (s : TypeAdder)
      → Good heap s
      → MethodRanked m
      → (s' : TypeAdder) × (made : MockMethod) × (new_method texts mod_path heap fuel i m s
          ≡ some (s', made))
        × (Good heap s'
            × Kept s s'
            × ((made.method ≡ m)
                × (AllKnown s' made.method.parameters
                    × AllKnown s' made.method.results
                    × ((is_used made.interface_var (map (λ p. p.name) made.method.parameters)
                          ≡ false)
                        × (is_used made.func_var (map (λ p. p.name) made.method.parameters)
                            ≡ false)))))
  unfolding new_method ◌>>=◌
  new_method_lem i m s good (lp, lr) =
      let (s', e, (good', kept, known)) = add_types_lem m.parameters s good lp in
      let (s'', e', (good'', kept', known')) = add_types_lem m.results s' good' lr in
      let ((v, ev, fresh), (w, ew, fresh')) =
        method_vars-IsFresh texts.numbered (suc (length m.parameters)) m numbers (omega arith) in
      (
        s'',
        record {
          method = m;
          func = codes i.name ++ (codes m.name ++ codes "Func");
          add = codes "Add" ++ codes m.name;
          set = codes "Set" ++ codes m.name;
          interface_var = v;
          func_var = w;
        },
        rw (e, e', ev, ew) refl,
        (
          good'',
          Kept-trans s s' s'' kept kept',
          (refl, (AllKnown-mono s' s'' kept' m.parameters known, known', (fresh, fresh'))),
        ),
      )

  module _ (i : Interface) where
    -- The loop over methods makes one of each, in order.
    pub add_methods_lem :
        (ms : List Method) (iface : MockInterface) (s : TypeAdder)
        → Good heap s
        → AllKnown s i.type_parameters
        → All MethodRanked ms
        → All (MethodMade i.type_parameters s iface.max_func_len) iface.methods
        → (s' : TypeAdder) × (iface' : MockInterface) × (add_methods texts mod_path heap fuel i ms
              iface s
            ≡ some (s', iface'))
          × (Good heap s'
              × Kept s s'
              × ((iface'.interface ≡ iface.interface)
                  × (map (λ (made : MockMethod). made.method) iface'.methods
                      ≡ map (λ (made : MockMethod). made.method) iface.methods ++ ms)
                  × All (MethodMade i.type_parameters s' iface'.max_func_len) iface'.methods))
    unfolding add_methods ◌>>=◌
    add_methods_lem [] iface s good known h made =
        (s, iface, refl, (good, Kept-refl s, (refl, sym (append-nil _), made)))
    add_methods_lem (m ∷ ms) iface s good known (h, hs) mades =
        let tps = i.type_parameters in
        let (s', made, e, (good', kept, (same, (hp, hr, (fresh, fresh'))))) =
          new_method_lem i m s good h in
        let len = length (made.func ++ type_parameters (name_in s') tps) in
        let n = iface.max_func_len in
        let n' = longer len n in
        let le = longer_le len n in
        let old =
          All-mono (MethodMade tps s n) (MethodMade tps s' n') iface.methods
            (MethodMade-mono tps s s' n n' kept known le.1) mades in
        let (s'', iface', e', (good'', kept', (same', in_order, all_made))) =
          add_methods_lem ms
            (record iface { methods = iface.methods ++ made ∷ []; max_func_len = n' }) s' good'
            (AllKnown-mono s s' kept tps known) hs
            (All-append (MethodMade tps s' n') iface.methods (made ∷ []) old
              ((hp, hr, (fresh, fresh', le.0)), tt)) in
        (
          s'',
          iface',
          rw (e, add_methods) e',
          (
            good'',
            Kept-trans s s' s'' kept kept',
            (
              same',
              in_order
                  ∙ ap (λ l. l ++ ms)
                      (map-append (λ (x : MockMethod). x.method) iface.methods (made ∷ []))
                  ∙ append_assoc (map (λ (x : MockMethod). x.method) iface.methods)
                      (made.method ∷ []) ms
                  ∙ ap (λ x. map (λ (y : MockMethod). y.method) iface.methods ++ x ∷ ms) same,
              all_made,
            ),
          ),
        )
