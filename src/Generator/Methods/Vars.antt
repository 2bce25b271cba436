-- ===== src/Generator/Methods/Vars.antt =====
-- That uniqueVar ends with a variable that no parameter has (mock/cmd/cmg/pkg/generate/method.go).
use clue.Base.{
  ℕ, zero, suc, ◌<◌, ◌≤◌, ◌≡◌, refl, sym, ap, ◌∙◌, subst, inl, inr, true, false, ◌||◌, Bool-cases,
  String, Option, some, List, [], ◌∷◌, length, map, str_eq, eq_iff, if◌then◌else◌, arith,
}
use clue.Generator.Names.{In, remove, remove_lt, remove_keeps, Numbers}
use clue.Generator.Methods.{
  Parameter, Method, is_used, find_var, unique_var, interface_var, func_var,
}

is_used-In : (v : String) (names : List String) → is_used v names ≡ true → In v names
is_used-In v [] e = ground (arith, e)
is_used-In v (name ∷ names) e = elim (Bool-cases (str_eq name v)) [
  | inl same ↦ inl ((eq_iff name v).0 same)
  | inr other ↦ inr (is_used-In v names (ap (λ b. b || is_used v names) (sym other) ∙ e))
]

-- A variable is found that is not in the names.
abbrev pub IsFresh : List String → Option String → Type 0
IsFresh vars o = (v : String) × (o ≡ some v) × (is_used v vars ≡ false)

module _ (numbered : String → ℕ → String) (numbers : Numbers numbered) (prefix : String)
    (vars : List String) where
  -- `left` has the numbered names that are used from a number on.
  find_var-IsFresh :
      (fuel i : ℕ) (left : List String)
      → length left < fuel
      → ((j : ℕ) → i ≤ j → is_used (numbered prefix j) vars ≡ true → In (numbered prefix j) left)
      → IsFresh vars (find_var numbered fuel prefix vars i)
  unfolding find_var
  find_var-IsFresh zero i left lt h = ground (arith, lt)
  find_var-IsFresh (suc fuel) i left lt h =
      let v = numbered prefix i in
      let rest = find_var numbered fuel prefix vars (suc i) in
      elim (Bool-cases (is_used v vars)) [
        | inr unused ↦ (v, ap (λ b. if b then rest else some v) unused, unused)
        | inl used ↦
            let shorter = remove_lt v left (h i (omega arith) used) in
            subst (IsFresh vars) (sym (ap (λ b. if b then rest else some v) used)) (
              find_var-IsFresh fuel (suc i) (remove v left) (omega (arith, shorter, lt))
                (λ j le used'.
                  remove_keeps v (numbered prefix j) left
                    (λ e. let same = numbers.0 prefix i j e in absurd (omega (arith, same, le)))
                    (h j (omega (arith, le)) used')))
      ]

  unique_var-IsFresh :
      (fuel : ℕ) → length vars < fuel → IsFresh vars (unique_var numbered fuel prefix vars)
  unfolding unique_var
  unique_var-IsFresh fuel lt =
      let search = find_var numbered fuel prefix vars 1 in
      elim (Bool-cases (is_used prefix vars)) [
        | inr unused ↦ (prefix, ap (λ b. if b then search else some prefix) unused, unused)
        | inl used ↦ subst (IsFresh vars) (sym (ap (λ b. if b then search else some prefix) used)) (
            find_var-IsFresh fuel 1 vars lt
              (λ j le used'. is_used-In (numbered prefix j) vars used'))
      ]

length-map : {A B : Type 0} (f : A → B) (l : List A) → length (map f l) ≡ length l
length-map f [] = refl
length-map f (x ∷ l) = ap suc (length-map f l)

-- With more fuel than the method has parameters, the searches of the variables for the mock and for
-- its function end, and no parameter of the method has their names. Numbers give a prefix texts that
-- differ.
pub method_vars-IsFresh :
    (numbered : String → ℕ → String) (fuel : ℕ) (m : Method)
    → Numbers numbered
    → length m.parameters < fuel
    → let names = map (λ (p : Parameter). p.name) m.parameters in
      IsFresh names (interface_var numbered fuel m) × IsFresh names (func_var numbered fuel m)
method_vars-IsFresh numbered fuel m numbers lt =
    let names = map (λ (p : Parameter). p.name) m.parameters in
    let same = length-map (λ (p : Parameter). p.name) m.parameters in
    (
      unique_var-IsFresh numbered numbers "m" names fuel (omega (arith, same, lt)),
      unique_var-IsFresh numbered numbers "f" names fuel (omega (arith, same, lt)),
    )
