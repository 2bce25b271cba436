-- ===== src/Generator/Imports/Unique.antt =====
-- That addImport ends and keeps the names of imports apart (mock/cmd/cmg/pkg/generate/import.go).
use clue.Base.{
  ℕ, zero, suc, ◌<◌, ◌≤◌, ◌≡◌, ◌≢◌, ◌⊎◌, refl, sym, ap, ◌∙◌, subst, inl, inr, Bool-cases, String,
  Option, none, some, List, [], ◌∷◌, ◌++◌, length, str_eq, eq_iff, lookup, if◌then◌else◌, arith,
}
use clue.Generator.Names.{In, remove, remove_lt, remove_keeps, Numbers}
use clue.Generator.Imports.{
  Import, Texts, ImportMaps, all_imports, keys, all_keys, alias_or_pkg_name, Look, found, taken,
  free, look, look_alias, AliasSearch, existing, unused, exhausted, tried, find_alias, put_import,
  add_alias, add_looked, add_import, new_import,
}
use clue.Generator.Imports.Names.{
  Map, Has, NotUsed, Sound, look-Sound, look_alias-Sound, insert_at, insert_at_self, insert_at-kept,
  insert_at-inverse,
}

In-left : (k : String) (ns ms : List String) → In k ns → In k (ns ++ ms)
In-left k [] ms h = absurd h
In-left k (n ∷ ns) ms (inl e) = inl e
In-left k (n ∷ ns) ms (inr h) = inr (In-left k ns ms h)

In-right : (k : String) (ns ms : List String) → In k ms → In k (ns ++ ms)
In-right k [] ms h = h
In-right k (n ∷ ns) ms h = inr (In-right k ns ms h)

keys-In : (k : String) (m : Map) (i : Import) → lookup k m ≡ some i → In k (keys m)
keys-In k [] i e = ground (arith, e)
keys-In k ((name, val) ∷ m) i e = elim (Bool-cases (str_eq name k)) [
  | inl same ↦ inl ((eq_iff name k).0 same)
  | inr other ↦ inr (keys-In k m i (ap (λ b. if b then some val else lookup k m) (sym other) ∙ e))
]

all_keys-In : (k : String) (ms : List Map) (i : Import) → Has k i ms → In k (all_keys ms)
all_keys-In k [] i h = h
all_keys-In k (m ∷ ms) i (inl e) = In-left k (keys m) (all_keys ms) (keys-In k m i e)
all_keys-In k (m ∷ ms) i (inr h) = In-right k (keys m) (all_keys ms) (all_keys-In k ms i h)

-- What the search for an alias says of the maps.
abbrev Chosen : Import → ImportMaps → AliasSearch → Type 0
Chosen imp im (existing j) = (k : String) × Has k j (all_imports im) × (j.pkg_path ≡ imp.pkg_path)
Chosen imp im (unused a) = (a ≢ "") × NotUsed a (all_imports im)
Chosen imp im exhausted = ⊥

module _ (texts : Texts) (numbers : Numbers texts.numbered) (imp : Import) (im : ImportMaps) where
  tried-Chosen :
      (a : String) (l : Look) (rest : AliasSearch)
      → a ≢ ""
      → Sound a imp.pkg_path (all_imports im) l
      → (((j : Import) × Has a j (all_imports im)) → Chosen imp im rest)
      → Chosen imp im (tried a l rest)
  tried-Chosen a (found j) rest ne (h, p) f = (a, h, p)
  tried-Chosen a taken rest ne h f = f h
  tried-Chosen a free rest ne h f = (ne, h)

  -- `left` has the numbered names that are used from a number on.
  find_alias-Chosen :
      (fuel i : ℕ) (left : List String)
      → length left < fuel
      → ((j : ℕ) (x : Import)
          → i ≤ j
          → Has (texts.numbered imp.pkg_name j) x (all_imports im)
          → In (texts.numbered imp.pkg_name j) left)
      → Chosen imp im (find_alias texts imp im fuel i)
  unfolding find_alias
  find_alias-Chosen zero i left lt h = ground (arith, lt)
  find_alias-Chosen (suc fuel) i left lt h =
      let a = texts.numbered imp.pkg_name i in
      tried-Chosen a (look_alias a imp.pkg_path (all_imports im))
        (find_alias texts imp im fuel (suc i)) (numbers.1 imp.pkg_name i)
        (look_alias-Sound a imp.pkg_path (all_imports im))
        (λ (x, used).
          let shorter = remove_lt a left (h i x (omega arith) used) in
          find_alias-Chosen fuel (suc i) (remove a left) (omega (arith, shorter, lt))
            (λ j y le used'.
              remove_keeps a (texts.numbered imp.pkg_name j) left
                (λ e. let same = numbers.0 imp.pkg_name i j e in absurd (omega (arith, same, le)))
                (h j y (omega (arith, le)) used')))

-- Every import is under its own name, and no name has two imports.
abbrev pub IsProper : List Map → Type 0
IsProper ms =
    ((k : String) (i : Import) → Has k i ms → alias_or_pkg_name i ≡ k)
    × ((k : String) (i j : Import) → Has k i ms → Has k j ms → i ≡ j)

-- From maps to maps: the new ones are in order, the import is in them under its name, it has the path
-- that was asked for, and no import of before has been lost.
abbrev pub Added : List Map → String → List Map → Import → Type 0
Added ms path ms' i =
    IsProper ms'
    × Has (alias_or_pkg_name i) i ms'
    × (i.pkg_path ≡ path)
    × ((k : String) (j : Import) → Has k j ms → Has k j ms')

module _ (ms : List Map) (proper : IsProper ms) (path : String) where
  found-Added : (k : String) (j : Import) → Has k j ms → j.pkg_path ≡ path → Added ms path ms j
  found-Added k j h p =
      (proper, subst (λ n. Has n j ms) (sym (proper.0 k j h)) h, p, λ k' j' h'. h')

  pub insert_at-Added :
      (n : ℕ) (a : String) (i : Import)
      → n < length ms
      → alias_or_pkg_name i ≡ a
      → i.pkg_path ≡ path
      → NotUsed a ms
      → Added ms path (insert_at n a i ms) i
  insert_at-Added n a i lt named p not_used = (
    (
      λ k j h. elim (insert_at-inverse n a i ms k j h) [
        | inl (e, e') ↦ sym (ap alias_or_pkg_name e') ∙ named ∙ e
        | inr old ↦ proper.0 k j old
      ],
      λ k j j' h h'.
          one_name k j j' (insert_at-inverse n a i ms k j h) (insert_at-inverse n a i ms k j' h'),
    ),
    subst (λ k. Has k i (insert_at n a i ms)) (sym named) (insert_at_self n a i ms lt),
    p,
    λ k j h. insert_at-kept n a i ms k j (λ e. clash k j e h) h,
  )
    where
      clash : (k : String) (j : Import) → a ≡ k → Has k j ms → ⊥
      clash k j e h = not_used j (subst (λ q. Has q j ms) (sym e) h)

      one_name :
          (k : String) (j j' : Import)
          → ((a ≡ k) × (i ≡ j)) ⊎ Has k j ms
          → ((a ≡ k) × (i ≡ j')) ⊎ Has k j' ms
          → j ≡ j'
      one_name k j j' (inl (e, same)) (inl (e', same')) = sym same ∙ same'
      one_name k j j' (inl (e, same)) (inr old) = absurd (clash k j' e old)
      one_name k j j' (inr old) (inl (e, same)) = absurd (clash k j e old)
      one_name k j j' (inr old) (inr old') = proper.1 k j j' old old'

module _ (texts : Texts) (mod_path : String) (im : ImportMaps)
    (proper : IsProper (all_imports im)) where
  put_at :
      (a : String) (i : Import)
      → (n : ℕ) × (n < 3)
        × (all_imports (put_import texts mod_path a i im) ≡ insert_at n a i (all_imports im))
  put_at a i = elim (Bool-cases (texts.has_dot i.pkg_path)) [
    | inr e ↦ (0, omega arith, rw e refl)
    | inl e ↦ elim (Bool-cases (texts.in_module mod_path i.pkg_path)) [
      | inl e' ↦ (2, omega arith, rw (e, e') refl)
      | inr e' ↦ (1, omega arith, rw (e, e') refl)
    ]
  ]

  put-Added :
      (path a : String) (i : Import)
      → alias_or_pkg_name i ≡ a
      → i.pkg_path ≡ path
      → NotUsed a (all_imports im)
      → Added (all_imports im) path (all_imports (put_import texts mod_path a i im)) i
  put-Added path a i named p not_used =
      let (n, lt, e) = put_at a i in
      subst (λ ms'. Added (all_imports im) path ms' i) (sym e)
        (insert_at-Added (all_imports im) proper path n a i (omega (arith, lt)) named p not_used)

  -- What `add_import` returns.
  abbrev Done : Import → Option (ImportMaps × Import) → Type 0
  Done imp none = ⊥
  Done imp (some (im', i)) = Added (all_imports im) imp.pkg_path (all_imports im') i

  aliased :
      (imp : Import) (a : String)
      → a ≢ ""
      → alias_or_pkg_name (new_import texts imp.pkg_path (imp.pkg_name ∷ (a ∷ []))) ≡ a
  aliased imp a ne = elim (Bool-cases (str_eq a "")) [
    | inl e ↦ absurd (ne ((eq_iff a "").0 e))
    | inr e ↦ rw e refl
  ]

  add_alias-Done :
      (imp : Import) (s : AliasSearch)
      → Chosen imp im s
      → Done imp (add_alias texts mod_path imp im s)
  add_alias-Done imp (existing j) (k, h, p) =
      found-Added (all_imports im) proper imp.pkg_path k j h p
  add_alias-Done imp (unused a) (ne, not_used) =
      put-Added imp.pkg_path a (new_import texts imp.pkg_path (imp.pkg_name ∷ (a ∷ [])))
        (aliased imp a ne) refl not_used
  add_alias-Done imp exhausted h = h

  looked-Done :
      (numbers : Numbers texts.numbered) (imp : Import) (fuel : ℕ) (l : Look)
      → alias_or_pkg_name imp ≡ imp.pkg_name
      → length (all_keys (all_imports im)) < fuel
      → Sound imp.pkg_name imp.pkg_path (all_imports im) l
      → Done imp (add_looked texts fuel mod_path im imp l)
  looked-Done numbers imp fuel (found j) named lt (h, p) =
      found-Added (all_imports im) proper imp.pkg_path imp.pkg_name j h p
  looked-Done numbers imp fuel free named lt h =
      put-Added imp.pkg_path imp.pkg_name imp named refl h
  looked-Done numbers imp fuel taken named lt h =
      add_alias-Done imp (find_alias texts imp im fuel 1) (
        find_alias-Chosen texts numbers imp im fuel 1 (all_keys (all_imports im)) lt
          (λ j x le used. all_keys-In (texts.numbered imp.pkg_name j) (all_imports im) x used))

Done-some :
    (texts : Texts) (mod_path : String) (im : ImportMaps) (proper : IsProper (all_imports im))
    (imp : Import) (o : Option (ImportMaps × Import))
    → Done texts mod_path im proper imp o
    → (im' : ImportMaps) × (i : Import) × (o ≡ some (im', i))
      × Added (all_imports im) imp.pkg_path (all_imports im') i
Done-some texts mod_path im proper imp none h = absurd h
Done-some texts mod_path im proper imp (some (im', i)) h = (im', i, refl, h)

-- With more fuel than there are imports, `addImport` ends. On maps in which every import is under its
-- own name and no name has two imports, and for an import without an alias of its own, it returns an
-- import of the same path, which is in the new maps under its name; the new maps are in order again
-- and still have every import. Numbers give a package name texts that differ and are not empty.
pub add_import-Added :
    (texts : Texts) (fuel : ℕ) (mod_path : String) (im : ImportMaps) (imp : Import)
    → Numbers texts.numbered
    → IsProper (all_imports im)
    → alias_or_pkg_name imp ≡ imp.pkg_name
    → length (all_keys (all_imports im)) < fuel
    → (im' : ImportMaps) × (i : Import) × (add_import texts fuel mod_path im imp ≡ some (im', i))
      × Added (all_imports im) imp.pkg_path (all_imports im') i
unfolding add_import
add_import-Added texts fuel mod_path im imp numbers proper named lt =
    let maps = all_imports im in
    Done-some texts mod_path im proper imp
      (add_looked texts fuel mod_path im imp (look imp.pkg_name imp.pkg_path maps))
      (looked-Done texts mod_path im proper numbers imp fuel (look imp.pkg_name imp.pkg_path maps)
        named lt (look-Sound imp.pkg_name imp.pkg_path maps))
