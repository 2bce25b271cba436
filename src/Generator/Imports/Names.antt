-- ===== src/Generator/Imports/Names.antt =====
-- That addImport gives every import a name of its own (mock/cmd/cmg/pkg/generate/import.go).
use clue.Base.{
  ℕ, zero, suc, ◌<◌, ◌≡◌, ◌≢◌, ◌⊎◌, refl, sym, ap, ◌∙◌, subst, inl, inr, false, Bool-cases, String,
  Option, none, some, List, [], ◌∷◌, length, str_eq, eq_iff, lookup, lookup-insert, insert,
  if◌then◌else◌, arith,
}
use clue.Generator.Imports.{
  Import, Look, found, taken, free, or_taken, seen, seen_alias, look, look_alias,
}

abbrev pub Map : Type 0
Map = List (String × Import)

-- One of the maps has the import under the name.
abbrev pub Has : String → Import → List Map → Type 0
Has k i [] = ⊥
Has k i (m ∷ ms) = (lookup k m ≡ some i) ⊎ Has k i ms

abbrev pub NotUsed : String → List Map → Type 0
NotUsed k ms = (i : Import) → Has k i ms → ⊥

-- What a look says of the maps.
abbrev pub Sound : String → String → List Map → Look → Type 0
Sound k path ms (found j) = Has k j ms × (j.pkg_path ≡ path)
Sound k path ms taken = (j : Import) × Has k j ms
Sound k path ms free = NotUsed k ms

none-some : {A : Type 0} {a : A} → none ≡ some a → ⊥
none-some e = ground (arith, e)

module _ (k path : String) (m : Map) (ms : List Map) where
  skip : (l : Look) → lookup k m ≡ none → Sound k path ms l → Sound k path (m ∷ ms) l
  skip (found j) e (h, p) = (inr h, p)
  skip taken e (j, h) = (j, inr h)
  skip free e h = λ i a. elim a [ inl e' ↦ none-some (sym e ∙ e') | inr b ↦ h i b ]

  behind :
      (i : Import) (l : Look)
      → lookup k m ≡ some i
      → Sound k path ms l
      → Sound k path (m ∷ ms) (or_taken l)
  behind i (found j) e (h, p) = (inr h, p)
  behind i taken e h = (i, inl e)
  behind i free e h = (i, inl e)

  seen-Sound :
      (o : Option Import) (rest : Look)
      → lookup k m ≡ o
      → Sound k path ms rest
      → Sound k path (m ∷ ms) (seen o path rest) × Sound k path (m ∷ ms) (seen_alias o path rest)
  seen-Sound none rest e h = (skip rest e h, skip rest e h)
  seen-Sound (some i) rest e h = elim (Bool-cases (str_eq i.pkg_path path)) [
    | inl same ↦
        let here : Sound k path (m ∷ ms) (found i) = (inl e, (eq_iff i.pkg_path path).0 same) in
        (
          subst (λ b. Sound k path (m ∷ ms) (if b then found i else or_taken rest)) (sym same) here,
          subst (λ b. Sound k path (m ∷ ms) (if b then found i else taken)) (sym same) here,
        )
    | inr other ↦ (
      subst (λ b. Sound k path (m ∷ ms) (if b then found i else or_taken rest)) (sym other)
          (behind i rest e h),
      subst (λ b. Sound k path (m ∷ ms) (if b then found i else taken)) (sym other) (i, inl e),
    )
  ]

pub look-Sound : (k path : String) (ms : List Map) → Sound k path ms (look k path ms)
look-Sound k path [] = λ i h. h
look-Sound k path (m ∷ ms) =
    (seen-Sound k path m ms (lookup k m) (look k path ms) refl (look-Sound k path ms)).0

pub look_alias-Sound : (k path : String) (ms : List Map) → Sound k path ms (look_alias k path ms)
look_alias-Sound k path [] = λ i h. h
look_alias-Sound k path (m ∷ ms) =
    (seen-Sound k path m ms (lookup k m) (look_alias k path ms) refl (look_alias-Sound k path ms)).1

-- The maps after an insertion into one of them.
abbrev pub insert_at : ℕ → String → Import → List Map → List Map
insert_at n k i [] = []
insert_at zero k i (m ∷ ms) = insert k i m ∷ ms
insert_at (suc n) k i (m ∷ ms) = m ∷ insert_at n k i ms

pub insert_at_self :
    (n : ℕ) (k : String) (i : Import) (ms : List Map) → n < length ms → Has k i (insert_at n k i ms)
insert_at_self n k i [] h = ground (arith, h)
insert_at_self zero k i (m ∷ ms) h =
    inl (lookup-insert k k i m ∙ ap (λ b. if b then some i else lookup k m) ((eq_iff k k).1 refl))
insert_at_self (suc n) k i (m ∷ ms) h = inr (insert_at_self n k i ms (omega (arith, h)))

differs : (k k' : String) → k ≢ k' → str_eq k k' ≡ false
differs k k' ne = ground (arith, ne, eq_iff k k')

pub insert_at-kept :
    (n : ℕ) (k : String) (i : Import) (ms : List Map) (k' : String) (j : Import)
    → k ≢ k'
    → Has k' j ms
    → Has k' j (insert_at n k i ms)
insert_at-kept n k i [] k' j ne h = h
insert_at-kept zero k i (m ∷ ms) k' j ne (inl e) =
    inl (lookup-insert k k' i m ∙ ap (λ b. if b then some i else lookup k' m) (differs k k' ne) ∙ e)
insert_at-kept zero k i (m ∷ ms) k' j ne (inr h) = inr h
insert_at-kept (suc n) k i (m ∷ ms) k' j ne (inl e) = inl e
insert_at-kept (suc n) k i (m ∷ ms) k' j ne (inr h) = inr (insert_at-kept n k i ms k' j ne h)

some_same : {A : Type 0} {a b : A} → some a ≡ some b → a ≡ b
some_same {A} {a} e = ap (λ o. elim o [ none ↦ a | some x ↦ x ]) e

pub insert_at-inverse :
    (n : ℕ) (k : String) (i : Import) (ms : List Map) (k' : String) (j : Import)
    → Has k' j (insert_at n k i ms)
    → ((k ≡ k') × (i ≡ j)) ⊎ Has k' j ms
insert_at-inverse n k i [] k' j h = inr h
insert_at-inverse zero k i (m ∷ ms) k' j (inl e) = elim (Bool-cases (str_eq k k')) [
  | inl same ↦ inl (
    (eq_iff k k').0 same,
    some_same
        (ap (λ b. if b then some i else lookup k' m) (sym same) ∙ sym (lookup-insert k k' i m) ∙ e),
  )
  | inr other ↦ inr (
      inl (
        ap (λ b. if b then some i else lookup k' m) (sym other) ∙ sym (lookup-insert k k' i m) ∙ e))
]
insert_at-inverse zero k i (m ∷ ms) k' j (inr h) = inr (inr h)
insert_at-inverse (suc n) k i (m ∷ ms) k' j (inl e) = inr (inl e)
insert_at-inverse (suc n) k i (m ∷ ms) k' j (inr h) = elim (insert_at-inverse n k i ms k' j h) [
  | inl p ↦ inl p
  | inr q ↦ inr (inr q)
]
