-- ===== src/Generator/Types/Steps.antt =====
-- What the steps of a typeAdder do to its state (mock/cmd/cmg/pkg/generate/type.go).
use clue.Base.{
  ℕ, suc, ◌<◌, ◌≤◌, ◌≡◌, refl, sym, ap, ◌∙◌, inl, inr, Bool-cases, String, Option, none, some, List,
  [], ◌∷◌, Bytes, length, update, All, ◌>>=◌, str_eq, arith,
}
use clue.Generator.Names.{Numbers}
use clue.Generator.Imports.{Texts, all_imports, all_keys, alias_or_pkg_name, new_import}
use clue.Generator.Imports.Unique.{IsProper, add_import-Added}
use clue.Generator.Types.{Node, TypeAdder, each, add_package}
use clue.Generator.Types.Spelled.{Each, NameOf, PackageOf, With, WithPackage}
use clue.Generator.Types.Kept.{Kept, Kept-refl, Kept-trans, Spelled-mono, ZeroOf-mono, Good}

-- A result there is, of which the predicate is true.
abbrev pub Returns : {A : Type 0} → (TypeAdder → A → Type 0) → Option (TypeAdder × A) → Type 0
Returns P none = ⊥
Returns P (some (s', a)) = P s' a

pub update-kept :
    (f : ℕ → Option Bytes) (p c : ℕ) (t u : Bytes)
    → f p ≡ none
    → f c ≡ some u
    → update f p (some t) c ≡ some u
update-kept f p c t u e h = ground (arith, e, h)

module _ (heap : ℕ → Node) where
  -- The new maps are good and keep what was in them.
  Good-Kept :
      (s s' : TypeAdder)
      → Good heap s
      → Kept s s'
      → s'.names ≡ s.names
      → s'.zeros ≡ s.zeros
      → IsProper (all_imports s'.imports)
      → Good heap s'
  Good-Kept s s' good kept e e' proper = record {
    proper = proper;
    spelled = λ type t h.
        Spelled-mono s s' kept (heap type) t (good.spelled type t (ap (λ m. m type) (sym e) ∙ h));
    zeroed = λ type z h.
        ZeroOf-mono s s' kept heap type (heap type) z
          (good.zeroed type z (ap (λ m. m type) (sym e') ∙ h));
  }

module _ (texts : Texts) (mod_path : String) (numbers : Numbers texts.numbered) (heap : ℕ → Node)
    (rank : ℕ → ℕ) where
  -- From a state and for types below a rank: the new state is good, keeps the old one, and has no new
  -- names of types from the rank on and no new zero values.
  abbrev pub After :
      {A : Type 0} → ℕ → TypeAdder → (TypeAdder → A → Type 0) → TypeAdder → A → Type 0
  After n s P s' a =
      Good heap s'
      × Kept s s'
      × (((c : ℕ) → n ≤ rank c → s'.names c ≡ s.names c) × (s'.zeros ≡ s.zeros) × P s' a)

  pub done :
      {A : Type 0} (n : ℕ) (s : TypeAdder) (P : TypeAdder → A → Type 0) (a : A)
      → Good heap s
      → P s a
      → Returns (After n s P) (some (s, a))
  done n s P a good h = (good, Kept-refl s, (λ c le. refl, refl, h))

  pub after-bind :
      {A B : Type 0} (n : ℕ) (s : TypeAdder) (P : TypeAdder → A → Type 0)
      (Q : TypeAdder → B → Type 0) (o : Option (TypeAdder × A))
      (f : TypeAdder × A → Option (TypeAdder × B))
      → Returns (After n s P) o
      → ((s' : TypeAdder) (a : A)
          → Good heap s'
          → Kept s s'
          → P s' a
          → Returns (After n s' Q) (f (s', a)))
      → Returns (After n s Q) (o >>= f)
  unfolding ◌>>=◌
  after-bind {B = B} n s P Q none f h k = absurd h
  after-bind {B = B} n s P Q (some (s', a)) f (good, kept, (below, same, h)) k =
      whole (f (s', a)) (k s' a good kept h)
    where
      whole : (o : Option (TypeAdder × B)) → Returns (After n s' Q) o → Returns (After n s Q) o
      whole none h' = absurd h'
      whole (some (s'', b)) (good', kept', (below', same', h')) = (
        good',
        Kept-trans s s' s'' kept kept',
        (λ c le. below' c le ∙ below c le, same' ∙ same, h'),
      )

  -- Adding a package.
  pub add_package_lem :
      (n : ℕ) (args : List String) (path : String) (s : TypeAdder)
      → Good heap s
      → alias_or_pkg_name (new_import texts path args) ≡ (new_import texts path args).pkg_name
      → (new_import texts path args).pkg_path ≡ path
      → Returns (After n s (λ s' t. PackageOf s' path t)) (add_package texts mod_path args path s)
  unfolding add_package ◌>>=◌
  add_package_lem n args path s good e e' =
      let maps = all_imports s.imports in
      let (im, i, ran, (proper, has, p, old)) =
        add_import-Added texts (suc (length (all_keys maps))) mod_path s.imports
          (new_import texts path args) numbers good.proper e (omega arith) in
      let s' : TypeAdder = record s { imports = im } in
      let kept : Kept s s' = record {
        names_kept = λ c t h. h;
        zeros_kept = λ c t h. h;
        imports_kept = old;
      } in
      rw ran (
        Good-Kept heap s s' good kept refl refl proper,
        kept,
        (λ c le. refl, refl, (i, has, p ∙ e', refl)),
      )

  pub package_named :
      (path pkg_name : String)
      → alias_or_pkg_name (new_import texts path (pkg_name ∷ []))
        ≡ (new_import texts path (pkg_name ∷ [])).pkg_name
  package_named path pkg_name = elim (Bool-cases (str_eq pkg_name (texts.base path))) [
    | inl e ↦ rw e refl
    | inr e ↦ elim (Bool-cases (str_eq pkg_name "")) [
      | inl e' ↦ rw (e, e') refl
      | inr e' ↦ rw (e, e') refl
    ]
  ]

  pub package_put :
      (n : ℕ) (args : List String) (path : String) (put : Bytes → Bytes) (s : TypeAdder)
      → Good heap s
      → alias_or_pkg_name (new_import texts path args) ≡ (new_import texts path args).pkg_name
      → (new_import texts path args).pkg_path ≡ path
      → Returns
          (After n s (λ s' text. WithPackage s' path put text))
          (add_package texts mod_path args path s >>= (λ (s', t). some (s', put t)))
  package_put n args path put s good e e' =
      after-bind n s (λ s' t. PackageOf s' path t) (λ s' text. WithPackage s' path put text)
        (add_package texts mod_path args path s) (λ (s', t). some (s', put t))
        (add_package_lem n args path s good e e')
        (λ s' t good' kept h.
          done n s' (λ s'' text. WithPackage s'' path put text) (put t) good' (t, h, refl))

  module _ (name_of : ℕ → TypeAdder → Option (TypeAdder × Bytes)) (n : ℕ) where
    -- The names of the types below a rank are found.
    abbrev pub Names : Type 0
    Names =
        (c : ℕ) (s : TypeAdder)
        → Good heap s
        → rank c < n
        → Returns (After n s (λ s' t. NameOf s' c t)) (name_of c s)

    pub name_put :
        Names
        → (c : ℕ) (put : Bytes → Bytes) (s : TypeAdder) → Good heap s
        → rank c < n
        → Returns
            (After n s (λ s' text. With s' c put text))
            (name_of c s >>= (λ (s', t). some (s', put t)))
    name_put found c put s good lt =
        after-bind n s (λ s' t. NameOf s' c t) (λ s' text. With s' c put text) (name_of c s)
          (λ (s', t). some (s', put t)) (found c s good lt)
          (λ s' t good' kept h.
            done n s' (λ s'' text. With s'' c put text) (put t) good' (t, h, refl))

  -- A loop over elements, of each of which it makes a text.
  pub each_lem :
      {A : Type 0} (n : ℕ) (text_of : A → TypeAdder → Option (TypeAdder × Bytes)) (P : A → Type 0)
      (R : TypeAdder → A → Bytes → Type 0)
      → ((s s' : TypeAdder) → Kept s s' → (a : A) (t : Bytes) → R s a t → R s' a t)
      → ((a : A) (s : TypeAdder)
          → Good heap s
          → P a
          → Returns (After n s (λ s' t. R s' a t)) (text_of a s))
      → (as' : List A) (s : TypeAdder) → Good heap s
      → All P as'
      → Returns (After n s (λ s' ts. Each (R s') as' ts)) (each text_of as' s)
  unfolding each
  each_lem n text_of P R mono found [] s good hs = done n s (λ s' ts. Each (R s') [] ts) [] good tt
  each_lem n text_of P R mono found (a ∷ rest) s good (h, hs) =
      after-bind n s (λ s' t. R s' a t) (λ s' ts. Each (R s') (a ∷ rest) ts) (text_of a s) _
        (found a s good h)
        (λ s' t good' kept r.
          after-bind n s' (λ s'' ts. Each (R s'') rest ts) (λ s'' ts. Each (R s'') (a ∷ rest) ts)
            (each text_of rest s') _ (each_lem n text_of P R mono found rest s' good' hs)
            (λ s'' ts good'' kept' rs.
              done n s'' (λ s3 ts'. Each (R s3) (a ∷ rest) ts') (t ∷ ts) good''
                (mono s' s'' kept' a t r, rs)))
