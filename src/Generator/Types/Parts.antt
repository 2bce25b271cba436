-- ===== src/Generator/Types/Parts.antt =====
-- What the texts of the parts of a type say (mock/cmd/cmg/pkg/generate/type.go).
use clue.Base.{
  ℕ, ◌<◌, ◌≡◌, refl, subst, inl, inr, Bool-cases, String, Option, none, some, List, [], ◌∷◌, ◌++◌,
  Bytes, codes, drop, length, le→leb, All, ◌==◌, if◌then◌else◌, ◌>>=◌, arith,
}
use clue.Generator.Names.{Numbers}
use clue.Generator.Imports.{Texts}
use clue.Generator.Types.{
  Piece, verbatim, qualified, ExplicitMethod, Field, Term, Node, signature, TypeAdder, joined_by,
  Group, embedding, fields_of, groups, fields_from, with_dot, each, from_fourth, piece_text,
  method_text, group_text, term_text, object_name, type_args,
}
use clue.Generator.Types.Spelled.{
  Each, NameOf, PieceOf, MethodOf, GroupOf, TermOf, ObjectOf, ArgsOf, Spelled,
}
use clue.Generator.Types.Kept.{Kept, NameOf-mono, Good, IsMethod, args_of}
use clue.Generator.Types.Steps.{
  Returns, After, done, after-bind, package_named, package_put, Names, name_put, each_lem,
}

from_fourth_lem : (t u : Bytes) → t ≡ codes "func" ++ u → from_fourth t ≡ some (drop 4 t)
unfolding from_fourth
from_fourth_lem t u e = rw e (rw (le→leb 4 (length (codes "func" ++ u)) (omega arith)) refl)

-- What is true of the types of all fields is true of those of their groups.
module _ (P : ℕ → Type 0) where
  abbrev pub GroupIs : Group → Type 0
  GroupIs (embedding type) = P type
  GroupIs (fields_of names type) = P type

  mutual
    unfolding groups

    pub groups-All : (fs : List Field) → All (λ f. P f.type) fs → All GroupIs (groups fs)
    groups-All [] h = tt
    groups-All (f ∷ fs) (h, hs) = elim (Bool-cases f.embedded) [
      | inl e ↦ rw e (h, groups-All fs hs)
      | inr e ↦ rw e (fields_from-All (codes f.name) f.type fs h hs)
    ]

    fields_from-All :
        (names : Bytes) (type : ℕ) (fs : List Field)
        → P type
        → All (λ f. P f.type) fs
        → All GroupIs (fields_from names type fs)
    fields_from-All names type [] p h = (p, tt)
    fields_from-All names type (f ∷ fs) p (h, hs) = elim (Bool-cases f.embedded) [
      | inl e ↦ rw e (p, (h, groups-All fs hs))
      | inr e ↦ elim (Bool-cases (type == f.type)) [
        | inl e' ↦ rw (e, e') (fields_from-All (names ++ (codes ", " ++ codes f.name)) type fs p hs)
        | inr e' ↦ rw (e, e') (p, fields_from-All (codes f.name) f.type fs h hs)
      ]
    ]

module _ (texts : Texts) (mod_path : String) (numbers : Numbers texts.numbered) (heap : ℕ → Node)
    (rank : ℕ → ℕ) where
  abbrev pub Ok :
      {A : Type 0} → ℕ → TypeAdder → (TypeAdder → A → Type 0) → Option (TypeAdder × A) → Type 0
  Ok n s P o = Returns (After texts mod_path numbers heap rank n s P) o

  -- The text that a loop and a function make of a list.
  module _ {A : Type 0} (n : ℕ) (text_of : A → TypeAdder → Option (TypeAdder × Bytes))
      (P : A → Type 0) (R : TypeAdder → A → Bytes → Type 0)
      (mono : (s s' : TypeAdder) → Kept s s' → (a : A) (t : Bytes) → R s a t → R s' a t)
      (found : (a : A) (s : TypeAdder)
        → Good heap s
        → P a
        → Ok n s (λ s' t. R s' a t) (text_of a s)) where
    pub each_put :
        (put : List Bytes → Bytes) (as' : List A) (s : TypeAdder)
        → Good heap s
        → All P as'
        → Ok n s
            (λ s' text. (ts : List Bytes) × Each (R s') as' ts × (text ≡ put ts))
            (each text_of as' s >>= (λ (s', ts). some (s', put ts)))
    each_put put as' s good h =
        after-bind texts mod_path numbers heap rank n s (λ s' ts. Each (R s') as' ts) _
          (each text_of as' s) _
          (each_lem texts mod_path numbers heap rank n text_of P R mono found as' s good h)
          (λ s' ts good' kept e.
            done texts mod_path numbers heap rank n s'
              (λ s'' text. (ts' : List Bytes) × Each (R s'') as' ts' × (text ≡ put ts')) (put ts)
              good' (ts, e, refl))

  pub piece_text_lem :
      (n : ℕ) (p : Piece) (s : TypeAdder)
      → Good heap s
      → Ok n s (λ s' t. PieceOf s' p t) (piece_text texts mod_path p s)
  unfolding piece_text
  piece_text_lem n (verbatim v) s good =
      done texts mod_path numbers heap rank n s (λ s' t. t ≡ v) v good refl
  piece_text_lem n (qualified path pkg_name) s good =
      package_put texts mod_path numbers heap rank n (pkg_name ∷ []) path with_dot s good
        (package_named texts mod_path numbers heap rank path pkg_name) refl

  module _ (name_of : ℕ → TypeAdder → Option (TypeAdder × Bytes)) (n : ℕ)
      (found : Names texts mod_path numbers heap rank name_of n) where
    pub method_text_lem :
        (m : ExplicitMethod) (s : TypeAdder)
        → Good heap s
        → IsMethod heap rank n m
        → Ok n s (λ s' t. MethodOf s' m t) (method_text texts mod_path name_of m s)
    unfolding method_text ◌>>=◌
    method_text_lem m s good (lt, (pieces, e)) =
        after-bind texts mod_path numbers heap rank n s (λ s' t. NameOf s' m.type t) _
          (name_of m.type s) _ (found m.type s good lt)
          (λ s' t good' kept h.
            let (ts, said, func) : Spelled s' (signature pieces) t =
              subst (λ node. Spelled s' node t) e (good'.spelled m.type t h) in
            rw (from_fourth_lem t (joined_by [] ts) func) (
              done texts mod_path numbers heap rank n s' (λ s'' u. MethodOf s'' m u)
                (codes m.name ++ drop 4 t) good' (t, h, refl)))

    pub group_text_lem :
        (g : Group) (s : TypeAdder)
        → Good heap s
        → GroupIs (λ type. rank type < n) g
        → Ok n s (λ s' t. GroupOf s' g t) (group_text texts mod_path name_of g s)
    unfolding group_text
    group_text_lem (embedding type) s good lt = found type s good lt
    group_text_lem (fields_of names type) s good lt =
        name_put texts mod_path numbers heap rank name_of n found type
          (λ t. names ++ (codes " " ++ t)) s good lt

    pub term_text_lem :
        (term : Term) (s : TypeAdder)
        → Good heap s
        → rank term.type < n
        → Ok n s (λ s' t. TermOf s' term t) (term_text texts mod_path name_of term s)
    unfolding term_text
    term_text_lem term s good lt =
        name_put texts mod_path numbers heap rank name_of n found term.type
          (λ t. if term.tilde then codes "~" ++ t else t) s good lt

    pub object_name_lem :
        (pkg : Option (String × String)) (obj : String) (s : TypeAdder)
        → Good heap s
        → Ok n s (λ s' t. ObjectOf s' pkg obj t) (object_name texts mod_path pkg obj s)
    unfolding object_name
    object_name_lem none obj s good =
        done texts mod_path numbers heap rank n s (λ s' t. t ≡ codes obj) (codes obj) good refl
    object_name_lem (some (path, pkg_name)) obj s good =
        package_put texts mod_path numbers heap rank n (pkg_name ∷ []) path
          (λ t. t ++ (codes "." ++ codes obj)) s good
          (package_named texts mod_path numbers heap rank path pkg_name) refl

    pub type_args_lem :
        (args : Option (List ℕ)) (s : TypeAdder)
        → Good heap s
        → All (λ type. rank type < n) (args_of heap rank args)
        → Ok n s (λ s' t. ArgsOf s' args t) (type_args texts mod_path name_of args s)
    unfolding type_args
    type_args_lem none s good h =
        done texts mod_path numbers heap rank n s (λ s' t. t ≡ []) [] good refl
    type_args_lem (some types) s good h =
        each_put n name_of (λ type. rank type < n) NameOf NameOf-mono found
          (λ ts. codes "[" ++ (joined_by (codes ", ") ts ++ codes "]")) types s good h
