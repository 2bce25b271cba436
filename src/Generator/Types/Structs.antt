-- ===== src/Generator/Types/Structs.antt =====
-- The parts of a struct's syntax, and that the loops over its fields find them
-- (mock/cmd/cmg/pkg/generate/type.go).
use clue.Base.{
  ℕ, ◌≡◌, refl, sym, ap, ◌∙◌, subst, Bool-cases, inl, inr, true, false, List, [], ◌∷◌, ◌++◌, map,
  append-nil, append_assoc, Bytes, codes, All, All-append, ◌==◌, ==_iff,
}
use clue.Generator.Types.{Field, Group, embedding, fields_of, groups, fields_from}

-- An embedded field, or fields of one type.
pub data Part : Type 0 where
  embedded_part : Field → Part
  named_part : Field → List Field → Part

abbrev pub fields_in : Part → List Field
fields_in (embedded_part f) = f ∷ []
fields_in (named_part f fs) = f ∷ fs

abbrev pub all_fields : List Part → List Field
all_fields [] = []
all_fields (p ∷ ps) = fields_in p ++ all_fields ps

abbrev pub IsAlike : Field → Field → Type 0
IsAlike f g = (g.embedded ≡ false) × (g.type ≡ f.type)

abbrev pub IsPart : Part → Type 0
IsPart (embedded_part f) = f.embedded ≡ true
IsPart (named_part f fs) = (f.embedded ≡ false) × All (IsAlike f) fs

-- The names of fields, each behind a comma.
abbrev pub more_names : List Field → Bytes
more_names [] = []
more_names (f ∷ fs) = codes ", " ++ (codes f.name ++ more_names fs)

more_names-append :
    (fs : List Field) (g : Field)
    → more_names (fs ++ g ∷ []) ≡ more_names fs ++ (codes ", " ++ codes g.name)
more_names-append [] g = ap (λ t. codes ", " ++ t) (append-nil (codes g.name))
more_names-append (f ∷ fs) g =
    ap (λ t. codes ", " ++ (codes f.name ++ t)) (more_names-append fs g)
    ∙ ap (λ t. codes ", " ++ t)
        (sym (append_assoc (codes f.name) (more_names fs) (codes ", " ++ codes g.name)))

-- The program's group of a part.
abbrev pub group_of : Part → Group
group_of (embedded_part f) = embedding f.type
group_of (named_part f fs) = fields_of (codes f.name ++ more_names fs) f.type

-- The groups are those of parts whose fields are these.
abbrev pub Parted : List Field → List Group → Type 0
Parted fs gs = (ps : List Part) × (all_fields ps ≡ fs) × All IsPart ps × (gs ≡ map group_of ps)

one_more :
    (p : Part) (fs : List Field) (gs : List Group)
    → IsPart p
    → Parted fs gs
    → Parted (fields_in p ++ fs) (group_of p ∷ gs)
one_more p fs gs is (ps, all, parts, same) =
    (p ∷ ps, ap (λ l. fields_in p ++ l) all, (is, parts), ap (λ l. group_of p ∷ l) same)

with_name :
    (f : Field) (so_far : List Field) (names : Bytes) (g : Field)
    → names ≡ codes f.name ++ more_names so_far
    → names ++ (codes ", " ++ codes g.name) ≡ codes f.name ++ more_names (so_far ++ g ∷ [])
with_name f so_far names g e =
    ap (λ t. t ++ (codes ", " ++ codes g.name)) e
    ∙ append_assoc (codes f.name) (more_names so_far) (codes ", " ++ codes g.name)
    ∙ ap (λ t. codes f.name ++ t) (sym (more_names-append so_far g))

moved :
    (f : Field) (so_far : List Field) (g : Field) (fs : List Field) {gs : List Group}
    → Parted (f ∷ (so_far ++ g ∷ []) ++ fs) gs
    → Parted (f ∷ so_far ++ g ∷ fs) gs
moved f so_far g fs (ps, all, parts, made) =
    (ps, all ∙ ap (λ l. f ∷ l) (append_assoc so_far (g ∷ []) fs), parts, made)

-- The rounds of the two loops.
groups_embedded :
    (f : Field) (fs : List Field)
    → f.embedded ≡ true
    → groups (f ∷ fs) ≡ embedding f.type ∷ groups fs
unfolding groups
groups_embedded f fs e = rw e refl

groups_named :
    (f : Field) (fs : List Field)
    → f.embedded ≡ false
    → groups (f ∷ fs) ≡ fields_from (codes f.name) f.type fs
unfolding groups
groups_named f fs e = rw e refl

from_embedded :
    (names : Bytes) (type : ℕ) (g : Field) (fs : List Field)
    → g.embedded ≡ true
    → fields_from names type (g ∷ fs) ≡ fields_of names type ∷ (embedding g.type ∷ groups fs)
unfolding groups
from_embedded names type g fs e = rw e refl

from_same :
    (names : Bytes) (type : ℕ) (g : Field) (fs : List Field)
    → g.embedded ≡ false
    → (type == g.type) ≡ true
    → fields_from names type (g ∷ fs) ≡ fields_from (names ++ (codes ", " ++ codes g.name)) type fs
unfolding groups
from_same names type g fs e e' = rw (e, e') refl

from_other :
    (names : Bytes) (type : ℕ) (g : Field) (fs : List Field)
    → g.embedded ≡ false
    → (type == g.type) ≡ false
    → fields_from names type (g ∷ fs) ≡ fields_of names type ∷ fields_from (codes g.name) g.type fs
unfolding groups
from_other names type g fs e e' = rw (e, e') refl

mutual
  unfolding groups

  pub groups-Parted : (fs : List Field) → Parted fs (groups fs)
  groups-Parted [] = ([], refl, tt, refl)
  groups-Parted (f ∷ fs) = elim (Bool-cases f.embedded) [
    | inl e ↦
        subst (Parted (f ∷ fs)) (sym (groups_embedded f fs e))
          (one_more (embedded_part f) fs (groups fs) e (groups-Parted fs))
    | inr e ↦
        subst (Parted (f ∷ fs)) (sym (groups_named f fs e))
          (fields_from-Parted f [] (codes f.name) fs e tt (sym (append-nil (codes f.name))))
  ]

  -- Behind the fields so far.
  fields_from-Parted :
      (f : Field) (so_far : List Field) (names : Bytes) (fs : List Field)
      → f.embedded ≡ false
      → All (IsAlike f) so_far
      → names ≡ codes f.name ++ more_names so_far
      → Parted (f ∷ so_far ++ fs) (fields_from names f.type fs)
  fields_from-Parted f so_far names [] is alike e =
      (named_part f so_far ∷ [], refl, ((is, alike), tt), ap (λ t. fields_of t f.type ∷ []) e)
  fields_from-Parted f so_far names (g ∷ fs) is alike e = elim (Bool-cases g.embedded) [
    | inl emb ↦
        subst (Parted (f ∷ so_far ++ g ∷ fs))
          (sym (
            from_embedded names f.type g fs emb
            ∙ ap (λ t. fields_of t f.type ∷ (embedding g.type ∷ groups fs)) e))
          (one_more (named_part f so_far) (g ∷ fs) _ (is, alike)
            (one_more (embedded_part g) fs (groups fs) emb (groups-Parted fs)))
    | inr plain ↦ elim (Bool-cases (f.type == g.type)) [
      | inl same ↦
          subst (Parted (f ∷ so_far ++ g ∷ fs)) (sym (from_same names f.type g fs plain same)) (
            moved f so_far g fs (
              fields_from-Parted f (so_far ++ g ∷ []) (names ++ (codes ", " ++ codes g.name)) fs is
                (All-append (IsAlike f) so_far (g ∷ []) alike
                  ((plain, sym ((==_iff f.type g.type).0 same)), tt))
                (with_name f so_far names g e)))
      | inr other ↦
          subst (Parted (f ∷ so_far ++ g ∷ fs))
            (sym (
              from_other names f.type g fs plain other
              ∙ ap (λ t. fields_of t f.type ∷ fields_from (codes g.name) g.type fs) e))
            (one_more (named_part f so_far) (g ∷ fs) _ (is, alike)
              (fields_from-Parted g [] (codes g.name) fs plain tt
                (sym (append-nil (codes g.name)))))
    ]
  ]
