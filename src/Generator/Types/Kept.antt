-- ===== src/Generator/Types/Kept.antt =====
-- That a typeAdder only grows, and what is true of its maps and of types
-- (mock/cmd/cmg/pkg/generate/type.go).
use clue.Base.{
  ℕ, ◌≡◌, ◌<◌, All, Bool, true, false, String, Option, none, some, List, [], ◌++◌, Bytes, codes,
  if◌then◌else◌,
}
use clue.Generator.Imports.{Import, all_imports, alias_or_pkg_name}
use clue.Generator.Imports.Names.{Has}
use clue.Generator.Imports.Unique.{IsProper}
use clue.Generator.Types.{
  bool_kind, complex64, complex128, string_kind, unsafe_pointer, other_kind, Piece, verbatim,
  qualified, ExplicitMethod, Term, Node, array, basic, chan, interface, map_of, named, pointer,
  signature, slice, struct, type_param, union, other, TypeAdder, Group, embedding, fields_of,
  with_dot, send_recv, send_only, recv_only,
}
use clue.Generator.Types.Spelled.{
  Each-mono, NameOf, With, WithPackage, PieceOf, MethodOf, PartOf, GroupOf, TermOf, ObjectOf,
  ArgsOf, Spelled, ZeroOf, is_composite,
}
use clue.Generator.Types.Structs.{Part, embedded_part, named_part}

-- Nothing of the first is lost or changed in the second.
pub record Kept (s s' : TypeAdder) : Type 0 where
  pub names_kept : (type : ℕ) (t : Bytes) → s.names type ≡ some t → s'.names type ≡ some t
  pub zeros_kept : (type : ℕ) (t : Bytes) → s.zeros type ≡ some t → s'.zeros type ≡ some t
  pub imports_kept :
      (k : String) (i : Import) → Has k i (all_imports s.imports) → Has k i (all_imports s'.imports)

pub Kept-refl : (s : TypeAdder) → Kept s s
Kept-refl s = record {
  names_kept = λ type t h. h;
  zeros_kept = λ type t h. h;
  imports_kept = λ k i h. h;
}

pub Kept-trans : (s s' s'' : TypeAdder) → Kept s s' → Kept s' s'' → Kept s s''
Kept-trans s s' s'' h h' = record {
  names_kept = λ type t e. h'.names_kept type t (h.names_kept type t e);
  zeros_kept = λ type t e. h'.zeros_kept type t (h.zeros_kept type t e);
  imports_kept = λ k i e. h'.imports_kept k i (h.imports_kept k i e);
}

module _ (s s' : TypeAdder) (kept : Kept s s') where
  pub NameOf-mono : (type : ℕ) (t : Bytes) → NameOf s type t → NameOf s' type t
  NameOf-mono type t h = kept.names_kept type t h

  With-mono :
      (type : ℕ) (put : Bytes → Bytes) (text : Bytes) → With s type put text → With s' type put text
  With-mono type put text (t, h, e) = (t, kept.names_kept type t h, e)

  WithPackage-mono :
      (path : String) (put : Bytes → Bytes) (text : Bytes)
      → WithPackage s path put text
      → WithPackage s' path put text
  WithPackage-mono path put text (t, (i, h, p, e'), e) =
      (t, (i, kept.imports_kept (alias_or_pkg_name i) i h, p, e'), e)

  pub PieceOf-mono : (p : Piece) (t : Bytes) → PieceOf s p t → PieceOf s' p t
  PieceOf-mono (verbatim v) t h = h
  PieceOf-mono (qualified path name) t h = WithPackage-mono path with_dot t h

  pub MethodOf-mono : (m : ExplicitMethod) (t : Bytes) → MethodOf s m t → MethodOf s' m t
  MethodOf-mono m t (u, h, e) = (u, kept.names_kept m.type u h, e)

  pub GroupOf-mono : (g : Group) (t : Bytes) → GroupOf s g t → GroupOf s' g t
  GroupOf-mono (embedding type) t h = NameOf-mono type t h
  GroupOf-mono (fields_of names type) t (u, h, e) = (u, kept.names_kept type u h, e)

  PartOf-mono : (p : Part) (t : Bytes) → PartOf s p t → PartOf s' p t
  PartOf-mono (embedded_part f) t h = NameOf-mono f.type t h
  PartOf-mono (named_part f fs) t (u, h, e) = (u, kept.names_kept f.type u h, e)

  pub TermOf-mono : (term : Term) (t : Bytes) → TermOf s term t → TermOf s' term t
  TermOf-mono term t (u, h, e) = (u, kept.names_kept term.type u h, e)

  pub ObjectOf-mono :
      (pkg : Option (String × String)) (name : String) (t : Bytes)
      → ObjectOf s pkg name t
      → ObjectOf s' pkg name t
  ObjectOf-mono none name t h = h
  ObjectOf-mono (some (path, pkg_name)) name t h =
      WithPackage-mono path (λ u. u ++ (codes "." ++ codes name)) t h

  ArgsOf-mono : (args : Option (List ℕ)) (t : Bytes) → ArgsOf s args t → ArgsOf s' args t
  ArgsOf-mono none t h = h
  ArgsOf-mono (some types) t (ts, h, e) =
      (ts, Each-mono (NameOf s) (NameOf s') NameOf-mono types ts h, e)

  pub Spelled-mono : (node : Node) (text : Bytes) → Spelled s node text → Spelled s' node text
  Spelled-mono (array len elem) text h = With-mono elem _ text h
  Spelled-mono (basic unsafe_pointer name) text h = WithPackage-mono "unsafe" _ text h
  Spelled-mono (basic bool_kind name) text h = h
  Spelled-mono (basic complex64 name) text h = h
  Spelled-mono (basic complex128 name) text h = h
  Spelled-mono (basic string_kind name) text h = h
  Spelled-mono (basic other_kind name) text h = h
  Spelled-mono (chan send_recv elem) text h = With-mono elem _ text h
  Spelled-mono (chan send_only elem) text h = With-mono elem _ text h
  Spelled-mono (chan recv_only elem) text h = With-mono elem _ text h
  Spelled-mono (interface true string embeds methods) text h = h
  Spelled-mono (interface false string embeds methods) text (ts, h, (us, h', e)) = (
    ts,
    Each-mono (NameOf s) (NameOf s') NameOf-mono embeds ts h,
    (us, Each-mono (MethodOf s) (MethodOf s') MethodOf-mono methods us h', e),
  )
  Spelled-mono (map_of key elem) text (t, h, h') =
      (t, kept.names_kept key t h, With-mono elem _ text h')
  Spelled-mono (named pkg name args underlying) text (t, h, (u, h', e)) =
      (t, ObjectOf-mono pkg name t h, (u, ArgsOf-mono args u h', e))
  Spelled-mono (pointer elem) text h = With-mono elem _ text h
  Spelled-mono (signature pieces) text (ts, h, e) =
      (ts, Each-mono (PieceOf s) (PieceOf s') PieceOf-mono pieces ts h, e)
  Spelled-mono (slice elem) text h = With-mono elem _ text h
  Spelled-mono (struct fields) text (ps, all, parts, (ts, h, e)) =
      (ps, all, parts, (ts, Each-mono (PartOf s) (PartOf s') PartOf-mono ps ts h, e))
  Spelled-mono (type_param name) text h = h
  Spelled-mono (union terms) text (ts, h, e) =
      (ts, Each-mono (TermOf s) (TermOf s') TermOf-mono terms ts h, e)
  Spelled-mono other text h = h

  pub ZeroOf-mono :
      (heap : ℕ → Node) (type : ℕ) (node : Node) (text : Bytes)
      → ZeroOf s heap type node text
      → ZeroOf s' heap type node text
  ZeroOf-mono heap type (array len elem) text h = With-mono type _ text h
  ZeroOf-mono heap type (struct fields) text h = With-mono type _ text h
  ZeroOf-mono heap type (basic bool_kind name) text h = h
  ZeroOf-mono heap type (basic complex64 name) text h = h
  ZeroOf-mono heap type (basic complex128 name) text h = h
  ZeroOf-mono heap type (basic string_kind name) text h = h
  ZeroOf-mono heap type (basic unsafe_pointer name) text h = h
  ZeroOf-mono heap type (basic other_kind name) text h = h
  ZeroOf-mono heap type (named pkg name args underlying) text h =
      either (is_composite (heap underlying)) h
    where
      either :
          (b : Bool)
          → (if b then With s type (λ t. t ++ codes "{}") text else s.zeros underlying ≡ some text)
          → (if b
              then With s' type (λ t. t ++ codes "{}") text
              else s'.zeros underlying ≡ some text)
      either true h' = With-mono type _ text h'
      either false h' = kept.zeros_kept underlying text h'
  ZeroOf-mono heap type (type_param name) text h = h
  ZeroOf-mono heap type (union terms) text h = h
  ZeroOf-mono heap type other text h = h
  ZeroOf-mono heap type (chan dir elem) text h = h
  ZeroOf-mono heap type (interface e string embeds methods) text h = h
  ZeroOf-mono heap type (map_of key elem) text h = h
  ZeroOf-mono heap type (pointer elem) text h = h
  ZeroOf-mono heap type (signature pieces) text h = h
  ZeroOf-mono heap type (slice elem) text h = h

-- The imports have names of their own, and the names and zero values in the maps are true of the types.
pub record Good (heap : ℕ → Node) (s : TypeAdder) : Type 0 where
  pub proper : IsProper (all_imports s.imports)
  pub spelled : (type : ℕ) (t : Bytes) → s.names type ≡ some t → Spelled s (heap type) t
  pub zeroed : (type : ℕ) (z : Bytes) → s.zeros type ≡ some z → ZeroOf s heap type (heap type) z

-- A heap as go/types makes it: what the name of a type reads is of a lower rank, a method's type is a
-- signature, and an underlying type is not a named one. (What only an underlying type reads may lead
-- back to the type.)
module _ (heap : ℕ → Node) (rank : ℕ → ℕ) where
  abbrev pub IsMethod : ℕ → ExplicitMethod → Type 0
  IsMethod n m = (rank m.type < n) × ((pieces : List Piece) × (heap m.type ≡ signature pieces))

  abbrev pub IsPlain : Node → Type 0
  IsPlain (named pkg name args underlying) = ⊥
  IsPlain _ = Unit

  abbrev pub args_of : Option (List ℕ) → List ℕ
  args_of none = []
  args_of (some types) = types

  abbrev pub Reads : ℕ → Node → Type 0
  Reads n (array len elem) = rank elem < n
  Reads n (basic kind name) = Unit
  Reads n (chan dir elem) = rank elem < n
  Reads n (interface e string embeds methods) =
      All (λ type. rank type < n) embeds × All (IsMethod n) methods
  Reads n (map_of key elem) = (rank key < n) × (rank elem < n)
  Reads n (named pkg name args underlying) =
      All (λ type. rank type < n) (args_of args) × IsPlain (heap underlying)
  Reads n (pointer elem) = rank elem < n
  Reads n (signature pieces) = Unit
  Reads n (slice elem) = rank elem < n
  Reads n (struct fields) = All (λ f. rank f.type < n) fields
  Reads n (type_param name) = Unit
  Reads n (union terms) = All (λ term. rank term.type < n) terms
  Reads n other = ⊥

  abbrev pub IsHeap : Type 0
  IsHeap = (type : ℕ) → Reads (rank type) (heap type)
