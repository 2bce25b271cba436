-- ===== src/Generator/Types/Spelled.antt =====
-- What the texts of a typeAdder say, and that they stay true as it grows
-- (mock/cmd/cmg/pkg/generate/type.go).
use clue.Base.{
  ℕ, ◌≡◌, Bool, All, map, true, false, String, Option, none, some, List, [], ◌∷◌, ◌++◌, Bytes,
  codes, drop, if◌then◌else◌,
}
use clue.Base.Int.{decimal_ℤ}
use clue.Generator.Imports.{Import, all_imports, alias_or_pkg_name}
use clue.Generator.Imports.Names.{Has}
use clue.Generator.Types.{
  unsafe_pointer, Piece, verbatim, qualified, ExplicitMethod, Term, Node, array, basic, chan,
  interface, map_of, named, pointer, signature, slice, struct, type_param, union, other, TypeAdder,
  Group, embedding, fields_of, send_recv, send_only, recv_only, bool_kind, complex64, complex128,
  string_kind, other_kind,
}
use clue.Generator.Types.Structs.{
  Part, embedded_part, named_part, all_fields, IsPart, more_names, group_of,
}

-- Element by element, a list has the texts.
abbrev pub Each : {A : Type 0} → (A → Bytes → Type 0) → List A → List Bytes → Type 0
Each R [] [] = Unit
Each R [] (t ∷ ts) = ⊥
Each R (a ∷ rest) [] = ⊥
Each R (a ∷ rest) (t ∷ ts) = R a t × Each R rest ts

pub Each-mono :
    {A : Type 0} (R R' : A → Bytes → Type 0)
    → ((a : A) (t : Bytes) → R a t → R' a t)
    → (as' : List A) (ts : List Bytes) → Each R as' ts
    → Each R' as' ts
Each-mono R R' f [] [] h = tt
Each-mono R R' f [] (t ∷ ts) h = absurd h
Each-mono R R' f (a ∷ rest) [] h = absurd h
Each-mono R R' f (a ∷ rest) (t ∷ ts) (h, hs) = (f a t h, Each-mono R R' f rest ts hs)

-- Texts with a separator between them.
abbrev pub separated : Bytes → List Bytes → Bytes
separated sep [] = []
separated sep (t ∷ []) = t
separated sep (t ∷ (u ∷ ts)) = t ++ (sep ++ separated sep (u ∷ ts))

-- The name of a package in front of the name of a type, if it is not empty.
abbrev pub dotted : Bytes → Bytes
dotted [] = []
dotted (c ∷ t) = (c ∷ t) ++ codes "."

-- Whether Go writes the zero value of a type as a composite literal.
abbrev pub is_composite : Node → Bool
is_composite (array len elem) = true
is_composite (basic kind name) = false
is_composite (chan dir elem) = false
is_composite (interface e string embeds methods) = false
is_composite (map_of key elem) = false
is_composite (named pkg name args underlying) = false
is_composite (pointer elem) = false
is_composite (signature pieces) = false
is_composite (slice elem) = false
is_composite (struct fields) = true
is_composite (type_param name) = false
is_composite (union terms) = false
is_composite other = false

module _ (s : TypeAdder) where
  -- The text is the name of a type.
  abbrev pub NameOf : ℕ → Bytes → Type 0
  NameOf type t = s.names type ≡ some t

  -- The text is the name of an import of the path.
  abbrev pub PackageOf : String → Bytes → Type 0
  PackageOf path t =
      (i : Import) × Has (alias_or_pkg_name i) i (all_imports s.imports)
      × (i.pkg_path ≡ path)
      × (t ≡ codes (alias_or_pkg_name i))

  -- The text is that of the names of types and packages put together by a function.
  abbrev pub With : ℕ → (Bytes → Bytes) → Bytes → Type 0
  With type put text = (t : Bytes) × NameOf type t × (text ≡ put t)

  abbrev pub WithPackage : String → (Bytes → Bytes) → Bytes → Type 0
  WithPackage path put text = (t : Bytes) × PackageOf path t × (text ≡ put t)

  abbrev pub PieceOf : Piece → Bytes → Type 0
  PieceOf (verbatim v) text = text ≡ v
  PieceOf (qualified path name) text = WithPackage path dotted text

  abbrev pub MethodOf : ExplicitMethod → Bytes → Type 0
  MethodOf m text = With m.type (λ t. codes m.name ++ drop 4 t) text

  abbrev pub PartOf : Part → Bytes → Type 0
  PartOf (embedded_part f) text = NameOf f.type text
  PartOf (named_part f fs) text =
      With f.type (λ t. (codes f.name ++ more_names fs) ++ (codes " " ++ t)) text

  -- The same of the program's groups.
  abbrev pub GroupOf : Group → Bytes → Type 0
  GroupOf (embedding type) text = NameOf type text
  GroupOf (fields_of names type) text = With type (λ t. names ++ (codes " " ++ t)) text

  abbrev pub TermOf : Term → Bytes → Type 0
  TermOf term text = With term.type (λ t. if term.tilde then codes "~" ++ t else t) text

  abbrev pub ObjectOf : Option (String × String) → String → Bytes → Type 0
  ObjectOf none name text = text ≡ codes name
  ObjectOf (some (path, pkg_name)) name text =
      WithPackage path (λ t. t ++ (codes "." ++ codes name)) text

  abbrev pub ArgsOf : Option (List ℕ) → Bytes → Type 0
  ArgsOf none text = text ≡ []
  ArgsOf (some types) text =
      (ts : List Bytes) × Each NameOf types ts
      × (text ≡ codes "[" ++ (separated (codes ", ") ts ++ codes "]"))

  -- The text is put together as Go's syntax of a type is, from the names of the types in it and for each
  -- package the name of an import of its path. A struct has all of its fields in order, each with its
  -- name and type or embedded. As in the code, it has no tags, and the element of a channel has no
  -- parentheses.
  abbrev pub Spelled : Node → Bytes → Type 0
  Spelled (array len elem) text =
      With elem (λ t. codes "[" ++ (decimal_ℤ len ++ (codes "]" ++ t))) text
  Spelled (basic unsafe_pointer name) text = WithPackage "unsafe" (λ t. t ++ codes ".Pointer") text
  Spelled (basic kind name) text = text ≡ codes name
  Spelled (chan send_recv elem) text = With elem (λ t. codes "chan " ++ t) text
  Spelled (chan send_only elem) text = With elem (λ t. codes "chan<- " ++ t) text
  Spelled (chan recv_only elem) text = With elem (λ t. codes "<-chan " ++ t) text
  Spelled (interface true string embeds methods) text = text ≡ codes string
  Spelled (interface false string embeds methods) text =
      (ts : List Bytes) × Each NameOf embeds ts
      × ((us : List Bytes) × Each MethodOf methods us
          × (text ≡ codes "interface{" ++ (separated (codes "; ") (ts ++ us) ++ codes "}")))
  Spelled (map_of key elem) text =
      (t : Bytes) × NameOf key t × With elem (λ u. codes "map[" ++ (t ++ (codes "]" ++ u))) text
  Spelled (named pkg name args underlying) text =
      (t : Bytes) × ObjectOf pkg name t × ((u : Bytes) × ArgsOf args u × (text ≡ t ++ u))
  Spelled (pointer elem) text = With elem (λ t. codes "*" ++ t) text
  Spelled (signature pieces) text =
      (ts : List Bytes) × Each PieceOf pieces ts × (text ≡ codes "func" ++ separated [] ts)
  Spelled (slice elem) text = With elem (λ t. codes "[]" ++ t) text
  Spelled (struct fields) text =
      (ps : List Part) × (all_fields ps ≡ fields)
      × All IsPart ps
      × ((ts : List Bytes) × Each PartOf ps ts
          × (text ≡ codes "struct{" ++ (separated (codes "; ") ts ++ codes "}")))
  Spelled (type_param name) text = text ≡ codes name
  Spelled (union terms) text =
      (ts : List Bytes) × Each TermOf terms ts × (text ≡ separated (codes " | ") ts)
  Spelled other text = ⊥

  -- The text is Go's zero value of a type, which is at a pointer into the heap.
  abbrev pub ZeroOf : (ℕ → Node) → ℕ → Node → Bytes → Type 0
  ZeroOf heap type (array len elem) text = With type (λ t. t ++ codes "{}") text
  ZeroOf heap type (struct fields) text = With type (λ t. t ++ codes "{}") text
  ZeroOf heap type (basic bool_kind name) text = text ≡ codes "false"
  ZeroOf heap type (basic complex64 name) text = text ≡ codes "0i"
  ZeroOf heap type (basic complex128 name) text = text ≡ codes "0i"
  ZeroOf heap type (basic string_kind name) text = text ≡ codes "\"\""
  ZeroOf heap type (basic unsafe_pointer name) text = text ≡ codes "nil"
  ZeroOf heap type (basic other_kind name) text = text ≡ codes "0"
  ZeroOf heap type (named pkg name args underlying) text =
      if is_composite (heap underlying)
      then With type (λ t. t ++ codes "{}") text
      else s.zeros underlying ≡ some text
  ZeroOf heap type (type_param name) text = text ≡ codes "*new(" ++ (codes name ++ codes ")")
  ZeroOf heap type (union terms) text = text ≡ []
  ZeroOf heap type other text = ⊥
  ZeroOf heap type _ text = text ≡ codes "nil"

  -- What the texts of a struct's groups say of its parts.
  pub Each-group_of :
      (ps : List Part) (ts : List Bytes) → Each GroupOf (map group_of ps) ts → Each PartOf ps ts
  Each-group_of [] [] h = tt
  Each-group_of [] (t ∷ ts) h = absurd h
  Each-group_of (p ∷ ps) [] h = absurd h
  Each-group_of (embedded_part f ∷ ps) (t ∷ ts) (h, hs) = (h, Each-group_of ps ts hs)
  Each-group_of (named_part f fs ∷ ps) (t ∷ ts) (h, hs) = (h, Each-group_of ps ts hs)
