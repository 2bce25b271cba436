-- ===== src/Generator/Types.antt =====
-- The names and zero values of types in a generated file (mock/cmd/cmg/pkg/generate/type.go). A type
-- is a pointer to its node in a heap, as the nodes of go/types are.
pub mod Structs
pub mod Spelled
pub mod Kept
pub mod Steps
pub mod Parts
pub mod Named
pub mod Zeros
pub mod Finds
pub mod Added
use clue.Base.{
  ℕ, zero, suc, ◌==◌, Bool, true, false, String, Option, none, some, List, [], ◌∷◌, ◌++◌, Bytes,
  codes, drop, length, leb, update, if◌then◌else◌, ◌>>=◌,
}
use clue.Base.Int.{ℤ, decimal_ℤ}
use clue.Generator.Imports.{
  Import, Texts, ImportMaps, all_imports, all_keys, alias_or_pkg_name, new_import, add_import,
}

-- The kinds that the zero values tell apart, and all others.
pub data Kind : Type 0 where
  bool_kind complex64 complex128 string_kind unsafe_pointer other_kind : Kind

-- types.ChanDir
pub data ChanDir : Type 0 where
  send_recv send_only recv_only : ChanDir

-- What types.WriteSignature writes: a text, or a package's name by the qualifier.
pub data Piece : Type 0 where
  verbatim : Bytes → Piece
  qualified : String → String → Piece

-- types.Func
pub record ExplicitMethod : Type 0 where
  pub name : String
  pub type : ℕ

-- types.Var
pub record Field : Type 0 where
  pub name : String
  pub embedded : Bool
  pub type : ℕ

pub record Term : Type 0 where
  pub tilde : Bool
  pub type : ℕ

-- A node of go/types, with what the program reads of it: an interface's emptiness, String, embedded
-- types and explicit methods; a named type's package (path and name), name, type arguments and
-- underlying type. `other` is a type that the program has no case for.
pub data Node : Type 0 where
  array : ℤ → ℕ → Node
  basic : Kind → String → Node
  chan : ChanDir → ℕ → Node
  interface : Bool → String → List ℕ → List ExplicitMethod → Node
  map_of : ℕ → ℕ → Node
  named : Option (String × String) → String → Option (List ℕ) → ℕ → Node
  pointer : ℕ → Node
  signature : List Piece → Node
  slice : ℕ → Node
  struct : List Field → Node
  type_param : String → Node
  union : List Term → Node
  other : Node

-- `typeAdder`: the typeMaps and the imports.
pub record TypeAdder : Type 0 where
  pub names : ℕ → Option Bytes
  pub zeros : ℕ → Option Bytes
  pub imports : ImportMaps

-- strings.Join
abbrev pub joined_by : Bytes → List Bytes → Bytes
joined_by sep [] = []
joined_by sep (t ∷ []) = t
joined_by sep (t ∷ (u ∷ texts)) = t ++ (sep ++ joined_by sep (u ∷ texts))

abbrev pub dir_text : ChanDir → Bytes
dir_text send_recv = codes "chan "
dir_text send_only = codes "chan<- "
dir_text recv_only = codes "<-chan "

-- An embedded field, or the names of fields with their one type.
pub data Group : Type 0 where
  embedding : ℕ → Group
  fields_of : Bytes → ℕ → Group

-- The loops over the fields of a struct; `fields_from` is the inner one, with the names so far.
unfoldable mutual
  pub groups : List Field → List Group
  groups [] = []
  groups (f ∷ fs) = elim f.embedded [
    | true ↦ embedding f.type ∷ groups fs
    | false ↦ fields_from (codes f.name) f.type fs
  ]

  pub fields_from : Bytes → ℕ → List Field → List Group
  fields_from names type [] = fields_of names type ∷ []
  fields_from names type (f ∷ fs) = elim f.embedded [
    | true ↦ fields_of names type ∷ (embedding f.type ∷ groups fs)
    | false ↦ elim (type == f.type) [
      | true ↦ fields_from (names ++ (codes ", " ++ codes f.name)) type fs
      | false ↦ fields_of names type ∷ fields_from (codes f.name) f.type fs
    ]
  ]

-- A loop that makes a text of each element.
module _ {S A : Type 0} (text_of : A → S → Option (S × Bytes)) where
  unfoldable pub each : List A → S → Option (S × List Bytes)
  each [] s = some (s, [])
  each (a ∷ rest) s = do (s', t) ← text_of a s; (s'', ts) ← each rest s'; some (s'', t ∷ ts)

-- text[4:]; none is the panic on a shorter text.
unfoldable pub from_fourth : Bytes → Option Bytes
from_fourth t = if leb 4 (length t) then some (drop 4 t) else none

-- The qualifier's name and a dot, which go/types leaves out behind an empty name.
abbrev pub with_dot : Bytes → Bytes
with_dot [] = []
with_dot (c ∷ t) = (c ∷ t) ++ codes "."

abbrev pub kind_zero : Kind → Bytes
kind_zero bool_kind = codes "false"
kind_zero complex64 = codes "0i"
kind_zero complex128 = codes "0i"
kind_zero string_kind = codes "\"\""
kind_zero unsafe_pointer = codes "nil"
kind_zero other_kind = codes "0"

abbrev pub is_aggregate : Node → Bool
is_aggregate (array len elem) = true
is_aggregate (struct fields) = true
is_aggregate _ = false

module _ (texts : Texts) (mod_path : String) where
  -- `addImport` and the name of the import, given fuel for all names of imports.
  unfoldable pub add_package : List String → String → TypeAdder → Option (TypeAdder × Bytes)
  add_package args path s = do
    (im, i) ←
        add_import texts (suc (length (all_keys (all_imports s.imports)))) mod_path s.imports
          (new_import texts path args)
    some (record s { imports = im }, codes (alias_or_pkg_name i))

  unfoldable pub piece_text : Piece → TypeAdder → Option (TypeAdder × Bytes)
  piece_text (verbatim t) s = some (s, t)
  piece_text (qualified path name) s = do
    (s', t) ← add_package (name ∷ []) path s
    some (s', with_dot t)

  unfoldable pub object_name :
      Option (String × String) → String → TypeAdder → Option (TypeAdder × Bytes)
  object_name none name s = some (s, codes name)
  object_name (some (path, pkg_name)) name s = do
    (s', t) ← add_package (pkg_name ∷ []) path s
    some (s', t ++ (codes "." ++ codes name))

  -- The cases of `name`, given `name` for the types in the node; none is a panic.
  module _ (name_of : ℕ → TypeAdder → Option (TypeAdder × Bytes)) where
    unfoldable pub method_text : ExplicitMethod → TypeAdder → Option (TypeAdder × Bytes)
    method_text m s = do
      (s', t) ← name_of m.type s
      rest ← from_fourth t
      some (s', codes m.name ++ rest)

    unfoldable pub group_text : Group → TypeAdder → Option (TypeAdder × Bytes)
    group_text (embedding type) s = name_of type s
    group_text (fields_of names type) s = do
      (s', t) ← name_of type s
      some (s', names ++ (codes " " ++ t))

    unfoldable pub term_text : Term → TypeAdder → Option (TypeAdder × Bytes)
    term_text term s = do
      (s', t) ← name_of term.type s
      some (s', if term.tilde then codes "~" ++ t else t)

    unfoldable pub type_args : Option (List ℕ) → TypeAdder → Option (TypeAdder × Bytes)
    type_args none s = some (s, [])
    type_args (some types) s = do
      (s', ts) ← each name_of types s
      some (s', codes "[" ++ (joined_by (codes ", ") ts ++ codes "]"))

    unfoldable pub node_text : Node → TypeAdder → Option (TypeAdder × Bytes)
    node_text (array len elem) s = do
      (s', t) ← name_of elem s
      some (s', codes "[" ++ (decimal_ℤ len ++ (codes "]" ++ t)))
    node_text (basic unsafe_pointer name) s = do
      (s', t) ← add_package [] "unsafe" s
      some (s', t ++ codes ".Pointer")
    node_text (basic kind name) s = some (s, codes name)
    node_text (chan dir elem) s = do (s', t) ← name_of elem s; some (s', dir_text dir ++ t)
    node_text (interface true text embeds methods) s = some (s, codes text)
    node_text (interface false text embeds methods) s = do
      (s', ts) ← each name_of embeds s
      (s'', us) ← each method_text methods s'
      some (s'', codes "interface{" ++ (joined_by (codes "; ") (ts ++ us) ++ codes "}"))
    node_text (map_of key elem) s = do
      (s', t) ← name_of key s
      (s'', u) ← name_of elem s'
      some (s'', codes "map[" ++ (t ++ (codes "]" ++ u)))
    node_text (named pkg name args underlying) s = do
      (s', t) ← object_name pkg name s
      (s'', u) ← type_args args s'
      some (s'', t ++ u)
    node_text (pointer elem) s = do (s', t) ← name_of elem s; some (s', codes "*" ++ t)
    node_text (signature pieces) s = do
      (s', ts) ← each piece_text pieces s
      some (s', codes "func" ++ joined_by [] ts)
    node_text (slice elem) s = do (s', t) ← name_of elem s; some (s', codes "[]" ++ t)
    node_text (struct fields) s = do
      (s', ts) ← each group_text (groups fields) s
      some (s', codes "struct{" ++ (joined_by (codes "; ") ts ++ codes "}"))
    node_text (type_param name) s = some (s, codes name)
    node_text (union terms) s = do
      (s', ts) ← each term_text terms s
      some (s', joined_by (codes " | ") ts)
    node_text other s = none

  module _ (heap : ℕ → Node) where
    -- `name`, on fuel for the depth of the type; none is a panic or the lack of fuel.
    unfoldable pub name : ℕ → ℕ → TypeAdder → Option (TypeAdder × Bytes)
    name zero type s = none
    name (suc fuel) type s = elim (s.names type) [
      | some text ↦ some (s, text)
      | none ↦ do
        (s', text) ← node_text (name fuel) (heap type) s
        some (record s' { names = update s'.names type (some text) }, text)
    ]

    unfoldable pub composite : ℕ → ℕ → TypeAdder → Option (TypeAdder × Bytes)
    composite fuel type s = do (s', t) ← name fuel type s; some (s', t ++ codes "{}")

    -- The cases of `zero`, given `zero` for the underlying type.
    unfoldable pub node_zero :
        (ℕ → TypeAdder → Option (TypeAdder × Bytes))
        → ℕ
        → ℕ
        → Node
        → TypeAdder
        → Option (TypeAdder × Bytes)
    node_zero zero_of fuel type (array len elem) s = composite fuel type s
    node_zero zero_of fuel type (struct fields) s = composite fuel type s
    node_zero zero_of fuel type (basic kind name) s = some (s, kind_zero kind)
    node_zero zero_of fuel type (named pkg name args underlying) s =
        elim (is_aggregate (heap underlying)) [
          | true ↦ composite fuel type s
          | false ↦ zero_of underlying s
        ]
    node_zero zero_of fuel type (type_param name) s =
        some (s, codes "*new(" ++ (codes name ++ codes ")"))
    node_zero zero_of fuel type (union terms) s = some (s, [])
    node_zero zero_of fuel type other s = none
    node_zero zero_of fuel type _ s = some (s, codes "nil")

    -- `zero`, on fuel for the steps to underlying types.
    unfoldable pub zero_value : ℕ → ℕ → ℕ → TypeAdder → Option (TypeAdder × Bytes)
    zero_value zero fuel type s = none
    zero_value (suc steps) fuel type s = elim (s.zeros type) [
      | some text ↦ some (s, text)
      | none ↦ do
        (s', text) ← node_zero (zero_value steps fuel) fuel type (heap type) s
        some (record s' { zeros = update s'.zeros type (some text) }, text)
    ]

    -- `addType`; the underlying type of a named type is not a named one, so two steps are enough.
    unfoldable pub add_type : ℕ → ℕ → TypeAdder → Option (TypeAdder × (Bytes × Bytes))
    add_type fuel type s = do
      (s', text) ← name fuel type s
      (s'', zero_text) ← zero_value 2 fuel type s'
      some (s'', (text, zero_text))
