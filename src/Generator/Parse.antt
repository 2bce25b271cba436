-- ===== src/Generator/Parse.antt =====
-- The packages that the generator reads (mock/cmd/cmg/pkg/parse). A package is what
-- golang.org/x/tools/go/packages loads of it: its errors, the names of its Go files, what ast.Walk
-- visits in each file of its syntax, and what go/types knows of its methods.
pub mod Lookups
use clue.Base.{
  ℕ, Bool, String, Option, none, some, List, [], ◌∷◌, ◌++◌, Bytes, ◌⊎◌, inl, inr, ◌>>=◌,
}
use clue.Generator.Methods.{Parameter, Method}
use clue.Generator.Mocks.{Package}

-- ast.Field: the names, if there are any, and the type of the expression.
pub record AstField : Type 0 where
  pub names : Option (List String)
  pub type : ℕ

-- A field of an ast.InterfaceType: a method's names with its parameters and results, or an embedded
-- type.
pub data AstMethod : Type 0 where
  func_type : List String → List AstField → Option (List AstField) → AstMethod
  embedded_type : AstMethod

pub record AstInterface : Type 0 where
  pub name : String
  pub type_params : Option (List AstField)
  pub methods : List AstMethod

-- A node that ast.Walk visits: the *ast.TypeSpec of an interface, or another.
pub data AstNode : Type 0 where
  interface_spec : AstInterface → AstNode
  other_node : AstNode

-- `variadic` looks an interface up in the scope of the package, by its name, and then a method, and says
-- whether the method is variadic. It is none if the scope has no such name, as that of an interface
-- declared in a function, or if what has the name has no such method; the program panics then.
pub record LoadedPackage : Type 0 where
  pub name : String
  pub pkg_path : String
  pub mod_info : Option String
  pub errors : List Bytes
  pub go_files : List String
  pub syntax : List (List AstNode)
  pub variadic : String → String → Option Bool

-- `Interface`, with its file. The methods are what a call of `Methods` returns; none is its panic.
pub record FileInterface : Type 0 where
  pub name : String
  pub type_parameters : List Parameter
  pub methods : Option (List Method)
  pub file : String

abbrev pub named_values : List String → ℕ → List Parameter
named_values [] type = []
named_values (name ∷ names) type = record { name = name; type = type } ∷ named_values names type

-- One value for each name, and one for a field without names.
abbrev pub field_values : AstField → List Parameter
field_values f = elim f.names [
  | none ↦ record { name = ""; type = f.type } ∷ []
  | some names ↦ named_values names f.type
]

-- `Parameters`
unfoldable pub values : List AstField → List Parameter
values [] = []
values (f ∷ fs) = field_values f ++ values fs

-- `Results`
abbrev pub results_of : Option (List AstField) → List Parameter
results_of none = []
results_of (some fs) = values fs

unfoldable pub param_values : List AstField → List Parameter
param_values [] = []
param_values (f ∷ fs) = elim f.names [
  | none ↦ param_values fs
  | some names ↦ named_values names f.type ++ param_values fs
]

-- `TypeParameters`
abbrev pub type_parameters_of : Option (List AstField) → List Parameter
type_parameters_of none = []
type_parameters_of (some fs) = param_values fs

-- `ModPath`
abbrev pub mod_path : LoadedPackage → String
mod_path p = elim p.mod_info [ some path ↦ path | none ↦ "" ]

abbrev pub package_of : LoadedPackage → Package
package_of p = record { name = p.name; pkg_path = p.pkg_path; mod_path = mod_path p }

module _ (variadic : String → String → Option Bool) where
  unfoldable pub named_methods :
      String → List String → List AstField → Option (List AstField) → Option (List Method)
  named_methods i [] params results = some []
  named_methods i (name ∷ names) params results = do
    v ← variadic i name
    let m : Method = record {
      name = name;
      parameters = values params;
      results = results_of results;
      variadic = v;
    }
    ms ← named_methods i names params results
    some (m ∷ ms)

  -- `Methods`
  unfoldable pub methods_of : String → List AstMethod → Option (List Method)
  methods_of i [] = some []
  methods_of i (func_type names params results ∷ ms) = do
    here ← named_methods i names params results
    rest ← methods_of i ms
    some (here ++ rest)
  methods_of i (embedded_type ∷ ms) = methods_of i ms

  abbrev pub interface_of : String → AstInterface → FileInterface
  interface_of file i = record {
    name = i.name;
    type_parameters = type_parameters_of i.type_params;
    methods = methods_of i.name i.methods;
    file = file;
  }

  -- `Visit` of the nodes of a file
  unfoldable pub visit : String → List AstNode → List FileInterface
  visit file [] = []
  visit file (interface_spec i ∷ nodes) = interface_of file i ∷ visit file nodes
  visit file (other_node ∷ nodes) = visit file nodes

  -- Each Go file has the syntax of its index; none is the panic on an index out of range.
  unfoldable pub visit_files : List String → List (List AstNode) → Option (List FileInterface)
  visit_files [] syntax = some []
  visit_files (file ∷ files) [] = none
  visit_files (file ∷ files) (nodes ∷ syntax) = do
    rest ← visit_files files syntax
    some (visit file nodes ++ rest)

-- `Interfaces`: the first error, or the interfaces; none is its panic.
unfoldable pub interfaces : LoadedPackage → Bytes ⊎ Option (List FileInterface)
interfaces p = elim p.errors [
  | [] ↦ inr (visit_files p.variadic p.go_files p.syntax)
  | err ∷ errs ↦ inl err
]
