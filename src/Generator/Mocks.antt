-- ===== src/Generator/Mocks.antt =====
-- The mocks of a package (mock/cmd/cmg/pkg/generate/mocks.go, interface.go and method.go).
pub mod Methods
pub mod Complete
use clue.Base.{
  ℕ, suc, ◌+◌, String, Option, none, some, List, [], ◌∷◌, ◌++◌, Bytes, codes, length, ltb, map,
  if◌then◌else◌, ◌>>=◌,
}
use clue.Base.Int.{decimal}
use clue.Generator.Imports.{
  Import, Texts, ImportMaps, all_imports, all_keys, new_import, add_import,
}
use clue.Generator.Methods.{
  Parameter, Method, type_parameters, type_parameter_vars, interface_var, func_var,
}
use clue.Generator.Types.{Node, TypeAdder, add_type}

-- parse.Interface
pub record Interface : Type 0 where
  pub name : String
  pub type_parameters : List Parameter
  pub methods : List Method

-- parse.Package
pub record Package : Type 0 where
  pub name : String
  pub pkg_path : String
  pub mod_path : String

-- `method`, `interface_` and `mocks`; the typeMaps are those of the typeAdder.
pub record MockMethod : Type 0 where
  pub method : Method
  pub func : Bytes
  pub add : Bytes
  pub set : Bytes
  pub interface_var : String
  pub func_var : String

pub record MockInterface : Type 0 where
  pub interface : Interface
  pub methods : List MockMethod
  pub max_func_len : ℕ

pub record Mocks : Type 0 where
  pub pkg_name : Bytes
  pub pkg_path : String
  pub pkg_import : Import
  pub std_imports : List Import
  pub ext_imports : List Import
  pub int_imports : List Import
  pub interfaces : List MockInterface

abbrev pub or_empty : Option Bytes → Bytes
or_empty none = []
or_empty (some t) = t

-- typeNames[t]
abbrev pub name_in : TypeAdder → ℕ → Bytes
name_in s type = or_empty (s.names type)

abbrev pub longer : ℕ → ℕ → ℕ
longer len max_len = if ltb max_len len then len else max_len

module _ (texts : Texts) (mod_path : String) (heap : ℕ → Node) (fuel : ℕ) where
  unfoldable pub add_types : List Parameter → TypeAdder → Option TypeAdder
  add_types [] s = some s
  add_types (p ∷ ps) s = do (s', made) ← add_type texts mod_path heap fuel p.type s; add_types ps s'

  -- `newMethod`, with fuel for all parameters' names.
  unfoldable pub new_method : Interface → Method → TypeAdder → Option (TypeAdder × MockMethod)
  new_method i m s = do
    s' ← add_types m.parameters s
    s'' ← add_types m.results s'
    v ← interface_var texts.numbered (suc (length m.parameters)) m
    w ← func_var texts.numbered (suc (length m.parameters)) m
    some (
      s'',
      record {
        method = m;
        func = codes i.name ++ (codes m.name ++ codes "Func");
        add = codes "Add" ++ codes m.name;
        set = codes "Set" ++ codes m.name;
        interface_var = v;
        func_var = w;
      },
    )

  -- The loop over methods.
  unfoldable pub add_methods :
      Interface → List Method → MockInterface → TypeAdder → Option (TypeAdder × MockInterface)
  add_methods i [] iface s = some (s, iface)
  add_methods i (m ∷ ms) iface s = do
    (s', made) ← new_method i m s
    add_methods i ms
        (record iface {
          methods = iface.methods ++ made ∷ [];
          max_func_len =
              longer (length (made.func ++ type_parameters (name_in s') i.type_parameters))
                iface.max_func_len;
        })
        s'

  -- `newInterface`
  unfoldable pub new_interface : Interface → TypeAdder → Option (TypeAdder × MockInterface)
  new_interface i s = do
    s' ← add_types i.type_parameters s
    add_methods i i.methods (record { interface = i; methods = []; max_func_len = 0 }) s'

  unfoldable pub new_interfaces :
      List Interface → TypeAdder → Option (TypeAdder × List MockInterface)
  new_interfaces [] s = some (s, [])
  new_interfaces (i ∷ is) s = do
    (s', made) ← new_interface i s
    (s'', mades) ← new_interfaces is s'
    some (s'', made ∷ mades)

-- `Constructor`
abbrev pub constructor : MockInterface → Bytes
constructor i = codes "New" ++ codes i.interface.name

-- `ConstructorFmt`
abbrev pub constructor_fmt : MockInterface → Bytes → Bytes
constructor_fmt i pkg_name =
    let vars = type_parameter_vars i.interface.type_parameters in
    codes "%-"
    ++ (decimal (3 + length pkg_name + length (codes i.interface.name) + length vars) ++ codes "v")

-- `MaxFuncLenFmt`
abbrev pub max_func_len_fmt : MockInterface → Bytes
max_func_len_fmt i = codes "%-" ++ (decimal i.max_func_len ++ codes "v")

-- `ToolCommandLine`
abbrev pub tool_command_line : Mocks → Bytes
tool_command_line m = codes "$ cmg gen " ++ codes m.pkg_path

abbrev pub imports_in : List (String × Import) → List Import
imports_in m = map (λ (name, i). i) m

abbrev pub first_imports : Texts → ImportMaps
first_imports texts = record {
  std_imports = ("testing", new_import texts "testing" []) ∷ [];
  ext_imports = ("mock", new_import texts "goa.design/clue/mock" []) ∷ [];
  int_imports = [];
}

module _ (texts : Texts) (sort_by_path : List Import → List Import) (heap : ℕ → Node)
    (fuel : ℕ) where
  -- `NewMocks`, given sort.Slice by `PkgPath`, with the typeAdder that it leaves.
  unfoldable pub new_mocks : Bytes → Package → List Interface → Option (TypeAdder × Mocks)
  new_mocks prefix p interfaces = do
    let im = first_imports texts
    (im', pkg_import) ←
        add_import texts (suc (length (all_keys (all_imports im)))) p.mod_path im
          (new_import texts p.pkg_path (p.name ∷ []))
    (s, made) ←
        new_interfaces texts p.mod_path heap fuel interfaces
          (record { names = λ type. none; zeros = λ type. none; imports = im' })
    some (
      s,
      record {
        pkg_name = prefix ++ codes p.name;
        pkg_path = p.pkg_path;
        pkg_import = pkg_import;
        std_imports = sort_by_path (imports_in s.imports.std_imports);
        ext_imports = sort_by_path (imports_in s.imports.ext_imports);
        int_imports = sort_by_path (imports_in s.imports.int_imports);
        interfaces = made;
      },
    )
