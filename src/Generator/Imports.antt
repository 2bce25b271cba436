-- ===== src/Generator/Imports.antt =====
-- The imports of a generated file (mock/cmd/cmg/pkg/generate/import.go).
pub mod Names
pub mod Unique
use clue.Base.{
  ℕ, zero, suc, Bool, true, false, ◌||◌, String, Option, none, some, List, [], ◌∷◌, ◌++◌, str_eq,
  lookup, insert, if◌then◌else◌,
}

-- `import_`
pub record Import : Type 0 where
  pub pkg_path : String
  pub pkg_name : String
  pub alias : String

-- What the program uses of texts: path.Base, whether a text has a dot, whether a path is that of a
-- module or of a package in it, and fmt.Sprintf("%v%v") of a name and a number.
pub record Texts : Type 0 where
  pub base : String → String
  pub has_dot : String → Bool
  pub in_module : String → String → Bool
  pub numbered : String → ℕ → String

-- The imports by their names, in three maps.
pub record ImportMaps : Type 0 where
  pub std_imports : List (String × Import)
  pub ext_imports : List (String × Import)
  pub int_imports : List (String × Import)

abbrev pub all_imports : ImportMaps → List (List (String × Import))
all_imports im = im.std_imports ∷ (im.ext_imports ∷ (im.int_imports ∷ []))

-- The names in some maps.
abbrev pub keys : List (String × Import) → List String
keys [] = []
keys ((name, i) ∷ m) = name ∷ keys m

abbrev pub all_keys : List (List (String × Import)) → List String
all_keys [] = []
all_keys (m ∷ ms) = keys m ++ all_keys ms

-- `AliasOrPkgName`
abbrev pub alias_or_pkg_name : Import → String
alias_or_pkg_name i = if str_eq i.alias "" then i.pkg_name else i.alias

-- What a look for a name finds: an import of the same path, only others, or none.
pub data Look : Type 0 where
  found : Import → Look
  taken : Look
  free : Look

abbrev pub or_taken : Look → Look
or_taken (found i) = found i
or_taken taken = taken
or_taken free = taken

-- One round of the first loop of `addImport`, which goes on behind an import of another path, and one
-- of the inner loop for an alias, which does not.
abbrev pub seen : Option Import → String → Look → Look
seen none path rest = rest
seen (some i) path rest = if str_eq i.pkg_path path then found i else or_taken rest

abbrev pub seen_alias : Option Import → String → Look → Look
seen_alias none path rest = rest
seen_alias (some i) path rest = if str_eq i.pkg_path path then found i else taken

abbrev pub look : String → String → List (List (String × Import)) → Look
look name path [] = free
look name path (imports ∷ more) = seen (lookup name imports) path (look name path more)

abbrev pub look_alias : String → String → List (List (String × Import)) → Look
look_alias name path [] = free
look_alias name path (imports ∷ more) =
    seen_alias (lookup name imports) path (look_alias name path more)

pub data AliasSearch : Type 0 where
  existing : Import → AliasSearch
  unused : String → AliasSearch
  exhausted : AliasSearch

-- One round of the loop over aliases.
abbrev pub tried : String → Look → AliasSearch → AliasSearch
tried a (found i) rest = existing i
tried a taken rest = rest
tried a free rest = unused a

module _ (texts : Texts) where
  abbrev pub new_import : String → List String → Import
  new_import path [] = record { pkg_path = path; pkg_name = texts.base path; alias = "" }
  new_import path (name ∷ []) = record {
    pkg_path = path;
    pkg_name = name;
    alias = if str_eq name (texts.base path) then "" else name;
  }
  new_import path (name ∷ (alias ∷ [])) = record { pkg_path = path; pkg_name = name; alias = alias }
  new_import path (name ∷ (alias ∷ (more ∷ args))) = record {
    pkg_path = path;
    pkg_name = "";
    alias = "";
  }

  -- The loop over aliases from a number on, on fuel: its condition i <= math.MaxInt always holds.
  unfoldable pub find_alias : Import → ImportMaps → ℕ → ℕ → AliasSearch
  find_alias imp im zero i = exhausted
  find_alias imp im (suc fuel) i =
      let a = texts.numbered imp.pkg_name i in
      tried a (look_alias a imp.pkg_path (all_imports im)) (find_alias imp im fuel (suc i))

  abbrev pub put_import : String → String → Import → ImportMaps → ImportMaps
  put_import mod_path alias imp im =
      if texts.has_dot imp.pkg_path
      then if texts.in_module mod_path imp.pkg_path
        then record im { int_imports = insert alias imp im.int_imports }
        else record im { ext_imports = insert alias imp im.ext_imports }
      else record im { std_imports = insert alias imp im.std_imports }

  abbrev pub add_alias : String → Import → ImportMaps → AliasSearch → Option (ImportMaps × Import)
  add_alias mod_path imp im (existing i) = some (im, i)
  add_alias mod_path imp im (unused a) =
      let imp' = new_import imp.pkg_path (imp.pkg_name ∷ (a ∷ [])) in
      some (put_import mod_path a imp' im, imp')
  add_alias mod_path imp im exhausted = none

  abbrev pub add_looked : ℕ → String → ImportMaps → Import → Look → Option (ImportMaps × Import)
  add_looked fuel mod_path im imp (found i) = some (im, i)
  add_looked fuel mod_path im imp free = some (put_import mod_path imp.pkg_name imp im, imp)
  add_looked fuel mod_path im imp taken = add_alias mod_path imp im (find_alias imp im fuel 1)

  -- `addImport`; none is the lack of fuel.
  unfoldable pub add_import : ℕ → String → ImportMaps → Import → Option (ImportMaps × Import)
  add_import fuel mod_path im imp =
      add_looked fuel mod_path im imp (look imp.pkg_name imp.pkg_path (all_imports im))
