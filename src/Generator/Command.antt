-- ===== src/Generator/Command.antt =====
-- The command cmg gen (mock/cmd/cmg/pkg/generate.go). What the operating system and the template do is
-- `perform`, on a state of the world; log calls and operations are recorded as events.
pub mod Events
pub mod Runs
pub mod Files
pub mod Generated
use clue.Base.{
  ℕ, Bool, true, false, not, String, Option, none, some, List, [], ◌∷◌, ◌++◌, Bytes, codes, map,
  ◌⊎◌, inl, inr, lookup, insert, if◌then◌else◌, length, leb,
}
use clue.Base.Int.{decimal}
use clue.Generator.Imports.{Import, Texts}
use clue.Generator.Methods.{Method}
use clue.Generator.Mocks.{Interface, Package, Mocks, new_mocks}
use clue.Generator.Parse.{LoadedPackage, FileInterface, package_of, interfaces}
use clue.Generator.Types.{Node, joined_by}

-- The values that are logged, and the pairs of a context.
pub data Val : Type 0 where
  text : String → Val
  flag : Bool → Val
  texts_of : List String → Val

abbrev pub Context : Type 0
Context = List (String × Val)

-- Operations, on directories and files and of the template.
pub data Operation : Type 0 where
  mkdir_all : String → Operation
  create_temp : String → Bytes → Operation
  render : String → Mocks → Operation
  rename : String → String → Operation
  close : String → Operation
  remove : String → Operation

-- What an operation returns: an error's text, or nil with the name of a created file.
pub data Answer : Type 0 where
  failed : Bytes → Answer
  succeeded : String → Answer

pub data Event : Type 0 where
  did : Operation → Answer → Event
  printed : Context → Context → Event
  logged : Context → Bytes → Event

pub record Run (W : Type 0) : Type 0 where
  pub world : W
  pub events : List Event

-- How a function ends: with nil, an error or a panic.
pub data Ending : Type 0 where
  done : Ending
  error : Bytes → Ending
  panicked : Ending

-- log.With, log.Print and log.Error
abbrev pub with_pair : Context → String → Val → Context
with_pair ctx key val = ctx ++ (key, val) ∷ []

module _ {W : Type 0} where
  abbrev pub record_event : Event → Run W → Run W
  record_event e st = record st { events = st.events ++ e ∷ [] }

  -- log.Error(ctx, err); return err
  abbrev pub log_and_return : Context → Bytes → Run W → Run W × Ending
  log_and_return ctx err st = (record_event (logged ctx err) st, error err)

-- What an interface comes to: interfacesByFile behind it, an error, or the panic of `Methods`.
pub data Taken : Type 0 where
  kept : List (String × List Interface) → Taken
  refuses : Bytes → Taken
  crashes : Taken

-- The names of the methods that are not exported, and whether one is.
module _ (is_exported : String → Bool) where
  abbrev pub unexported_methods : List Method → List String
  unexported_methods [] = []
  unexported_methods (m ∷ ms) =
      if is_exported m.name then unexported_methods ms else m.name ∷ unexported_methods ms

  -- interfacesByFile with one more interface, if it has methods.
  abbrev pub by_file :
      FileInterface → List Method → List (String × List Interface) → List (String × List Interface)
  by_file i [] m = m
  by_file i (method ∷ methods) m =
      let found : Interface = record {
        name = i.name;
        type_parameters = i.type_parameters;
        methods = method ∷ methods;
      } in
      elim (lookup i.file m) [
        | none ↦ insert i.file (found ∷ []) m
        | some is ↦ insert i.file (is ++ found ∷ []) m
      ]

  -- The error on some methods.
  abbrev pub refused : List Method → Option Bytes
  refused methods = elim (unexported_methods methods) [
    | [] ↦ none
    | name ∷ names ↦
        some (codes "unexported methods: " ++ joined_by (codes ", ") (map codes (name ∷ names)))
  ]

  -- The round of the loop over interfaces: only an exported one is asked for its methods.
  abbrev pub with_methods :
      FileInterface → List (String × List Interface) → Option (List Method) → Taken
  with_methods i m none = crashes
  with_methods i m (some methods) = elim (refused methods) [
    | none ↦ kept (by_file i methods m)
    | some err ↦ refuses err
  ]

  abbrev pub taken : FileInterface → List (String × List Interface) → Taken
  taken i m = if is_exported i.name then with_methods i m i.methods else kept m

-- The parts of the library that paths need, and the package's own parameters.
pub record Paths : Type 0 where
  pub split : String → String × String
  pub join : String → String → String
  pub is_exported : String → Bool
  pub files_in_order : List (String × List Interface) → List (String × List Interface)

-- The mocks that `NewMocks` makes for a file; none is its panic or the lack of fuel.
module _ (texts : Texts) (sort_by_path : List Import → List Import) (heap : ℕ → Node)
    (fuel : ℕ) where
  abbrev pub mocks_of : LoadedPackage → List Interface → Option Mocks
  mocks_of p is = elim (new_mocks texts sort_by_path heap fuel (codes "mock") (package_of p) is) [
    | none ↦ none
    | some made_mocks ↦ some made_mocks.1
  ]

module _ {W : Type 0} (perform : W → Operation → W × Answer) where
  abbrev pub operate : Operation → Run W → Run W × Answer
  operate op st =
      let (w, answer) = perform st.world op in
      (record { world = w; events = st.events ++ did op answer ∷ [] }, answer)

  -- The deferred Close and Remove.
  abbrev pub cleaned : String → Run W × Ending → Run W × Ending
  cleaned file (st, end) =
      let (st', closed) = operate (close file) st in
      let (st'', removed) = operate (remove file) st' in (st'', end)

  abbrev pub renamed : Context → String → Run W × Answer → Run W × Ending
  renamed ctx file (st, failed err) = log_and_return ctx err st
  renamed ctx file (st, succeeded name) = (st, done)

  abbrev pub rendered : Context → String → String → Run W × Answer → Run W × Ending
  rendered ctx file mocks_file (st, failed err) = log_and_return ctx err st
  rendered ctx file mocks_file (st, succeeded name) =
      renamed ctx file (operate (rename file mocks_file) st)

  -- From NewMocks on, whose panic is none.
  abbrev pub made : Context → String → String → Option Mocks → Run W → Run W × Ending
  made ctx file mocks_file none st = (st, panicked)
  made ctx file mocks_file (some mocks) st =
      rendered ctx file mocks_file (operate (render file mocks) st)

module _ {W : Type 0} (perform : W → Operation → W × Answer) (paths : Paths)
    (make_mocks : LoadedPackage → List Interface → Option Mocks) where
  abbrev pub created :
      Context → LoadedPackage → List Interface → String → Run W × Answer → Run W × Ending
  created ctx p is mocks_file (st, failed err) = log_and_return ctx err st
  created ctx p is mocks_file (st, succeeded file) =
      cleaned perform file (made perform ctx file mocks_file (make_mocks p is) st)

  abbrev pub in_directory :
      Context
      → LoadedPackage
      → List Interface
      → String
      → String
      → String
      → Run W × Answer
      → Run W × Ending
  in_directory ctx p is mocks_dir base_file mocks_file (st, failed err) = log_and_return ctx err st
  in_directory ctx p is mocks_dir base_file mocks_file (st, succeeded name) =
      created ctx p is mocks_file
        (operate perform (create_temp mocks_dir (codes ".*." ++ codes base_file)) st)

  -- `generateFile`
  unfoldable pub generate_file :
      Context → LoadedPackage → String → List Interface → Run W → Run W × Ending
  generate_file ctx p file is st =
      let ctx' = with_pair ctx "file" (text file) in
      let names = map (λ (i : Interface). i.name) is in
      let st' = record_event (printed ctx' (("interface names", texts_of names) ∷ [])) st in
      let (dir, base_file) = paths.split file in
      let mocks_dir = paths.join dir "mocks" in
      let mocks_file = paths.join mocks_dir base_file in
      let ctx'' = with_pair ctx' "mocks file" (text mocks_file) in
      in_directory ctx'' p is mocks_dir base_file mocks_file
        (operate perform (mkdir_all mocks_dir) st')

  -- The loop over files, up to the first error.
  unfoldable pub generate_files :
      Context → LoadedPackage → List (String × List Interface) → Run W → Run W × Ending
  generate_files ctx p [] st = (st, done)
  generate_files ctx p ((file, is) ∷ files) st =
      let (st', end) = generate_file ctx p file is st in
      elim end [
        | done ↦ generate_files ctx p files st'
        | error err ↦ (st', error err)
        | panicked ↦ (st', panicked)
      ]

  -- The loop over interfaces, and what is behind it.
  unfoldable pub collect :
      Context
      → LoadedPackage
      → List FileInterface
      → List (String × List Interface)
      → Run W
      → Run W × Ending
  collect ctx p [] m st = generate_files ctx p (paths.files_in_order m) st
  collect ctx p (i ∷ is) m st =
      let ctx' = with_pair ctx "interface name" (text i.name) in
      let st' =
        record_event
          (printed ctx'
            (("is exported", flag (paths.is_exported i.name)) ∷ (("file", text i.file) ∷ [])))
          st in
      elim (taken paths.is_exported i m) [
        | kept m' ↦ collect ctx p is m' st'
        | refuses err ↦ log_and_return ctx' err st'
        | crashes ↦ (st', panicked)
      ]

  -- Behind `Interfaces`, whose panic is none.
  abbrev pub from_interfaces :
      Context → LoadedPackage → Bytes ⊎ Option (List FileInterface) → Run W → Run W × Ending
  from_interfaces ctx p (inl err) st = log_and_return ctx err st
  from_interfaces ctx p (inr none) st = (st, panicked)
  from_interfaces ctx p (inr (some is)) st = collect ctx p is [] st

  -- `generatePackage`
  unfoldable pub generate_package : Context → LoadedPackage → Run W → Run W × Ending
  generate_package ctx p st =
      let ctx' = with_pair ctx "pkg name" (text p.name) in
      let st' = record_event (printed ctx' (("pkg path", text p.pkg_path) ∷ [])) st in
      from_interfaces ctx' p (interfaces p) st'

  -- The loop over packages, with the errors so far.
  unfoldable pub generate_packages :
      Context → List LoadedPackage → List Bytes → Run W → Run W × Ending
  generate_packages ctx [] [] st = (st, done)
  generate_packages ctx [] (err ∷ errs) st = (st, error err)
  generate_packages ctx (p ∷ ps) errs st =
      let (st', end) = generate_package ctx p st in
      elim end [
        | done ↦ generate_packages ctx ps errs st'
        | error err ↦ generate_packages ctx ps (errs ++ err ∷ []) st'
        | panicked ↦ (st', panicked)
      ]

  -- `Generate`, given what parse.LoadPackages returns.
  unfoldable pub generate : Context → Bytes ⊎ List LoadedPackage → Run W → Run W × Ending
  generate ctx (inl err) st = log_and_return ctx err st
  generate ctx (inr ps) st = generate_packages ctx ps [] st
