-- ===== src/Generator/Main.antt =====
-- The program cmg (mock/cmd/cmg/main.go). The package flag parses arguments; none is its exit.
use clue.Base.{
  ℕ, Bool, ◌||◌, String, Option, none, some, List, [], ◌∷◌, ◌++◌, Bytes, codes, str_eq, ◌⊎◌,
  if◌then◌else◌,
}
use clue.Generator.Command.{Operation, Answer, Paths, Run, Ending, done, error, panicked, generate}
use clue.Generator.Mocks.{Interface, Mocks}
use clue.Generator.Parse.{LoadedPackage}
use clue.Generator.Version.{version}

-- What the flags of a set are after parsing, and the arguments that are left.
pub record Flags : Type 0 where
  pub debug : Bool
  pub help : Bool
  pub h : Bool
  pub args : List String

-- How the program ends: by the package flag; with the usage, or a message on standard error, and a
-- code; with a line on standard output; or as `Generate` does, with the code of the error.
pub data Exit : Type 0 where
  flag_exit : Exit
  usage : ℕ → Exit
  message : Bytes → ℕ → Exit
  line : Bytes → Exit
  finished : Exit
  exited : ℕ → Exit
  crashed : Exit

-- The flags with which a command goes on; none is the command help, which shows the usage.
abbrev pub flags_of : (List String → Option Flags) → String → List String → Option (Option Flags)
flags_of parse cmd rest =
    if str_eq cmd "gen" || str_eq cmd "version"
    then some (parse rest)
    else if str_eq cmd "help"
    then none
    else some (parse (cmd ∷ rest))

abbrev pub code_of : Ending → Exit
code_of done = finished
code_of (error err) = exited 1
code_of panicked = crashed

module _ {W : Type 0} (perform : W → Operation → W × Answer) (paths : Paths)
    (make_mocks : LoadedPackage → List Interface → Option Mocks)
    (load_packages : W → List String → W × (Bytes ⊎ List LoadedPackage)) (quote : Bytes → Bytes)
    (parse : List String → Option Flags) where
  -- The second switch. The flag -debug is an option of the logger, and `Generate` makes no debug logs.
  abbrev pub run_command : String → String → List String → Run W → Run W × Exit
  run_command program cmd args st =
      if str_eq cmd "gen"
      then (let (w, loaded) = load_packages st.world args in
          let (st', end) = generate perform paths make_mocks [] loaded (record st { world = w }) in
          (st', code_of end))
      else if str_eq cmd "version"
      then (st, line (codes program ++ (codes " version " ++ version)))
      else (
        st,
        message
            (codes "unknown command " ++ (quote (codes cmd) ++ codes ", use \"--help\" for usage"))
            1,
      )

  abbrev pub with_flags : String → String → Option (Option Flags) → Run W → Run W × Exit
  with_flags program cmd none st = (st, usage 0)
  with_flags program cmd (some none) st = (st, flag_exit)
  with_flags program cmd (some (some flags)) st =
      if flags.h || flags.help then (st, usage 0) else run_command program cmd flags.args st

  -- `main`, on os.Args
  unfoldable pub main : List String → Run W → Run W × Exit
  main [] st = (st, crashed)
  main (program ∷ []) st = (st, usage 1)
  main (program ∷ (cmd ∷ rest)) st = with_flags program cmd (flags_of parse cmd rest) st
