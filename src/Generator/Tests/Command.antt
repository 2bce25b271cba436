-- ===== src/Generator/Tests/Command.antt =====
-- The command on a package with one interface, whose file cannot be rendered.
use clue.Base.{
  String, ℕ, suc, ◌≡◌, refl, true, false, Option, none, some, List, [], ◌∷◌, codes, inr, ◌>>=◌,
}
use clue.Generator.Command.{
  Operation, render, create_temp, Answer, failed, succeeded, Run, Ending, panicked, Paths, mocks_of,
  generate, generate_packages, generate_package, collect,
}
use clue.Generator.Version.{version}
use clue.Generator.Main.{Flags, Exit, usage, line, main}
use clue.Generator.Mocks.{Interface, Mocks}
use clue.Generator.Parse.{
  LoadedPackage, interface_spec, other_node, func_type, interfaces, visit_files, visit, methods_of,
  named_methods,
}
use clue.Generator.Tests.Mocks.{path_texts}
use clue.Generator.Tests.Types.{heap}
use clue.Base.Int.{decimal}

abbrev views : LoadedPackage
views = record {
  name = "views";
  pkg_path = "example.com/views";
  mod_info = some "example.com";
  errors = [];
  go_files = "views/views.go" ∷ [];
  syntax =
      (other_node
        ∷ (interface_spec (record {
          name = "Renderer";
          type_params = none;
          methods =
              func_type ("Render" ∷ []) (record { names = some ("m" ∷ []); type = 0 } ∷ []) none
              ∷ [];
        })
            ∷ []))
      ∷ [];
  variadic = λ i name. some false;
}

-- Each operation counts; only the rendering fails.
abbrev perform : ℕ → Operation → ℕ × Answer
perform n (render file mocks) = (suc n, failed (codes "no space left"))
perform n (create_temp dir pattern) = (suc n, succeeded "views/mocks/.1.views.go")
perform n _ = (suc n, succeeded "")

abbrev paths : Paths
paths = record {
  split = λ file. ("views/", "views.go");
  join = λ dir name. name;
  is_exported = λ name. true;
  files_in_order = λ files. files;
}

abbrev make_mocks : LoadedPackage → List Interface → Option Mocks
make_mocks = mocks_of path_texts (λ l. l) heap 2

abbrev start : Run ℕ
start = record { world = 0; events = [] }

-- An exported interface in a function, which the scope of the package does not have, and one more Go file
-- than there is syntax.
abbrev local_views : LoadedPackage
local_views = record views { variadic = λ i name. none }

abbrev more_files : LoadedPackage
more_files = record views { go_files = "views/views.go" ∷ ("views/cgo.go" ∷ []) }

abbrev ending_for : LoadedPackage → Ending
ending_for p = (generate perform paths make_mocks [] (inr (p ∷ [])) start).1

local_views_test : ending_for local_views ≡ panicked
unfolding generate generate_packages generate_package collect interfaces visit_files visit
    methods_of named_methods ◌>>=◌
local_views_test = refl

more_files_test : ending_for more_files ≡ panicked
unfolding generate generate_packages generate_package interfaces visit_files ◌>>=◌
more_files_test = refl

version_test : version ≡ codes "v0.18.1"
unfolding decimal
version_test = refl

-- The program without flags.
abbrev no_flags : List String → Option Flags
no_flags args = some (record { debug = false; help = false; h = false; args = args })

abbrev exit_of : List String → Exit
exit_of args =
    (main perform paths make_mocks (λ n patterns. (n, inr (views ∷ []))) (λ t. t) no_flags args
      start).1

version_exit_test : exit_of ("cmg" ∷ ("version" ∷ [])) ≡ line (codes "cmg version v0.18.1")
unfolding main decimal
version_exit_test = refl

help_test : exit_of ("cmg" ∷ ("help" ∷ [])) ≡ usage 0
unfolding main
help_test = refl

no_command_test : exit_of ("cmg" ∷ []) ≡ usage 1
unfolding main
no_command_test = refl
