-- ===== src/Generator/Command/Generated.antt =====
-- That the command returns the first error that it logs and leaves no temporary file
-- (mock/cmd/cmg/pkg/generate.go).
use clue.Base.{◌≡◌, Option, none, List, [], ◌∷◌, ◌++◌, Bytes, ◌⊎◌}
use clue.Generator.Mocks.{Interface, Mocks}
use clue.Generator.Parse.{LoadedPackage}
use clue.Generator.Command.{Operation, Answer, Event, Ending, done, error, panicked, Paths}
use clue.Generator.Command.Events.{
  logged_errors, created_files, closed_files, removed_files, IsRendered,
}
use clue.Generator.Command.Files.{Cause}

-- The ending with the first of some errors, or with nil.
abbrev pub ending_of : List Bytes → Ending
ending_of [] = done
ending_of (err ∷ errs) = error err

module _ {W : Type 0} (perform : W → Operation → W × Answer) (paths : Paths)
    (make_mocks : LoadedPackage → List Interface → Option Mocks) where
  abbrev Why : Type 0
  Why = Cause perform paths make_mocks

  -- The files of some events are closed, removed and rendered as they should be.
  abbrev pub Final : List Bytes → List Event → Ending → Type 0
  Final errs es end =
      ((end ≡ ending_of (errs ++ logged_errors es)) ⊎ ((end ≡ panicked) × Why))
      × (closed_files es ≡ created_files es)
      × (removed_files es ≡ created_files es)
      × IsRendered none es
