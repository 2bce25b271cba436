-- ===== src/Mock/Tests.antt =====
-- Runs of mock/mock.go on concrete mocks.
use clue.Base.{ℕ, ◌≡◌, [], ◌∷◌}
use clue.Mock.{Mock, new, add, set_func}
use clue.Mock.Script.{Script, start}
use clue.Mock.Refinement.{Refines, new-Refines, add-Refines, set_func-Refines}
use clue.Mock.Histories.{adds, nexts, asks, run, script_run, run-eq-script_run}

abbrev two_mocks : Mock ℕ
two_mocks = set_func (add (add new "get" 1) "put" 2) "list" 7

abbrev two_lines : Script ℕ
two_lines = record { done = []; todo = ("get", 1) ∷ ("put", 2) ∷ []; permanent = ("list", 7) ∷ [] }

two_mocks-Refines : Refines two_mocks two_lines
two_mocks-Refines =
    set_func-Refines _ _ "list" 7 (add-Refines _ _ "put" 2 (add-Refines _ _ "get" 1 new-Refines))

run-eq-script_run_example :
    run new (adds "get" 1 ∷ asks ∷ nexts "put" ∷ nexts "get" ∷ asks ∷ [])
    ≡ script_run {F = ℕ} start (adds "get" 1 ∷ asks ∷ nexts "put" ∷ nexts "get" ∷ asks ∷ [])
run-eq-script_run_example =
    run-eq-script_run (adds "get" 1 ∷ asks ∷ nexts "put" ∷ nexts "get" ∷ asks ∷ [])
