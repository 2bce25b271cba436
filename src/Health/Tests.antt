-- ===== src/Health/Tests.antt =====
-- The package health on three dependencies, one of which fails.
use clue.Base.{
  ℕ, suc, ◌≤◌, ◌≡◌, ◌↔◌, refl, false, String, Option, none, some, List, [], ◌∷◌, Bytes, codes,
  lookup,
}
use clue.Log.Logger.{Context}
use clue.Log.Logger.Ready.{Refined, journal}
use clue.Log.Tests.{doubling, some_store, some_context, some_options, some_store-IsReady}
use clue.Health.Pinger.{Pinger, Response, responded, ping_client, ping_client_lem}
use clue.Health.Checker.{check}
use clue.Health.Checker.Answers.{answers, check_lem}
use clue.Health.Checker.Logs.{logged, failure_lines, check-Refined}
use clue.Health.Handler.{handle, handle-check}

-- The world counts the pings.
abbrev answering : String → Option Bytes → Pinger ℕ Context
answering name err = record { name = name; ping = λ w ctx. (suc w, err) }

abbrev three_deps : List (Pinger ℕ Context)
three_deps = answering "a" none ∷ answering "b" (some (codes "down")) ∷ answering "a" none ∷ []

check_lem_example :
    ((check (λ w. w) (λ w. w) "1" some_context three_deps 5 some_store).1.1 ≡ false)
    × (lookup "b" (check (λ w. w) (λ w. w) "1" some_context three_deps 5 some_store).1.0.status
        ≡ some "NOT OK")
unfolding answers
check_lem_example = check_lem (λ w. w) (λ w. w) "1" some_context three_deps 5 some_store "b"

handle-check_example :
    (handle (λ h. []) (check (λ w. w) (λ w. w) "1" some_context three_deps 5 some_store).1).status
    ≡ 503
unfolding answers
handle-check_example =
    handle-check (λ w. w) (λ w. w) "1" some_context (λ h. []) three_deps 5 some_store

check-Refined_example :
    Refined some_store 0
      (logged some_options
        (journal some_store 0)
        (failure_lines some_store 0 some_context (λ w. w) 5 three_deps))
      (check (λ w. w) (λ w. w) "1" some_context three_deps 5 some_store).0.1
check-Refined_example =
    check-Refined (λ w. w) (λ w. w) "1" some_context some_store 0 refl three_deps 5
      some_store-IsReady

-- A service whose status is the number in the world.
abbrev answers_world : ℕ → ℕ → ℕ → ℕ × Response
answers_world w ctx req = (w, responded w)

ping_client_lem_example :
    (ping_client (λ u. some 0) answers_world (λ name. codes name) "a" 0 300 0).1 ≡ none
    ↔ ((code : ℕ) × ((responded 300 ≡ responded code) × ((200 ≤ code) × (code ≤ 300))))
ping_client_lem_example =
    ping_client_lem (λ u. some 0) answers_world (λ name. codes name) "a" 0 300 0
