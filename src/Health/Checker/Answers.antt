-- ===== src/Health/Checker/Answers.antt =====
-- What `Check` of health/checker.go makes of the answers of the dependencies.
use clue.Base.{
  ℕ, ◌≡◌, refl, ap, ap₂, ◌∙◌, Bool, true, false, ◌&&◌, String, Option, none, some, List, [], ◌∷◌,
  Bytes, insert, lookup, lookup-insert, str_eq, if◌then◌else◌, arith,
}
use clue.Log.Memory.{Runtime}
use clue.Log.Logger.{Context, Store}
use clue.Log.Operations.{with}
use clue.Health.Pinger.{Pinger}
use clue.Health.Checker.{Progress, background, answered, check_dep, check_deps, check}

-- An answer by the name of its service: none, or the text of an error.
abbrev pub Answer : Type 0
Answer = String × Option Bytes

abbrev pub is_ok : Option Bytes → Bool
is_ok none = true
is_ok (some err) = false

abbrev pub status_text : Option Bytes → String
status_text none = "OK"
status_text (some err) = "NOT OK"

-- The answers of the dependencies, each pinged once, in order, with an empty context.
unfoldable pub answers : {W : Type 0} → W → List (Pinger W Context) → List Answer
answers w [] = []
answers w (dep ∷ deps) = let (w', err) = dep.ping w background in (dep.name, err) ∷ answers w' deps

abbrev pub all_ok : List Answer → Bool
all_ok [] = true
all_ok ((n, err) ∷ l) = is_ok err && all_ok l

-- The text of the last answer under a name, or `old` if there is none.
abbrev pub last_status : String → List Answer → Option String → Option String
last_status n [] old = old
last_status n ((m, err) ∷ l) old =
    last_status n l (if str_eq m n then some (status_text err) else old)

module _ ⦃rt : Runtime⦄ {W : Type 0} (now uptime : W → ℕ) (version : String) (ctx : Context) where
  pub check_dep_lem :
      (c : Progress W) (dep : Pinger W Context)
      → check_dep now uptime version ctx c dep
        ≡ answered now uptime version ctx dep.name
            (record c {
              world = (dep.ping c.world background).0;
              status = insert dep.name "OK" c.status;
            })
            (dep.ping c.world background).1
  unfolding check_dep with
  check_dep_lem c dep = refl

  pub answered-healthy :
      (name : String) (c : Progress W) (err : Option Bytes)
      → ((answered now uptime version ctx name c err).healthy ≡ (c.healthy && is_ok err))
        × ((answered now uptime version ctx name c err).world ≡ c.world)
  unfolding answered
  answered-healthy name c none = (ground arith, refl)
  answered-healthy name c (some err) = (ground arith, refl)

  answered-status :
      (n : String) (dep : Pinger W Context) (c : Progress W) (w : W) (err : Option Bytes)
      → lookup n
          (answered now uptime version ctx dep.name
            (record c { world = w; status = insert dep.name "OK" c.status })
            err).status
        ≡ (if str_eq dep.name n then some (status_text err) else lookup n c.status)
  unfolding answered
  answered-status n dep c w none = lookup-insert dep.name n "OK" c.status
  answered-status n dep c w (some err) =
      lookup-insert dep.name n "NOT OK" (insert dep.name "OK" c.status)
      ∙ rw (lookup-insert dep.name n "OK" c.status) (ground arith)

  check_deps_lem :
      (c : Progress W) (deps : List (Pinger W Context)) (n : String)
      → ((check_deps now uptime version ctx c deps).healthy
          ≡ (c.healthy && all_ok (answers c.world deps)))
        × (lookup n (check_deps now uptime version ctx c deps).status
            ≡ last_status n (answers c.world deps) (lookup n c.status))
  unfolding check_deps answers
  check_deps_lem c [] n = (ground arith, refl)
  check_deps_lem c (dep ∷ deps) n =
      let c' = check_dep now uptime version ctx c dep in
      let (w, err) = dep.ping c.world background in
      let e = check_dep_lem c dep in
      let (h, v) =
        answered-healthy dep.name (record c { world = w; status = insert dep.name "OK" c.status })
          err in
      let (ih, is) = check_deps_lem c' deps n in
      let world : c'.world ≡ w = ap (λ (p : Progress W). p.world) e ∙ v in
      (
        ih
            ∙ ap₂ (λ b v. b && all_ok (answers v deps)) (ap (λ (p : Progress W). p.healthy) e ∙ h)
                world
            ∙ and_assoc c.healthy (is_ok err) _,
        is
            ∙ ap₂ (λ v s. last_status n (answers v deps) s) world
                (ap (λ (p : Progress W). lookup n p.status) e ∙ answered-status n dep c w err),
      )
    where
      and_assoc : (a b c : Bool) → ((a && b) && c) ≡ (a && (b && c))
      and_assoc a b c = ground arith

  -- `Check` says that the service is healthy exactly if every dependency, pinged once in order with
  -- an empty context, answers without an error; and the status of a name is that of the last answer
  -- under it, none if no dependency has it.
  pub check_lem :
      (deps : List (Pinger W Context)) (w : W) (st : Store) (n : String)
      → ((check now uptime version ctx deps w st).1.1 ≡ all_ok (answers w deps))
        × (lookup n (check now uptime version ctx deps w st).1.0.status
            ≡ last_status n (answers w deps) none)
  unfolding check
  check_lem deps w st n =
      check_deps_lem (record { world = w; store = st; status = []; healthy = true }) deps n
