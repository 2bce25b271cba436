-- ===== src/Health/Checker/Logs.antt =====
-- What `Check` of health/checker.go logs.
use clue.Base.{
  ℕ, ◌≡◌, refl, sym, ap, subst, ◌∙◌, true, String, Option, none, some, List, [], ◌∷◌, ◌++◌, map,
  append-nil, append_assoc, Bytes, codes, insert, if◌then◌else◌,
}
use clue.Log.Memory.{Runtime}
use clue.Log.Logger.{Context, Store, Options, Line, severity_error, options_of}
use clue.Log.Logger.Journal.{Journal, written}
use clue.Log.Logger.Ready.{IsReady, Refined, journal}
use clue.Log.Logger.Refinement.{Refined-trans, call_line, call_line-Refined}
use clue.Log.Operations.{error, error_fields, message}
use clue.Log.Operations.Effects.{waiting, error-Refined}
use clue.Health.Pinger.{Pinger}
use clue.Health.Checker.{Progress, background, answered, check_deps, check}
use clue.Health.Checker.Answers.{check_dep_lem, answered-healthy}

-- The journal in which errors with these lines have been logged: the waiting lines come first.
abbrev pub logged : Options → Journal → List Line → Journal
logged o j [] = j
logged o j (ln ∷ ls) = record {
  output = (j.output ++ map (written o) (waiting j)) ++ map (written o) (ln ∷ ls);
  pending = if j.flushed then j.pending else [];
  flushed = true;
}

logged-cons :
    (o : Options) (j : Journal) (ln : Line) (ls : List Line)
    → logged o (logged o j (ln ∷ [])) ls ≡ logged o j (ln ∷ ls)
logged-cons o j ln [] = refl
logged-cons o j ln (m ∷ ms) =
    ap
      (λ (out : List (ℕ × Bytes)). record {
        output = out;
        pending = if j.flushed then j.pending else [];
        flushed = true;
      })
      (ap (λ l. l ++ map (written o) (m ∷ ms)) (append-nil _)
        ∙ append_assoc (j.output ++ map (written o) (waiting j)) (written o ln ∷ [])
            (map (written o) (m ∷ ms)))

-- The line of an answer, if it is an error.
abbrev pub failure_line : Store → ℕ → Context → ℕ → Option Bytes → List Line
failure_line st p ctx now none = []
failure_line st p ctx now (some err) =
    call_line st p ctx now severity_error (error_fields (some err) (message (codes "ping failed")))
    ∷ []

-- The lines of the answers of the dependencies that fail, with the clock's reading after each ping.
pub failure_lines :
    {W : Type 0} → Store → ℕ → Context → (W → ℕ) → W → List (Pinger W Context) → List Line
failure_lines st p ctx now w [] = []
failure_lines st p ctx now w (dep ∷ deps) =
    let (w', err) = dep.ping w background in
    failure_line st p ctx (now w') err ++ failure_lines st p ctx now w' deps

module _ ⦃rt : Runtime⦄ {W : Type 0} (now uptime : W → ℕ) (version : String) (ctx : Context)
    (st : Store) (p : ℕ) (carries : ctx.logger ≡ some p) where
  answered-Refined :
      (name : String) (c : Progress W) (err : Option Bytes) (j : Journal)
      → Refined st p j c.store
      → Refined st p
          (logged (options_of st p) j (failure_line st p ctx (now c.world) err))
          (answered now uptime version ctx name c err).store
  unfolding answered
  answered-Refined name c none j a = a
  answered-Refined name c (some err) j a =
      let fields = message (codes "ping failed") in
      Refined-trans a (
        subst (λ k. Refined c.store p k (error c.store ctx (now c.world) (some err) fields))
          (λ i. logged (a.same_options i) (a.journals i) (
            call_line-Refined ctx (now c.world) severity_error (error_fields (some err) fields) a i
            ∷ []))
          (error-Refined c.store p ctx carries a.ready (now c.world) (some err) fields))

  logged-append :
      (o : Options) (j : Journal) (now' : ℕ) (err : Option Bytes) (ls : List Line)
      → logged o (logged o j (failure_line st p ctx now' err)) ls
        ≡ logged o j (failure_line st p ctx now' err ++ ls)
  logged-append o j now' none ls = refl
  logged-append o j now' (some err) ls = logged-cons o j _ ls

  check_deps-Refined :
      (c : Progress W) (deps : List (Pinger W Context)) (j : Journal)
      → Refined st p j c.store
      → Refined st p
          (logged (options_of st p) j (failure_lines st p ctx now c.world deps))
          (check_deps now uptime version ctx c deps).store
  unfolding check_deps failure_lines
  check_deps-Refined c [] j a = a
  check_deps-Refined c (dep ∷ deps) j a =
      let (w, err) = dep.ping c.world background in
      let d = record c { world = w; status = insert dep.name "OK" c.status } in
      let done = answered now uptime version ctx dep.name d err in
      let first = answered-Refined dep.name d err j a in
      let rest = check_deps-Refined done deps _ first in
      let o = options_of st p in
      subst
        (λ q.
          Refined st p (logged o j (failure_lines st p ctx now c.world (dep ∷ deps)))
            (check_deps now uptime version ctx q deps).store)
        (sym (check_dep_lem now uptime version ctx c dep))
        (subst (λ k. Refined st p k (check_deps now uptime version ctx done deps).store)
          (ap
              (λ v.
                logged o (logged o j (failure_line st p ctx (now w) err))
                  (failure_lines st p ctx now v deps))
              (answered-healthy now uptime version ctx dep.name d err).1
            ∙ logged-append o j (now w) err (failure_lines st p ctx now w deps))
          rest)

  -- On a context whose logger is in order, `Check` leaves the logger in order with its options and
  -- pairs. If no dependency fails it logs nothing; or else the logger writes the lines that wait, if
  -- it still buffers, and then an error line for each failing dependency, in their order, with the
  -- error's text, and from then on it does not buffer.
  pub check-Refined :
      (deps : List (Pinger W Context)) (w : W)
      → IsReady st p
      → Refined st p
          (logged (options_of st p) (journal st p) (failure_lines st p ctx now w deps))
          (check now uptime version ctx deps w st).0.1
  unfolding check
  check-Refined deps w r =
      check_deps-Refined (record { world = w; store = st; status = []; healthy = true }) deps
        (journal st p)
        (record { ready = r; journals = refl; same_options = refl; same_pairs = refl })
