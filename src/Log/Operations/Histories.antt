-- ===== src/Log/Operations/Histories.antt =====
-- Histories of calls of `log` on one logger.
use clue.Base.{
  All, ℕ, ◌≡◌, refl, sym, ap, ap₂, subst, ◌∙◌, inl, inr, Bool, true, false, not, ◌&&◌, List, [],
  ◌∷◌, ◌++◌, map, append-nil, append_assoc, map-append, Bytes, Bool-cases, if◌then◌else◌,
}
use clue.Log.Value.{Fielder}
use clue.Log.Memory.{Runtime}
use clue.Log.Logger.{Severity, is_debug, Line, Context, Options, Store, options_of, log_to}
use clue.Log.Logger.Journal.{Journal, written, journal_flush, journal_emit, journal_log}
use clue.Log.Logger.Ready.{IsReady, Refined, journal}
use clue.Log.Logger.Refinement.{Refined-trans, call_line, call_line-Refined, log_to-Refined}

-- The arguments of a call of `log`, and the reading of the clock.
pub record LogCall : Type 0 where
  pub ctx : Context
  pub now : ℕ
  pub sev : Severity
  pub buffer : Bool
  pub fielders : List Fielder

abbrev pub line_of : Store → ℕ → LogCall → Line
line_of st p c = call_line st p c.ctx c.now c.sev c.fielders

pub journal_run : Options → Journal → List (Line × Bool) → Journal
journal_run o j [] = j
journal_run o j ((ln, buffer) ∷ cs) = journal_run o (journal_log o j ln buffer) cs

-- The lines that pass the test of the severity.
abbrev pub passed : Options → List Line → List Line
passed o [] = []
passed o (ln ∷ ls) = if not o.debug && is_debug ln.severity then passed o ls else ln ∷ passed o ls

-- What was written and what waits, in order.
abbrev pub everything : Options → Journal → List (ℕ × Bytes)
everything o j = j.output ++ map (written o) j.pending

-- A logger that does not buffer has nothing waiting.
abbrev pub IsSettled : Journal → Type 0
IsSettled j = j.flushed ≡ true → j.pending ≡ []

everything-flush : (o : Options) (j : Journal) → everything o (journal_flush o j) ≡ everything o j
unfolding journal_flush
everything-flush o j = elim (Bool-cases j.flushed) [
  | inl off ↦ rw off
  | inr on ↦ rw on (append-nil _)
]

IsSettled-flush : (o : Options) (j : Journal) → IsSettled j → IsSettled (journal_flush o j)
unfolding journal_flush
IsSettled-flush o j settled = elim (Bool-cases j.flushed) [
  | inl off ↦ rw off (λ _. settled off)
  | inr on ↦ rw on (λ _. refl)
]

everything-emit :
    (o : Options) (j : Journal) (ln : Line)
    → IsSettled j
    → everything o (journal_emit o j ln true) ≡ everything o j ++ written o ln ∷ []
unfolding journal_emit
everything-emit o j ln settled = elim (Bool-cases j.flushed) [
  | inl off ↦ rw (off, settled off) (append-nil _ ∙ rw (append-nil j.output) refl)
  | inr on ↦ rw on (
      ap (λ l. j.output ++ l) (map-append (written o) j.pending (ln ∷ []))
      ∙ sym (append_assoc j.output (map (written o) j.pending) (written o ln ∷ [])))
]

IsSettled-emit :
    (o : Options) (j : Journal) (ln : Line) → IsSettled j → IsSettled (journal_emit o j ln true)
unfolding journal_emit
IsSettled-emit o j ln settled = elim (Bool-cases j.flushed) [
  | inl off ↦ rw off (λ _. settled off)
  | inr on ↦ rw on (λ (e : false ≡ true). cc)
]

-- One buffering call adds its line at the end.
journal_log-everything :
    (o : Options) (j : Journal) (ln : Line)
    → IsSettled j
    → (everything o (journal_log o j ln true)
        ≡ everything o j ++ map (written o) (passed o (ln ∷ [])))
      × IsSettled (journal_log o j ln true)
unfolding journal_log
journal_log-everything o j ln settled = elim (Bool-cases (not o.debug && is_debug ln.severity)) [
  | inl skip ↦ rw skip (sym (append-nil _), settled)
  | inr go ↦ elim (Bool-cases (o.debug && not j.flushed)) [
    | inl first ↦
        rw (go, first)
          (
            everything-emit o (journal_flush o j) ln (IsSettled-flush o j settled)
                ∙ ap (λ l. l ++ written o ln ∷ []) (everything-flush o j),
            IsSettled-emit o (journal_flush o j) ln (IsSettled-flush o j settled),
          )
    | inr plain ↦ rw (go, plain) (everything-emit o j ln settled, IsSettled-emit o j ln settled)
  ]
]

passed-cons :
    (o : Options) (ln : Line) (ls : List Line)
    → passed o (ln ∷ ls) ≡ passed o (ln ∷ []) ++ passed o ls
passed-cons o ln ls = elim (Bool-cases (not o.debug && is_debug ln.severity)) [
  | inl skip ↦ rw skip
  | inr go ↦ rw go
]

journal_run-everything :
    (o : Options) (j : Journal) (ls : List Line)
    → IsSettled j
    → everything o (journal_run o j (map (λ ln. (ln, true)) ls))
      ≡ everything o j ++ map (written o) (passed o ls)
unfolding journal_run
journal_run-everything o j [] settled = sym (append-nil _)
journal_run-everything o j (ln ∷ ls) settled =
    let (step, settled') = journal_log-everything o j ln settled in
    journal_run-everything o (journal_log o j ln true) ls settled'
    ∙ ap (λ l. l ++ map (written o) (passed o ls)) step
    ∙ append_assoc (everything o j) _ _
    ∙ ap (λ l. everything o j ++ l)
        (sym (map-append (written o) (passed o (ln ∷ [])) (passed o ls))
          ∙ ap (map (written o)) (sym (passed-cons o ln ls)))

line_of-buffers :
    (st : Store) (p : ℕ) (cs : List LogCall)
    → All (λ c. c.buffer ≡ true) cs
    → map {B = Line × Bool} (λ c. (line_of st p c, c.buffer)) cs
      ≡ map (λ ln. (ln, true)) (map (line_of st p) cs)
line_of-buffers st p [] h = refl
line_of-buffers st p (c ∷ cs) h =
    ap₂ (λ (b : Bool) (l : List (Line × Bool)). (line_of st p c, b) ∷ l) h.0
      (line_of-buffers st p cs h.1)

module _ ⦃rt : Runtime⦄ where
  pub log_calls : Store → ℕ → List LogCall → Store
  log_calls st p [] = st
  log_calls st p (c ∷ cs) = log_calls (log_to st p c.ctx c.now c.sev c.buffer c.fielders) p cs

  -- Every history of calls leaves the logger in order, and writes and keeps what the journal does.
  pub log_calls-Refined :
      (st : Store) (p : ℕ) (cs : List LogCall)
      → IsReady st p
      → Refined st p
          (journal_run (options_of st p) (journal st p) (map (λ c. (line_of st p c, c.buffer)) cs))
          (log_calls st p cs)
  unfolding log_calls journal_run
  log_calls-Refined st p [] r = record {
    ready = r;
    journals = refl;
    same_options = refl;
    same_pairs = refl;
  }
  log_calls-Refined st p (c ∷ cs) r =
      let a = log_to-Refined st p c.ctx c.now c.sev c.buffer c.fielders r in
      Refined-trans a (
        subst
          (λ (j : Journal).
            Refined (log_to st p c.ctx c.now c.sev c.buffer c.fielders) p j
              (log_calls st p (c ∷ cs)))
          (λ i.
            journal_run (a.same_options i) (a.journals i)
              (map (λ d. (call_line-Refined d.ctx d.now d.sev d.fielders a i, d.buffer)) cs))
          (log_calls-Refined (log_to st p c.ctx c.now c.sev c.buffer c.fielders) p cs a.ready))

  -- On a logger that is in order, and has nothing waiting if it does not buffer, buffering neither
  -- loses, repeats nor reorders anything: after any calls of `log` that buffer (as those of `Debug`,
  -- `Info` and `Error` do), what was written and what waits are what they were before and, behind it
  -- in the order of the calls, the line of each call that is not a debug entry with debug off.
  pub log_calls-everything :
      (st : Store) (p : ℕ) (cs : List LogCall)
      → IsReady st p
      → IsSettled (journal st p)
      → All (λ c. c.buffer ≡ true) cs
      → everything (options_of st p) (journal (log_calls st p cs) p)
        ≡ everything (options_of st p) (journal st p)
          ++ map (written (options_of st p)) (passed (options_of st p) (map (line_of st p) cs))
  log_calls-everything st p cs r settled buffers =
      ap (everything (options_of st p)) (
        (log_calls-Refined st p cs r).journals
        ∙ ap (journal_run (options_of st p) (journal st p)) (line_of-buffers st p cs buffers))
      ∙ journal_run-everything (options_of st p) (journal st p) (map (line_of st p) cs) settled
