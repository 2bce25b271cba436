-- ===== src/Log/Operations/Effects.antt =====
-- What the operations on a context write: `Error` and `Fatal`, `Print`, `Info`, `Debug`, and the
-- contexts with no logger.
use clue.Base.{
  ℕ, ◌≡◌, refl, ap, ◌∙◌, inl, inr, Bool, true, false, Option, none, some, List, [], ◌∷◌, ◌++◌, map,
  append-nil, Bytes, codes, subst, Bool-cases, if◌then◌else◌,
}
use clue.Log.Value.{Fielder, kv, string}
use clue.Log.Memory.{Runtime}
use clue.Log.Logger.{
  Severity, severity_info, severity_error, Line, Context, Store, options_of, log_to, log, flush,
  is_debug, on_logger, Options,
}
use clue.Log.Logger.Journal.{Journal, written, journal_flush, journal_emit, journal_log}
use clue.Log.Logger.Ready.{IsReady, Refined, journal, flush-Refined}
use clue.Log.Logger.Refinement.{Refined-trans, call_line, call_line-Refined, log_to-Refined}
use clue.Log.Operations.{flush_and_disable_buffering, with, error, error_fields, print}

-- The journal of a call that does not buffer and is no debug entry.
journal_unbuffered :
    (o : Options) (j : Journal) (ln : Line)
    → is_debug ln.severity ≡ false
    → let j' = if o.debug then journal_flush o j else j in
      journal_log o j ln false ≡ record j' { output = j'.output ++ written o ln ∷ [] }
unfolding journal_log journal_flush journal_emit
journal_unbuffered o j ln kind = elim (Bool-cases o.debug) [
  | inl on ↦ elim (Bool-cases j.flushed) [ inl f ↦ rw (on, f) | inr f ↦ rw (on, f) ]
  | inr off ↦ elim (Bool-cases j.flushed) [ inl f ↦ rw (off, kind, f) | inr f ↦ rw (off, kind, f) ]
]

-- The lines that `flush` writes.
abbrev pub waiting : Journal → List Line
waiting j = if j.flushed then [] else j.pending

-- The journal of a call that is no debug entry, after a flush.
journal_flushed :
    (o : Options) (j : Journal) (ln : Line)
    → is_debug ln.severity ≡ false
    → journal_log o (journal_flush o j) ln true ≡ record {
      output = (j.output ++ map (written o) (waiting j)) ++ written o ln ∷ [];
      pending = if j.flushed then j.pending else [];
      flushed = true;
    }
unfolding journal_log journal_flush journal_emit
journal_flushed o j ln kind = elim (Bool-cases o.debug) [
  | inl on ↦ elim (Bool-cases j.flushed) [
    | inl f ↦ rw (on, f, append-nil j.output)
    | inr f ↦ rw (on, f)
  ]
  | inr off ↦ elim (Bool-cases j.flushed) [
    | inl f ↦ rw (off, kind, f, append-nil j.output)
    | inr f ↦ rw (off, kind, f)
  ]
]

-- The pairs of an error's line.
abbrev pub error_pairs : Option Bytes → List Fielder → List Fielder
error_pairs none keyvals = keyvals
error_pairs (some text) keyvals = kv (record { key = codes "err"; val = string text }) ∷ keyvals

error_fields-error_pairs :
    (err : Option Bytes) (keyvals : List Fielder)
    → error_fields err keyvals ≡ error_pairs err keyvals
error_fields-error_pairs none keyvals = refl
error_fields-error_pairs (some text) keyvals = refl

module _ ⦃rt : Runtime⦄ (st : Store) (p : ℕ) (ctx : Context) (carries : ctx.logger ≡ some p)
    (r : IsReady st p) where
  pub log_carries :
      (now : ℕ) (sev : Severity) (buffer : Bool) (fielders : List Fielder)
      → log st ctx now sev buffer fielders ≡ log_to st p ctx now sev buffer fielders
  unfolding log
  log_carries now sev buffer fielders =
      ap (λ o. on_logger o st (λ q. log_to st q ctx now sev buffer fielders)) carries

  -- On a logger in order, `Print` leaves it in order and writes its line at once, in front of the
  -- lines that wait; with debug on, the waiting lines are written first.
  pub print_lem :
      (now : ℕ) (fielders : List Fielder)
      → let o = options_of st p in
        let j = if o.debug then journal_flush o (journal st p) else journal st p in
        IsReady (print st ctx now fielders) p
        × (journal (print st ctx now fielders) p ≡ record j {
          output = j.output ++ written o (call_line st p ctx now severity_info fielders) ∷ [];
        })
  unfolding print
  print_lem now fielders =
      let a = log_to-Refined st p ctx now severity_info false fielders r in
      rw (log_carries now severity_info false fielders)
        (a.ready, a.journals ∙ journal_unbuffered (options_of st p) (journal st p) _ refl)

  flush_carries : flush_and_disable_buffering st ctx ≡ flush st p
  unfolding flush_and_disable_buffering
  flush_carries = ap (λ o. on_logger o st (flush st)) carries

  log_of_flush :
      (now : ℕ) (fielders : List Fielder)
      → log (flush st p) ctx now severity_error true fielders
        ≡ log_to (flush st p) p ctx now severity_error true fielders
  unfolding log
  log_of_flush now fielders =
      ap
        (λ o.
          on_logger o (flush st p)
            (λ q. log_to (flush st p) q ctx now severity_error true fielders))
        carries

  -- The journal when an error with these pairs has been logged.
  abbrev pub journal_of_error : ℕ → List Fielder → Journal
  journal_of_error now pairs =
      let o = options_of st p in
      let j = journal st p in
      record {
        output =
            (j.output ++ map (written o) (waiting j))
            ++ written o (call_line st p ctx now severity_error pairs) ∷ [];
        pending = if j.flushed then j.pending else [];
        flushed = true;
      }

  error_fields-Refined :
      (now : ℕ) (err : Option Bytes) (keyvals : List Fielder)
      → Refined st p
          (journal_of_error now (error_fields err keyvals))
          (error st ctx now err keyvals)
  unfolding error
  error_fields-Refined now err keyvals =
      let f = flush-Refined st p r in
      let fields = error_fields err keyvals in
      let a = log_to-Refined (flush st p) p ctx now severity_error true fields f.ready in
      rw (flush_carries, log_of_flush now fields)
        (Refined-trans f (record {
          ready = a.ready;
          journals =
              a.journals
              ∙ (λ i.
                  journal_log (f.same_options i) (f.journals i)
                    (call_line-Refined ctx now severity_error fields f i) true)
              ∙ journal_flushed (options_of st p) (journal st p) _ refl;
          same_options = a.same_options;
          same_pairs = a.same_pairs;
        }))

  -- On a logger in order, `Error` leaves it in order, with its options and pairs. It writes the lines
  -- that wait if the logger still buffers, in order, and then its own line, whose first pair has the
  -- key "err" and the error's text if there is an error, in front of the caller's pairs; from then on
  -- the logger does not buffer, and it keeps no line that it has written.
  pub error-Refined :
      (now : ℕ) (err : Option Bytes) (keyvals : List Fielder)
      → Refined st p (journal_of_error now (error_pairs err keyvals)) (error st ctx now err keyvals)
  error-Refined now err keyvals =
      subst (λ pairs. Refined st p (journal_of_error now pairs) (error st ctx now err keyvals))
        (error_fields-error_pairs err keyvals) (error_fields-Refined now err keyvals)

-- A context with no logger: nothing is written and nothing changes, `With` returns the context.
pub no_logger :
    ⦃rt : Runtime⦄ (st : Store) (ctx : Context) (now : ℕ) (sev : Severity) (buffer : Bool)
    (err : Option Bytes) (fielders : List Fielder)
    → ctx.logger ≡ none
    → (log st ctx now sev buffer fielders ≡ st)
      × (error st ctx now err fielders ≡ st)
      × (flush_and_disable_buffering st ctx ≡ st)
      × (with st ctx fielders ≡ (st, ctx))
unfolding log error flush_and_disable_buffering with
no_logger st ctx now sev buffer err fielders e = rw e (refl, refl, refl, refl)
