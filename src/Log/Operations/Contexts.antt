-- ===== src/Log/Operations/Contexts.antt =====
-- `Context`: a new logger, and the options of one that is there.
use clue.Base.{
  Bytes, ℕ, ◌≡◌, refl, sym, ap, subst, ◌∙◌, inl, inr, Bool, true, false, Option, none, some, List,
  [], map, append-nil, update, update_self, All, Bool-cases, if◌then◌else◌, arith,
}
use clue.Log.Memory.{nil_slice}
use clue.Log.Memory.Laws.{IsSlice}
use clue.Log.Logger.{Context, Options, Logger, Store, LogOption, options_of, line, flush}
use clue.Log.Logger.Gather.{HasNil, HasNil-IsSlice}
use clue.Log.Logger.Journal.{Journal, journal_flush}
use clue.Log.Logger.Ready.{IsReady, IsKept, journal, flush-Refined, flush_flushed, flush_buffering}
use clue.Log.Operations.{apply_options, buffering_disabled, find_or_make, configure, context}

abbrev fresh_logger : ℕ → Logger
fresh_logger a = record { options = a; keyvals = nil_slice; entries = []; flushed = false }

-- The store in which `Context` has made a logger and applied its options.
made : Options → Store → List LogOption → Store
unfolding find_or_make configure
made defaults st opts = configure (find_or_make defaults st none).0 st.next_logger opts

made_logger :
    (defaults : Options) (st : Store) (opts : List LogOption)
    → (made defaults st opts).logger st.next_logger ≡ fresh_logger st.next_options
unfolding made
made_logger defaults st opts = update_self st.logger st.next_logger (fresh_logger st.next_options)

made_options :
    (defaults : Options) (st : Store) (opts : List LogOption)
    → options_of (made defaults st opts) st.next_logger ≡ apply_options defaults opts
unfolding made
made_options defaults st opts =
    let os = update st.options st.next_options defaults in
    let at = update_self st.logger st.next_logger (fresh_logger st.next_options) in
    ap (λ (l : Logger). update os l.options (apply_options (os l.options) opts) l.options) at
    ∙ update_self os st.next_options (apply_options (os st.next_options) opts)
    ∙ ap (λ o. apply_options o opts) (update_self st.options st.next_options defaults)

made-IsReady :
    (defaults : Options) (st : Store) (opts : List LogOption)
    → HasNil st.memory
    → (apply_options defaults opts).keyvals ≡ nil_slice
    → IsReady (made defaults st opts) st.next_logger
      × (journal (made defaults st opts) st.next_logger
          ≡ record { output = st.output; pending = []; flushed = false })
unfolding made
made-IsReady defaults st opts nil none_of_options =
    let st2 = made defaults st opts in
    let e = made_logger defaults st opts in
    (
      record {
        has_nil = nil;
        own = subst (λ (l : Logger). IsSlice st.memory l.keyvals) (sym e) (HasNil-IsSlice nil);
        no_pairs =
            ap (λ (o : Options). o.keyvals) (made_options defaults st opts) ∙ none_of_options;
        kept = subst (λ (l : Logger). All (IsKept st.memory l.keyvals) l.entries) (sym e) tt;
      },
      ap
          (λ (l : Logger). record {
            output = st.output;
            pending = map (line st.memory) l.entries;
            flushed = l.flushed;
          })
          e,
    )

flush_options : (st : Store) (p q : ℕ) → options_of (flush st p) q ≡ options_of st q
flush_options st p q = elim (Bool-cases (st.logger p).flushed) [
  | inl off ↦ rw (flush_flushed st p off)
  | inr on ↦ rw (flush_buffering st p on) (ap st.options same)
]
  where
    same :
        (update st.logger p (record (st.logger p) { entries = []; flushed = true }) q).options
        ≡ (st.logger q).options
    same = ground arith

-- The last step of `Context`.
abbrev flush_if : Store → ℕ → Bool → Store
flush_if st p b = if b then flush st p else st

abbrev pub flushed_if : Options → Bool → Journal → Journal
flushed_if o b j = if b then journal_flush o j else j

flush_if_lem :
    (st : Store) (p : ℕ) (b : Bool) (j : Journal)
    → IsReady st p
    → journal st p ≡ j
    → ((q : ℕ) → options_of (flush_if st p b) q ≡ options_of st q)
      × IsReady (flush_if st p b) p
      × (journal (flush_if st p b) p ≡ flushed_if (options_of st p) b j)
flush_if_lem st p true j r e =
    let f = flush-Refined st p r in
    (flush_options st p, f.ready, f.journals ∙ ap (journal_flush (options_of st p)) e)
flush_if_lem st p false j r e = (λ q. refl, r, e)

-- `Context` once the logger is known.
abbrev finish : Store → Context → ℕ → Store × Context
finish st ctx p = (
  flush_if st p (buffering_disabled (options_of st p).disable_buffering ctx),
  record ctx { logger = some p },
)

context_found :
    (defaults : Options) (st : Store) (ctx : Context) (opts : List LogOption) (found : Option ℕ)
    → ctx.logger ≡ found
    → let (st1, p) = find_or_make defaults st found in
      context defaults st ctx opts ≡ finish (configure st1 p opts) ctx p
unfolding context
context_found defaults st ctx opts found e =
    let (st1, p) = find_or_make defaults st ctx.logger in
    let st2 = configure st1 p opts in
    subst
      (λ o.
        let (st1, p) = find_or_make defaults st o in
        context defaults st ctx opts ≡ finish (configure st1 p opts) ctx p)
      e
      (pair_if (buffering_disabled (options_of st2 p).disable_buffering ctx) (flush st2 p) st2
        (record ctx { logger = some p }))
  where
    pair_if :
        {A B : Type 0} (b : Bool) (x y : A) (c : B)
        → ◌≡◌ {A = A × B} (if b then (x, c) else (y, c)) (if b then x else y, c)
    pair_if true x y c = refl
    pair_if false x y c = refl

nothing_waits :
    (st : Store) (p : Options) (b : Bool)
    → flushed_if p b (record { output = st.output; pending = []; flushed = false })
      ≡ record { output = st.output; pending = []; flushed = b }
unfolding journal_flush
nothing_waits st p true =
    ap (λ (out : List (ℕ × Bytes)). record { output = out; pending = []; flushed = true })
      (append-nil st.output)
nothing_waits st p false = refl

-- `Context` on a context with no logger, in a memory whose nil slice is empty, with options that give
-- no pairs: the new context carries a new logger, in order, with the default options changed by the
-- arguments in turn. Nothing is written, nothing waits, and the logger buffers unless its options
-- disable buffering for the given context.
pub context_new :
    (defaults : Options) (st : Store) (ctx : Context) (opts : List LogOption)
    → HasNil st.memory
    → (apply_options defaults opts).keyvals ≡ nil_slice
    → ctx.logger ≡ none
    → let (st', c) = context defaults st ctx opts in
      let o = apply_options defaults opts in
      (c.logger ≡ some st.next_logger)
      × (options_of st' st.next_logger ≡ o)
      × IsReady st' st.next_logger
      × (journal st' st.next_logger ≡ record {
        output = st.output;
        pending = [];
        flushed = buffering_disabled o.disable_buffering ctx;
      })
unfolding made find_or_make
context_new defaults st ctx opts nil none_of_options e =
    let o = made_options defaults st opts in
    let off =
      buffering_disabled (options_of (made defaults st opts) st.next_logger).disable_buffering
        ctx in
    let (r, j) = made-IsReady defaults st opts nil none_of_options in
    let (same, ready, done) = flush_if_lem (made defaults st opts) st.next_logger off _ r j in
    rw (context_found defaults st ctx opts none e) (
      refl,
      same st.next_logger ∙ o,
      ready,
      done
          ∙ nothing_waits st (options_of (made defaults st opts) st.next_logger) off
          ∙ ap
              (λ (p : Options). record {
                output = st.output;
                pending = [];
                flushed = buffering_disabled p.disable_buffering ctx;
              })
              o,
    )

-- `Context` on a context with a logger in order, with options that give no pairs: the logger stays
-- and is in order, its options are changed in place by the arguments in turn, so that every logger
-- that shares them has the new ones, and it is flushed if the new options disable buffering.
pub context_again :
    (defaults : Options) (st : Store) (ctx : Context) (opts : List LogOption) (p : ℕ)
    → IsReady st p
    → (apply_options (options_of st p) opts).keyvals ≡ nil_slice
    → ctx.logger ≡ some p
    → let (st', c) = context defaults st ctx opts in
      let o = apply_options (options_of st p) opts in
      (c.logger ≡ some p)
      × ((q : ℕ) → (st.logger q).options ≡ (st.logger p).options → options_of st' q ≡ o)
      × IsReady st' p
      × (journal st' p ≡ flushed_if o (buffering_disabled o.disable_buffering ctx) (journal st p))
unfolding configure find_or_make
context_again defaults st ctx opts p r none_of_options e =
    let o = apply_options (options_of st p) opts in
    let st1 = configure st p opts in
    let set : (q : ℕ) → (st.logger q).options ≡ (st.logger p).options → options_of st1 q ≡ o =
      λ q d. ap (options_at o) d ∙ update_self st.options (st.logger p).options o in
    let own = set p refl in
    let r1 : IsReady st1 p = record {
      has_nil = r.has_nil;
      own = r.own;
      no_pairs = ap (λ (a : Options). a.keyvals) own ∙ none_of_options;
      kept = r.kept;
    } in
    let off = buffering_disabled (options_of st1 p).disable_buffering ctx in
    let (same, ready, done) = flush_if_lem st1 p off (journal st p) r1 refl in
    rw (context_found defaults st ctx opts (some p) e) (
      refl,
      λ q d. same q ∙ set q d,
      ready,
      done ∙ ap (λ a. flushed_if a (buffering_disabled a.disable_buffering ctx) (journal st p)) own,
    )
  where
    options_at : Options → ℕ → Options
    options_at o a = update st.options (st.logger p).options o a
