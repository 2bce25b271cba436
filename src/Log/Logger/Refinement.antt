-- ===== src/Log/Logger/Refinement.antt =====
-- A logger over shared arrays writes and keeps what the journal of `Journal` does.
use clue.Base.{
  ℕ, ◌≡◌, ◌≢◌, refl, ap, ap₂, subst, ◌∙◌, ◌⊎◌, inl, inr, Bool, not, ◌&&◌, ◌||◌, List, [], ◌∷◌, ◌++◌,
  map, map-append, update, update_self, All, All-append, All-mono, Bool-cases, arith,
}
use clue.Log.Value.{Pair, Fielder}
use clue.Log.Memory.{Runtime, Memory, Slice, view}
use clue.Log.Memory.Laws.{IsSlice, all_fields}
use clue.Log.Truncate.Laws.{truncated}
use clue.Log.Logger.{
  Severity, is_debug, Entry, Line, Context, Options, Store, options_of, line, write_entry, flush,
  emit, log_entry, log_to,
}
use clue.Log.Logger.Gather.{Apart, Gathered, entry_pairs, gather-Gathered, made_by, IsSlice-mono}
use clue.Log.Logger.Journal.{Journal, written, journal_emit, journal_log}
use clue.Log.Logger.Ready.{IsKept, IsReady, journal, Refined, flush-Refined, state-Refined}

-- The line that a call of `log` makes.
abbrev pub call_line : Store → ℕ → Context → ℕ → Severity → List Fielder → Line
call_line st p ctx now sev fielders = record {
  time = now;
  severity = sev;
  key_vals = entry_pairs st.memory (st.logger p) (options_of st p) ctx fielders;
}

module _ ⦃rt : Runtime⦄ where
  -- The pieces of `log_entry` with the memory that `gather` made as a variable.
  module _ (st : Store) (p : ℕ) (r : IsReady st p) (mem : Memory) (made : Slice) (ps : List Pair)
      (g : Gathered st.memory (st.logger p).keyvals ps mem made) where
    own-Apart : Apart (st.logger p).keyvals (st.logger p).keyvals
    own-Apart = inr (inr (omega arith))

    kept-Apart :
        (e : Entry)
        → IsKept st.memory (st.logger p).keyvals e
        → Apart e.key_vals (st.logger p).keyvals
    kept-Apart e (lt, inl z) = inl z
    kept-Apart e (lt, inr ne) = inr (inl ne)

    still-IsKept : All (IsKept mem (st.logger p).keyvals) (st.logger p).entries
    still-IsKept =
        All-mono _ _ (st.logger p).entries (λ e k. (omega (arith, k.0, g.next_le), k.1)) r.kept

    same_lines :
        (es : List Entry)
        → All (IsKept st.memory (st.logger p).keyvals) es
        → map (line mem) es ≡ map (line st.memory) es
    same_lines [] k = refl
    same_lines (e ∷ es) k =
        ap₂
          (λ (ps : List Pair) (l : List Line).
            record { time = e.time; severity = e.severity; key_vals = ps } ∷ l)
          (g.frame e.key_vals k.0.0 (kept-Apart e k.0)) (same_lines es k.1)

    module _ (now : ℕ) (sev : Severity) where
      abbrev new_entry : Entry
      new_entry = record { time = now; severity = sev; key_vals = made }

      abbrev new_line : Line
      new_line = record { time = now; severity = sev; key_vals = ps }

      line-new_entry : line mem new_entry ≡ new_line
      line-new_entry =
          ap (λ (ks : List Pair). record { time = now; severity = sev; key_vals = ks }) g.shows

      made_apart : (made.addr ≡ 0) ⊎ (made.addr ≢ (st.logger p).keyvals.addr)
      made_apart = elim g.fresh [ inl z ↦ inl z | inr far ↦ inr (omega (arith, r.own.allocated)) ]

      own_sound : IsSlice mem (st.logger p).keyvals
      own_sound =
          IsSlice-mono g.next_le (g.lengths (st.logger p).keyvals.addr r.own.allocated) r.own

      own_pairs : view mem (st.logger p).keyvals ≡ view st.memory (st.logger p).keyvals
      own_pairs = g.frame (st.logger p).keyvals r.own.allocated own-Apart

      emit-Refined :
          (buffer : Bool)
          → Refined st p
              (journal_emit (options_of st p) (journal st p) new_line buffer)
              (emit (record st { memory = mem }) p new_entry buffer)
      unfolding emit write_entry journal_emit
      emit-Refined buffer = elim (Bool-cases ((st.logger p).flushed || not buffer)) [
        | inl now ↦ rw now (
            subst
              (λ (j : Journal).
                Refined st p j (write_entry (record st { memory = mem }) p new_entry))
              (ap₂
                (λ (ln : Line) (ls : List Line). record {
                  output = st.output ++ written (options_of st p) ln ∷ [];
                  pending = ls;
                  flushed = (st.logger p).flushed;
                })
                line-new_entry (same_lines (st.logger p).entries r.kept))
              (state-Refined st (write_entry (record st { memory = mem }) p new_entry) p
                (st.logger p).entries (st.logger p).flushed r refl refl g.has_nil own_sound
                own_pairs still-IsKept))
        | inr later ↦ rw later (
            subst (λ (j : Journal). Refined st p j (buffered (st.logger p).entries))
              (ap
                (λ (ls : List Line). record {
                  output = st.output;
                  pending = ls;
                  flushed = (st.logger p).flushed;
                })
                (map-append (line mem) (st.logger p).entries (new_entry ∷ [])
                  ∙ ap₂ (λ (ls : List Line) (ln : Line). ls ++ ln ∷ [])
                      (same_lines (st.logger p).entries r.kept) line-new_entry))
              (state-Refined st (buffered (st.logger p).entries) p
                ((st.logger p).entries ++ new_entry ∷ []) (st.logger p).flushed r
                (update_self st.logger p _) refl g.has_nil own_sound own_pairs
                (All-append _ (st.logger p).entries (new_entry ∷ []) still-IsKept
                  ((g.allocated, made_apart), tt))))
      ]
        where
          buffered : List Entry → Store
          buffered es = record st {
            memory = mem;
            logger = update st.logger p (record (st.logger p) { entries = es ++ new_entry ∷ [] });
          }

  pub log_entry-Refined :
      (st : Store) (p : ℕ) (ctx : Context) (now : ℕ) (sev : Severity) (buffer : Bool)
      (fielders : List Fielder)
      → IsReady st p
      → Refined st p
          (journal_emit
            (options_of st p)
            (journal st p)
            (call_line st p ctx now sev fielders)
            buffer)
          (log_entry st p ctx now sev buffer fielders)
  unfolding log_entry
  log_entry-Refined st p ctx now sev buffer fielders r =
      emit-Refined st p r _ _ _
        (gather-Gathered st.memory (st.logger p) (options_of st p) ctx fielders r.has_nil r.own
          r.no_pairs)
        now sev buffer

  -- A second step, after one that did `j`.
  pub Refined-trans :
      {st st' st'' : Store} {p : ℕ} {j j' : Journal}
      → Refined st p j st'
      → Refined st' p j' st''
      → Refined st p j' st''
  Refined-trans a b = record {
    ready = b.ready;
    journals = b.journals;
    same_options = b.same_options ∙ a.same_options;
    same_pairs = b.same_pairs ∙ a.same_pairs;
  }

  pub call_line-Refined :
      {st st' : Store} {p : ℕ} {j : Journal} (ctx : Context) (now : ℕ) (sev : Severity)
      (fielders : List Fielder)
      → Refined st p j st'
      → call_line st' p ctx now sev fielders ≡ call_line st p ctx now sev fielders
  call_line-Refined ctx now sev fielders a =
      ap₂
        (λ (o : Options) (ps : List Pair). record {
          time = now;
          severity = sev;
          key_vals = truncated o.maxsize ((ps ++ all_fields fielders) ++ made_by ctx o.kvfuncs);
        })
        a.same_options a.same_pairs

  flushed_first :
      {st st' st'' : Store} {p : ℕ} {j : Journal} (ctx : Context) (now : ℕ) (sev : Severity)
      (fielders : List Fielder) (buffer : Bool)
      → Refined st p j st'
      → Refined st' p
          (journal_emit
            (options_of st' p)
            (journal st' p)
            (call_line st' p ctx now sev fielders)
            buffer)
          st''
      → Refined st p
          (journal_emit (options_of st p) j (call_line st p ctx now sev fielders) buffer)
          st''
  flushed_first {st' = st'} {st'' = st''} {p = p} ctx now sev fielders buffer a b =
      Refined-trans a (
        subst (λ (j' : Journal). Refined st' p j' st'')
          (λ i.
            journal_emit (a.same_options i) (a.journals i)
              (call_line-Refined ctx now sev fielders a i) buffer)
          b)

  -- A call of `log` on a logger in order leaves it in order, with its options and pairs, and writes
  -- and keeps what the journal does with the line of the call: nothing if debug entries are off and
  -- the entry is one; else, with debug on, the waiting lines first; then the line itself, at once if
  -- buffering is off or the call does not buffer, or else behind the lines that wait.
  pub log_to-Refined :
      (st : Store) (p : ℕ) (ctx : Context) (now : ℕ) (sev : Severity) (buffer : Bool)
      (fielders : List Fielder)
      → IsReady st p
      → Refined st p
          (journal_log
            (options_of st p)
            (journal st p)
            (call_line st p ctx now sev fielders)
            buffer)
          (log_to st p ctx now sev buffer fielders)
  unfolding log_to journal_log
  log_to-Refined st p ctx now sev buffer fielders r =
      elim (Bool-cases (not (options_of st p).debug && is_debug sev)) [
        | inl skip ↦
            rw skip (record { ready = r; journals = refl; same_options = refl; same_pairs = refl })
        | inr go ↦ elim (Bool-cases ((options_of st p).debug && not (st.logger p).flushed)) [
          | inl first ↦
              rw (go, first)
                (flushed_first ctx now sev fielders buffer (flush-Refined st p r) (
                  log_entry-Refined (flush st p) p ctx now sev buffer fielders
                    (flush-Refined st p r).ready))
          | inr plain ↦ rw (go, plain) (log_entry-Refined st p ctx now sev buffer fielders r)
        ]
      ]
