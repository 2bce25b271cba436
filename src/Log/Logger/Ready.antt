-- ===== src/Log/Logger/Ready.antt =====
-- Loggers in order, and that `flush` does what the journal of `Journal` does.
use clue.Base.{
  ℕ, ◌<◌, ◌≡◌, ◌≢◌, refl, sym, ap, ap₂, subst, ◌∙◌, ◌⊎◌, inl, inr, Bool, true, false, List, [], ◌∷◌,
  ◌++◌, map, append-nil, append_assoc, Bytes, update, update_self, All, Bool-cases,
}
use clue.Log.Memory.{Memory, Slice, nil_slice, view}
use clue.Log.Memory.Laws.{IsSlice}
use clue.Log.Logger.{
  Entry, Options, Logger, Store, options_of, line, write_entry, write_entries, flush,
}
use clue.Log.Logger.Gather.{HasNil}
use clue.Log.Logger.Journal.{Journal, written, journal_flush}

-- The buffered entry lies in allocated memory, and not in the logger's own array.
abbrev pub IsKept : Memory → Slice → Entry → Type 0
IsKept mem own e =
    (e.key_vals.addr < mem.next) × ((e.key_vals.addr ≡ 0) ⊎ (e.key_vals.addr ≢ own.addr))

-- What holds of each logger that `Context` and `With` make and `log` is called on.
pub record IsReady (st : Store) (p : ℕ) : Type 0 where
  pub has_nil : HasNil st.memory
  pub own : IsSlice st.memory (st.logger p).keyvals
  pub no_pairs : (options_of st p).keyvals ≡ nil_slice
  pub kept : All (IsKept st.memory (st.logger p).keyvals) (st.logger p).entries

abbrev pub journal : Store → ℕ → Journal
journal st p = record {
  output = st.output;
  pending = map (line st.memory) (st.logger p).entries;
  flushed = (st.logger p).flushed;
}

write_entries_lem :
    (st : Store) (p : ℕ) (es : List Entry)
    → write_entries st p es ≡ record st {
      output = st.output ++ map (written (options_of st p)) (map (line st.memory) es);
    }
unfolding write_entries write_entry
write_entries_lem st p [] =
    ap (λ (out : List (ℕ × Bytes)). record st { output = out }) (sym (append-nil st.output))
write_entries_lem st p (e ∷ es) =
    write_entries_lem (write_entry st p e) p es
    ∙ ap (λ (out : List (ℕ × Bytes)). record st { output = out }) (append_assoc st.output _ _)

-- What `flush` makes of a store whose logger still buffers.
pub flush_buffering :
    (st : Store) (p : ℕ)
    → (st.logger p).flushed ≡ false
    → flush st p ≡ record st {
      output =
          st.output ++ map (written (options_of st p)) (map (line st.memory) (st.logger p).entries);
      logger = update st.logger p (record (st.logger p) { entries = []; flushed = true });
    }
unfolding flush
flush_buffering st p e = rw e (
    ap
      (λ (s : Store). record s {
        logger = update s.logger p (record (s.logger p) { entries = []; flushed = true });
      })
      (write_entries_lem st p (st.logger p).entries))

pub flush_flushed : (st : Store) (p : ℕ) → (st.logger p).flushed ≡ true → flush st p ≡ st
unfolding flush
flush_flushed st p e = rw e

-- `st'` is a store that `st` may become: its logger is in order, has the same options and pairs, and
-- has done what the journal `j` says.
pub record Refined (st : Store) (p : ℕ) (j : Journal) (st' : Store) : Type 0 where
  pub ready : IsReady st' p
  pub journals : journal st' p ≡ j
  pub same_options : options_of st' p ≡ options_of st p
  pub same_pairs : view st'.memory (st'.logger p).keyvals ≡ view st.memory (st.logger p).keyvals

module _ (st st' : Store) (p : ℕ) (es : List Entry) (b : Bool) (r : IsReady st p)
    (e : st'.logger p ≡ record (st.logger p) { entries = es; flushed = b })
    (same : st'.options ≡ st.options) (nil : HasNil st'.memory)
    (own : IsSlice st'.memory (st.logger p).keyvals)
    (pairs : view st'.memory (st.logger p).keyvals ≡ view st.memory (st.logger p).keyvals)
    (kept : All (IsKept st'.memory (st.logger p).keyvals) es) where
  same_options_at : options_of st' p ≡ options_of st p
  same_options_at = ap₂ (λ (f : ℕ → Options) (l : Logger). f l.options) same e

  pub state-Refined :
      Refined st p
        (record { output = st'.output; pending = map (line st'.memory) es; flushed = b })
        st'
  state-Refined = record {
    ready = record {
      has_nil = nil;
      own = subst (λ (l : Logger). IsSlice st'.memory l.keyvals) (sym e) own;
      no_pairs = ap (λ (o : Options). o.keyvals) same_options_at ∙ r.no_pairs;
      kept = subst (λ (l : Logger). All (IsKept st'.memory l.keyvals) l.entries) (sym e) kept;
    };
    journals =
        ap
          (λ (l : Logger). record {
            output = st'.output;
            pending = map (line st'.memory) l.entries;
            flushed = l.flushed;
          })
          e;
    same_options = same_options_at;
    same_pairs = ap (λ (l : Logger). view st'.memory l.keyvals) e ∙ pairs;
  }

-- `flush` on a logger in order leaves it in order, with its options and pairs, and writes and keeps
-- what the journal does: nothing if buffering is off, or else the waiting lines in order, after which
-- none waits and buffering is off.
pub flush-Refined :
    (st : Store) (p : ℕ)
    → IsReady st p
    → Refined st p (journal_flush (options_of st p) (journal st p)) (flush st p)
unfolding journal_flush
flush-Refined st p r = elim (Bool-cases (st.logger p).flushed) [
  | inl off ↦
      rw (flush_flushed st p off, off)
        (state-Refined st st p (st.logger p).entries true r
          (ap (λ b. record (st.logger p) { flushed = b }) off) refl r.has_nil r.own refl r.kept)
  | inr on ↦
      rw (flush_buffering st p on, on)
        (state-Refined st _ p [] true r (update_self st.logger p _) refl r.has_nil r.own refl tt)
]
