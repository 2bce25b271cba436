-- ===== src/Log/Operations/Children.antt =====
-- `With`: that the old and the new logger are in order, and what each of them has written and keeps.
use clue.Base.{
  ℕ, suc, ◌≡◌, ◌≢◌, refl, sym, ap, ap₂, subst, ◌∙◌, inl, inr, Bool, true, ◌||◌, some, List, [], ◌∷◌,
  map, update, update_self, update_ne, All, All-mono, Bool-cases, if◌then◌else◌, arith,
}
use clue.Log.Value.{Pair, Fielder}
use clue.Log.Memory.{Runtime, Memory, Slice, view, merge}
use clue.Log.Memory.Laws.{IsSlice, Grown, merge-Grown}
use clue.Log.Logger.{
  Entry, Line, Context, Options, Logger, Store, options_of, on_logger, line, flush,
}
use clue.Log.Logger.Gather.{HasNil, HasNil-Grown, IsSlice-mono, view_at_nil}
use clue.Log.Logger.Journal.{Journal, journal_flush}
use clue.Log.Logger.Ready.{IsReady, IsKept, journal, flush-Refined, flush_buffering, flush_flushed}
use clue.Log.Operations.{buffering_disabled, copy_logger, with_logger, with}

-- A logger put at the next free address.
abbrev put : Store → Logger → Store
put st l = record st {
  logger = update st.logger st.next_logger l;
  next_logger = suc st.next_logger;
}

-- What `flush` leaves as it was.
record Kept (st st' : Store) : Type 0 where
  memory : st'.memory ≡ st.memory
  options : st'.options ≡ st.options
  next_logger : st'.next_logger ≡ st.next_logger

flush-Kept : (st : Store) (p : ℕ) → Kept st (flush st p)
flush-Kept st p = elim (Bool-cases (st.logger p).flushed) [
  | inl off ↦
      rw (flush_flushed st p off) (record { memory = refl; options = refl; next_logger = refl })
  | inr on ↦
      rw (flush_buffering st p on) (record { memory = refl; options = refl; next_logger = refl })
]

-- Another logger does not notice.
put-IsReady :
    (st : Store) (p : ℕ) (l : Logger)
    → p ≢ st.next_logger
    → IsReady st p
    → IsReady (put st l) p × (journal (put st l) p ≡ journal st p)
put-IsReady st p l ne r =
    let e : update st.logger st.next_logger l p ≡ st.logger p =
      update_ne st.logger st.next_logger p l (λ d. ne (sym d)) in
    (
      record {
        has_nil = r.has_nil;
        own = subst (λ (f : Logger). IsSlice st.memory f.keyvals) (sym e) r.own;
        no_pairs = ap (λ (f : Logger). (st.options f.options).keyvals) e ∙ r.no_pairs;
        kept = subst (λ (f : Logger). All (IsKept st.memory f.keyvals) f.entries) (sym e) r.kept;
      },
      ap
          (λ (f : Logger). record {
            output = st.output;
            pending = map (line st.memory) f.entries;
            flushed = f.flushed;
          })
          e,
    )

-- The memory after the pairs of a logger in order have grown.
module _ (st : Store) (p : ℕ) (r : IsReady st p) {new : List Pair} {mem : Memory} {s : Slice}
    (g : Grown st.memory (st.logger p).keyvals new mem s) where
  child-IsKept : (e : Entry) → IsKept st.memory (st.logger p).keyvals e → IsKept mem s e
  child-IsKept e (lt, inl z) = (omega (arith, lt, g.next_le), inl z)
  child-IsKept e (lt, inr ne) = (omega (arith, lt, g.next_le), inr (grind (arith, g.place, ne, lt)))

  parent-IsKept :
      (e : Entry) → IsKept st.memory (st.logger p).keyvals e → IsKept mem (st.logger p).keyvals e
  parent-IsKept e (lt, apart) = (omega (arith, lt, g.next_le), apart)

  same_view :
      (e : Entry)
      → IsKept st.memory (st.logger p).keyvals e
      → view mem e.key_vals ≡ view st.memory e.key_vals
  same_view e (lt, inl z) =
      view_at_nil mem e.key_vals (HasNil-Grown r.has_nil g) z
      ∙ sym (view_at_nil st.memory e.key_vals r.has_nil z)
  same_view e (lt, inr ne) = g.frame e.key_vals lt (inl ne)

  same_lines_of :
      (es : List Entry)
      → All (IsKept st.memory (st.logger p).keyvals) es
      → map (line mem) es ≡ map (line st.memory) es
  same_lines_of [] k = refl
  same_lines_of (e ∷ es) k =
      ap₂
        (λ (ps : List Pair) (l : List Line).
          record { time = e.time; severity = e.severity; key_vals = ps } ∷ l)
        (same_view e k.0) (same_lines_of es k.1)

  grown-IsReady :
      IsReady (record st { memory = mem }) p
      × (journal (record st { memory = mem }) p ≡ journal st p)
  grown-IsReady = (
    record {
      has_nil = HasNil-Grown r.has_nil g;
      own = IsSlice-mono g.next_le (g.lengths _ r.own.allocated) r.own;
      no_pairs = r.no_pairs;
      kept = All-mono _ _ (st.logger p).entries parent-IsKept r.kept;
    },
    ap (λ ls. record { output = st.output; pending = ls; flushed = (st.logger p).flushed })
        (same_lines_of (st.logger p).entries r.kept),
  )

  -- The new logger, put into a store with the grown memory.
  new-IsReady :
      (st2 : Store) (b : Bool)
      → Kept (record st { memory = mem }) st2
      → let l = record (st.logger p) { keyvals = s; flushed = b } in
        IsReady (put st2 l) st2.next_logger
        × (journal (put st2 l) st2.next_logger
            ≡ record { output = st2.output; pending = (journal st p).pending; flushed = b })
  new-IsReady st2 b k =
      let l = record (st.logger p) { keyvals = s; flushed = b } in
      let e = update_self st2.logger st2.next_logger l in
      (
        record {
          has_nil = subst HasNil (sym k.memory) (HasNil-Grown r.has_nil g);
          own = subst₂ IsSlice (sym k.memory) (ap (λ (f : Logger). f.keyvals) (sym e)) g.sound;
          no_pairs =
              ap₂ (λ (os : ℕ → Options) (f : Logger). (os f.options).keyvals) k.options e
              ∙ r.no_pairs;
          kept =
              subst₂ (λ (m : Memory) (f : Logger). All (IsKept m f.keyvals) f.entries)
                (sym k.memory) (sym e) (All-mono _ _ (st.logger p).entries child-IsKept r.kept);
        },
        ap₂
              (λ (m : Memory) (f : Logger). record {
                output = st2.output;
                pending = map (line m) f.entries;
                flushed = f.flushed;
              })
              k.memory e
            ∙ ap (λ ls. record { output = st2.output; pending = ls; flushed = b })
                (same_lines_of (st.logger p).entries r.kept),
      )
    where
      subst₂ :
          {A B : Type 0} (P : A → B → Type 0) {x x' : A} {y y' : B}
          → x ≡ x'
          → y ≡ y'
          → P x y
          → P x' y'
      subst₂ P {x} {x'} {y} {y'} d e h = subst (λ a. P a y') d (subst (P x) e h)

-- What the two loggers have done behind `With`: `off` says whether the options disable buffering.
abbrev pub parent_journal : Options → Bool → Journal → Journal
parent_journal o off j = if off then journal_flush o j else j

abbrev pub child_journal : Options → Bool → Journal → Journal
child_journal o off j = record {
  output = (parent_journal o off j).output;
  pending = j.pending;
  flushed = off || j.flushed;
}

module _ ⦃rt : Runtime⦄ where
  with_logger-IsReady :
      (st : Store) (p : ℕ) (ctx : Context) (fs : List Fielder)
      → IsReady st p
      → p ≢ st.next_logger
      → let st' = (with_logger st ctx p fs).0 in
        let o = options_of st p in
        let off = buffering_disabled o.disable_buffering ctx in
        (IsReady st' p × (journal st' p ≡ parent_journal o off (journal st p)))
        × (IsReady st' st.next_logger
            × (journal st' st.next_logger ≡ child_journal o off (journal st p)))
  unfolding with_logger copy_logger
  with_logger-IsReady st p ctx fs r ne =
      let g = merge-Grown st.memory (st.logger p).keyvals fs r.own in
      let st1 = record st { memory = (merge st.memory (st.logger p).keyvals fs).0 } in
      let s = (merge st.memory (st.logger p).keyvals fs).1 in
      let (r1, j1) = grown-IsReady st p r g in
      elim (Bool-cases (buffering_disabled (options_of st p).disable_buffering ctx)) [
        | inl on ↦
            let f = flush-Refined st1 p r1 in
            let k = flush-Kept st1 p in
            let l = record (st.logger p) { keyvals = s; flushed = true } in
            let (a, b) = put-IsReady (flush st1 p) p l (λ d. ne (d ∙ k.next_logger)) f.ready in
            let (c, d) = new-IsReady st p r g (flush st1 p) true k in
            let out = f.journals ∙ ap (journal_flush (options_of st p)) j1 in
            rw on (
              (a, b ∙ out),
              subst
                  (λ q.
                    IsReady (put (flush st1 p) l) q
                    × (journal (put (flush st1 p) l) q
                        ≡ child_journal (options_of st p) true (journal st p)))
                  k.next_logger
                  (
                    c,
                    d
                        ∙ ap
                            (λ (j : Journal). record {
                              output = j.output;
                              pending = (journal st p).pending;
                              flushed = true;
                            })
                            out,
                  ),
            )
        | inr off ↦
            let l = record (st.logger p) { keyvals = s } in
            let (a, b) = put-IsReady st1 p l ne r1 in
            rw off (
              (a, b ∙ j1),
              new-IsReady st p r g st1 (st.logger p).flushed
                  (record { memory = refl; options = refl; next_logger = refl }),
            )
      ]

  -- `With` on a context with a logger in order, whose address is not the next free one: both the old
  -- logger and the new one are in order. If the options disable buffering for the context, the old
  -- logger is flushed, or else nothing is written. The new logger has the lines that waited in the
  -- old one before the call; it buffers if the old one did and the options do not disable it.
  pub with-IsReady :
      (st : Store) (p : ℕ) (ctx : Context) (fs : List Fielder)
      → IsReady st p
      → ctx.logger ≡ some p
      → p ≢ st.next_logger
      → let st' = (with st ctx fs).0 in
        let o = options_of st p in
        let off = buffering_disabled o.disable_buffering ctx in
        (IsReady st' p × (journal st' p ≡ parent_journal o off (journal st p)))
        × (IsReady st' st.next_logger
            × (journal st' st.next_logger ≡ child_journal o off (journal st p)))
  unfolding with
  with-IsReady st p ctx fs r carries ne =
      let o = options_of st p in
      let off = buffering_disabled o.disable_buffering ctx in
      subst
        (λ (a : Store × Context).
          (IsReady a.0 p × (journal a.0 p ≡ parent_journal o off (journal st p)))
          × (IsReady a.0 st.next_logger
              × (journal a.0 st.next_logger ≡ child_journal o off (journal st p))))
        (sym (ap (λ q. on_logger q (st, ctx) (λ q. with_logger st ctx q fs)) carries))
        (with_logger-IsReady st p ctx fs r ne)
