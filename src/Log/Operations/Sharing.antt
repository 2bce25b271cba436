-- ===== src/Log/Operations/Sharing.antt =====
-- `With`: the pairs of the new logger, and the array that it may share with others.
use clue.Base.{
  ℕ, suc, ◌+◌, ◌<◌, ◌≡◌, ◌≢◌, refl, sym, ap, ap₂, subst, ◌∙◌, inl, inr, true, some, List, [], ◌∷◌,
  ◌++◌, update, update_self, update_ne, Bool-cases, arith,
}
use clue.Log.Value.{Pair, Fielder, kv}
use clue.Log.Memory.{Runtime, Memory, Slice, view, append_in_place, merge}
use clue.Log.Memory.Laws.{IsSlice, merge-Grown, append_fits, all_fields}
use clue.Log.Logger.{Context, Logger, Store, options_of, on_logger, flush}
use clue.Log.Logger.Gather.{IsSlice-mono}
use clue.Log.Logger.Ready.{IsReady, flush_buffering, flush_flushed}
use clue.Log.Operations.{buffering_disabled, copy_logger, with_logger, with}

-- `flush` changes neither memory nor the pairs and options of any logger.
record SamePairs (st st' : Store) : Type 0 where
  memory : st'.memory ≡ st.memory
  next_logger : st'.next_logger ≡ st.next_logger
  keyvals : (q : ℕ) → (st'.logger q).keyvals ≡ (st.logger q).keyvals

flush-SamePairs : (st : Store) (p : ℕ) → SamePairs st (flush st p)
flush-SamePairs st p = elim (Bool-cases (st.logger p).flushed) [
  | inl off ↦
      rw (flush_flushed st p off)
        (record { memory = refl; next_logger = refl; keyvals = λ q. refl })
  | inr on ↦
      rw (flush_buffering st p on) (record { memory = refl; next_logger = refl; keyvals = same })
]
  where
    same :
        (q : ℕ)
        → (update st.logger p (record (st.logger p) { entries = []; flushed = true }) q).keyvals
          ≡ (st.logger q).keyvals
    same q = ground arith

module _ ⦃rt : Runtime⦄ where
  -- An append of one pair to a slice with room for it.
  merge_one :
      (mem : Memory) (s : Slice) (a : Pair)
      → s.len < s.cap
      → (merge mem s (kv a ∷ [])).1 ≡ record s { len = s.len + 1 }
  unfolding merge append_in_place
  merge_one mem s a room =
      ap (λ (r : Memory × Slice). r.1) (append_fits mem s (a ∷ []) (omega arith))

  merge_kept :
      (mem : Memory) (s : Slice) (fs : List Fielder)
      → IsSlice mem s
      → let m = (merge mem s fs).0 in IsSlice m s × (view m s ≡ view mem s)
  merge_kept mem s fs h =
      let g = merge-Grown mem s fs h in
      (
        IsSlice-mono g.next_le (g.lengths s.addr h.allocated) h,
        g.frame s h.allocated (inr (omega arith)),
      )

  -- The second append to the same slice overwrites what the first one added.
  merge_twice :
      (mem : Memory) (s : Slice) (a b : Pair)
      → IsSlice mem s
      → s.len < s.cap
      → let (m1, s1) = merge mem s (kv a ∷ []) in
        let (m2, s2) = merge m1 s (kv b ∷ []) in view m2 s1 ≡ view mem s ++ b ∷ []
  merge_twice mem s a b h room =
      let m1 = (merge mem s (kv a ∷ [])).0 in
      let (h1, same) = merge_kept mem s (kv a ∷ []) h in
      ap (view (merge m1 s (kv b ∷ [])).0) (merge_one mem s a room ∙ sym (merge_one m1 s b room))
      ∙ (merge-Grown m1 s (kv b ∷ []) h1).content
      ∙ ap (λ l. l ++ b ∷ []) same

  -- What `With` does to memory, and to the pairs of the loggers.
  record Made (st : Store) (p : ℕ) (fs : List Fielder) (st' : Store) (c : Context) : Type 0 where
    memory : st'.memory ≡ (merge st.memory (st.logger p).keyvals fs).0
    pointer : c.logger ≡ some st.next_logger
    next_logger : st'.next_logger ≡ suc st.next_logger
    child : (st'.logger st.next_logger).keyvals ≡ (merge st.memory (st.logger p).keyvals fs).1
    child_options : (st'.logger st.next_logger).options ≡ (st.logger p).options
    others : (q : ℕ) → q ≢ st.next_logger → (st'.logger q).keyvals ≡ (st.logger q).keyvals

  -- The copy put at the next address of a store with the pairs of the old one.
  put_copy :
      (st st1 st2 : Store) (p : ℕ) (fs : List Fielder) (c : Context) (l : Logger)
      → SamePairs st1 st2
      → st1.memory ≡ (merge st.memory (st.logger p).keyvals fs).0
      → st1.next_logger ≡ st.next_logger
      → ((q : ℕ) → (st1.logger q).keyvals ≡ (st.logger q).keyvals)
      → l.keyvals ≡ (merge st.memory (st.logger p).keyvals fs).1
      → l.options ≡ (st.logger p).options
      → Made st p fs
          (record st2 {
            logger = update st2.logger st2.next_logger l;
            next_logger = suc st2.next_logger;
          })
          (record c { logger = some st2.next_logger })
  put_copy st st1 st2 p fs c l s m n k lk lo =
      let e = s.next_logger ∙ n in
      record {
        memory = s.memory ∙ m;
        pointer = ap some e;
        next_logger = ap suc e;
        child =
            ap (λ (f : Logger). f.keyvals)
              (subst (λ a. update st2.logger st2.next_logger l a ≡ l) e
                (update_self st2.logger st2.next_logger l))
            ∙ lk;
        child_options =
            ap (λ (f : Logger). f.options)
              (subst (λ a. update st2.logger st2.next_logger l a ≡ l) e
                (update_self st2.logger st2.next_logger l))
            ∙ lo;
        others = λ q ne.
            ap (λ (f : Logger). f.keyvals)
              (update_ne st2.logger st2.next_logger q l (λ d. ne (sym d ∙ e)))
            ∙ s.keyvals q
            ∙ k q;
      }

  with_logger-Made :
      (st : Store) (p : ℕ) (ctx : Context) (fs : List Fielder)
      → let r = with_logger st ctx p fs in Made st p fs r.0 r.1
  unfolding with_logger copy_logger
  with_logger-Made st p ctx fs =
      let st1 = record st { memory = (merge st.memory (st.logger p).keyvals fs).0 } in
      elim (Bool-cases (buffering_disabled (options_of st p).disable_buffering ctx)) [
        | inl on ↦ rw on (
            put_copy st st1 (flush st1 p) p fs ctx _ (flush-SamePairs st1 p) refl refl (λ q. refl)
              refl refl)
        | inr off ↦ rw off (
            put_copy st st1 st1 p fs ctx _
              (record { memory = refl; next_logger = refl; keyvals = λ q. refl }) refl refl
              (λ q. refl) refl refl)
      ]

  with-Made :
      (st : Store) (p : ℕ) (ctx : Context) (fs : List Fielder)
      → ctx.logger ≡ some p
      → let r = with st ctx fs in Made st p fs r.0 r.1
  unfolding with
  with-Made st p ctx fs carries =
      subst (λ (r : Store × Context). Made st p fs r.0 r.1)
        (sym (ap (λ o. on_logger o (st, ctx) (λ q. with_logger st ctx q fs)) carries))
        (with_logger-Made st p ctx fs)

  -- `With` on a context whose logger is in order: the new context carries a new logger, whose pairs
  -- are those of the old one and then those of the arguments, and which shares the options; the
  -- pairs of the old logger are unchanged.
  pub with_pairs :
      (st : Store) (p : ℕ) (ctx : Context) (fs : List Fielder)
      → IsReady st p
      → ctx.logger ≡ some p
      → p ≢ st.next_logger
      → let (st', c) = with st ctx fs in
        let q = st.next_logger in
        (c.logger ≡ some q)
        × (view st'.memory (st'.logger q).keyvals
            ≡ view st.memory (st.logger p).keyvals ++ all_fields fs)
        × ((st'.logger q).options ≡ (st.logger p).options)
        × (view st'.memory (st'.logger p).keyvals ≡ view st.memory (st.logger p).keyvals)
  with_pairs st p ctx fs r carries ne =
      let a = with-Made st p ctx fs carries in
      (
        a.pointer,
        ap₂ view a.memory a.child ∙ (merge-Grown st.memory (st.logger p).keyvals fs r.own).content,
        a.child_options,
        ap₂ view a.memory (a.others p ne) ∙ (merge_kept st.memory (st.logger p).keyvals fs r.own).1,
      )

  -- `With` called twice on one context whose logger has spare capacity in its array, with one pair
  -- each time: the logger of the first new context then shows the pair of the second call and not
  -- its own.
  pub with_overwritten :
      (st : Store) (p : ℕ) (ctx : Context) (a b : Pair)
      → IsReady st p
      → ctx.logger ≡ some p
      → p < st.next_logger
      → (st.logger p).keyvals.len < (st.logger p).keyvals.cap
      → let st1 = (with st ctx (kv a ∷ [])).0 in
        let st2 = (with st1 ctx (kv b ∷ [])).0 in
        view st2.memory (st2.logger st.next_logger).keyvals
        ≡ view st.memory (st.logger p).keyvals ++ b ∷ []
  with_overwritten st p ctx a b r carries lt room =
      let first = with-Made st p ctx (kv a ∷ []) carries in
      let st1 = (with st ctx (kv a ∷ [])).0 in
      let second = with-Made st1 p ctx (kv b ∷ []) carries in
      ap₂ view
        (second.memory
          ∙ ap₂ (λ m s. (merge m s (kv b ∷ [])).0) first.memory
              (first.others p (omega (arith, lt))))
        (second.others st.next_logger (omega (arith, first.next_logger)) ∙ first.child)
      ∙ merge_twice st.memory (st.logger p).keyvals a b r.own room
