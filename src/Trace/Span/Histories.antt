-- ===== src/Trace/Span/Histories.antt =====
-- Histories of the functions of trace/span.go on one context.
use clue.Base.{
  ℕ, ◌≡◌, refl, sym, ap, subst, ◌∙◌, Bool, String, Option, none, some, List, [], ◌∷◌, ◌++◌, Bytes,
  update, update_self, arith,
}
use clue.Trace.Span.{
  internal, client, Call, starts, ends, Sdk, Bag, Context, Tracing, call, to_key_val, split_last,
  end_span, end_all, end_last, end_trace, on_span, set_span_attributes, add_event, succeed, fail,
  record_error, start_span, start_by, create_span, start_trace, find_tracer,
}
use clue.Trace.Span.Balance.{
  started, ended, IsBalanced, IsSplit, empty, snoc, split, split_last-append, push-IsBalanced,
  pop-IsBalanced, neutral-IsBalanced, drain-IsBalanced,
}

-- The functions that a program calls between `StartTrace` and `EndTrace`.
pub data Op : Type 0 where
  opens : String → List String → Op
  closes : Op
  labels : List String → Op
  notes : String → List String → Op
  succeeds : Op
  fails : String → Op
  errs : Bytes → Op

abbrev pub on_bag : ℕ → Context → Context
on_bag b ctx = record ctx { bag = some b }

-- The spans of `b` after a write.
spans_update :
    (bags : ℕ → Bag) (b : ℕ) (ss : List ℕ)
    → (update bags b (record (bags b) { spans = ss }) b).spans ≡ ss
spans_update bags b ss = ap (λ (a : Bag). a.spans) (update_self bags b _)

abbrev IsOpen : Tracing → ℕ → Type 0
IsOpen st b = IsBalanced st.calls (st.bags b).spans

set-IsBalanced :
    (cs : List Call) (bags : ℕ → Bag) (b : ℕ) (ss : List ℕ)
    → IsBalanced cs ss
    → IsBalanced cs (update bags b (record (bags b) { spans = ss }) b).spans
set-IsBalanced cs bags b ss h = subst (IsBalanced cs) (sym (spans_update bags b ss)) h

end_last-IsBalanced :
    (st : Tracing) (b : ℕ) (ctx : Context) (ss : List ℕ)
    → IsSplit ss
    → IsBalanced st.calls ss
    → (st.bags b).spans ≡ ss
    → IsOpen (end_last st (on_bag b ctx) (split_last ss)) b
unfolding split_last
end_last-IsBalanced st b ctx _ empty h e = subst (IsBalanced st.calls) (sym e) h
end_last-IsBalanced st b ctx _ (snoc ss s) h e =
    rw (split_last-append ss s)
      (set-IsBalanced (st.calls ++ ends s ∷ []) st.bags b ss (pop-IsBalanced st.calls ss s h))

end_span-IsBalanced :
    (st : Tracing) (b : ℕ) (ctx : Context) → IsOpen st b → IsOpen (end_span st (on_bag b ctx)) b
unfolding end_span
end_span-IsBalanced st b ctx h =
    end_last-IsBalanced st b ctx (st.bags b).spans (split (st.bags b).spans) h refl

on_span-IsBalanced :
    (st : Tracing) (b : ℕ) (s : Option ℕ) (f : ℕ → Call)
    → ((s : ℕ) (p : ℕ → Bool) → (started p (f s ∷ []) ≡ 0) × (ended p (f s ∷ []) ≡ 0))
    → IsOpen st b
    → IsOpen (on_span st s f) b
on_span-IsBalanced st b none f idle h = h
on_span-IsBalanced st b (some s) f idle h =
    neutral-IsBalanced st.calls (f s) (st.bags b).spans (idle s) h

module _ ⦃sdk : Sdk⦄ where
  start_by-IsBalanced :
      (st : Tracing) (b : ℕ) (ctx : Context) (name : String) (keyvals : List String) (t : Option ℕ)
      → IsOpen st b
      → IsOpen (start_by st (on_bag b ctx) name keyvals t).0 b
        × ((start_by st (on_bag b ctx) name keyvals t).1.bag ≡ some b)
  start_by-IsBalanced st b ctx name keyvals none h = (h, refl)
  start_by-IsBalanced st b ctx name keyvals (some t) h = (
    set-IsBalanced _ st.bags b _ (
        push-IsBalanced st.calls (st.bags b).spans t (sdk.new_span st.calls) internal name
          (to_key_val keyvals) h),
    refl,
  )

  pub step : Tracing → Context → Op → Tracing × Context
  step st ctx (opens name keyvals) = start_span st ctx name keyvals
  step st ctx closes = (end_span st ctx, ctx)
  step st ctx (labels keyvals) = (set_span_attributes st ctx keyvals, ctx)
  step st ctx (notes name keyvals) = (add_event st ctx name keyvals, ctx)
  step st ctx succeeds = (succeed st ctx, ctx)
  step st ctx (fails msg) = (fail st ctx msg, ctx)
  step st ctx (errs err) = (record_error st ctx err, ctx)

  pub run : Tracing → Context → List Op → Tracing × Context
  run st ctx [] = (st, ctx)
  run st ctx (op ∷ ops) = let (st', ctx') = step st ctx op in run st' ctx' ops

  step-IsBalanced :
      (st : Tracing) (b : ℕ) (ctx : Context) (op : Op)
      → IsOpen st b
      → IsOpen (step st (on_bag b ctx) op).0 b × ((step st (on_bag b ctx) op).1.bag ≡ some b)
  unfolding step start_span set_span_attributes add_event succeed fail record_error
  step-IsBalanced st b ctx (opens name keyvals) h =
      start_by-IsBalanced st b ctx name keyvals (st.bags b).tracer h
  step-IsBalanced st b ctx closes h = (end_span-IsBalanced st b ctx h, refl)
  step-IsBalanced st b ctx (labels keyvals) h =
      (on_span-IsBalanced st b _ _ (λ s p. (refl, refl)) h, refl)
  step-IsBalanced st b ctx (notes name keyvals) h =
      (on_span-IsBalanced st b _ _ (λ s p. (refl, refl)) h, refl)
  step-IsBalanced st b ctx succeeds h = (on_span-IsBalanced st b _ _ (λ s p. (refl, refl)) h, refl)
  step-IsBalanced st b ctx (fails msg) h =
      (on_span-IsBalanced st b _ _ (λ s p. (refl, refl)) h, refl)
  step-IsBalanced st b ctx (errs err) h =
      (on_span-IsBalanced st b _ _ (λ s p. (refl, refl)) h, refl)

  carried : (ctx : Context) (b : ℕ) → ctx.bag ≡ some b → on_bag b ctx ≡ ctx
  carried ctx b e = λ i. record ctx { bag = sym e i }

  run-IsBalanced :
      (st : Tracing) (b : ℕ) (ctx : Context) (ops : List Op)
      → ctx.bag ≡ some b
      → IsOpen st b
      → IsOpen (run st ctx ops).0 b × ((run st ctx ops).1.bag ≡ some b)
  unfolding run
  run-IsBalanced st b ctx [] e h = (h, e)
  run-IsBalanced st b ctx (op ∷ ops) e h =
      let (h', e') =
        subst (λ c. IsOpen (step st c op).0 b × ((step st c op).1.bag ≡ some b)) (carried ctx b e)
          (step-IsBalanced st b ctx op h) in
      run-IsBalanced (step st ctx op).0 b (step st ctx op).1 ops e' h'

  end_all_bags : (st : Tracing) (ss : List ℕ) → (end_all st ss).bags ≡ st.bags
  end_all_bags st [] = refl
  end_all_bags st (s ∷ ss) = end_all_bags (call st (ends s)) ss

  end_trace-IsBalanced :
      (st : Tracing) (b : ℕ) (ctx : Context)
      → IsOpen st b
      → IsBalanced (end_trace st (on_bag b ctx)).calls []
        × (((end_trace st (on_bag b ctx)).bags b).spans ≡ [])
  unfolding end_trace
  end_trace-IsBalanced st b ctx h = (
    drain-IsBalanced st (st.bags b).spans h,
    spans_update (end_all st (st.bags b).spans).bags b [],
  )

  -- What `start_trace` makes of its bag: one active span, just started.
  start_trace_lem :
      (st : Tracing) (b : ℕ) (ctx : Context) (name : String) (keyvals : List String)
      → let (st', ctx') = start_trace st (on_bag b ctx) name keyvals in
        let s = sdk.new_span st.calls in
        let t = (find_tracer st b (st.bags b).tracer).1 in
        (st'.calls ≡ st.calls ++ starts t s client name (to_key_val keyvals) ∷ [])
        × ((st'.bags b).spans ≡ s ∷ [])
        × (ctx'.bag ≡ some b)
  unfolding start_trace create_span
  start_trace_lem st b ctx name keyvals = by_tracer (st.bags b).tracer
    where
      by_tracer :
          (t : Option ℕ)
          → let (st', t') = find_tracer st b t in
            let s = sdk.new_span st'.calls in
            (st'.calls ++ starts t' s client name (to_key_val keyvals) ∷ []
              ≡ st.calls ++ starts t' (sdk.new_span st.calls) client name (to_key_val keyvals) ∷ [])
            × ((update st'.bags b (record (st'.bags b) { spans = s ∷ [] }) b).spans
                ≡ sdk.new_span st.calls ∷ [])
            × (some b ≡ some b)
      by_tracer none = (refl, spans_update (find_tracer st b none).0.bags b _, refl)
      by_tracer (some t) = (refl, spans_update st.bags b _, refl)

  -- A trace on a bag with no active span, in a program whose spans have all been ended: however
  -- `StartSpan`, `EndSpan` and the functions on the current span follow `StartTrace`, when `EndTrace`
  -- is called every span has been ended exactly as often as it was started, and none is active.
  pub trace_ends :
      (st : Tracing) (b : ℕ) (ctx : Context) (name : String) (keyvals : List String) (ops : List Op)
      → ctx.bag ≡ some b
      → IsBalanced st.calls []
      → let (st1, ctx1) = start_trace st ctx name keyvals in
        let (st2, ctx2) = run st1 ctx1 ops in
        let st3 = end_trace st2 ctx2 in
        ((p : ℕ → Bool) → started p st3.calls ≡ ended p st3.calls) × ((st3.bags b).spans ≡ [])
  unfolding IsBalanced
  trace_ends st b ctx name keyvals ops e h =
      subst
        (λ c.
          let (st1, ctx1) = start_trace st c name keyvals in
          let (st2, ctx2) = run st1 ctx1 ops in
          ((p : ℕ → Bool)
            → started p (end_trace st2 ctx2).calls ≡ ended p (end_trace st2 ctx2).calls)
          × (((end_trace st2 ctx2).bags b).spans ≡ []))
        (carried ctx b e) (λ p. omega (arith, done.0 p), done.1)
    where
      first : Tracing × Context
      first = start_trace st (on_bag b ctx) name keyvals

      opened : IsOpen first.0 b × (first.1.bag ≡ some b)
      opened =
          let (c, s, e') = start_trace_lem st b ctx name keyvals in
          (
            subst (λ ss. IsBalanced first.0.calls ss) (sym s)
                (subst (λ cs. IsBalanced cs (sdk.new_span st.calls ∷ [])) (sym c)
                  (push-IsBalanced st.calls [] _ (sdk.new_span st.calls) client name
                    (to_key_val keyvals) h)),
            e',
          )

      last : Tracing × Context
      last = run first.0 first.1 ops

      done :
          IsBalanced (end_trace last.0 last.1).calls []
          × (((end_trace last.0 last.1).bags b).spans ≡ [])
      done =
          let (o, e') = run-IsBalanced first.0 b first.1 ops opened.1 opened.0 in
          subst
            (λ c.
              IsBalanced (end_trace last.0 c).calls [] × (((end_trace last.0 c).bags b).spans ≡ []))
            (carried last.1 b e') (end_trace-IsBalanced last.0 b last.1 o)

  -- `EndSpan` undoes `StartSpan`: on a context whose bag has a tracer, the span that is ended is the
  -- one just started, with the name and the attributes given, and the bag has the spans of before.
  pub start_span-end_span :
      (st : Tracing) (b t : ℕ) (ctx : Context) (name : String) (keyvals : List String)
      → ctx.bag ≡ some b
      → (st.bags b).tracer ≡ some t
      → let (st1, ctx1) = start_span st ctx name keyvals in
        let st2 = end_span st1 ctx1 in
        let s = sdk.new_span st.calls in
        (st2.calls
          ≡ (st.calls ++ starts t s internal name (to_key_val keyvals) ∷ []) ++ ends s ∷ [])
        × ((st2.bags b).spans ≡ (st.bags b).spans)
  unfolding start_span end_span
  start_span-end_span st b t ctx name keyvals e e' =
      let more = (st.bags b).spans ++ sdk.new_span st.calls ∷ [] in
      rw (e, e')
        (rw (spans_update st.bags b more) (
          rw (split_last-append (st.bags b).spans (sdk.new_span st.calls))
            (refl, spans_update (update st.bags b (record (st.bags b) { spans = more })) b _)))

  end_trace_one :
      (st : Tracing) (b : ℕ) (ctx : Context) (s : ℕ)
      → ctx.bag ≡ some b
      → (st.bags b).spans ≡ s ∷ []
      → ((end_trace st ctx).calls ≡ st.calls ++ ends s ∷ [])
        × (((end_trace st ctx).bags b).spans ≡ [])
  unfolding end_trace
  end_trace_one st b ctx s e one_span =
      rw e (rw one_span (refl, spans_update (call st (ends s)).bags b []))

  -- `StartTrace` and then `EndTrace`, on any bag: one span is started and ended. The spans that were
  -- active before are neither ended nor active afterwards.
  pub start_trace-end_trace :
      (st : Tracing) (b : ℕ) (ctx : Context) (name : String) (keyvals : List String)
      → ctx.bag ≡ some b
      → let (st1, ctx1) = start_trace st ctx name keyvals in
        let st2 = end_trace st1 ctx1 in
        let s = sdk.new_span st.calls in
        let t = (find_tracer st b (st.bags b).tracer).1 in
        (st2.calls ≡ (st.calls ++ starts t s client name (to_key_val keyvals) ∷ []) ++ ends s ∷ [])
        × ((st2.bags b).spans ≡ [])
  start_trace-end_trace st b ctx name keyvals e =
      subst
        (λ c.
          let (st1, ctx1) = start_trace st c name keyvals in
          ((end_trace st1 ctx1).calls
            ≡ (st.calls
                ++ starts (find_tracer st b (st.bags b).tracer).1 (sdk.new_span st.calls) client
                    name (to_key_val keyvals)
                  ∷ [])
              ++ ends (sdk.new_span st.calls) ∷ [])
          × (((end_trace st1 ctx1).bags b).spans ≡ []))
        (carried ctx b e)
        (let (st1, ctx1) = start_trace st (on_bag b ctx) name keyvals in
          let (c, s, e') = start_trace_lem st b ctx name keyvals in
          let (d, none_left) = end_trace_one st1 b ctx1 (sdk.new_span st.calls) e' s in
          (d ∙ ap (λ cs. cs ++ ends (sdk.new_span st.calls) ∷ []) c, none_left))
