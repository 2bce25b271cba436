-- ===== src/Trace/Span.antt =====
-- trace/span.go, and the state that trace/context.go keeps in a context. Tracers, providers and spans
-- are handles of the OpenTelemetry SDK; the calls that reach it are recorded in order.
pub mod Balance
pub mod Histories
use clue.Base.{
  ℕ, suc, Bool, true, false, String, Option, none, some, List, [], ◌∷◌, ◌++◌, Bytes, codes, update,
}
use clue.Log.Value.{Pair, string}

-- codes.Code of the SDK, as far as the source sets it.
pub data Status : Type 0 where
  ok error : Status

-- trace.SpanKind; `internal` is what the SDK takes if none is given.
pub data Kind : Type 0 where
  internal client server : Kind

-- attribute.String
abbrev pub Attribute : Type 0
Attribute = String × String

-- A call of the SDK; `starts` has the tracer and the span that it returned.
pub data Call : Type 0 where
  starts : ℕ → ℕ → Kind → String → List Attribute → Call
  ends : ℕ → Call
  sets_attributes : ℕ → List Attribute → Call
  adds_event : ℕ → String → List Attribute → Call
  sets_status : ℕ → Status → String → Call
  records_error : ℕ → Bytes → Call

-- What the SDK decides: the span that `Start` returns after the calls so far, the tracer of a
-- provider and a library's name, the texts of the identifiers of a span, the span of a
-- context that has none, and which spans record and are sampled.
pub record Sdk : Type 0 where
  pub new_span : List Call → ℕ
  pub tracer : ℕ → String → ℕ
  pub trace_id : ℕ → String
  pub span_id : ℕ → String
  pub noop_span : ℕ
  pub is_recording : ℕ → Bool
  pub is_sampled : ℕ → Bool

-- `stateBag`
pub record Bag : Type 0 where
  pub svc : String
  pub provider : ℕ
  pub propagator : ℕ
  pub tracer : Option ℕ
  pub spans : List ℕ

-- A context: the address of the bag under `stateKey`, the current span of the SDK, a remote trace's
-- identifier, and the request ID.
pub record Context : Type 0 where
  pub bag : Option ℕ
  pub span : Option ℕ
  pub remote : Option (List ℕ)
  pub request_id : Option String

-- Bags by address, and the calls so far.
pub record Tracing : Type 0 where
  pub bags : ℕ → Bag
  pub next_bag : ℕ
  pub calls : List Call

-- `InstrumentationLibraryName`
abbrev pub instrumentation_library_name : String
instrumentation_library_name = "goa.design/clue"

abbrev pub call : Tracing → Call → Tracing
call st c = record st { calls = st.calls ++ c ∷ [] }

-- `toKeyVal`
pub to_key_val : List String → List Attribute
to_key_val [] = []
to_key_val (k ∷ []) = (k, "") ∷ []
to_key_val (k ∷ (v ∷ kvs)) = (k, v) ∷ to_key_val kvs

-- The last of some spans, and those in front of it.
unfoldable pub split_last : List ℕ → Option (List ℕ × ℕ)
split_last [] = none
split_last (s ∷ ss) = some (elim (split_last ss) [ none ↦ ([], s) | some r ↦ (s ∷ r.0, r.1) ])

abbrev pub spans_at : Tracing → Option ℕ → List ℕ
spans_at st none = []
spans_at st (some b) = (st.bags b).spans

-- `activeSpans`
abbrev pub active_spans : Tracing → Context → List ℕ
active_spans st ctx = spans_at st ctx.bag

abbrev pub put_spans : Tracing → Option ℕ → List ℕ → Tracing
put_spans st none spans = st
put_spans st (some b) spans = record st {
  bags = update st.bags b (record (st.bags b) { spans = spans });
}

-- `setActiveSpans`
abbrev pub set_active_spans : Tracing → Context → List ℕ → Tracing
set_active_spans st ctx spans = put_spans st ctx.bag spans

abbrev pub last_span : Option (List ℕ × ℕ) → Option ℕ
last_span none = none
last_span (some (ss, s)) = some s

-- `activeSpan`
abbrev pub active_span : Tracing → Context → Option ℕ
active_span st ctx = last_span (split_last (active_spans st ctx))

abbrev pub end_last : Tracing → Context → Option (List ℕ × ℕ) → Tracing
end_last st ctx none = st
end_last st ctx (some (ss, s)) = set_active_spans (call st (ends s)) ctx ss

-- `EndSpan`
unfoldable pub end_span : Tracing → Context → Tracing
end_span st ctx = end_last st ctx (split_last (active_spans st ctx))

abbrev pub end_all : Tracing → List ℕ → Tracing
end_all st [] = st
end_all st (s ∷ ss) = end_all (call st (ends s)) ss

-- `EndTrace`
unfoldable pub end_trace : Tracing → Context → Tracing
end_trace st ctx = set_active_spans (end_all st (active_spans st ctx)) ctx []

-- What is called on the active span, if there is one.
abbrev pub on_span : Tracing → Option ℕ → (ℕ → Call) → Tracing
on_span st none f = st
on_span st (some s) f = call st (f s)

-- `SetSpanAttributes`
unfoldable pub set_span_attributes : Tracing → Context → List String → Tracing
set_span_attributes st ctx keyvals =
    on_span st (active_span st ctx) (λ s. sets_attributes s (to_key_val keyvals))

-- `AddEvent`
unfoldable pub add_event : Tracing → Context → String → List String → Tracing
add_event st ctx name keyvals =
    on_span st (active_span st ctx) (λ s. adds_event s name (to_key_val keyvals))

-- `Succeed`
unfoldable pub succeed : Tracing → Context → Tracing
succeed st ctx = on_span st (active_span st ctx) (λ s. sets_status s ok "")

-- `Fail`
unfoldable pub fail : Tracing → Context → String → Tracing
fail st ctx msg = on_span st (active_span st ctx) (λ s. sets_status s error msg)

-- `RecordError`
unfoldable pub record_error : Tracing → Context → Bytes → Tracing
record_error st ctx err = on_span st (active_span st ctx) (λ s. records_error s err)

module _ ⦃sdk : Sdk⦄ where
  abbrev pub text_of : Option ℕ → (ℕ → String) → String
  text_of none f = ""
  text_of (some s) f = f s

  -- `TraceID`
  unfoldable pub trace_id : Tracing → Context → String
  trace_id st ctx = text_of (active_span st ctx) sdk.trace_id

  -- `SpanID`
  unfoldable pub span_id : Tracing → Context → String
  span_id st ctx = text_of (active_span st ctx) sdk.span_id

  -- tracer.Start, which returns a context with the new span, and the span.
  abbrev pub start :
      Tracing → Context → ℕ → Kind → String → List Attribute → (Tracing × Context) × ℕ
  start st ctx tracer kind name attributes =
      let s = sdk.new_span st.calls in
      ((call st (starts tracer s kind name attributes), record ctx { span = some s }), s)

  abbrev pub push_span : (Tracing × Context) × ℕ → Tracing × Context
  push_span ((st, ctx), s) = (set_active_spans st ctx (active_spans st ctx ++ s ∷ []), ctx)

  abbrev pub start_by : Tracing → Context → String → List String → Option ℕ → Tracing × Context
  start_by st ctx name keyvals none = (st, ctx)
  start_by st ctx name keyvals (some tracer) =
      push_span (start st ctx tracer internal name (to_key_val keyvals))

  abbrev pub start_in : Tracing → Context → String → List String → Option ℕ → Tracing × Context
  start_in st ctx name keyvals none = (st, ctx)
  start_in st ctx name keyvals (some b) = start_by st ctx name keyvals (st.bags b).tracer

  -- `StartSpan`
  unfoldable pub start_span : Tracing → Context → String → List String → Tracing × Context
  start_span st ctx name keyvals = start_in st ctx name keyvals ctx.bag

  abbrev pub only_span : (Tracing × Context) × ℕ → Tracing × Context
  only_span ((st, ctx), s) = (set_active_spans st ctx (s ∷ []), ctx)

  -- The bag's tracer, which is made and kept if there is none.
  abbrev pub find_tracer : Tracing → ℕ → Option ℕ → Tracing × ℕ
  find_tracer st b (some tracer) = (st, tracer)
  find_tracer st b none =
      let tracer = sdk.tracer (st.bags b).provider instrumentation_library_name in
      (record st { bags = update st.bags b (record (st.bags b) { tracer = some tracer }) }, tracer)

  abbrev pub create_in :
      Tracing → Context → Kind → String → List String → Option ℕ → Tracing × Context
  create_in st ctx kind name keyvals none = (st, ctx)
  create_in st ctx kind name keyvals (some b) =
      let (st', tracer) = find_tracer st b (st.bags b).tracer in
      only_span (start st' ctx tracer kind name (to_key_val keyvals))

  -- `createSpan`
  unfoldable pub create_span : Tracing → Context → Kind → String → List String → Tracing × Context
  create_span st ctx kind name keyvals = create_in st ctx kind name keyvals ctx.bag

  -- `StartTrace`
  unfoldable pub start_trace : Tracing → Context → String → List String → Tracing × Context
  start_trace st ctx name keyvals = create_span st ctx client name keyvals

  -- `ContinueRemoteTrace`
  unfoldable pub continue_remote_trace :
      Tracing → Context → String → List ℕ → List String → Tracing × Context
  continue_remote_trace st ctx name id keyvals =
      create_span st (record ctx { remote = some id }) server name keyvals

  abbrev pub id_pair : Bytes → Bytes → List Pair
  id_pair key [] = []
  id_pair key (c ∷ text) = record { key = key; val = string (c ∷ text) } ∷ []

  -- `Log` of trace/log.go
  unfoldable pub trace_log : Tracing → Context → List Pair
  trace_log st ctx =
      id_pair (codes "trace-id") (codes (trace_id st ctx))
      ++ id_pair (codes "span-id") (codes (span_id st ctx))
