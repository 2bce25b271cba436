-- ===== src/Trace/Tests.antt =====
-- The package trace on a bag of spans.
use clue.Base.{ℕ, suc, ◌≡◌, refl, Bool, true, String, none, some, List, [], ◌∷◌}
use clue.Trace.Span.{
  client, Call, starts, ends, Sdk, Bag, Context, Tracing, to_key_val, start_trace, end_trace,
}
use clue.Trace.Span.Balance.{started, ended, IsBalanced}
use clue.Trace.Span.Histories.{Op, opens, closes, fails, run, trace_ends, start_trace-end_trace}
use clue.Trace.Setup.{Maker, trace_context}
use clue.Trace.Middleware.{
  HttpHandler, UnaryHandler, StreamHandler, http, unary_server_interceptor,
  stream_server_interceptor,
}
use clue.Trace.Middleware.Transports.{prepared, transports_agree}

abbrev length_of : List Call → ℕ
length_of [] = 0
length_of (c ∷ cs) = suc (length_of cs)

-- An SDK that numbers its spans.
instance abbrev numbering : Sdk
numbering = record {
  new_span = length_of;
  tracer = λ provider name. provider;
  trace_id = λ s. "t";
  span_id = λ s. "s";
  noop_span = 99;
  is_recording = λ s. true;
  is_sampled = λ s. true;
}

instance abbrev some_maker : Maker
some_maker = record {
  trace_context = 1;
  noop_provider = 2;
  named_resource = λ name. 3;
  goa_sampler = λ rate size. 4;
  tracer_provider = λ sampler opts resource exporter. 5;
}

abbrev some_bag : Bag
some_bag = record { svc = "svc"; provider = 2; propagator = 1; tracer = some 2; spans = [] }

abbrev some_tracing : Tracing
some_tracing = record { bags = λ a. some_bag; next_bag = 1; calls = [] }

abbrev some_context : Context
some_context = record { bag = some 0; span = none; remote = none; request_id = none }

some_tracing-IsBalanced : IsBalanced some_tracing.calls []
unfolding IsBalanced
some_tracing-IsBalanced p = refl

abbrev some_ops : List Op
some_ops = opens "a" ("k" ∷ []) ∷ opens "b" [] ∷ fails "no" ∷ closes ∷ []

trace_ends_example :
    let (st1, ctx1) = start_trace some_tracing some_context "t" [] in
    let (st2, ctx2) = run st1 ctx1 some_ops in
    let st3 = end_trace st2 ctx2 in
    ((p : ℕ → Bool) → started p st3.calls ≡ ended p st3.calls) × ((st3.bags 0).spans ≡ [])
trace_ends_example =
    trace_ends some_tracing 0 some_context "t" [] some_ops refl some_tracing-IsBalanced

start_trace-end_trace_example :
    let (st1, ctx1) = start_trace some_tracing some_context "a" [] in
    let st2 = end_trace st1 ctx1 in
    (st2.calls ≡ starts 2 0 client "a" (to_key_val []) ∷ ends 0 ∷ []) × ((st2.bags 0).spans ≡ [])
start_trace-end_trace_example = start_trace-end_trace some_tracing 0 some_context "a" [] refl

-- What a library does that runs the handler at once.
abbrev plain_http : String → ℕ → ℕ → HttpHandler → HttpHandler
plain_http svc provider propagator h = h

abbrev plain_unary : ℕ → ℕ → UnaryHandler ℕ ℕ → UnaryHandler ℕ ℕ
plain_unary provider propagator h = h

abbrev plain_stream : ℕ → ℕ → StreamHandler ℕ ℕ ℕ → StreamHandler ℕ ℕ ℕ
plain_stream provider propagator h = h

transports_agree_example :
    (http plain_http some_tracing some_context
      ≡ some (λ h st' ctx'. let (s, c) = prepared some_bag st' ctx' in h s c))
    × (unary_server_interceptor plain_unary some_tracing some_context
        ≡ some (λ h st' ctx' req. let (s, c) = prepared some_bag st' ctx' in h s c req))
    × (stream_server_interceptor plain_stream some_tracing some_context
        ≡ some (λ h st' srv stream.
          let (s, c) = prepared some_bag st' stream.ctx in h s srv (record stream { ctx = c })))
transports_agree_example =
    transports_agree plain_http plain_unary plain_stream some_tracing some_context
