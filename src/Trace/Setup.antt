-- ===== src/Trace/Setup.antt =====
-- trace/options.go, trace/sampler.go and the making of a trace context in trace/context.go. What the
-- OpenTelemetry SDK makes (providers, exporters, resources, propagators) is a handle.
pub mod Laws
use clue.Base.{
  ℕ, suc, ◌≡◌, refl, ap, ◌⊎◌, inl, inr, Bool, true, false, not, String, Option, none, some, List,
  [], ◌∷◌, ◌++◌, Bytes, codes, update, update_self, if◌then◌else◌,
}
use clue.Base.Int.{ℤ, pos, decimal_ℤ}
use clue.Trace.Span.{Sdk, Bag, Context, Tracing, instrumentation_library_name, start_span}

-- `options`
pub record Options : Type 0 where
  pub max_sampling_rate : ℤ
  pub sample_size : ℤ
  pub exporter : Option ℕ
  pub propagator : ℕ
  pub parent_sampler_options : List ℕ
  pub resource : Option ℕ
  pub disabled : Bool

-- `TraceOption`: the text of an error, or the options changed.
abbrev pub TraceOption : Type 0
TraceOption = Options → Bytes ⊎ Options

-- `defaultOptions`, given the propagator propagation.TraceContext{}.
abbrev pub default_options : ℕ → Options
default_options trace_context = record {
  max_sampling_rate = pos 2;
  sample_size = pos 10;
  exporter = none;
  propagator = trace_context;
  parent_sampler_options = [];
  resource = none;
  disabled = false;
}

abbrev pub with_max_sampling_rate : ℤ → TraceOption
with_max_sampling_rate rate o = inr (record o { max_sampling_rate = rate })

abbrev pub with_sample_size : ℤ → TraceOption
with_sample_size size o = inr (record o { sample_size = size })

abbrev pub with_disabled : TraceOption
with_disabled o = inr (record o { disabled = true })

abbrev pub with_exporter : ℕ → TraceOption
with_exporter exporter o = inr (record o { exporter = some exporter })

abbrev pub with_parent_sampler_options : List ℕ → TraceOption
with_parent_sampler_options sampler_options o =
    inr (record o { parent_sampler_options = sampler_options })

abbrev pub with_resource : ℕ → TraceOption
with_resource res o = inr (record o { resource = some res })

abbrev pub with_propagator : ℕ → TraceOption
with_propagator propagator o = inr (record o { propagator = propagator })

abbrev pub exported : Options → Bytes ⊎ ℕ → Bytes ⊎ Options
exported o (inl err) = inl err
exported o (inr exporter) = inr (record o { exporter = some exporter })

-- `WithGRPCExporter`; `new_exporter` is otlptracegrpc.New.
abbrev pub with_grpc_exporter : (ℕ → Bytes ⊎ ℕ) → ℕ → TraceOption
with_grpc_exporter new_exporter conn o = exported o (new_exporter conn)

-- `sampler`; its Goa sampler is a handle.
pub record Sampler : Type 0 where
  pub s : ℕ
  pub max_sampling_rate : ℤ
  pub sample_size : ℤ

-- The parts of the SDK, and of Goa's middleware, that make things.
pub record Maker : Type 0 where
  pub trace_context : ℕ
  pub noop_provider : ℕ
  pub named_resource : String → ℕ
  pub goa_sampler : ℤ → ℤ → ℕ
  pub tracer_provider : Sampler → List ℕ → ℕ → ℕ → ℕ

module _ ⦃maker : Maker⦄ where
  -- `adaptiveSampler`
  abbrev pub adaptive_sampler : ℤ → ℤ → Sampler
  adaptive_sampler max_sampling_rate sample_size = record {
    s = maker.goa_sampler max_sampling_rate sample_size;
    max_sampling_rate = max_sampling_rate;
    sample_size = sample_size;
  }

  abbrev pub apply_trace_options : Options → List TraceOption → Bytes ⊎ Options
  apply_trace_options o [] = inr o
  apply_trace_options o (opt ∷ opts) = elim (opt o) [
    | inl err ↦ inl err
    | inr o' ↦ apply_trace_options o' opts
  ]

  -- `withProvider`
  abbrev pub with_provider : Tracing → Context → ℕ → ℕ → String → Tracing × Context
  with_provider st ctx provider propagator svc = (
    record st {
      bags = update st.bags st.next_bag (record {
        svc = svc;
        provider = provider;
        propagator = propagator;
        tracer = none;
        spans = [];
      });
      next_bag = suc st.next_bag;
    },
    record ctx { bag = some st.next_bag },
  )

  abbrev pub resource_or_named : Option ℕ → String → ℕ
  resource_or_named none svc = maker.named_resource svc
  resource_or_named (some res) svc = res

  abbrev pub provide : Tracing → Context → String → Options → Option ℕ → Bytes ⊎ (Tracing × Context)
  provide st ctx svc o none = inl (codes "missing exporter")
  provide st ctx svc o (some exporter) =
      let provider =
        maker.tracer_provider (adaptive_sampler o.max_sampling_rate o.sample_size)
          o.parent_sampler_options (resource_or_named o.resource svc) exporter in
      inr (with_provider st ctx provider o.propagator svc)

  abbrev pub set_up : Tracing → Context → String → Bytes ⊎ Options → Bytes ⊎ (Tracing × Context)
  set_up st ctx svc (inl err) = inl err
  set_up st ctx svc (inr o) =
      if o.disabled
      then inr (with_provider st ctx maker.noop_provider o.propagator svc)
      else provide st ctx svc o o.exporter

  -- `Context`
  unfoldable pub trace_context :
      Tracing → Context → String → List TraceOption → Bytes ⊎ (Tracing × Context)
  trace_context st ctx svc opts =
      set_up st ctx svc (apply_trace_options (default_options maker.trace_context) opts)

-- `sampler.Description`
pub description : Sampler → Bytes
description s =
    codes "Adaptive{maxSamplingRate:"
    ++ (decimal_ℤ s.max_sampling_rate
        ++ (codes ",sampleSize:" ++ (decimal_ℤ s.sample_size ++ codes "}")))

-- sdktrace.SamplingResult: drop, or record and sample with a trace state.
pub data Sampling : Type 0 where
  drop : Sampling
  record_and_sample : ℕ → Sampling

-- `sampler.ShouldSample`; `sample` is the Goa sampler's answer in a world that it changes.
pub should_sample : {W : Type 0} → (ℕ → W → W × Bool) → Sampler → ℕ → W → W × Sampling
should_sample sample s trace_state w =
    let (w', taken) = sample s.s w in (w', if taken then record_and_sample trace_state else drop)

-- `IsTraced`
abbrev pub is_traced_span : ⦃sdk : Sdk⦄ → Option ℕ → Bool
is_traced_span none = false
is_traced_span ⦃sdk⦄ (some s) = if sdk.is_recording s then sdk.is_sampled s else false

abbrev pub is_traced : ⦃sdk : Sdk⦄ → Context → Bool
is_traced ctx = is_traced_span ctx.span

-- `TraceProvider`; none is the panic of its type assertion.
abbrev pub provider_at : Tracing → Option ℕ → Option ℕ
provider_at st none = none
provider_at st (some b) = some (st.bags b).provider

pub trace_provider : Tracing → Context → Option ℕ
trace_provider st ctx = provider_at st ctx.bag

abbrev pub span_or_noop : ⦃sdk : Sdk⦄ → Option ℕ → ℕ
span_or_noop ⦃sdk⦄ none = sdk.noop_span
span_or_noop (some s) = s

-- `withTracing`, with the bag of the trace context.
abbrev pub with_tracing : ⦃sdk : Sdk⦄ → Tracing → Bag → Context → Tracing × Context
with_tracing ⦃sdk⦄ st state ctx = (
  record st {
    bags = update st.bags st.next_bag (record {
      svc = state.svc;
      provider = state.provider;
      propagator = state.propagator;
      tracer = some (sdk.tracer state.provider instrumentation_library_name);
      spans = span_or_noop ctx.span ∷ [];
    });
    next_bag = suc st.next_bag;
  },
  record ctx { bag = some st.next_bag },
)
