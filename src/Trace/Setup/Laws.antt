-- ===== src/Trace/Setup/Laws.antt =====
-- What `Context` of trace/context.go returns.
use clue.Base.{
  ℕ, ◌≡◌, ◌⊎◌, inl, inr, true, false, String, Option, none, some, List, [], ◌∷◌, Bytes, codes,
}
use clue.Base.Int.{pos}
use clue.Trace.Span.{Sdk, Context, Tracing, start_span}
use clue.Trace.Setup.{Options, TraceOption, Maker, trace_context}

-- The options and their order: each is applied to what the ones before it return, up to an error.
abbrev pub Applied : Options → List TraceOption → Bytes ⊎ Options → Type 0
Applied o [] r = r ≡ inr o
Applied o (opt ∷ opts) r =
    ((err : Bytes) × (opt o ≡ inl err) × (r ≡ inl err))
    ⊎ ((o' : Options) × (opt o ≡ inr o') × Applied o' opts r)

abbrev pub ResourceOf : ⦃maker : Maker⦄ → Option ℕ → String → ℕ → Type 0
ResourceOf ⦃maker⦄ none svc resource = resource ≡ maker.named_resource svc
ResourceOf (some given) svc resource = resource ≡ given

-- The provider: the one that does nothing if tracing is disabled, or else one for the exporter, with a
-- sampler of the two rates and the resource of the options or one of the service's name.
abbrev pub IsProvider : ⦃maker : Maker⦄ → Options → String → ℕ → Type 0
IsProvider ⦃maker⦄ o svc provider =
    ((o.disabled ≡ true) × (provider ≡ maker.noop_provider))
    ⊎ ((o.disabled ≡ false)
        × ((exporter : ℕ) × (resource : ℕ) × (o.exporter ≡ some exporter)
            × ResourceOf o.resource svc resource
            × (provider
                ≡ maker.tracer_provider
                    (record {
                      s = maker.goa_sampler o.max_sampling_rate o.sample_size;
                      max_sampling_rate = o.max_sampling_rate;
                      sample_size = o.sample_size;
                    })
                    o.parent_sampler_options resource exporter)))

-- What holds of a result of `Context` for a service.
abbrev pub IsSetUp :
    ⦃sdk : Sdk⦄ ⦃maker : Maker⦄
    → Tracing
    → Context
    → String
    → Bytes ⊎ Options
    → Bytes ⊎ (Tracing × Context)
    → Type 0
IsSetUp st ctx svc (inl err) r = r ≡ inl err
IsSetUp st ctx svc (inr o) (inl err) =
    (err ≡ codes "missing exporter") × (o.disabled ≡ false) × (o.exporter ≡ none)
IsSetUp st ctx svc (inr o) (inr (st', ctx')) =
    (ctx' ≡ record ctx { bag = some st.next_bag })
    × IsProvider o svc (st'.bags st.next_bag).provider
    × ((st'.bags st.next_bag).svc ≡ svc)
    × ((st'.bags st.next_bag).propagator ≡ o.propagator)
    × ((name : String) (keyvals : List String) → start_span st' ctx' name keyvals ≡ (st', ctx'))
    × (st'.calls ≡ st.calls)

module _ ⦃sdk : Sdk⦄ ⦃maker : Maker⦄ where
  -- The options of a call without any: two requests are sampled per second at most, the sample size is
  -- ten, and the propagator is propagation.TraceContext{}.
  abbrev pub defaults : Options
  defaults = record {
    max_sampling_rate = pos 2;
    sample_size = pos 10;
    exporter = none;
    propagator = maker.trace_context;
    parent_sampler_options = [];
    resource = none;
    disabled = false;
  }
