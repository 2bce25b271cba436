-- ===== src/Metrics/Names/Registered.antt =====
-- With which label names metrics are registered (metrics/context.go).
use clue.Base.{
  ◌>>=◌, ℕ, ◌≡◌, refl, ◌⊎◌, inl, inr, Bool, Bool-cases, true, String, Option, List, [], ◌∷◌, ◌++◌,
}
use clue.Metrics.Registry.{
  Labels, Desc, Effect, registers, touches, adds, subtracts, observes, Bag, Meters, HttpMetrics,
  GrpcMetrics, http_labels, http_active_requests_labels, rpc_labels, rpc_no_code_labels,
  must_register, new_http_metrics, new_grpc_metrics,
}
use clue.Metrics.Registry.Kept.{OnSome, OnSome-bind, OnSome-none, OnSome-some}
use clue.Metrics.Names.{fits}

-- One of the effects registers the metric with these label names.
abbrev pub Registered : ℕ → List String → List Effect → Type 0
Registered metric names [] = ⊥
Registered metric names (registers registerer m desc ∷ es) =
    ((m ≡ metric) × (desc.labels ≡ names)) ⊎ Registered metric names es
Registered metric names (touches m labels ∷ es) = Registered metric names es
Registered metric names (adds m labels ∷ es) = Registered metric names es
Registered metric names (subtracts m labels ∷ es) = Registered metric names es
Registered metric names (observes m labels amount ∷ es) = Registered metric names es

-- The effects register the metric with exactly the names that the labels have.
abbrev pub Fit : List Effect → ℕ → Labels → Type 0
Fit es metric labels =
    (names : List String) × Registered metric names es × (fits names labels ≡ true)

Registered-append :
    (metric : ℕ) (names : List String) (es fs : List Effect)
    → Registered metric names es
    → Registered metric names (es ++ fs)
Registered-append metric names [] fs h = absurd h
Registered-append metric names (registers r m desc ∷ es) fs (inl h) = inl h
Registered-append metric names (registers r m desc ∷ es) fs (inr h) =
    inr (Registered-append metric names es fs h)
Registered-append metric names (touches m labels ∷ es) fs h = Registered-append metric names es fs h
Registered-append metric names (adds m labels ∷ es) fs h = Registered-append metric names es fs h
Registered-append metric names (subtracts m labels ∷ es) fs h =
    Registered-append metric names es fs h
Registered-append metric names (observes m labels amount ∷ es) fs h =
    Registered-append metric names es fs h

Registered-last :
    (es : List Effect) (r metric : ℕ) (desc : Desc)
    → Registered metric desc.labels (es ++ registers r metric desc ∷ [])
Registered-last [] r metric desc = inl (refl, refl)
Registered-last (registers r' m desc' ∷ es) r metric desc = inr (Registered-last es r metric desc)
Registered-last (touches m labels ∷ es) r metric desc = Registered-last es r metric desc
Registered-last (adds m labels ∷ es) r metric desc = Registered-last es r metric desc
Registered-last (subtracts m labels ∷ es) r metric desc = Registered-last es r metric desc
Registered-last (observes m labels amount ∷ es) r metric desc = Registered-last es r metric desc

module _ {R : Type 0} (accepts : ℕ → List Effect → Desc → Bool) where
  -- A registration registers its metric and keeps what is registered.
  abbrev Registers : Meters R → Desc → Meters R × ℕ → Type 0
  Registers st desc q =
      Registered q.1 desc.labels q.0.effects
      × ((metric : ℕ) (names : List String)
          → Registered metric names st.effects
          → Registered metric names q.0.effects)

  must_register-Registers :
      (st : Meters R) (bag : Bag R) (desc : Desc)
      → OnSome (Registers st desc) (must_register accepts st bag desc)
  must_register-Registers st bag desc =
      elim (Bool-cases (accepts bag.options.registerer st.effects desc)) [
        | inl ok ↦ rw ok (
            OnSome-some (Registers st desc) _ (
              Registered-last st.effects bag.options.registerer st.next_metric desc,
              λ metric names h. Registered-append metric names st.effects _ h,
            ))
        | inr refused ↦ rw refused (OnSome-none (Registers st desc))
      ]

  then_registered :
      {M : Type 0} (P : Meters R × M → Type 0) (st : Meters R) (bag : Bag R) (desc : Desc)
      (f : Meters R × ℕ → Option (Meters R × M))
      → ((q : Meters R × ℕ) → Registers st desc q → OnSome P (f q))
      → OnSome P (must_register accepts st bag desc >>= f)
  then_registered P st bag desc f h =
      OnSome-bind (Registers st desc) P (must_register accepts st bag desc) f
        (must_register-Registers st bag desc) h

  -- What the metrics of a bag are registered with.
  abbrev pub HttpRegistered : Meters R × HttpMetrics → Type 0
  HttpRegistered (st, m) =
      Registered m.durations http_labels st.effects
      × Registered m.request_sizes http_labels st.effects
      × Registered m.response_sizes http_labels st.effects
      × Registered m.active_requests http_active_requests_labels st.effects

  abbrev pub GrpcRegistered : Meters R × GrpcMetrics → Type 0
  GrpcRegistered (st, m) =
      Registered m.durations rpc_labels st.effects
      × Registered m.request_sizes rpc_labels st.effects
      × Registered m.response_sizes rpc_labels st.effects
      × Registered m.active_requests rpc_no_code_labels st.effects
      × Registered m.stream_message_sizes rpc_no_code_labels st.effects
      × Registered m.stream_result_sizes rpc_no_code_labels st.effects

  pub new_http_metrics-Registered :
      (st : Meters R) (b : ℕ) (bag : Bag R)
      → OnSome HttpRegistered (new_http_metrics accepts st b bag)
  new_http_metrics-Registered st b bag = then_registered _ st bag _ _ λ d (rd, kd).
      then_registered _ d.0 bag _ _ λ q (rq, kq). then_registered _ q.0 bag _ _ λ r (rr, kr).
        then_registered _ r.0 bag _ _ λ a (ra, ka).
          OnSome-some _ _ (ka _ _ (kr _ _ (kq _ _ rd)), ka _ _ (kr _ _ rq), ka _ _ rr, ra)

  pub new_grpc_metrics-Registered :
      (st : Meters R) (b : ℕ) (bag : Bag R)
      → OnSome GrpcRegistered (new_grpc_metrics accepts st b bag)
  new_grpc_metrics-Registered st b bag = then_registered _ st bag _ _ λ d (rd, kd).
      then_registered _ d.0 bag _ _ λ q (rq, kq). then_registered _ q.0 bag _ _ λ r (rr, kr).
        then_registered _ r.0 bag _ _ λ m (rm, km). then_registered _ m.0 bag _ _ λ s (rs, ks).
          then_registered _ s.0 bag _ _ λ a (ra, ka). OnSome-some _ _ (
            ka _ _ (ks _ _ (km _ _ (kr _ _ (kq _ _ rd)))),
            ka _ _ (ks _ _ (km _ _ (kr _ _ rq))),
            ka _ _ (ks _ _ (km _ _ rr)),
            ra,
            ka _ _ (ks _ _ rm),
            ka _ _ rs,
          )
