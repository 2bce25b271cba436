-- ===== src/Metrics/Registry/Kept.antt =====
-- That `HTTPMetrics` and `GRPCMetrics` keep the metrics of all bags (metrics/context.go).
use clue.Base.{
  ◌>>=◌, subst, ℕ, ◌≡◌, refl, sym, ap, ◌∙◌, inl, inr, Bool, Bool-cases, ◌==◌, Option, none, some,
  List, update, update_self, Option-cases, arith,
}
use clue.Metrics.Registry.{
  Desc, Effect, Bag, Meters, HttpMetrics, GrpcMetrics, must_register, keep_http_metrics,
  keep_grpc_metrics, new_http_metrics, http_metrics, new_grpc_metrics, grpc_metrics,
}

-- What holds of a value if there is one.
unfoldable pub OnSome : {A : Type 0} → (A → Type 0) → Option A → Type 0
OnSome P none = Unit
OnSome P (some a) = P a

pub OnSome-bind :
    {A B : Type 0} (Q : A → Type 0) (P : B → Type 0) (m : Option A) (f : A → Option B)
    → OnSome Q m
    → ((a : A) → Q a → OnSome P (f a))
    → OnSome P (m >>= f)
unfolding OnSome ◌>>=◌
OnSome-bind Q P none f q h = tt
OnSome-bind Q P (some a) f q h = h a q

pub OnSome-none : {A : Type 0} (P : A → Type 0) → OnSome P none
unfolding OnSome
OnSome-none P = tt

pub OnSome-mono :
    {A : Type 0} (P Q : A → Type 0)
    → ((a : A) → P a → Q a)
    → (o : Option A) → OnSome P o
    → OnSome Q o
unfolding OnSome
OnSome-mono P Q f none h = tt
OnSome-mono P Q f (some a) h = f a h

pub OnSome-some : {A : Type 0} (P : A → Type 0) (a : A) → P a → OnSome P (some a)
unfolding OnSome
OnSome-some P a h = h

pub OnSome-lem :
    {A : Type 0} (P : A → Type 0) (m : Option A) (a : A) → OnSome P m → m ≡ some a → P a
unfolding OnSome
OnSome-lem P m a h e = subst (OnSome P) e h

module _ {R : Type 0} where
  -- The metrics of every bag are kept.
  pub record Kept (st st' : Meters R) : Type 0 where
    pub http_kept :
        (b : ℕ) (h : HttpMetrics)
        → (st.bags b).http_metrics ≡ some h
        → (st'.bags b).http_metrics ≡ some h
    pub grpc_kept :
        (b : ℕ) (g : GrpcMetrics)
        → (st.bags b).grpc_metrics ≡ some g
        → (st'.bags b).grpc_metrics ≡ some g

  pub Kept-refl : (st : Meters R) → Kept st st
  Kept-refl st = record { http_kept = λ b h e. e; grpc_kept = λ b g e. e }

  pub Kept-trans : (st st' st'' : Meters R) → Kept st st' → Kept st' st'' → Kept st st''
  Kept-trans st st' st'' k k' = record {
    http_kept = λ b h e. k'.http_kept b h (k.http_kept b h e);
    grpc_kept = λ b g e. k'.grpc_kept b g (k.grpc_kept b g e);
  }

  -- A bag in place of one whose metrics it keeps.
  update-Kept :
      (st st' : Meters R) (b : ℕ) (bag : Bag R)
      → st'.bags ≡ update st.bags b bag
      → ((h : HttpMetrics) → (st.bags b).http_metrics ≡ some h → bag.http_metrics ≡ some h)
      → ((g : GrpcMetrics) → (st.bags b).grpc_metrics ≡ some g → bag.grpc_metrics ≡ some g)
      → Kept st st'
  update-Kept st st' b bag e http grpc = record {
    http_kept = λ q h h'. ap (λ (bags : ℕ → Bag R). (bags q).http_metrics) e ∙ http_at q h h';
    grpc_kept = λ q g h'. ap (λ (bags : ℕ → Bag R). (bags q).grpc_metrics) e ∙ grpc_at q g h';
  }
    where
      http_at :
          (q : ℕ) (h : HttpMetrics)
          → (st.bags q).http_metrics ≡ some h
          → (update st.bags b bag q).http_metrics ≡ some h
      http_at q h h' = elim (Bool-cases (b == q)) [
        | inl same ↦
            let e' : b ≡ q = ground (arith, same) in
            rw same (http h (subst (λ n. (st.bags n).http_metrics ≡ some h) (sym e') h'))
        | inr other ↦ rw other h'
      ]

      grpc_at :
          (q : ℕ) (g : GrpcMetrics)
          → (st.bags q).grpc_metrics ≡ some g
          → (update st.bags b bag q).grpc_metrics ≡ some g
      grpc_at q g h' = elim (Bool-cases (b == q)) [
        | inl same ↦
            let e' : b ≡ q = ground (arith, same) in
            rw same (grpc g (subst (λ n. (st.bags n).grpc_metrics ≡ some g) (sym e') h'))
        | inr other ↦ rw other h'
      ]

  -- What a call for a bag has made: the metrics are the bag's, and all metrics are kept.
  abbrev pub HttpMade : Meters R → ℕ → Meters R × HttpMetrics → Type 0
  HttpMade st b r = ((r.0.bags b).http_metrics ≡ some r.1) × Kept st r.0

  abbrev pub GrpcMade : Meters R → ℕ → Meters R × GrpcMetrics → Type 0
  GrpcMade st b r = ((r.0.bags b).grpc_metrics ≡ some r.1) × Kept st r.0

  abbrev SameBags : Meters R → Meters R × ℕ → Type 0
  SameBags st q = q.0.bags ≡ st.bags

module _ {R : Type 0} (accepts : ℕ → List Effect → Desc → Bool) where
  must_register-SameBags :
      (st st' : Meters R) (bag : Bag R) (desc : Desc)
      → st'.bags ≡ st.bags
      → OnSome (SameBags st) (must_register accepts st' bag desc)
  must_register-SameBags st st' bag desc e =
      elim (Bool-cases (accepts bag.options.registerer st'.effects desc)) [
        | inl ok ↦ rw ok (OnSome-some (SameBags st) _ e)
        | inr refused ↦ rw refused (OnSome-none (SameBags st))
      ]

  -- A registration in front of more.
  registered :
      {M : Type 0} (P : Meters R × M → Type 0) (st st' : Meters R) (bag : Bag R) (desc : Desc)
      (f : Meters R × ℕ → Option (Meters R × M))
      → st'.bags ≡ st.bags
      → ((q : Meters R × ℕ) → q.0.bags ≡ st.bags → OnSome P (f q))
      → OnSome P (must_register accepts st' bag desc >>= f)
  registered P st st' bag desc f e h =
      OnSome-bind (SameBags st) P (must_register accepts st' bag desc) f
        (must_register-SameBags st st' bag desc e) h

  keep_http-Made :
      (st a : Meters R) (b : ℕ) (metrics : HttpMetrics)
      → (st.bags b).http_metrics ≡ none
      → a.bags ≡ st.bags
      → HttpMade st b (keep_http_metrics a b (st.bags b) metrics)
  keep_http-Made st a b metrics new e = (
    ap (λ (bag : Bag R). bag.http_metrics)
        (update_self a.bags b (record (st.bags b) { http_metrics = some metrics })),
    update-Kept st (keep_http_metrics a b (st.bags b) metrics).0 b
        (record (st.bags b) { http_metrics = some metrics })
        (ap (λ bags. update bags b (record (st.bags b) { http_metrics = some metrics })) e)
        (λ h old. let no : none ≡ some h = sym new ∙ old in ground (arith, no)) (λ g old. old),
  )

  keep_grpc-Made :
      (st a : Meters R) (b : ℕ) (metrics : GrpcMetrics)
      → (st.bags b).grpc_metrics ≡ none
      → a.bags ≡ st.bags
      → GrpcMade st b (keep_grpc_metrics a b (st.bags b) metrics)
  keep_grpc-Made st a b metrics new e = (
    ap (λ (bag : Bag R). bag.grpc_metrics)
        (update_self a.bags b (record (st.bags b) { grpc_metrics = some metrics })),
    update-Kept st (keep_grpc_metrics a b (st.bags b) metrics).0 b
        (record (st.bags b) { grpc_metrics = some metrics })
        (ap (λ bags. update bags b (record (st.bags b) { grpc_metrics = some metrics })) e)
        (λ h old. old) (λ g old. let no : none ≡ some g = sym new ∙ old in ground (arith, no)),
  )

  new_http_metrics-Made :
      (st : Meters R) (b : ℕ)
      → (st.bags b).http_metrics ≡ none
      → OnSome (HttpMade st b) (new_http_metrics accepts st b (st.bags b))
  new_http_metrics-Made st b new =
      let bag = st.bags b in
      registered _ st _ bag _ _ refl λ d ed. registered _ st _ bag _ _ ed λ q eq.
        registered _ st _ bag _ _ eq λ r er.
          registered _ st _ bag _ _ er λ a ea. OnSome-some _ _ (keep_http-Made st a.0 b _ new ea)

  new_grpc_metrics-Made :
      (st : Meters R) (b : ℕ)
      → (st.bags b).grpc_metrics ≡ none
      → OnSome (GrpcMade st b) (new_grpc_metrics accepts st b (st.bags b))
  new_grpc_metrics-Made st b new =
      let bag = st.bags b in
      registered _ st _ bag _ _ refl λ d ed. registered _ st _ bag _ _ ed λ q eq.
        registered _ st _ bag _ _ eq λ r er. registered _ st _ bag _ _ er λ m em.
          registered _ st _ bag _ _ em λ s es.
            registered _ st _ bag _ _ es λ a ea. OnSome-some _ _ (keep_grpc-Made st a.0 b _ new ea)

  pub cached_http :
      (st : Meters R) (b : ℕ) (metrics : HttpMetrics)
      → (st.bags b).http_metrics ≡ some metrics
      → http_metrics accepts st b ≡ some (st, metrics)
  unfolding http_metrics
  cached_http st b metrics e = rw (http_metrics, e) refl

  pub cached_grpc :
      (st : Meters R) (b : ℕ) (metrics : GrpcMetrics)
      → (st.bags b).grpc_metrics ≡ some metrics
      → grpc_metrics accepts st b ≡ some (st, metrics)
  unfolding grpc_metrics
  cached_grpc st b metrics e = rw (grpc_metrics, e) refl

  abbrev elim_http : Meters R → ℕ → Option HttpMetrics → Option (Meters R × HttpMetrics)
  elim_http st b o = elim o [
    | some metrics ↦ some (st, metrics)
    | none ↦ new_http_metrics accepts st b (st.bags b)
  ]

  pub http_metrics-Made :
      (st : Meters R) (b : ℕ) → OnSome (HttpMade st b) (http_metrics accepts st b)
  unfolding http_metrics
  http_metrics-Made st b = elim (Option-cases (st.bags b).http_metrics) [
    | inl e ↦ subst (OnSome _) (sym (ap (elim_http st b) e)) (new_http_metrics-Made st b e)
    | inr (metrics, e) ↦
        subst (OnSome _) (sym (cached_http st b metrics e))
          (OnSome-some (HttpMade st b) (st, metrics) (e, Kept-refl st))
  ]

  abbrev elim_grpc : Meters R → ℕ → Option GrpcMetrics → Option (Meters R × GrpcMetrics)
  elim_grpc st b o = elim o [
    | some metrics ↦ some (st, metrics)
    | none ↦ new_grpc_metrics accepts st b (st.bags b)
  ]

  pub grpc_metrics-Made :
      (st : Meters R) (b : ℕ) → OnSome (GrpcMade st b) (grpc_metrics accepts st b)
  unfolding grpc_metrics
  grpc_metrics-Made st b = elim (Option-cases (st.bags b).grpc_metrics) [
    | inl e ↦ subst (OnSome _) (sym (ap (elim_grpc st b) e)) (new_grpc_metrics-Made st b e)
    | inr (metrics, e) ↦
        subst (OnSome _) (sym (cached_grpc st b metrics e))
          (OnSome-some (GrpcMade st b) (st, metrics) (e, Kept-refl st))
  ]
