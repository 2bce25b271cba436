-- ===== src/Metrics/Registry/Laws.antt =====
-- That the metrics of a bag are made once (metrics/context.go).
use clue.Base.{◌>>=◌, ℕ, ◌≡◌, Bool, Option, none, some, List, [], ◌∷◌}
use clue.Metrics.Registry.{
  Desc, Effect, Meters, HttpMetrics, GrpcMetrics, http_metrics, grpc_metrics,
}
use clue.Metrics.Registry.Kept.{
  OnSome, OnSome-bind, OnSome-mono, OnSome-some, OnSome-lem, Kept, Kept-refl, Kept-trans, HttpMade,
  GrpcMade, cached_http, cached_grpc, http_metrics-Made, grpc_metrics-Made,
}

-- A call of `HTTPMetrics` or `GRPCMetrics` with the bag at an address.
pub data Call : Type 0 where
  for_http for_grpc : ℕ → Call

module _ {R : Type 0} (accepts : ℕ → List Effect → Desc → Bool) where
  abbrev pub state_of : {M : Type 0} → Option (Meters R × M) → Option (Meters R)
  state_of none = none
  state_of (some made) = some made.0

  -- The state after some calls; none is the panic of one.
  unfoldable pub after_calls : List Call → Meters R → Option (Meters R)
  after_calls [] st = some st
  after_calls (for_http b ∷ calls) st = do
    st' ← state_of (http_metrics accepts st b)
    after_calls calls st'
  after_calls (for_grpc b ∷ calls) st = do
    st' ← state_of (grpc_metrics accepts st b)
    after_calls calls st'

  state_of-Kept :
      {M : Type 0} (st : Meters R) (P : Meters R × M → Type 0) (o : Option (Meters R × M))
      → OnSome (λ r. P r × Kept st r.0) o
      → OnSome (Kept st) (state_of o)
  unfolding OnSome
  state_of-Kept st P none h = tt
  state_of-Kept st P (some r) (h, k) = k

  after_calls-Kept : (calls : List Call) (st : Meters R) → OnSome (Kept st) (after_calls calls st)
  unfolding after_calls
  after_calls-Kept [] st = OnSome-some (Kept st) st (Kept-refl st)
  after_calls-Kept (for_http b ∷ calls) st =
      OnSome-bind (Kept st) (Kept st) (state_of (http_metrics accepts st b)) (after_calls calls)
        (state_of-Kept st _ (http_metrics accepts st b) (http_metrics-Made accepts st b))
        λ st' k.
          OnSome-mono (Kept st') (Kept st) (λ st'' h. Kept-trans st st' st'' k h)
            (after_calls calls st') (after_calls-Kept calls st')
  after_calls-Kept (for_grpc b ∷ calls) st =
      OnSome-bind (Kept st) (Kept st) (state_of (grpc_metrics accepts st b)) (after_calls calls)
        (state_of-Kept st _ (grpc_metrics accepts st b) (grpc_metrics-Made accepts st b))
        λ st' k.
          OnSome-mono (Kept st') (Kept st) (λ st'' h. Kept-trans st st' st'' k h)
            (after_calls calls st') (after_calls-Kept calls st')

  -- If `HTTPMetrics` returns for a bag, and any calls of `HTTPMetrics` and `GRPCMetrics` behind it do,
  -- for this bag or others, then a further call for the bag returns the same metrics and registers
  -- nothing, and so it is for `GRPCMetrics`.
  pub metrics_once :
      (st st1 st2 st3 st4 : Meters R) (b : ℕ) (h : HttpMetrics) (g : GrpcMetrics)
      (calls : List Call)
      → http_metrics accepts st b ≡ some (st1, h)
      → after_calls calls st1 ≡ some st2
      → grpc_metrics accepts st b ≡ some (st3, g)
      → after_calls calls st3 ≡ some st4
      → (http_metrics accepts st2 b ≡ some (st2, h)) × (grpc_metrics accepts st4 b ≡ some (st4, g))
  metrics_once st st1 st2 st3 st4 b h g calls e e' f f' =
      let made =
        OnSome-lem (HttpMade st b) (http_metrics accepts st b) (st1, h)
          (http_metrics-Made accepts st b) e in
      let kept =
        OnSome-lem (Kept st1) (after_calls calls st1) st2 (after_calls-Kept calls st1) e' in
      let made' =
        OnSome-lem (GrpcMade st b) (grpc_metrics accepts st b) (st3, g)
          (grpc_metrics-Made accepts st b) f in
      let kept' =
        OnSome-lem (Kept st3) (after_calls calls st3) st4 (after_calls-Kept calls st3) f' in
      (
        cached_http accepts st2 b h (kept.http_kept b h made.0),
        cached_grpc accepts st4 b g (kept'.grpc_kept b g made'.0),
      )
