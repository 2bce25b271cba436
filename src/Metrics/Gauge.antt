-- ===== src/Metrics/Gauge.antt =====
-- The gauge of active requests, and the labels of all metrics (metrics/http.go, metrics/grpc.go).
use clue.Base.{
  arith, ℕ, ◌≡◌, refl, sym, ap, ◌∙◌, Option, none, some, List, [], ◌∷◌, ◌++◌, append_assoc,
  append-nil, Bytes,
}
use clue.Metrics.Registry.{
  Labels, Effect, adds, subtracts, observes, Amount, HttpMetrics, GrpcMetrics,
}
use clue.Metrics.Length.{Serving, LengthReader, Body, new_length_reader}
use clue.Metrics.Http.{
  Outcome, returned, panicked, Request, HttpHandler, HttpEndpointDetails, metered, observe_http,
  serve_http, route_of, active_labels, final_labels,
}
use clue.Metrics.Http.{Platform as HttpPlatform}
use clue.Metrics.Rpc.{
  Platform, Peer, UnaryHandler, ServerStream, StreamWrapper, call_labels, code_labels,
  observe_unary, observe_duration, observe_size, serve_unary, serve_stream,
}

abbrev pub effects_of : {R W : Type 0} → Serving R W → List Effect
effects_of st = st.meters.effects

abbrev pub observations : List (ℕ × Labels × Amount) → List Effect
observations [] = []
observations ((metric, labels, amount) ∷ more) = observes metric labels amount ∷ observations more

-- The second effects are the first ones and some observations.
abbrev pub Observed : List Effect → List Effect → Type 0
Observed before after = (seen : List (ℕ × Labels × Amount)) × (after ≡ before ++ observations seen)

observations-append :
    (xs ys : List (ℕ × Labels × Amount))
    → observations (xs ++ ys) ≡ observations xs ++ observations ys
observations-append [] ys = refl
observations-append ((metric, labels, amount) ∷ xs) ys =
    ap (λ es. observes metric labels amount ∷ es) (observations-append xs ys)

no_more : (es : List Effect) → Observed es es
no_more es = ([], sym (append-nil es))

one_more :
    (es es' : List Effect) (metric : ℕ) (labels : Labels) (amount : Amount)
    → Observed es es'
    → Observed es (es' ++ observes metric labels amount ∷ [])
one_more es es' metric labels amount (seen, e) = (
  seen ++ (metric, labels, amount) ∷ [],
  ap (λ l. l ++ observes metric labels amount ∷ []) e
      ∙ append_assoc es (observations seen) (observes metric labels amount ∷ [])
      ∙ ap (λ l. es ++ l) (sym (observations-append seen ((metric, labels, amount) ∷ []))),
)

-- The handler `run` runs once, after the gauge has gone up and no other effect. When it ends, the
-- gauge goes down under the same labels, after nothing but observations, and after nothing if the
-- handler has panicked; and the call ends as the handler did.
abbrev pub Gauged :
    {R W A : Type 0}
    → ℕ
    → Labels
    → Serving R W
    → (Serving R W → Serving R W × Outcome A)
    → Serving R W × Outcome A
    → Type 0
Gauged {R} {W} gauge labels st run result =
    (begun : Serving R W) × (effects_of begun ≡ effects_of st ++ adds gauge labels ∷ [])
    × (result.1 ≡ (run begun).1)
    × (seen : List (ℕ × Labels × Amount)) × (effects_of result.0
        ≡ effects_of (run begun).0 ++ (observations seen ++ subtracts gauge labels ∷ []))
    × ((run begun).1 ≡ panicked → seen ≡ [])

module _ {R W A : Type 0} (gauge : ℕ) (labels : Labels) (st : Serving R W) where
  -- A call that sees the handler's end, observes something if the handler returned, and lowers the gauge.
  abbrev pub finish :
      (A → Serving R W → Serving R W) → Serving R W × Outcome A → Serving R W × Outcome A
  finish observe (st', panicked) = (metered st' (subtracts gauge labels), panicked)
  finish observe (st', returned a) = (metered (observe a st') (subtracts gauge labels), returned a)

  closed :
      (observe : A → Serving R W → Serving R W) (end : Serving R W × Outcome A)
      → ((a : A) (s : Serving R W) → Observed (effects_of s) (effects_of (observe a s)))
      → ((finish observe end).1 ≡ end.1)
        × (seen : List (ℕ × Labels × Amount)) × (effects_of (finish observe end).0
            ≡ effects_of end.0 ++ (observations seen ++ subtracts gauge labels ∷ []))
        × (end.1 ≡ panicked → seen ≡ [])
  closed observe (s, panicked) h = (refl, [], refl, λ q. refl)
  closed observe (s, returned a) h =
      let (seen, e) = h a s in
      (
        refl,
        seen,
        ap (λ l. l ++ subtracts gauge labels ∷ []) e
            ∙ append_assoc (effects_of s) (observations seen) (subtracts gauge labels ∷ []),
        λ q. ground (arith, q),
      )

  finish-Gauged :
      (begun : Serving R W) (run : Serving R W → Serving R W × Outcome A)
      (observe : A → Serving R W → Serving R W)
      → effects_of begun ≡ effects_of st ++ adds gauge labels ∷ []
      → ((a : A) (s : Serving R W) → Observed (effects_of s) (effects_of (observe a s)))
      → Gauged gauge labels st run (finish observe (run begun))
  finish-Gauged begun run observe e h =
      let (same, seen, e', quiet) = closed observe (run begun) h in
      (begun, e, same, seen, e', quiet)

observe_size-Observed :
    {R W : Type 0} (es : List Effect) (metric : ℕ) (labels : Labels) (size : Option ℕ)
    (st : Serving R W)
    → Observed es (effects_of st)
    → Observed es (effects_of (observe_size metric labels size st))
observe_size-Observed es metric labels none st h = h
observe_size-Observed es metric labels (some n) st h = one_more es _ _ _ _ h

-- What the handlers get: the request with a body that is counted, and the stream that is observed.
abbrev pub counted_request :
    {R W : Type 0} → Serving R W → Request R (Body W) → Request R (LengthReader W)
counted_request st req = record {
  info = req.info;
  body = (new_length_reader st req.body).1;
  ctx = some st.next_length;
}

abbrev pub wrapper_of :
    {W M E : Type 0} → GrpcMetrics → Bytes → ServerStream W M E → StreamWrapper W M E
wrapper_of grpc full_method stream = record {
  server_stream = stream;
  labels = call_labels full_method stream.peer;
  req_sizes = grpc.stream_message_sizes;
  resp_sizes = grpc.stream_result_sizes;
}

-- Around the handler of an HTTP request, of a unary call and of a stream, which may return or panic,
-- each middleware raises the gauge of active requests by one before the handler and lowers it by one
-- afterwards, under the same labels; it observes something only if the handler returns, and it ends as
-- the handler does.
pub requests-Gauged :
    {R W M E V : Type 0} (web : HttpPlatform R W) (rpc : Platform W M E) (http : HttpMetrics)
    (grpc : GrpcMetrics) (st : Serving R W) (resolver : Option (R → Bytes))
    (details : List HttpEndpointDetails) (h : HttpHandler R W (LengthReader W))
    (req : Request R (Body W)) (full_method : Bytes) (peer : Peer) (msg : M)
    (unary : UnaryHandler R W M E) (srv : V) (stream : ServerStream W M E)
    (streaming : Serving R W → V → StreamWrapper W M E → Serving R W × Outcome (Option E))
    → Gauged http.active_requests
        (active_labels web (route_of web resolver req.info) req.info)
        st
        (λ s. h s (counted_request st req))
        (serve_http web http resolver details h st req)
      × Gauged grpc.active_requests
          (call_labels full_method peer)
          st
          (λ s. unary s peer msg)
          (serve_unary rpc grpc st peer msg full_method unary)
      × Gauged grpc.active_requests
          (call_labels full_method stream.peer)
          st
          (λ s. streaming s srv (wrapper_of grpc full_method stream))
          (serve_stream rpc grpc st srv stream full_method streaming)
requests-Gauged web rpc http grpc st resolver details h req full_method peer msg unary srv stream
      streaming =
    (
      finish-Gauged http.active_requests _ st
          (metered (new_length_reader st req.body).0 (
            adds http.active_requests
              (active_labels web (route_of web resolver req.info) req.info)))
          (λ s. h s (counted_request st req))
          (λ got.
            observe_http web http
              (final_labels web details (route_of web resolver req.info) req.info got)
              (web.now st.world) st.next_length got)
          refl (λ got s. one_more _ _ _ _ _ (one_more _ _ _ _ _ (one_more _ _ _ _ _ (no_more _)))),
      finish-Gauged grpc.active_requests _ st
          (metered st (adds grpc.active_requests (call_labels full_method peer)))
          (λ s. unary s peer msg)
          (λ got. observe_unary rpc grpc (call_labels full_method peer) (rpc.now st.world) msg got)
          refl
          (λ got s.
            observe_size-Observed _ _ _ (rpc.proto_size got.0) _ (
              observe_size-Observed _ _ _ (rpc.proto_size msg) _ (one_more _ _ _ _ _ (no_more _)))),
      finish-Gauged grpc.active_requests _ st
          (metered st (adds grpc.active_requests (call_labels full_method stream.peer)))
          (λ s. streaming s srv (wrapper_of grpc full_method stream))
          (λ err.
            observe_duration rpc grpc.durations
              (code_labels rpc (call_labels full_method stream.peer) err) (rpc.now st.world))
          refl (λ got s. one_more _ _ _ _ _ (no_more _)),
    )
