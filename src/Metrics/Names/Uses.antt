-- ===== src/Metrics/Names/Uses.antt =====
-- That the middleware of metrics uses the metrics with the names of labels that they are registered with
-- (metrics/http.go, metrics/grpc.go).
use clue.Base.{
  ℕ, ◌≡◌, refl, sym, ap, ◌∙◌, inl, inr, Bool, Option, Option-cases, none, some, List, [], ◌∷◌, ◌++◌,
  append-nil, append_assoc, Bytes, All, All-append,
}
use clue.Metrics.Registry.{
  Labels, Desc, Effect, registers, touches, adds, subtracts, observes, Bag, Meters, HttpMetrics,
  GrpcMetrics, new_http_metrics, new_grpc_metrics, http_labels, http_active_requests_labels,
  rpc_labels, rpc_no_code_labels,
}
use clue.Metrics.Registry.Kept.{OnSome-lem}
use clue.Metrics.Length.{Serving, LengthReader, Body, new_length_reader}
use clue.Metrics.Http.{
  Outcome, returned, panicked, Request, HttpHandler, HttpEndpointDetails, InitMetricDetails,
  metered, serve_http, observe_http, route_of, active_labels, final_labels, init_codes,
  init_details, init_metrics,
}
use clue.Metrics.Http.{Platform as HttpPlatform}
use clue.Metrics.Rpc.{
  Platform, Peer, UnaryHandler, ServerStream, StreamWrapper, call_labels, code_labels,
  observe_unary, observe_duration, observe_size, serve_unary, serve_stream, recv_msg, send_msg,
}
use clue.Metrics.Gauge.{effects_of, counted_request, wrapper_of, finish}
use clue.Metrics.Names.{http_fits, call_fits, code_fits}
use clue.Metrics.Names.Registered.{
  Registered, Fit, HttpRegistered, GrpcRegistered, new_http_metrics-Registered,
  new_grpc_metrics-Registered,
}

-- The metric that an effect uses is registered with the names of its labels.
abbrev pub Fits : List Effect → Effect → Type 0
Fits done (registers r m desc) = Unit
Fits done (touches m labels) = Fit done m labels
Fits done (adds m labels) = Fit done m labels
Fits done (subtracts m labels) = Fit done m labels
Fits done (observes m labels amount) = Fit done m labels

-- The second effects are the first ones and some that fit.
abbrev pub Used : List Effect → List Effect → List Effect → Type 0
Used done before after = (es : List Effect) × (after ≡ before ++ es) × All (Fits done) es

pub no_use : (done es : List Effect) → Used done es es
no_use done es = ([], sym (append-nil es), tt)

use_one :
    (done before es : List Effect) (e : Effect)
    → Used done before es
    → Fits done e
    → Used done before (es ++ e ∷ [])
use_one done before es e (fs, at, fit) h = (
  fs ++ e ∷ [],
  ap (λ l. l ++ e ∷ []) at ∙ append_assoc before fs (e ∷ []),
  All-append (Fits done) fs (e ∷ []) fit (h, tt),
)

Used-trans : (done a b c : List Effect) → Used done a b → Used done b c → Used done a c
Used-trans done a b c (es, at, fit) (fs, at', fit') = (
  es ++ fs,
  at' ∙ ap (λ l. l ++ fs) at ∙ append_assoc a es fs,
  All-append (Fits done) es fs fit fit',
)

module _ {R W : Type 0} (done before : List Effect) where
  -- A handler in between, and what is observed behind it.
  finish-Used :
      {A : Type 0} (gauge : ℕ) (labels : Labels) (st : Serving R W)
      (observe : A → Serving R W → Serving R W) (end : Serving R W × Outcome A)
      → Used done before (effects_of end.0)
      → Fit done gauge labels
      → ((a : A) (s : Serving R W)
          → Used done before (effects_of s)
          → Used done before (effects_of (observe a s)))
      → Used done before (effects_of (finish gauge labels st observe end).0)
  finish-Used gauge labels st observe (s, panicked) used fit h =
      use_one done before (effects_of s) (subtracts gauge labels) used fit
  finish-Used gauge labels st observe (s, returned a) used fit h =
      use_one done before (effects_of (observe a s)) (subtracts gauge labels) (h a s used) fit

  observe_size-Used :
      (metric : ℕ) (labels : Labels) (size : Option ℕ) (st : Serving R W)
      → Used done before (effects_of st)
      → Fit done metric labels
      → Used done before (effects_of (observe_size metric labels size st))
  observe_size-Used metric labels none st used fit = used
  observe_size-Used metric labels (some n) st used fit = use_one done before _ _ used fit

module _ {R : Type 0} (done before : List Effect) (metrics : HttpMetrics)
    (durations : Registered metrics.durations http_labels done) where
  init_codes-Used :
      (host : Bytes) (detail : HttpEndpointDetails) (more : List Bytes) (st : Meters R)
      → Used done before st.effects
      → Used done before (init_codes metrics host detail more st).effects
  init_codes-Used host detail [] st used = used
  init_codes-Used host detail (code ∷ more) st used =
      init_codes-Used host detail more _
        (use_one done before st.effects _ used (http_labels, durations, refl))

  init_details-Used :
      (init : InitMetricDetails) (details : List HttpEndpointDetails) (st : Meters R)
      → Used done before st.effects
      → Used done before (init_details metrics init details st).effects
  init_details-Used init [] st used = used
  init_details-Used init (detail ∷ details) st used =
      init_details-Used init details _ (init_codes-Used init.host detail init.status_codes st used)

module _ {R W : Type 0} (done : List Effect) (http : HttpMetrics) (web : HttpPlatform R W) where
  serve_http-Used :
      Registered http.durations http_labels done
      → Registered http.request_sizes http_labels done
      → Registered http.response_sizes http_labels done
      → Registered http.active_requests http_active_requests_labels done
      → (resolver : Option (R → Bytes)) (details : List HttpEndpointDetails)
        (h : HttpHandler R W (LengthReader W)) (st : Serving R W) (req : Request R (Body W))
      → ((s : Serving R W) → Used done (effects_of s) (effects_of (h s (counted_request st req)).0))
      → Used done (effects_of st) (effects_of (serve_http web http resolver details h st req).0)
  serve_http-Used d q r a resolver details h st req handled =
      let route = route_of web resolver req.info in
      let labels = active_labels web route req.info in
      let gauge : Fit done http.active_requests labels = (http_active_requests_labels, a, refl) in
      let begun = metered (new_length_reader st req.body).0 (adds http.active_requests labels) in
      let up =
        use_one done (effects_of st) (effects_of st) (adds http.active_requests labels)
          (no_use done (effects_of st)) gauge in
      finish-Used done (effects_of st) http.active_requests labels st
        (λ got.
          observe_http web http (final_labels web details route req.info got) (web.now st.world)
            st.next_length got)
        (h begun (counted_request st req))
        (Used-trans done (effects_of st) (effects_of begun) _ up (handled begun)) gauge
        (λ got s used.
          let fit = http_fits web route req.info details got in
          use_one done _ _ _
            (use_one done _ _ _ (use_one done _ _ _ used (http_labels, d, fit))
              (http_labels, q, fit))
            (http_labels, r, fit))

module _ {R W M E : Type 0} (done : List Effect) (grpc : GrpcMetrics) (rpc : Platform W M E) where
  serve_unary-Used :
      Registered grpc.durations rpc_labels done
      → Registered grpc.request_sizes rpc_labels done
      → Registered grpc.response_sizes rpc_labels done
      → Registered grpc.active_requests rpc_no_code_labels done
      → (st : Serving R W) (peer : Peer) (msg : M) (full_method : Bytes)
        (unary : UnaryHandler R W M E)
      → ((s : Serving R W) → Used done (effects_of s) (effects_of (unary s peer msg).0))
      → Used done
          (effects_of st)
          (effects_of (serve_unary rpc grpc st peer msg full_method unary).0)
  serve_unary-Used d q r a st peer msg full_method unary handled =
      let labels = call_labels full_method peer in
      let gauge : Fit done grpc.active_requests labels =
        (rpc_no_code_labels, a, call_fits full_method peer) in
      let begun = metered st (adds grpc.active_requests labels) in
      let up =
        use_one done (effects_of st) (effects_of st) (adds grpc.active_requests labels)
          (no_use done (effects_of st)) gauge in
      finish-Used done (effects_of st) grpc.active_requests labels st
        (λ got. observe_unary rpc grpc labels (rpc.now st.world) msg got) (unary begun peer msg)
        (Used-trans done (effects_of st) (effects_of begun) _ up (handled begun)) gauge
        (λ got s used.
          let fit = code_fits rpc full_method peer got.1 in
          observe_size-Used done _ _ _ (rpc.proto_size got.0) _
            (observe_size-Used done _ _ _ (rpc.proto_size msg) _
              (use_one done _ _ _ used (rpc_labels, d, fit)) (rpc_labels, q, fit))
            (rpc_labels, r, fit))

  serve_stream-Used :
      {V : Type 0}
      → Registered grpc.durations rpc_labels done
      → Registered grpc.active_requests rpc_no_code_labels done
      → (st : Serving R W) (srv : V) (stream : ServerStream W M E) (full_method : Bytes)
        (streaming : Serving R W → V → StreamWrapper W M E → Serving R W × Outcome (Option E))
      → ((s : Serving R W)
          → Used done
              (effects_of s)
              (effects_of (streaming s srv (wrapper_of grpc full_method stream)).0))
      → Used done
          (effects_of st)
          (effects_of (serve_stream rpc grpc st srv stream full_method streaming).0)
  serve_stream-Used d a st srv stream full_method streaming handled =
      let labels = call_labels full_method stream.peer in
      let gauge : Fit done grpc.active_requests labels =
        (rpc_no_code_labels, a, call_fits full_method stream.peer) in
      let begun = metered st (adds grpc.active_requests labels) in
      let up =
        use_one done (effects_of st) (effects_of st) (adds grpc.active_requests labels)
          (no_use done (effects_of st)) gauge in
      finish-Used done (effects_of st) grpc.active_requests labels st
        (λ err. observe_duration rpc grpc.durations (code_labels rpc labels err) (rpc.now st.world))
        (streaming begun srv (wrapper_of grpc full_method stream))
        (Used-trans done (effects_of st) (effects_of begun) _ up (handled begun)) gauge
        (λ err s used.
          use_one done _ _ _ used (rpc_labels, d, code_fits rpc full_method stream.peer err))

  recv_msg-Used :
      Registered grpc.stream_message_sizes rpc_no_code_labels done
      → (full_method : Bytes) (stream : ServerStream W M E) (st : Serving R W)
      → Used done
          (effects_of st)
          (effects_of (recv_msg rpc (wrapper_of grpc full_method stream) st).0)
  recv_msg-Used m full_method stream st = elim (Option-cases (stream.recv_msg st.world).2) [
    | inr (err, e) ↦ rw e (no_use done (effects_of st))
    | inl e ↦ rw e (
        observe_size-Used done (effects_of st) _ _ (rpc.proto_size (stream.recv_msg st.world).1) _
          (no_use done (effects_of st)) (rpc_no_code_labels, m, call_fits full_method stream.peer))
  ]

  pub send_msg-Used :
      Registered grpc.stream_result_sizes rpc_no_code_labels done
      → (full_method : Bytes) (stream : ServerStream W M E) (st : Serving R W) (msg : M)
      → Used done
          (effects_of st)
          (effects_of (send_msg rpc (wrapper_of grpc full_method stream) st msg).0)
  send_msg-Used m full_method stream st msg =
      observe_size-Used done (effects_of st) _ _ (rpc.proto_size msg) st
        (no_use done (effects_of st)) (rpc_no_code_labels, m, call_fits full_method stream.peer)

-- For a bag's metrics as they are made and registered, the labels of all uses have exactly the names
-- that the metric is registered with, as Prometheus' `With` demands: where HTTP initializes the
-- durations, around the handler of an HTTP request, of a unary call and of a stream, which may return
-- or panic, and when the stream's wrapper receives or sends a message. What a handler itself does to
-- metrics fits.
pub labels_fit :
    {R W M E V : Type 0} (accepts : ℕ → List Effect → Desc → Bool) (st st1 st2 : Meters R) (b : ℕ)
    (bag : Bag R) (http : HttpMetrics) (grpc : GrpcMetrics) (web : HttpPlatform R W)
    (rpc : Platform W M E) (sv : Serving R W) (resolver : Option (R → Bytes))
    (init : InitMetricDetails) (h : HttpHandler R W (LengthReader W)) (req : Request R (Body W))
    (full_method : Bytes) (peer : Peer) (msg : M) (unary : UnaryHandler R W M E) (srv : V)
    (stream : ServerStream W M E)
    (streaming : Serving R W → V → StreamWrapper W M E → Serving R W × Outcome (Option E))
    → new_http_metrics accepts st b bag ≡ some (st1, http)
    → new_grpc_metrics accepts st b bag ≡ some (st2, grpc)
    → ((s : Serving R W)
        → Used st1.effects (effects_of s) (effects_of (h s (counted_request sv req)).0))
    → ((s : Serving R W) → Used st2.effects (effects_of s) (effects_of (unary s peer msg).0))
    → ((s : Serving R W)
        → Used st2.effects
            (effects_of s)
            (effects_of (streaming s srv (wrapper_of grpc full_method stream)).0))
    → Used st1.effects st1.effects (init_metrics http (some init) st1).effects
      × Used st1.effects
          (effects_of sv)
          (effects_of (serve_http web http resolver init.endpoint_details h sv req).0)
      × Used st2.effects
          (effects_of sv)
          (effects_of (serve_unary rpc grpc sv peer msg full_method unary).0)
      × Used st2.effects
          (effects_of sv)
          (effects_of (serve_stream rpc grpc sv srv stream full_method streaming).0)
      × Used st2.effects
          (effects_of sv)
          (effects_of (recv_msg rpc (wrapper_of grpc full_method stream) sv).0)
      × Used st2.effects
          (effects_of sv)
          (effects_of (send_msg rpc (wrapper_of grpc full_method stream) sv msg).0)
labels_fit accepts st st1 st2 b bag http grpc web rpc sv resolver init h req full_method peer msg
      unary srv stream streaming e e' handled handled' handled'' =
    let (hd, hq, hr, ha) =
      OnSome-lem (HttpRegistered accepts) _ (st1, http)
        (new_http_metrics-Registered accepts st b bag) e in
    let (gd, gq, gr, ga, gm, gs) =
      OnSome-lem (GrpcRegistered accepts) _ (st2, grpc)
        (new_grpc_metrics-Registered accepts st b bag) e' in
    (
      init_details-Used st1.effects st1.effects http hd init init.endpoint_details st1
          (no_use st1.effects st1.effects),
      serve_http-Used st1.effects http web hd hq hr ha resolver init.endpoint_details h sv req
          handled,
      serve_unary-Used st2.effects grpc rpc gd gq gr ga sv peer msg full_method unary handled',
      serve_stream-Used st2.effects grpc rpc gd ga sv srv stream full_method streaming handled'',
      recv_msg-Used st2.effects grpc rpc gm full_method stream sv,
      send_msg-Used st2.effects grpc rpc gs full_method stream sv msg,
    )
