-- ===== src/Metrics/Rpc.antt =====
-- The gRPC interceptors of metrics/grpc.go. Streams, messages and the status of an error are the
-- library's.
use clue.Base.{◌>>=◌, ℕ, Bool, Option, none, some, List, [], Bytes, insert}
use clue.Base.Int.{decimal}
use clue.Metrics.Registry.{
  Labels, Desc, number, as_ms, Effect, adds, subtracts, observes, GrpcMetrics, Meters, Context,
  grpc_metrics,
}
use clue.Metrics.Length.{Serving}
use clue.Metrics.Http.{Outcome, returned, panicked, metered}
use clue.Metrics.Grpc.{parse_addr, parse_grpc_full_method_name}

-- What the interceptors take from their environment: the code of the status of an error or none, the
-- size of a value that is a proto.Message, and the clock in nanoseconds.
pub record Platform (W M E : Type 0) : Type 0 where
  pub code : Option E → ℕ
  pub proto_size : M → Option ℕ
  pub now : W → ℕ
  pub time_since : W → ℕ → ℕ

-- The address of the peer in the context of a call.
abbrev pub Peer : Type 0
Peer = Option Bytes

abbrev pub peer_labels : Peer → Labels → Labels
peer_labels (some addr) labels =
    let (ip, port) = parse_addr addr in insert "net_peer_port" port (insert "net_peer_ip" ip labels)
peer_labels none labels = insert "net_peer_port" [] (insert "net_peer_ip" [] labels)

abbrev pub call_labels : Bytes → Peer → Labels
call_labels full_method peer =
    let (service, method) = parse_grpc_full_method_name full_method in
    peer_labels peer (insert "rpc_method" method (insert "rpc_service" service []))

abbrev pub UnaryHandler : Type 0 → Type 0 → Type 0 → Type 0 → Type 0
UnaryHandler R W M E = Serving R W → Peer → M → Serving R W × Outcome (M × Option E)

-- grpc.ServerStream: what a receive gives counts if there is no error.
pub record ServerStream (W M E : Type 0) : Type 0 where
  pub peer : Peer
  pub recv_msg : W → W × M × Option E
  pub send_msg : W → M → W × Option E

-- `streamWrapper`, with its labels as they are while the handler runs.
pub record StreamWrapper (W M E : Type 0) : Type 0 where
  pub server_stream : ServerStream W M E
  pub labels : Labels
  pub req_sizes : ℕ
  pub resp_sizes : ℕ

module _ {R W : Type 0} where
  abbrev pub observe_size : ℕ → Labels → Option ℕ → Serving R W → Serving R W
  observe_size metric labels none st = st
  observe_size metric labels (some size) st = metered st (observes metric labels (number size))

module _ {W M E : Type 0} (platform : Platform W M E) where
  abbrev pub code_labels : Labels → Option E → Labels
  code_labels labels err = insert "rpc_status_code" (decimal (platform.code err)) labels

module _ {W M E : Type 0} (platform : Platform W M E) {R : Type 0} where
  abbrev pub observe_duration : ℕ → Labels → ℕ → Serving R W → Serving R W
  observe_duration metric labels start st =
      metered st (observes metric labels (as_ms (platform.time_since st.world start)))

  abbrev pub observe_unary : GrpcMetrics → Labels → ℕ → M → M × Option E → Serving R W → Serving R W
  observe_unary metrics labels start req (resp, err) st =
      let labels' = code_labels platform labels err in
      let st1 = observe_duration metrics.durations labels' start st in
      let st2 = observe_size metrics.request_sizes labels' (platform.proto_size req) st1 in
      observe_size metrics.response_sizes labels' (platform.proto_size resp) st2

  abbrev pub serve_unary :
      GrpcMetrics
      → Serving R W
      → Peer
      → M
      → Bytes
      → UnaryHandler R W M E
      → Serving R W × Outcome (M × Option E)
  serve_unary metrics st peer req full_method handler =
      let labels = call_labels full_method peer in
      let st1 = metered st (adds metrics.active_requests labels) in
      let start = platform.now st1.world in
      let (st2, outcome) = handler st1 peer req in
      elim outcome [
        | panicked ↦ (metered st2 (subtracts metrics.active_requests labels), panicked)
        | returned got ↦ (
          metered (observe_unary metrics labels start req got st2)
              (subtracts metrics.active_requests labels),
          returned got,
        )
      ]

  -- `UnaryServerInterceptor`; none is a panic.
  abbrev pub unary_server_interceptor :
      (ℕ → List Effect → Desc → Bool)
      → Meters R
      → Context
      → Option (
          Meters R
          × (Serving R W
              → Peer
              → M
              → Bytes
              → UnaryHandler R W M E
              → Serving R W × Outcome (M × Option E)))
  unary_server_interceptor accepts st none = none
  unary_server_interceptor accepts st (some b) = do
    made ← grpc_metrics accepts st b
    some (made.0, serve_unary made.1)

  -- `RecvMsg`
  abbrev pub recv_msg : StreamWrapper W M E → Serving R W → Serving R W × M × Option E
  recv_msg s st =
      let (w, m, err) = s.server_stream.recv_msg st.world in
      let st' : Serving R W = record st { world = w } in
      elim err [
        | some e ↦ (st', m, some e)
        | none ↦ (observe_size s.req_sizes s.labels (platform.proto_size m) st', m, none)
      ]

  -- `SendMsg`
  abbrev pub send_msg : StreamWrapper W M E → Serving R W → M → Serving R W × Option E
  send_msg s st m =
      let st' = observe_size s.resp_sizes s.labels (platform.proto_size m) st in
      let (w, err) = s.server_stream.send_msg st'.world m in (record st' { world = w }, err)

  abbrev pub serve_stream :
      {V : Type 0}
      → GrpcMetrics
      → Serving R W
      → V
      → ServerStream W M E
      → Bytes
      → (Serving R W → V → StreamWrapper W M E → Serving R W × Outcome (Option E))
      → Serving R W × Outcome (Option E)
  serve_stream metrics st srv stream full_method handler =
      let labels = call_labels full_method stream.peer in
      let st1 = metered st (adds metrics.active_requests labels) in
      let start = platform.now st1.world in
      let wrapper : StreamWrapper W M E = record {
        server_stream = stream;
        labels = labels;
        req_sizes = metrics.stream_message_sizes;
        resp_sizes = metrics.stream_result_sizes;
      } in
      let (st2, outcome) = handler st1 srv wrapper in
      elim outcome [
        | panicked ↦ (metered st2 (subtracts metrics.active_requests labels), panicked)
        | returned err ↦ (
          metered (observe_duration metrics.durations (code_labels platform labels err) start st2)
              (subtracts metrics.active_requests labels),
          returned err,
        )
      ]

  -- `StreamServerInterceptor`; none is a panic.
  abbrev pub stream_server_interceptor :
      {V : Type 0}
      → (ℕ → List Effect → Desc → Bool)
      → Meters R
      → Context
      → Option (
          Meters R
          × (Serving R W
              → V
              → ServerStream W M E
              → Bytes
              → (Serving R W → V → StreamWrapper W M E → Serving R W × Outcome (Option E))
              → Serving R W × Outcome (Option E)))
  stream_server_interceptor accepts st none = none
  stream_server_interceptor accepts st (some b) = do
    made ← grpc_metrics accepts st b
    some (made.0, serve_stream made.1)
