-- ===== src/Metrics/Tests.antt =====
-- Concrete requests, bodies, addresses and methods.
use clue.Base.{
  inl, inr, ◌>>=◌, ◌≡◌, refl, codes, arith, ℕ, zero, suc, Bool, true, Option, none, some, List, [],
  ◌∷◌,
}
use clue.Metrics.Options.{default_options}
use clue.Metrics.Registry.{
  Desc, Effect, Bag, Meters, HttpMetrics, GrpcMetrics, new_http_metrics, new_grpc_metrics,
  http_metrics, grpc_metrics, rpc_no_code_labels,
}
use clue.Metrics.Registry.Laws.{Call, for_http, for_grpc, after_calls, metrics_once}
use clue.Metrics.Length.{
  ReadError, eof, Body, Serving, LengthReader, new_length_reader, close_length,
}
use clue.Metrics.Length.Counts.{IsReader, read_all, body_counted}
use clue.Metrics.Http.{
  Request, HttpHandler, HttpEndpointDetails, InitMetricDetails, init_metrics, returned, panicked,
  active_labels, serve_http,
}
use clue.Metrics.Http.{Platform as HttpPlatform}
use clue.Metrics.Rpc.{ServerStream, call_labels, recv_msg, send_msg, serve_unary, serve_stream}
use clue.Metrics.Rpc.{Platform as RpcPlatform}
use clue.Metrics.Gauge.{effects_of, Gauged, counted_request, wrapper_of, requests-Gauged}
use clue.Metrics.Names.Registered.{Registered}
use clue.Metrics.Names.Uses.{Used, no_use, send_msg-Used, labels_fit}
use clue.Metrics.Grpc.{parse_addr, parse_addr-append}

parse_addr-append_example : parse_addr (codes "[::1]:80") ≡ (codes "[::1]", codes "80")
parse_addr-append_example = parse_addr-append (codes "[::1]") (codes "80") refl refl

-- A body of some bytes that gives them one by one.
abbrev bytes : Body ℕ
bytes = record { read = read_one; close = λ w. (w, none) }
  where
    read_one : ℕ → ℕ → ℕ × ℕ × Option ReadError
    read_one zero n = (0, 0, some eof)
    read_one (suc w) n = (w, 1, none)

bytes-IsReader : IsReader (λ w. w) bytes
bytes-IsReader zero n pos = (refl, λ e. ground (arith, e), λ e. refl)
bytes-IsReader (suc w) n pos = (omega arith, λ e. omega arith, λ e. ground (arith, e))

abbrev unnamed : Bag ℕ
unnamed = record {
  options = default_options 0;
  svc = "front";
  http_metrics = none;
  grpc_metrics = none;
}

abbrev meters : Meters ℕ
meters = record { bags = λ b. unnamed; next_bag = 1; next_metric = 0; effects = [] }

abbrev serving : Serving ℕ ℕ
serving = record { meters = meters; world = 5; lengths = λ l. 7; next_length = 3 }

body_counted_example :
    (end : Serving ℕ ℕ × Option ReadError) × (close_length 6 (new_length_reader serving bytes).1 (
        read_all
          (new_length_reader serving bytes).1
          (new_length_reader serving bytes).0
          (1 ∷ 0 ∷ []))
      ≡ some end)
    × (end.1 ≡ none → end.0.lengths 3 ≡ 5)
body_counted_example =
    body_counted (λ w. w) bytes serving (1 ∷ 0 ∷ []) 6 bytes-IsReader (omega arith)

abbrev accepts_all : ℕ → List Effect → Desc → Bool
accepts_all registerer done desc = true

abbrev value : {A : Type 0} → A → Option A → A
value a none = a
value a (some a') = a'

abbrev no_http : HttpMetrics
no_http = record { durations = 9; request_sizes = 9; response_sizes = 9; active_requests = 9 }

abbrev no_grpc : GrpcMetrics
no_grpc = record {
  durations = 9;
  request_sizes = 9;
  response_sizes = 9;
  active_requests = 9;
  stream_message_sizes = 9;
  stream_result_sizes = 9;
}

abbrev made_http : Meters ℕ × HttpMetrics
made_http = value (meters, no_http) (new_http_metrics accepts_all meters 0 unnamed)

abbrev made_grpc : Meters ℕ × GrpcMetrics
made_grpc = value (meters, no_grpc) (new_grpc_metrics accepts_all meters 0 unnamed)

-- The metrics of both kinds are asked for in between, for this bag and for another.
abbrev calls_between : List Call
calls_between = for_grpc 0 ∷ (for_http 0 ∷ (for_http 1 ∷ []))

abbrev state_behind : Meters ℕ → Meters ℕ
state_behind st = value st (after_calls accepts_all calls_between st)

metrics_once_example :
    (http_metrics accepts_all (state_behind made_http.0) 0
      ≡ some (state_behind made_http.0, made_http.1))
    × (grpc_metrics accepts_all (state_behind made_grpc.0) 0
        ≡ some (state_behind made_grpc.0, made_grpc.1))
unfolding http_metrics grpc_metrics after_calls ◌>>=◌
metrics_once_example =
    metrics_once accepts_all meters made_http.0 (state_behind made_http.0) made_grpc.0
      (state_behind made_grpc.0) 0 made_http.1 made_grpc.1 calls_between refl refl refl refl

abbrev web : HttpPlatform ℕ ℕ
web = record {
  method = λ r. codes "GET";
  host = λ r. codes "front";
  url_path = λ r. codes "/a/1";
  compile = λ text. some (λ path. true);
  replace_all = λ path new. path;
  now = λ w. w;
  time_since = λ w start. w;
}

abbrev rpc : RpcPlatform ℕ ℕ ℕ
rpc = record { code = λ err. 0; proto_size = λ m. some m; now = λ w. w; time_since = λ w start. w }

abbrev pattern_detail : HttpEndpointDetails
pattern_detail = record { path = codes "/a/[a-zA-Z0-9-_]+"; verb = codes "GET" }

abbrev stream : ServerStream ℕ ℕ ℕ
stream = record {
  peer = some (codes "10.0.0.1:80");
  recv_msg = λ w. (w, 4, none);
  send_msg = λ w m. (w, some 1);
}

abbrev web_handler : HttpHandler ℕ ℕ (LengthReader ℕ)
web_handler st req = (st, returned (record { status_code = 200; content_length = 2 }))

abbrev web_request : Request ℕ (Body ℕ)
web_request = record { info = 0; body = bytes; ctx = none }

-- An HTTP request that is served, a call whose handler panics, and a stream with one message.
requests-Gauged_example :
    Gauged 9
      (active_labels web (codes "/a/1") 0)
      serving
      (λ s. web_handler s (counted_request serving web_request))
      (serve_http web no_http none (pattern_detail ∷ []) web_handler serving web_request)
    × Gauged 9
        (call_labels (codes "/v1.Front/Get") none)
        serving
        (λ s. (s, panicked))
        (serve_unary rpc no_grpc serving none 3 (codes "/v1.Front/Get") (λ s peer m. (s, panicked)))
    × Gauged 9
        (call_labels (codes "/v1.Front/Get") stream.peer)
        serving
        (λ s.
          ((recv_msg rpc (wrapper_of no_grpc (codes "/v1.Front/Get") stream) s).0, returned none))
        (serve_stream rpc {V = ℕ} no_grpc serving 0 stream
          (codes "/v1.Front/Get")
          (λ s srv wrapped. ((recv_msg rpc wrapped s).0, returned none)))
requests-Gauged_example =
    requests-Gauged {V = ℕ} web rpc no_http no_grpc serving none (pattern_detail ∷ []) web_handler
      web_request (codes "/v1.Front/Get") none 3 (λ s peer m. (s, panicked)) 0 stream
      (λ s srv wrapped. ((recv_msg rpc wrapped s).0, returned none))

abbrev some_details : InitMetricDetails
some_details = record {
  endpoint_details = pattern_detail ∷ [];
  host = codes "front";
  status_codes = codes "200" ∷ (codes "500" ∷ []);
}

made_grpc-sizes : Registered made_grpc.1.stream_result_sizes rpc_no_code_labels made_grpc.0.effects
unfolding ◌>>=◌
made_grpc-sizes = inr (inr (inr (inr (inl (refl, refl)))))

-- An HTTP request that is served, a call whose handler panics, and a stream with one message.
labels_fit_example :
    Used made_http.0.effects made_http.0.effects
      (init_metrics made_http.1 (some some_details) made_http.0).effects
    × Used made_http.0.effects [] (
        effects_of
          (serve_http web made_http.1 none (pattern_detail ∷ []) web_handler serving web_request).0)
    × Used made_grpc.0.effects [] (
        effects_of
          (serve_unary rpc made_grpc.1 serving none 3
            (codes "/v1.Front/Get")
            (λ s peer m. (s, panicked))).0)
    × Used made_grpc.0.effects [] (
        effects_of
          (serve_stream rpc {V = ℕ} made_grpc.1 serving 0 stream
            (codes "/v1.Front/Get")
            (λ s srv wrapped. ((send_msg rpc wrapped s 2).0, returned none))).0)
    × Used made_grpc.0.effects [] (
        effects_of (recv_msg rpc (wrapper_of made_grpc.1 (codes "/v1.Front/Get") stream) serving).0)
    × Used made_grpc.0.effects [] (
        effects_of
          (send_msg rpc (wrapper_of made_grpc.1 (codes "/v1.Front/Get") stream) serving 3).0)
unfolding ◌>>=◌
labels_fit_example =
    labels_fit {V = ℕ} accepts_all meters made_http.0 made_grpc.0 0 unnamed made_http.1 made_grpc.1
      web rpc serving none some_details web_handler web_request (codes "/v1.Front/Get") none 3
      (λ s peer m. (s, panicked)) 0 stream
      (λ s srv wrapped. ((send_msg rpc wrapped s 2).0, returned none)) refl refl
      (λ s. no_use made_http.0.effects (effects_of s))
      (λ s. no_use made_grpc.0.effects (effects_of s))
      (λ s.
        send_msg-Used made_grpc.0.effects made_grpc.1 rpc made_grpc-sizes (codes "/v1.Front/Get")
          stream s 2)
