-- ===== src/Metrics/Registry.antt =====
-- The metrics of a context: metrics/context.go and metrics/options.go. Prometheus is the library's: its
-- metrics are handles, and what is done to them is recorded in order.
pub mod Kept
pub mod Laws
use clue.Base.{
  ◌>>=◌, Bytes, ℕ, suc, Bool, true, false, String, Option, none, some, List, [], ◌∷◌, ◌++◌, update,
  if◌then◌else◌,
}
use clue.Metrics.Options.{Options, default_options, apply_options}

-- prometheus.Labels, by its entries.
abbrev pub Labels : Type 0
Labels = List (String × Bytes)

pub data Kind : Type 0 where
  histogram gauge : Kind

-- The options of a new metric: a gauge has no buckets.
pub record Desc : Type 0 where
  pub kind : Kind
  pub name : String
  pub help : String
  pub service : String
  pub buckets : List ℕ
  pub labels : List String

-- An observed value: a number, or a time in nanoseconds as milliseconds.
pub data Amount : Type 0 where
  number : ℕ → Amount
  as_ms : ℕ → Amount

pub data Effect : Type 0 where
  registers : ℕ → ℕ → Desc → Effect
  touches : ℕ → Labels → Effect
  adds : ℕ → Labels → Effect
  subtracts : ℕ → Labels → Effect
  observes : ℕ → Labels → Amount → Effect

-- `httpMetrics`
pub record HttpMetrics : Type 0 where
  pub durations : ℕ
  pub request_sizes : ℕ
  pub response_sizes : ℕ
  pub active_requests : ℕ

-- `grpcMetrics`
pub record GrpcMetrics : Type 0 where
  pub durations : ℕ
  pub request_sizes : ℕ
  pub response_sizes : ℕ
  pub active_requests : ℕ
  pub stream_message_sizes : ℕ
  pub stream_result_sizes : ℕ

-- `stateBag`
pub record Bag (R : Type 0) : Type 0 where
  pub options : Options R
  pub svc : String
  pub http_metrics : Option HttpMetrics
  pub grpc_metrics : Option GrpcMetrics

-- Bags by address, the next free handle of a metric, and what was done to the metrics.
pub record Meters (R : Type 0) : Type 0 where
  pub bags : ℕ → Bag R
  pub next_bag : ℕ
  pub next_metric : ℕ
  pub effects : List Effect

-- A context, by the address of the bag under `stateBagKey`.
abbrev pub Context : Type 0
Context = Option ℕ

abbrev pub http_labels : List String
http_labels = "http_verb" ∷ "http_host" ∷ "http_path" ∷ "http_status_code" ∷ []

abbrev pub http_active_requests_labels : List String
http_active_requests_labels = "http_verb" ∷ "http_host" ∷ "http_path" ∷ []

abbrev pub rpc_labels : List String
rpc_labels = "net_peer_ip" ∷ "net_peer_port" ∷ "rpc_service" ∷ "rpc_method" ∷ "rpc_status_code" ∷ []

abbrev pub rpc_no_code_labels : List String
rpc_no_code_labels = "net_peer_ip" ∷ "net_peer_port" ∷ "rpc_service" ∷ "rpc_method" ∷ []

module _ {R : Type 0} where
  -- `Context`, given prometheus.DefaultRegisterer.
  abbrev pub metrics_context :
      ℕ → Meters R → Context → String → List (Options R → Options R) → Meters R × Context
  metrics_context registerer st (some b) svc opts = (st, some b)
  metrics_context registerer st none svc opts = (
    record st {
      bags = update st.bags st.next_bag (record {
        options = apply_options (default_options registerer) opts;
        svc = svc;
        http_metrics = none;
        grpc_metrics = none;
      });
      next_bag = suc st.next_bag;
    },
    some st.next_bag,
  )

  abbrev pub effect : Meters R → Effect → Meters R
  effect st e = record st { effects = st.effects ++ e ∷ [] }

  -- A new metric.
  abbrev pub durations_desc : Bag R → String → List String → Desc
  durations_desc bag name labels = record {
    kind = histogram;
    name = name;
    help = "Histogram of request durations in milliseconds.";
    service = bag.svc;
    buckets = bag.options.duration_buckets;
    labels = labels;
  }

  abbrev pub request_sizes_desc : Bag R → String → String → List String → Desc
  request_sizes_desc bag name help labels = record {
    kind = histogram;
    name = name;
    help = help;
    service = bag.svc;
    buckets = bag.options.request_size_buckets;
    labels = labels;
  }

  abbrev pub response_sizes_desc : Bag R → String → String → List String → Desc
  response_sizes_desc bag name help labels = record {
    kind = histogram;
    name = name;
    help = help;
    service = bag.svc;
    buckets = bag.options.response_size_buckets;
    labels = labels;
  }

  abbrev pub active_desc : Bag R → String → List String → Desc
  active_desc bag name labels = record {
    kind = gauge;
    name = name;
    help = "Gauge of active requests.";
    service = bag.svc;
    buckets = [];
    labels = labels;
  }

  abbrev pub keep_http_metrics : Meters R → ℕ → Bag R → HttpMetrics → Meters R × HttpMetrics
  keep_http_metrics st b bag metrics =
      (record st { bags = update st.bags b (record bag { http_metrics = some metrics }) }, metrics)

  abbrev pub keep_grpc_metrics : Meters R → ℕ → Bag R → GrpcMetrics → Meters R × GrpcMetrics
  keep_grpc_metrics st b bag metrics =
      (record st { bags = update st.bags b (record bag { grpc_metrics = some metrics }) }, metrics)

  -- `accepts` says whether the registerer takes a metric after what was done before; MustRegister
  -- panics if it does not, which is none.
  module _ (accepts : ℕ → List Effect → Desc → Bool) where
    abbrev pub must_register : Meters R → Bag R → Desc → Option (Meters R × ℕ)
    must_register st bag desc =
        if accepts bag.options.registerer st.effects desc
        then some (
          record st {
            next_metric = suc st.next_metric;
            effects = st.effects ++ registers bag.options.registerer st.next_metric desc ∷ [];
          },
          st.next_metric,
        )
        else none

    abbrev pub new_http_metrics : Meters R → ℕ → Bag R → Option (Meters R × HttpMetrics)
    new_http_metrics st b bag = do
      d ← must_register st bag (durations_desc bag "http_server_duration_ms" http_labels)
      q ← must_register d.0 bag (
          request_sizes_desc bag "http_server_request_size_bytes"
            "Histogram of request sizes in bytes." http_labels)
      r ← must_register q.0 bag (
          response_sizes_desc bag "http_server_response_size_bytes"
            "Histogram of response sizes in bytes." http_labels)
      a ←
          must_register r.0 bag
            (active_desc bag "http_server_active_requests" http_active_requests_labels)
      let metrics : HttpMetrics = record {
        durations = d.1;
        request_sizes = q.1;
        response_sizes = r.1;
        active_requests = a.1;
      }
      some (keep_http_metrics a.0 b bag metrics)

    -- `HTTPMetrics`
    unfoldable pub http_metrics : Meters R → ℕ → Option (Meters R × HttpMetrics)
    http_metrics st b = elim (st.bags b).http_metrics [
      | some metrics ↦ some (st, metrics)
      | none ↦ new_http_metrics st b (st.bags b)
    ]

    abbrev pub new_grpc_metrics : Meters R → ℕ → Bag R → Option (Meters R × GrpcMetrics)
    new_grpc_metrics st b bag = do
      d ← must_register st bag (durations_desc bag "rpc_server_duration_ms" rpc_labels)
      q ← must_register d.0 bag (
          request_sizes_desc bag "rpc_server_request_size_bytes"
            "Histogram of request sizes in bytes." rpc_labels)
      r ← must_register q.0 bag (
          response_sizes_desc bag "rpc_server_response_size_bytes"
            "Histogram of response sizes in bytes." rpc_labels)
      m ← must_register r.0 bag (
          request_sizes_desc bag "rpc_server_stream_message_size_bytes"
            "Histogram of stream message sizes in bytes." rpc_no_code_labels)
      s ← must_register m.0 bag (
          response_sizes_desc bag "rpc_server_stream_response_size_bytes"
            "Histogram of stream response sizes in bytes." rpc_no_code_labels)
      a ← must_register s.0 bag (active_desc bag "rpc_server_active_requests" rpc_no_code_labels)
      let metrics : GrpcMetrics = record {
        durations = d.1;
        request_sizes = q.1;
        response_sizes = r.1;
        active_requests = a.1;
        stream_message_sizes = m.1;
        stream_result_sizes = s.1;
      }
      some (keep_grpc_metrics a.0 b bag metrics)

    -- `GRPCMetrics`
    unfoldable pub grpc_metrics : Meters R → ℕ → Option (Meters R × GrpcMetrics)
    grpc_metrics st b = elim (st.bags b).grpc_metrics [
      | some metrics ↦ some (st, metrics)
      | none ↦ new_grpc_metrics st b (st.bags b)
    ]
