-- ===== src/Trace/Middleware.antt =====
-- trace/http.go and trace/grpc.go: the middleware that prepares the context of a request. otelhttp and
-- otelgrpc are parameters, which start the span of the request.
pub mod Transports
use clue.Base.{ℕ, suc, Bool, true, false, String, Option, none, some, List, [], ◌∷◌, if◌then◌else◌}
use clue.Trace.Span.{Attribute, Call, sets_attributes, Sdk, Bag, Context, Tracing, call}
use clue.Trace.Setup.{is_traced, span_or_noop, with_tracing}

-- A handler of HTTP requests, by what it does to the tracing state in the request's context.
abbrev pub HttpHandler : Type 0
HttpHandler = Tracing → Context → Tracing

-- A handler of unary calls with requests `Q` and results `R`, an error included.
abbrev pub UnaryHandler : Type 0 → Type 0 → Type 0
UnaryHandler Q R = Tracing → Context → Q → Tracing × R

-- A stream with the context that its method `Context` returns.
pub record Stream (S : Type 0) : Type 0 where
  pub server_stream : S
  pub ctx : Context

abbrev pub StreamHandler : Type 0 → Type 0 → Type 0 → Type 0
StreamHandler V S R = Tracing → V → Stream S → Tracing × R

-- `AttributeRequestID`
abbrev pub request_id_attribute : String → List Attribute
request_id_attribute id = ("request.id", id) ∷ []

module _ ⦃sdk : Sdk⦄ where
  -- span.SetAttributes(attribute.String(AttributeRequestID, ...)) on the span of the context.
  abbrev pub tag : Tracing → Context → String → Tracing
  tag st ctx id = call st (sets_attributes (span_or_noop ctx.span) (request_id_attribute id))

  -- `addRequestIDHTTP`
  abbrev pub add_request_id_http : HttpHandler → HttpHandler
  add_request_id_http h st ctx = elim ctx.request_id [
    | none ↦ h st ctx
    | some id ↦ h (tag st ctx id) ctx
  ]

  -- `initTracingContext`, with the bag of the trace context.
  abbrev pub init_tracing_context : Bag → HttpHandler → HttpHandler
  init_tracing_context state h st ctx =
      if is_traced ctx
      then (let (st', ctx') = with_tracing st state ctx in h st' ctx')
      else h st ctx

  abbrev pub http_by :
      (String → ℕ → ℕ → HttpHandler → HttpHandler) → Bag → HttpHandler → HttpHandler
  http_by new_handler state h =
      new_handler state.svc state.provider state.propagator
        (add_request_id_http (init_tracing_context state h))

  -- `HTTP`; none is its panic. The bag is read when the middleware is made.
  unfoldable pub http :
      (String → ℕ → ℕ → HttpHandler → HttpHandler)
      → Tracing
      → Context
      → Option (HttpHandler → HttpHandler)
  http new_handler st ctx = elim ctx.bag [
    | none ↦ none
    | some b ↦ some (http_by new_handler (st.bags b))
  ]

  -- `Client`; none is its panic. `new_transport` has the options of otelhttp.NewTransport, the two
  -- that are appended last.
  pub http_client :
      {T : Type 0} → (T → List ℕ → ℕ → ℕ → T) → Tracing → Context → T → List ℕ → Option T
  http_client new_transport st ctx t opts = elim ctx.bag [
    | none ↦ none
    | some b ↦ some (new_transport t opts (st.bags b).provider (st.bags b).propagator)
  ]

  module _ {Q R : Type 0} where
    -- `addRequestIDGRPCUnary`
    abbrev pub add_request_id_grpc_unary : UnaryHandler Q R → UnaryHandler Q R
    add_request_id_grpc_unary h st ctx req = elim ctx.request_id [
      | none ↦ h st ctx req
      | some id ↦ h (tag st ctx id) ctx req
    ]

    -- `initTracingContextGRPCUnary`
    abbrev pub init_tracing_context_grpc_unary : Bag → UnaryHandler Q R → UnaryHandler Q R
    init_tracing_context_grpc_unary state h st ctx req =
        let (st', ctx') = if is_traced ctx then with_tracing st state ctx else (st, ctx) in
        h st' ctx' req

    -- `UnaryServerInterceptor`; none is its panic.
    unfoldable pub unary_server_interceptor :
        (ℕ → ℕ → UnaryHandler Q R → UnaryHandler Q R)
        → Tracing
        → Context
        → Option (UnaryHandler Q R → UnaryHandler Q R)
    unary_server_interceptor otel st ctx = elim ctx.bag [
      | none ↦ none
      | some b ↦ some (λ h.
          otel (st.bags b).provider (st.bags b).propagator
            (add_request_id_grpc_unary (init_tracing_context_grpc_unary (st.bags b) h)))
    ]

  module _ {V S R : Type 0} where
    -- `addRequestIDGRPCStream`
    abbrev pub add_request_id_grpc_stream : StreamHandler V S R → StreamHandler V S R
    add_request_id_grpc_stream h st srv stream = elim stream.ctx.request_id [
      | none ↦ h st srv stream
      | some id ↦ h (tag st stream.ctx id) srv stream
    ]

    -- `initTracingContextGRPCStream`
    abbrev pub init_tracing_context_grpc_stream : Bag → StreamHandler V S R → StreamHandler V S R
    init_tracing_context_grpc_stream state h st srv stream =
        if is_traced stream.ctx
        then (let (st', ctx') = with_tracing st state stream.ctx in
            h st' srv (record stream { ctx = ctx' }))
        else h st srv stream

    -- `StreamServerInterceptor`; none is its panic.
    unfoldable pub stream_server_interceptor :
        (ℕ → ℕ → StreamHandler V S R → StreamHandler V S R)
        → Tracing
        → Context
        → Option (StreamHandler V S R → StreamHandler V S R)
    stream_server_interceptor otel st ctx = elim ctx.bag [
      | none ↦ none
      | some b ↦ some (λ h.
          otel (st.bags b).provider (st.bags b).propagator
            (add_request_id_grpc_stream (init_tracing_context_grpc_stream (st.bags b) h)))
    ]

  -- `UnaryClientInterceptor` and `StreamClientInterceptor`; none is their panic.
  abbrev pub client_interceptor : {I : Type 0} → (ℕ → ℕ → I) → Tracing → Context → Option I
  client_interceptor otel st ctx = elim ctx.bag [
    | none ↦ none
    | some b ↦ some (otel (st.bags b).provider (st.bags b).propagator)
  ]

  pub unary_client_interceptor : {I : Type 0} → (ℕ → ℕ → I) → Tracing → Context → Option I
  unary_client_interceptor otel st ctx = client_interceptor otel st ctx

  pub stream_client_interceptor : {I : Type 0} → (ℕ → ℕ → I) → Tracing → Context → Option I
  stream_client_interceptor otel st ctx = client_interceptor otel st ctx
