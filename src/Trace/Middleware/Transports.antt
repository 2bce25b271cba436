-- ===== src/Trace/Middleware/Transports.antt =====
-- HTTP requests, unary calls and streams are prepared alike (trace/http.go, trace/grpc.go).
use clue.Base.{
  ◌∙◌, ℕ, ◌≡◌, refl, Bool, true, false, inl, inr, String, Option, none, some, Option-cases,
  if◌then◌else◌,
}
use clue.Trace.Span.{Sdk, Bag, Context, Tracing}
use clue.Trace.Setup.{is_traced, with_tracing}
use clue.Trace.Middleware.{
  HttpHandler, UnaryHandler, Stream, StreamHandler, tag, add_request_id_http, init_tracing_context,
  add_request_id_grpc_unary, init_tracing_context_grpc_unary, add_request_id_grpc_stream,
  init_tracing_context_grpc_stream, http, unary_server_interceptor, stream_server_interceptor,
}

module _ ⦃sdk : Sdk⦄ where
  abbrev pub tag_request : Tracing → Context → Option String → Tracing
  tag_request st ctx none = st
  tag_request st ctx (some id) = tag st ctx id

  -- The state and the context in which a handler runs: its request ID is an attribute of the
  -- request's span, and a traced request has a bag of its own, with that span.
  abbrev pub prepared : Bag → Tracing → Context → Tracing × Context
  prepared state st ctx =
      let st' = tag_request st ctx ctx.request_id in
      if is_traced ctx then with_tracing st' state ctx else (st', ctx)

  if_under :
      {A B : Type 0} (f : A → B) (b : Bool) (x y : A)
      → (if b then f x else f y) ≡ f (if b then x else y)
  if_under f true x y = refl
  if_under f false x y = refl

  tagged :
      {B : Type 0} (f : Tracing → B) (st : Tracing) (ctx : Context) (r : Option String)
      → (elim r as (λ q. B) [ none ↦ f st | some id ↦ f (tag st ctx id) ])
        ≡ f (tag_request st ctx r)
  tagged f st ctx none = refl
  tagged f st ctx (some id) = refl

  http_prepared :
      (state : Bag) (h : HttpHandler) (st : Tracing) (ctx : Context)
      → add_request_id_http (init_tracing_context state h) st ctx
        ≡ (let (s, c) = prepared state st ctx in h s c)
  http_prepared state h st ctx =
      let st' = tag_request st ctx ctx.request_id in
      tagged (λ s. init_tracing_context state h s ctx) st ctx ctx.request_id
      ∙ if_under (λ (p : Tracing × Context). h p.0 p.1) (is_traced ctx) (with_tracing st' state ctx)
          (st', ctx)

  unary_prepared :
      {Q R : Type 0} (state : Bag) (h : UnaryHandler Q R) (st : Tracing) (ctx : Context) (req : Q)
      → add_request_id_grpc_unary (init_tracing_context_grpc_unary state h) st ctx req
        ≡ (let (s, c) = prepared state st ctx in h s c req)
  unary_prepared state h st ctx req =
      tagged (λ s. init_tracing_context_grpc_unary state h s ctx req) st ctx ctx.request_id

  stream_prepared :
      {V S R : Type 0} (state : Bag) (h : StreamHandler V S R) (st : Tracing) (srv : V)
      (stream : Stream S)
      → add_request_id_grpc_stream (init_tracing_context_grpc_stream state h) st srv stream
        ≡ (let (s, c) = prepared state st stream.ctx in h s srv (record stream { ctx = c }))
  stream_prepared state h st srv stream =
      let st' = tag_request st stream.ctx stream.ctx.request_id in
      tagged (λ s. init_tracing_context_grpc_stream state h s srv stream) st stream.ctx
        stream.ctx.request_id
      ∙ if_under (λ (p : Tracing × Context). h p.0 srv (record stream { ctx = p.1 }))
          (is_traced stream.ctx) (with_tracing st' state stream.ctx) (st', stream.ctx)

  -- The middleware for HTTP requests, unary calls and streams, made in a context that `Context` has
  -- initialized, hands its library a handler that prepares each request in the same way before it
  -- runs the given one: it makes the request ID, if there is one, an attribute of the request's span,
  -- and gives a traced request a bag of its own with that span. In any other context it panics.
  pub transports_agree :
      {Q R V S : Type 0} (otel_http : String → ℕ → ℕ → HttpHandler → HttpHandler)
      (otel_unary : ℕ → ℕ → UnaryHandler Q R → UnaryHandler Q R)
      (otel_stream : ℕ → ℕ → StreamHandler V S R → StreamHandler V S R) (st : Tracing)
      (ctx : Context)
      → (http otel_http st ctx ≡ elim ctx.bag as (λ b. Option (HttpHandler → HttpHandler)) [
        | none ↦ none
        | some b ↦ some (λ h.
            otel_http
              (st.bags b).svc
              (st.bags b).provider
              (st.bags b).propagator
              (λ st' ctx'. let (s, c) = prepared (st.bags b) st' ctx' in h s c))
      ])
        × (unary_server_interceptor otel_unary st ctx
            ≡ elim ctx.bag as (λ b. Option (UnaryHandler Q R → UnaryHandler Q R)) [
              | none ↦ none
              | some b ↦ some (λ h.
                  otel_unary
                    (st.bags b).provider
                    (st.bags b).propagator
                    (λ st' ctx' req. let (s, c) = prepared (st.bags b) st' ctx' in h s c req))
            ])
        × (stream_server_interceptor otel_stream st ctx
            ≡ elim ctx.bag as (λ b. Option (StreamHandler V S R → StreamHandler V S R)) [
              | none ↦ none
              | some b ↦ some (λ h.
                  otel_stream (st.bags b).provider (st.bags b).propagator (λ st' srv stream.
                    let (s, c) = prepared (st.bags b) st' stream.ctx in
                    h s srv (record stream { ctx = c })))
            ])
  unfolding http unary_server_interceptor stream_server_interceptor
  transports_agree otel_http otel_unary otel_stream st ctx = elim (Option-cases ctx.bag) [
    | inl e ↦ rw e (refl, refl, refl)
    | inr (b, e) ↦
        let state = st.bags b in
        rw e (
          λ i. some (λ h.
              otel_http state.svc state.provider state.propagator
                (λ st' ctx'. http_prepared state h st' ctx' i)),
          λ i. some (λ h.
              otel_unary state.provider state.propagator
                (λ st' ctx' req. unary_prepared state h st' ctx' req i)),
          λ i. some (λ h.
              otel_stream state.provider state.propagator
                (λ st' srv stream. stream_prepared state h st' srv stream i)),
        )
  ]
