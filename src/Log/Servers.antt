-- ===== src/Log/Servers.antt =====
-- The server middleware of log/http.go and log/grpc.go, which gives a request a logger of its own. The
-- type `A` is what a handler does: its result and its effects.
pub mod Requests
use clue.Base.{
  apply_all, ◌++◌, Bool, true, false, String, Option, none, some, List, [], ◌∷◌, Bytes, codes,
  lookup, if◌then◌else◌,
}
use clue.Log.Value.{Value, Pair, kv}
use clue.Log.Memory.{Runtime}
use clue.Log.Logger.{Context, Store}
use clue.Log.Operations.{with_context, must_contain_logger, with}

abbrev pub Handler : Type 0 → Type 0 → Type 0
Handler Q A = Store → Context → Q → A

-- `pathFilters`; a filter is its `MatchString`.
abbrev pub HttpLogOptions : Type 0
HttpLogOptions = List (Bytes → Bool)

-- `WithPathFilter`
abbrev pub with_path_filter : (Bytes → Bool) → HttpLogOptions → HttpLogOptions
with_path_filter filter filters = filters ++ filter ∷ []

abbrev pub apply_log_options :
    HttpLogOptions → List (HttpLogOptions → HttpLogOptions) → HttpLogOptions
apply_log_options o opts = apply_all o opts

abbrev pub is_filtered : HttpLogOptions → Bytes → Bool
is_filtered [] path = false
is_filtered (filter ∷ filters) path = if filter path then true else is_filtered filters path

-- ctx.Value(middleware.RequestIDKey): the key is `RequestIDKey`, which log/adapt.go has set it to.
abbrev pub request_id_key : String
request_id_key = "request-id"

module _ ⦃rt : Runtime⦄ where
  -- ctx = With(ctx, KV{key, v}), if there is a value v.
  abbrev pub with_value : Store → Context → Bytes → Option Value → Store × Context
  with_value st ctx key none = (st, ctx)
  with_value st ctx key (some v) = with st ctx (kv (record { key = key; val = v }) ∷ [])

  module _ {Q A : Type 0} where
    abbrev pub serve_http : HttpLogOptions → Context → (Q → Bytes) → Handler Q A → Handler Q A
    serve_http filters log_ctx path h st req_ctx req =
        if is_filtered filters (path req)
        then h st req_ctx req
        else (let (st', ctx) =
              with_value st (with_context req_ctx log_ctx) (codes "request-id")
                (lookup request_id_key req_ctx.values) in
            h st' ctx req)

    -- `HTTP`, given the path of a request; none is the panic of `MustContainLogger`.
    abbrev pub http :
        Context
        → List (HttpLogOptions → HttpLogOptions)
        → (Q → Bytes)
        → Option (Handler Q A → Handler Q A)
    http log_ctx opts path =
        if must_contain_logger log_ctx
        then some (serve_http (apply_log_options [] opts) log_ctx path)
        else none

    -- `Endpoint`, given goa's keys of the service and of the method.
    abbrev pub endpoint : String → String → Handler Q A → Handler Q A
    endpoint service_key method_key e st ctx req =
        let (st1, ctx1) = with_value st ctx (codes "goa.service") (lookup service_key ctx.values) in
        let (st2, ctx2) =
          with_value st1 ctx1 (codes "goa.method") (lookup method_key ctx1.values) in
        e st2 ctx2 req

    abbrev pub serve_call : Context → Handler Q A → Handler Q A
    serve_call log_ctx handler st ctx req =
        let ctx0 = with_context ctx log_ctx in
        let (st', ctx') =
          with_value st ctx0 (codes "request-id") (lookup request_id_key ctx0.values) in
        handler st' ctx' req

    -- `UnaryServerInterceptor`
    abbrev pub unary_server_interceptor : Context → Option (Handler Q A → Handler Q A)
    unary_server_interceptor log_ctx =
        if must_contain_logger log_ctx then some (serve_call log_ctx) else none

  -- grpc.ServerStream by its context and by what else it is, as in `streamWithContext`.
  module _ {V S A : Type 0} where
    abbrev pub serve_stream : Context → (Store → V → S → Context → A) → Store → V → S → Context → A
    serve_stream log_ctx handler st srv stream stream_ctx =
        let ctx0 = with_context stream_ctx log_ctx in
        let (st', ctx') =
          with_value st ctx0 (codes "request-id") (lookup request_id_key ctx0.values) in
        handler st' srv stream ctx'

    -- `StreamServerInterceptor`
    abbrev pub stream_server_interceptor :
        Context → Option ((Store → V → S → Context → A) → Store → V → S → Context → A)
    stream_server_interceptor log_ctx =
        if must_contain_logger log_ctx then some (serve_stream log_ctx) else none
