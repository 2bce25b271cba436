-- ===== src/Log/Servers/Requests.antt =====
-- The logger with which the middleware of log/http.go and log/grpc.go has a request handled.
use clue.Base.{
  ℕ, ◌≡◌, ◌≢◌, refl, ap, inl, inr, Option, none, some, Option-cases, List, [], ◌∷◌, ◌++◌, Bytes,
  codes, lookup, if◌then◌else◌,
}
use clue.Log.Value.{Value, Fielder, kv}
use clue.Log.Memory.{Runtime, view}
use clue.Log.Logger.{Context, Store, on_logger}
use clue.Log.Logger.Ready.{IsReady}
use clue.Log.Operations.{with_context, with, with_logger}
use clue.Log.Operations.Sharing.{with_pairs}
use clue.Log.Servers.{
  Handler, HttpLogOptions, is_filtered, request_id_key, with_value, serve_http, serve_call,
  serve_stream,
}

with_context_lem :
    (ctx log_ctx : Context) (p : ℕ)
    → log_ctx.logger ≡ some p
    → with_context ctx log_ctx ≡ record ctx { logger = some p }
unfolding with_context
with_context_lem ctx log_ctx p e = ap (λ o. on_logger o ctx (λ q. record ctx { logger = some q })) e

module _ ⦃rt : Runtime⦄ where
  with-values :
      (st : Store) (ctx : Context) (fs : List Fielder) → (with st ctx fs).1.values ≡ ctx.values
  unfolding with with_logger
  with-values st ctx fs = elim (Option-cases ctx.logger) [
    | inl e ↦ rw e refl
    | inr (p, e) ↦ rw e refl
  ]

  -- From a logger and the context of a request to the store and the context of its handler.
  abbrev pub Prepared : Store → ℕ → Context → Option Value → Store → Context → Type 0
  Prepared st p ctx none st' ctx' = (st' ≡ st) × (ctx' ≡ record ctx { logger = some p })
  Prepared st p ctx (some id) st' ctx' =
      (ctx'.values ≡ ctx.values)
      × (q : ℕ) × (ctx'.logger ≡ some q)
      × (view st'.memory (st'.logger q).keyvals
          ≡ view st.memory (st.logger p).keyvals
            ++ record { key = codes "request-id"; val = id } ∷ [])
      × ((st'.logger q).options ≡ (st.logger p).options)
      × (view st'.memory (st'.logger p).keyvals ≡ view st.memory (st.logger p).keyvals)

  with_value-Prepared :
      (st : Store) (p : ℕ) (ctx : Context) (id : Option Value)
      → IsReady st p
      → p ≢ st.next_logger
      → let (st', ctx') = with_value st (record ctx { logger = some p }) (codes "request-id") id in
        Prepared st p ctx id st' ctx'
  with_value-Prepared st p ctx none r ne = (refl, refl)
  with_value-Prepared st p ctx (some id) r ne =
      let c : Context = record ctx { logger = some p } in
      let fs = kv (record { key = codes "request-id"; val = id }) ∷ [] in
      let (pointer, pairs, options, old) = with_pairs st p c fs r refl ne in
      (with-values st c fs, st.next_logger, pointer, pairs, options, old)

  -- The middleware for HTTP requests, unary calls and streams has a request handled with the same
  -- logger, unless the request's path is filtered, when nothing is changed: without a request ID, it
  -- is the logger of the middleware's context, and the store is as before; with one, it is a new
  -- logger that shares the options and has the pairs of that logger and then the request ID. The
  -- pairs of that logger are unchanged. That logger is in order, and its address not the next free one.
  pub requests-Prepared :
      {Q V S A : Type 0} (st : Store) (p : ℕ) (ctx log_ctx : Context) (filters : HttpLogOptions)
      (path : Q → Bytes) (h : Handler Q A) (req : Q) (streaming : Store → V → S → Context → A)
      (srv : V) (stream : S)
      → log_ctx.logger ≡ some p
      → IsReady st p
      → p ≢ st.next_logger
      → (st' : Store) × (ctx' : Context) × Prepared st p ctx
          (lookup request_id_key ctx.values)
          st'
          ctx'
        × (serve_http filters log_ctx path h st ctx req
            ≡ (if is_filtered filters (path req) then h st ctx req else h st' ctx' req))
        × (serve_call log_ctx h st ctx req ≡ h st' ctx' req)
        × (serve_stream log_ctx streaming st srv stream ctx ≡ streaming st' srv stream ctx')
  requests-Prepared st p ctx log_ctx filters path h req streaming srv stream carries r ne =
      let e = with_context_lem ctx log_ctx p carries in
      let id = lookup request_id_key ctx.values in
      let c : Context = record ctx { logger = some p } in
      let made = with_value st c (codes "request-id") id in
      (made.0, made.1, with_value-Prepared st p ctx id r ne, rw e refl, rw e refl, rw e refl)
