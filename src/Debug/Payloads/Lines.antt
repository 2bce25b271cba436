-- ===== src/Debug/Payloads/Lines.antt =====
-- What LogPayloads logs and returns (debug/debug.go).
use clue.Base.{
  ℕ, ◌≡◌, refl, ap, sym, subst, inl, inr, Bool, true, false, Bool-cases, Option, none, some, List,
  [], ◌∷◌, Bytes, codes, take, length, ltb, ltb-false→le, take-length, if◌then◌else◌,
}
use clue.Log.Memory.{Runtime}
use clue.Log.Value.{Fielder, kv, string}
use clue.Log.Logger.{Context, Store, options_of, severity_debug, on_logger}
use clue.Log.Logger.Journal.{journal_log}
use clue.Log.Logger.Ready.{IsReady, Refined, journal}
use clue.Log.Logger.Refinement.{call_line, log_to-Refined}
use clue.Log.Operations.{debug, debug_enabled}
use clue.Log.Operations.Effects.{log_carries}
use clue.Debug.Options.{LpOptions}
use clue.Debug.Payloads.{
  Endpoint, limited, prefixed, payload, log_request, log_result, log_payloads,
}

debug_enabled_lem :
    (st : Store) (ctx : Context) (p : ℕ)
    → ctx.logger ≡ some p
    → debug_enabled st ctx ≡ (options_of st p).debug
unfolding debug_enabled
debug_enabled_lem st ctx p e = ap (λ o. on_logger o false (λ q. (options_of st q).debug)) e

limited-take : (maxsize : ℕ) (text : Bytes) → limited maxsize text ≡ take maxsize text
limited-take maxsize text = elim (Bool-cases (ltb maxsize (length text))) [
  | inl long ↦ rw long refl
  | inr short ↦ rw short (sym (take-length maxsize text (ltb-false→le maxsize (length text) short)))
]

-- The pair of a payload, given the key of a client.
payload_lem :
    {V : Type 0} (options : LpOptions V) (key client_key : Bytes) (ctx : Context) (v : V)
    → prefixed true key ≡ client_key
    → payload options key ctx v
      ≡ kv (record {
        key = if options.client then client_key else key;
        val = string (take options.maxsize (options.format ctx v));
      })
        ∷ []
payload_lem options key client_key ctx v e =
    rw (limited-take options.maxsize (options.format ctx v))
      (elim (Bool-cases options.client) [ inl on ↦ rw (on, e) refl | inr off ↦ rw off refl ])

module _ ⦃rt : Runtime⦄ (p : ℕ) (ctx : Context) (carries : ctx.logger ≡ some p) where
  pub debug-Refined :
      (st : Store) (now : ℕ) (fielders : List Fielder)
      → IsReady st p
      → Refined st p
          (journal_log
            (options_of st p)
            (journal st p)
            (call_line st p ctx now severity_debug fielders)
            true)
          (debug st ctx now fielders)
  unfolding debug
  debug-Refined st now fielders r =
      rw (log_carries st p ctx carries r now severity_debug true fielders)
        (log_to-Refined st p ctx now severity_debug true fielders r)

  module _ {W V : Type 0} (now : W → ℕ) (options : LpOptions V) where
    -- The debug line that says a value under the key of a server or that of a client is logged: at
    -- most as many bytes of its text as the options allow.
    abbrev pub Said : Bytes → Bytes → Store → W → V → Store → Type 0
    Said server_key client_key st w v st' =
        Refined st p
          (journal_log (options_of st p) (journal st p)
            (call_line st p ctx (now w) severity_debug (
              kv (record {
                key = if options.client then client_key else server_key;
                val = string (take options.maxsize (options.format ctx v));
              })
              ∷ []))
            true)
          st'

    debug-Said :
        (key client_key : Bytes) (st : Store) (w : W) (v : V)
        → prefixed true key ≡ client_key
        → IsReady st p
        → Said key client_key st w v (debug st ctx (now w) (payload options key ctx v))
    debug-Said key client_key st w v e r =
        subst
          (λ pairs.
            Refined st p
              (journal_log (options_of st p) (journal st p)
                (call_line st p ctx (now w) severity_debug pairs) true)
              (debug st ctx (now w) (payload options key ctx v)))
          (payload_lem options key client_key ctx v e)
          (debug-Refined st (now w) (payload options key ctx v) r)

  module _ {W V E : Type 0} (nil : V) (now : W → ℕ) (options : LpOptions V) where
    -- After the endpoint has ended as `got` says: an error is returned with a nil result, or else the
    -- result is returned and logged, by the journal that `Debug` has.
    abbrev pub Ended : Store × W × V × Option E → Store × W × V × Option E → Type 0
    Ended (st, w, res, some err) end = end ≡ (st, w, nil, some err)
    Ended (st, w, res, none) end =
        (end.2 ≡ res)
        × (end.3 ≡ none)
        × Said now options (codes "result") (codes "client-result") st w res end.0

    -- What a call of the endpoint behind `LogPayloads` does, with debug logs on or off.
    abbrev pub Served : Bool → Endpoint W V E → Store → W → V → Store × W × V × Option E → Type 0
    Served true next st w req end =
        (st1 : Store) × Said now options (codes "payload") (codes "client-payload") st w req st1
        × Ended (next st1 w ctx req) end
    Served false next st w req end = end ≡ next st w ctx req

    log_result-Ended :
        (got : Store × W × V × Option E)
        → IsReady got.0 p
        → Ended got (log_result nil now options ctx got)
    log_result-Ended (st, w, res, some err) r = refl
    log_result-Ended (st, w, res, none) r = (
      refl,
      refl,
      debug-Said now options (codes "result") (codes "client-result") st w res refl r,
    )

    -- With debug logs on, `LogPayloads` logs the payload before it calls the endpoint, once, and its
    -- result afterwards unless there is an error, which it returns with nil for the result. The key is
    -- "payload" or "result", behind "client-" for a client, and the value the formatted text up to the
    -- maximal size. With debug logs off, it only calls the endpoint. The logger is in order before the
    -- call of the endpoint and, if debug logs are on, after it.
    pub log_payloads-Ended :
        (next : Endpoint W V E) (st : Store) (w : W) (req : V)
        → IsReady st p
        → IsReady (next (log_request now options st w ctx req) w ctx req).0 p
        → Served
            (options_of st p).debug
            next
            st
            w
            req
            (log_payloads nil now options next st w ctx req)
    log_payloads-Ended next st w req r r' =
        let st1 = log_request now options st w ctx req in
        rw (debug_enabled_lem st ctx p carries) (elim (Bool-cases (options_of st p).debug) [
          | inl on ↦ rw on (
            st1,
            debug-Said now options (codes "payload") (codes "client-payload") st w req refl r,
            log_result-Ended (next st1 w ctx req) r',
          )
          | inr off ↦ rw off refl
        ])
