-- ===== src/Debug/Tests.antt =====
-- The switch and the logs of payloads on concrete requests.
use clue.Base.{ℕ, suc, ◌≡◌, refl, true, false, none, some, [], ◌∷◌, ◌++◌, Bytes, codes}
use clue.Log.Logger.{Context, Store, options_of}
use clue.Log.Logger.Ready.{IsReady}
use clue.Log.Operations.{with_debug}
use clue.Log.Tests.{doubling, some_store, some_context, some_store-IsReady}
use clue.Debug.Options.{
  LpOptions, default_debug_log_enabler_options, default_log_payloads_options, json,
}
use clue.Debug.Switch.{follow_switch, stream_follow_switch}
use clue.Debug.Switch.Follows.{serve_all, handlers_follow_switch}
use clue.Debug.Payloads.{Endpoint, payload, log_request, log_payloads}
use clue.Debug.Payloads.Lines.{Said, Ended, debug-Refined, log_payloads-Ended}

-- A request is the value of its parameter.
abbrev get : Bytes → Bytes → Bytes
get value query = value

-- The switch is set on, off and on again, and then asked.
handlers_follow_switch_example :
    (st' : Store) × (ctx' : Context) × (ctx'.logger ≡ some 0)
    × IsReady st' 0
    × ((q : ℕ)
        → (some_store.logger q).options ≡ (some_store.logger 0).options
        → (options_of st' q).debug ≡ true)
    × (follow_switch
          (options_of some_store 0)
          (λ st ctx (req : ℕ). ctx)
          (serve_all get default_debug_log_enabler_options false
            ((codes "on" ∷ (codes "off" ∷ [])) ++ codes "on" ∷ (codes "" ∷ [])))
          some_store
          some_context
          7
        ≡ ctx')
    × (stream_follow_switch
          (options_of some_store 0)
          (λ st (srv stream : ℕ) ctx. ctx)
          (serve_all get default_debug_log_enabler_options false
            ((codes "on" ∷ (codes "off" ∷ [])) ++ codes "on" ∷ (codes "" ∷ [])))
          some_store
          1
          2
          some_context
        ≡ ctx')
handlers_follow_switch_example =
    handlers_follow_switch get default_debug_log_enabler_options false
      (codes "on" ∷ (codes "off" ∷ [])) (codes "on") (codes "" ∷ []) (options_of some_store 0)
      some_store some_context 0 (λ st ctx (req : ℕ). ctx) 7 (λ st (srv stream : ℕ) ctx. ctx) 1 2
      refl refl some_store-IsReady refl

abbrev debug_store : Store
debug_store = record some_store { options = λ a. with_debug (options_of some_store 0) }

debug_store-IsReady : IsReady debug_store 0
debug_store-IsReady = record {
  has_nil = some_store-IsReady.has_nil;
  own = some_store-IsReady.own;
  no_pairs = refl;
  kept = some_store-IsReady.kept;
}

abbrev payload_options : LpOptions Bytes
payload_options = default_log_payloads_options json

-- An endpoint that doubles its payload, and takes time.
abbrev double : Endpoint ℕ Bytes Bytes
double st w ctx req = (st, suc w, req ++ req, none)

abbrev asked : Store
asked = log_request (λ (w : ℕ). w) payload_options debug_store 3 some_context (codes "ab")

asked-IsReady : IsReady asked 0
asked-IsReady =
    let logged =
      debug-Refined 0 some_context refl debug_store 3
        (payload payload_options (codes "payload") some_context (codes "ab")) debug_store-IsReady in
    logged.ready

-- The endpoint returns, with debug logs on.
log_payloads-Ended_example :
    (st1 : Store) × Said 0 some_context refl
      (λ (w : ℕ). w)
      payload_options
      (codes "payload")
      (codes "client-payload")
      debug_store
      3
      (codes "ab")
      st1
    × Ended 0 some_context refl
        (codes "nil")
        (λ (w : ℕ). w)
        payload_options
        (st1, 4, codes "abab", none)
        (log_payloads
          (codes "nil")
          (λ (w : ℕ). w)
          payload_options
          double
          debug_store
          3
          some_context
          (codes "ab"))
log_payloads-Ended_example =
    log_payloads-Ended 0 some_context refl (codes "nil") (λ (w : ℕ). w) payload_options double
      debug_store 3 (codes "ab") debug_store-IsReady asked-IsReady
