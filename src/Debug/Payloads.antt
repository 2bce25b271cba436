-- ===== src/Debug/Payloads.antt =====
-- LogPayloads of debug/debug.go, for values of the type `V` and errors `E`.
pub mod Lines
use clue.Base.{
  ℕ, Bool, true, false, String, Option, none, some, List, [], ◌∷◌, ◌++◌, Bytes, codes, take, length,
  ltb, if◌then◌else◌,
}
use clue.Log.Value.{Value, string, Pair, Fielder, kv}
use clue.Log.Memory.{Runtime}
use clue.Log.Logger.{Context, Store}
use clue.Log.Operations.{debug, debug_enabled}
use clue.Debug.Options.{LpOptions}

-- goa.Endpoint, in a world `W`.
abbrev pub Endpoint : Type 0 → Type 0 → Type 0 → Type 0
Endpoint W V E = Store → W → Context → V → Store × W × V × Option E

abbrev pub prefixed : Bool → Bytes → Bytes
prefixed client key = if client then codes "client-" ++ key else key

abbrev pub limited : ℕ → Bytes → Bytes
limited maxsize text = if ltb maxsize (length text) then take maxsize text else text

module _ {V : Type 0} where
  -- The pair of a payload or a result.
  abbrev pub payload : LpOptions V → Bytes → Context → V → List Fielder
  payload options key ctx v =
      kv (record {
        key = prefixed options.client key;
        val = string (limited options.maxsize (options.format ctx v));
      })
      ∷ []

-- `now` is the clock.
module _ ⦃rt : Runtime⦄ {W V : Type 0} (now : W → ℕ) where
  abbrev pub log_request : LpOptions V → Store → W → Context → V → Store
  log_request options st w ctx req =
      debug st ctx (now w) (payload options (codes "payload") ctx req)

-- `nil` is the nil of interface{}.
module _ ⦃rt : Runtime⦄ {W V E : Type 0} (nil : V) (now : W → ℕ) where
  abbrev pub log_result :
      LpOptions V → Context → Store × W × V × Option E → Store × W × V × Option E
  log_result options ctx (st, w, res, some err) = (st, w, nil, some err)
  log_result options ctx (st, w, res, none) =
      (debug st ctx (now w) (payload options (codes "result") ctx res), w, res, none)

  -- `LogPayloads`
  abbrev pub log_payloads : LpOptions V → Endpoint W V E → Endpoint W V E
  log_payloads options next st w ctx req =
      if debug_enabled st ctx
      then log_result options ctx (next (log_request now options st w ctx req) w ctx req)
      else next st w ctx req
