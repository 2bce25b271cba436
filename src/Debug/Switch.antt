-- ===== src/Debug/Switch.antt =====
-- The switch of debug logs, and the middleware that follows it (debug/debug.go, debug/http.go,
-- debug/grpc.go). The package's variable `debugLogs` is a Boolean of the state.
pub mod Follows
use clue.Base.{
  Bool, true, false, String, Option, none, some, List, [], ◌∷◌, ◌++◌, Bytes, codes, same_bytes,
  if◌then◌else◌,
}
use clue.Log.Logger.{Context, Store, Options, LogOption}
use clue.Log.Operations.{context, with_debug, with_no_debug}
use clue.Debug.Options.{DleOptions, default_debug_log_enabler_options, apply_enabler_options}
use clue.Debug.Mounts.{Mount, from_slash}

-- The handler's first step: the variable after a request with this value of the parameter.
abbrev pub switched : DleOptions → Bool → Bytes → Bool
switched o debug_logs q =
    if same_bytes q o.onval then true else if same_bytes q o.offval then false else debug_logs

-- {"query":"value"}
abbrev pub status_text : Bytes → Bytes → Bytes
status_text query value = codes "{\"" ++ (query ++ (codes "\":\"" ++ (value ++ codes "\"}")))

-- The handler: the variable and what it writes; `get` is `Get` on the query of a request.
abbrev pub serve_switch : {R : Type 0} → (R → Bytes → Bytes) → DleOptions → Bool → R → Bool × Bytes
serve_switch get o debug_logs r =
    let debug_logs' = switched o debug_logs (get r o.query) in
    (debug_logs', status_text o.query (if debug_logs' then o.onval else o.offval))

-- `MountDebugLogEnabler`
abbrev pub mount_debug_log_enabler :
    {M R : Type 0}
    → (R → Bytes → Bytes)
    → Mount M (Bool → R → Bool × Bytes)
    → M
    → List (DleOptions → DleOptions)
    → M
mount_debug_log_enabler get handle mux opts =
    let o = apply_enabler_options default_debug_log_enabler_options opts in
    handle mux (from_slash o.path) (serve_switch get o)

abbrev pub debug_option : Bool → LogOption
debug_option true = with_debug
debug_option false = with_no_debug

-- `A` is what a handler does. `defaults` is what defaultOptions of the package log returns.
module _ (defaults : Options) {A : Type 0} where
  -- `HTTP`, and `UnaryServerInterceptor`
  abbrev pub follow_switch :
      {Q : Type 0} → (Store → Context → Q → A) → Bool → Store → Context → Q → A
  follow_switch next debug_logs st ctx req =
      let (st', ctx') = context defaults st ctx (debug_option debug_logs ∷ []) in next st' ctx' req

  -- `StreamServerInterceptor`, for a stream by its context and by what else it is.
  abbrev pub stream_follow_switch :
      {V S : Type 0} → (Store → V → S → Context → A) → Bool → Store → V → S → Context → A
  stream_follow_switch handler debug_logs st srv stream ctx =
      let (st', ctx') = context defaults st ctx (debug_option debug_logs ∷ []) in
      handler st' srv stream ctx'
