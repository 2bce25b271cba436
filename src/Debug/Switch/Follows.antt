-- ===== src/Debug/Switch/Follows.antt =====
-- That the loggers of requests follow the switch (debug/debug.go, debug/http.go, debug/grpc.go).
use clue.Base.{
  ℕ, ◌≡◌, refl, ap, ◌∙◌, Bool, true, false, not, ◌&&◌, ◌||◌, some, List, [], ◌∷◌, ◌++◌, Bytes,
  same_bytes, arith,
}
use clue.Log.Memory.{nil_slice}
use clue.Log.Logger.{Context, Store, Options, options_of}
use clue.Log.Logger.Ready.{IsReady}
use clue.Log.Operations.{context, apply_options}
use clue.Log.Operations.Contexts.{context_again}
use clue.Debug.Options.{DleOptions}
use clue.Debug.Switch.{serve_switch, debug_option, follow_switch, stream_follow_switch}

module _ {R : Type 0} (get : R → Bytes → Bytes) (o : DleOptions) where
  -- The variable after some requests to the switch.
  abbrev pub serve_all : Bool → List R → Bool
  serve_all debug_logs [] = debug_logs
  serve_all debug_logs (r ∷ rs) = serve_all (serve_switch get o debug_logs r).0 rs

  -- Whether a request sets the variable.
  abbrev pub sets : R → Bool
  sets r = same_bytes (get r o.query) o.onval || same_bytes (get r o.query) o.offval

  abbrev pub none_sets : List R → Bool
  none_sets [] = true
  none_sets (r ∷ rs) = not (sets r) && none_sets rs

  neutral :
      (debug_logs : Bool) (r : R)
      → sets r ≡ false
      → (serve_switch get o debug_logs r).0 ≡ debug_logs
  neutral debug_logs r h = ground (arith, h)

  serve_neutral :
      (debug_logs : Bool) (rs : List R) → none_sets rs ≡ true → serve_all debug_logs rs ≡ debug_logs
  serve_neutral debug_logs [] h = refl
  serve_neutral debug_logs (r ∷ rs) h =
      ap (λ b. serve_all b rs) (neutral debug_logs r (ground (arith, h)))
      ∙ serve_neutral debug_logs rs (ground (arith, h))

  setting :
      (debug_logs : Bool) (r : R)
      → sets r ≡ true
      → (serve_switch get o debug_logs r).0 ≡ same_bytes (get r o.query) o.onval
  setting debug_logs r h = ground (arith, h)

  serve_last :
      (debug_logs : Bool) (before : List R) (r : R) (behind : List R)
      → sets r ≡ true
      → none_sets behind ≡ true
      → serve_all debug_logs (before ++ r ∷ behind) ≡ same_bytes (get r o.query) o.onval
  serve_last debug_logs [] r behind h h' =
      serve_neutral (serve_switch get o debug_logs r).0 behind h' ∙ setting debug_logs r h
  serve_last debug_logs (q ∷ before) r behind h h' =
      serve_last (serve_switch get o debug_logs q).0 before r behind h h'

module _ (st : Store) (p : ℕ) where
  option_keyvals :
      (b : Bool)
      → IsReady st p
      → (apply_options (options_of st p) (debug_option b ∷ [])).keyvals ≡ nil_slice
  option_keyvals true r = r.no_pairs
  option_keyvals false r = r.no_pairs

  option_debug : (b : Bool) → (apply_options (options_of st p) (debug_option b ∷ [])).debug ≡ b
  option_debug true = refl
  option_debug false = refl

-- After any requests to the switch, `r` the last one that has its on value or its off value, a request
-- is handled with debug logs on exactly if `r` has the on value. The middleware for HTTP requests and
-- unary calls and that for streams call the handler with the logger of the request's context, which is
-- in order and stays so; every logger that shares its options is switched with it.
pub handlers_follow_switch :
    {R Q V S A : Type 0} (get : R → Bytes → Bytes) (o : DleOptions) (debug_logs : Bool)
    (before : List R) (r : R) (behind : List R) (defaults : Options) (st : Store) (ctx : Context)
    (p : ℕ) (next : Store → Context → Q → A) (req : Q) (handler : Store → V → S → Context → A)
    (srv : V) (stream : S)
    → sets get o r ≡ true
    → none_sets get o behind ≡ true
    → IsReady st p
    → ctx.logger ≡ some p
    → let on = serve_all get o debug_logs (before ++ r ∷ behind) in
      (st' : Store) × (ctx' : Context) × (ctx'.logger ≡ some p)
      × IsReady st' p
      × ((q : ℕ)
          → (st.logger q).options ≡ (st.logger p).options
          → (options_of st' q).debug ≡ same_bytes (get r o.query) o.onval)
      × (follow_switch defaults next on st ctx req ≡ next st' ctx' req)
      × (stream_follow_switch defaults handler on st srv stream ctx ≡ handler st' srv stream ctx')
handlers_follow_switch get o debug_logs before r behind defaults st ctx p next req handler srv
      stream h h' ready carries =
    let on = serve_all get o debug_logs (before ++ r ∷ behind) in
    let made = context defaults st ctx (debug_option on ∷ []) in
    let (logger, options, ready', journal) =
      context_again defaults st ctx (debug_option on ∷ []) p ready (option_keyvals st p on ready)
        carries in
    (
      made.0,
      made.1,
      logger,
      ready',
      λ q d.
          ap (λ (a : Options). a.debug) (options q d)
          ∙ option_debug st p on
          ∙ serve_last get o debug_logs before r behind h h',
      refl,
      refl,
    )
