-- ===== src/Log/Operations.antt =====
-- The operations of the package log on contexts: log/log.go, log/context.go, log/options.go.
pub mod Histories
pub mod Effects
pub mod Sharing
pub mod Children
pub mod Contexts
use clue.Base.{
  apply_all, ℕ, suc, Bool, true, false, Option, none, some, List, [], ◌∷◌, ◌++◌, Bytes, codes,
  update, if◌then◌else◌,
}
use clue.Log.Value.{Value, string, Pair, Fielder, kv}
use clue.Log.Memory.{Runtime, Slice, nil_slice, view, merge}
use clue.Log.Logger.{
  Severity, severity_debug, severity_info, severity_error, Context, Options, Logger, Store,
  LogOption, Line, options_of, on_logger, flush, log,
}

-- log/keys.go
abbrev pub message_key : Bytes
message_key = codes "msg"

abbrev pub error_message_key : Bytes
error_message_key = codes "err"

-- KV{MessageKey, fmt.Sprintf(format, v...)}, given the text that Sprintf makes.
abbrev pub message : Bytes → List Fielder
message text = kv (record { key = message_key; val = string text }) ∷ []

-- `WithDebug`, `WithNoDebug`
abbrev pub with_debug : LogOption
with_debug o = record o { debug = true }

abbrev pub with_no_debug : LogOption
with_no_debug o = record o { debug = false }

abbrev pub with_disable_buffering : (Context → Bool) → LogOption
with_disable_buffering fn o = record o { disable_buffering = some fn }

abbrev pub with_output : ℕ → LogOption
with_output w o = record o { w = w }

abbrev pub with_format : (Line → Bytes) → LogOption
with_format fn o = record o { format = fn }

abbrev pub with_max_size : ℕ → LogOption
with_max_size n o = record o { maxsize = n }

abbrev pub with_func : (Context → List Pair) → LogOption
with_func fn o = record o { kvfuncs = o.kvfuncs ++ fn ∷ [] }

-- `DefaultMaxSize`
abbrev pub default_max_size : ℕ
default_max_size = 1024

abbrev pub apply_options : Options → List LogOption → Options
apply_options o opts = apply_all o opts

-- l.options.disableBuffering != nil && l.options.disableBuffering(ctx)
abbrev pub buffering_disabled : Option (Context → Bool) → Context → Bool
buffering_disabled none ctx = false
buffering_disabled (some fn) ctx = fn ctx

-- The logger of a context, or a new one with the default options.
unfoldable pub find_or_make : Options → Store → Option ℕ → Store × ℕ
find_or_make defaults st (some p) = (st, p)
find_or_make defaults st none = (
  record st {
    options = update st.options st.next_options defaults;
    next_options = suc st.next_options;
    logger =
        update st.logger st.next_logger (record {
          options = st.next_options;
          keyvals = nil_slice;
          entries = [];
          flushed = false;
        });
    next_logger = suc st.next_logger;
  },
  st.next_logger,
)

unfoldable pub configure : Store → ℕ → List LogOption → Store
configure st p opts = record st {
  options = update st.options (st.logger p).options (apply_options (options_of st p) opts);
}

-- `Context`: the options of an existing logger are changed in place. `defaults` is what
-- `defaultOptions` returns.
unfoldable pub context : Options → Store → Context → List LogOption → Store × Context
context defaults st ctx opts =
    let (st1, p) = find_or_make defaults st ctx.logger in
    let st2 = configure st1 p opts in
    let ctx' = record ctx { logger = some p } in
    if buffering_disabled (options_of st2 p).disable_buffering ctx
    then (flush st2 p, ctx')
    else (st2, ctx')

-- `WithContext`
unfoldable pub with_context : Context → Context → Context
with_context parent log_ctx =
    on_logger log_ctx.logger parent (λ p. record parent { logger = some p })

-- `MustContainLogger`: false is its panic.
pub must_contain_logger : Context → Bool
must_contain_logger log_ctx = on_logger log_ctx.logger false (λ p. true)

-- `DebugEnabled`
unfoldable pub debug_enabled : Store → Context → Bool
debug_enabled st ctx = on_logger ctx.logger false (λ p. (options_of st p).debug)

-- `FlushAndDisableBuffering`
unfoldable pub flush_and_disable_buffering : Store → Context → Store
flush_and_disable_buffering st ctx = on_logger ctx.logger st (flush st)

-- The pairs of `Error`: the text of the error in front, if there is an error.
abbrev pub error_fields : Option Bytes → List Fielder → List Fielder
error_fields none keyvals = keyvals
error_fields (some text) keyvals =
    kv (record { key = error_message_key; val = string text }) ∷ keyvals

module _ ⦃rt : Runtime⦄ where
  -- The copy that `With` makes of the logger at `p`; the old entries go along.
  unfoldable pub copy_logger : Store → ℕ → Bool → Slice → Logger
  copy_logger st p flushed kvs = record {
    options = (st.logger p).options;
    keyvals = kvs;
    entries = (st.logger p).entries;
    flushed = flushed;
  }

  unfoldable pub with_logger : Store → Context → ℕ → List Fielder → Store × Context
  with_logger st ctx p keyvals =
      let (mem, kvs) = merge st.memory (st.logger p).keyvals keyvals in
      let st1 = record st { memory = mem } in
      let off = buffering_disabled (options_of st p).disable_buffering ctx in
      let st2 = if off then flush st1 p else st1 in
      let copy = copy_logger st p (if off then true else (st.logger p).flushed) kvs in
      (
        record st2 {
          logger = update st2.logger st2.next_logger copy;
          next_logger = suc st2.next_logger;
        },
        record ctx { logger = some st2.next_logger },
      )

  -- `With`
  unfoldable pub with : Store → Context → List Fielder → Store × Context
  with st ctx keyvals = on_logger ctx.logger (st, ctx) (λ p. with_logger st ctx p keyvals)

  unfoldable pub debug : Store → Context → ℕ → List Fielder → Store
  debug st ctx now keyvals = log st ctx now severity_debug true keyvals

  unfoldable pub print : Store → Context → ℕ → List Fielder → Store
  print st ctx now keyvals = log st ctx now severity_info false keyvals

  unfoldable pub info : Store → Context → ℕ → List Fielder → Store
  info st ctx now keyvals = log st ctx now severity_info true keyvals

  unfoldable pub error : Store → Context → ℕ → Option Bytes → List Fielder → Store
  error st ctx now err keyvals =
      log (flush_and_disable_buffering st ctx) ctx now severity_error true
        (error_fields err keyvals)

  -- osExit(1)
  unfoldable pub fatal : Store → Context → ℕ → Option Bytes → List Fielder → Store
  fatal st ctx now err keyvals = record (error st ctx now err keyvals) { exit_code = some 1 }

  pub debugf : Store → Context → ℕ → Bytes → Store
  debugf st ctx now text = debug st ctx now (message text)

  pub printf : Store → Context → ℕ → Bytes → Store
  printf st ctx now text = print st ctx now (message text)

  pub infof : Store → Context → ℕ → Bytes → Store
  infof st ctx now text = info st ctx now (message text)

  pub errorf : Store → Context → ℕ → Option Bytes → Bytes → Store
  errorf st ctx now err text = error st ctx now err (message text)

  pub fatalf : Store → Context → ℕ → Option Bytes → Bytes → Store
  fatalf st ctx now err text = fatal st ctx now err (message text)
