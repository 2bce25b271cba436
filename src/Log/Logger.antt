-- ===== src/Log/Logger.antt =====
-- Loggers, their options and log contexts (log/log.go, log/options.go, log/context.go). A pointer is
-- an address in a store; the mutex of a logger makes each operation on it one step.
pub mod Gather
pub mod Journal
pub mod Ready
pub mod Refinement
use clue.Base.{
  ℕ, suc, ◌==◌, Bool, true, false, not, ◌&&◌, ◌||◌, String, Option, none, some, List, [], ◌∷◌, ◌++◌,
  map, Bytes, codes, update, if◌then◌else◌,
}
use clue.Base.Int.{ℤ}
use clue.Log.Value.{Value, Pair, Fielder}
use clue.Log.Memory.{Runtime, Memory, Slice, nil_slice, empty_memory, view, append, merge}
use clue.Log.Truncate.{truncate}

-- `Severity`; an integer that is none of the three constants is kept as it is.
pub data Severity : Type 0 where
  severity_debug severity_info severity_error : Severity
  severity_other : ℤ → Severity

-- `String`
unfoldable pub severity_text : Severity → Bytes
severity_text severity_debug = codes "debug"
severity_text severity_info = codes "info"
severity_text severity_error = codes "error"
severity_text (severity_other n) = codes "<INVALID>"

-- `Code`
pub severity_code : Severity → Bytes
severity_code severity_debug = codes "DEBG"
severity_code severity_info = codes "INFO"
severity_code severity_error = codes "ERRO"
severity_code (severity_other n) = codes "<INVALID>"

-- `Color`; 27 is the escape character.
pub severity_color : Severity → Bytes
severity_color severity_debug = 27 ∷ codes "[37m"
severity_color severity_info = 27 ∷ codes "[34m"
severity_color severity_error = 27 ∷ codes "[1;31m"
severity_color (severity_other n) = []

abbrev pub is_debug : Severity → Bool
is_debug severity_debug = true
is_debug severity_info = false
is_debug severity_error = false
is_debug (severity_other n) = false

-- `Entry`; a time is a reading of the clock.
pub record Entry : Type 0 where
  pub time : ℕ
  pub severity : Severity
  pub key_vals : Slice

-- An entry as a `FormatFunc` reads it, with the pairs that its slice shows at that moment.
pub record Line : Type 0 where
  pub time : ℕ
  pub severity : Severity
  pub key_vals : List Pair

-- A context: the logger that it carries under `ctxLogger`, and its values under other keys.
pub record Context : Type 0 where
  pub logger : Option ℕ
  pub values : List (String × Value)

-- `options`; `w` names a writer.
pub record Options : Type 0 where
  pub disable_buffering : Option (Context → Bool)
  pub debug : Bool
  pub w : ℕ
  pub format : Line → Bytes
  pub keyvals : Slice
  pub kvfuncs : List (Context → List Pair)
  pub maxsize : ℕ

-- `logger`
pub record Logger : Type 0 where
  pub options : ℕ
  pub keyvals : Slice
  pub entries : List Entry
  pub flushed : Bool

-- All that the operations share: arrays, options and loggers by address, what was written, in
-- order and with its writer, and the code of `os.Exit` once it was called.
pub record Store : Type 0 where
  pub memory : Memory
  pub options : ℕ → Options
  pub next_options : ℕ
  pub logger : ℕ → Logger
  pub next_logger : ℕ
  pub output : List (ℕ × Bytes)
  pub exit_code : Option ℕ

-- `LogOption`
abbrev pub LogOption : Type 0
LogOption = Options → Options

-- What depends on the logger of a context, if it has one.
abbrev pub on_logger {ℓ} : {A : Type ℓ} → Option ℕ → A → (ℕ → A) → A
on_logger none a f = a
on_logger (some p) a f = f p

abbrev pub options_of : Store → ℕ → Options
options_of st p = st.options (st.logger p).options

abbrev pub line : Memory → Entry → Line
line mem e = record { time = e.time; severity = e.severity; key_vals = view mem e.key_vals }

-- l.options.w.Write(l.options.format(e)); the source drops the writer's error.
unfoldable pub write_entry : Store → ℕ → Entry → Store
write_entry st p e = record st {
  output = st.output ++ ((options_of st p).w, (options_of st p).format (line st.memory e)) ∷ [];
}

unfoldable pub write_entries : Store → ℕ → List Entry → Store
write_entries st p [] = st
write_entries st p (e ∷ es) = write_entries (write_entry st p e) p es

-- `flush`
unfoldable pub flush : Store → ℕ → Store
unfolding write_entries write_entry
flush st p =
    if (st.logger p).flushed
    then st
    else let st' = write_entries st p (st.logger p).entries in
      record st' {
        logger = update st'.logger p (record (st'.logger p) { entries = []; flushed = true });
      }

module _ ⦃rt : Runtime⦄ where
  -- `for _, fn := range l.options.kvfuncs`
  unfoldable pub append_funcs :
      Memory → Slice → Context → List (Context → List Pair) → Memory × Slice
  append_funcs mem s ctx [] = (mem, s)
  append_funcs mem s ctx (fn ∷ fns) =
      let (mem', s') = append mem s (fn ctx) in append_funcs mem' s' ctx fns

  -- The pairs of a new entry: those of the options, of the logger, of the call and of the functions.
  unfoldable pub gather : Memory → Logger → Options → Context → List Fielder → Memory × Slice
  unfolding append_funcs
  gather mem l o ctx fielders =
      let (m1, given) = merge mem nil_slice fielders in
      let (m2, own) = append m1 l.keyvals (view m1 given) in
      let (m3, all) = append m2 o.keyvals (view m2 own) in
      let (m4, made) = append_funcs m3 all ctx o.kvfuncs in (truncate m4 made o.maxsize, made)

  -- The entry is written, or it waits in the buffer.
  unfoldable pub emit : Store → ℕ → Entry → Bool → Store
  unfolding write_entry
  emit st p e buffer =
      if (st.logger p).flushed || not buffer then write_entry st p e else record st {
        logger =
            update st.logger p (record (st.logger p) { entries = (st.logger p).entries ++ e ∷ [] });
      }

  -- `log` behind its test of the severity.
  unfoldable pub log_entry : Store → ℕ → Context → ℕ → Severity → Bool → List Fielder → Store
  log_entry st p ctx now sev buffer fielders =
      let (mem, kvs) = gather st.memory (st.logger p) (options_of st p) ctx fielders in
      emit (record st { memory = mem }) p (record { time = now; severity = sev; key_vals = kvs })
        buffer

  unfoldable pub log_to : Store → ℕ → Context → ℕ → Severity → Bool → List Fielder → Store
  log_to st p ctx now sev buffer fielders =
      if not (options_of st p).debug && is_debug sev
      then st
      else if (options_of st p).debug && not (st.logger p).flushed
      then log_entry (flush st p) p ctx now sev buffer fielders
      else log_entry st p ctx now sev buffer fielders

  -- `log`; the argument `now` is what the clock says.
  unfoldable pub log : Store → Context → ℕ → Severity → Bool → List Fielder → Store
  log st ctx now sev buffer fielders =
      on_logger ctx.logger st (λ p. log_to st p ctx now sev buffer fielders)
