-- ===== src/Debug/Options.antt =====
-- The options of the package debug (debug/options.go).
use clue.Base.{
  apply_all, ℕ, Bool, true, false, Option, none, some, List, [], ◌∷◌, ◌++◌, Bytes, codes,
}
use clue.Log.Logger.{Context}

-- `lpOptions`, for values of the type `V`; the field prefix, which nothing sets or reads, is left out.
pub record LpOptions (V : Type 0) : Type 0 where
  pub maxsize : ℕ
  pub format : Context → V → Bytes
  pub client : Bool

-- `dleOptions`
pub record DleOptions : Type 0 where
  pub path : Bytes
  pub query : Bytes
  pub onval : Bytes
  pub offval : Bytes

-- `pprofOptions`
pub record PprofOptions : Type 0 where
  pub prefix : Bytes

-- `DefaultMaxSize`
abbrev pub default_max_size : ℕ
default_max_size = 1024

-- What json.Marshal gives: a text, or the text of an error.
pub data Marshaled : Type 0 where
  json : Bytes → Marshaled
  invalid : Bytes → Marshaled

-- `FormatJSON`
abbrev pub format_json : {V : Type 0} → (V → Marshaled) → Context → V → Bytes
format_json marshal ctx v = elim (marshal v) [
  | json js ↦ js
  | invalid err ↦ codes "<invalid: " ++ (err ++ codes ">")
]

module _ {V : Type 0} where
  abbrev pub with_format : (Context → V → Bytes) → LpOptions V → LpOptions V
  with_format fn o = record o { format = fn }

  abbrev pub with_max_size : ℕ → LpOptions V → LpOptions V
  with_max_size n o = record o { maxsize = n }

  abbrev pub with_client : LpOptions V → LpOptions V
  with_client o = record o { client = true }

  abbrev pub default_log_payloads_options : (V → Marshaled) → LpOptions V
  default_log_payloads_options marshal = record {
    maxsize = default_max_size;
    format = format_json marshal;
    client = false;
  }

  -- The options of `LogPayloads`: nil is skipped.
  abbrev pub apply_payload_options :
      LpOptions V → List (Option (LpOptions V → LpOptions V)) → LpOptions V
  apply_payload_options o [] = o
  apply_payload_options o (none ∷ opts) = apply_payload_options o opts
  apply_payload_options o (some opt ∷ opts) = apply_payload_options (opt o) opts

abbrev pub with_path : Bytes → DleOptions → DleOptions
with_path path o = record o { path = path }

abbrev pub with_prefix : Bytes → PprofOptions → PprofOptions
with_prefix prefix o = record o { prefix = prefix }

abbrev pub with_query : Bytes → DleOptions → DleOptions
with_query query o = record o { query = query }

abbrev pub with_on_value : Bytes → DleOptions → DleOptions
with_on_value onval o = record o { onval = onval }

abbrev pub with_off_value : Bytes → DleOptions → DleOptions
with_off_value offval o = record o { offval = offval }

abbrev pub default_debug_log_enabler_options : DleOptions
default_debug_log_enabler_options = record {
  path = codes "debug";
  query = codes "debug-logs";
  onval = codes "on";
  offval = codes "off";
}

abbrev pub default_pprof_options : PprofOptions
default_pprof_options = record { prefix = codes "/debug/pprof/" }

abbrev pub apply_enabler_options : DleOptions → List (DleOptions → DleOptions) → DleOptions
apply_enabler_options o opts = apply_all o opts

abbrev pub apply_pprof_options : PprofOptions → List (PprofOptions → PprofOptions) → PprofOptions
apply_pprof_options o opts = apply_all o opts
