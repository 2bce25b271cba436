-- ===== src/Log/Tests.antt =====
-- The package log on a concrete memory, logger and context.
mod Middleware
use clue.Base.{
  ℕ, All, ◌+◌, ◌≡◌, refl, true, false, none, some, List, [], ◌∷◌, ◌++◌, map, Bytes, codes, length,
  take, drop, arith, String, ◌==◌, if◌then◌else◌, inl,
}
use clue.Log.Value.{string, values, item, end, integers, int, Pair, Fielder, kv, verb_v}
use clue.Log.Memory.{Runtime, Memory, Slice, nil_slice, view}
use clue.Log.Memory.Laws.{IsSlice}
use clue.Log.Truncate.{shortened, truncate, truncation_suffix}
use clue.Log.Truncate.Laws.{truncated, view-truncate}
use clue.Log.Truncate.Bounds.{IsShort, shortened_lem, truncate-IsShort, truncate_misses_rest}
use clue.Log.Logger.{
  options_of, severity_debug, severity_info, severity_error, Line, Context, Options, Logger, Store,
  log, flush, gather, log_to,
}
use clue.Log.Logger.Gather.{HasNil, Gathered, entry_pairs, gather-Gathered}
use clue.Log.Logger.Journal.{journal_flush, journal_log, written}
use clue.Log.Logger.Ready.{IsReady, Refined, journal, flush-Refined}
use clue.Log.Logger.Refinement.{call_line, log_to-Refined}
use clue.Base.Int.{ℤ, pos, negsuc, decimal_ℤ}
use clue.Log.Formats.{quoted, write_json, format_json}
use clue.Log.Formats.Json.{IsJson, IsObject, IsFinite, write_json-IsJson, format_json-IsObject}
use clue.Log.Operations.{
  with_debug, with_disable_buffering, with_max_size, context, flush_and_disable_buffering, with,
  error, error_fields, print,
}
use clue.Log.Operations.Histories.{
  LogCall, line_of, log_calls, passed, everything, log_calls-everything,
}
use clue.Log.Operations.Effects.{print_lem, error-Refined, no_logger}
use clue.Log.Operations.Children.{with-IsReady}
use clue.Log.Operations.Contexts.{context_new, context_again}
use clue.Log.Operations.Sharing.{with_pairs, with_overwritten}

-- A runtime that doubles an array and adds what is needed.
instance abbrev pub doubling : Runtime
doubling = record { grow = λ cap need. cap + need; sufficiently_large = λ cap need. omega arith }

abbrev pair_of : String → String → Pair
pair_of k v = record { key = codes k; val = string (codes v) }

-- Three pairs in array 1, which has a fourth cell.
abbrev three_pairs : Memory
three_pairs = record {
  array = λ a.
      if a == 1
      then pair_of "a" "x"
        ∷ pair_of "b" "yyyyyyyyyyyyyyyyyyyyyyyyyyyyyyyyyyyy"
        ∷ pair_of "c" "z"
        ∷ pair_of "d" ""
        ∷ []
      else [];
  next = 2;
}

abbrev three : Slice
three = record { addr = 1; len = 3; cap = 4 }

three-IsSlice : IsSlice three_pairs three
three-IsSlice = record { within = omega arith; whole = refl; allocated = omega arith }

three_pairs-HasNil : HasNil three_pairs
three_pairs-HasNil = record { zero_allocated = omega arith; zero_empty = refl }

view-truncate_example :
    view (truncate three_pairs three 1) three ≡ truncated 1 (view three_pairs three)
view-truncate_example = view-truncate three_pairs three 1 three-IsSlice

truncate-IsShort_example :
    All (λ p. IsShort 5 p.val) (take 6 (view (truncate three_pairs three 5) three))
truncate-IsShort_example = truncate-IsShort three_pairs three 5 three-IsSlice

truncate_misses_rest_example :
    (length (view (truncate three_pairs three 1) three) ≡ 3)
    × (drop 2 (view (truncate three_pairs three 1) three) ≡ pair_of "c" "z" ∷ [])
truncate_misses_rest_example = truncate_misses_rest three_pairs three 1 three-IsSlice

-- A format that shows the keys, and options that add the pair of a function.
abbrev keys_format : Line → Bytes
keys_format ln = length ln.key_vals ∷ []

abbrev pub some_options : Options
some_options = record {
  disable_buffering = none;
  debug = false;
  w = 1;
  format = keys_format;
  keyvals = nil_slice;
  kvfuncs = (λ ctx. pair_of "f" "g" ∷ []) ∷ [];
  maxsize = 2;
}

-- A logger with the three pairs and one entry that waits.
abbrev some_logger : Logger
some_logger = record {
  options = 0;
  keyvals = three;
  entries = record { time = 5; severity = severity_info; key_vals = nil_slice } ∷ [];
  flushed = false;
}

abbrev pub some_store : Store
some_store = record {
  memory = three_pairs;
  options = λ a. some_options;
  next_options = 1;
  logger = λ a. some_logger;
  next_logger = 1;
  output = [];
  exit_code = none;
}

abbrev pub some_context : Context
some_context = record { logger = some 0; values = [] }

abbrev empty_context : Context
empty_context = record { logger = none; values = [] }

pub some_store-IsReady : IsReady some_store 0
some_store-IsReady = record {
  has_nil = three_pairs-HasNil;
  own = three-IsSlice;
  no_pairs = refl;
  kept = ((omega arith, inl refl), tt);
}

abbrev some_fields : List Fielder
some_fields = kv (pair_of "k" "v") ∷ []

log_to-Refined_example :
    Refined some_store 0
      (journal_log some_options
        (journal some_store 0)
        (call_line some_store 0 some_context 9 severity_info some_fields)
        true)
      (log_to some_store 0 some_context 9 severity_info true some_fields)
log_to-Refined_example =
    log_to-Refined some_store 0 some_context 9 severity_info true some_fields some_store-IsReady

-- A debug entry and an info entry, both buffered.
abbrev some_calls : List LogCall
some_calls =
    record { ctx = some_context; now = 9; sev = severity_debug; buffer = true; fielders = [] }
    ∷ record {
      ctx = some_context;
      now = 10;
      sev = severity_info;
      buffer = true;
      fielders = some_fields;
    }
    ∷ []

log_calls-everything_example :
    everything some_options (journal (log_calls some_store 0 some_calls) 0)
    ≡ everything some_options (journal some_store 0)
      ++ map (written some_options) (passed some_options (map (line_of some_store 0) some_calls))
log_calls-everything_example =
    log_calls-everything some_store 0 some_calls some_store-IsReady (λ (e : false ≡ true). cc)
      (refl, (refl, tt))

error-Refined_example :
    let ln =
      call_line some_store 0 some_context 9 severity_error
        (kv (record { key = codes "err"; val = string (codes "no") }) ∷ some_fields) in
    Refined some_store 0
      (record {
        output =
            map (written some_options) (journal some_store 0).pending
            ++ written some_options ln ∷ [];
        pending = [];
        flushed = true;
      })
      (error some_store some_context 9 (some (codes "no")) some_fields)
error-Refined_example =
    error-Refined some_store 0 some_context refl some_store-IsReady 9 (some (codes "no"))
      some_fields

with_pairs_example :
    let (st', c) = with some_store some_context some_fields in
    (c.logger ≡ some 1)
    × (view st'.memory (st'.logger 1).keyvals ≡ view three_pairs three ++ pair_of "k" "v" ∷ [])
    × ((st'.logger 1).options ≡ 0)
    × (view st'.memory (st'.logger 0).keyvals ≡ view three_pairs three)
with_pairs_example =
    with_pairs some_store 0 some_context some_fields some_store-IsReady refl (omega arith)

with_overwritten_example :
    let st1 = (with some_store some_context (kv (pair_of "a" "1") ∷ [])).0 in
    let st2 = (with st1 some_context (kv (pair_of "b" "2") ∷ [])).0 in
    view st2.memory (st2.logger 1).keyvals ≡ view three_pairs three ++ pair_of "b" "2" ∷ []
with_overwritten_example =
    with_overwritten some_store 0 some_context (pair_of "a" "1") (pair_of "b" "2")
      some_store-IsReady refl (omega arith) (omega arith)

with-IsReady_example :
    let st' = (with some_store some_context some_fields).0 in
    (IsReady st' 0 × (journal st' 0 ≡ journal some_store 0))
    × (IsReady st' 1 × (journal st' 1 ≡ journal some_store 0))
with-IsReady_example =
    with-IsReady some_store 0 some_context some_fields some_store-IsReady refl (omega arith)

context_new_example :
    let (st', c) =
      context some_options some_store empty_context
        (with_debug ∷ with_disable_buffering (λ ctx. true) ∷ []) in
    (c.logger ≡ some 1)
    × (options_of st' 1
        ≡ record some_options { debug = true; disable_buffering = some (λ ctx. true) })
    × IsReady st' 1
    × (journal st' 1 ≡ record { output = []; pending = []; flushed = true })
context_new_example =
    context_new some_options some_store empty_context
      (with_debug ∷ with_disable_buffering (λ ctx. true) ∷ []) three_pairs-HasNil refl refl

context_again_example :
    let (st', c) = context some_options some_store some_context (with_max_size 9 ∷ []) in
    let o = record some_options { maxsize = 9 } in
    (c.logger ≡ some 0)
    × ((q : ℕ) → (some_store.logger q).options ≡ 0 → options_of st' q ≡ o)
    × IsReady st' 0
    × (journal st' 0 ≡ journal some_store 0)
context_again_example =
    context_again some_options some_store some_context (with_max_size 9 ∷ []) 0 some_store-IsReady
      refl refl

-- Texts between quotation marks, and decimal numerals.
abbrev IsQuoted : Bytes → Type 0
IsQuoted t = (s : Bytes) × (t ≡ quoted s)

abbrev IsDecimal : Bytes → Type 0
IsDecimal t = (n : ℤ) × (t ≡ decimal_ℤ n)

format_json-IsObject_example :
    let e : Line = record { time = 5; severity = severity_info; key_vals = pair_of "k" "v" ∷ [] } in
    (t : Bytes) × (IsObject IsQuoted IsDecimal t
      × (format_json quoted (λ time. codes "T") e ≡ t ++ codes "\n"))
unfolding IsFinite
format_json-IsObject_example =
    format_json-IsObject quoted IsQuoted IsDecimal (λ s. (s, refl)) (λ n. (n, refl))
      (λ t h. (t, refl)) (λ time. codes "T")
      (record { time = 5; severity = severity_info; key_vals = pair_of "k" "v" ∷ [] }) refl
      ((refl, tt), tt)
