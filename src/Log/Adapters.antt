-- ===== src/Log/Adapters.antt =====
-- The adapters of log/adapt.go: loggers for other libraries. What fmt makes of arguments is an argument:
-- `text` is the text of Sprint, Sprintf or Sprintln.
pub mod Pairs
use clue.Base.{
  ℕ, zero, suc, ◌+◌, ◌*◌, ◌/◌, ◌%◌, ◌==◌, length, get_elem?, Bool, true, false, Option, none, some,
  List, [], ◌∷◌, ◌++◌, Bytes, codes, if◌then◌else◌,
}
use clue.Log.Value.{Value, string, Pair, Fielder, kv_list, verb_v}
use clue.Log.Memory.{Runtime}
use clue.Log.Logger.{Context, Store}
use clue.Log.Operations.{with_context, print, printf, debugf, infof}

-- `StdLogger`, `AWSLogger` and `goaLogger` hold a context.
abbrev pub as_goa_middleware_logger : Context → Context
as_goa_middleware_logger ctx = ctx

-- logging.Classification, as far as the source tells it apart.
pub data Classification : Type 0 where
  debug_class other_class : Classification

-- How a method ends: it returns, or panics with a text.
pub data Ending : Type 0 where
  returns : Ending
  panics : Bytes → Ending

-- The values of `Log`, an even number of them.
abbrev pub padded : List Value → List Value
padded keyvals =
    if length keyvals % 2 == 0 then keyvals else keyvals ++ string (codes "MISSING") ∷ []

-- KV{K: fmt.Sprint(k), V: v}
abbrev pub pair_values : (Value → Bytes) → Option Value → Option Value → Option Pair
pair_values sprint none v = none
pair_values sprint (some k) none = none
pair_values sprint (some k) (some v) = some (record { key = sprint k; val = v })

-- kvs[i]; `sprint` is fmt.Sprint of one value, and an index out of range panics, which is none.
abbrev pub goa_pair : (Value → Bytes) → List Value → ℕ → Option Pair
goa_pair sprint keyvals i =
    pair_values sprint (get_elem? keyvals (2 * i)) (get_elem? keyvals (2 * i + 1))

abbrev pub put_pair : Option Pair → Option (List Pair) → Option (List Pair)
put_pair none rest = none
put_pair (some p) none = none
put_pair (some p) (some ps) = some (p ∷ ps)

-- The loop of `Log` from an index for some more rounds.
unfoldable pub goa_loop : (Value → Bytes) → List Value → ℕ → ℕ → Option (List Pair)
goa_loop sprint keyvals i zero = some []
goa_loop sprint keyvals i (suc n) =
    put_pair (goa_pair sprint keyvals i) (goa_loop sprint keyvals (suc i) n)

unfoldable pub goa_pairs : (Value → Bytes) → List Value → Option (List Pair)
goa_pairs sprint keyvals = goa_loop sprint (padded keyvals) 0 ((length keyvals + 1) / 2)

module _ ⦃rt : Runtime⦄ where
  -- `Print`, `Printf` and `Println` of `StdLogger`: under the format %s a text stays as it is.
  abbrev pub std_print : Store → Context → ℕ → Bytes → Store
  std_print st ctx now text = printf st ctx now text

  -- `Fatal`, `Fatalf` and `Fatalln`
  abbrev pub std_fatal : Store → Context → ℕ → Bytes → Store
  std_fatal st ctx now text = record (std_print st ctx now text) { exit_code = some 1 }

  -- `Panic`, `Panicf` and `Panicln`
  abbrev pub std_panic : Store → Context → ℕ → Bytes → Store × Ending
  std_panic st ctx now text = (std_print st ctx now text, panics text)

  -- `Logf`
  abbrev pub aws_logf : Store → Context → ℕ → Classification → Bytes → Store
  aws_logf st l now debug_class text = debugf st l now text
  aws_logf st l now other_class text = infof st l now text

  -- `Log` of `goaLogger`; none is a panic.
  unfoldable pub goa_log : (Value → Bytes) → Store → Context → ℕ → List Value → Option Store
  goa_log sprint st l now keyvals = elim (goa_pairs sprint keyvals) [
    | none ↦ none
    | some kvs ↦ some (print st l now (kv_list kvs ∷ []))
  ]

-- `WithContext` of `AWSLogger`
abbrev pub aws_with_context : Context → Context → Context
aws_with_context l ctx = with_context ctx l
