-- ===== src/Log/Location.antt =====
-- WithFileLocation and defaultOptions of log/options.go, given what runtime.Caller returns, and whether
-- the output is a terminal.
use clue.Base.{
  ℕ, zero, suc, ◌-◌, ◌==◌, ◌≡◌, refl, Bool, false, ◌&&◌, ◌||◌, none, some, [], ◌∷◌, ◌++◌, Bytes,
  codes, length, get_elem?, drop, if◌then◌else◌,
}
use clue.Base.Int.{decimal}
use clue.Log.Value.{string, Pair}
use clue.Log.Memory.{nil_slice}
use clue.Log.Logger.{Context, Options, Line, LogOption}
use clue.Log.Operations.{with_func, default_max_size}

-- file[i] == '/'
abbrev slash_at : Bytes → ℕ → Bool
slash_at file i = elim (get_elem? file i) [ none ↦ false | some c ↦ c == b'/' ]

-- The loop over the file's name from an index down to 1: what stands behind its second last slash.
abbrev short_from : Bytes → Bool → ℕ → Bytes
short_from file second zero = file
short_from file second (suc i) =
    let slash = slash_at file (suc i) in
    let rest = short_from file (second || slash) i in
    if slash && second then drop (suc (suc i)) file else rest

abbrev location_pair : Bytes → ℕ → Pair
location_pair file line = record {
  key = codes "file";
  val = string (short_from file false (length file - 1) ++ (codes ":" ++ decimal line));
}

-- `WithFileLocation`; `caller` is runtime.Caller(4) in a context's call.
abbrev pub with_file_location : (Context → Bytes × ℕ) → LogOption
with_file_location caller =
    with_func (λ ctx. let (file, line) = caller ctx in location_pair file line ∷ [])

-- `defaultOptions`, with the writer for os.Stdout, `IsTracing` and `IsTerminal`.
abbrev pub default_options : ℕ → (Context → Bool) → Bool → (Line → Bytes) → (Line → Bytes) → Options
default_options stdout is_tracing is_terminal format_text format_terminal = record {
  disable_buffering = some is_tracing;
  debug = false;
  w = stdout;
  format = if is_terminal then format_terminal else format_text;
  keyvals = nil_slice;
  kvfuncs = [];
  maxsize = default_max_size;
}

location_pair_test :
    (location_pair (codes "/go/clue/log/log.go") 12).val ≡ string (codes "log/log.go:12")
unfolding decimal
location_pair_test = refl

short_from_test : short_from (codes "log.go") false 5 ≡ codes "log.go"
short_from_test = refl
