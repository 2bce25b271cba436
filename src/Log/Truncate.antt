-- ===== src/Log/Truncate.antt =====
-- `truncate` and `limitWriter` of log/log.go, which keep the values of an entry short.
pub mod Cells
pub mod Laws
pub mod Bounds
use clue.Base.{
  ℕ, zero, suc, ◌+◌, ◌-◌, ◌≡◌, refl, Bool, true, false, Option, none, some, List, [], ◌∷◌, ◌++◌,
  Bytes, codes, length, get_elem?, take, ltb, if◌then◌else◌,
}
use clue.Log.Value.{
  Value, Pair, nil, string, integer, float, bool, strings, integers, floats, bools, values, other,
  verb_v,
}
use clue.Log.Memory.{Runtime, Memory, Slice, store, append}

-- `truncationSuffix`
abbrev pub truncation_suffix : Bytes
truncation_suffix = codes " ... <clue/log.truncated>"

-- `limitWriter`, the bytes that it has passed on to its writer included.
pub record LimitWriter : Type 0 where
  pub max : ℕ
  pub n : ℕ
  pub passed : Bytes

abbrev pub new_limit_writer : ℕ → LimitWriter
new_limit_writer max = record { max = max; n = 0; passed = [] }

-- `Write`; the flag is errTruncated.
pub write : LimitWriter → Bytes → LimitWriter × Bool
write lw b =
    if ltb lw.max (lw.n + length b)
    then (record lw { passed = lw.passed ++ take (lw.max - lw.n) b }, true)
    else (record lw { n = lw.n + length b; passed = lw.passed ++ b }, false)

-- The cases of the type switch that go on with the loop.
abbrev pub skipped : Value → Bool
skipped nil = true
skipped (integer k n) = true
skipped (float k f) = true
skipped (bool b) = true
skipped (string s) = false
skipped (strings l) = false
skipped (integers k l) = false
skipped (floats k l) = false
skipped (bools l) = false
skipped (values l) = false
skipped (other s) = false

-- The value that replaces `v`, if one does. fmt.Fprintf writes its whole text by one call.
pub shortened : ℕ → Value → Option Value
unfolding write
shortened maxsize v =
    if skipped v
    then none
    else let (lw, cut) = write (new_limit_writer maxsize) (verb_v v) in
      if cut then some (string (lw.passed ++ truncation_suffix)) else none

-- One round of the loop, at the pair that the array holds then.
replace : Memory → Slice → ℕ → Bytes → Option Value → Memory
replace mem s i key none = mem
replace mem s i key (some v) = store mem s i (record { key = key; val = v })

truncate_pair : Memory → Slice → ℕ → ℕ → Option Pair → Memory
unfolding replace
truncate_pair mem s maxsize i none = mem
truncate_pair mem s maxsize i (some p) = replace mem s i p.key (shortened maxsize p.val)

truncate_at : Memory → Slice → ℕ → ℕ → Memory
unfolding truncate_pair
truncate_at mem s maxsize i = truncate_pair mem s maxsize i (get_elem? (mem.array s.addr) i)

-- The rounds from index `i` on; the last argument counts them.
truncate_from : Memory → Slice → ℕ → ℕ → ℕ → Memory
truncate_from mem s maxsize i zero = mem
truncate_from mem s maxsize i (suc k) =
    truncate_from (truncate_at mem s maxsize i) s maxsize (suc i) k

abbrev pub log_pair : Pair
log_pair = record { key = codes "log"; val = string truncation_suffix }

module _ ⦃rt : Runtime⦄ where
  -- keyvals[:maxsize] with one more pair, if there are more; the caller's slice keeps its length.
  shorter : Memory → Slice → ℕ → Memory × Slice
  shorter mem s maxsize =
      if ltb maxsize s.len
      then append mem (record s { len = maxsize }) (log_pair ∷ [])
      else (mem, s)

  pub truncate : Memory → Slice → ℕ → Memory
  unfolding shorter truncate_from
  truncate mem s maxsize =
      let (mem', s') = shorter mem s maxsize in truncate_from mem' s' maxsize 0 s'.len
