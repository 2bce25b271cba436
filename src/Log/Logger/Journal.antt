-- ===== src/Log/Logger/Journal.antt =====
-- What a logger does, with no memory: the writes so far, the entries that wait, and whether
-- buffering is off. An entry is the line that its format function is given.
use clue.Base.{ℕ, Bool, true, not, ◌&&◌, ◌||◌, List, [], ◌∷◌, ◌++◌, map, Bytes, if◌then◌else◌}
use clue.Log.Logger.{is_debug, Line, Options}

pub record Journal : Type 0 where
  pub output : List (ℕ × Bytes)
  pub pending : List Line
  pub flushed : Bool

-- A write of a line.
abbrev pub written : Options → Line → ℕ × Bytes
written o ln = (o.w, o.format ln)

unfoldable pub journal_flush : Options → Journal → Journal
journal_flush o j =
    if j.flushed
    then j
    else record { output = j.output ++ map (written o) j.pending; pending = []; flushed = true }

unfoldable pub journal_emit : Options → Journal → Line → Bool → Journal
journal_emit o j ln buffer =
    if j.flushed || not buffer
    then record j { output = j.output ++ written o ln ∷ [] }
    else record j { pending = j.pending ++ ln ∷ [] }

-- One call of `log` with the pairs `ps`.
unfoldable pub journal_log : Options → Journal → Line → Bool → Journal
unfolding journal_flush journal_emit
journal_log o j ln buffer =
    if not o.debug && is_debug ln.severity
    then j
    else if o.debug && not j.flushed
    then journal_emit o (journal_flush o j) ln buffer
    else journal_emit o j ln buffer
