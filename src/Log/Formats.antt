-- ===== src/Log/Formats.antt =====
-- The formats of entries (log/format.go). json.Marshal of a text and the layout of a time are
-- parameters.
pub mod Json
use clue.Base.{ℕ, map, Bool, true, false, List, [], ◌∷◌, ◌++◌, Bytes, codes, if◌then◌else◌}
use clue.Base.Int.{ℤ, decimal_ℤ}
use clue.Log.Value.{
  IntKind, int, int8, int16, int32, int64, uint, uint8, uint16, uint32, uint64, FloatKind, Float,
  Value, Values, nil, string, integer, float, bool, strings, integers, floats, bools, values, other,
  end, item, Pair, bool_text, bracketed, verb_v,
}
use clue.Log.Logger.{Severity, severity_text, severity_code, severity_color, Line}

-- `TimestampKey`, `SeverityKey`
abbrev pub timestamp_key : Bytes
timestamp_key = codes "time"

abbrev pub severity_key : Bytes
severity_key = codes "level"

-- The integer types that `writeJSON` names; it leaves the others to its default.
abbrev pub is_named : IntKind → Bool
is_named int = true
is_named int8 = false
is_named int16 = false
is_named int32 = true
is_named int64 = true
is_named uint = true
is_named uint8 = false
is_named uint16 = false
is_named uint32 = true
is_named uint64 = true

-- The texts of a slice with commas between them.
module _ {ℓ} {A : Type ℓ} (text : A → Bytes) where
  unfoldable pub commas : List A → Bytes
  commas [] = []
  commas (x ∷ []) = text x
  commas (x ∷ (y ∷ l)) = text x ++ b',' ∷ commas (y ∷ l)

abbrev pub quoted : Bytes → Bytes
quoted text = b'"' ∷ (text ++ b'"' ∷ [])

module _ (marshal : Bytes → Bytes) where
  -- `writeJSON`
  unfoldable mutual
    unfolding commas

    pub write_json : Value → Bytes
    write_json nil = codes "null"
    write_json (string s) = marshal s
    write_json (integer k n) = if is_named k then decimal_ℤ n else marshal (verb_v (integer k n))
    write_json (float k f) = f.format_g
    write_json (bool b) = bool_text b
    write_json (strings l) = bracketed (commas marshal l)
    write_json (integers k l) =
        if is_named k then bracketed (commas decimal_ℤ l) else marshal (verb_v (integers k l))
    write_json (floats k l) = bracketed (commas (λ f. f.format_g) l)
    write_json (bools l) = bracketed (commas bool_text l)
    write_json (values l) = bracketed (write_json_items l)
    write_json (other s) = marshal (verb_v (other s))

    pub write_json_items : Values → Bytes
    write_json_items end = []
    write_json_items (item v end) = write_json v
    write_json_items (item v (item w l)) = write_json v ++ b',' ∷ write_json_items (item w l)

  -- "key":value; the key is not escaped.
  abbrev pub write_member : Pair → Bytes
  write_member p = quoted p.key ++ b':' ∷ write_json p.val

  abbrev pub write_members : List Pair → Bytes
  write_members [] = []
  write_members (p ∷ ps) = b',' ∷ (write_member p ++ write_members ps)

  -- `FormatJSON`
  unfoldable pub format_json : (ℕ → Bytes) → Line → Bytes
  format_json layout e =
      b'{'
      ∷ ((quoted timestamp_key ++ b':' ∷ quoted (layout e.time))
          ++ (b','
              ∷ ((quoted severity_key ++ b':' ∷ quoted (severity_text e.severity))
                  ++ (write_members e.key_vals ++ codes "}\n"))))

  -- The slices that `FormatText` hands over as text.
  abbrev pub text_value : Value → Value
  text_value nil = nil
  text_value (string s) = string s
  text_value (integer k n) = integer k n
  text_value (float k f) = float k f
  text_value (bool b) = bool b
  text_value (strings l) = string (write_json (strings l))
  text_value (integers k l) =
      if is_named k then string (write_json (integers k l)) else integers k l
  text_value (floats k l) = string (write_json (floats k l))
  text_value (bools l) = string (write_json (bools l))
  text_value (values l) = string (write_json (values l))
  text_value (other s) = other s

  abbrev pub text_pair : Pair → Pair
  text_pair p = record p { val = text_value p.val }

  -- `FormatText`; `encode` is what a logfmt encoder writes for these calls of EncodeKeyval.
  pub format_text : (ℕ → Bytes) → (List Pair → Bytes) → Line → Bytes
  format_text layout encode e =
      encode (
        record { key = timestamp_key; val = string (layout e.time) }
        ∷ record { key = severity_key; val = other (severity_text e.severity) }
        ∷ map text_pair e.key_vals)
      ++ codes "\n"

-- `reset`
abbrev pub reset : Bytes
reset = 27 ∷ codes "[0m"

abbrev pub terminal_pair : Severity → Pair → Bytes
terminal_pair sev p = severity_color sev ++ (p.key ++ (reset ++ (b'=' ∷ verb_v p.val)))

abbrev pub terminal_pairs : Severity → List Pair → Bytes
terminal_pairs sev [] = []
terminal_pairs sev (p ∷ ps) = b' ' ∷ (terminal_pair sev p ++ terminal_pairs sev ps)

-- `FormatTerminal`; `since` is the time as seconds since the start under %04d.
pub format_terminal : (ℕ → Bytes) → Line → Bytes
format_terminal since e =
    severity_color e.severity
    ++ (severity_code e.severity
        ++ (reset
            ++ (bracketed (since e.time) ++ (terminal_pairs e.severity e.key_vals ++ codes "\n"))))
