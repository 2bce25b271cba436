-- ===== src/Log/Formats/Json.antt =====
-- That `writeJSON` and `FormatJSON` of log/format.go write JSON.
use clue.Base.{
  not, ◌&&◌, ◌==◌, leb, ℕ, ◌≡◌, refl, sym, ap, ◌∙◌, inl, inr, Bool, true, false, List, [], ◌∷◌,
  ◌++◌, All, append_assoc, Bytes, codes, Bool-cases, if◌then◌else◌,
}
use clue.Base.Int.{ℤ, decimal_ℤ}
use clue.Log.Value.{
  IntKind, Float, Value, Values, nil, string, integer, float, bool, strings, integers, floats,
  bools, values, other, end, item, Pair, bool_text, bracketed,
}
use clue.Log.Logger.{
  Severity, severity_debug, severity_info, severity_error, severity_other, severity_text, Line,
}
use clue.Log.Formats.{
  is_named, commas, write_json, write_json_items, quoted, write_members, format_json, timestamp_key,
  severity_key,
}

-- The grammar of JSON without white space, over those of strings and numbers.
mutual
  pub data IsJson (S N : Bytes → Type 0) : Bytes → Type 0 where
    null : IsJson S N (codes "null")
    truth : IsJson S N (codes "true")
    falsity : IsJson S N (codes "false")
    text : {t : Bytes} → S t → IsJson S N t
    number : {t : Bytes} → N t → IsJson S N t
    array : {t : Bytes} → IsItems S N t → IsJson S N (bracketed t)

  pub data IsItems (S N : Bytes → Type 0) : Bytes → Type 0 where
    empty : IsItems S N []
    last : {t : Bytes} → IsJson S N t → IsItems S N t
    more : {t u : Bytes} → IsJson S N t → IsItems S N u → IsItems S N (t ++ b',' ∷ u)

-- The members of an object, each behind a comma, and an object with one member in front of them.
pub data IsMembers (S N : Bytes → Type 0) : Bytes → Type 0 where
  none_left : IsMembers S N []
  member :
      {k t u : Bytes}
      → S k
      → IsJson S N t
      → IsMembers S N u
      → IsMembers S N (b',' ∷ ((k ++ b':' ∷ t) ++ u))

pub data IsObject (S N : Bytes → Type 0) : Bytes → Type 0 where
  object :
      {k t u : Bytes}
      → S k
      → IsJson S N t
      → IsMembers S N u
      → IsObject S N (b'{' ∷ ((k ++ b':' ∷ t) ++ (u ++ b'}' ∷ [])))

-- The texts of the floating-point numbers of a value are numbers, which those of NaN and of the
-- infinities are not.
unfoldable mutual
  pub IsFinite : (Bytes → Type 0) → Value → Type 0
  IsFinite N nil = Unit
  IsFinite N (string s) = Unit
  IsFinite N (integer k n) = Unit
  IsFinite N (float k f) = N f.format_g
  IsFinite N (bool b) = Unit
  IsFinite N (strings l) = Unit
  IsFinite N (integers k l) = Unit
  IsFinite N (floats k l) = All (λ f. N f.format_g) l
  IsFinite N (bools l) = Unit
  IsFinite N (values l) = AreFinite N l
  IsFinite N (other s) = Unit

  pub AreFinite : (Bytes → Type 0) → Values → Type 0
  AreFinite N end = Unit
  AreFinite N (item v l) = IsFinite N v × AreFinite N l

-- No quotation mark, no backslash, no control character.
abbrev pub is_plain : Bytes → Bool
is_plain [] = true
is_plain (c ∷ cs) = not (c == b'"') && (not (c == 92) && (leb 32 c && is_plain cs))

module _ (marshal : Bytes → Bytes) (S N : Bytes → Type 0) (marshals : (s : Bytes) → S (marshal s))
    (integral : (n : ℤ) → N (decimal_ℤ n)) where
  commas-IsItems :
      {A : Type 0} (text_of : A → Bytes) (l : List A)
      → All (λ x. IsJson S N (text_of x)) l
      → IsItems S N (commas text_of l)
  unfolding commas
  commas-IsItems text_of [] h = empty
  commas-IsItems text_of (x ∷ []) h = last h.0
  commas-IsItems text_of (x ∷ (y ∷ l)) h = more h.0 (commas-IsItems text_of (y ∷ l) h.1)

  everywhere : {A : Type 0} (P : A → Type 0) (l : List A) → ((x : A) → P x) → All P l
  everywhere P [] f = tt
  everywhere P (x ∷ l) f = (f x, everywhere P l f)

  numbers : (l : List Float) → All (λ f. N f.format_g) l → All (λ f. IsJson S N f.format_g) l
  numbers [] h = tt
  numbers (f ∷ l) h = (number h.0, numbers l h.1)

  bool_text-IsJson : (b : Bool) → IsJson S N (bool_text b)
  bool_text-IsJson true = truth
  bool_text-IsJson false = falsity

  if_named :
      (k : IntKind) (a b : Bytes)
      → IsJson S N a
      → IsJson S N b
      → IsJson S N (if is_named k then a else b)
  if_named k a b ha hb = elim (Bool-cases (is_named k)) [
    | inl named ↦ rw named ha
    | inr left ↦ rw left hb
  ]

  mutual
    unfolding write_json write_json_items IsFinite

    value-IsJson : (v : Value) → IsFinite N v → IsJson S N (write_json marshal v)
    value-IsJson nil h = null
    value-IsJson (string s) h = text (marshals s)
    value-IsJson (integer k n) h = if_named k _ _ (number (integral n)) (text (marshals _))
    value-IsJson (float k f) h = number h
    value-IsJson (bool b) h = bool_text-IsJson b
    value-IsJson (strings l) h =
        array (commas-IsItems marshal l (everywhere _ l (λ s. text (marshals s))))
    value-IsJson (integers k l) h =
        if_named k _ _
          (array (commas-IsItems decimal_ℤ l (everywhere _ l (λ n. number (integral n)))))
          (text (marshals _))
    value-IsJson (floats k l) h = array (commas-IsItems (λ f. f.format_g) l (numbers l h))
    value-IsJson (bools l) h = array (commas-IsItems bool_text l (everywhere _ l bool_text-IsJson))
    value-IsJson (values l) h = array (values-IsItems l h)
    value-IsJson (other s) h = text (marshals _)

    values-IsItems : (l : Values) → AreFinite N l → IsItems S N (write_json_items marshal l)
    values-IsItems end h = empty
    values-IsItems (item v end) h = last (value-IsJson v h.0)
    values-IsItems (item v (item w l)) h = more (value-IsJson v h.0) (values-IsItems (item w l) h.1)

  -- `writeJSON` writes JSON for every value whose floating-point numbers are finite, if the texts of
  -- json.Marshal for strings are JSON strings and decimal numerals are JSON numbers.
  pub write_json-IsJson : (v : Value) → IsFinite N v → IsJson S N (write_json marshal v)
  write_json-IsJson v h = value-IsJson v h

  severity_text-plain : (sev : Severity) → is_plain (severity_text sev) ≡ true
  unfolding severity_text
  severity_text-plain severity_debug = refl
  severity_text-plain severity_info = refl
  severity_text-plain severity_error = refl
  severity_text-plain (severity_other n) = refl

  module _ (plain : (t : Bytes) → is_plain t ≡ true → S (quoted t)) where
    write_members-IsMembers :
        (ps : List Pair)
        → All (λ p. (is_plain p.key ≡ true) × IsFinite N p.val) ps
        → IsMembers S N (write_members marshal ps)
    write_members-IsMembers [] h = none_left
    write_members-IsMembers (p ∷ ps) h =
        member (plain p.key h.0.0) (value-IsJson p.val h.0.1) (write_members-IsMembers ps h.1)

    -- `FormatJSON` writes one JSON object and a line feed, if the keys of the entry and the text of
    -- its time have nothing to escape, its floating-point numbers are finite, the texts of
    -- json.Marshal are JSON strings, as quoted texts with nothing to escape are, and decimal numerals
    -- are JSON numbers.
    pub format_json-IsObject :
        (layout : ℕ → Bytes) (e : Line)
        → is_plain (layout e.time) ≡ true
        → All (λ p. (is_plain p.key ≡ true) × IsFinite N p.val) e.key_vals
        → (t : Bytes) × (IsObject S N t × (format_json marshal layout e ≡ t ++ codes "\n"))
    unfolding format_json
    format_json-IsObject layout e time keys =
        let first = quoted timestamp_key ++ b':' ∷ quoted (layout e.time) in
        let second = quoted severity_key ++ b':' ∷ quoted (severity_text e.severity) in
        let rest = write_members marshal e.key_vals in
        let u = b',' ∷ (second ++ rest) in
        (
          b'{' ∷ (first ++ (u ++ b'}' ∷ [])),
          (
            object (plain timestamp_key refl) (text (plain (layout e.time) time)) (
                member (plain severity_key refl)
                  (text (plain (severity_text e.severity) (severity_text-plain e.severity)))
                  (write_members-IsMembers e.key_vals keys)),
            ap (λ l. b'{' ∷ l)
                (ap (λ l. first ++ b',' ∷ l)
                    (sym (append_assoc second rest (codes "}\n"))
                      ∙ sym (append_assoc (second ++ rest) (codes "}") (codes "\n")))
                  ∙ sym (append_assoc first (u ++ b'}' ∷ []) (codes "\n"))),
          ),
        )
