-- ===== src/Log/Value.antt =====
-- The values that a log entry holds (`interface{}` of log/fields.go), key/value pairs, and the text
-- that fmt's verb %v gives a value.
use clue.Base.{◌≡◌, refl, Bool, true, false, List, [], ◌∷◌, ◌++◌, Bytes, codes}
use clue.Base.Int.{ℤ, pos, decimal_ℤ}

pub data IntKind : Type 0 where
  int int8 int16 int32 int64 uint uint8 uint16 uint32 uint64 : IntKind

pub data FloatKind : Type 0 where
  float32 float64 : FloatKind

-- A floating-point number by the two texts that the program takes of it: that of %v, and that of
-- strconv.FormatFloat with the format 'g' and the shortest precision.
pub record Float : Type 0 where
  pub verb_v : Bytes
  pub format_g : Bytes

-- The dynamic types that the type switches of log.go and format.go tell apart; `other` is a value
-- of any other type, by its %v text.
mutual
  pub data Value : Type 0 where
    nil : Value
    string : Bytes → Value
    integer : IntKind → ℤ → Value
    float : FloatKind → Float → Value
    bool : Bool → Value
    strings : List Bytes → Value
    integers : IntKind → List ℤ → Value
    floats : FloatKind → List Float → Value
    bools : List Bool → Value
    values : Values → Value
    other : Bytes → Value

  -- []interface{}
  pub data Values : Type 0 where
    end : Values
    item : Value → Values → Values

-- `KV`
pub record Pair : Type 0 where
  pub key : Bytes
  pub val : Value

-- The things that can be logged: `KV`, `Fields` in the order in which the map is iterated,
-- `kvList`, and what `LogFields` of another type returns.
pub data Fielder : Type 0 where
  kv : Pair → Fielder
  fields : List Pair → Fielder
  kv_list : List Pair → Fielder
  custom : List Pair → Fielder

-- `LogFields`
abbrev pub log_fields : Fielder → List Pair
log_fields (kv p) = p ∷ []
log_fields (fields ps) = ps
log_fields (kv_list ps) = ps
log_fields (custom ps) = ps

abbrev pub bool_text : Bool → Bytes
bool_text true = codes "true"
bool_text false = codes "false"

-- A slice under %v: its elements between brackets, with spaces.
module _ {ℓ} {A : Type ℓ} (text : A → Bytes) where
  pub spaced : List A → Bytes
  spaced [] = []
  spaced (x ∷ []) = text x
  spaced (x ∷ (y ∷ l)) = text x ++ b' ' ∷ spaced (y ∷ l)

abbrev pub bracketed : Bytes → Bytes
bracketed s = b'[' ∷ (s ++ b']' ∷ [])

unfoldable mutual
  unfolding spaced decimal_ℤ

  pub verb_v : Value → Bytes
  verb_v nil = codes "<nil>"
  verb_v (string s) = s
  verb_v (integer k n) = decimal_ℤ n
  verb_v (float k f) = f.verb_v
  verb_v (bool b) = bool_text b
  verb_v (strings l) = bracketed (spaced (λ s. s) l)
  verb_v (integers k l) = bracketed (spaced decimal_ℤ l)
  verb_v (floats k l) = bracketed (spaced (λ f. f.verb_v) l)
  verb_v (bools l) = bracketed (spaced bool_text l)
  verb_v (values l) = bracketed (verb_v_items l)
  verb_v (other s) = s

  pub verb_v_items : Values → Bytes
  verb_v_items end = []
  verb_v_items (item v end) = verb_v v
  verb_v_items (item v (item w l)) = verb_v v ++ b' ' ∷ verb_v_items (item w l)

verb_v_test :
    verb_v (values (item (integer int (pos 12)) (item (strings (codes "a" ∷ codes "b" ∷ [])) end)))
    ≡ codes "[12 [a b]]"
unfolding verb_v
verb_v_test = refl
