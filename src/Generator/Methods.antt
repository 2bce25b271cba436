-- ===== src/Generator/Methods.antt =====
-- The texts of methods and interfaces in a generated file (mock/cmd/cmg/pkg/generate/method.go and
-- interface.go). A type is a handle, with which the maps of names and of zero values are read.
pub mod Vars
use clue.Base.{
  ℕ, zero, suc, ◌+◌, ◌-◌, ◌==◌, Bool, true, false, not, ◌&&◌, ◌||◌, String, Option, none, some,
  List, [], ◌∷◌, ◌++◌, Bytes, codes, drop, length, map, str_eq, if◌then◌else◌,
}
use clue.Base.Int.{decimal}

-- A parameter or a result of a method, or a type parameter with its constraint.
pub record Parameter : Type 0 where
  pub name : String
  pub type : ℕ

-- parse.Method
pub record Method : Type 0 where
  pub name : String
  pub parameters : List Parameter
  pub results : List Parameter
  pub variadic : Bool

-- strings.Join(texts, ", ")
abbrev pub joined : List Bytes → Bytes
joined [] = []
joined (t ∷ []) = t
joined (t ∷ (u ∷ texts)) = t ++ (codes ", " ++ joined (u ∷ texts))

-- Whether there is a next parameter and it has the same type.
abbrev pub next_alike : Parameter → List Parameter → Bool
next_alike p [] = false
next_alike p (q ∷ ps) = p.type == q.type

-- Whether this is the last of some parameters: i == last.
abbrev pub is_last : List Parameter → Bool
is_last [] = true
is_last (p ∷ ps) = false

-- The name of the parameter at an index; p%v if it has none.
abbrev pub parameter_name : ℕ → Parameter → Bytes
parameter_name i p = if str_eq p.name "" then codes "p" ++ decimal i else codes p.name

module _ (type_names : ℕ → Bytes) where
  -- The type of a parameter in front of others; `[2:]` drops the brackets of the slice.
  abbrev pub parameter_type : Bool → Parameter → List Parameter → Bytes
  parameter_type variadic p ps =
      if variadic && is_last ps
      then codes " ..." ++ drop 2 (type_names p.type)
      else if next_alike p ps
      then []
      else codes " " ++ type_names p.type

  abbrev pub parameter_texts : Bool → ℕ → List Parameter → List Bytes
  parameter_texts variadic i [] = []
  parameter_texts variadic i (p ∷ ps) =
      (parameter_name i p ++ parameter_type variadic p ps) ∷ parameter_texts variadic (suc i) ps

  -- `Parameters`
  abbrev pub parameters_text : Method → Bytes
  parameters_text m = joined (parameter_texts m.variadic 0 m.parameters)

  -- The results, once it is known whether one of before has a name.
  abbrev pub result_texts : Bool → List Parameter → List Bytes
  result_texts named [] = []
  result_texts named (r ∷ rs) =
      let named' = named || not (str_eq r.name "") in
      (if named'
        then codes r.name ++ (if next_alike r rs then [] else codes " " ++ type_names r.type)
        else codes r.name ++ type_names r.type)
      ∷ result_texts named' rs

  abbrev pub any_named : List Parameter → Bool
  any_named [] = false
  any_named (r ∷ rs) = not (str_eq r.name "") || any_named rs

  abbrev pub in_parentheses : Bool → List Bytes → Bytes
  in_parentheses named [] = []
  in_parentheses false (t ∷ []) = t
  in_parentheses true (t ∷ []) = codes "(" ++ (t ++ codes ")")
  in_parentheses named (t ∷ (u ∷ texts)) = codes "(" ++ (joined (t ∷ (u ∷ texts)) ++ codes ")")

  -- `Results`
  abbrev pub results_text : Method → Bytes
  results_text m = in_parentheses (any_named m.results) (result_texts false m.results)

  -- `TypeParameters` of an interface
  abbrev pub type_parameter_texts : List Parameter → List Bytes
  type_parameter_texts [] = []
  type_parameter_texts (p ∷ ps) =
      (codes p.name ++ (if next_alike p ps then [] else codes " " ++ type_names p.type))
      ∷ type_parameter_texts ps

abbrev pub in_brackets : List Bytes → Bytes
in_brackets [] = []
in_brackets (t ∷ texts) = codes "[" ++ (joined (t ∷ texts) ++ codes "]")

abbrev pub parameter_vars_from : Bool → ℕ → List Parameter → List Bytes
parameter_vars_from variadic i [] = []
parameter_vars_from variadic i (p ∷ ps) =
    (parameter_name i p ++ (if variadic && is_last ps then codes "..." else []))
    ∷ parameter_vars_from variadic (suc i) ps

-- `ParameterVars`
abbrev pub parameter_vars : Method → Bytes
parameter_vars m = joined (parameter_vars_from m.variadic 0 m.parameters)

-- `ZeroResults`
abbrev pub zero_results : (ℕ → Bytes) → Method → Bytes
zero_results type_zeros m = joined (map (λ r. type_zeros r.type) m.results)

-- `TypeParameters` and `TypeParameterVars` of an interface
abbrev pub type_parameters : (ℕ → Bytes) → List Parameter → Bytes
type_parameters type_names ps = in_brackets (type_parameter_texts type_names ps)

abbrev pub type_parameter_vars : List Parameter → Bytes
type_parameter_vars ps = in_brackets (map (λ p. codes p.name) ps)

-- `vars` as the names that are in it.
abbrev pub is_used : String → List String → Bool
is_used v [] = false
is_used v (name ∷ names) = str_eq name v || is_used v names

-- The loop of `uniqueVar`, on fuel: its condition i <= math.MaxInt always holds.
unfoldable pub find_var : (String → ℕ → String) → ℕ → String → List String → ℕ → Option String
find_var numbered zero prefix vars i = none
find_var numbered (suc fuel) prefix vars i =
    let v = numbered prefix i in
    let rest = find_var numbered fuel prefix vars (suc i) in if is_used v vars then rest else some v

-- `uniqueVar`, given fmt.Sprintf("%v%v").
unfoldable pub unique_var : (String → ℕ → String) → ℕ → String → List String → Option String
unique_var numbered fuel prefix vars =
    if is_used prefix vars then find_var numbered fuel prefix vars 1 else some prefix

-- The variables of a method for the mock and for its function.
abbrev pub interface_var : (String → ℕ → String) → ℕ → Method → Option String
interface_var numbered fuel m = unique_var numbered fuel "m" (map (λ p. p.name) m.parameters)

abbrev pub func_var : (String → ℕ → String) → ℕ → Method → Option String
func_var numbered fuel m = unique_var numbered fuel "f" (map (λ p. p.name) m.parameters)
