-- ===== src/Mock/Script.antt =====
-- What mock.go promises, without maps and indices: a script of named mocks, split at the point up
-- to which it has been played, and the permanent mocks.
use clue.Base.{
  String, Bool, Option, none, some, List, [], ◌∷◌, ◌++◌, length, lookup, str_eq, ltb, if◌then◌else◌,
}

pub record Script {ℓ} (F : Type ℓ) : Type ℓ where
  pub done : List (String × F)
  pub todo : List (String × F)
  pub permanent : List (String × F)

module _ {ℓ} {F : Type ℓ} where
  -- The mocks of one method, in order.
  abbrev pub picks : String → List (String × F) → List F
  picks n [] = []
  picks n ((m, f) ∷ l) = if str_eq m n then f ∷ picks n l else picks n l

  abbrev pub start : Script F
  start = record { done = []; todo = []; permanent = [] }

  -- The script goes on if the method called is the one whose turn it is.
  abbrev pub play_head : Script F → String → List (String × F) → Script F × Option F
  play_head s name [] = (s, lookup name s.permanent)
  play_head s name ((m, f) ∷ rest) =
      if str_eq m name
      then (record s { done = s.done ++ (m, f) ∷ []; todo = rest }, some f)
      else (s, none)

  -- A method that the script names nowhere, played or not, has its permanent mock.
  abbrev pub play : Script F → String → Script F × Option F
  play s name =
      if ltb 0 (length (picks name (s.done ++ s.todo)))
      then play_head s name s.todo
      else (s, lookup name s.permanent)

  abbrev pub write : Script F → String → F → Script F
  write s name f = record s { todo = s.todo ++ (name, f) ∷ [] }

  abbrev pub unfinished : Script F → Bool
  unfinished s = ltb 0 (length s.todo)
