-- ===== src/Mock.antt =====
-- mock/mock.go: a mock client with a sequence of mocks and permanent mocks by method name.
-- The lock serialises the methods, so each one is a function from state to state.
pub mod Script
pub mod Refinement
pub mod Histories
mod Tests
use clue.Base.{
  ℕ, suc, ◌+◌, String, Bool, true, false, not, ◌&&◌, ◌||◌, Option, none, some, List, [], ◌∷◌, ◌++◌,
  length, get_elem?, set, lookup, insert, str_eq, ltb, leb, if◌then◌else◌,
}

-- The position of a mock: its method's name, and its place among the mocks of that method.
pub record Index : Type 0 where
  pub name : String
  pub pos : ℕ

-- `F` is the type of the stored functions, `interface{}` in the source.
pub record Mock {ℓ} (F : Type ℓ) : Type ℓ where
  pub funcs : List (String × F)
  pub seqs : List (String × List F)
  pub indices : List Index
  pub pos : ℕ

module _ {ℓ} {F : Type ℓ} where
  pub new : Mock F
  new = record { funcs = []; seqs = []; indices = []; pos = 0 }

  -- m.seqs[name]: a missing key reads as the nil slice.
  abbrev pub seq_or_nil : Option (List F) → List F
  seq_or_nil none = []
  seq_or_nil (some fs) = fs

  abbrev pub seq : Mock F → String → List F
  seq m name = seq_or_nil (lookup name m.seqs)

  -- The branch of `Next` inside the sequence, at the index that stands there.
  next_at : Mock F → String → Option Index → Mock F × Option F
  next_at m name none = (m, none)
  next_at m name (some idx) =
      if not (str_eq idx.name name) || leb (length (seq m name)) idx.pos then (m, none) else (
        record m {
          indices = set m.indices m.pos (record idx { pos = idx.pos + 1 });
          pos = m.pos + 1;
        },
        get_elem? (seq m name) idx.pos,
      )

  pub next : Mock F → String → Mock F × Option F
  unfolding next_at
  next m name =
      if ltb m.pos (length m.indices) && ltb 0 (length (seq m name))
      then next_at m name (get_elem? m.indices m.pos)
      else (m, lookup name m.funcs)

  pub add : Mock F → String → F → Mock F
  add m name f = record m {
    indices = m.indices ++ record { name = name; pos = length (seq m name) } ∷ [];
    seqs = insert name (seq m name ++ f ∷ []) m.seqs;
  }

  -- `Set`
  pub set_func : Mock F → String → F → Mock F
  set_func m name f = record m { funcs = insert name f m.funcs }

  pub has_more : Mock F → Bool
  has_more m = ltb m.pos (length m.indices)
