-- ===== src/Log/Memory.antt =====
-- Slices of key/value pairs (`kvList` of log/fields.go) over the arrays that they share. Two slices
-- of one array see one another's writes, and `append` writes into the spare capacity of its
-- argument, so the arrays are kept apart from the slices.
pub mod Laws
use clue.Base.{
  ℕ, suc, ◌+◌, ◌-◌, ◌≤◌, ◌≡◌, List, [], ◌∷◌, ◌++◌, length, take, drop, set, replicate, update, ltb,
  leb, if◌then◌else◌,
}
use clue.Log.Value.{Pair, nil, Fielder, log_fields}

-- What the language leaves to the runtime: the capacity of the array that `append` makes when it
-- is given the old capacity and the length needed. It is "sufficiently large".
pub record Runtime : Type 0 where
  pub grow : ℕ → ℕ → ℕ
  pub sufficiently_large : (cap need : ℕ) → need ≤ grow cap need

-- Arrays by address; an array's length is its slices' capacity. Addresses from `next` on are free,
-- and address 0 is that of the nil slice, with no cells.
pub record Memory : Type 0 where
  pub array : ℕ → List Pair
  pub next : ℕ

-- Every slice of the package starts at the start of its array.
pub record Slice : Type 0 where
  pub addr : ℕ
  pub len : ℕ
  pub cap : ℕ

abbrev pub nil_slice : Slice
nil_slice = record { addr = 0; len = 0; cap = 0 }

abbrev pub empty_memory : Memory
empty_memory = record { array = λ a. []; next = 1 }

-- The elements of a slice.
abbrev pub view : Memory → Slice → List Pair
view mem s = take s.len (mem.array s.addr)

abbrev pub zero_pair : Pair
zero_pair = record { key = []; val = nil }

-- Elements copied into an array from a place on.
abbrev pub overwrite : List Pair → ℕ → List Pair → List Pair
overwrite cells at new = take at cells ++ (new ++ drop (at + length new) cells)

-- s[i] = p
unfoldable pub store : Memory → Slice → ℕ → Pair → Memory
store mem s i p = record mem { array = update mem.array s.addr (set (mem.array s.addr) i p) }

module _ ⦃rt : Runtime⦄ where
  unfoldable pub append_in_place : Memory → Slice → List Pair → Memory × Slice
  append_in_place mem s new = (
    record mem { array = update mem.array s.addr (overwrite (mem.array s.addr) s.len new) },
    record s { len = s.len + length new },
  )

  append_moved : Memory → Slice → List Pair → Memory × Slice
  append_moved mem s new =
      let need = s.len + length new in
      let cap = rt.grow s.cap need in
      (
        record mem {
          array =
              update mem.array mem.next (view mem s ++ (new ++ replicate (cap - need) zero_pair));
          next = suc mem.next;
        },
        record { addr = mem.next; len = need; cap = cap },
      )

  -- append(s, new...)
  unfoldable pub append : Memory → Slice → List Pair → Memory × Slice
  unfolding append_in_place append_moved
  append mem s new =
      if leb (s.len + length new) s.cap then append_in_place mem s new else append_moved mem s new

  -- `merge`: the fields of each argument are appended in turn.
  unfoldable pub merge : Memory → Slice → List Fielder → Memory × Slice
  merge mem s [] = (mem, s)
  merge mem s (f ∷ fs) = let (mem', s') = append mem s (log_fields f) in merge mem' s' fs
