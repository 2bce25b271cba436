-- ===== src/Log/Truncate/Laws.antt =====
-- What `truncate` leaves in the slice of its caller.
use clue.Base.{
  ℕ, zero, suc, ◌+◌, ◌-◌, ◌≤◌, ◌<◌, ◌≡◌, ◌≢◌, refl, sym, ap, ap₂, append-nil, subst, ◌∙◌, inl, inr,
  List, [], ◌∷◌, ◌++◌, map, length, get_elem?, take, drop, update_self, update_ne, ltb,
  if◌then◌else◌, arith, Bool-cases, Option-cases, ℕ_discrete, length-take, take-append_ge,
  drop-take, take-take, length-map, ltb→lt,
}
use native.Mathlib.Numerals.{add-one}
use clue.Log.Value.{Pair}
use clue.Log.Memory.{Runtime, Memory, Slice, view, store, append_in_place, overwrite}
use clue.Log.Memory.Laws.{
  IsSlice, length-view, append_fits, take-known, drop-known, length-overwrite,
}
use clue.Log.Truncate.{shortened, truncate_at, truncate_from, log_pair, truncate}
use clue.Log.Truncate.Cells.{
  shorten, shorten_at, shorten_from, shorten_from-map, length-shorten_from, shorten_at-none,
  shorten_at_keep, shorten_at_cut,
}

-- A round writes what `shorten_at` says, into the slice's array alone.
truncate_at-array :
    (mem : Memory) (s : Slice) (maxsize i : ℕ)
    → (truncate_at mem s maxsize i).array s.addr ≡ shorten_at maxsize (mem.array s.addr) i
unfolding truncate_at store
truncate_at-array mem s maxsize i = elim (Option-cases (get_elem? (mem.array s.addr) i)) [
  | inl e ↦ rw e (sym (shorten_at-none maxsize (mem.array s.addr) i e))
  | inr (p, e) ↦ elim (Option-cases (shortened maxsize p.val)) [
    | inl n ↦ rw (e, n) (sym (shorten_at_keep maxsize (mem.array s.addr) i p e n))
    | inr (v, c) ↦
        rw (e, c)
          (update_self mem.array s.addr _
            ∙ sym (shorten_at_cut maxsize (mem.array s.addr) i p v e c))
  ]
]

truncate_at-other :
    (mem : Memory) (s : Slice) (maxsize i a : ℕ)
    → s.addr ≢ a
    → (truncate_at mem s maxsize i).array a ≡ mem.array a
unfolding truncate_at store
truncate_at-other mem s maxsize i a ne = elim (Option-cases (get_elem? (mem.array s.addr) i)) [
  | inl e ↦ rw e
  | inr (p, e) ↦ elim (Option-cases (shortened maxsize p.val)) [
    | inl n ↦ rw (e, n)
    | inr (v, c) ↦ rw (e, c) (update_ne mem.array s.addr a _ ne)
  ]
]

truncate_at-next :
    (mem : Memory) (s : Slice) (maxsize i : ℕ) → (truncate_at mem s maxsize i).next ≡ mem.next
unfolding truncate_at store
truncate_at-next mem s maxsize i = elim (Option-cases (get_elem? (mem.array s.addr) i)) [
  | inl e ↦ rw e
  | inr (p, e) ↦ elim (Option-cases (shortened maxsize p.val)) [
    | inl n ↦ rw (e, n)
    | inr (v, c) ↦ rw (e, c)
  ]
]

truncate_from-array :
    (mem : Memory) (s : Slice) (maxsize i k : ℕ)
    → (truncate_from mem s maxsize i k).array s.addr ≡ shorten_from maxsize (mem.array s.addr) i k
unfolding truncate_from shorten_from
truncate_from-array mem s maxsize i zero = refl
truncate_from-array mem s maxsize i (suc k) =
    truncate_from-array (truncate_at mem s maxsize i) s maxsize (suc i) k
    ∙ ap (λ cells. shorten_from maxsize cells (suc i) k) (truncate_at-array mem s maxsize i)

truncate_from-other :
    (mem : Memory) (s : Slice) (maxsize i k a : ℕ)
    → s.addr ≢ a
    → (truncate_from mem s maxsize i k).array a ≡ mem.array a
unfolding truncate_from
truncate_from-other mem s maxsize i zero a ne = refl
truncate_from-other mem s maxsize i (suc k) a ne =
    truncate_from-other (truncate_at mem s maxsize i) s maxsize (suc i) k a ne
    ∙ truncate_at-other mem s maxsize i a ne

truncate_from-next :
    (mem : Memory) (s : Slice) (maxsize i k : ℕ) → (truncate_from mem s maxsize i k).next ≡ mem.next
unfolding truncate_from
truncate_from-next mem s maxsize i zero = refl
truncate_from-next mem s maxsize i (suc k) =
    truncate_from-next (truncate_at mem s maxsize i) s maxsize (suc i) k
    ∙ truncate_at-next mem s maxsize i

-- What the caller's slice holds behind `truncate`: if there are no more than `maxsize` pairs, each
-- of them with its value cut. Else the pair at `maxsize` is lost to the one that says so, the pairs
-- up to it have their values cut, and those behind it stay, whole.
unfoldable pub truncated : ℕ → List Pair → List Pair
truncated maxsize ps =
    if ltb maxsize (length ps)
    then map (shorten maxsize) (take maxsize ps ++ log_pair ∷ []) ++ drop (suc maxsize) ps
    else map (shorten maxsize) ps

-- The cells of the array, and what the slice of length `n` shows of them.
take-shortened :
    (maxsize n : ℕ) (cells : List Pair) (k : ℕ)
    → k ≤ n
    → n ≤ length cells
    → take n (map (shorten maxsize) (take k cells) ++ drop k cells)
      ≡ map (shorten maxsize) (take k cells) ++ take (n - k) (drop k cells)
take-shortened maxsize n cells k h fits =
    take-append_ge n (map (shorten maxsize) (take k cells)) (drop k cells) (omega (arith, long))
    ∙ ap (λ j. map (shorten maxsize) (take k cells) ++ take (n - j) (drop k cells)) long
  where
    long : length (map (shorten maxsize) (take k cells)) ≡ k
    long = omega (arith, length-map (take k cells) (shorten maxsize), length-take k cells)

sub_self : (n : ℕ) → n - n ≡ 0
sub_self n = omega arith

module _ ⦃rt : Runtime⦄ where
  truncate_fits :
      (mem : Memory) (s : Slice) (maxsize : ℕ)
      → IsSlice mem s
      → take s.len ((truncate_from mem s maxsize 0 s.len).array s.addr)
        ≡ map (shorten maxsize) (view mem s)
  truncate_fits mem s maxsize h =
      ap (take s.len) (
        truncate_from-array mem s maxsize 0 s.len
        ∙ shorten_from-map maxsize (mem.array s.addr) s.len)
      ∙ take-shortened maxsize s.len (mem.array s.addr) s.len (omega arith)
          (omega (arith, h.whole, h.within))
      ∙ ap (λ n. map (shorten maxsize) (view mem s) ++ take n (drop s.len (mem.array s.addr)))
          (sub_self s.len)
      ∙ append-nil _

  truncate_more :
      (mem : Memory) (s : Slice) (maxsize : ℕ)
      → IsSlice mem s
      → maxsize < s.len
      → let (mem', s') = append_in_place mem (record s { len = maxsize }) (log_pair ∷ []) in
        take s.len ((truncate_from mem' s' maxsize 0 s'.len).array s.addr)
        ≡ map (shorten maxsize) (take maxsize (view mem s) ++ log_pair ∷ [])
          ++ drop (suc maxsize) (view mem s)
  unfolding append_in_place
  truncate_more mem s maxsize h more =
      ap (take s.len) (
        truncate_from-array _ (record s { len = maxsize + 1 }) maxsize 0 (maxsize + 1)
        ∙ ap (λ c. shorten_from maxsize c 0 (maxsize + 1)) (update_self mem.array s.addr cells)
        ∙ shorten_from-map maxsize cells (maxsize + 1))
      ∙ take-shortened maxsize s.len cells (maxsize + 1) (omega arith) (omega (arith, whole))
      ∙ ap₂ (λ xs ys. map (shorten maxsize) xs ++ ys) first_cells last_cells
    where
      old : List Pair
      old = mem.array s.addr

      cells : List Pair
      cells = overwrite old maxsize (log_pair ∷ [])

      whole : length cells ≡ s.cap
      whole =
          length-overwrite old maxsize (log_pair ∷ []) (omega (arith, h.whole, h.within)) ∙ h.whole

      before : length (take maxsize old) + 1 ≡ maxsize + 1
      before = omega (arith, length-take maxsize old, h.whole, h.within)

      first_cells : take (maxsize + 1) cells ≡ take maxsize (view mem s) ++ log_pair ∷ []
      first_cells =
          take-known (take maxsize old) (log_pair ∷ []) _ (maxsize + 1) before
          ∙ ap (λ l. l ++ log_pair ∷ []) (sym (take-take maxsize s.len old (omega arith)))

      last_cells :
          take (s.len - (maxsize + 1)) (drop (maxsize + 1) cells) ≡ drop (suc maxsize) (view mem s)
      last_cells =
          ap (take (s.len - (maxsize + 1))) (
            drop-known (take maxsize old) (log_pair ∷ []) (drop (maxsize + 1) old) (maxsize + 1)
              before)
          ∙ sym (drop-take (maxsize + 1) s.len old)
          ∙ ap (λ n. drop n (view mem s)) (add-one maxsize)

  -- The slice of a caller shows, behind `truncate`, as many pairs as before: if there are more than
  -- `maxsize`, the first `maxsize` of them and a "log" pair with their values cut, and then the rest
  -- unchanged; or else all of them with their values cut.
  pub view-truncate :
      (mem : Memory) (s : Slice) (maxsize : ℕ)
      → IsSlice mem s
      → view (truncate mem s maxsize) s ≡ truncated maxsize (view mem s)
  unfolding truncate truncated
  view-truncate mem s maxsize h = elim (Bool-cases (ltb maxsize s.len)) [
    | inl more ↦
        rw
          (
            length-view h,
            more,
            append_fits mem (record s { len = maxsize }) (log_pair ∷ [])
                (ground (arith, h.within, more)),
          )
          (truncate_more mem s maxsize h (ltb→lt _ _ more))
    | inr fits ↦ rw (length-view h, fits) (truncate_fits mem s maxsize h)
  ]

  length-truncate_self :
      (mem : Memory) (s : Slice) (maxsize : ℕ)
      → IsSlice mem s
      → length ((truncate mem s maxsize).array s.addr) ≡ length (mem.array s.addr)
  unfolding truncate append_in_place
  length-truncate_self mem s maxsize h = elim (Bool-cases (ltb maxsize s.len)) [
    | inl more ↦
        rw
          (
            more,
            append_fits mem (record s { len = maxsize }) (log_pair ∷ [])
                (ground (arith, h.within, more)),
          )
          (ap length
              (truncate_from-array _ (record s { len = maxsize + 1 }) maxsize 0 (maxsize + 1))
            ∙ length-shorten_from maxsize _ 0 (maxsize + 1)
            ∙ ap length (update_self mem.array s.addr _)
            ∙ length-overwrite (mem.array s.addr) maxsize (log_pair ∷ [])
                (ground (arith, h.whole, h.within, more)))
    | inr fits ↦ rw fits (
        ap length (truncate_from-array mem s maxsize 0 s.len)
        ∙ length-shorten_from maxsize _ 0 s.len)
  ]

  -- Other arrays, and the sizes of all, stay as they are.
  pub truncate-other :
      (mem : Memory) (s : Slice) (maxsize a : ℕ)
      → IsSlice mem s
      → s.addr ≢ a
      → (truncate mem s maxsize).array a ≡ mem.array a
  unfolding truncate append_in_place
  truncate-other mem s maxsize a h ne = elim (Bool-cases (ltb maxsize s.len)) [
    | inl more ↦
        rw
          (
            more,
            append_fits mem (record s { len = maxsize }) (log_pair ∷ [])
                (ground (arith, h.within, more)),
          )
          (truncate_from-other _ (record s { len = maxsize + 1 }) maxsize 0 (maxsize + 1) a ne
            ∙ update_ne mem.array s.addr a _ ne)
    | inr fits ↦ rw fits (truncate_from-other mem s maxsize 0 s.len a ne)
  ]

  pub truncate-next :
      (mem : Memory) (s : Slice) (maxsize : ℕ)
      → IsSlice mem s
      → (truncate mem s maxsize).next ≡ mem.next
  unfolding truncate append_in_place
  truncate-next mem s maxsize h = elim (Bool-cases (ltb maxsize s.len)) [
    | inl more ↦
        rw
          (
            more,
            append_fits mem (record s { len = maxsize }) (log_pair ∷ [])
                (ground (arith, h.within, more)),
          )
          (truncate_from-next _ (record s { len = maxsize + 1 }) maxsize 0 (maxsize + 1))
    | inr fits ↦ rw fits (truncate_from-next mem s maxsize 0 s.len)
  ]

  pub length-truncate :
      (mem : Memory) (s : Slice) (maxsize a : ℕ)
      → IsSlice mem s
      → length ((truncate mem s maxsize).array a) ≡ length (mem.array a)
  length-truncate mem s maxsize a h = elim (ℕ_discrete s.addr a) [
    | no ne ↦ ap length (truncate-other mem s maxsize a h ne)
    | yes e ↦
        subst (λ b. length ((truncate mem s maxsize).array b) ≡ length (mem.array b)) e
          (length-truncate_self mem s maxsize h)
  ]
