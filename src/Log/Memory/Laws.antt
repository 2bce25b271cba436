-- ===== src/Log/Memory/Laws.antt =====
-- What `append` and `merge` leave in a slice, and which slices they cannot change.
use clue.Base.{
  ℕ, ◌+◌, ◌-◌, ◌≤◌, ◌<◌, ◌≡◌, ◌≢◌, refl, sym, ap, subst, ◌∙◌, ◌⊎◌, inl, inr, List, [], ◌∷◌, ◌++◌,
  append-nil, append_assoc, length, take, drop, replicate, update, update_self, update_ne,
  ℕ_discrete, leb, le→leb, Bool-cases, arith, length-append, length-take, length-drop,
  length-replicate, take-length-append, drop-length-append, take-append_le, take-take,
}
use clue.Log.Value.{Pair, Fielder, log_fields}
use clue.Log.Memory.{
  Runtime, Memory, Slice, nil_slice, zero_pair, view, overwrite, append, append_in_place,
  append_moved, merge,
}

-- A slice that lies in allocated memory, within an array of its capacity; or a slice with no array.
pub record IsSlice (mem : Memory) (s : Slice) : Type 0 where
  pub within : s.len ≤ s.cap
  pub whole : length (mem.array s.addr) ≡ s.cap
  pub allocated : s.addr < mem.next

pub length-view : {mem : Memory} {s : Slice} → IsSlice mem s → length (view mem s) ≡ s.len
length-view {mem} {s} h = omega (arith, length-take s.len (mem.array s.addr), h.whole, h.within)

pub nil_slice-IsSlice : (mem : Memory) → 0 < mem.next → mem.array 0 ≡ [] → IsSlice mem nil_slice
nil_slice-IsSlice mem h e = record { within = omega arith; whole = ap length e; allocated = h }

pub length-overwrite :
    (cells : List Pair) (at : ℕ) (new : List Pair)
    → at + length new ≤ length cells
    → length (overwrite cells at new) ≡ length cells
length-overwrite cells at new h = omega (
  arith,
  length-append (take at cells) (new ++ drop (at + length new) cells),
  length-append new (drop (at + length new) cells),
  length-take at cells,
  length-drop (at + length new) cells,
)

-- The first cells of a list that begins with as many known ones.
pub take-known :
    (xs ys rest : List Pair) (n : ℕ)
    → length xs + length ys ≡ n
    → take n (xs ++ (ys ++ rest)) ≡ xs ++ ys
take-known xs ys rest n e =
    rw (← e, ← length-append xs ys, ← append_assoc xs ys rest) (take-length-append (xs ++ ys) rest)

pub drop-known :
    (xs ys rest : List Pair) (n : ℕ)
    → length xs + length ys ≡ n
    → drop n (xs ++ (ys ++ rest)) ≡ rest
drop-known xs ys rest n e =
    rw (← e, ← length-append xs ys, ← append_assoc xs ys rest) (drop-length-append (xs ++ ys) rest)

take-overwrite :
    (cells : List Pair) (n at : ℕ) (new : List Pair)
    → n ≤ at
    → at ≤ length cells
    → take n (overwrite cells at new) ≡ take n cells
take-overwrite cells n at new h fits =
    take-append_le n (take at cells) _ (omega (arith, length-take at cells))
    ∙ take-take n at cells h

-- The fields of a list of arguments, in order.
abbrev pub all_fields : List Fielder → List Pair
all_fields [] = []
all_fields (f ∷ fs) = log_fields f ++ all_fields fs

-- `new` was appended to `s`, which gave `s'`: what `s'` holds and where it lies, and that every
-- other allocated slice keeps its elements, unless it goes on in the same array behind `s`.
pub record Grown (mem : Memory) (s : Slice) (new : List Pair) (mem' : Memory) (s' : Slice)
    : Type 0 where
  pub sound : IsSlice mem' s'
  pub content : view mem' s' ≡ view mem s ++ new
  pub next_le : mem.next ≤ mem'.next
  pub place : ((s'.addr ≡ s.addr) × (s.len ≤ s'.len)) ⊎ (mem.next ≤ s'.addr)
  pub lengths : (a : ℕ) → a < mem.next → length (mem'.array a) ≡ length (mem.array a)
  pub frame :
      (t : Slice)
      → t.addr < mem.next
      → (t.addr ≢ s.addr) ⊎ (t.len ≤ s.len)
      → view mem' t ≡ view mem t

pub Grown-refl : (mem : Memory) (s : Slice) → IsSlice mem s → Grown mem s [] mem s
Grown-refl mem s h = record {
  sound = h;
  content = sym (append-nil (view mem s));
  next_le = omega arith;
  place = inl (refl, omega arith);
  lengths = λ a _. refl;
  frame = λ t _ _. refl;
}

pub Grown-trans :
    {mem mem' mem'' : Memory} {s s' s'' : Slice} {new new' : List Pair}
    → s.addr < mem.next
    → Grown mem s new mem' s'
    → Grown mem' s' new' mem'' s''
    → Grown mem s (new ++ new') mem'' s''
Grown-trans {mem} {s = s} {s' = s'} {new = new} {new' = new'} alloc g h = record {
  sound = h.sound;
  content = h.content ∙ ap (λ l. l ++ new') g.content ∙ append_assoc (view mem s) new new';
  next_le = omega (arith, g.next_le, h.next_le);
  place = ground (arith, g.place, h.place, g.next_le);
  lengths = λ a lt. h.lengths a (omega (arith, g.next_le)) ∙ g.lengths a lt;
  frame =
      λ t lt apart. h.frame t (omega (arith, g.next_le)) (still t lt apart) ∙ g.frame t lt apart;
}
  where
    still :
        (t : Slice)
        → t.addr < mem.next
        → (t.addr ≢ s.addr) ⊎ (t.len ≤ s.len)
        → (t.addr ≢ s'.addr) ⊎ (t.len ≤ s'.len)
    still t lt (inl ne) = elim g.place [
      | inl (e, _) ↦ inl (λ p. ne (p ∙ e))
      | inr far ↦ inl (omega arith)
    ]
    still t lt (inr le) = elim g.place [
      | inl (_, more) ↦ inr (omega arith)
      | inr far ↦ inl (omega arith)
    ]

module _ ⦃rt : Runtime⦄ where
  view-append_in_place :
      (mem : Memory) (s : Slice) (new : List Pair)
      → IsSlice mem s
      → view (append_in_place mem s new).0 (append_in_place mem s new).1 ≡ view mem s ++ new
  unfolding append_in_place
  view-append_in_place mem s new h =
      rw (update_self mem.array s.addr (overwrite (mem.array s.addr) s.len new))
        (take-known (view mem s) new _ _ (omega (arith, length-view h)))

  view-append_moved :
      (mem : Memory) (s : Slice) (new : List Pair)
      → IsSlice mem s
      → view (append_moved mem s new).0 (append_moved mem s new).1 ≡ view mem s ++ new
  unfolding append_moved
  view-append_moved mem s new h =
      rw (update_self mem.array mem.next _)
        (take-known (view mem s) new _ _ (omega (arith, length-view h)))

  append_in_place-IsSlice :
      (mem : Memory) (s : Slice) (new : List Pair)
      → s.len + length new ≤ s.cap
      → IsSlice mem s
      → IsSlice (append_in_place mem s new).0 (append_in_place mem s new).1
  unfolding append_in_place
  append_in_place-IsSlice mem s new fits h = record {
    within = fits;
    whole =
        ap length (update_self mem.array s.addr (overwrite (mem.array s.addr) s.len new))
        ∙ length-overwrite (mem.array s.addr) s.len new (omega (arith, h.whole))
        ∙ h.whole;
    allocated = h.allocated;
  }

  append_moved-IsSlice :
      (mem : Memory) (s : Slice) (new : List Pair)
      → IsSlice mem s
      → IsSlice (append_moved mem s new).0 (append_moved mem s new).1
  unfolding append_moved
  append_moved-IsSlice mem s new h = record {
    within = rt.sufficiently_large s.cap (s.len + length new);
    whole =
        ap length (update_self mem.array mem.next _)
        ∙ omega (
          arith,
          length-append (view mem s) (new ++ spare),
          length-append new spare,
          length-replicate (rt.grow s.cap need - need) zero_pair,
          length-view h,
          rt.sufficiently_large s.cap need,
        );
    allocated = omega arith;
  }
    where
      need : ℕ
      need = s.len + length new

      spare : List Pair
      spare = replicate (rt.grow s.cap need - need) zero_pair

  append_in_place-Grown :
      (mem : Memory) (s : Slice) (new : List Pair)
      → s.len + length new ≤ s.cap
      → IsSlice mem s
      → Grown mem s new (append_in_place mem s new).0 (append_in_place mem s new).1
  unfolding append_in_place
  append_in_place-Grown mem s new fits h = record {
    sound = append_in_place-IsSlice mem s new fits h;
    content = view-append_in_place mem s new h;
    next_le = omega arith;
    place = inl (refl, omega arith);
    lengths = λ a lt. elim (ℕ_discrete s.addr a) [
      | yes e ↦
          subst
            (λ b.
              length (update mem.array s.addr (overwrite (mem.array s.addr) s.len new) b)
              ≡ length (mem.array b))
            e
            (ap length (update_self mem.array s.addr _)
              ∙ length-overwrite (mem.array s.addr) s.len new (omega (arith, h.whole)))
      | no ne ↦ ap length (update_ne mem.array s.addr a _ ne)
    ];
    frame = λ t lt apart. elim (ℕ_discrete s.addr t.addr) [
      | yes e ↦
          subst
            (λ b.
              take t.len (update mem.array s.addr (overwrite (mem.array s.addr) s.len new) b)
              ≡ take t.len (mem.array b))
            e
            (ap (take t.len) (update_self mem.array s.addr _)
              ∙ take-overwrite (mem.array s.addr) t.len s.len new (behind t e apart)
                  (omega (arith, h.whole, h.within)))
      | no ne ↦ ap (take t.len) (update_ne mem.array s.addr t.addr _ ne)
    ];
  }
    where
      behind : (t : Slice) → s.addr ≡ t.addr → (t.addr ≢ s.addr) ⊎ (t.len ≤ s.len) → t.len ≤ s.len
      behind t e (inl ne) = absurd (ne (sym e))
      behind t e (inr le) = le

  append_moved-Grown :
      (mem : Memory) (s : Slice) (new : List Pair)
      → IsSlice mem s
      → Grown mem s new (append_moved mem s new).0 (append_moved mem s new).1
  unfolding append_moved
  append_moved-Grown mem s new h = record {
    sound = append_moved-IsSlice mem s new h;
    content = view-append_moved mem s new h;
    next_le = omega arith;
    place = inr (omega arith);
    lengths = λ a lt. ap length (update_ne mem.array mem.next a _ (omega arith));
    frame = λ t lt _. ap (take t.len) (update_ne mem.array mem.next t.addr _ (omega arith));
  }

  -- The slice that `append` returns holds the old elements and the new ones.
  pub append-Grown :
      (mem : Memory) (s : Slice) (new : List Pair)
      → IsSlice mem s
      → Grown mem s new (append mem s new).0 (append mem s new).1
  unfolding append
  append-Grown mem s new h = elim (Bool-cases (leb (s.len + length new) s.cap)) [
    | inl fits ↦ rw fits (append_in_place-Grown mem s new (ground (arith, fits)) h)
    | inr full ↦ rw full (append_moved-Grown mem s new h)
  ]

  pub append_fits :
      (mem : Memory) (s : Slice) (new : List Pair)
      → s.len + length new ≤ s.cap
      → append mem s new ≡ append_in_place mem s new
  unfolding append
  append_fits mem s new h = rw (le→leb _ _ h)

  pub merge-Grown :
      (mem : Memory) (s : Slice) (fs : List Fielder)
      → IsSlice mem s
      → Grown mem s (all_fields fs) (merge mem s fs).0 (merge mem s fs).1
  unfolding merge
  merge-Grown mem s [] h = Grown-refl mem s h
  merge-Grown mem s (f ∷ fs) h =
      let g = append-Grown mem s (log_fields f) h in
      Grown-trans h.allocated g
        (merge-Grown (append mem s (log_fields f)).0 (append mem s (log_fields f)).1 fs g.sound)
