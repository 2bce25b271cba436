-- ===== src/Log/Logger/Gather.antt =====
-- What `gather` puts into a new entry, and which slices it leaves alone.
use clue.Base.{
  ℕ, ◌≤◌, ◌<◌, ◌≡◌, ◌≢◌, sym, ap, ap₂, subst, ◌∙◌, ◌⊎◌, inl, inr, List, [], ◌∷◌, ◌++◌, length, take,
  take-nil, arith, ℕ_discrete,
}
use clue.Log.Value.{Pair, Fielder}
use clue.Log.Memory.{Runtime, Memory, Slice, nil_slice, view, append, merge}
use clue.Log.Memory.Laws.{
  IsSlice, Grown, Grown-refl, Grown-trans, append-Grown, merge-Grown, all_fields,
}
use clue.Log.Truncate.{truncate}
use clue.Log.Truncate.Laws.{
  truncated, view-truncate, truncate-other, truncate-next, length-truncate,
}
use clue.Log.Logger.{Context, Options, Logger, append_funcs, gather}

-- Memory in which address 0 is that of the nil slice.
pub record HasNil (mem : Memory) : Type 0 where
  pub zero_allocated : 0 < mem.next
  pub zero_empty : length (mem.array 0) ≡ 0

-- What the functions of the options make of a context, in order.
abbrev pub made_by : Context → List (Context → List Pair) → List Pair
made_by ctx [] = []
made_by ctx (fn ∷ fns) = fn ctx ++ made_by ctx fns

module _ ⦃rt : Runtime⦄ where
  append_funcs-Grown :
      (mem : Memory) (s : Slice) (ctx : Context) (fns : List (Context → List Pair))
      → IsSlice mem s
      → Grown mem s (made_by ctx fns) (append_funcs mem s ctx fns).0 (append_funcs mem s ctx fns).1
  unfolding append_funcs
  append_funcs-Grown mem s ctx [] h = Grown-refl mem s h
  append_funcs-Grown mem s ctx (fn ∷ fns) h =
      let g = append-Grown mem s (fn ctx) h in
      Grown-trans h.allocated g
        (append_funcs-Grown (append mem s (fn ctx)).0 (append mem s (fn ctx)).1 ctx fns g.sound)

take-length-nil : (n : ℕ) (xs : List Pair) → length xs ≡ 0 → take n xs ≡ []
take-length-nil n [] e = take-nil n
take-length-nil n (x ∷ xs) e = absurd (omega (arith, e))

-- A slice whose elements an append to `s` cannot change.
abbrev pub Apart : Slice → Slice → Type 0
Apart t s = (t.addr ≡ 0) ⊎ (t.addr ≢ s.addr) ⊎ (t.len ≤ s.len)

pub view_at_nil : (mem : Memory) (t : Slice) → HasNil mem → t.addr ≡ 0 → view mem t ≡ []
view_at_nil mem t h e =
    take-length-nil t.len (mem.array t.addr) (ap (λ a. length (mem.array a)) e ∙ h.zero_empty)

pub IsSlice-mono :
    {mem mem' : Memory} {s : Slice}
    → mem.next ≤ mem'.next
    → length (mem'.array s.addr) ≡ length (mem.array s.addr)
    → IsSlice mem s
    → IsSlice mem' s
IsSlice-mono le e h = record {
  within = h.within;
  whole = e ∙ h.whole;
  allocated = omega (arith, le, h.allocated);
}

pub HasNil-Grown :
    {mem mem' : Memory} {s s' : Slice} {new : List Pair}
    → HasNil mem
    → Grown mem s new mem' s'
    → HasNil mem'
HasNil-Grown h g = record {
  zero_allocated = omega (arith, h.zero_allocated, g.next_le);
  zero_empty = g.lengths 0 h.zero_allocated ∙ h.zero_empty;
}

pub HasNil-IsSlice : {mem : Memory} → HasNil mem → IsSlice mem nil_slice
HasNil-IsSlice h = record {
  within = omega arith;
  whole = h.zero_empty;
  allocated = h.zero_allocated;
}

-- `gather` made `made`, whose pairs are `content`.
pub record Gathered (mem : Memory) (own : Slice) (content : List Pair) (mem' : Memory)
    (made : Slice) : Type 0 where
  pub shows : view mem' made ≡ content
  pub has_nil : HasNil mem'
  pub next_le : mem.next ≤ mem'.next
  pub lengths : (a : ℕ) → a < mem.next → length (mem'.array a) ≡ length (mem.array a)
  pub fresh : (made.addr ≡ 0) ⊎ (mem.next ≤ made.addr)
  pub allocated : made.addr < mem'.next
  pub frame : (t : Slice) → t.addr < mem.next → Apart t own → view mem' t ≡ view mem t

-- The four steps of `gather`, with the memories between them as variables.
module _ ⦃rt : Runtime⦄ {mem m1 m2 m4 : Memory} {kvs given own made : Slice} (fs ms : List Pair)
    (maxsize : ℕ) (z : HasNil mem) (h : IsSlice mem kvs) (g1 : Grown mem nil_slice fs m1 given)
    (g2 : Grown m1 kvs (view m1 given) m2 own)
    (g4 : Grown m2 nil_slice (view m2 own ++ ms) m4 made) where
  gathered_nil : HasNil m4
  gathered_nil = HasNil-Grown (HasNil-Grown (HasNil-Grown z g1) g2) g4

  gathered_fresh : (made.addr ≡ 0) ⊎ (mem.next ≤ made.addr)
  gathered_fresh = elim g4.place [
    | inl (e, _) ↦ inl e
    | inr far ↦ inr (omega (arith, g1.next_le, g2.next_le))
  ]

  step_frame :
      (t : Slice)
      → t.addr < mem.next
      → t.addr ≢ 0
      → (t.addr ≢ kvs.addr) ⊎ (t.len ≤ kvs.len)
      → view m4 t ≡ view mem t
  step_frame t lt ne apart =
      g4.frame t (omega (arith, g1.next_le, g2.next_le)) (inl ne)
      ∙ g2.frame t (omega (arith, g1.next_le)) apart
      ∙ g1.frame t lt (inl ne)

  view_kvs : view m1 kvs ≡ view mem kvs
  view_kvs = elim (ℕ_discrete kvs.addr 0) [
    | yes e ↦ view_at_nil m1 kvs (HasNil-Grown z g1) e ∙ sym (view_at_nil mem kvs z e)
    | no ne ↦ g1.frame kvs h.allocated (inl ne)
  ]

  gathered_content : view m4 made ≡ (view mem kvs ++ fs) ++ ms
  gathered_content =
      g4.content ∙ ap (λ l. l ++ ms) (g2.content ∙ ap₂ (λ xs ys. xs ++ ys) view_kvs g1.content)

  cut-frame :
      (t : Slice) → t.addr < mem.next → t.addr ≢ 0 → view (truncate m4 made maxsize) t ≡ view m4 t
  cut-frame t lt ne =
      ap (take t.len) (truncate-other m4 made maxsize t.addr g4.sound (λ e. elsewhere (sym e)))
    where
      elsewhere : t.addr ≡ made.addr → ⊥
      elsewhere e = elim gathered_fresh [ inl at_nil ↦ ne (e ∙ at_nil) | inr far ↦ omega arith ]

  cut_nil : HasNil (truncate m4 made maxsize)
  cut_nil = record {
    zero_allocated = rw (truncate-next m4 made maxsize g4.sound) gathered_nil.zero_allocated;
    zero_empty = length-truncate m4 made maxsize 0 g4.sound ∙ gathered_nil.zero_empty;
  }

  gathered_frame :
      (t : Slice) → t.addr < mem.next → Apart t kvs → view (truncate m4 made maxsize) t ≡ view mem t
  gathered_frame t lt apart = elim (ℕ_discrete t.addr 0) [
    | yes e ↦ view_at_nil (truncate m4 made maxsize) t cut_nil e ∙ sym (view_at_nil mem t z e)
    | no ne ↦ cut-frame t lt ne ∙ step_frame t lt ne (not_nil t ne apart)
  ]
    where
      not_nil : (t : Slice) → t.addr ≢ 0 → Apart t kvs → (t.addr ≢ kvs.addr) ⊎ (t.len ≤ kvs.len)
      not_nil t ne (inl e) = absurd (ne e)
      not_nil t ne (inr other) = other

  gathered :
      Gathered mem kvs
        (truncated maxsize ((view mem kvs ++ fs) ++ ms))
        (truncate m4 made maxsize)
        made
  gathered = record {
    shows = view-truncate m4 made maxsize g4.sound ∙ ap (truncated maxsize) gathered_content;
    has_nil = cut_nil;
    next_le =
        rw (truncate-next m4 made maxsize g4.sound)
          (omega (arith, g1.next_le, g2.next_le, g4.next_le));
    lengths = λ a lt.
        length-truncate m4 made maxsize a g4.sound
        ∙ g4.lengths a (omega (arith, g1.next_le, g2.next_le))
        ∙ g2.lengths a (omega (arith, g1.next_le))
        ∙ g1.lengths a lt;
    fresh = gathered_fresh;
    allocated = rw (truncate-next m4 made maxsize g4.sound) g4.sound.allocated;
    frame = gathered_frame;
  }

-- The pairs that a new entry shows.
abbrev pub entry_pairs : Memory → Logger → Options → Context → List Fielder → List Pair
entry_pairs mem l o ctx fielders =
    truncated o.maxsize ((view mem l.keyvals ++ all_fields fielders) ++ made_by ctx o.kvfuncs)

module _ ⦃rt : Runtime⦄ where
  funcs-Grown :
      (mem : Memory) (s : Slice) (new : List Pair) (ctx : Context)
      (fns : List (Context → List Pair))
      → IsSlice mem s
      → Grown mem s
          (new ++ made_by ctx fns)
          (append_funcs (append mem s new).0 (append mem s new).1 ctx fns).0
          (append_funcs (append mem s new).0 (append mem s new).1 ctx fns).1
  funcs-Grown mem s new ctx fns h =
      let g = append-Grown mem s new h in
      Grown-trans h.allocated g
        (append_funcs-Grown (append mem s new).0 (append mem s new).1 ctx fns g.sound)

  -- In a memory whose nil slice is empty, with a sound slice for the logger's pairs and no pairs in
  -- the options, the slice made for an entry shows the cut pairs of the logger, the call and the
  -- functions, in this order. It lies in memory that was free or is empty, arrays keep their lengths,
  -- and no allocated slice changes what it shows, unless it reaches behind the logger's pairs into
  -- their array.
  pub gather-Gathered :
      (mem : Memory) (l : Logger) (o : Options) (ctx : Context) (fielders : List Fielder)
      → HasNil mem
      → IsSlice mem l.keyvals
      → o.keyvals ≡ nil_slice
      → Gathered mem l.keyvals
          (entry_pairs mem l o ctx fielders)
          (gather mem l o ctx fielders).0
          (gather mem l o ctx fielders).1
  unfolding gather
  gather-Gathered mem l o ctx fielders z h none_of_options =
      gathered (all_fields fielders) (made_by ctx o.kvfuncs) o.maxsize z h g1 g2 (
        subst
          (λ s.
            Grown m2 s (view m2 own ++ made_by ctx o.kvfuncs)
              (append_funcs (append m2 o.keyvals (view m2 own)).0
                (append m2 o.keyvals (view m2 own)).1 ctx o.kvfuncs).0
              (append_funcs (append m2 o.keyvals (view m2 own)).0
                (append m2 o.keyvals (view m2 own)).1 ctx o.kvfuncs).1)
          none_of_options
          (funcs-Grown m2 o.keyvals (view m2 own) ctx o.kvfuncs (
            subst (IsSlice m2) (sym none_of_options)
              (HasNil-IsSlice (HasNil-Grown (HasNil-Grown z g1) g2)))))
    where
      m1 : Memory
      m1 = (merge mem nil_slice fielders).0

      given : Slice
      given = (merge mem nil_slice fielders).1

      g1 : Grown mem nil_slice (all_fields fielders) m1 given
      g1 = merge-Grown mem nil_slice fielders (HasNil-IsSlice z)

      m2 : Memory
      m2 = (append m1 l.keyvals (view m1 given)).0

      own : Slice
      own = (append m1 l.keyvals (view m1 given)).1

      g2 : Grown m1 l.keyvals (view m1 given) m2 own
      g2 =
          append-Grown m1 l.keyvals (view m1 given)
            (IsSlice-mono g1.next_le (g1.lengths l.keyvals.addr h.allocated) h)
