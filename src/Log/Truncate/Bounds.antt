-- ===== src/Log/Truncate/Bounds.antt =====
-- How long the values are that `truncate` leaves, and which pairs it does not reach.
use clue.Base.{
  All, ℕ, suc, ◌+◌, ◌-◌, ◌≤◌, ◌<◌, ◌≡◌, refl, sym, ap, ◌∙◌, ◌⊎◌, inl, inr, true, ◌||◌, none, some,
  List, [], ◌∷◌, ◌++◌, map, Bytes, length, take, drop, ltb, leb, ltb→lt, ltb-false→le, take-length,
  take-append_eq, drop-append_eq, drop-length, if◌then◌else◌, arith, Bool-cases, length-append,
  length-take, length-map, length-drop,
}
use clue.Log.Value.{Value, Pair, string, verb_v}
use clue.Log.Memory.{Runtime, Memory, Slice, view}
use clue.Log.Memory.Laws.{IsSlice}
use clue.Log.Truncate.{skipped, shortened, log_pair, truncate, truncation_suffix}
use clue.Log.Truncate.Cells.{shorten}
use clue.Log.Truncate.Laws.{truncated, view-truncate}

-- A value is replaced exactly if its type is not skipped and its %v text is longer than `maxsize`;
-- then by the first `maxsize` bytes of the text and the suffix.
pub shortened_lem :
    (maxsize : ℕ) (v : Value)
    → shortened maxsize v ≡ (
        if skipped v || leb (length (verb_v v)) maxsize
        then none
        else some (string (take maxsize (verb_v v) ++ truncation_suffix)))
unfolding shortened
shortened_lem maxsize v =
    let whole : maxsize - 0 ≡ maxsize = omega arith in
    ground (arith, ap (λ k. take k (verb_v v)) whole)

abbrev pub IsShort : ℕ → Value → Type 0
IsShort maxsize v = (skipped v ≡ true) ⊎ (length (verb_v v) ≤ maxsize + length truncation_suffix)

verb_v-string : (s : Bytes) → verb_v (string s) ≡ s
unfolding verb_v
verb_v-string s = refl

cut_length :
    (maxsize : ℕ) (text : Bytes)
    → length (verb_v (string (take maxsize text ++ truncation_suffix)))
      ≤ maxsize + length truncation_suffix
cut_length maxsize text =
    rw (verb_v-string _, length-append (take maxsize text))
      (omega (arith, length-take maxsize text))

shorten-IsShort : (maxsize : ℕ) (p : Pair) → IsShort maxsize (shorten maxsize p).val
unfolding shorten
shorten-IsShort maxsize p = rw (shortened_lem maxsize p.val) (elim (Bool-cases (skipped p.val)) [
  | inl skip ↦ rw skip (inl skip)
  | inr look ↦ elim (Bool-cases (leb (length (verb_v p.val)) maxsize)) [
    | inl fits ↦ rw (look, fits) (inr (ground (arith, fits)))
    | inr long ↦ rw (look, long) (inr (cut_length maxsize (verb_v p.val)))
  ]
])

map-shorten-IsShort :
    (maxsize : ℕ) (ps : List Pair) → All (λ p. IsShort maxsize p.val) (map (shorten maxsize) ps)
map-shorten-IsShort maxsize [] = tt
map-shorten-IsShort maxsize (p ∷ ps) = (shorten-IsShort maxsize p, map-shorten-IsShort maxsize ps)

abbrev head_of : ℕ → List Pair → List Pair
head_of maxsize ps = map (shorten maxsize) (take maxsize ps ++ log_pair ∷ [])

length-head_of :
    (maxsize : ℕ) (ps : List Pair) → maxsize < length ps → length (head_of maxsize ps) ≡ suc maxsize
length-head_of maxsize ps h = omega (
  arith,
  length-map (take maxsize ps ++ log_pair ∷ []) (shorten maxsize),
  length-append (take maxsize ps) (log_pair ∷ []),
  length-take maxsize ps,
)

-- What a prefix of the cut pairs begins with is cut.
take-truncated :
    (maxsize : ℕ) (ps : List Pair)
    → (qs : List Pair) × (take (suc maxsize) (truncated maxsize ps) ≡ map (shorten maxsize) qs)
unfolding truncated
take-truncated maxsize ps = elim (Bool-cases (ltb maxsize (length ps))) [
  | inl more ↦ (take maxsize ps ++ log_pair ∷ [], rw more (more_lem (ltb→lt _ _ more)))
  | inr fits ↦ (
    ps,
    rw fits (
        take-length (suc maxsize) (map (shorten maxsize) ps)
          (omega (arith, length-map ps (shorten maxsize), ltb-false→le maxsize (length ps) fits))),
  )
]
  where
    more_lem :
        maxsize < length ps
        → take (suc maxsize) (head_of maxsize ps ++ drop (suc maxsize) ps) ≡ head_of maxsize ps
    more_lem h = take-append_eq (suc maxsize) (head_of maxsize ps) _ (length-head_of maxsize ps h)

drop-truncated :
    (maxsize : ℕ) (ps : List Pair)
    → (length (truncated maxsize ps) ≡ length ps)
      × (drop (suc maxsize) (truncated maxsize ps) ≡ drop (suc maxsize) ps)
unfolding truncated
drop-truncated maxsize ps = elim (Bool-cases (ltb maxsize (length ps))) [
  | inl more ↦ rw more (
    omega (
      arith,
      length-append (head_of maxsize ps) (drop (suc maxsize) ps),
      length-drop (suc maxsize) ps,
      length-head_of maxsize ps (ltb→lt _ _ more),
      ltb→lt maxsize (length ps) more,
    ),
    drop-append_eq (suc maxsize) (head_of maxsize ps) _
        (length-head_of maxsize ps (ltb→lt _ _ more)),
  )
  | inr fits ↦ rw fits (
    length-map ps (shorten maxsize),
    drop-length (suc maxsize) (map (shorten maxsize) ps)
          (omega (arith, length-map ps (shorten maxsize), ltb-false→le maxsize (length ps) fits))
        ∙ sym (drop-length (suc maxsize) ps (omega (arith, ltb-false→le maxsize (length ps) fits))),
  )
]

module _ ⦃rt : Runtime⦄ where
  -- Behind `truncate`, the first `maxsize` + 1 pairs of the caller's slice hold values that the type
  -- switch skips, or whose %v text is at most `maxsize` bytes and the suffix long.
  pub truncate-IsShort :
      (mem : Memory) (s : Slice) (maxsize : ℕ)
      → IsSlice mem s
      → All (λ p. IsShort maxsize p.val) (take (suc maxsize) (view (truncate mem s maxsize) s))
  truncate-IsShort mem s maxsize h =
      let (qs, e) = take-truncated maxsize (view mem s) in
      rw (view-truncate mem s maxsize h, e) (map-shorten-IsShort maxsize qs)

  -- `truncate` leaves its caller as many pairs as before, and all those behind the first
  -- `maxsize` + 1 as they were, however long their values are.
  pub truncate_misses_rest :
      (mem : Memory) (s : Slice) (maxsize : ℕ)
      → IsSlice mem s
      → (length (view (truncate mem s maxsize) s) ≡ length (view mem s))
        × (drop (suc maxsize) (view (truncate mem s maxsize) s) ≡ drop (suc maxsize) (view mem s))
  truncate_misses_rest mem s maxsize h =
      rw (view-truncate mem s maxsize h) (drop-truncated maxsize (view mem s))
