-- ===== src/Log/Truncate/Cells.antt =====
-- The cells of an array as the rounds of `truncate` of log/log.go change them.
use clue.Base.{
  ℕ, zero, suc, ◌≡◌, refl, ap, ◌∙◌, Option, none, some, List, [], ◌∷◌, ◌++◌, map, length, get_elem?,
  set, take, drop,
}
use clue.Log.Value.{Value, Pair}
use clue.Log.Truncate.{shortened}

abbrev shorten_val : Value → Option Value → Value
shorten_val v none = v
shorten_val v (some w) = w

-- A pair with its value cut, where it is to be cut.
unfoldable pub shorten : ℕ → Pair → Pair
shorten maxsize p = record p { val = shorten_val p.val (shortened maxsize p.val) }

-- One round and a number of rounds, on the cells of the array.
unfoldable pub shorten_at : ℕ → List Pair → ℕ → List Pair
shorten_at maxsize [] i = []
shorten_at maxsize (p ∷ ps) zero = shorten maxsize p ∷ ps
shorten_at maxsize (p ∷ ps) (suc i) = p ∷ shorten_at maxsize ps i

unfoldable pub shorten_from : ℕ → List Pair → ℕ → ℕ → List Pair
shorten_from maxsize cells i zero = cells
shorten_from maxsize cells i (suc k) = shorten_from maxsize (shorten_at maxsize cells i) (suc i) k

shorten_from-nil : (maxsize i k : ℕ) → shorten_from maxsize [] i k ≡ []
unfolding shorten_from shorten_at
shorten_from-nil maxsize i zero = refl
shorten_from-nil maxsize i (suc k) = shorten_from-nil maxsize (suc i) k

shorten_from-cons :
    (maxsize : ℕ) (p : Pair) (ps : List Pair) (i k : ℕ)
    → shorten_from maxsize (p ∷ ps) (suc i) k ≡ p ∷ shorten_from maxsize ps i k
unfolding shorten_from shorten_at
shorten_from-cons maxsize p ps i zero = refl
shorten_from-cons maxsize p ps i (suc k) =
    shorten_from-cons maxsize p (shorten_at maxsize ps i) (suc i) k

pub shorten_from-map :
    (maxsize : ℕ) (cells : List Pair) (k : ℕ)
    → shorten_from maxsize cells 0 k ≡ map (shorten maxsize) (take k cells) ++ drop k cells
unfolding shorten_from shorten_at
shorten_from-map maxsize cells zero = refl
shorten_from-map maxsize [] (suc k) = shorten_from-nil maxsize 1 k
shorten_from-map maxsize (p ∷ ps) (suc k) =
    shorten_from-cons maxsize (shorten maxsize p) ps 0 k
    ∙ ap (◌∷◌ (shorten maxsize p)) (shorten_from-map maxsize ps k)

length-shorten_at :
    (maxsize : ℕ) (cells : List Pair) (i : ℕ) → length (shorten_at maxsize cells i) ≡ length cells
unfolding shorten_at
length-shorten_at maxsize [] i = refl
length-shorten_at maxsize (p ∷ ps) zero = refl
length-shorten_at maxsize (p ∷ ps) (suc i) = ap suc (length-shorten_at maxsize ps i)

pub length-shorten_from :
    (maxsize : ℕ) (cells : List Pair) (i k : ℕ)
    → length (shorten_from maxsize cells i k) ≡ length cells
unfolding shorten_from
length-shorten_from maxsize cells i zero = refl
length-shorten_from maxsize cells i (suc k) =
    length-shorten_from maxsize (shorten_at maxsize cells i) (suc i) k
    ∙ length-shorten_at maxsize cells i

pub shorten_at-none :
    (maxsize : ℕ) (cells : List Pair) (i : ℕ)
    → get_elem? cells i ≡ none
    → shorten_at maxsize cells i ≡ cells
unfolding shorten_at
shorten_at-none maxsize [] i e = refl
shorten_at-none maxsize (p ∷ ps) zero e = cc
shorten_at-none maxsize (p ∷ ps) (suc i) e = ap (◌∷◌ p) (shorten_at-none maxsize ps i e)

first : {q p : Pair} → some q ≡ some p → q ≡ p
first e = cc

pub shorten_at_keep :
    (maxsize : ℕ) (cells : List Pair) (i : ℕ) (p : Pair)
    → get_elem? cells i ≡ some p
    → shortened maxsize p.val ≡ none
    → shorten_at maxsize cells i ≡ cells
unfolding shorten_at shorten
shorten_at_keep maxsize [] i p e n = cc
shorten_at_keep maxsize (q ∷ ps) zero p e n =
    let n' : shortened maxsize q.val ≡ none =
      ap (λ (o : Pair). shortened maxsize o.val) (first e) ∙ n in
    rw n'
shorten_at_keep maxsize (q ∷ ps) (suc i) p e n = ap (◌∷◌ q) (shorten_at_keep maxsize ps i p e n)

pub shorten_at_cut :
    (maxsize : ℕ) (cells : List Pair) (i : ℕ) (p : Pair) (v : Value)
    → get_elem? cells i ≡ some p
    → shortened maxsize p.val ≡ some v
    → shorten_at maxsize cells i ≡ set cells i (record { key = p.key; val = v })
unfolding shorten_at shorten
shorten_at_cut maxsize [] i p v e n = cc
shorten_at_cut maxsize (q ∷ ps) zero p v e n =
    let same = first e in
    let n' : shortened maxsize q.val ≡ some v =
      ap (λ (o : Pair). shortened maxsize o.val) same ∙ n in
    rw n' (ap (λ (o : Pair). record { key = o.key; val = v } ∷ ps) same)
shorten_at_cut maxsize (q ∷ ps) (suc i) p v e n = ap (◌∷◌ q) (shorten_at_cut maxsize ps i p v e n)
