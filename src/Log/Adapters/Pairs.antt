-- ===== src/Log/Adapters/Pairs.antt =====
-- The pairs that goaLogger.Log makes of keys and values (log/adapt.go).
use clue.Base.{
  ℕ, zero, suc, ◌+◌, ◌*◌, ◌/◌, ◌%◌, ◌==◌, ◌≡◌, refl, ap, ap₂, ◌∙◌, length, get_elem?, Bool, true,
  false, some, List, [], ◌∷◌, ◌++◌, Bytes, codes, if◌then◌else◌, arith,
}
use clue.Log.Value.{Value, string, Pair, kv_list}
use clue.Log.Memory.{Runtime}
use clue.Log.Logger.{Context, Store}
use clue.Log.Operations.{print}
use clue.Log.Adapters.{padded, pair_values, goa_pair, put_pair, goa_loop, goa_pairs, goa_log}

-- Two by two; a last key has the value "MISSING".
abbrev pub paired : (Value → Bytes) → List Value → List Pair
paired sprint [] = []
paired sprint (k ∷ []) = record { key = sprint k; val = string (codes "MISSING") } ∷ []
paired sprint (k ∷ (v ∷ keyvals)) = record { key = sprint k; val = v } ∷ paired sprint keyvals

goa_pair-behind :
    (sprint : Value → Bytes) (k v : Value) (l : List Value) (i : ℕ)
    → goa_pair sprint (k ∷ (v ∷ l)) (suc i) ≡ goa_pair sprint l i
goa_pair-behind sprint k v l i =
    let double : 2 * suc i ≡ suc (suc (2 * i)) = omega arith in
    let odd : 2 * suc i + 1 ≡ suc (suc (2 * i + 1)) = omega arith in
    ap₂ (λ m n. pair_values sprint (get_elem? (k ∷ (v ∷ l)) m) (get_elem? (k ∷ (v ∷ l)) n)) double
      odd

goa_loop-behind :
    (sprint : Value → Bytes) (k v : Value) (l : List Value) (i n : ℕ)
    → goa_loop sprint (k ∷ (v ∷ l)) (suc i) n ≡ goa_loop sprint l i n
unfolding goa_loop
goa_loop-behind sprint k v l i zero = refl
goa_loop-behind sprint k v l i (suc n) =
    ap₂ put_pair (goa_pair-behind sprint k v l i) (goa_loop-behind sprint k v l (suc i) n)

padded-behind : (k v : Value) (l : List Value) → padded (k ∷ (v ∷ l)) ≡ k ∷ (v ∷ padded l)
padded-behind k v l =
    let parity : suc (suc (length l)) % 2 ≡ length l % 2 = omega arith in
    rw parity (under (length l % 2 == 0))
  where
    under :
        (b : Bool)
        → (if b then k ∷ (v ∷ l) else k ∷ (v ∷ (l ++ string (codes "MISSING") ∷ [])))
          ≡ k ∷ (v ∷ (if b then l else l ++ string (codes "MISSING") ∷ []))
    under true = refl
    under false = refl

goa_pairs_lem :
    (sprint : Value → Bytes) (keyvals : List Value)
    → goa_pairs sprint keyvals ≡ some (paired sprint keyvals)
unfolding goa_pairs goa_loop
goa_pairs_lem sprint [] = refl
goa_pairs_lem sprint (k ∷ []) = refl
goa_pairs_lem sprint (k ∷ (v ∷ l)) =
    let n = (length l + 1) / 2 in
    let rounds : (suc (suc (length l)) + 1) / 2 ≡ suc n = omega arith in
    rw (padded-behind k v l, rounds)
      (ap (put_pair (some (record { key = sprint k; val = v })))
        (goa_loop-behind sprint k v (padded l) 0 n ∙ goa_pairs_lem sprint l))

-- `Log` of the logger for Goa never panics: it prints the pairs of its arguments, two by two, an odd
-- last one as the key of "MISSING".
pub goa_log_lem :
    ⦃rt : Runtime⦄ (sprint : Value → Bytes) (st : Store) (ctx : Context) (now : ℕ)
    (keyvals : List Value)
    → goa_log sprint st ctx now keyvals
      ≡ some (print st ctx now (kv_list (paired sprint keyvals) ∷ []))
unfolding goa_log
goa_log_lem sprint st ctx now keyvals = rw (goa_log, goa_pairs_lem sprint keyvals) refl
