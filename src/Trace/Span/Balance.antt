-- ===== src/Trace/Span/Balance.antt =====
-- That each span of trace/span.go that is started is ended once.
use clue.Base.{
  ℕ, ◌+◌, ◌≡◌, refl, ap, Bool, String, none, some, List, [], ◌∷◌, ◌++◌, if◌then◌else◌, arith,
}
use clue.Trace.Span.{
  Kind, Attribute, Call, starts, ends, sets_attributes, adds_event, sets_status, records_error,
  Tracing, call, split_last, end_all,
}

abbrev pub one : (ℕ → Bool) → ℕ → ℕ
one p s = if p s then 1 else 0

-- How many of some spans pass a test.
abbrev pub count : (ℕ → Bool) → List ℕ → ℕ
count p [] = 0
count p (s ∷ ss) = one p s + count p ss

-- How often spans that pass a test were started, and ended.
abbrev pub started : (ℕ → Bool) → List Call → ℕ
started p [] = 0
started p (starts t s k n kvs ∷ cs) = one p s + started p cs
started p (ends s ∷ cs) = started p cs
started p (sets_attributes s kvs ∷ cs) = started p cs
started p (adds_event s n kvs ∷ cs) = started p cs
started p (sets_status s x m ∷ cs) = started p cs
started p (records_error s e ∷ cs) = started p cs

abbrev pub ended : (ℕ → Bool) → List Call → ℕ
ended p [] = 0
ended p (starts t s k n kvs ∷ cs) = ended p cs
ended p (ends s ∷ cs) = one p s + ended p cs
ended p (sets_attributes s kvs ∷ cs) = ended p cs
ended p (adds_event s n kvs ∷ cs) = ended p cs
ended p (sets_status s x m ∷ cs) = ended p cs
ended p (records_error s e ∷ cs) = ended p cs

started-append :
    (p : ℕ → Bool) (xs ys : List Call) → started p (xs ++ ys) ≡ started p xs + started p ys
started-append p [] ys = omega arith
started-append p (starts t s k n kvs ∷ cs) ys = omega (arith, started-append p cs ys)
started-append p (ends s ∷ cs) ys = started-append p cs ys
started-append p (sets_attributes s kvs ∷ cs) ys = started-append p cs ys
started-append p (adds_event s n kvs ∷ cs) ys = started-append p cs ys
started-append p (sets_status s x m ∷ cs) ys = started-append p cs ys
started-append p (records_error s e ∷ cs) ys = started-append p cs ys

ended-append : (p : ℕ → Bool) (xs ys : List Call) → ended p (xs ++ ys) ≡ ended p xs + ended p ys
ended-append p [] ys = omega arith
ended-append p (starts t s k n kvs ∷ cs) ys = ended-append p cs ys
ended-append p (ends s ∷ cs) ys = omega (arith, ended-append p cs ys)
ended-append p (sets_attributes s kvs ∷ cs) ys = ended-append p cs ys
ended-append p (adds_event s n kvs ∷ cs) ys = ended-append p cs ys
ended-append p (sets_status s x m ∷ cs) ys = ended-append p cs ys
ended-append p (records_error s e ∷ cs) ys = ended-append p cs ys

count-append : (p : ℕ → Bool) (xs ys : List ℕ) → count p (xs ++ ys) ≡ count p xs + count p ys
count-append p [] ys = omega arith
count-append p (x ∷ xs) ys = omega (arith, count-append p xs ys)

pub split_last-append : (ss : List ℕ) (s : ℕ) → split_last (ss ++ s ∷ []) ≡ some (ss, s)
unfolding split_last
split_last-append [] s = refl
split_last-append (x ∷ ss) s =
    ap (λ o. some (elim o as (λ q. List ℕ × ℕ) [ none ↦ ([], x) | some r ↦ (x ∷ r.0, r.1) ]))
      (split_last-append ss s)

-- Spans are none, or some spans and a last one.
pub data IsSplit : List ℕ → Type 0 where
  empty : IsSplit []
  snoc : (ss : List ℕ) (s : ℕ) → IsSplit (ss ++ s ∷ [])

pub split : (ss : List ℕ) → IsSplit ss
split [] = empty
split (x ∷ ss) = longer x (split ss)
  where
    longer : (x : ℕ) {ss : List ℕ} → IsSplit ss → IsSplit (x ∷ ss)
    longer x empty = snoc [] x
    longer x (snoc ss s) = snoc (x ∷ ss) s

-- Every span that was started and not ended is on the stack of the bag `b`, as often.
unfoldable pub IsBalanced : List Call → List ℕ → Type 0
IsBalanced calls spans = (p : ℕ → Bool) → started p calls ≡ ended p calls + count p spans

pub push-IsBalanced :
    (cs : List Call) (ss : List ℕ) (t s : ℕ) (k : Kind) (n : String) (kvs : List Attribute)
    → IsBalanced cs ss
    → IsBalanced (cs ++ starts t s k n kvs ∷ []) (ss ++ s ∷ [])
unfolding IsBalanced
push-IsBalanced cs ss t s k n kvs h p = omega (
  arith,
  h p,
  started-append p cs (starts t s k n kvs ∷ []),
  ended-append p cs (starts t s k n kvs ∷ []),
  count-append p ss (s ∷ []),
)

pub pop-IsBalanced :
    (cs : List Call) (ss : List ℕ) (s : ℕ)
    → IsBalanced cs (ss ++ s ∷ [])
    → IsBalanced (cs ++ ends s ∷ []) ss
unfolding IsBalanced
pop-IsBalanced cs ss s h p = omega (
  arith,
  h p,
  started-append p cs (ends s ∷ []),
  ended-append p cs (ends s ∷ []),
  count-append p ss (s ∷ []),
)

-- A call that neither starts nor ends a span.
pub neutral-IsBalanced :
    (cs : List Call) (c : Call) (ss : List ℕ)
    → ((p : ℕ → Bool) → (started p (c ∷ []) ≡ 0) × (ended p (c ∷ []) ≡ 0))
    → IsBalanced cs ss
    → IsBalanced (cs ++ c ∷ []) ss
unfolding IsBalanced
neutral-IsBalanced cs c ss idle h p =
    omega
      (arith, h p, (idle p).0, (idle p).1, started-append p cs (c ∷ []), ended-append p cs (c ∷ []))

pub drain-IsBalanced :
    (st : Tracing) (ss : List ℕ) → IsBalanced st.calls ss → IsBalanced (end_all st ss).calls []
unfolding IsBalanced
drain-IsBalanced st [] h = h
drain-IsBalanced st (s ∷ ss) h = drain-IsBalanced (call st (ends s)) ss (λ p.
    omega
      (arith, h p, started-append p st.calls (ends s ∷ []), ended-append p st.calls (ends s ∷ [])))
