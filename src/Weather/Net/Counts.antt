-- ===== src/Weather/Net/Counts.antt =====
-- How often the clients of the weather example receive and close a body, and send a request.
use clue.Base.{
  ℕ, ◌+◌, ◌≤◌, ◌≡◌, ◌⊎◌, inl, inr, Bool, true, false, List, [], ◌∷◌, ◌++◌, Bytes, ◌==◌,
  if◌then◌else◌, arith,
}
use clue.Weather.Net.{
  failed, responded, Event, sent, slept, closed, Net, Outcome, returned, error, panicked, Http,
  refuse, accept, with_body,
}

-- How often a body has been received, and closed; how often a request was sent.
abbrev pub one : Bool → ℕ
one true = 1
one false = 0

module _ {C : Type 0} where
  abbrev opened_by : ℕ → Event C → ℕ
  opened_by x (sent req (responded status body)) = one (body == x)
  opened_by x _ = 0

  abbrev closed_by : ℕ → Event C → ℕ
  closed_by x (closed body) = one (body == x)
  closed_by x _ = 0

  abbrev sent_by : Event C → ℕ
  sent_by (sent req answer) = 1
  sent_by _ = 0

  abbrev pub opens : ℕ → List (Event C) → ℕ
  opens x [] = 0
  opens x (e ∷ es) = opened_by x e + opens x es

  abbrev pub closes : ℕ → List (Event C) → ℕ
  closes x [] = 0
  closes x (e ∷ es) = closed_by x e + closes x es

  abbrev pub sends : List (Event C) → ℕ
  sends [] = 0
  sends (e ∷ es) = sent_by e + sends es

  -- A response with the status and the body has been received.
  abbrev pub Received : ℕ → ℕ → List (Event C) → Type 0
  Received status body [] = ⊥
  Received status body (sent req (responded s b) ∷ es) =
      ((s ≡ status) × (b ≡ body)) ⊎ Received status body es
  Received status body (sent req (failed err) ∷ es) = Received status body es
  Received status body (slept ∷ es) = Received status body es
  Received status body (closed b ∷ es) = Received status body es

  pub opens-append : (x : ℕ) (es fs : List (Event C)) → opens x (es ++ fs) ≡ opens x es + opens x fs
  opens-append x [] fs = omega arith
  opens-append x (e ∷ es) fs = omega (arith, opens-append x es fs)

  pub closes-append :
      (x : ℕ) (es fs : List (Event C)) → closes x (es ++ fs) ≡ closes x es + closes x fs
  closes-append x [] fs = omega arith
  closes-append x (e ∷ es) fs = omega (arith, closes-append x es fs)

  pub sends-append : (es fs : List (Event C)) → sends (es ++ fs) ≡ sends es + sends fs
  sends-append [] fs = omega arith
  sends-append (e ∷ es) fs = omega (arith, sends-append es fs)

  pub Received-append :
      (status body : ℕ) (es fs : List (Event C))
      → Received status body es ⊎ Received status body fs
      → Received status body (es ++ fs)
  Received-append status body [] fs (inl h) = absurd h
  Received-append status body [] fs (inr h) = h
  Received-append status body (sent req (responded s b) ∷ es) fs (inl (inl h)) = inl h
  Received-append status body (sent req (responded s b) ∷ es) fs (inl (inr h)) =
      inr (Received-append status body es fs (inl h))
  Received-append status body (sent req (responded s b) ∷ es) fs (inr h) =
      inr (Received-append status body es fs (inr h))
  Received-append status body (sent req (failed err) ∷ es) fs h =
      Received-append status body es fs h
  Received-append status body (slept ∷ es) fs h = Received-append status body es fs h
  Received-append status body (closed b ∷ es) fs h = Received-append status body es fs h

-- How often a body is in the hands of the caller.
abbrev pub held : ℕ → Outcome ℕ → ℕ
held x (returned body) = one (body == x)
held x (error err) = 0
held x panicked = 0

abbrev pub held_nowhere : {A : Type 0} → ℕ → Outcome A → ℕ
held_nowhere x out = 0

-- From a state to another, with some bodies in hand before and afterwards, no body is lost or closed
-- twice.
abbrev pub Balanced : {W C : Type 0} → ℕ → Net W C → Net W C → ℕ → ℕ → Type 0
Balanced x st st' before after =
    opens x st'.events + closes x st.events + before
    ≡ opens x st.events + closes x st'.events + after

module _ {W C : Type 0} (http : Http W C) where
  pub accept-Balanced :
      (x : ℕ) (words : Bytes) (status body : ℕ) (st : Net W C)
      → Balanced x st
          (accept http words status body st).0
          (one (body == x))
          (held x (accept http words status body st).1)
  accept-Balanced x words status body st = by_status (status == 200)
    where
      by_status :
          (b : Bool)
          → Balanced x st
              (if b then (st, returned body) else refuse http words status body st).0
              (one (body == x))
              (held x (if b then (st, returned body) else refuse http words status body st).1)
      by_status true = omega arith
      by_status false = omega (
        arith,
        opens-append x st.events (closed body ∷ []),
        closes-append x st.events (closed body ∷ []),
      )

-- From a state with some bodies in hand, with what a call does: no body is lost or closed twice, and it
-- sends at most so many requests.
abbrev pub Sends : {W C : Type 0} → ℕ → ℕ → Net W C → ℕ → Net W C × Outcome ℕ → Type 0
Sends x most st before (st', out) =
    Balanced x st st' before (held x out) × (sends st'.events ≤ sends st.events + most)

-- No body is lost or closed twice, and at most so many requests are sent.
abbrev pub Clean : {W C : Type 0} → ℕ → ℕ → Net W C → Net W C → Type 0
Clean x most st st' = Balanced x st st' 0 0 × (sends st'.events ≤ sends st.events + most)

module _ {W C : Type 0} (http : Http W C) (x : ℕ) where
  pub with_body-Clean :
      {A : Type 0} (n n' : ℕ) (st : Net W C) (out : Net W C × Outcome ℕ)
      (k : ℕ → Net W C → Net W C × Outcome A)
      → Sends x n st 0 out
      → ((body : ℕ) (st' : Net W C) → Clean x n' st' (k body st').0)
      → Clean x (n + n') st (with_body http out k).0
  with_body-Clean n n' st (st', returned body) k (bal, few) h =
      let (bal', few') = h body st' in
      let st'' = (k body st').0 in
      let es : List (Event C) = closed body ∷ [] in
      (
        omega (arith, bal, bal', opens-append x st''.events es, closes-append x st''.events es),
        omega (arith, few, few', sends-append st''.events es),
      )
  with_body-Clean n n' st (st', error err) k (bal, few) h = (omega (arith, bal), omega (arith, few))
  with_body-Clean n n' st (st', panicked) k (bal, few) h = (omega (arith, bal), omega (arith, few))

  pub accept-Sends :
      (words : Bytes) (status body n : ℕ) (st : Net W C)
      → Sends x n st (one (body == x)) (accept http words status body st)
  accept-Sends words status body n st =
      (accept-Balanced http x words status body st, few (status == 200))
    where
      few :
          (b : Bool)
          → sends (if b then (st, returned body) else refuse http words status body st).0.events
            ≤ sends st.events + n
      few true = omega arith
      few false = omega (arith, sends-append st.events (closed body ∷ []))
