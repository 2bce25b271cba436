-- ===== src/Weather/Weathergov/Retries.antt =====
-- The requests of the client of Weather.gov, and the bodies of their responses
-- (example/weather/services/forecaster/clients/weathergov/client.go).
use clue.Base.{
  ℕ, zero, suc, ◌≤◌, ◌≡◌, refl, subst, inl, inr, true, Bool-cases, List, [], ◌∷◌, ◌++◌, ◌==◌,
  ==_iff, arith,
}
use clue.Weather.Net.{
  Request, Answer, failed, responded, Event, sent, slept, closed, Net, Outcome, returned, error,
  panicked, Http, record_event, close_body, accept, answered,
}
use clue.Weather.Net.Counts.{
  one, sends, Received, opens-append, closes-append, sends-append, Received-append, Balanced,
  accept-Sends, Sends,
}
use clue.Weather.Weathergov.{words, retry, do_with_retries}

-- A body that is returned came with the status 200.
abbrev pub IsAccepted : {W C : Type 0} → Net W C × Outcome ℕ → Type 0
IsAccepted (st, returned body) = Received 200 body st.events
IsAccepted (st, error err) = Unit
IsAccepted (st, panicked) = Unit

module _ {W C : Type 0} (http : Http W C) (x : ℕ) where
  accept-IsAccepted :
      (status body : ℕ) (st : Net W C)
      → Received status body st.events
      → IsAccepted (accept http words status body st)
  accept-IsAccepted status body st h = elim (Bool-cases (status == 200)) [
    | inl e ↦ rw e (subst (λ s. Received s body st.events) ((==_iff status 200).0 e) h)
    | inr e ↦ rw e tt
  ]

  after_request :
      (req : Request C) (n before : ℕ) (st st' : Net W C) (w : W) (answer : Answer)
      (next : ℕ → ℕ → Net W C → Net W C × Outcome ℕ)
      → Balanced x st st' before 0
      → sends st'.events ≤ sends st.events
      → ((status body : ℕ) (st'' : Net W C)
          → Received status body st''.events
          → Sends x n st'' (one (body == x)) (next status body st'')
            × IsAccepted (next status body st''))
      → let st'' : Net W C = record { world = w; events = st'.events ++ sent req answer ∷ [] } in
        Sends x (suc n) st before (answered next st'' answer)
        × IsAccepted (answered next st'' answer)
  after_request req n before st st' w (failed err) next bal few h =
      let es = sent req (failed err) ∷ [] in
      (
        (
          omega (arith, bal, opens-append x st'.events es, closes-append x st'.events es),
          omega (arith, few, sends-append st'.events es),
        ),
        tt,
      )
  after_request req n before st st' w (responded status body) next bal few h =
      let es = sent req (responded status body) ∷ [] in
      let st'' : Net W C = record { world = w; events = st'.events ++ es } in
      let ((bal', few'), accepted) =
        h status body st'' (Received-append status body st'.events es (inr (inl (refl, refl)))) in
      (
        (
          omega (arith, bal, bal', opens-append x st'.events es, closes-append x st'.events es),
          omega (arith, few, few', sends-append st'.events es),
        ),
        accepted,
      )

  retry_lem :
      (left : ℕ) (req : Request C) (status body : ℕ) (st : Net W C)
      → Received status body st.events
      → Sends x left st (one (body == x)) (retry http left req status body st)
        × IsAccepted (retry http left req status body st)
  unfolding retry
  retry_lem zero req status body st h =
      (accept-Sends http x words status body 0 st, accept-IsAccepted status body st h)
  retry_lem (suc left) req status body st h = elim (Bool-cases (status == 200)) [
    | inl e ↦ rw (e, retry) (by_accept e)
    | inr e ↦
        let st' = record_event slept (close_body body st) in
        let es : List (Event C) = closed body ∷ [] in
        let fs : List (Event C) = slept ∷ [] in
        rw (e, retry)
          (after_request req left (one (body == x)) st st' (http.send st'.world req).0
            (http.send st'.world req).1 (retry http left req)
            (omega (
              arith,
              opens-append x st.events es,
              closes-append x st.events es,
              opens-append x (st.events ++ es) fs,
              closes-append x (st.events ++ es) fs,
            ))
            (omega (arith, sends-append st.events es, sends-append (st.events ++ es) fs))
            (λ status' body' st'' h'. retry_lem left req status' body' st'' h'))
  ]
    where
      by_accept :
          status == 200 ≡ true
          → Sends x (suc left) st (one (body == x)) (accept http words status body st)
            × IsAccepted (accept http words status body st)
      by_accept e =
          (accept-Sends http x words status body (suc left) st, accept-IsAccepted status body st h)

-- `doWithRetries` ends: it sends at most 11 requests. Of each body that it receives, the one that it
-- returns is open, and came with the status 200; every other has been closed, once.
pub do_with_retries_lem :
    {W C : Type 0} (http : Http W C) (x : ℕ) (ctx : C) (req : Request C) (st : Net W C)
    → Sends x 11 st 0 (do_with_retries http ctx req st)
      × IsAccepted (do_with_retries http ctx req st)
unfolding do_with_retries
do_with_retries_lem http x ctx req st =
    let req' = record req { context = ctx } in
    after_request http x req' 10 0 st st (http.send st.world req').0 (http.send st.world req').1
      (retry http 10 req) (omega arith) (omega arith)
      (λ status body st' h. retry_lem http x 10 req status body st' h)
