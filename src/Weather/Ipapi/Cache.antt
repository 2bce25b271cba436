-- ===== src/Weather/Ipapi/Cache.antt =====
-- That the client of ip-api.com asks once for an address, and closes the bodies
-- (example/weather/services/locator/clients/ipapi/client.go).
use clue.Base.{
  ℕ, ◌≡◌, ◌⊎◌, refl, ap, ◌∙◌, subst, inl, inr, Bool-cases, String, Option, Option-cases, none, some,
  List, [], ◌∷◌, ◌++◌, Bytes, codes, str_eq, eq_iff, eq_refl, lookup, lookup-insert, arith,
}
use clue.Weather.Net.{
  Request, Answer, failed, responded, Event, sent, Net, Outcome, returned, error, panicked, Http,
  accept, answered,
}
use clue.Weather.Net.Counts.{
  opens-append, closes-append, sends-append, accept-Sends, Sends, Clean, with_body-Clean,
}
use clue.Weather.Ipapi.{
  WorldLocation, Client, base_url, fetch_location, decoded, cached, located, get_location,
  get_locations,
}

error-returned : {A : Type 0} {err : Bytes} {a : A} → error err ≡ returned a → ⊥
error-returned e = ground (arith, e)

panicked-returned : {A : Type 0} {a : A} → panicked ≡ returned a → ⊥
panicked-returned e = ground (arith, e)

-- What an outcome returns.
abbrev result_or : {A : Type 0} → A → Outcome A → A
result_or a (returned b) = b
result_or a (error err) = a
result_or a panicked = a

module _ {W C F : Type 0} (http : Http W C) (quote : Bytes → Bytes)
    (decode : W → ℕ → W × (Bytes ⊎ WorldLocation F)) where
  -- A location that is in the cache stays there.
  cached_keeps :
      (ip other : String) (l : WorldLocation F) (c : Client W C F)
      (out : Net W C × Outcome (WorldLocation F))
      → lookup ip c.cache ≡ some l
      → lookup other c.cache ≡ none
      → lookup ip (cached http quote decode other c out).0.cache ≡ some l
  cached_keeps ip other l c (st, returned l') e e' =
      let apart : other ≡ ip → ⊥ = λ same.
        let clash = subst (λ k. lookup k c.cache ≡ none) same e' in ground (arith, e, clash) in
      lookup-insert other ip l' c.cache ∙ elim (Bool-cases (str_eq other ip)) [
        | inl same ↦ absurd (apart ((eq_iff other ip).0 same))
        | inr differs ↦ rw differs e
      ]
  cached_keeps ip other l c (st, error err) e e' = e
  cached_keeps ip other l c (st, panicked) e e' = e

  get_location_keeps :
      (ip other : String) (l : WorldLocation F) (ctx : C) (c : Client W C F)
      → lookup ip c.cache ≡ some l
      → lookup ip (get_location http quote decode ctx other c).0.cache ≡ some l
  unfolding get_location
  get_location_keeps ip other l ctx c e = by_lookup (lookup other c.cache) refl
    where
      by_lookup :
          (o : Option (WorldLocation F))
          → lookup other c.cache ≡ o
          → lookup ip (located http quote decode ctx other c o).0.cache ≡ some l
      by_lookup (some l') e' = e
      by_lookup none e' = cached_keeps ip other l c _ e e'

  get_locations_keep :
      (calls : List (C × String)) (ip : String) (l : WorldLocation F) (c : Client W C F)
      → lookup ip c.cache ≡ some l
      → lookup ip (get_locations http quote decode calls c).cache ≡ some l
  unfolding get_locations
  get_locations_keep [] ip l c e = e
  get_locations_keep ((ctx, other) ∷ calls) ip l c e =
      get_locations_keep calls ip l (get_location http quote decode ctx other c).0
        (get_location_keeps ip other l ctx c e)

  pub returned_is_cached :
      (ctx : C) (ip : String) (c : Client W C F) (l : WorldLocation F)
      → (get_location http quote decode ctx ip c).1 ≡ returned l
      → lookup ip (get_location http quote decode ctx ip c).0.cache ≡ some l
  unfolding get_location
  returned_is_cached ctx ip c l h = by_lookup (lookup ip c.cache) refl h
    where
      stored :
          (out : Net W C × Outcome (WorldLocation F))
          → (cached http quote decode ip c out).1 ≡ returned l
          → lookup ip (cached http quote decode ip c out).0.cache ≡ some l
      stored (st, returned l') e =
          let same : l' ≡ l = ap (result_or l') e in
          lookup-insert ip ip l' c.cache ∙ rw (eq_refl ip) (ap some same)
      stored (st, error err) e = absurd (error-returned e)
      stored (st, panicked) e = absurd (panicked-returned e)

      by_lookup :
          (o : Option (WorldLocation F))
          → lookup ip c.cache ≡ o
          → (located http quote decode ctx ip c o).1 ≡ returned l
          → lookup ip (located http quote decode ctx ip c o).0.cache ≡ some l
      by_lookup (some l') e e' = e ∙ ap some (ap (result_or l') e')
      by_lookup none e e' = stored _ e'

  -- A location that `GetLocation` returned for an address is returned again for it, whatever addresses
  -- have been asked for since, without a request and with no change of the client.
  pub get_location_again :
      (ctx ctx' : C) (ip : String) (c : Client W C F) (l : WorldLocation F)
      (calls : List (C × String))
      → (get_location http quote decode ctx ip c).1 ≡ returned l
      → let later =
          get_locations http quote decode calls (get_location http quote decode ctx ip c).0 in
        get_location http quote decode ctx' ip later ≡ (later, returned l)
  unfolding get_location
  get_location_again ctx ctx' ip c l calls h =
      let found =
        get_locations_keep calls ip l (get_location http quote decode ctx ip c).0
          (returned_is_cached ctx ip c l h) in
      let later =
        get_locations http quote decode calls (get_location http quote decode ctx ip c).0 in
      ap (located http quote decode ctx' ip later) found

  module _ (x : ℕ) where
    fetch_location-Sends :
        (ctx : C) (ip : String) (st : Net W C)
        → Sends x 1 st 0 (fetch_location http quote ctx ip st)
    unfolding fetch_location
    fetch_location-Sends ctx ip st = elim (Option-cases (http.url_error url)) [
      | inr (err, e) ↦ rw (e, fetch_location) (omega arith, omega arith)
      | inl e ↦
          rw (e, fetch_location) (on_answer (http.send st.world req).0 (http.send st.world req).1)
    ]
      where
        url : Bytes
        url = base_url ++ (codes "/" ++ codes ip)

        req : Request C
        req = record { url = url; context = ctx }

        on_answer :
            (w : W) (answer : Answer)
            → Sends x 1 st 0 (
                answered
                  (accept http (codes "unexpected status code: "))
                  (record { world = w; events = st.events ++ sent req answer ∷ [] })
                  answer)
        on_answer w (failed err) =
            let es : List (Event C) = sent req (failed err) ∷ [] in
            (
              omega (arith, opens-append x st.events es, closes-append x st.events es),
              omega (arith, sends-append st.events es),
            )
        on_answer w (responded status body) =
            let es : List (Event C) = sent req (responded status body) ∷ [] in
            let st' : Net W C = record { world = w; events = st.events ++ es } in
            let (bal, few) =
              accept-Sends http x (codes "unexpected status code: ") status body 0 st' in
            (
              omega (arith, bal, opens-append x st.events es, closes-append x st.events es),
              omega (arith, few, sends-append st.events es),
            )

    pub get_location-Clean :
        (ctx : C) (ip : String) (c : Client W C F)
        → Clean x 1 c.net (get_location http quote decode ctx ip c).0.net
    unfolding get_location
    get_location-Clean ctx ip c = by_lookup (lookup ip c.cache)
      where
        kept :
            (out : Net W C × Outcome (WorldLocation F))
            → Clean x 1 c.net out.0
            → Clean x 1 c.net (cached http quote decode ip c out).0.net
        kept (st, returned l) h = h
        kept (st, error err) h = h
        kept (st, panicked) h = h

        decoded-Clean :
            (st : Net W C) (d : Bytes ⊎ WorldLocation F)
            → Clean x 0 st (decoded http quote decode st d).0
        decoded-Clean st (inl err) = (omega arith, omega arith)
        decoded-Clean st (inr l) = (omega arith, omega arith)

        by_lookup :
            (o : Option (WorldLocation F))
            → Clean x 1 c.net (located http quote decode ctx ip c o).0.net
        by_lookup (some l) = (omega arith, omega arith)
        by_lookup none = kept _ (
            with_body-Clean http x 1 0 c.net (fetch_location http quote ctx ip c.net) _
              (fetch_location-Sends ctx ip c.net)
              (λ body st.
                decoded-Clean (record st { world = (decode st.world body).0 })
                  (decode st.world body).1))
