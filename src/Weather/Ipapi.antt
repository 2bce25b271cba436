-- ===== src/Weather/Ipapi.antt =====
-- The client of ip-api.com (example/weather/services/locator/clients/ipapi/client.go), with its cache.
-- `F` is the type of the floating-point numbers; the decoding of JSON and %q are parameters.
pub mod Cache
use clue.Base.{
  ℕ, String, Option, none, some, List, [], ◌∷◌, ◌++◌, Bytes, codes, ◌⊎◌, inl, inr, lookup, insert,
}
use clue.Weather.Net.{
  Request, Net, Outcome, returned, error, panicked, Http, send_request, accept, answered, with_body,
}

pub record WorldLocation (F : Type 0) : Type 0 where
  pub lat : F
  pub long : F
  pub city : String
  pub region : String
  pub country : String

pub record Client (W C F : Type 0) : Type 0 where
  pub net : Net W C
  pub cache : List (String × WorldLocation F)

abbrev pub base_url : Bytes
base_url = codes "http://ip-api.com/json"

module _ {W C : Type 0} (http : Http W C) (quote : Bytes → Bytes) where
  -- `getLocation`
  unfoldable pub fetch_location : C → String → Net W C → Net W C × Outcome ℕ
  fetch_location ctx ip st =
      let url = base_url ++ (codes "/" ++ codes ip) in
      elim (http.url_error url) [
        | some err ↦ (st, error (codes "invalid IP address " ++ quote (codes ip)))
        | none ↦
            let (st', answer) = send_request http (record { url = url; context = ctx }) st in
            answered (accept http (codes "unexpected status code: ")) st' answer
      ]

  -- `Ping`
  unfoldable pub ping : C → Net W C → Net W C × Outcome Unit
  ping ctx st = with_body http (fetch_location ctx "" st) (λ body st'. (st', returned tt))

  module _ {F : Type 0} (decode : W → ℕ → W × (Bytes ⊎ WorldLocation F)) where
    abbrev pub decoded : Net W C → Bytes ⊎ WorldLocation F → Net W C × Outcome (WorldLocation F)
    decoded st (inl err) = (st, error err)
    decoded st (inr l) = (st, returned l)

    -- c.cache[ip] = &l
    abbrev pub cached :
        String
        → Client W C F
        → Net W C × Outcome (WorldLocation F)
        → Client W C F × Outcome (WorldLocation F)
    cached ip c (st, returned l) = (record { net = st; cache = insert ip l c.cache }, returned l)
    cached ip c (st, error err) = (record c { net = st }, error err)
    cached ip c (st, panicked) = (record c { net = st }, panicked)

    abbrev pub located :
        C
        → String
        → Client W C F
        → Option (WorldLocation F)
        → Client W C F × Outcome (WorldLocation F)
    located ctx ip c (some l) = (c, returned l)
    located ctx ip c none = cached ip c (
        with_body http (fetch_location ctx ip c.net) (λ body st.
          let (w, answer) = decode st.world body in decoded (record st { world = w }) answer))

    -- `GetLocation`
    unfoldable pub get_location :
        C → String → Client W C F → Client W C F × Outcome (WorldLocation F)
    get_location ctx ip c = located ctx ip c (lookup ip c.cache)

    -- Any calls of `GetLocation`.
    unfoldable pub get_locations : List (C × String) → Client W C F → Client W C F
    get_locations [] c = c
    get_locations ((ctx, ip) ∷ calls) c = get_locations calls (get_location ctx ip c).0
