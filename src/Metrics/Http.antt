-- ===== src/Metrics/Http.antt =====
-- The HTTP middleware of metrics/http.go. Regular expressions are the library's. The details of the
-- endpoints are values here: that HTTP replaces their patterns in the caller's slice is left out.
use clue.Base.{
  ◌>>=◌, ℕ, ◌/◌, Bool, Option, none, some, List, [], ◌∷◌, ◌++◌, map, Bytes, codes, insert,
  if◌then◌else◌,
}
use clue.Base.Int.{decimal}
use clue.Metrics.Registry.{
  Labels, Desc, number, Effect, touches, adds, subtracts, observes, HttpMetrics, Meters, Context,
  effect, http_metrics,
}
use clue.Metrics.Length.{Body, Serving, LengthReader, new_length_reader}

-- `HTTPEndpointDetails`
pub record HttpEndpointDetails : Type 0 where
  pub path : Bytes
  pub verb : Bytes

-- `InitMetricDetails`
pub record InitMetricDetails : Type 0 where
  pub endpoint_details : List HttpEndpointDetails
  pub host : Bytes
  pub status_codes : List Bytes

-- A request: what it says, its body, and the address under `ctxReqLen` of its context.
pub record Request (R B : Type 0) : Type 0 where
  pub info : R
  pub body : B
  pub ctx : Option ℕ

-- How a handler ends: it returns, or panics.
pub data Outcome (A : Type 0) : Type 0 where
  returned : A → Outcome A
  panicked : Outcome A

-- The status code and the content length that middleware.CaptureResponse has captured.
pub record Response : Type 0 where
  pub status_code : ℕ
  pub content_length : ℕ

abbrev pub HttpHandler : Type 0 → Type 0 → Type 0 → Type 0
HttpHandler R W B = Serving R W → Request R B → Serving R W × Outcome Response

module _ {R W : Type 0} where
  abbrev pub metered : Serving R W → Effect → Serving R W
  metered st e = record st { meters = effect st.meters e }

abbrev pub init_labels : HttpEndpointDetails → Bytes → Bytes → Labels
init_labels detail host code =
    insert "http_verb" detail.verb
      (insert "http_path" detail.path (insert "http_host" host (insert "http_status_code" code [])))

module _ {R : Type 0} where
  abbrev pub init_codes :
      HttpMetrics → Bytes → HttpEndpointDetails → List Bytes → Meters R → Meters R
  init_codes metrics host detail [] st = st
  init_codes metrics host detail (code ∷ more) st =
      init_codes metrics host detail more
        (effect st (touches metrics.durations (init_labels detail host code)))

  abbrev pub init_details :
      HttpMetrics → InitMetricDetails → List HttpEndpointDetails → Meters R → Meters R
  init_details metrics init [] st = st
  init_details metrics init (detail ∷ details) st =
      init_details metrics init details (init_codes metrics init.host detail init.status_codes st)

  -- `initMetrics`
  abbrev pub init_metrics : HttpMetrics → Option InitMetricDetails → Meters R → Meters R
  init_metrics metrics none st = st
  init_metrics metrics (some init) st = init_details metrics init init.endpoint_details st

-- `findMatchingPattern`; `compile` is regexp.Compile, whose error is none, with `MatchString`.
abbrev pub find_matching_pattern :
    (Bytes → Option (Bytes → Bool)) → Bytes → List HttpEndpointDetails → Option Bytes
find_matching_pattern compile path [] = some []
find_matching_pattern compile path (dtl ∷ dtls) =
    elim (compile (codes "^" ++ (dtl.path ++ codes "$"))) [
      | none ↦ none
      | some regex ↦ if regex path then some dtl.path else find_matching_pattern compile path dtls
    ]

-- The labels with the path replaced by the pattern that was found, if any.
abbrev pub with_pattern : Labels → Option Bytes → Labels
with_pattern labels none = labels
with_pattern labels (some []) = labels
with_pattern labels (some (c ∷ cs)) = insert "http_path" (c ∷ cs) labels

-- `replace_all` is wildSeg.ReplaceAllString.
abbrev pub replace_path_with_pattern : (Bytes → Bytes → Bytes) → Bytes → Bytes
replace_path_with_pattern replace_all path = replace_all path (codes "/[a-zA-Z0-9-_]+")

abbrev pub replace_path : (Bytes → Bytes → Bytes) → HttpEndpointDetails → HttpEndpointDetails
replace_path replace_all detail = record detail {
  path = replace_path_with_pattern replace_all detail.path;
}

-- What the middleware takes from its environment: the fields of a request, regular expressions, and
-- the clock, which gives nanoseconds.
pub record Platform (R W : Type 0) : Type 0 where
  pub method : R → Bytes
  pub host : R → Bytes
  pub url_path : R → Bytes
  pub compile : Bytes → Option (Bytes → Bool)
  pub replace_all : Bytes → Bytes → Bytes
  pub now : W → ℕ
  pub time_since : W → ℕ → ℕ

module _ {R W : Type 0} (platform : Platform R W) where
  abbrev pub route_of : Option (R → Bytes) → R → Bytes
  route_of (some resolver) req = resolver req
  route_of none req = platform.url_path req

  abbrev pub active_labels : Bytes → R → Labels
  active_labels route req =
      insert "http_verb" (platform.method req)
        (insert "http_host" (platform.host req) (insert "http_path" route []))

  abbrev pub final_labels : List HttpEndpointDetails → Bytes → R → Response → Labels
  final_labels details route req captured =
      with_pattern
        (insert "http_status_code" (decimal captured.status_code) (active_labels route req))
        (find_matching_pattern platform.compile route details)

  -- The observations of a request that was served.
  abbrev pub observe_http : HttpMetrics → Labels → ℕ → ℕ → Response → Serving R W → Serving R W
  observe_http metrics labels start l captured st =
      let st1 = metered st (
        observes metrics.durations labels
          (number (platform.time_since st.world start / 1000000))) in
      let st2 = metered st1 (observes metrics.request_sizes labels (number (st1.lengths l))) in
      metered st2 (observes metrics.response_sizes labels (number captured.content_length))

  abbrev pub serve_http :
      HttpMetrics
      → Option (R → Bytes)
      → List HttpEndpointDetails
      → HttpHandler R W (LengthReader W)
      → HttpHandler R W (Body W)
  serve_http metrics resolver details h st req =
      let route = route_of resolver req.info in
      let labels = active_labels route req.info in
      let st1 = metered st (adds metrics.active_requests labels) in
      let start = platform.now st1.world in
      let (st2, body) = new_length_reader st1 req.body in
      let (st3, outcome) = h st2 (record { info = req.info; body = body; ctx = some body.ctx }) in
      elim outcome [
        | panicked ↦ (metered st3 (subtracts metrics.active_requests labels), panicked)
        | returned captured ↦ (
          metered
              (observe_http metrics (final_labels details route req.info captured) start body.ctx
                captured st3)
              (subtracts metrics.active_requests labels),
          returned captured,
        )
      ]

  -- `HTTP`; none is a panic: without `Context`, without details, or of the registerer.
  abbrev pub http :
      (ℕ → List Effect → Desc → Bool)
      → Meters R
      → Context
      → Option InitMetricDetails
      → Option (Meters R × (HttpHandler R W (LengthReader W) → HttpHandler R W (Body W)))
  http accepts st none details = none
  http accepts st (some b) details = do
    made ← http_metrics accepts st b
    init ← details
    let metrics = made.1
    let replaced = map (replace_path platform.replace_all) init.endpoint_details
    some (
      init_metrics metrics (some (record init { endpoint_details = replaced })) made.0,
      serve_http metrics ((st.bags b).options.resolver) replaced,
    )
