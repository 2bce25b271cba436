-- ===== src/Metrics/Options.antt =====
-- The options of the package metrics (metrics/options.go).
use clue.Base.{apply_all, ℕ, Bytes, Option, none, some, List, [], ◌∷◌}

-- `options`; `R` is the type of requests, and the registerer a handle.
pub record Options (R : Type 0) : Type 0 where
  pub duration_buckets : List ℕ
  pub request_size_buckets : List ℕ
  pub response_size_buckets : List ℕ
  pub registerer : ℕ
  pub resolver : Option (R → Bytes)

abbrev pub default_duration_buckets : List ℕ
default_duration_buckets = 10 ∷ 25 ∷ 50 ∷ 100 ∷ 250 ∷ 500 ∷ 1000 ∷ 2500 ∷ 5000 ∷ 10000 ∷ []

abbrev pub default_request_size_buckets : List ℕ
default_request_size_buckets =
    10 ∷ 100 ∷ 500 ∷ 1000 ∷ 5000 ∷ 10000 ∷ 50000 ∷ 100000 ∷ 1000000 ∷ 10000000 ∷ []

abbrev pub default_response_size_buckets : List ℕ
default_response_size_buckets =
    10 ∷ 100 ∷ 500 ∷ 1000 ∷ 5000 ∷ 10000 ∷ 50000 ∷ 100000 ∷ 1000000 ∷ 10000000 ∷ []

module _ {R : Type 0} where
  -- `defaultOptions`, given prometheus.DefaultRegisterer.
  abbrev pub default_options : ℕ → Options R
  default_options registerer = record {
    duration_buckets = default_duration_buckets;
    request_size_buckets = default_request_size_buckets;
    response_size_buckets = default_response_size_buckets;
    registerer = registerer;
    resolver = none;
  }

  abbrev pub with_route_resolver : (R → Bytes) → Options R → Options R
  with_route_resolver resolver o = record o { resolver = some resolver }

  abbrev pub with_duration_buckets : List ℕ → Options R → Options R
  with_duration_buckets buckets o = record o { duration_buckets = buckets }

  abbrev pub with_request_size_buckets : List ℕ → Options R → Options R
  with_request_size_buckets buckets o = record o { request_size_buckets = buckets }

  abbrev pub with_response_size_buckets : List ℕ → Options R → Options R
  with_response_size_buckets buckets o = record o { response_size_buckets = buckets }

  abbrev pub with_registerer : ℕ → Options R → Options R
  with_registerer registerer o = record o { registerer = registerer }

  abbrev pub apply_options : Options R → List (Options R → Options R) → Options R
  apply_options o opts = apply_all o opts
