-- ===== src/Metrics/Names.antt =====
-- The label names of all metrics (metrics/http.go, metrics/grpc.go).
pub mod Registered
pub mod Uses
use clue.Base.{
  ◌≡◌, refl, Bool, true, false, ◌&&◌, ◌==◌, String, Option, none, some, List, [], ◌∷◌, Bytes,
  length, lookup, insert,
}
use clue.Metrics.Registry.{
  Labels, http_labels, http_active_requests_labels, rpc_labels, rpc_no_code_labels,
}
use clue.Metrics.Http.{
  Response, HttpEndpointDetails, Platform as HttpPlatform, init_labels, active_labels, final_labels,
  with_pattern, find_matching_pattern,
}
use clue.Metrics.Rpc.{Platform, Peer, call_labels, code_labels}

abbrev is_some : {A : Type 0} → Option A → Bool
is_some none = false
is_some (some a) = true

abbrev all_in : List String → Labels → Bool
all_in [] labels = true
all_in (name ∷ names) labels = is_some (lookup name labels) && all_in names labels

-- The labels have values for these names and no other ones, as Prometheus' `With` demands, which
-- panics if they do not.
abbrev pub fits : List String → Labels → Bool
fits names labels = (length names == length labels) && all_in names labels

pattern_fits :
    (verb host route code : Bytes) (found : Option Bytes)
    → fits http_labels (
        with_pattern
          (insert "http_status_code" code
            (insert "http_verb" verb (insert "http_host" host (insert "http_path" route []))))
          found)
      ≡ true
pattern_fits verb host route code none = refl
pattern_fits verb host route code (some []) = refl
pattern_fits verb host route code (some (c ∷ cs)) = refl

pub call_fits :
    (full_method : Bytes) (peer : Peer)
    → fits rpc_no_code_labels (call_labels full_method peer) ≡ true
call_fits full_method none = refl
call_fits full_method (some addr) = refl

pub code_fits :
    {W M E : Type 0} (rpc : Platform W M E) (full_method : Bytes) (peer : Peer) (err : Option E)
    → fits rpc_labels (code_labels rpc (call_labels full_method peer) err) ≡ true
code_fits rpc full_method none err = refl
code_fits rpc full_method (some addr) err = refl

pub http_fits :
    {R W : Type 0} (web : HttpPlatform R W) (route : Bytes) (req : R)
    (details : List HttpEndpointDetails) (res : Response)
    → fits http_labels (final_labels web details route req res) ≡ true
http_fits web route req details res =
    pattern_fits _ _ _ _ (find_matching_pattern web.compile route details)
