-- ===== src/Weather/Tests.antt =====
-- The weather example on web services that answer the status 503 at first. A world counts requests.
use clue.Base.{ℕ, suc, ◌≡◌, refl, none, [], ◌∷◌, Bytes, codes, ◌⊎◌, inr, ltb, if◌then◌else◌}
use clue.Weather.Net.{Request, responded, Net, returned, Http}
use clue.Weather.Net.Counts.{Sends}
use clue.Weather.Weathergov.{retry, do_with_retries}
use clue.Weather.Weathergov.Retries.{IsAccepted, do_with_retries_lem}
use clue.Weather.Ipapi.{WorldLocation, Client, get_location, get_locations, fetch_location}
use clue.Weather.Ipapi.Cache.{get_location_again}
use clue.Weather.Front.Forecasts.{WebServices}

-- The first two requests are answered by the status 503; bodies are numbered.
abbrev http : Http ℕ ℕ
http = record {
  send = λ n req. (suc n, responded (if ltb n 2 then 503 else 200) n);
  read_all = λ n body. (n, none);
  url_error = λ url. none;
  background = 0;
}

abbrev new_net : Net ℕ ℕ
new_net = record { world = 0; events = [] }

abbrev request : Request ℕ
request = record { url = codes "https://api.weather.gov/points/34,-119"; context = 0 }

retries_test : (do_with_retries http 7 request new_net).1 ≡ returned 2
unfolding do_with_retries retry
retries_test = refl

do_with_retries_lem_example :
    Sends 2 11 new_net 0 (do_with_retries http 7 request new_net)
    × IsAccepted (do_with_retries http 7 request new_net)
do_with_retries_lem_example = do_with_retries_lem http 2 7 request new_net

abbrev here : WorldLocation ℕ
here = record {
  lat = 34;
  long = 119;
  city = "Santa Barbara";
  region = "CA";
  country = "United States";
}

abbrev decode_location : ℕ → ℕ → ℕ × (Bytes ⊎ WorldLocation ℕ)
decode_location n body = (n, inr here)

-- A client whose web service is behind the first two requests.
abbrev client : Client ℕ ℕ ℕ
client = record { net = record { world = 2; events = [] }; cache = [] }

location_test : (get_location http (λ t. t) decode_location 0 "10.0.0.1" client).1 ≡ returned here
unfolding get_location fetch_location
location_test = refl

get_location_again_example :
    let later =
      get_locations http
        (λ t. t)
        decode_location
        ((3, "10.0.0.2") ∷ [])
        (get_location http (λ t. t) decode_location 0 "10.0.0.1" client).0 in
    get_location http (λ t. t) decode_location 5 "10.0.0.1" later ≡ (later, returned here)
get_location_again_example =
    get_location_again http (λ t. t) decode_location 0 5 "10.0.0.1" client here
      ((3, "10.0.0.2") ∷ []) location_test

abbrev web : WebServices ℕ ℕ ℕ
web = record {
  http = http;
  quote = λ t. t;
  decode_location = decode_location;
  float_text = λ n. codes "34";
  decode_point = λ n body. (
    n,
    inr (record {
      forecast_url = codes "https://api.weather.gov/forecast";
      city = "Goleta";
      state = "CA";
    }),
  );
  decode_periods = λ n body. (n, inr []);
}
