-- ===== src/Weather/Weathergov.antt =====
-- The client of Weather.gov (example/weather/services/forecaster/clients/weathergov/client.go). `F` is
-- the type of the floating-point numbers; their text and the decoding of JSON are parameters.
pub mod Retries
pub mod Bodies
use clue.Base.{
  ℕ, zero, suc, true, false, String, Option, none, some, List, [], ◌∷◌, ◌++◌, Bytes, codes, map,
  ◌⊎◌, inl, inr, ◌==◌,
}
use clue.Base.Int.{ℤ}
use clue.Weather.Net.{
  Request, Answer, failed, responded, slept, Net, Outcome, returned, error, panicked, Http,
  record_event, close_body, send_request, accept, answered, with_body,
}

pub record Location (F : Type 0) : Type 0 where
  pub lat : F
  pub long : F
  pub city : String
  pub state : String

pub record Period : Type 0 where
  pub name : String
  pub start_time : String
  pub end_time : String
  pub temperature : ℤ
  pub temperature_unit : String
  pub summary : String

-- `Forecast`
pub record LocalForecast (F : Type 0) : Type 0 where
  pub location : Location F
  pub periods : List Period

-- `point`, and the periods of `forecast`.
pub record Point : Type 0 where
  pub forecast_url : Bytes
  pub city : String
  pub state : String

pub record ApiPeriod : Type 0 where
  pub name : String
  pub start_time : String
  pub end_time : String
  pub temperature : ℤ
  pub temperature_unit : String
  pub short_forecast : String

abbrev pub base_url : Bytes
base_url = codes "https://api.weather.gov"

abbrev pub to_period : ApiPeriod → Period
to_period p = record {
  name = p.name;
  start_time = p.start_time;
  end_time = p.end_time;
  temperature = p.temperature;
  temperature_unit = p.temperature_unit;
  summary = p.short_forecast;
}

-- `toPeriods`
abbrev pub to_periods : List ApiPeriod → List Period
to_periods ps = map to_period ps

abbrev pub words : Bytes
words = codes "unexpected response status code "

module _ {W C : Type 0} (http : Http W C) where
  -- The loop of `doWithRetries` and what is behind it, with the retries that are left; a retry sends the
  -- request with the context that it was made with.
  unfoldable pub retry : ℕ → Request C → ℕ → ℕ → Net W C → Net W C × Outcome ℕ
  retry zero req status body st = accept http words status body st
  retry (suc left) req status body st = elim (status == 200) [
    | true ↦ accept http words status body st
    | false ↦
        let (st', answer) = send_request http req (record_event slept (close_body body st)) in
        answered (retry left req) st' answer
  ]

  -- `doWithRetries`
  unfoldable pub do_with_retries : C → Request C → Net W C → Net W C × Outcome ℕ
  do_with_retries ctx req st =
      let (st', answer) = send_request http (record req { context = ctx }) st in
      answered (retry 10 req) st' answer

  -- A request that http.NewRequest makes, and the nil pointer if its error is ignored.
  abbrev pub send_to : Bytes → C → C → Net W C → Net W C × Outcome ℕ
  send_to url own ctx st = elim (http.url_error url) [
    | some err ↦ (st, panicked)
    | none ↦ do_with_retries ctx (record { url = url; context = own }) st
  ]

  module _ {F : Type 0} (float_text : F → Bytes) where
    abbrev pub point_url : F → F → Bytes
    point_url lat long =
        base_url ++ (codes "/points/" ++ (float_text lat ++ (codes "," ++ float_text long)))

    -- `Ping`, at the numbers 34.4239263 and -119.7068831.
    unfoldable pub ping : F → F → C → Net W C → Net W C × Outcome Unit
    ping lat long ctx st =
        with_body http (send_to (point_url lat long) ctx ctx st) (λ body st'. (st', returned tt))

    module _ (decode_point : W → ℕ → W × (Bytes ⊎ Point))
        (decode_periods : W → ℕ → W × (Bytes ⊎ List ApiPeriod)) (quote : Bytes → Bytes) where
      abbrev pub forecast_at :
          F → F → Point → Net W C → Bytes ⊎ List ApiPeriod → Net W C × Outcome (LocalForecast F)
      forecast_at lat long p st (inl err) = (st, error err)
      forecast_at lat long p st (inr periods) = (
        st,
        returned (record {
          location = record { lat = lat; long = long; city = p.city; state = p.state };
          periods = to_periods periods;
        }),
      )

      abbrev pub from_point :
          F → F → C → Net W C → Bytes ⊎ Point → Net W C × Outcome (LocalForecast F)
      from_point lat long ctx st (inl err) = (st, error err)
      from_point lat long ctx st (inr p) = elim (http.url_error p.forecast_url) [
        | some err ↦ (
          st,
          error (
              codes "failed to parse forecastURL "
              ++ (quote p.forecast_url ++ (codes ": " ++ err))),
        )
        | none ↦
            with_body http
              (do_with_retries ctx (record { url = p.forecast_url; context = http.background }) st)
              (λ body st'.
                let (w, decoded) = decode_periods st'.world body in
                forecast_at lat long p (record st' { world = w }) decoded)
      ]

      -- `GetForecast`
      unfoldable pub get_forecast : C → F → F → Net W C → Net W C × Outcome (LocalForecast F)
      get_forecast ctx lat long st =
          with_body http (send_to (point_url lat long) http.background ctx st) (λ body st'.
            let (w, decoded) = decode_point st'.world body in
            from_point lat long ctx (record st' { world = w }) decoded)
