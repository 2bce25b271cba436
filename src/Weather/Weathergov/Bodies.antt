-- ===== src/Weather/Weathergov/Bodies.antt =====
-- That the client of Weather.gov closes the bodies of all responses
-- (example/weather/services/forecaster/clients/weathergov/client.go).
use clue.Base.{ℕ, ◌⊎◌, inl, inr, Option-cases, List, Bytes, arith}
use clue.Weather.Net.{Request, Net, returned, Http}
use clue.Weather.Net.Counts.{Sends, Clean, with_body-Clean}
use clue.Weather.Weathergov.{
  Point, ApiPeriod, do_with_retries, send_to, point_url, ping, forecast_at, from_point,
  get_forecast,
}
use clue.Weather.Weathergov.Retries.{do_with_retries_lem}

module _ {W C : Type 0} (http : Http W C) (x : ℕ) where
  send_to-Sends :
      (url : Bytes) (own ctx : C) (st : Net W C) → Sends x 11 st 0 (send_to http url own ctx st)
  send_to-Sends url own ctx st = elim (Option-cases (http.url_error url)) [
    | inl e ↦
        rw (e, send_to) (do_with_retries_lem http x ctx (record { url = url; context = own }) st).0
    | inr (err, e) ↦ rw (e, send_to) (omega arith, omega arith)
  ]

  module _ {F : Type 0} (float_text : F → Bytes) where
    ping-Clean :
        (lat long : F) (ctx : C) (st : Net W C)
        → Clean x 11 st (ping http float_text lat long ctx st).0
    unfolding ping
    ping-Clean lat long ctx st =
        with_body-Clean http x 11 0 st
          (send_to http (point_url http float_text lat long) ctx ctx st)
          (λ body st'. (st', returned tt))
          (send_to-Sends (point_url http float_text lat long) ctx ctx st)
          (λ body st'. (omega arith, omega arith))

    module _ (decode_point : W → ℕ → W × (Bytes ⊎ Point))
        (decode_periods : W → ℕ → W × (Bytes ⊎ List ApiPeriod)) (quote : Bytes → Bytes) where
      forecast_at-Clean :
          (lat long : F) (p : Point) (st : Net W C) (decoded : Bytes ⊎ List ApiPeriod)
          → Clean x 0 st
              (forecast_at http float_text decode_point decode_periods quote lat long p st
                decoded).0
      forecast_at-Clean lat long p st (inl err) = (omega arith, omega arith)
      forecast_at-Clean lat long p st (inr periods) = (omega arith, omega arith)

      from_point-Clean :
          (lat long : F) (ctx : C) (st : Net W C) (decoded : Bytes ⊎ Point)
          → Clean x 11 st
              (from_point http float_text decode_point decode_periods quote lat long ctx st
                decoded).0
      from_point-Clean lat long ctx st (inl err) = (omega arith, omega arith)
      from_point-Clean lat long ctx st (inr p) =
          elim (Option-cases (http.url_error p.forecast_url)) [
            | inr (err, e) ↦ rw (e, from_point) (omega arith, omega arith)
            | inl e ↦
                let req : Request C = record { url = p.forecast_url; context = http.background } in
                rw (e, from_point)
                  (with_body-Clean http x 11 0 st (do_with_retries http ctx req st) _
                    (do_with_retries_lem http x ctx req st).0
                    (λ body st'.
                      forecast_at-Clean lat long p
                        (record st' { world = (decode_periods st'.world body).0 })
                        (decode_periods st'.world body).1))
          ]

      get_forecast-Clean :
          (ctx : C) (lat long : F) (st : Net W C)
          → Clean x 22 st
              (get_forecast http float_text decode_point decode_periods quote ctx lat long st).0
      unfolding get_forecast
      get_forecast-Clean ctx lat long st =
          with_body-Clean http x 11 11 st
            (send_to http (point_url http float_text lat long) http.background ctx st) _
            (send_to-Sends (point_url http float_text lat long) http.background ctx st)
            (λ body st'.
              from_point-Clean lat long ctx (record st' { world = (decode_point st'.world body).0 })
                (decode_point st'.world body).1)

-- `GetForecast` and `Ping` close each body that they receive once, whether they end with a result, an
-- error or a panic, and send at most 22 and 11 requests.
pub calls-Clean :
    {W C F : Type 0} (http : Http W C) (float_text : F → Bytes)
    (decode_point : W → ℕ → W × (Bytes ⊎ Point))
    (decode_periods : W → ℕ → W × (Bytes ⊎ List ApiPeriod)) (quote : Bytes → Bytes) (x : ℕ)
    (ctx : C) (lat long : F) (st : Net W C)
    → Clean x 22 st
        (get_forecast http float_text decode_point decode_periods quote ctx lat long st).0
      × Clean x 11 st (ping http float_text lat long ctx st).0
calls-Clean http float_text decode_point decode_periods quote x ctx lat long st = (
  get_forecast-Clean http x float_text decode_point decode_periods quote ctx lat long st,
  ping-Clean http x float_text lat long ctx st,
)
