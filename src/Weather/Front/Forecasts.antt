-- ===== src/Weather/Front/Forecasts.antt =====
-- A forecast of front, from the web services on (example/weather/services/front/front.go).
use clue.Base.{ℕ, ◌≡◌, ◌⊎◌, false, String, some, List, Bytes, str_eq, lookup}
use clue.Weather.Net.{Net, Outcome, returned, Http}
use clue.Weather.Weathergov.{LocalForecast, Point, ApiPeriod, get_forecast}
use clue.Weather.Ipapi.{WorldLocation, Client, get_location}
use clue.Weather.Front.{locate, local_forecast, Reply, forecasted, refused, not_usa, crashed}

-- The parameters of the two clients.
pub record WebServices (W C F : Type 0) : Type 0 where
  pub http : Http W C
  pub quote : Bytes → Bytes
  pub decode_location : W → ℕ → W × (Bytes ⊎ WorldLocation F)
  pub float_text : F → Bytes
  pub decode_point : W → ℕ → W × (Bytes ⊎ Point)
  pub decode_periods : W → ℕ → W × (Bytes ⊎ List ApiPeriod)

module _ {W C F : Type 0} (web : WebServices W C F) where
  -- The services as front calls them.
  abbrev pub locator : C → String → Client W C F → Client W C F × Outcome (WorldLocation F)
  locator = locate (locate (get_location web.http web.quote web.decode_location))

  abbrev pub forecaster : C → F → F → Net W C → Net W C × Outcome (LocalForecast F)
  forecaster = local_forecast (
      local_forecast
        (get_forecast web.http web.float_text web.decode_point web.decode_periods web.quote))

  -- What a call of the weather service at a latitude and a longitude returns.
  abbrev pub asked_at : C → F → F → Net W C → Net W C × Outcome (LocalForecast F)
  asked_at = get_forecast web.http web.float_text web.decode_point web.decode_periods web.quote

  -- What a reply says of the states: a forecast is for the location that the locator has for the
  -- address, in the United States, with the periods that the weather service returns for its latitude
  -- and longitude; for an address elsewhere the forecaster has not been asked.
  abbrev pub Says : C → String → Client W C F → Net W C → Net W C → Reply F → Type 0
  Says ctx ip c t t' (forecasted f) =
      (l : WorldLocation F) × (lookup ip c.cache ≡ some l)
      × (l.country ≡ "United States")
      × (f.location ≡ record { lat = l.lat; long = l.long; city = l.city; state = l.region })
      × ((g : LocalForecast F) × (asked_at ctx l.lat l.long t ≡ (t', returned g))
          × (f.periods ≡ g.periods))
  Says ctx ip c t t' (refused err) = Unit
  Says ctx ip c t t' (not_usa err) =
      ((l : WorldLocation F) × (lookup ip c.cache ≡ some l)
        × (str_eq l.country "United States" ≡ false))
      × (t' ≡ t)
  Says ctx ip c t t' crashed = Unit
