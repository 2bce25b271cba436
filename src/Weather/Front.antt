-- ===== src/Weather/Front.antt =====
-- The services locator, forecaster and front, and front's clients of the other two
-- (example/weather/services/locator/locator.go, forecaster/forecast.go, front/front.go and
-- front/clients). An endpoint is a function; what carries a call of it is the library's and generated.
pub mod Forecasts
use clue.Base.{String, Bool, List, [], ◌∷◌, ◌++◌, Bytes, codes, map, str_eq, if◌then◌else◌}
use clue.Weather.Net.{Net, Outcome, returned, error, panicked}
use clue.Weather.Weathergov.{Location, Period, LocalForecast}
use clue.Weather.Ipapi.{WorldLocation, Client}

-- The conversions between the types of the services, which have the same fields.
abbrev pub same_location : {F : Type 0} → WorldLocation F → WorldLocation F
same_location l = record {
  lat = l.lat;
  long = l.long;
  city = l.city;
  region = l.region;
  country = l.country;
}

abbrev pub same_period : Period → Period
same_period p = record {
  name = p.name;
  start_time = p.start_time;
  end_time = p.end_time;
  temperature = p.temperature;
  temperature_unit = p.temperature_unit;
  summary = p.summary;
}

abbrev pub same_forecast : {F : Type 0} → LocalForecast F → LocalForecast F
same_forecast f = record {
  location = record {
    lat = f.location.lat;
    long = f.location.long;
    city = f.location.city;
    state = f.location.state;
  };
  periods = map same_period f.periods;
}

-- if err != nil { return nil, err }, or else a conversion
abbrev pub converted : {S A B : Type 0} → (A → B) → S × Outcome A → S × Outcome B
converted f (s, returned a) = (s, returned (f a))
converted f (s, error err) = (s, error err)
converted f (s, panicked) = (s, panicked)

module _ {S C F : Type 0} where
  -- `GetLocation` of the locator, given the client's; and of front's client, given the endpoint.
  abbrev pub locate :
      (C → String → S → S × Outcome (WorldLocation F))
      → C
      → String
      → S
      → S × Outcome (WorldLocation F)
  locate get_location ctx ip s = converted same_location (get_location ctx ip s)

  -- `Forecast` of the forecaster, given the client's; and `GetForecast` of front's client.
  abbrev pub local_forecast :
      (C → F → F → S → S × Outcome (LocalForecast F))
      → C
      → F
      → F
      → S
      → S × Outcome (LocalForecast F)
  local_forecast get_forecast ctx lat long s = converted same_forecast (get_forecast ctx lat long s)

-- What `Forecast` of front returns: a forecast, an error, or the error not_usa.
pub data Reply (F : Type 0) : Type 0 where
  forecasted : LocalForecast F → Reply F
  refused : Bytes → Reply F
  not_usa : Bytes → Reply F
  crashed : Reply F

module _ {S T C F : Type 0} (lc : C → String → S → S × Outcome (WorldLocation F))
    (fc : C → F → F → T → T × Outcome (LocalForecast F)) where
  abbrev pub replied : WorldLocation F → Outcome (LocalForecast F) → Reply F
  replied l (returned f) = forecasted (record {
    location = record { lat = l.lat; long = l.long; city = l.city; state = l.region };
    periods = map same_period f.periods;
  })
  replied l (error err) = refused err
  replied l panicked = crashed

  abbrev pub in_country : Bool → C → WorldLocation F → S → T → S × T × Reply F
  in_country usa ctx l s t =
      if usa
      then (let (t', out) = fc ctx l.lat l.long t in (s, t', replied l out))
      else (s, t, not_usa (codes "IP not in the US (" ++ (codes l.country ++ codes ")")))

  abbrev pub located_at : C → T → S × Outcome (WorldLocation F) → S × T × Reply F
  located_at ctx t (s, returned l) = in_country (str_eq l.country "United States") ctx l s t
  located_at ctx t (s, error err) = (s, t, refused err)
  located_at ctx t (s, panicked) = (s, t, crashed)

  -- `Forecast` of front, with the states of the two other services.
  unfoldable pub forecast : C → String → S → T → S × T × Reply F
  forecast ctx ip s t = located_at ctx t (lc ctx ip s)
