-- ===== src/Metrics/Handler.antt =====
-- The handler that serves the metrics, and its logger (metrics/handler.go, metrics/logger.go).
use clue.Base.{apply_all, ℕ, Bytes, List}
use clue.Log.Memory.{Runtime}
use clue.Log.Logger.{Context, Store}
use clue.Log.Operations.{printf}

-- `handlerOptions`: registerers and gatherers are handles.
pub record HandlerOptions : Type 0 where
  pub registerer : ℕ
  pub gatherer : ℕ

abbrev pub HandlerOption : Type 0
HandlerOption = HandlerOptions → HandlerOptions

abbrev pub with_handler_registerer : ℕ → HandlerOption
with_handler_registerer registerer c = record c { registerer = registerer }

abbrev pub with_gatherer : ℕ → HandlerOption
with_gatherer gatherer c = record c { gatherer = gatherer }

-- `defaultHandlerOptions`, given the defaults of Prometheus.
abbrev pub default_handler_options : ℕ → ℕ → HandlerOptions
default_handler_options registerer gatherer = record {
  registerer = registerer;
  gatherer = gatherer;
}

abbrev pub apply_handler_options : HandlerOptions → List HandlerOption → HandlerOptions
apply_handler_options o opts = apply_all o opts

-- `Handler`, given promhttp.InstrumentMetricHandler, and promhttp.HandlerFor by the gatherer, the
-- context of the logger and the registry.
abbrev pub handler :
    {H : Type 0}
    → (ℕ → H → H)
    → (ℕ → Context → ℕ → H)
    → HandlerOptions
    → Context
    → List HandlerOption
    → H
handler instrument handler_for defaults ctx opts =
    let options = apply_handler_options defaults opts in
    instrument options.registerer (handler_for options.gatherer ctx options.registerer)

-- `Println`: the text that fmt.Sprintln makes is a format, of which `sprintf` makes the message.
abbrev pub println : ⦃rt : Runtime⦄ → (Bytes → Bytes) → Store → Context → ℕ → Bytes → Store
println sprintf st l now msg = printf st l now (sprintf msg)
