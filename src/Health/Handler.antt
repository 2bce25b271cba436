-- ===== src/Health/Handler.antt =====
-- health/handler.go: the health as an HTTP response.
use clue.Base.{ℕ, ◌≡◌, ap, Bool, String, List, [], ◌∷◌, Bytes, if◌then◌else◌}
use clue.Log.Memory.{Runtime}
use clue.Log.Logger.{Context, Store}
use clue.Health.Pinger.{Pinger}
use clue.Health.Checker.{Health, check}
use clue.Health.Checker.Answers.{answers, all_ok, check_lem}

-- What is written to a http.ResponseWriter.
pub record Reply : Type 0 where
  pub header : List (String × String)
  pub status : ℕ
  pub body : Bytes

-- `Handler`, given what `Check` returns; `marshal` is json.Marshal, whose error is dropped.
pub handle : (Health → Bytes) → Health × Bool → Reply
handle marshal (h, healthy) = record {
  header = ("Content-Type", "application/json") ∷ [];
  status = if healthy then 200 else 503;
  body = marshal h;
}

-- The handler over `Check` answers with the status 200 if every dependency, pinged once in order,
-- answers without an error, and with 503 otherwise.
pub handle-check :
    ⦃rt : Runtime⦄ {W : Type 0} (now uptime : W → ℕ) (version : String) (ctx : Context)
    (marshal : Health → Bytes) (deps : List (Pinger W Context)) (w : W) (st : Store)
    → (handle marshal (check now uptime version ctx deps w st).1).status
      ≡ (if all_ok (answers w deps) then 200 else 503)
unfolding handle
handle-check now uptime version ctx marshal deps w st =
    ap (λ b. if b then 200 else 503) (check_lem now uptime version ctx deps w st "").0
