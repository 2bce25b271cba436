-- ===== src/Health/Checker.antt =====
-- health/checker.go: the health of a service as the answers of its dependencies.
pub mod Answers
pub mod Logs
use clue.Base.{
  ℕ, Bool, true, false, String, Option, none, some, List, [], ◌∷◌, Bytes, codes, insert,
}
use clue.Log.Value.{string, Pair, Fielder, kv}
use clue.Log.Memory.{Runtime}
use clue.Log.Logger.{Context, Store}
use clue.Log.Operations.{with, error, message_key}
use clue.Health.Pinger.{Pinger}

-- `Health`; the map `Status` by its entries.
pub record Health : Type 0 where
  pub uptime : ℕ
  pub version : String
  pub status : List (String × String)

-- context.Background()
abbrev pub background : Context
background = record { logger = none; values = [] }

-- The variables of the loop of `Check`: the world of the pings, the logs, the statuses, `healthy`.
pub record Progress (W : Type 0) : Type 0 where
  pub world : W
  pub store : Store
  pub status : List (String × String)
  pub healthy : Bool

-- `now` is what the clock says in a world, `uptime` the seconds since the start.
module _ ⦃rt : Runtime⦄ {W : Type 0} (now uptime : W → ℕ) (version : String) (ctx : Context) where
  -- What follows the ping of a dependency.
  pub answered : String → Progress W → Option Bytes → Progress W
  answered name c none = c
  answered name c (some err) = record c {
    store =
        error c.store ctx (now c.world) (some err)
          (kv (record { key = message_key; val = string (codes "ping failed") }) ∷ []);
    status = insert name "NOT OK" c.status;
    healthy = false;
  }

  pub check_dep : Progress W → Pinger W Context → Progress W
  unfolding answered
  check_dep c dep =
      let (st, log_ctx) =
        with c.store background
          (kv (record { key = codes "dep"; val = string (codes dep.name) }) ∷ []) in
      let (w, err) = dep.ping c.world log_ctx in
      answered dep.name (record c { world = w; store = st; status = insert dep.name "OK" c.status })
        err

  pub check_deps : Progress W → List (Pinger W Context) → Progress W
  unfolding check_dep
  check_deps c [] = c
  check_deps c (dep ∷ deps) = check_deps (check_dep c dep) deps

  -- `Check`
  pub check : List (Pinger W Context) → W → Store → (W × Store) × (Health × Bool)
  unfolding check_deps
  check deps w st =
      let c = check_deps (record { world = w; store = st; status = []; healthy = true }) deps in
      (
        (c.world, c.store),
        (record { uptime = uptime w; version = version; status = c.status }, c.healthy),
      )
