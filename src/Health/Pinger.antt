-- ===== src/Health/Pinger.antt =====
-- health/pinger.go: a client that pings a service. The HTTP client, the making of a request and the
-- quotation of a name are the library's; `W` is the state of the world that a request reads.
use clue.Base.{
  apply_all, ap, ◌↔◌, Bool-cases, ℕ, ◌≤◌, ◌≡◌, refl, inl, inr, Bool, ◌||◌, String, Option, none,
  some, List, ◌++◌, Bytes, codes, ltb, if◌then◌else◌, arith,
}
use clue.Base.Int.{pos, decimal_ℤ}

-- `Pinger`: its name, and what a ping in a world answers, none being the nil error.
pub record Pinger (W C : Type 0) : Type 0 where
  pub name : String
  pub ping : W → C → W × Option Bytes

-- `options`
pub record Options : Type 0 where
  pub scheme : String
  pub path : String

abbrev pub with_scheme : String → Options → Options
with_scheme scheme o = record o { scheme = scheme }

abbrev pub with_path : String → Options → Options
with_path path o = record o { path = path }

abbrev pub apply_options : Options → List (Options → Options) → Options
apply_options o opts = apply_all o opts

-- The parts of a url.URL that are set.
pub record Url : Type 0 where
  pub scheme : String
  pub host : String
  pub path : String

-- What the HTTP client returns: an error's text, or a response's status code.
pub data Response : Type 0 where
  failed : Bytes → Response
  responded : ℕ → Response

abbrev code_of : Response → ℕ
code_of (failed text) = 0
code_of (responded code) = code

responded-inj : {a b : ℕ} → responded a ≡ responded b → a ≡ b
responded-inj e = ap code_of e

-- resp.StatusCode < 200 || resp.StatusCode > 300
abbrev pub bad_status : ℕ → Bool
bad_status code = ltb code 200 || ltb 300 code

module _ {W C R : Type 0} (new_request : Url → Option R) (send : W → C → R → W × Response)
    (quote : String → Bytes) where
  -- The error that `Ping` makes of a response.
  pub ping_error : String → Response → Option Bytes
  ping_error name (failed text) =
      some (codes "failed to make health check request to " ++ (quote name ++ (codes ": " ++ text)))
  ping_error name (responded code) =
      if bad_status code
      then some (
          codes "health-check for "
          ++ (quote name ++ (codes " returned status " ++ decimal_ℤ (pos code))))
      else none

  -- `client.Ping`
  pub ping_client : String → R → W → C → W × Option Bytes
  ping_client name req w ctx = let (w', resp) = send w ctx req in (w', ping_error name resp)

  abbrev client : String → Option R → Option (Pinger W C)
  client name none = none
  client name (some req) = some (record { name = name; ping = ping_client name req })

  -- `NewPinger`; none is its panic.
  pub new_pinger : String → String → List (Options → Options) → Option (Pinger W C)
  new_pinger name addr opts =
      let o = apply_options (record { scheme = "http"; path = "/livez" }) opts in
      client name (new_request (record { scheme = o.scheme; host = addr; path = o.path }))

  -- A ping has no error exactly if the service responds with a status from 200 to 300, both included.
  pub ping_client_lem :
      (name : String) (req : R) (w : W) (ctx : C)
      → (ping_client name req w ctx).1 ≡ none
        ↔ ((code : ℕ) × (((send w ctx req).1 ≡ responded code) × ((200 ≤ code) × (code ≤ 300))))
  unfolding ping_client ping_error
  ping_client_lem name req w ctx = no_error name (send w ctx req).1
    where
      no_error :
          (name : String) (resp : Response)
          → ping_error name resp ≡ none
            ↔ ((code : ℕ) × ((resp ≡ responded code) × ((200 ≤ code) × (code ≤ 300))))
      no_error name (failed text) = (λ e. cc, λ h. cc (h.1.0))
      no_error name (responded code) = elim (Bool-cases (bad_status code)) [
        | inl bad ↦ rw bad (λ e. cc, λ h. ground (arith, bad, h.1.1, responded-inj h.1.0))
        | inr good ↦ rw good (λ e. (code, (refl, ground (arith, good))), λ h. refl)
      ]
