-- ===== src/Weather/Net.antt =====
-- What the clients of the weather example do with HTTP: requests, responses and their bodies. A body is
-- a handle; the HTTP client, io.ReadAll and http.NewRequest are parameters of the clients.
pub mod Counts
use clue.Base.{
  ℕ, ◌+◌, ◌≡◌, ◌⊎◌, refl, sym, ap, ◌∙◌, inl, inr, Bool, true, false, Option, none, some, List, [],
  ◌∷◌, ◌++◌, Bytes, codes, ◌==◌, if◌then◌else◌, arith,
}
use clue.Base.Int.{decimal}

pub record Request (C : Type 0) : Type 0 where
  pub url : Bytes
  pub context : C

-- What `Do` returns: an error, or the status and the body of a response.
pub data Answer : Type 0 where
  failed : Bytes → Answer
  responded : ℕ → ℕ → Answer

pub data Event (C : Type 0) : Type 0 where
  sent : Request C → Answer → Event C
  slept : Event C
  closed : ℕ → Event C

-- The state of the world, and what has been done.
pub record Net (W C : Type 0) : Type 0 where
  pub world : W
  pub events : List (Event C)

pub data Outcome (A : Type 0) : Type 0 where
  returned : A → Outcome A
  error : Bytes → Outcome A
  panicked : Outcome A

-- What the clients use of the library: the HTTP client, io.ReadAll with none for its error, and whether
-- http.NewRequest accepts a URL, with its error's text; its requests have the background context.
pub record Http (W C : Type 0) : Type 0 where
  pub send : W → Request C → W × Answer
  pub read_all : W → ℕ → W × Option Bytes
  pub url_error : Bytes → Option Bytes
  pub background : C

-- The text of a body that could not be read
abbrev pub message : Option Bytes → Bytes
message none = codes "unknown error"
message (some text) = text

module _ {W C : Type 0} where
  abbrev pub record_event : Event C → Net W C → Net W C
  record_event e st = record st { events = st.events ++ e ∷ [] }

  abbrev pub close_body : ℕ → Net W C → Net W C
  close_body body st = record_event (closed body) st

module _ {W C : Type 0} (http : Http W C) where
  abbrev pub send_request : Request C → Net W C → Net W C × Answer
  send_request req st =
      let (w, answer) = http.send st.world req in
      (record { world = w; events = st.events ++ sent req answer ∷ [] }, answer)

  -- The error on a status, with what the body says; the body is closed.
  abbrev pub refuse : {A : Type 0} → Bytes → ℕ → ℕ → Net W C → Net W C × Outcome A
  refuse words status body st =
      let (w, read) = http.read_all st.world body in
      (
        close_body body (record st { world = w }),
        error (words ++ (decimal status ++ (codes " (" ++ (message read ++ codes ")")))),
      )

  -- The body of a response with the status 200.
  abbrev pub accept : Bytes → ℕ → ℕ → Net W C → Net W C × Outcome ℕ
  accept words status body st =
      if status == 200 then (st, returned body) else refuse words status body st

  -- if err != nil { return err }; defer body.Close(); ...
  abbrev pub with_body :
      {A : Type 0} → Net W C × Outcome ℕ → (ℕ → Net W C → Net W C × Outcome A) → Net W C × Outcome A
  with_body (st, returned body) k = let (st', out) = k body st in (close_body body st', out)
  with_body (st, error err) k = (st, error err)
  with_body (st, panicked) k = (st, panicked)

-- if err != nil { return nil, err }, or else what is done with the response
abbrev pub answered :
    {W C : Type 0}
    → (ℕ → ℕ → Net W C → Net W C × Outcome ℕ)
    → Net W C
    → Answer
    → Net W C × Outcome ℕ
answered next st (failed err) = (st, error err)
answered next st (responded status body) = next status body st
