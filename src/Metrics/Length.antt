-- ===== src/Metrics/Length.antt =====
-- The reader of metrics/http.go that counts the bytes of a request's body.
pub mod Counts
use clue.Base.{ℕ, zero, suc, ◌+◌, Bytes, Option, none, some, update}
use clue.Metrics.Registry.{Meters}

pub data ReadError : Type 0 where
  eof : ReadError
  failed : Bytes → ReadError

-- An io.ReadCloser in a world: a read into a buffer of some size gives how many bytes it read.
pub record Body (W : Type 0) : Type 0 where
  pub read : W → ℕ → W × ℕ × Option ReadError
  pub close : W → W × Option ReadError

-- What a request changes: the metrics, the world, and the lengths by address.
pub record Serving (R W : Type 0) : Type 0 where
  pub meters : Meters R
  pub world : W
  pub lengths : ℕ → ℕ
  pub next_length : ℕ

-- `lengthReader`, with the address under `ctxReqLen` of its context.
pub record LengthReader (W : Type 0) : Type 0 where
  pub source : Body W
  pub ctx : ℕ

abbrev pub close_result : ReadError → Option ReadError → Option ReadError
close_result eof closeerr = closeerr
close_result (failed text) closeerr = some (failed text)

module _ {R W : Type 0} where
  abbrev pub new_length_reader : Serving R W → Body W → Serving R W × LengthReader W
  new_length_reader st body = (
    record st { lengths = update st.lengths st.next_length 0; next_length = suc st.next_length },
    record { source = body; ctx = st.next_length },
  )

  -- The read of the source, and the addition to the length.
  abbrev pub add_read : LengthReader W → Serving R W → W × ℕ × Option ReadError → Serving R W
  add_read r st got = record st {
    world = got.0;
    lengths = update st.lengths r.ctx (st.lengths r.ctx + got.1);
  }

  -- `Read`
  abbrev pub read_length : LengthReader W → Serving R W → ℕ → Serving R W × ℕ × Option ReadError
  read_length r st n = let got = r.source.read st.world n in (add_read r st got, got.1, got.2)

  -- The loop of `Close`, until a read has an error.
  unfoldable pub drain : ℕ → LengthReader W → Serving R W → Option (Serving R W × ReadError)
  drain zero r st = none
  drain (suc fuel) r st =
      let got = r.source.read st.world 32 in
      elim got.2 [
        | none ↦ drain fuel r (add_read r st got)
        | some err ↦ some (add_read r st got, err)
      ]

  abbrev pub close_source :
      LengthReader W → Serving R W × ReadError → Serving R W × Option ReadError
  close_source r (st, err) =
      let closed = r.source.close st.world in
      (record st { world = closed.0 }, close_result err closed.1)

  -- `Close`
  unfoldable pub close_length :
      ℕ → LengthReader W → Serving R W → Option (Serving R W × Option ReadError)
  close_length fuel r st = elim (drain fuel r st) [
    | none ↦ none
    | some end ↦ some (close_source r end)
  ]
