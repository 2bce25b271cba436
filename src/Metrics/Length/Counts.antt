-- ===== src/Metrics/Length/Counts.antt =====
-- That the whole body of a request is counted (metrics/http.go).
use clue.Base.{
  ℕ, zero, suc, ◌+◌, ◌<◌, ◌≡◌, refl, ◌∙◌, ap, List, [], ◌∷◌, Option, none, some, inl, inr,
  Option-cases, update_self, arith,
}
use clue.Metrics.Length.{
  ReadError, eof, failed, Body, Serving, LengthReader, new_length_reader, add_read, read_length,
  drain, close_result, close_source, close_length,
}

-- What io.Reader asks of a body, if `left` is how many bytes it still has: a read takes as many as it
-- says, it takes some if it has no error, and none are left at the end.
abbrev pub IsReader : {W : Type 0} → (W → ℕ) → Body W → Type 0
IsReader {W} left body =
    (w : W) (n : ℕ)
    → 0 < n
    → let got = body.read w n in
      (left w ≡ got.1 + left got.0)
      × (got.2 ≡ none → 0 < got.1)
      × (got.2 ≡ some eof → left got.0 ≡ 0)

no_error :
    (err : ReadError) (closeerr : Option ReadError) → close_result err closeerr ≡ none → err ≡ eof
no_error eof closeerr e = refl
no_error (failed text) closeerr e = ground (arith, e)

-- Some reads, whatever errors they have, into buffers that are one byte longer than said.
abbrev pub read_all : {R W : Type 0} → LengthReader W → Serving R W → List ℕ → Serving R W
read_all r st [] = st
read_all r st (n ∷ ns) = read_all r (read_length r st (suc n)).0 ns

module _ {R W : Type 0} (left : W → ℕ) (r : LengthReader W) (h : IsReader left r.source) where
  -- What is counted and what is left.
  abbrev pub total : Serving R W → ℕ
  total st = st.lengths r.ctx + left st.world

  add_read-total :
      (st : Serving R W) (n : ℕ)
      → 0 < n
      → total (add_read r st (r.source.read st.world n)) ≡ total st
  add_read-total st n pos =
      let got = r.source.read st.world n in
      let counted = update_self st.lengths r.ctx (st.lengths r.ctx + got.1) in
      let taken = (h st.world n pos).0 in omega (arith, counted, taken)

  pub drain-ends :
      (fuel : ℕ) (st : Serving R W)
      → left st.world < fuel
      → (end : Serving R W × ReadError) × (drain fuel r st ≡ some end)
        × (total end.0 ≡ total st)
        × (end.1 ≡ eof → left end.0.world ≡ 0)
  unfolding drain
  drain-ends zero st lt = ground (arith, lt)
  drain-ends (suc fuel) st lt =
      let got = r.source.read st.world 32 in
      let st' = add_read r st got in
      let kept = add_read-total st 32 (omega arith) in
      let reads = h st.world 32 (omega arith) in
      elim (Option-cases got.2) [
        | inl e ↦
            let taken = reads.0 in
            let some_taken = reads.1 e in
            let (end, ends, same, none_left) =
              drain-ends fuel st' (omega (arith, taken, some_taken, lt)) in
            (end, rw (drain, e) ends, same ∙ kept, none_left)
        | inr (err, e) ↦ ((st', err), rw (drain, e) refl, kept, λ q. reads.2 (e ∙ ap some q))
      ]

  read_all-total : (st : Serving R W) (ns : List ℕ) → total (read_all r st ns) ≡ total st
  read_all-total st [] = refl
  read_all-total st (n ∷ ns) =
      let st' = (read_length r st (suc n)).0 in
      read_all-total st' ns ∙ add_read-total st (suc n) (omega arith)

  close_lem :
      (fuel : ℕ) (st : Serving R W)
      → left st.world < fuel
      → (end : Serving R W × Option ReadError) × (close_length fuel r st ≡ some end)
        × (end.1 ≡ none → end.0.lengths r.ctx ≡ total st)
  unfolding close_length
  close_lem fuel st lt =
      let ((st', err), ends, same, none_left) = drain-ends fuel st lt in
      (
        close_source r (st', err),
        rw (close_length, ends) refl,
        λ e.
            let none_left' = none_left (no_error err (r.source.close st'.world).1 e) in
            omega (arith, same, none_left'),
      )

-- After any reads of a body by the reader that `newLengthReader` makes, errors or not, `Close`
-- returns, given more fuel than the bytes of the body, and if it returns no error, the length that was
-- counted is that of the whole body. The body is a reader as io.Reader asks.
pub body_counted :
    {R W : Type 0} (left : W → ℕ) (body : Body W) (st : Serving R W) (ns : List ℕ) (fuel : ℕ)
    → IsReader left body
    → left st.world < fuel
    → let (st', r) = new_length_reader st body in
      (end : Serving R W × Option ReadError) × (close_length fuel r (read_all r st' ns) ≡ some end)
      × (end.1 ≡ none → end.0.lengths r.ctx ≡ left st.world)
body_counted left body st ns fuel h lt =
    let (st0, r) = new_length_reader st body in
    let st' = read_all r st0 ns in
    let same = read_all-total left r h st0 ns in
    let zero_first = update_self st.lengths st.next_length 0 in
    let (end, ends, counted) = close_lem left r h fuel st' (omega (arith, same, zero_first, lt)) in
    (end, ends, λ e. let all = counted e in omega (arith, all, same, zero_first))
