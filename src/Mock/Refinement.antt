-- ===== src/Mock/Refinement.antt =====
-- mock.go implements the script of `Mock.Script`: the relation between their states, kept by each
-- method, and what follows for histories of calls.
use clue.Base.{
  ℕ, suc, ◌+◌, ◌<◌, ◌≡◌, refl, sym, ap, ◌∙◌, String, true, false, ◌&&◌, none, some, List, [], ◌∷◌,
  ◌++◌, append-nil, append_assoc, length, drop, get_elem?, set, lookup, insert, str_eq, eq_iff,
  eq_refl, ltb, lt→ltb, lt→leb-false, if◌then◌else◌, arith, length-append, length-set, drop-append,
  drop-suc-set, get_elem?-drop, get_elem?-append, lookup-insert,
}
use native.Mathlib.Numerals.{add-one}
use clue.Mock.{Mock, Index, seq, seq_or_nil, new, next, add, set_func}
use clue.Mock.Script.{Script, picks, start, write}

module _ {ℓ} {F : Type ℓ} where
  -- The indices that `Add` makes for `todo` when `done` was added before.
  abbrev pub index_from : List (String × F) → List (String × F) → List Index
  index_from before [] = []
  index_from before ((n, f) ∷ l) =
      record { name = n; pos = length (picks n before) } ∷ index_from (before ++ (n, f) ∷ []) l

  pub record Refines (m : Mock F) (s : Script F) : Type ℓ where
    pub at : m.pos ≡ length s.done
    pub ends : length m.indices ≡ length s.done + length s.todo
    pub ahead : drop m.pos m.indices ≡ index_from s.done s.todo
    pub by_name : (n : String) → seq m n ≡ picks n (s.done ++ s.todo)
    pub funcs : m.funcs ≡ s.permanent

  picks-append :
      (n : String) (xs ys : List (String × F)) → picks n (xs ++ ys) ≡ picks n xs ++ picks n ys
  picks-append n [] ys = refl
  picks-append n ((m, f) ∷ xs) ys = ground (arith, picks-append n xs ys)

  pub length-picks-lt :
      (n : String) (f : F) (xs ys : List (String × F))
      → length (picks n xs) < length (picks n (xs ++ (n, f) ∷ ys))
  length-picks-lt n f xs ys =
      rw (picks-append n xs, eq_refl n, length-append (picks n xs) (f ∷ picks n ys)) (omega arith)

  get_elem?-picks :
      (n : String) (f : F) (xs ys : List (String × F))
      → get_elem? (picks n (xs ++ (n, f) ∷ ys)) (length (picks n xs)) ≡ some f
  get_elem?-picks n f xs ys =
      rw (picks-append n xs, eq_refl n) (get_elem?-append (picks n xs) (picks n ys) f)

  index_from-append :
      (before l : List (String × F)) (n : String) (f : F)
      → index_from before (l ++ (n, f) ∷ [])
        ≡ index_from before l ++ record { name = n; pos = length (picks n (before ++ l)) } ∷ []
  index_from-append before [] n f = rw (append-nil before)
  index_from-append before ((m, g) ∷ l) n f =
      ap (◌∷◌ (record { name = m; pos = length (picks m before) })) (
        index_from-append (before ++ (m, g) ∷ []) l n f
        ∙ rw (append_assoc before ((m, g) ∷ []) l) refl)

  pub new-Refines : Refines new start
  unfolding new
  new-Refines = record {
    at = refl;
    ends = omega arith;
    ahead = refl;
    by_name = λ n. refl;
    funcs = refl;
  }

  pub set_func-Refines :
      (m : Mock F) (s : Script F) (n : String) (f : F)
      → Refines m s
      → Refines (set_func m n f) (record s { permanent = insert n f s.permanent })
  unfolding set_func
  set_func-Refines m s n f r = record {
    at = r.at;
    ends = r.ends;
    ahead = r.ahead;
    by_name = r.by_name;
    funcs = ap (insert n f) r.funcs;
  }

  seq-insert :
      (n k : String) (fs : List F) (l : List (String × List F))
      → seq_or_nil (lookup k (insert n fs l)) ≡ (if str_eq n k then fs else seq_or_nil (lookup k l))
  seq-insert n k fs l = rw (lookup-insert n k fs l) (ground arith)

  picks-last :
      (n k : String) (f : F) (l : List (String × F))
      → picks k (l ++ (n, f) ∷ []) ≡ (if str_eq n k then picks n l ++ f ∷ [] else picks k l)
  picks-last n k f [] = ground (arith, eq_iff n k)
  picks-last n k f ((m, g) ∷ l) =
      ground (arith, picks-last n k f l, eq_iff n k, eq_iff m k, eq_iff m n)

  pub add-Refines :
      (m : Mock F) (s : Script F) (n : String) (f : F)
      → Refines m s
      → Refines (add m n f) (write s n f)
  unfolding add
  add-Refines m s n f r = record {
    at = r.at;
    ends = rw (length-append m.indices, length-append s.todo) (omega (arith, r.ends));
    ahead =
        drop-append m.indices _ m.pos (omega (arith, r.ends, r.at))
        ∙ rw (r.ahead, r.by_name n) (sym (index_from-append s.done s.todo n f));
    by_name = λ k.
        seq-insert n k (seq m n ++ f ∷ []) m.seqs
        ∙ rw (r.by_name n, r.by_name k, ← append_assoc s.done s.todo ((n, f) ∷ []))
            (sym (picks-last n k f (s.done ++ s.todo)));
    funcs = r.funcs;
  }

  -- `Next` at an index of the method called, and at one of another method.
  next_hit :
      (m : Mock F) (n : String) (p : ℕ) (f : F)
      → m.pos < length m.indices
      → get_elem? m.indices m.pos ≡ some (record { name = n; pos = p })
      → p < length (seq m n)
      → get_elem? (seq m n) p ≡ some f
      → next m n ≡ (
        record m {
          indices = set m.indices m.pos (record { name = n; pos = p + 1 });
          pos = m.pos + 1;
        },
        some f,
      )
  unfolding next
  next_hit m n p f inside at fits found = rw (
    lt→ltb _ _ inside,
    lt→ltb 0 (length (seq m n)) (omega arith),
    at,
    eq_refl n,
    lt→leb-false _ _ fits,
    found,
  )

  next_miss :
      (m : Mock F) (n k : String) (p : ℕ)
      → get_elem? m.indices m.pos ≡ some (record { name = k; pos = p })
      → str_eq k n ≡ false
      → ltb 0 (length (seq m n)) ≡ true
      → m.pos < length m.indices
      → next m n ≡ (m, none)
  unfolding next
  next_miss m n k p at ne some_left inside = rw (lt→ltb _ _ inside, some_left, at, ne)

  index_ahead :
      (m : Mock F) (s : Script F) (k : String) (f : F) (rest : List (String × F))
      → s.todo ≡ (k, f) ∷ rest
      → Refines m s
      → (m.pos < length m.indices)
        × (get_elem? m.indices m.pos ≡ some (record { name = k; pos = length (picks k s.done) }))
        × (drop
              (suc m.pos)
              (set m.indices m.pos (record { name = k; pos = length (picks k s.done) + 1 }))
            ≡ index_from (s.done ++ (k, f) ∷ []) rest)
  index_ahead m s k f rest e r = (
    omega (arith, r.at, r.ends, ap length e),
    get_elem?-drop m.indices m.pos _ _ ahead,
    drop-suc-set m.indices m.pos _ _ ahead,
  )
    where
      ahead :
          drop m.pos m.indices
          ≡ record { name = k; pos = length (picks k s.done) }
            ∷ index_from (s.done ++ (k, f) ∷ []) rest
      ahead = r.ahead ∙ ap (index_from s.done) e

  pub next-turn :
      (m : Mock F) (s : Script F) (n : String) (f : F) (rest : List (String × F))
      → s.todo ≡ (n, f) ∷ rest
      → Refines m s
      → Refines (next m n).0 (record s { done = s.done ++ (n, f) ∷ []; todo = rest })
        × ((next m n).1 ≡ some f)
  next-turn m s n f rest e r =
      let (inside, at, onward) = index_ahead m s n f rest e r in
      let by : (k : String) → seq m k ≡ picks k (s.done ++ (n, f) ∷ rest) =
        λ k. r.by_name k ∙ ap (λ l. picks k (s.done ++ l)) e in
      let hit =
        next_hit m n (length (picks n s.done)) f inside at
          (rw (by n) (length-picks-lt n f s.done rest))
          (rw (by n) (get_elem?-picks n f s.done rest)) in
      rw hit (
        record {
          at = rw (length-append s.done) (omega (arith, r.at));
          ends =
              rw (length-set m.indices, length-append s.done) (omega (arith, r.ends, ap length e));
          ahead = rw add-one onward;
          by_name = λ k. by k ∙ ap (picks k) (sym (append_assoc s.done ((n, f) ∷ []) rest));
          funcs = r.funcs;
        },
        refl,
      )

  pub next-other :
      (m : Mock F) (s : Script F) (n k : String) (f : F) (rest : List (String × F))
      → s.todo ≡ (k, f) ∷ rest
      → str_eq k n ≡ false
      → ltb 0 (length (picks n (s.done ++ s.todo))) ≡ true
      → Refines m s
      → next m n ≡ (m, none)
  next-other m s n k f rest e ne occurs r =
      let (inside, at, _) = index_ahead m s k f rest e r in
      next_miss m n k _ at ne (rw (r.by_name n) occurs) inside

  pub next-permanent :
      (m : Mock F) (s : Script F) (n : String)
      → (ltb 0 (length s.todo) && ltb 0 (length (picks n (s.done ++ s.todo)))) ≡ false
      → Refines m s
      → next m n ≡ (m, lookup n s.permanent)
  unfolding next
  next-permanent m s n idle r = rw (r.by_name n, ltb_pending, idle, r.funcs)
    where
      ltb_pending : ltb m.pos (length m.indices) ≡ ltb 0 (length s.todo)
      ltb_pending = ground (arith, r.at, r.ends)
