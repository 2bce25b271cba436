-- ===== src/Mock/Histories.antt =====
-- Histories of calls on a mock of mock.go.
use clue.Base.{
  ◌≡◌, refl, sym, ap, ◌∙◌, String, Bool, true, false, ◌&&◌, inl, inr, Option, none, some, List, [],
  ◌∷◌, ◌++◌, map, append_assoc, append-nil, length, insert, lookup, str_eq, eq_iff, eq_refl, ltb,
  lt→ltb, ◌≢◌, Bool-cases, if◌then◌else◌, arith,
}
use clue.Mock.{Mock, new, next, add, set_func, has_more}
use clue.Mock.Script.{Script, picks, start, play, play_head, write, unfinished}
use clue.Mock.Refinement.{
  Refines, length-picks-lt, new-Refines, add-Refines, set_func-Refines, next-turn, next-other,
  next-permanent,
}

-- The methods of `Mock`, as calls.
pub data Call {ℓ} (F : Type ℓ) : Type ℓ where
  adds sets : String → F → Call F
  nexts : String → Call F
  asks : Call F

pub data Reply {ℓ} (F : Type ℓ) : Type ℓ where
  silent : Reply F
  returned : Option F → Reply F
  answer : Bool → Reply F

module _ {ℓ} {F : Type ℓ} where
  abbrev pub step : Mock F → Call F → Mock F × Reply F
  step m (adds n f) = (add m n f, silent)
  step m (sets n f) = (set_func m n f, silent)
  step m (nexts n) = let (m', r) = next m n in (m', returned r)
  step m asks = (m, answer (has_more m))

  pub run : Mock F → List (Call F) → List (Reply F)
  run m [] = []
  run m (c ∷ cs) = let (m', r) = step m c in r ∷ run m' cs

  abbrev pub script_step : Script F → Call F → Script F × Reply F
  script_step s (adds n f) = (write s n f, silent)
  script_step s (sets n f) = (record s { permanent = insert n f s.permanent }, silent)
  script_step s (nexts n) = let (s', r) = play s n in (s', returned r)
  script_step s asks = (s, answer (unfinished s))

  pub script_run : Script F → List (Call F) → List (Reply F)
  script_run s [] = []
  script_run s (c ∷ cs) = let (s', r) = script_step s c in r ∷ script_run s' cs

  -- `play` where the script names the method.
  play_named :
      (m : Mock F) (s : Script F) (n : String) (l : List (String × F))
      → s.todo ≡ l
      → ltb 0 (length (picks n (s.done ++ s.todo))) ≡ true
      → Refines m s
      → Refines (next m n).0 (play_head s n l).0 × ((next m n).1 ≡ (play_head s n l).1)
  play_named m s n [] e named r = rw (next-permanent m s n (rw e refl) r) (r, refl)
  play_named m s n ((k, f) ∷ rest) e named r = elim (Bool-cases (str_eq k n)) [
    | inl same ↦
        let p = (eq_iff k n).0 same in
        rw same (rw p (next-turn m s n f rest (e ∙ ap (λ x. (x, f) ∷ rest) p) r))
    | inr ne ↦ rw (ne, next-other m s n k f rest e ne named r) (r, refl)
  ]

  -- Whenever the mock implements the script, `Next` returns what the script plays, and the mock
  -- implements the script that is left.
  pub next-Refines :
      (m : Mock F) (s : Script F) (n : String)
      → Refines m s
      → Refines (next m n).0 (play s n).0 × ((next m n).1 ≡ (play s n).1)
  next-Refines m s n r = elim (Bool-cases (ltb 0 (length (picks n (s.done ++ s.todo))))) [
    | inl named ↦ rw named (play_named m s n s.todo refl named r)
    | inr unnamed ↦ rw (unnamed, next-permanent m s n (idle unnamed) r) (r, refl)
  ]
    where
      idle :
          ltb 0 (length (picks n (s.done ++ s.todo))) ≡ false
          → (ltb 0 (length s.todo) && ltb 0 (length (picks n (s.done ++ s.todo)))) ≡ false
      idle h = ground arith

  has_more-Refines : (m : Mock F) (s : Script F) → Refines m s → has_more m ≡ unfinished s
  unfolding has_more
  has_more-Refines m s r = ground (arith, r.at, r.ends)

  step-Refines :
      (m : Mock F) (s : Script F) (c : Call F)
      → Refines m s
      → Refines (step m c).0 (script_step s c).0 × ((step m c).1 ≡ (script_step s c).1)
  step-Refines m s (adds n f) r = (add-Refines m s n f r, refl)
  step-Refines m s (sets n f) r = (set_func-Refines m s n f r, refl)
  step-Refines m s (nexts n) r = let (r', e) = next-Refines m s n r in (r', ap returned e)
  step-Refines m s asks r = (r, ap answer (has_more-Refines m s r))

  run-Refines :
      (m : Mock F) (s : Script F) (cs : List (Call F)) → Refines m s → run m cs ≡ script_run s cs
  unfolding run script_run
  run-Refines m s [] r = refl
  run-Refines m s (c ∷ cs) r =
      let (r', e) = step-Refines m s c r in
      cc (e, run-Refines (step m c).0 (script_step s c).0 cs r')

  -- From a new mock, every history of `Add`, `Set`, `Next` and `HasMore` has the replies of the
  -- script: maps, indices and positions cannot be told from an ordered list of named mocks.
  pub run-eq-script_run : (cs : List (Call F)) → run new cs ≡ script_run start cs
  run-eq-script_run cs = run-Refines new start cs new-Refines

  abbrev pub adds_all : List (String × F) → List (Call F)
  adds_all = map (λ a. adds a.0 a.1)

  abbrev pub nexts_all : List (String × F) → List (Call F)
  nexts_all = map (λ a. nexts a.0)

  abbrev pub silences : List (String × F) → List (Reply F)
  silences = map (λ a. silent)

  abbrev pub replies : List (String × F) → List (Reply F)
  replies = map (λ a. returned (some a.1))

  script_run-adds :
      (s : Script F) (l : List (String × F)) (cs : List (Call F))
      → script_run s (adds_all l ++ cs)
        ≡ silences l ++ script_run (record s { todo = s.todo ++ l }) cs
  unfolding script_run
  script_run-adds s [] cs = rw (append-nil s.todo)
  script_run-adds s ((n, f) ∷ l) cs =
      ap (◌∷◌ silent)
        (script_run-adds (write s n f) l cs ∙ rw (append_assoc s.todo ((n, f) ∷ []) l) refl)

  play_next :
      (s : Script F) (n : String) (f : F) (rest : List (String × F))
      → s.todo ≡ (n, f) ∷ rest
      → play s n ≡ (record s { done = s.done ++ (n, f) ∷ []; todo = rest }, some f)
  play_next s n f rest e = rw (
    e,
    lt→ltb 0 (length (picks n (s.done ++ (n, f) ∷ rest)))
        (omega (arith, length-picks-lt n f s.done rest)),
    eq_refl n,
  )

  script_run-nexts :
      (s : Script F) (l : List (String × F)) (cs : List (Call F))
      → s.todo ≡ l
      → script_run s (nexts_all l ++ cs)
        ≡ replies l ++ script_run (record s { done = s.done ++ l; todo = [] }) cs
  unfolding script_run
  script_run-nexts s [] cs e = rw (append-nil s.done, e)
  script_run-nexts s ((n, f) ∷ l) cs e = rw (play_next s n f l e) (
      ap (◌∷◌ (returned (some f))) (
        script_run-nexts (record s { done = s.done ++ (n, f) ∷ []; todo = l }) l cs refl
        ∙ rw (append_assoc s.done ((n, f) ∷ []) l) refl))

  -- Mocks that were added and are then called by their names in the same order are returned one by
  -- one, each once, and `HasMore` is false behind them.
  pub played_in_order :
      (l : List (String × F))
      → run new (adds_all l ++ (nexts_all l ++ asks ∷ []))
        ≡ silences l ++ (replies l ++ answer false ∷ [])
  played_in_order l =
      run-eq-script_run (adds_all l ++ (nexts_all l ++ asks ∷ []))
      ∙ script_run-adds start l (nexts_all l ++ asks ∷ [])
      ∙ ap (◌++◌ (silences l)) (
          script_run-nexts (record start { todo = l }) l (asks ∷ []) refl
          ∙ unfold script_run in refl)

  -- The method whose turn it is not has no mock, its permanent one included, if the sequence names
  -- it; and it has the permanent one, before the sequence is over, if the sequence never names it.
  pub next_out_of_turn :
      (m : Mock F) (s : Script F) (n k : String) (f : F) (rest : List (String × F))
      → Refines m s
      → s.todo ≡ (k, f) ∷ rest
      → k ≢ n
      → next m n
        ≡ (m, if ltb 0 (length (picks n (s.done ++ s.todo))) then none else lookup n m.funcs)
  next_out_of_turn m s n k f rest r e ne =
      elim (Bool-cases (ltb 0 (length (picks n (s.done ++ s.todo))))) [
        | inl named ↦ rw named (next-other m s n k f rest e differ named r)
        | inr unnamed ↦ rw unnamed (
            next-permanent m s n (ground (arith, unnamed)) r
            ∙ ap (λ fs. (m, lookup n fs)) (sym r.funcs))
      ]
    where
      differ : str_eq k n ≡ false
      differ = ground (arith, eq_iff k n)
