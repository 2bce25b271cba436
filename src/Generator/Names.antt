-- ===== src/Generator/Names.antt =====
-- Names in lists, and the numbered names that the searches of the generator of mocks try.
use clue.Base.{
  ℕ, ◌<◌, ◌≤◌, ◌≡◌, ◌≢◌, ◌⊎◌, sym, ◌∙◌, inl, inr, Bool-cases, String, List, [], ◌∷◌, length, str_eq,
  eq_iff, if◌then◌else◌, arith,
}

abbrev pub In : String → List String → Type 0
In k [] = ⊥
In k (n ∷ ns) = (n ≡ k) ⊎ In k ns

abbrev pub remove : String → List String → List String
remove k [] = []
remove k (n ∷ ns) = if str_eq n k then remove k ns else n ∷ remove k ns

remove_le : (k : String) (ns : List String) → length (remove k ns) ≤ length ns
remove_le k [] = omega arith
remove_le k (n ∷ ns) = let rest = remove_le k ns in ground (arith, rest)

pub remove_lt : (k : String) (ns : List String) → In k ns → length (remove k ns) < length ns
remove_lt k [] h = absurd h
remove_lt k (n ∷ ns) (inl e) =
    let rest = remove_le k ns in let same = (eq_iff n k).1 e in rw same (omega (arith, rest))
remove_lt k (n ∷ ns) (inr h) = let rest = remove_lt k ns h in ground (arith, rest)

pub remove_keeps : (k j : String) (ns : List String) → k ≢ j → In j ns → In j (remove k ns)
remove_keeps k j [] ne h = absurd h
remove_keeps k j (n ∷ ns) ne h = elim (Bool-cases (str_eq n k)) [
  | inl same ↦ rw same (elim h [
    | inl e ↦ absurd (ne (sym ((eq_iff n k).0 same) ∙ e))
    | inr b ↦ remove_keeps k j ns ne b
  ])
  | inr other ↦ rw other (elim h [ inl e ↦ inl e | inr b ↦ inr (remove_keeps k j ns ne b) ])
]

-- What fmt.Sprintf("%v%v") does: other numbers give other texts, and no text is empty.
abbrev pub Numbers : (String → ℕ → String) → Type 0
Numbers numbered =
    ((name : String) (i j : ℕ) → numbered name i ≡ numbered name j → i ≡ j)
    × ((name : String) (i : ℕ) → numbered name i ≢ "")
