-- ===== src/Generator/Types/Finds.antt =====
-- That addType finds a type's name and zero value (mock/cmd/cmg/pkg/generate/type.go).
use clue.Base.{
  ◌⊎◌, ℕ, suc, ◌<◌, ◌≡◌, ◌≢◌, refl, sym, ◌∙◌, subst, inl, inr, Option-cases, String, List, Option,
  none, some, ◌++◌, Bytes, codes, ◌>>=◌, arith, Bool-cases,
}
use clue.Generator.Names.{Numbers}
use clue.Generator.Imports.{Texts}
use clue.Generator.Types.{
  Node, named, TypeAdder, is_aggregate, node_zero, zero_value, name, add_type,
}
use clue.Generator.Types.Spelled.{NameOf, With, ZeroOf}
use clue.Generator.Types.Kept.{Kept, Kept-refl, Kept-trans, Good, IsPlain, Reads, IsHeap}
use clue.Generator.Types.Steps.{Returns, After}
use clue.Generator.Types.Named.{name_lem}
use clue.Generator.Types.Zeros.{Zeroed, composite_lem, value_of, unchanged, plain_value}

module _ (texts : Texts) (mod_path : String) (numbers : Numbers texts.numbered) (heap : ℕ → Node)
    (rank : ℕ → ℕ) (sound : IsHeap heap rank) (fuel : ℕ) where
  named_or_not :
      (node : Node)
      → IsPlain heap rank node
        ⊎ ((pkg : Option (String × String)) × (obj : String) × (args : Option (List ℕ)) × (u : ℕ)
            × (node ≡ named pkg obj args u))
  named_or_not (named pkg obj args u) = inr (pkg, obj, args, u, refl)
  named_or_not _ = inl tt

  -- The zero value of a named type, from that of its underlying type.
  named_zero :
      (pkg : Option (String × String)) (obj : String) (args : Option (List ℕ)) (u type : ℕ)
      (s : TypeAdder)
      → heap type ≡ named pkg obj args u
      → Good heap s
      → rank type < fuel
      → s.zeros type ≡ none
      → Returns
          (Zeroed texts mod_path numbers heap rank sound fuel
            (λ c. Unit)
            s
            (λ s' z. ZeroOf s' heap type (named pkg obj args u) z × (s'.zeros type ≡ none)))
          (node_zero texts mod_path heap
            (zero_value texts mod_path heap 1 fuel)
            fuel
            type
            (named pkg obj args u)
            s)
  unfolding node_zero
  named_zero pkg obj args u type s at good lt new =
      let reads : Reads heap rank (rank type) (named pkg obj args u) =
        subst (λ node. Reads heap rank (rank type) node) at (sound type) in
      let plain = reads.1 in
      let apart : type ≢ u = λ e.
        subst (λ node. IsPlain heap rank node) at
          (subst (λ p. IsPlain heap rank (heap p)) (sym e) plain) in
      elim (Bool-cases (is_aggregate (heap u))) [
        | inl e ↦
            rw (e, node_zero)
              (unchanged texts mod_path numbers heap rank sound fuel (λ c. Unit) type s
                (λ s' z. With s' type (λ t. t ++ codes "{}") z) _ new
                (composite_lem texts mod_path numbers heap rank sound fuel type s good lt))
        | inr e ↦
            rw (e, node_zero)
              (under (zero_value texts mod_path heap 1 fuel u s)
                (plain_value texts mod_path numbers heap rank sound fuel 0 u s good
                  (λ e'. ground (arith, e, e')) plain)
                apart)
      ]
    where
      under :
          (o : Option (TypeAdder × Bytes))
          → Returns
              (Zeroed texts mod_path numbers heap rank sound fuel
                (λ c. c ≡ u)
                s
                (λ s' z. s'.zeros u ≡ some z))
              o
          → type ≢ u
          → Returns
              (Zeroed texts mod_path numbers heap rank sound fuel
                (λ c. Unit)
                s
                (λ s' z. (s'.zeros u ≡ some z) × (s'.zeros type ≡ none)))
              o
      under none h apart = absurd h
      under (some (s', z)) (good', kept, (others, h)) apart =
          (good', kept, (λ c ne. absurd (ne tt), (h, others type apart ∙ new)))

  zero_lem :
      (type : ℕ) (s : TypeAdder)
      → Good heap s
      → rank type < fuel
      → Returns
          (λ s' z. Good heap s' × Kept s s' × (s'.zeros type ≡ some z))
          (zero_value texts mod_path heap 2 fuel type s)
  unfolding zero_value
  zero_lem type s good lt = elim (named_or_not (heap type)) [
    | inl plain ↦
        forget _ _
          (plain_value texts mod_path numbers heap rank sound fuel 1 type s good (λ e. lt) plain)
    | inr (pkg, obj, args, u, at) ↦ elim (Option-cases (s.zeros type)) [
      | inr (z, e) ↦ rw (e, zero_value) (good, Kept-refl s, e)
      | inl e ↦
          let zero_of = zero_value texts mod_path heap 1 fuel in
          rw (e, zero_value)
            (forget _ _ (
              value_of texts mod_path numbers heap rank sound fuel (λ c. Unit) zero_of type s tt
                good
                (subst
                  (λ node.
                    Returns
                      (Zeroed texts mod_path numbers heap rank sound fuel (λ c. Unit) s
                        (λ s' z. ZeroOf s' heap type node z × (s'.zeros type ≡ none)))
                      (node_zero texts mod_path heap zero_of fuel type node s))
                  (sym at) (named_zero pkg obj args u type s at good lt e))))
    ]
  ]
    where
      forget :
          (New : ℕ → Type 0) (o : Option (TypeAdder × Bytes))
          → Returns
              (Zeroed texts mod_path numbers heap rank sound fuel New s
                (λ s' z. s'.zeros type ≡ some z))
              o
          → Returns (λ s' z. Good heap s' × Kept s s' × (s'.zeros type ≡ some z)) o
      forget New none h = absurd h
      forget New (some (s', z)) (good', kept, (others, h)) = (good', kept, h)

  -- What `addType` leaves and returns.
  abbrev pub Added : ℕ → TypeAdder → TypeAdder → Bytes × Bytes → Type 0
  Added type s s' (text, z) =
      Good heap s' × Kept s s' × ((s'.names type ≡ some text) × (s'.zeros type ≡ some z))

  pub add_type-Added :
      (type : ℕ) (s : TypeAdder)
      → Good heap s
      → rank type < fuel
      → Returns (Added type s) (add_type texts mod_path heap fuel type s)
  unfolding add_type ◌>>=◌
  add_type-Added type s good lt = named_first (name texts mod_path heap fuel type s) (
      name_lem texts mod_path numbers heap rank sound fuel (suc (rank type)) type s good
        (omega arith) lt)
    where
      and_zero :
          (s' : TypeAdder) (t : Bytes) (o : Option (TypeAdder × Bytes))
          → Kept s s'
          → s'.names type ≡ some t
          → Returns (λ s'' z. Good heap s'' × Kept s' s'' × (s''.zeros type ≡ some z)) o
          → Returns (Added type s) (o >>= (λ (s'', z). some (s'', (t, z))))
      and_zero s' t none kept h h' = absurd h'
      and_zero s' t (some (s'', z)) kept h (good', kept', e) =
          (good', Kept-trans s s' s'' kept kept', (kept'.names_kept type t h, e))

      named_first :
          (o : Option (TypeAdder × Bytes))
          → Returns
              (After texts mod_path numbers heap rank
                (suc (rank type))
                s
                (λ s' t. NameOf s' type t))
              o
          → Returns (Added type s) (
              o >>= (λ (s', text).
                zero_value texts mod_path heap 2 fuel type s'
                >>= (λ (s'', zero_text). some (s'', (text, zero_text)))))
      named_first none h = absurd h
      named_first (some (s', t)) (good', kept, (below, same, h)) =
          and_zero s' t (zero_value texts mod_path heap 2 fuel type s') kept h
            (zero_lem type s' good' lt)
