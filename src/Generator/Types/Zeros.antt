-- ===== src/Generator/Types/Zeros.antt =====
-- That the zero values of types are found, and what they say
-- (mock/cmd/cmg/pkg/generate/type.go).
use clue.Base.{
  ℕ, suc, ◌<◌, ◌≡◌, refl, ap, ◌∙◌, subst, inl, inr, Option-cases, true, String, Option, none, some,
  ◌++◌, Bytes, codes, update, update_ne, update_self, ◌>>=◌, arith, ◌==◌, Bool-cases, ==_iff,
}
use clue.Generator.Names.{Numbers}
use clue.Generator.Imports.{Texts}
use clue.Generator.Types.{
  bool_kind, complex64, complex128, string_kind, unsafe_pointer, other_kind, Node, array, basic,
  chan, interface, map_of, named, pointer, signature, slice, struct, type_param, union, other,
  TypeAdder, is_aggregate, composite, node_zero, zero_value, name,
}
use clue.Generator.Types.Spelled.{NameOf, With, ZeroOf}
use clue.Generator.Types.Kept.{
  Kept, Kept-refl, Kept-trans, Spelled-mono, ZeroOf-mono, Good, IsPlain, Reads, IsHeap,
}
use clue.Generator.Types.Steps.{Returns, After, update-kept}
use clue.Generator.Types.Named.{name_lem}

-- The state with a new zero value.
abbrev stored_zero : TypeAdder → ℕ → Bytes → TypeAdder
stored_zero s type z = record s { zeros = update s.zeros type (some z) }

-- It is good, and keeps the old one, if the type had none.
module _ (heap : ℕ → Node) (s : TypeAdder) (good : Good heap s) (type : ℕ) (z : Bytes)
    (new : s.zeros type ≡ none) (said : ZeroOf s heap type (heap type) z) where
  stored_zero-Kept : Kept s (stored_zero s type z)
  stored_zero-Kept = record {
    names_kept = λ c t h. h;
    zeros_kept = λ c u h. update-kept s.zeros type c z u new h;
    imports_kept = λ k i h. h;
  }

  stored_zero-Good : Good heap (stored_zero s type z)
  stored_zero-Good = record {
    proper = good.proper;
    spelled = λ c t h.
        Spelled-mono s (stored_zero s type z) stored_zero-Kept (heap c) t (good.spelled c t h);
    zeroed = λ c u h.
        ZeroOf-mono s (stored_zero s type z) stored_zero-Kept heap c (heap c) u (old_or_new c u h);
  }
    where
      old_or_new :
          (c : ℕ) (u : Bytes) → (stored_zero s type z).zeros c ≡ some u → ZeroOf s heap c (heap c) u
      old_or_new c u h = elim (Bool-cases (type == c)) [
        | inl e ↦
            let same = (==_iff type c).0 e in
            let text : z ≡ u = ground (arith, e, h) in
            subst (λ v. ZeroOf s heap c (heap c) v) text
              (subst (λ p. ZeroOf s heap p (heap p) z) same said)
        | inr e ↦ good.zeroed c u (ground (arith, e, h))
      ]

module _ (texts : Texts) (mod_path : String) (numbers : Numbers texts.numbered) (heap : ℕ → Node)
    (rank : ℕ → ℕ) (sound : IsHeap heap rank) (fuel : ℕ) where
  -- A step with new zero values for some types at most.
  abbrev pub Zeroed :
      (ℕ → Type 0) → TypeAdder → (TypeAdder → Bytes → Type 0) → TypeAdder → Bytes → Type 0
  Zeroed New s P s' z =
      Good heap s' × Kept s s' × (((c : ℕ) → (New c → ⊥) → s'.zeros c ≡ s.zeros c) × P s' z)

  -- Without any new zero value.
  abbrev pub Same : TypeAdder → (TypeAdder → Bytes → Type 0) → TypeAdder → Bytes → Type 0
  Same s P s' z = Good heap s' × Kept s s' × ((s'.zeros ≡ s.zeros) × P s' z)

  pub composite_lem :
      (type : ℕ) (s : TypeAdder)
      → Good heap s
      → rank type < fuel
      → Returns
          (Same s (λ s' z. With s' type (λ t. t ++ codes "{}") z))
          (composite texts mod_path heap fuel type s)
  unfolding composite ◌>>=◌
  composite_lem type s good lt = with_braces (name texts mod_path heap fuel type s) (
      name_lem texts mod_path numbers heap rank sound fuel (suc (rank type)) type s good
        (omega arith) lt)
    where
      with_braces :
          (o : Option (TypeAdder × Bytes))
          → Returns
              (After texts mod_path numbers heap rank
                (suc (rank type))
                s
                (λ s' t. NameOf s' type t))
              o
          → Returns
              (Same s (λ s' z. With s' type (λ t. t ++ codes "{}") z))
              (o >>= (λ (s', t). some (s', t ++ codes "{}")))
      with_braces none h = absurd h
      with_braces (some (s', t)) (good', kept, (below, same, h)) =
          (good', kept, (same, (t, h, refl)))

  -- The zero value of a type that is not a named one.
  plain_zero :
      (zero_of : ℕ → TypeAdder → Option (TypeAdder × Bytes)) (type : ℕ) (node : Node)
      (s : TypeAdder)
      → Good heap s
      → (is_aggregate node ≡ true → rank type < fuel)
      → IsPlain heap rank node
      → Reads heap rank (rank type) node
      → Returns
          (Same s (λ s' z. ZeroOf s' heap type node z))
          (node_zero texts mod_path heap zero_of fuel type node s)
  unfolding node_zero
  plain_zero zero_of type (array len elem) s good lt p h = composite_lem type s good (lt refl)
  plain_zero zero_of type (struct fields) s good lt p h = composite_lem type s good (lt refl)
  plain_zero zero_of type (basic bool_kind obj) s good lt p h = (good, Kept-refl s, (refl, refl))
  plain_zero zero_of type (basic complex64 obj) s good lt p h = (good, Kept-refl s, (refl, refl))
  plain_zero zero_of type (basic complex128 obj) s good lt p h = (good, Kept-refl s, (refl, refl))
  plain_zero zero_of type (basic string_kind obj) s good lt p h = (good, Kept-refl s, (refl, refl))
  plain_zero zero_of type (basic unsafe_pointer obj) s good lt p h =
      (good, Kept-refl s, (refl, refl))
  plain_zero zero_of type (basic other_kind obj) s good lt p h = (good, Kept-refl s, (refl, refl))
  plain_zero zero_of type (chan dir elem) s good lt p h = (good, Kept-refl s, (refl, refl))
  plain_zero zero_of type (interface e string embeds methods) s good lt p h =
      (good, Kept-refl s, (refl, refl))
  plain_zero zero_of type (map_of key elem) s good lt p h = (good, Kept-refl s, (refl, refl))
  plain_zero zero_of type (named pkg obj args underlying) s good lt p h = absurd p
  plain_zero zero_of type (pointer elem) s good lt p h = (good, Kept-refl s, (refl, refl))
  plain_zero zero_of type (signature pieces) s good lt p h = (good, Kept-refl s, (refl, refl))
  plain_zero zero_of type (slice elem) s good lt p h = (good, Kept-refl s, (refl, refl))
  plain_zero zero_of type (type_param obj) s good lt p h = (good, Kept-refl s, (refl, refl))
  plain_zero zero_of type (union terms) s good lt p h = (good, Kept-refl s, (refl, refl))
  plain_zero zero_of type other s good lt p h = absurd h

  -- Looked up, or found and stored.
  pub value_of :
      (New : ℕ → Type 0) (zero_of : ℕ → TypeAdder → Option (TypeAdder × Bytes)) (type : ℕ)
      (s : TypeAdder)
      → New type
      → Good heap s
      → Returns
          (Zeroed New s (λ s' z. ZeroOf s' heap type (heap type) z × (s'.zeros type ≡ none)))
          (node_zero texts mod_path heap zero_of fuel type (heap type) s)
      → Returns (Zeroed New s (λ s' z. s'.zeros type ≡ some z)) (
          node_zero texts mod_path heap zero_of fuel type (heap type) s
          >>= (λ (s', z). some (record s' { zeros = update s'.zeros type (some z) }, z)))
  unfolding ◌>>=◌
  value_of New zero_of type s is_new good h =
      store (node_zero texts mod_path heap zero_of fuel type (heap type) s) h
    where
      store :
          (o : Option (TypeAdder × Bytes))
          → Returns
              (Zeroed New s (λ s' z. ZeroOf s' heap type (heap type) z × (s'.zeros type ≡ none)))
              o
          → Returns
              (Zeroed New s (λ s' z. s'.zeros type ≡ some z))
              (o >>= (λ (s', z). some (record s' { zeros = update s'.zeros type (some z) }, z)))
      store none h' = absurd h'
      store (some (s', z)) (good', kept, (others, (said, new))) = (
        stored_zero-Good heap s' good' type z new said,
        Kept-trans s s' (stored_zero s' type z) kept
            (stored_zero-Kept heap s' good' type z new said),
        (
          λ c ne. update_ne s'.zeros type c (some z) (λ e. ne (subst New e is_new)) ∙ others c ne,
          update_self s'.zeros type (some z),
        ),
      )

  pub unchanged :
      (New : ℕ → Type 0) (type : ℕ) (s : TypeAdder) (P : TypeAdder → Bytes → Type 0)
      (o : Option (TypeAdder × Bytes))
      → s.zeros type ≡ none
      → Returns (Same s P) o
      → Returns (Zeroed New s (λ s' z. P s' z × (s'.zeros type ≡ none))) o
  unchanged New type s P none e h = absurd h
  unchanged New type s P (some (s', z)) e (good, kept, (same, h)) =
      (good, kept, (λ c ne. ap (λ m. m c) same, (h, ap (λ m. m type) same ∙ e)))

  pub plain_value :
      (steps type : ℕ) (s : TypeAdder)
      → Good heap s
      → (is_aggregate (heap type) ≡ true → rank type < fuel)
      → IsPlain heap rank (heap type)
      → Returns
          (Zeroed (λ c. c ≡ type) s (λ s' z. s'.zeros type ≡ some z))
          (zero_value texts mod_path heap (suc steps) fuel type s)
  unfolding zero_value
  plain_value steps type s good lt p = elim (Option-cases (s.zeros type)) [
    | inr (z, e) ↦ rw (e, zero_value) (good, Kept-refl s, (λ c ne. refl, e))
    | inl e ↦
        let zero_of = zero_value texts mod_path heap steps fuel in
        rw (e, zero_value)
          (value_of (λ c. c ≡ type) zero_of type s refl good
            (unchanged (λ c. c ≡ type) type s (λ s' z. ZeroOf s' heap type (heap type) z) _ e
              (plain_zero zero_of type (heap type) s good lt p (sound type))))
  ]
