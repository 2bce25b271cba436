-- ===== src/Generator/Types/Named.antt =====
-- That the names of types are found, and what they say (mock/cmd/cmg/pkg/generate/type.go).
use clue.Base.{
  ℕ, zero, suc, ◌<◌, ◌≡◌, refl, ap, ◌∙◌, subst, inl, inr, Option-cases, true, false, String, List,
  [], ◌∷◌, All, Option, none, some, ◌++◌, Bytes, codes, update, update_ne, update_self, ◌>>=◌,
  arith, ◌==◌, Bool-cases, ==_iff,
}
use clue.Base.Int.{decimal_ℤ}
use clue.Generator.Names.{Numbers}
use clue.Generator.Imports.{Texts}
use clue.Generator.Types.{
  bool_kind, complex64, complex128, string_kind, unsafe_pointer, other_kind, Node, array, basic,
  chan, interface, map_of, named, pointer, signature, slice, struct, type_param, union, other,
  TypeAdder, joined_by, send_recv, send_only, recv_only, groups, each, piece_text, method_text,
  group_text, term_text, object_name, type_args, node_text, name,
}
use clue.Generator.Types.Spelled.{
  Each, NameOf, PieceOf, MethodOf, GroupOf, TermOf, ObjectOf, ArgsOf, Spelled, Each-mono,
  Each-group_of,
}
use clue.Generator.Types.Structs.{groups-Parted}
use clue.Generator.Types.Kept.{
  Kept, Kept-trans, NameOf-mono, PieceOf-mono, MethodOf-mono, GroupOf-mono, TermOf-mono,
  ObjectOf-mono, Spelled-mono, ZeroOf-mono, Good, IsMethod, Reads, IsHeap,
}
use clue.Generator.Types.Steps.{
  done, after-bind, package_put, Names, name_put, each_lem, update-kept,
}
use clue.Generator.Types.Parts.{
  Ok, GroupIs, groups-All, each_put, piece_text_lem, method_text_lem, group_text_lem, term_text_lem,
  object_name_lem, type_args_lem,
}

-- The state with a new name.
abbrev pub stored : TypeAdder → ℕ → Bytes → TypeAdder
stored s type t = record s { names = update s.names type (some t) }

All-trivial : {A : Type 0} (as' : List A) → All {0, 0} (λ a. Unit) as'
All-trivial [] = tt
All-trivial (a ∷ rest) = (tt, All-trivial rest)

module _ (texts : Texts) (mod_path : String) (numbers : Numbers texts.numbered) (heap : ℕ → Node)
    (rank : ℕ → ℕ) where
  module _ (name_of : ℕ → TypeAdder → Option (TypeAdder × Bytes)) (n : ℕ)
      (found : Names texts mod_path numbers heap rank name_of n) where
    -- The cases of one type.
    abbrev Found : Node → TypeAdder → Type 0
    Found node s =
        Ok texts mod_path numbers heap rank n s (λ s' t. Spelled s' node t)
          (node_text texts mod_path name_of node s)

    plain_Found :
        (node : Node) (t : Bytes) (s : TypeAdder)
        → Good heap s
        → Spelled s node t
        → Ok texts mod_path numbers heap rank n s (λ s' u. Spelled s' node u) (some (s, t))
    plain_Found node t s good h =
        done texts mod_path numbers heap rank n s (λ s' u. Spelled s' node u) t good h

    node_text_lem :
        (node : Node) (s : TypeAdder) → Good heap s → Reads heap rank n node → Found node s
    unfolding node_text
    node_text_lem (array len elem) s good lt =
        name_put texts mod_path numbers heap rank name_of n found elem
          (λ t. codes "[" ++ (decimal_ℤ len ++ (codes "]" ++ t))) s good lt
    node_text_lem (basic unsafe_pointer obj) s good h =
        package_put texts mod_path numbers heap rank n [] "unsafe" (λ t. t ++ codes ".Pointer") s
          good refl refl
    node_text_lem (basic bool_kind obj) s good h =
        plain_Found (basic bool_kind obj) (codes obj) s good refl
    node_text_lem (basic complex64 obj) s good h =
        plain_Found (basic complex64 obj) (codes obj) s good refl
    node_text_lem (basic complex128 obj) s good h =
        plain_Found (basic complex128 obj) (codes obj) s good refl
    node_text_lem (basic string_kind obj) s good h =
        plain_Found (basic string_kind obj) (codes obj) s good refl
    node_text_lem (basic other_kind obj) s good h =
        plain_Found (basic other_kind obj) (codes obj) s good refl
    node_text_lem (chan send_recv elem) s good lt =
        name_put texts mod_path numbers heap rank name_of n found elem (λ t. codes "chan " ++ t) s
          good lt
    node_text_lem (chan send_only elem) s good lt =
        name_put texts mod_path numbers heap rank name_of n found elem (λ t. codes "chan<- " ++ t) s
          good lt
    node_text_lem (chan recv_only elem) s good lt =
        name_put texts mod_path numbers heap rank name_of n found elem (λ t. codes "<-chan " ++ t) s
          good lt
    node_text_lem (interface true text embeds methods) s good h =
        plain_Found (interface true text embeds methods) (codes text) s good refl
    node_text_lem (interface false text embeds methods) s good (he, hm) =
        after-bind texts mod_path numbers heap rank n s (λ s' ts. Each (NameOf s') embeds ts) _
          (each name_of embeds s) _
          (each_lem texts mod_path numbers heap rank n name_of (λ type. rank type < n) NameOf
            NameOf-mono found embeds s good he)
          (λ s' ts good' kept h.
            after-bind texts mod_path numbers heap rank n s'
              (λ s'' us. Each (MethodOf s'') methods us) _
              (each (method_text texts mod_path name_of) methods s') _
              (each_lem texts mod_path numbers heap rank n (method_text texts mod_path name_of)
                (IsMethod heap rank n) MethodOf MethodOf-mono
                (method_text_lem texts mod_path numbers heap rank name_of n found) methods s' good'
                hm)
              (λ s'' us good'' kept' h'.
                plain_Found (interface false text embeds methods) _ s'' good'' (
                  ts,
                  Each-mono (NameOf s') (NameOf s'') (NameOf-mono s' s'' kept') embeds ts h,
                  (us, h', refl),
                )))
    node_text_lem (map_of key elem) s good (hk, he) =
        after-bind texts mod_path numbers heap rank n s (λ s' t. NameOf s' key t) _ (name_of key s)
          _ (found key s good hk)
          (λ s' t good' kept h.
            after-bind texts mod_path numbers heap rank n s' (λ s'' u. NameOf s'' elem u) _
              (name_of elem s') _ (found elem s' good' he)
              (λ s'' u good'' kept' h'.
                plain_Found (map_of key elem) _ s'' good''
                  (t, kept'.names_kept key t h, (u, h', refl))))
    node_text_lem (named pkg obj args underlying) s good (h, under) =
        after-bind texts mod_path numbers heap rank n s (λ s' t. ObjectOf s' pkg obj t) _
          (object_name texts mod_path pkg obj s) _
          (object_name_lem texts mod_path numbers heap rank name_of n found pkg obj s good)
          (λ s' t good' kept h'.
            after-bind texts mod_path numbers heap rank n s' (λ s'' u. ArgsOf s'' args u) _
              (type_args texts mod_path name_of args s') _
              (type_args_lem texts mod_path numbers heap rank name_of n found args s' good' h)
              (λ s'' u good'' kept' h''.
                plain_Found (named pkg obj args underlying) _ s'' good''
                  (t, ObjectOf-mono s' s'' kept' pkg obj t h', (u, h'', refl))))
    node_text_lem (pointer elem) s good lt =
        name_put texts mod_path numbers heap rank name_of n found elem (λ t. codes "*" ++ t) s good
          lt
    node_text_lem (signature pieces) s good h =
        each_put texts mod_path numbers heap rank n (piece_text texts mod_path) (λ p. Unit) PieceOf
          PieceOf-mono
          (λ p s' good' h'. piece_text_lem texts mod_path numbers heap rank n p s' good')
          (λ ts. codes "func" ++ joined_by [] ts) pieces s good (All-trivial pieces)
    node_text_lem (slice elem) s good lt =
        name_put texts mod_path numbers heap rank name_of n found elem (λ t. codes "[]" ++ t) s good
          lt
    node_text_lem (struct fields) s good h =
        let (ps, all, parts, same) = groups-Parted fields in
        after-bind texts mod_path numbers heap rank n s
          (λ s' ts. Each (GroupOf s') (groups fields) ts) _
          (each (group_text texts mod_path name_of) (groups fields) s) _
          (each_lem texts mod_path numbers heap rank n (group_text texts mod_path name_of)
            (GroupIs (λ type. rank type < n)) GroupOf GroupOf-mono
            (group_text_lem texts mod_path numbers heap rank name_of n found) (groups fields) s good
            (groups-All (λ type. rank type < n) fields h))
          (λ s' ts good' kept h'. plain_Found (struct fields) _ s' good' (
            ps,
            all,
            parts,
            (ts, Each-group_of s' ps ts (subst (λ gs. Each (GroupOf s') gs ts) same h'), refl),
          ))
    node_text_lem (type_param obj) s good h = plain_Found (type_param obj) (codes obj) s good refl
    node_text_lem (union terms) s good h =
        each_put texts mod_path numbers heap rank n (term_text texts mod_path name_of)
          (λ term. rank term.type < n) TermOf TermOf-mono
          (term_text_lem texts mod_path numbers heap rank name_of n found)
          (λ ts. joined_by (codes " | ") ts) terms s good h
    node_text_lem other s good h = absurd h

  -- It is good, and keeps the old one, if the type had none.
  module _ (s : TypeAdder) (good : Good heap s) (type : ℕ) (t : Bytes) (new : s.names type ≡ none)
      (said : Spelled s (heap type) t) where
    stored-Kept : Kept s (stored s type t)
    stored-Kept = record {
      names_kept = λ c u h. update-kept s.names type c t u new h;
      zeros_kept = λ c z h. h;
      imports_kept = λ k i h. h;
    }

    stored-Good : Good heap (stored s type t)
    stored-Good = record {
      proper = good.proper;
      spelled = λ c u h. Spelled-mono s (stored s type t) stored-Kept (heap c) u (old_or_new c u h);
      zeroed = λ c z h.
          ZeroOf-mono s (stored s type t) stored-Kept heap c (heap c) z (good.zeroed c z h);
    }
      where
        old_or_new : (c : ℕ) (u : Bytes) → (stored s type t).names c ≡ some u → Spelled s (heap c) u
        old_or_new c u h = elim (Bool-cases (type == c)) [
          | inl e ↦
              let same = (==_iff type c).0 e in
              let text : t ≡ u = ground (arith, e, h) in
              subst (λ v. Spelled s (heap c) v) text (subst (λ p. Spelled s (heap p) t) same said)
          | inr e ↦ good.spelled c u (ground (arith, e, h))
        ]

  -- With more fuel than the rank of a type, its name is found.
  module _ (sound : IsHeap heap rank) where
    pub name_lem :
        (fuel n type : ℕ) (s : TypeAdder)
        → Good heap s
        → rank type < n
        → rank type < fuel
        → Ok texts mod_path numbers heap rank n s
            (λ s' t. NameOf s' type t)
            (name texts mod_path heap fuel type s)
    unfolding name ◌>>=◌
    name_lem zero n type s good lt h = absurd (omega (arith, h))
    name_lem (suc fuel) n type s good lt h = elim (Option-cases (s.names type)) [
      | inr (t, e) ↦
          rw (e, name)
            (done texts mod_path numbers heap rank n s (λ s' t'. NameOf s' type t') t good e)
      | inl e ↦
          rw (e, name)
            (after_node (node_text texts mod_path (name texts mod_path heap fuel) (heap type) s) e (
              node_text_lem (name texts mod_path heap fuel) (rank type)
                (λ c s' good' lt'. name_lem fuel (rank type) c s' good' lt' (omega (arith, lt', h)))
                (heap type) s good (sound type)))
    ]
      where
        after_node :
            (o : Option (TypeAdder × Bytes))
            → s.names type ≡ none
            → Ok texts mod_path numbers heap rank (rank type) s (λ s' t. Spelled s' (heap type) t) o
            → Ok texts mod_path numbers heap rank n s
                (λ s' t. NameOf s' type t)
                (o >>= (λ (s', text).
                  some (record s' { names = update s'.names type (some text) }, text)))
        after_node none e h' = absurd h'
        after_node (some (s', t)) e (good', kept, (below, same, said)) =
            let new = below type (omega arith) ∙ e in
            (
              stored-Good s' good' type t new said,
              Kept-trans s s' (stored s' type t) kept (stored-Kept s' good' type t new said),
              (
                λ c le.
                    update_ne s'.names type c (some t)
                      (λ e'. let r = ap rank e' in omega (arith, r, le, lt))
                    ∙ below c (omega (arith, le, lt)),
                same,
                update_self s'.names type (some t),
              ),
            )
