-- ===== src/Metrics/Grpc.antt =====
-- The labels that metrics/grpc.go takes from the address of a peer and the full name of a method.
use clue.Base.{
  ℕ, suc, ◌<◌, ◌≡◌, refl, ap, ◌∙◌, ◌==◌, Bool, true, false, ◌||◌, Option, none, some, [], ◌∷◌, ◌++◌,
  Bytes, length, take, drop, ltb, lt→ltb, take-append_eq, if◌then◌else◌, arith,
}

abbrev pub later : Option ℕ → Bool → Option ℕ
later (some idx) here = some (suc idx)
later none true = some 0
later none false = none

-- strings.LastIndex of one byte; none is -1.
pub last_index : ℕ → Bytes → Option ℕ
last_index b [] = none
last_index b (c ∷ cs) = later (last_index b cs) (c == b)

-- What stands before and behind the byte at an index that is not 0, or else all and nothing.
cut_at : Bytes → Option ℕ → Bytes × Bytes
cut_at text none = (text, [])
cut_at text (some idx) = if ltb 0 idx then (take idx text, drop (suc idx) text) else (text, [])

-- `parseAddr`
pub parse_addr : Bytes → Bytes × Bytes
unfolding cut_at last_index
parse_addr [] = ([], [])
parse_addr (c ∷ cs) = if c == b':' then ([], cs) else cut_at (c ∷ cs) (last_index b':' (c ∷ cs))

behind : Bytes → Option ℕ → Bytes
behind text none = text
behind text (some idx) = drop (suc idx) text

-- `parseGRPCFullMethodName`
pub parse_grpc_full_method_name : Bytes → Bytes × Bytes
unfolding behind cut_at last_index
parse_grpc_full_method_name full_method_name =
    let name = behind full_method_name (last_index b'.' full_method_name) in
    cut_at name (last_index b'/' name)

abbrev pub contains : ℕ → Bytes → Bool
contains b [] = false
contains b (c ∷ cs) = (c == b) || contains b cs

last_index-none : (b : ℕ) (text : Bytes) → contains b text ≡ false → last_index b text ≡ none
unfolding last_index
last_index-none b [] h = refl
last_index-none b (c ∷ cs) h =
    rw (last_index-none b cs (ground (arith, h))) (rw (differ c cs h) refl)
  where
    differ : (c : ℕ) (cs : Bytes) → contains b (c ∷ cs) ≡ false → (c == b) ≡ false
    differ c cs h = ground (arith, h)

last_index-append :
    (b : ℕ) (xs ys : Bytes) → contains b ys ≡ false → last_index b (xs ++ b ∷ ys) ≡ some (length xs)
unfolding last_index
last_index-append b [] ys h = rw (last_index-none b ys h) (rw (same b) refl)
  where
    same : (b : ℕ) → (b == b) ≡ true
    same b = ground arith
last_index-append b (x ∷ xs) ys h = rw (last_index-append b xs ys h) refl

drop_past : (xs : Bytes) (b : ℕ) (ys : Bytes) → drop (suc (length xs)) (xs ++ b ∷ ys) ≡ ys
drop_past [] b ys = refl
drop_past (x ∷ xs) b ys = drop_past xs b ys

-- The text around the last occurrence of a byte that is not the first byte.
cut_at-append :
    (b : ℕ) (xs ys : Bytes)
    → 0 < length xs
    → contains b ys ≡ false
    → cut_at (xs ++ b ∷ ys) (last_index b (xs ++ b ∷ ys)) ≡ (xs, ys)
unfolding cut_at
cut_at-append b xs ys h none_behind =
    rw (last_index-append b xs ys none_behind, lt→ltb 0 (length xs) h)
      (λ i. (take-append_eq (length xs) xs (b ∷ ys) refl i, drop_past xs b ys i))

-- A peer's address is split at its last colon into host and port, whatever colons the host has but a
-- first one; the port of an address without a host is found as well.
pub parse_addr-append :
    (host port : Bytes)
    → contains b':' (take 1 host) ≡ false
    → contains b':' port ≡ false
    → parse_addr (host ++ b':' ∷ port) ≡ (host, port)
unfolding parse_addr
parse_addr-append [] port h no_colon = refl
parse_addr-append (c ∷ cs) port h no_colon =
    let text = c ∷ (cs ++ b':' ∷ port) in
    ap (λ b. if b then ([], cs ++ b':' ∷ port) else cut_at text (last_index b':' text)) (first c h)
    ∙ cut_at-append b':' (c ∷ cs) port (omega arith) no_colon
  where
    first : (c : ℕ) → contains b':' (c ∷ []) ≡ false → (c == b':') ≡ false
    first c h = ground (arith, h)

-- A full name of a package, a dot, a service, a slash and a method gives the service and the method,
-- if the service is not empty, neither has a dot and the method has no slash.
pub parse_grpc_full_method_name-append :
    (pkg service method : Bytes)
    → 0 < length service
    → contains b'.' (service ++ b'/' ∷ method) ≡ false
    → contains b'/' method ≡ false
    → parse_grpc_full_method_name (pkg ++ b'.' ∷ (service ++ b'/' ∷ method)) ≡ (service, method)
unfolding parse_grpc_full_method_name behind
parse_grpc_full_method_name-append pkg service method h no_dot no_slash =
    rw
      (
        last_index-append b'.' pkg (service ++ b'/' ∷ method) no_dot,
        drop_past pkg b'.' (service ++ b'/' ∷ method),
      )
      (cut_at-append b'/' service method h no_slash)

-- The full name of a method of a service in no package, which begins with a slash, gives the service
-- with that slash, if neither name has a dot and the method has no slash.
pub keeps_slash :
    (service method : Bytes)
    → contains b'.' (service ++ b'/' ∷ method) ≡ false
    → contains b'/' method ≡ false
    → parse_grpc_full_method_name (b'/' ∷ (service ++ b'/' ∷ method)) ≡ (b'/' ∷ service, method)
unfolding parse_grpc_full_method_name behind
keeps_slash service method no_dot no_slash =
    rw (last_index-none b'.' (b'/' ∷ (service ++ b'/' ∷ method)) no_dot)
      (cut_at-append b'/' (b'/' ∷ service) method (omega arith) no_slash)
