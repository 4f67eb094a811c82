-- ===== src/Base/Text.antt =====
-- The functions of packages strings and strconv that the source calls. An index that the source
-- uses only to slice at it is modelled by the two slices.
use Prim.Native.Nat.{ℕ, zero, suc, ◌+◌, ◌-◌, ◌*◌, ◌≤◌}
use mathlib.Core.Bool.{Bool, true, false, not, ◌&&◌, ◌||◌}
use mathlib.Core.Path.{◌≡◌, refl}
use mathlib.Core.Option
use mathlib.Core.Option.{Option, none, some}
use mathlib.Core.List.{List, [], ◌∷◌, ◌++◌, reverse}
use native.Mathlib.Omega.{arith}
use snailmail.Base.Int.{ℤ, pos, neg_of_ℕ}
use snailmail.Base.Tests.{ltb, leb, ◌==◌, if◌then◌else◌, length, Bytes}

unfoldable pub is_digit : ℕ → Bool
is_digit c = leb b'0' c && leb c b'9'

unfoldable pub is_lower : ℕ → Bool
is_lower c = leb b'a' c && leb c b'z'

unfoldable pub is_alpha : ℕ → Bool
is_alpha c = (leb b'a' c && leb c b'z') || (leb b'A' c && leb c b'Z')

-- A loop that takes bytes while `accept` holds: the bytes, and the rest.
unfoldable pub take_while : (ℕ → Bool) → Bytes → Bytes × Bytes
take_while accept [] = ([], [])
take_while accept (c ∷ s) =
    let (front, rest) = take_while accept s in if accept c then (c ∷ front, rest) else ([], c ∷ s)

pub take_while_shorter : (accept : ℕ → Bool) (s : Bytes) → length (take_while accept s).1 ≤ length s
unfolding take_while
take_while_shorter accept [] = omega arith
take_while_shorter accept (c ∷ s) = ground (arith, take_while_shorter accept s)

-- `TrimLeft`, for a set of bytes.
unfoldable pub trim_left : (ℕ → Bool) → Bytes → Bytes
trim_left drop [] = []
trim_left drop (c ∷ s) = if drop c then trim_left drop s else c ∷ s

-- `TrimRight`: a byte goes if it is in the set and all behind it have gone.
unfoldable pub trim_right_cons : (ℕ → Bool) → ℕ → Bytes → Bytes
trim_right_cons drop c [] = if drop c then [] else c ∷ []
trim_right_cons drop c (d ∷ r) = c ∷ d ∷ r

unfoldable pub trim_right : (ℕ → Bool) → Bytes → Bytes
unfolding trim_right_cons
trim_right drop [] = []
trim_right drop (c ∷ s) = trim_right_cons drop c (trim_right drop s)

-- `value[n:]`, where `n` is within the string.
unfoldable pub drop : ℕ → Bytes → Bytes
drop zero s = s
drop (suc n) [] = []
drop (suc n) (c ∷ s) = drop n s

-- `value[1:]`, where the string is not empty.
abbrev pub tail : Bytes → Bytes
tail [] = []
tail (_ ∷ s) = s

-- `HasPrefix` and `HasSuffix`, and `TrimPrefix`.
unfoldable pub has_prefix : Bytes → Bytes → Bool
has_prefix s [] = true
has_prefix [] (p ∷ ps) = false
has_prefix (c ∷ s) (p ∷ ps) = c == p && has_prefix s ps

unfoldable pub has_suffix : Bytes → Bytes → Bool
unfolding has_prefix
has_suffix s suffix = has_prefix (reverse s) (reverse suffix)

unfoldable pub contains : (ℕ → Bool) → Bytes → Bool
contains test [] = false
contains test (c ∷ s) = test c || contains test s

unfoldable pub all : (ℕ → Bool) → Bytes → Bool
all test [] = true
all test (c ∷ s) = test c && all test s

-- `IndexByte`: the bytes before the first `sep`, and those behind it.
unfoldable pub cut_first : ℕ → Bytes → Option (Bytes × Bytes)
cut_first sep [] = none
cut_first sep (c ∷ s) =
    if c == sep
    then some ([], s)
    else elim (cut_first sep s) [ none ↦ none | some (a, b) ↦ some (c ∷ a, b) ]

-- `LastIndexByte`: the bytes before the last `sep`, and those behind it.
unfoldable pub cut_last : ℕ → Bytes → Option (Bytes × Bytes)
cut_last sep [] = none
cut_last sep (c ∷ s) = elim (cut_last sep s) [
  | none ↦ if c == sep then some ([], s) else none
  | some (a, b) ↦ some (c ∷ a, b)
]

-- `Split` at a byte: always one more piece than there are separators.
unfoldable pub split_onto : ℕ → List Bytes → List Bytes
split_onto c [] = (c ∷ []) ∷ []
split_onto c (w ∷ ws) = (c ∷ w) ∷ ws

unfoldable pub split : ℕ → Bytes → List Bytes
unfolding split_onto
split sep [] = [] ∷ []
split sep (c ∷ s) = let rest = split sep s in if c == sep then [] ∷ rest else split_onto c rest

-- `FieldsFunc`: the maximal runs of bytes that are no separators, none of them empty.
unfoldable pub flush_field : Bytes → List Bytes → List Bytes
flush_field [] ws = ws
flush_field (c ∷ w) ws = (c ∷ w) ∷ ws

unfoldable pub fields_from : (ℕ → Bool) → Bytes → Bytes → List Bytes
unfolding flush_field
fields_from sep word [] = flush_field word []
fields_from sep word (c ∷ s) =
    let skip = flush_field word (fields_from sep [] s) in
    let grow = fields_from sep (word ++ c ∷ []) s in if sep c then skip else grow

unfoldable pub fields : (ℕ → Bool) → Bytes → List Bytes
unfolding fields_from
fields sep s = fields_from sep [] s

-- The value of a run of decimal digits.
unfoldable pub decimal : ℕ → Bytes → ℕ
decimal acc [] = acc
decimal acc (c ∷ s) = decimal (acc * 10 + (c - b'0')) s

-- `strconv.ParseUint` in base 10: digits only, at least one, below the limit.
unfoldable pub parse_uint : ℕ → Bytes → Option ℕ
unfolding is_digit all decimal
parse_uint limit [] = none
parse_uint limit (c ∷ s) =
    if all is_digit (c ∷ s) && ltb (decimal 0 (c ∷ s)) limit then some (decimal 0 (c ∷ s)) else none

-- `strconv.ParseInt` in base 10: a sign or none, and digits; `limit` is 2 to the width less one.
unfoldable pub parse_int : ℕ → Bytes → Option ℤ
unfolding parse_uint
parse_int limit [] = none
parse_int limit (c ∷ s) =
    if c == b'-'
    then Option.map neg_of_ℕ (parse_uint (limit + 1) s)
    else Option.map pos (parse_uint limit (if c == b'+' then s else c ∷ s))

-- The byte `sep` does not occur.
unfoldable pub is_free : ℕ → Bytes → Bool
unfolding all
is_free sep = all (λ c. not (c == sep))

-- What stands before the first separator, and behind it.
pub cut :
    (sep : ℕ) (xs ys : Bytes) {t u : Bytes}
    → is_free sep xs ≡ true
    → is_free sep ys ≡ true
    → xs ++ sep ∷ t ≡ ys ++ sep ∷ u
    → (xs ≡ ys) × (t ≡ u)
unfolding is_free
cut sep [] [] p q e = (refl, cc)
cut sep [] (y ∷ ys) p q e = ground arith
cut sep (x ∷ xs) [] p q e = ground arith
cut sep (x ∷ xs) (y ∷ ys) {t} {u} p q e =
    let tails : xs ++ sep ∷ t ≡ ys ++ sep ∷ u = cc in
    let (same, rest) = cut sep xs ys (ground arith) (ground arith) tails in (cc, rest)
