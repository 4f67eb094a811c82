-- ===== src/Version/Numeric.antt =====
-- formats/deb/version.go: `compareNumeric`, numbers of any length as digit strings.
use snailmail.Base.{
  ltb, ◌==◌, if◌then◌else◌, length, Bytes, ◌then_by◌, IsPreorder-key, IsPreorder-then,
  IsPreorder-compare, compare_list, compare_bytes, IsPreorder-compare_bytes, IsPreorder, trim_left,
  ℕ, compare, Ordering, lt, eq, gt, ◌≡◌, fun_ext, Bool, true, false, arith,
}

abbrev pub is_zero : ℕ → Bool
is_zero c = c == b'0'

-- `strings.TrimLeft(value, "0")`
abbrev pub trim_zeros : Bytes → Bytes
trim_zeros = trim_left is_zero

-- `left < right` on strings.
abbrev pub ltb_bytes : Bytes → Bytes → Bool
ltb_bytes a b = elim (compare_bytes a b) [ lt ↦ true | _ ↦ false ]

abbrev compare_trimmed : Bytes → Bytes → Ordering
compare_trimmed left right =
    if ltb (length left) (length right)
    then lt
    else if ltb (length right) (length left)
    then gt
    else if ltb_bytes left right
    then lt
    else if ltb_bytes right left
    then gt
    else eq

unfoldable pub compare_numeric : Bytes → Bytes → Ordering
unfolding trim_left compare_list
compare_numeric left right = compare_trimmed (trim_zeros left) (trim_zeros right)

-- By length, and then bytewise.
abbrev pub by_length : Bytes → Bytes → Ordering
by_length a b = compare (length a) (length b) then_by compare_bytes a b

pub IsPreorder-by_length : IsPreorder by_length
IsPreorder-by_length =
    IsPreorder-then (IsPreorder-key (λ (s : Bytes). length s) IsPreorder-compare)
      IsPreorder-compare_bytes

compare_trimmed-by_length : (a b : Bytes) → compare_trimmed a b ≡ by_length a b
compare_trimmed-by_length a b = ground (arith, IsPreorder-compare_bytes.swapped a b)

pub compare_numeric-by_length :
    (a b : Bytes) → compare_numeric a b ≡ by_length (trim_zeros a) (trim_zeros b)
unfolding compare_numeric
compare_numeric-by_length a b = compare_trimmed-by_length (trim_zeros a) (trim_zeros b)

pub IsPreorder-compare_numeric : IsPreorder compare_numeric
IsPreorder-compare_numeric =
    rw (fun_ext λ a. fun_ext λ b. compare_numeric-by_length a b)
      (IsPreorder-key trim_zeros IsPreorder-by_length)
