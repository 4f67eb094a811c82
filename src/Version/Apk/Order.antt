-- ===== src/Version/Apk/Order.antt =====
-- The order of `CompareVersions`.
use snailmail.Base.{
  Bytes, codes, ◌then_by◌, IsPreorder-key, IsPreorder-then, IsPreorder-compare, compare_padded,
  IsPreorder-compare_padded, compare_bytes, IsPreorder-compare_bytes, IsPreorder, is_digit, all,
  decimal, compare_int, IsPreorder-compare_int, of_option, IsComparator-of_read, IsComparator, ok,
  ℕ, compare, Ordering, ◌≡◌, refl, ap, fun_ext, Bool, true, false, ◌&&◌, Option, none, some, List,
  [], ◌∷◌, map, arith, ◌>>=◌,
}
use snailmail.Version.Apk.{
  Suffix, Version, compare_number, no_suffix, compare_suffix, compare_revision,
  compare_parsed_versions, parse_version, compare_versions,
}
use snailmail.Version.Apk.Number.{
  fits, key, compare_key, IsPreorder-compare_key, compare_number-key,
}

abbrev pub all_fit : List Bytes → Bool
all_fit [] = true
all_fit (part ∷ parts) = fits part && all_fit parts

abbrev pub representable_parsed : Option Version → Bool
representable_parsed none = true
representable_parsed (some v) = all_fit v.numbers

-- The version is refused, or every component of it is below 2 to the 63.
abbrev pub representable : Bytes → Bool
representable version = representable_parsed (parse_version version)

abbrev pub Representable : Type 0
Representable = (version : Bytes) × (representable version ≡ true)

zero_fits : fits (codes "0") ≡ true
unfolding all decimal is_digit
zero_fits = refl

compare_numbers-key :
    (xs ys : List Bytes)
    → all_fit xs ≡ true
    → all_fit ys ≡ true
    → compare_padded compare_number (codes "0") xs ys
      ≡ compare_padded compare_key (key (codes "0")) (map key xs) (map key ys)
unfolding compare_padded
compare_numbers-key [] [] h g = refl
compare_numbers-key [] (y ∷ ys) h g =
    ground (arith, compare_number-key (codes "0") y zero_fits, compare_numbers-key [] ys refl)
compare_numbers-key (x ∷ xs) [] h g = ground (
  arith,
  λ (p : fits x ≡ true). compare_number-key x (codes "0") p zero_fits,
  λ (p : all_fit xs ≡ true). compare_numbers-key xs [] p refl,
)
compare_numbers-key (x ∷ xs) (y ∷ ys) h g =
    ground (arith, compare_number-key x y, compare_numbers-key xs ys)

abbrev flag : Bool → ℕ
flag false = 0
flag true = 1

compare_suffix-then :
    (a b : Suffix)
    → compare_suffix a b ≡ compare_int a.rank b.rank then_by compare_int a.number b.number
unfolding compare_suffix
compare_suffix-then a b = ground arith

compare_revision-then :
    (a b : Version)
    → compare_revision a b
      ≡ compare (flag a.has_revision) (flag b.has_revision)
        then_by compare_int a.revision b.revision
unfolding compare_revision
compare_revision-then a b = ground arith

IsPreorder-compare_suffix : IsPreorder compare_suffix
IsPreorder-compare_suffix = rw (fun_ext λ a. fun_ext λ b. compare_suffix-then a b) (
    IsPreorder-then (IsPreorder-key (λ (s : Suffix). s.rank) IsPreorder-compare_int)
      (IsPreorder-key (λ (s : Suffix). s.number) IsPreorder-compare_int))

IsPreorder-compare_revision : IsPreorder compare_revision
IsPreorder-compare_revision = rw (fun_ext λ a. fun_ext λ b. compare_revision-then a b) (
    IsPreorder-then (IsPreorder-key (λ (v : Version). flag v.has_revision) IsPreorder-compare)
      (IsPreorder-key (λ (v : Version). v.revision) IsPreorder-compare_int))

abbrev compare_keys : Version → Version → Ordering
compare_keys a b =
    compare_padded compare_key (key (codes "0")) (map key a.numbers) (map key b.numbers)
    then_by compare_bytes a.letter b.letter
    then_by compare_padded compare_suffix no_suffix a.suffixes b.suffixes
    then_by compare_revision a b

IsPreorder-compare_keys : IsPreorder compare_keys
IsPreorder-compare_keys =
    IsPreorder-then
      (IsPreorder-key (λ (v : Version). map key v.numbers)
        (IsPreorder-compare_padded IsPreorder-compare_key (key (codes "0"))))
      (IsPreorder-then (IsPreorder-key (λ (v : Version). v.letter) IsPreorder-compare_bytes) (
        IsPreorder-then
          (IsPreorder-key (λ (v : Version). v.suffixes)
            (IsPreorder-compare_padded IsPreorder-compare_suffix no_suffix))
          IsPreorder-compare_revision))

compare_parsed_versions-keys :
    (a b : Version)
    → all_fit a.numbers ≡ true
    → all_fit b.numbers ≡ true
    → compare_parsed_versions a b ≡ compare_keys a b
unfolding compare_parsed_versions
compare_parsed_versions-keys a b h g = rw (compare_numbers-key a.numbers b.numbers h g)

compare_versions-read :
    (a b : Representable)
    → compare_versions a.0 b.0 ≡ (do
      x ← of_option (parse_version a.0)
      y ← of_option (parse_version b.0)
      ok (compare_keys x y))
unfolding compare_versions
compare_versions-read a b = go (parse_version a.0) (parse_version b.0) a.1 b.1
  where
    go :
        (x y : Option Version)
        → representable_parsed x ≡ true
        → representable_parsed y ≡ true
        → (do v ← of_option x; w ← of_option y; ok (compare_parsed_versions v w))
          ≡ (do v ← of_option x; w ← of_option y; ok (compare_keys v w))
    go none y h g = refl
    go (some v) none h g = refl
    go (some v) (some w) h g = ap ok (compare_parsed_versions-keys v w h g)

-- On the versions whose components are below 2 to the 63 `CompareVersions` ends with an order or an
-- error, and the order is a total preorder on those that it accepts.
pub apk_versions-IsComparator : IsComparator (λ (a b : Representable). compare_versions a.0 b.0)
apk_versions-IsComparator =
    IsComparator-of_read (λ (a : Representable). parse_version a.0) compare_keys
      IsPreorder-compare_keys compare_versions-read
