-- ===== src/Version/Pypi/Order.antt =====
-- The order of `CompareVersions`: each step compares by a key.
use snailmail.Base.{
  if◌then◌else◌, length, Bytes, codes, ◌then_by◌, IsPreorder-key, IsPreorder-then,
  IsPreorder-compare, compare_list, IsPreorder-compare_list, IsPreorder-compare_padded,
  compare_bytes, IsPreorder-compare_bytes, IsPreorder, compare_int, IsPreorder-compare_int, ℤ, pos,
  negsuc, IsComparator-of_read, IsComparator, ℕ, compare, eq, ◌≡◌, refl, fun_ext, Bool, not, List,
  [], ◌∷◌, arith,
}
use snailmail.Version.Numeric.{compare_numeric, IsPreorder-compare_numeric}
use snailmail.Version.Pypi.{
  Pep440Version, parse_pep440, compare_numeric_string, pre_rank, compare_pre,
  compare_optional_number, numeric_segment, compare_local_segment, local_loop, compare_local,
  compare_parsed, compare_versions,
}

compare_numeric_string-numeric : (a b : Bytes) → compare_numeric_string a b ≡ compare_numeric a b
unfolding compare_numeric_string compare_numeric
compare_numeric_string-numeric a b = refl

IsPreorder-compare_numeric_string : IsPreorder compare_numeric_string
IsPreorder-compare_numeric_string =
    rw (fun_ext λ a. fun_ext λ b. compare_numeric_string-numeric a b) IsPreorder-compare_numeric

-- By a rank, and then, where a value is there, by the value.
abbrev number_if : Bool → Bytes → Bytes
number_if b s = if b then s else []

abbrev phase_key : Pep440Version → ℕ
phase_key v = if v.has_pre then v.pre_phase else 0

no_numbers : compare_numeric_string [] [] ≡ eq
unfolding compare_numeric_string
no_numbers = refl

compare_pre-keys :
    (a b : Pep440Version)
    → compare_pre a b
      ≡ compare_int (pre_rank a) (pre_rank b)
        then_by compare (phase_key a) (phase_key b)
        then_by compare_numeric_string
            (number_if a.has_pre a.pre_number)
            (number_if b.has_pre b.pre_number)
unfolding compare_pre
compare_pre-keys a b = ground (arith, no_numbers)

IsPreorder-compare_pre : IsPreorder compare_pre
IsPreorder-compare_pre = rw (fun_ext λ a. fun_ext λ b. compare_pre-keys a b) (
    IsPreorder-then (IsPreorder-key pre_rank IsPreorder-compare_int) (
      IsPreorder-then (IsPreorder-key phase_key IsPreorder-compare) (
        IsPreorder-key (λ (v : Pep440Version). number_if v.has_pre v.pre_number)
          IsPreorder-compare_numeric_string)))

abbrev rank_of : ℤ → ℤ → Bool → ℤ
rank_of absent present b = if b then present else absent

module _ {A : Type 0} (there : A → Bool) (number : A → Bytes) where
  post-keys :
      (a b : A)
      → compare_optional_number (there a) (number a) (there b) (number b) (negsuc 0) (pos 1)
        ≡ compare_int (rank_of (negsuc 0) (pos 1) (there a)) (rank_of (negsuc 0) (pos 1) (there b))
          then_by compare_numeric_string
              (number_if (there a) (number a))
              (number_if (there b) (number b))
  unfolding compare_optional_number
  post-keys a b = ground (arith, no_numbers)

  dev-keys :
      (a b : A)
      → compare_optional_number (there a) (number a) (there b) (number b) (pos 1) (negsuc 0)
        ≡ compare_int (rank_of (pos 1) (negsuc 0) (there a)) (rank_of (pos 1) (negsuc 0) (there b))
          then_by compare_numeric_string
              (number_if (there a) (number a))
              (number_if (there b) (number b))
  unfolding compare_optional_number
  dev-keys a b = ground (arith, no_numbers)

  IsPreorder-optional :
      (absent present : ℤ)
      → IsPreorder (λ (a b : A).
        compare_int (rank_of absent present (there a)) (rank_of absent present (there b))
        then_by compare_numeric_string
            (number_if (there a) (number a))
            (number_if (there b) (number b)))
  IsPreorder-optional absent present =
      IsPreorder-then
        (IsPreorder-key (λ (a : A). rank_of absent present (there a)) IsPreorder-compare_int)
        (IsPreorder-key (λ (a : A). number_if (there a) (number a))
          IsPreorder-compare_numeric_string)

-- A numeric segment is above every other.
abbrev segment_rank : Bytes → ℕ
segment_rank s = if numeric_segment s then 1 else 0

no_text : compare_bytes [] [] ≡ eq
unfolding compare_list
no_text = refl

compare_local_segment-keys :
    (a b : Bytes)
    → compare_local_segment a b
      ≡ compare (segment_rank a) (segment_rank b)
        then_by compare_numeric_string
            (number_if (numeric_segment a) a)
            (number_if (numeric_segment b) b)
        then_by compare_bytes
            (number_if (not (numeric_segment a)) a)
            (number_if (not (numeric_segment b)) b)
unfolding compare_local_segment
compare_local_segment-keys a b = ground (arith, no_numbers, no_text)

IsPreorder-compare_local_segment : IsPreorder compare_local_segment
IsPreorder-compare_local_segment = rw (fun_ext λ a. fun_ext λ b. compare_local_segment-keys a b) (
    IsPreorder-then (IsPreorder-key segment_rank IsPreorder-compare) (
      IsPreorder-then
        (IsPreorder-key (λ (s : Bytes). number_if (numeric_segment s) s)
          IsPreorder-compare_numeric_string)
        (IsPreorder-key (λ (s : Bytes). number_if (not (numeric_segment s)) s)
          IsPreorder-compare_bytes)))

-- The loop and the comparison of the lengths together are the lexicographic order.
local_loop-lengths :
    (xs ys : List Bytes)
    → local_loop xs ys then_by compare (length xs) (length ys)
      ≡ compare_list compare_local_segment xs ys
unfolding local_loop compare_list
local_loop-lengths [] [] = refl
local_loop-lengths [] (y ∷ ys) = ground arith
local_loop-lengths (x ∷ xs) [] = ground arith
local_loop-lengths (x ∷ xs) (y ∷ ys) = ground (arith, local_loop-lengths xs ys)

compare_local-list :
    (xs ys : List Bytes) → compare_local xs ys ≡ compare_list compare_local_segment xs ys
unfolding compare_local
compare_local-list [] [] = local_loop-lengths [] []
compare_local-list [] (y ∷ ys) = unfold compare_list in refl
compare_local-list (x ∷ xs) [] = unfold compare_list in refl
compare_local-list (x ∷ xs) (y ∷ ys) = ground (arith, local_loop-lengths (x ∷ xs) (y ∷ ys))

IsPreorder-compare_local : IsPreorder compare_local
IsPreorder-compare_local =
    rw (fun_ext λ a. fun_ext λ b. compare_local-list a b)
      (IsPreorder-compare_list IsPreorder-compare_local_segment)

abbrev V : Type 0
V = Pep440Version

IsPreorder-compare_post : IsPreorder (λ (a b : V).
    compare_optional_number a.has_post a.post_number b.has_post b.post_number (negsuc 0) (pos 1))
IsPreorder-compare_post =
    rw (fun_ext λ a. fun_ext λ b. post-keys (λ (v : V). v.has_post) (λ v. v.post_number) a b)
      (IsPreorder-optional (λ (v : V). v.has_post) (λ v. v.post_number) (negsuc 0) (pos 1))

IsPreorder-compare_dev : IsPreorder (λ (a b : V).
    compare_optional_number a.has_dev a.dev_number b.has_dev b.dev_number (pos 1) (negsuc 0))
IsPreorder-compare_dev =
    rw (fun_ext λ a. fun_ext λ b. dev-keys (λ (v : V). v.has_dev) (λ v. v.dev_number) a b)
      (IsPreorder-optional (λ (v : V). v.has_dev) (λ v. v.dev_number) (pos 1) (negsuc 0))

IsPreorder-compare_parsed : IsPreorder compare_parsed
unfolding compare_parsed
IsPreorder-compare_parsed =
    IsPreorder-then (IsPreorder-key (λ (v : V). v.epoch) IsPreorder-compare_numeric_string) (
      IsPreorder-then
        (IsPreorder-key (λ (v : V). v.release)
          (IsPreorder-compare_padded IsPreorder-compare_numeric_string (codes "0")))
        (IsPreorder-then IsPreorder-compare_pre (
          IsPreorder-then IsPreorder-compare_post (
            IsPreorder-then IsPreorder-compare_dev
              (IsPreorder-key (λ (v : V). v.local) IsPreorder-compare_local)))))

-- `CompareVersions` ends on every two strings, with an order or an error, and on the versions that
-- it accepts the order is a total preorder.
pub pypi_versions-IsComparator : IsComparator compare_versions
unfolding compare_versions
pypi_versions-IsComparator =
    IsComparator-of_read parse_pep440 compare_parsed IsPreorder-compare_parsed (λ a b. refl)
