-- ===== src/Version/Apk.antt =====
-- formats/apk/version.go. A loop over an index that is below one of two lengths, with a default for
-- a missing element and a return at the first result that is not 0, is `compare_padded`.
pub mod Number
pub mod Order
use snailmail.Version.Numeric.{is_zero}
use snailmail.Base.{
  ltb, ◌==◌, if◌then◌else◌, length, Bytes, codes, ◌==ᵇ◌, ◌then_by◌, compare_padded, compare_list,
  compare_bytes, is_digit, is_lower, trim_left, trim_right, drop, tail, contains, cut_first, split,
  parse_int, compare_int, ℤ, pos, negsuc, of_option, Result, ok, ◌^◌, Ordering, lt, eq, gt, Bool,
  true, false, ◌&&◌, ◌||◌, Option, none, some, List, [], ◌∷◌, ◌>>=◌,
}

-- `suffixRank`; the unsuffixed release has rank 0.
abbrev ranks : List (Bytes × ℤ)
ranks =
    (codes "alpha", negsuc 4)
    ∷ (codes "beta", negsuc 3)
    ∷ (codes "pre", negsuc 2)
    ∷ (codes "rc", negsuc 1)
    ∷ (codes "cvs", pos 1)
    ∷ (codes "svn", pos 2)
    ∷ (codes "git", pos 3)
    ∷ (codes "hg", pos 4)
    ∷ (codes "p", pos 5)
    ∷ []

find_rank : Bytes → List (Bytes × ℤ) → Option ℤ
find_rank name [] = none
find_rank name ((word, rank) ∷ rest) = if word ==ᵇ name then some rank else find_rank name rest

suffix_rank : Bytes → Option ℤ
unfolding find_rank ◌==ᵇ◌
suffix_rank name = find_rank name ranks

pub record Suffix : Type 0 where
  pub rank : ℤ
  pub number : ℤ

pub record Version : Type 0 where
  pub numbers : List Bytes
  pub letter : Bytes
  pub suffixes : List Suffix
  pub revision : ℤ
  pub has_revision : Bool

pub starts_zero : Bytes → Bool
starts_zero [] = false
starts_zero (c ∷ _) = c == b'0'

abbrev pub compare_parsed : Bytes → Bytes → Option ℤ → Option ℤ → Ordering
compare_parsed left right (some a) (some b) = compare_int a b
compare_parsed left right none b = compare_bytes left right
compare_parsed left right (some a) none = compare_bytes left right

pub compare_number : Bytes → Bytes → Ordering
unfolding starts_zero
compare_number left right =
    if (starts_zero left || starts_zero right) && (ltb 1 (length left) || ltb 1 (length right))
    then compare_bytes (trim_right is_zero left) (trim_right is_zero right)
    else compare_parsed left right (parse_int (2 ^ 63) left) (parse_int (2 ^ 63) right)

abbrev pub no_suffix : Suffix
no_suffix = record { rank = pos 0; number = pos 0 }

pub compare_suffix : Suffix → Suffix → Ordering
compare_suffix left right = elim (compare_int left.rank right.rank) [
  | lt ↦ lt
  | gt ↦ gt
  | eq ↦ compare_int left.number right.number
]

pub compare_revision : Version → Version → Ordering
compare_revision left right =
    if left.has_revision
    then (if right.has_revision then compare_int left.revision right.revision else gt)
    else if right.has_revision
    then lt
    else compare_int left.revision right.revision

unfoldable pub compare_parsed_versions : Version → Version → Ordering
unfolding compare_padded compare_number compare_suffix compare_revision trim_right compare_list
    compare_int parse_int
compare_parsed_versions left right =
    compare_padded compare_number (codes "0") left.numbers right.numbers
    then_by compare_bytes left.letter right.letter
    then_by compare_padded compare_suffix no_suffix left.suffixes right.suffixes
    then_by compare_revision left right

-- `strings.LastIndex(value, "-r")`: what stands before it, and behind it.
starts_r : Bytes → Bool
starts_r [] = false
starts_r (c ∷ _) = c == b'r'

cut_revision : Bytes → Option (Bytes × Bytes)
unfolding starts_r
cut_revision [] = none
cut_revision (c ∷ s) = elim (cut_revision s) [
  | some (front, back) ↦ some (c ∷ front, back)
  | none ↦ if c == b'-' && starts_r s then some ([], tail s) else none
]

-- The revision and whether there is one, and what stands before it.
abbrev revision_of : Bytes → Option (Bytes × Bytes) → Option (ℤ × Bool × Bytes)
revision_of value none = some (pos 0, false, value)
revision_of value (some (front, digits)) = elim (parse_int (2 ^ 63) digits) [
  | none ↦ none
  | some (negsuc _) ↦ none
  | some (pos n) ↦ some (pos n, true, front)
]

abbrev suffix_number : Bytes → Option ℤ
suffix_number [] = some (pos 0)
suffix_number (c ∷ s) = parse_int (2 ^ 63) (c ∷ s)

parse_suffix : Bytes → Option Suffix
unfolding suffix_rank parse_int is_digit trim_right drop
parse_suffix part =
    let name = trim_right is_digit part in
    elim (suffix_rank name) [
      | none ↦ none
      | some rank ↦ elim (suffix_number (drop (length name) part)) [
        | none ↦ none
        | some number ↦ some (record { rank = rank; number = number })
      ]
    ]

parse_suffixes : List Bytes → Option (List Suffix)
unfolding parse_suffix
parse_suffixes [] = some []
parse_suffixes (part ∷ parts) = elim (parse_suffix part) [
  | none ↦ none
  | some suffix ↦ elim (parse_suffixes parts) [ none ↦ none | some rest ↦ some (suffix ∷ rest) ]
]

-- The suffixes, and what stands before the first underscore.
abbrev suffixes_of : Bytes → Option (Bytes × Bytes) → Option (List Suffix × Bytes)
suffixes_of value none = some ([], value)
suffixes_of value (some (front, back)) = elim (parse_suffixes (split b'_' back)) [
  | none ↦ none
  | some suffixes ↦ some (suffixes, front)
]

-- The trailing letter, if there is one, and what stands before it.
letter_of : Bytes → Bytes × Bytes
unfolding is_lower
letter_of [] = ([], [])
letter_of (c ∷ []) = if is_lower c then (c ∷ [], []) else ([], c ∷ [])
letter_of (c ∷ d ∷ s) = let (letter, front) = letter_of (d ∷ s) in (letter, c ∷ front)

abbrev is_numeric : Bytes → Bool
is_numeric [] = false
is_numeric (c ∷ s) = elim (trim_left is_digit (c ∷ s)) [ [] ↦ true | _ ∷ _ ↦ false ]

all_numeric : List Bytes → Bool
all_numeric [] = true
all_numeric (part ∷ parts) = is_numeric part && all_numeric parts

abbrev numbers_of : Bytes → Option (List Bytes)
numbers_of [] = none
numbers_of (c ∷ s) = if all_numeric (split b'.' (c ∷ s)) then some (split b'.' (c ∷ s)) else none

abbrev with_numbers : ℤ → Bool → List Suffix → Bytes × Bytes → Option Version
with_numbers revision has_revision suffixes (letter, front) = elim (numbers_of front) [
  | none ↦ none
  | some numbers ↦ some (record {
    numbers = numbers;
    letter = letter;
    suffixes = suffixes;
    revision = revision;
    has_revision = has_revision;
  })
]

abbrev with_suffixes : ℤ → Bool → Option (List Suffix × Bytes) → Option Version
with_suffixes revision has_revision none = none
with_suffixes revision has_revision (some (suffixes, front)) =
    with_numbers revision has_revision suffixes (letter_of front)

abbrev with_revision : Option (ℤ × Bool × Bytes) → Option Version
with_revision none = none
with_revision (some (revision, has_revision, front)) =
    if contains (λ c. c == b'-') front
    then none
    else with_suffixes revision has_revision (suffixes_of front (cut_first b'_' front))

-- `none` is the error.
unfoldable pub parse_version : Bytes → Option Version
unfolding cut_revision parse_int contains cut_first split parse_suffixes letter_of all_numeric
    trim_left is_digit
parse_version [] = none
parse_version (c ∷ s) = with_revision (revision_of (c ∷ s) (cut_revision (c ∷ s)))

unfoldable pub compare_versions : Bytes → Bytes → Result Ordering
unfolding parse_version compare_parsed_versions
compare_versions left right = do
  a ← of_option (parse_version left)
  b ← of_option (parse_version right)
  ok (compare_parsed_versions a b)
