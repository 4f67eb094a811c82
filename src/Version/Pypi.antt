-- ===== src/Version/Pypi.antt =====
-- formats/pypi/version.go. `pep440Pattern` is written out as a `Regex` over the bytes of UTF-8; of
-- Unicode it sees what `unicode.IsSpace` and `(?i)` take in.
pub mod Order
use snailmail.Base.Regex.{
  Regex, empty, char, seq, alt, star, group, find_submatch, submatch, maybe, some_of,
}
use snailmail.Base.{
  ltb, leb, ◌==◌, if◌then◌else◌, length, Bytes, codes, ◌==ᵇ◌, ◌then_by◌, compare_padded,
  compare_list, compare_bytes, is_digit, is_alpha, trim_left, all, split, fields, compare_int, ℤ,
  pos, negsuc, of_option, Result, ok, ℕ, zero, suc, ◌+◌, Ordering, lt, eq, gt, Bool, true, false,
  not, ◌&&◌, ◌||◌, Option, none, some, List, [], ◌∷◌, map, ◌>>=◌, ◌>>◌,
}

pub to_lower : ℕ → ℕ
to_lower c = if leb b'A' c && leb c b'Z' then c + 32 else c

-- `(?i)`
abbrev same_letter : ℕ → ℕ → Bool
same_letter a b = to_lower a == to_lower b

-- U+017F and U+212A, which `(?i)` takes for an `s` and a `k`.
abbrev long_s : Regex
long_s = seq (char (λ c. c == 197)) (char (λ c. c == 191))

abbrev kelvin : Regex
kelvin = seq (char (λ c. c == 226)) (seq (char (λ c. c == 132)) (char (λ c. c == 170)))

-- No word of the pattern has a `k`.
abbrev letter : ℕ → Regex
letter c = if c == b's' then alt (char (same_letter c)) long_s else char (same_letter c)

abbrev word : Bytes → Regex
word [] = empty
word (c ∷ s) = seq (letter c) (word s)

abbrev digits : Regex
digits = some_of (char is_digit)

abbrev maybe_digits : Regex
maybe_digits = star (char is_digit)

abbrev is_separator : ℕ → Bool
is_separator c = c == b'.' || c == b'_' || c == b'-'

abbrev separator : Regex
separator = maybe (char is_separator)

abbrev one_of : List Bytes → Regex
one_of [] = empty
one_of (w ∷ []) = word w
one_of (w ∷ v ∷ ws) = alt (word w) (one_of (v ∷ ws))

abbrev phases : List Bytes
phases =
    codes "alpha"
    ∷ codes "beta"
    ∷ codes "preview"
    ∷ codes "pre"
    ∷ codes "a"
    ∷ codes "b"
    ∷ codes "c"
    ∷ codes "rc"
    ∷ []

abbrev posts : List Bytes
posts = codes "post" ∷ codes "rev" ∷ codes "r" ∷ []

abbrev alphanumeric : Regex
alphanumeric = some_of (alt (char (λ c. is_alpha c || is_digit c)) (alt long_s kelvin))

abbrev epoch_pattern : Regex
epoch_pattern = maybe (seq (group 1 digits) (word (codes "!")))

abbrev release_pattern : Regex
release_pattern = group 2 (seq digits (star (seq (word (codes ".")) digits)))

abbrev pre_pattern : Regex
pre_pattern =
    maybe (seq separator (seq (group 3 (one_of phases)) (seq separator (group 4 maybe_digits))))

abbrev post_pattern : Regex
post_pattern = maybe (
    alt (seq (word (codes "-")) (group 5 digits))
      (seq separator (seq (group 6 (one_of posts)) (seq separator (group 7 maybe_digits)))))

abbrev dev_pattern : Regex
dev_pattern =
    maybe
      (seq separator (seq (group 8 (word (codes "dev"))) (seq separator (group 9 maybe_digits))))

abbrev local_pattern : Regex
local_pattern = maybe (
    seq (word (codes "+"))
      (group 10 (seq alphanumeric (star (seq (char is_separator) alphanumeric)))))

pub pep440_pattern : Regex
unfolding to_lower is_digit is_alpha
pep440_pattern = seq (maybe (word (codes "v"))) (
    seq epoch_pattern
      (seq release_pattern (seq pre_pattern (seq post_pattern (seq dev_pattern local_pattern)))))

pub record Pep440Version : Type 0 where
  pub epoch : Bytes
  pub release : List Bytes
  pub has_pre : Bool
  pub pre_phase : ℕ
  pub pre_number : Bytes
  pub has_post : Bool
  pub post_number : Bytes
  pub has_dev : Bool
  pub dev_number : Bytes
  pub local : List Bytes

abbrev is_empty : Bytes → Bool
is_empty [] = true
is_empty (_ ∷ _) = false

abbrev default_number : Bytes → Bytes
default_number value = if is_empty value then codes "0" else value

-- The `switch` on the lower-cased phase.
pub phase_of : Bytes → ℕ
unfolding ◌==ᵇ◌ to_lower
phase_of text =
    let lower = map to_lower text in
    if lower ==ᵇ codes "a" || lower ==ᵇ codes "alpha"
    then 0
    else if lower ==ᵇ codes "b" || lower ==ᵇ codes "beta"
    then 1
    else 2

abbrev starts_kelvin : Bytes → Bool
starts_kelvin (c ∷ d ∷ e ∷ _) = c == 226 && d == 132 && e == 170
starts_kelvin _ = false

-- `strings.ToLower`, on what the pattern lets through: U+212A becomes a `k`. The first `skip` bytes
-- belong to one that is done.
pub lower_text : ℕ → Bytes → Bytes
unfolding to_lower
lower_text skip [] = []
lower_text (suc skip) (c ∷ s) = lower_text skip s
lower_text zero (c ∷ s) = elim (starts_kelvin (c ∷ s)) [
  | true ↦ b'k' ∷ lower_text 2 s
  | false ↦ to_lower c ∷ lower_text 0 s
]

abbrev of_groups : (ℕ → Bytes) → Pep440Version
of_groups m =
    let pre = not (is_empty (m 3)) in
    let post = not (is_empty (m 5)) || not (is_empty (m 6)) in
    let dev = not (is_empty (m 8)) in
    record {
      epoch = default_number (m 1);
      release = split b'.' (m 2);
      has_pre = pre;
      pre_phase = if pre then phase_of (m 3) else 0;
      pre_number = if pre then default_number (m 4) else [];
      has_post = post;
      post_number =
          if post
          then default_number (if is_empty (m 5) then default_number (m 7) else m 5)
          else [];
      has_dev = dev;
      dev_number = if dev then default_number (m 9) else [];
      local = if is_empty (m 10) then [] else fields is_separator (lower_text 0 (m 10));
    }

abbrev is_space : ℕ → Bool
is_space c = c == b' ' || (leb 9 c && leb c 13)

-- U+0085 and U+00A0
abbrev is_space_of_two : ℕ → ℕ → Bool
is_space_of_two c d = c == 194 && (d == 133 || d == 160)

-- U+1680, U+2000 to U+200A, U+2028, U+2029, U+202F, U+205F and U+3000
abbrev is_space_of_three : ℕ → ℕ → ℕ → Bool
is_space_of_three c d e =
    c == 225 && d == 154 && e == 128
    || c == 226 && d == 128 && (leb 128 e && leb e 138 || e == 168 || e == 169 || e == 175)
    || c == 226 && d == 129 && e == 159
    || c == 227 && d == 128 && e == 128

-- How many bytes the leading space of `unicode.IsSpace` has; 0 where there is none.
abbrev space_width : Bytes → ℕ
space_width [] = 0
space_width (c ∷ []) = if is_space c then 1 else 0
space_width (c ∷ d ∷ []) = if is_space c then 1 else if is_space_of_two c d then 2 else 0
space_width (c ∷ d ∷ e ∷ s) =
    if is_space c
    then 1
    else if is_space_of_two c d
    then 2
    else if is_space_of_three c d e
    then 3
    else 0

-- The first `skip` bytes belong to a space that goes.
pub trim_start : ℕ → Bytes → Bytes
trim_start skip [] = []
trim_start (suc skip) (c ∷ s) = trim_start skip s
trim_start zero (c ∷ s) = elim (space_width (c ∷ s)) [ zero ↦ c ∷ s | suc skip ↦ trim_start skip s ]

pub trim_end : Bytes → Bytes
unfolding trim_start
trim_end [] = []
trim_end (c ∷ s) = let rest = trim_end s in if is_empty (trim_start 0 (c ∷ s)) then [] else c ∷ rest

-- `strings.TrimSpace`
abbrev trim_space : Bytes → Bytes
trim_space value = trim_end (trim_start 0 value)

-- `none` is the error.
unfoldable pub parse_pep440 : Bytes → Option Pep440Version
unfolding pep440_pattern find_submatch submatch phase_of split fields trim_start trim_end to_lower
    lower_text
parse_pep440 value = elim (find_submatch pep440_pattern (trim_space value)) [
  | none ↦ none
  | some groups ↦ some (of_groups (λ n. submatch n groups))
]

abbrev ltb_bytes : Bytes → Bytes → Bool
ltb_bytes a b = elim (compare_bytes a b) [ lt ↦ true | _ ↦ false ]

abbrev compare_trimmed : Bytes → Bytes → Ordering
compare_trimmed left right =
    if ltb (length left) (length right)
    then lt
    else if ltb (length right) (length left)
    then gt
    else if ltb_bytes left right
    then lt
    else if ltb_bytes right left
    then gt
    else eq

pub compare_numeric_string : Bytes → Bytes → Ordering
unfolding trim_left compare_list
compare_numeric_string left right =
    compare_trimmed (trim_left (λ c. c == b'0') left) (trim_left (λ c. c == b'0') right)

-- A missing part is "0".
abbrev pub compare_release : List Bytes → List Bytes → Ordering
compare_release = compare_padded compare_numeric_string (codes "0")

pub pre_rank : Pep440Version → ℤ
pre_rank v = if v.has_pre then pos 0 else if v.has_dev && not v.has_post then negsuc 0 else pos 1

abbrev is_zero_int : ℤ → Bool
is_zero_int (pos zero) = true
is_zero_int _ = false

pub compare_pre : Pep440Version → Pep440Version → Ordering
unfolding pre_rank compare_int
compare_pre left right = elim (compare_int (pre_rank left) (pre_rank right)) [
  | lt ↦ lt
  | gt ↦ gt
  | eq ↦
      if not (is_zero_int (pre_rank left))
      then eq
      else if ltb left.pre_phase right.pre_phase
      then lt
      else if ltb right.pre_phase left.pre_phase
      then gt
      else compare_numeric_string left.pre_number right.pre_number
]

pub compare_optional_number : Bool → Bytes → Bool → Bytes → ℤ → ℤ → Ordering
unfolding compare_int
compare_optional_number left_present left right_present right absent_rank present_rank =
    let left_rank = if left_present then present_rank else absent_rank in
    let right_rank = if right_present then present_rank else absent_rank in
    elim (compare_int left_rank right_rank) [
      | lt ↦ lt
      | gt ↦ gt
      | eq ↦ if not left_present then eq else compare_numeric_string left right
    ]

pub numeric_segment : Bytes → Bool
unfolding is_digit all
numeric_segment [] = false
numeric_segment (c ∷ s) = all is_digit (c ∷ s)

-- The `switch` of `compareLocal`.
pub compare_local_segment : Bytes → Bytes → Ordering
unfolding compare_numeric_string numeric_segment
compare_local_segment left right =
    if numeric_segment left && not (numeric_segment right)
    then gt
    else if not (numeric_segment left) && numeric_segment right
    then lt
    else if numeric_segment left
    then compare_numeric_string left right
    else compare_bytes left right

-- The loop over the common indices.
pub local_loop : List Bytes → List Bytes → Ordering
unfolding compare_local_segment
local_loop (x ∷ xs) (y ∷ ys) = elim (compare_local_segment x y) [
  | lt ↦ lt
  | gt ↦ gt
  | eq ↦ local_loop xs ys
]
local_loop _ _ = eq

abbrev compare_lengths : ℕ → ℕ → Ordering
compare_lengths a b = if ltb a b then lt else if ltb b a then gt else eq

pub compare_local : List Bytes → List Bytes → Ordering
unfolding local_loop
compare_local [] [] = eq
compare_local [] (y ∷ ys) = lt
compare_local (x ∷ xs) [] = gt
compare_local (x ∷ xs) (y ∷ ys) = elim (local_loop (x ∷ xs) (y ∷ ys)) [
  | lt ↦ lt
  | gt ↦ gt
  | eq ↦ compare_lengths (length (x ∷ xs)) (length (y ∷ ys))
]

pub compare_parsed : Pep440Version → Pep440Version → Ordering
unfolding compare_numeric_string compare_padded compare_pre compare_optional_number compare_local
compare_parsed left right =
    compare_numeric_string left.epoch right.epoch
    then_by compare_release left.release right.release
    then_by compare_pre left right
    then_by compare_optional_number left.has_post left.post_number right.has_post right.post_number
        (negsuc 0) (pos 1)
    then_by compare_optional_number left.has_dev left.dev_number right.has_dev right.dev_number
        (pos 1) (negsuc 0)
    then_by compare_local left.local right.local

unfoldable pub compare_versions : Bytes → Bytes → Result Ordering
unfolding parse_pep440 compare_parsed
compare_versions left right = do
  a ← of_option (parse_pep440 left)
  b ← of_option (parse_pep440 right)
  ok (compare_parsed a b)
