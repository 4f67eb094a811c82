-- ===== src/Version/Rpm.antt =====
-- formats/rpm/version.go. The loop of `CompareSegments` drops a varying number of bytes, so it runs
-- on fuel.
pub mod Tokens
pub mod Order
pub mod Loop
use snailmail.Base.{
  ltb, ◌==◌, if◌then◌else◌, length, Bytes, ◌==ᵇ◌, compare_list, compare_bytes, is_digit, is_alpha,
  take_while, trim_left, tail, cut_first, parse_int, pos, negsuc, of_option, Result, ok,
  out_of_fuel, ℕ, zero, suc, ◌+◌, ◌^◌, Ordering, lt, eq, gt, Bool, true, false, not, ◌&&◌, ◌||◌,
  Option, none, some, [], ◌∷◌, ◌>>=◌,
}
use snailmail.Version.Numeric.{trim_zeros}

-- `strings.HasPrefix` with a prefix of one byte
pub starts : ℕ → Bytes → Bool
starts b [] = false
starts b (c ∷ _) = c == b

abbrev pub is_empty : Bytes → Bool
is_empty [] = true
is_empty (_ ∷ _) = false

abbrev pub is_separator : ℕ → Bool
is_separator c = not (is_digit c) && not (is_alpha c) && not (c == b'~') && not (c == b'^')

pub trim_separators : Bytes → Bytes
trim_separators [] = []
trim_separators (c ∷ s) = if is_separator c then trim_separators s else c ∷ s

-- How a round of the loop ends: `return`, `continue` (or the end of the body), `break`.
pub data Round : Type 0 where
  returned : Ordering → Round
  again : Bytes → Bytes → Round
  broke : Bytes → Bytes → Round

pub on_tilde : Bytes → Bytes → Round
unfolding starts
on_tilde one two =
    if not (starts b'~' one)
    then returned gt
    else if not (starts b'~' two)
    then returned lt
    else again (tail one) (tail two)

pub on_caret : Bytes → Bytes → Round
unfolding starts
on_caret one two =
    if is_empty one
    then returned lt
    else if is_empty two
    then returned gt
    else if not (starts b'^' one)
    then returned gt
    else if not (starts b'^' two)
    then returned lt
    else again (tail one) (tail two)

abbrev pub settle : Ordering → Bytes → Bytes → Round
settle lt one two = returned lt
settle gt one two = returned gt
settle eq one two = again one two

-- Two segments of one kind.
pub compare_segment : Bool → Bytes → Bytes → Bytes → Bytes → Round
unfolding trim_left compare_list
compare_segment numeric one two rest_one rest_two =
    let a = if numeric then trim_zeros one else one in
    let b = if numeric then trim_zeros two else two in
    if numeric && ltb (length b) (length a)
    then returned gt
    else if numeric && ltb (length a) (length b)
    then returned lt
    else settle (compare_bytes a b) rest_one rest_two

abbrev pub first_is_digit : Bytes → Bool
first_is_digit [] = false
first_is_digit (c ∷ _) = is_digit c

abbrev pub take_segment : Bool → Bytes → Bytes × Bytes
take_segment true = take_while is_digit
take_segment false = take_while is_alpha

pub on_segment : Bytes → Bytes → Round
unfolding take_while
on_segment one two =
    let numeric = first_is_digit one in
    let a = take_segment numeric one in
    let b = take_segment numeric two in
    if is_empty b.0
    then (if numeric then returned gt else returned lt)
    else compare_segment numeric a.0 b.0 a.1 b.1

-- The body of the loop, behind the two calls of `trimSeparators`.
pub round : Bytes → Bytes → Round
unfolding starts on_tilde on_caret on_segment
round one two =
    if starts b'~' one || starts b'~' two
    then on_tilde one two
    else if starts b'^' one || starts b'^' two
    then on_caret one two
    else if is_empty one || is_empty two
    then broke one two
    else on_segment one two

pub finish : Bytes → Bytes → Ordering
finish [] [] = eq
finish [] (_ ∷ _) = lt
finish (_ ∷ _) _ = gt

pub after_round : (Bytes → Bytes → Result Ordering) → Round → Result Ordering
unfolding finish
after_round next (returned o) = ok o
after_round next (again one two) = next one two
after_round next (broke one two) = ok (finish one two)

pub compare_loop : ℕ → Bytes → Bytes → Result Ordering
unfolding round after_round trim_separators finish compare_segment
compare_loop zero one two =
    if is_empty one && is_empty two then ok (finish one two) else out_of_fuel
compare_loop (suc fuel) one two =
    let rest =
      after_round (compare_loop fuel) (round (trim_separators one) (trim_separators two)) in
    if is_empty one && is_empty two then ok (finish one two) else rest

unfoldable pub compare_segments : Bytes → Bytes → Result Ordering
unfolding compare_loop is_digit is_alpha ◌==ᵇ◌
compare_segments left right =
    let compared = compare_loop (length left + length right) left right in
    if left ==ᵇ right then ok eq else compared

-- epoch, version and release
pub record Evr : Type 0 where
  pub epoch : ℕ
  pub version : Bytes
  pub release : Bytes

-- The epoch is an `int32` that is not negative.
abbrev parse_epoch : Bytes → Option ℕ
parse_epoch s = elim (parse_int (2 ^ 31) s) [
  | none ↦ none
  | some (negsuc _) ↦ none
  | some (pos n) ↦ some n
]

abbrev with_version : ℕ → Bytes → Bytes → Option Evr
with_version epoch version release =
    if is_empty version
    then none
    else some (record { epoch = epoch; version = version; release = release })

abbrev split_release : ℕ → Bytes → Option Evr
split_release epoch value = elim (cut_first b'-' value) [
  | none ↦ with_version epoch value []
  | some (version, release) ↦ with_version epoch version release
]

abbrev split_epoch : Bytes → Option (Bytes × Bytes) → Option Evr
split_epoch value none = split_release 0 value
split_epoch value (some (digits, rest)) = elim (parse_epoch digits) [
  | none ↦ none
  | some epoch ↦ split_release epoch rest
]

-- `none` is the error.
unfoldable pub split_evr : Bytes → Option Evr
unfolding parse_int cut_first
split_evr value = if is_empty value then none else split_epoch value (cut_first b':' value)

pub compare_evr : Evr → Evr → Result Ordering
unfolding compare_segments
compare_evr left right =
    if not (left.epoch == right.epoch)
    then (if ltb left.epoch right.epoch then ok lt else ok gt)
    else do
      version ← compare_segments left.version right.version
      elim version [ lt ↦ ok lt | gt ↦ ok gt | eq ↦ compare_segments left.release right.release ]

unfoldable pub compare_versions : Bytes → Bytes → Result Ordering
unfolding split_evr compare_evr
compare_versions left right = do
  a ← of_option (split_evr left)
  b ← of_option (split_evr right)
  compare_evr a b
