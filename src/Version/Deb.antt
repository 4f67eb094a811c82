-- ===== src/Version/Deb.antt =====
-- formats/deb/version.go, and `validVersion` of formats/deb/inspect.go. The loops of
-- `compareVersionPart` drop a varying number of bytes, so they run on fuel; a string is read as
-- its bytes, since no byte of a longer rune passes a test of `validVersion`.
pub mod Parts
pub mod Order
use snailmail.Base.{
  ◌==◌, if◌then◌else◌, length, Bytes, codes, is_digit, is_alpha, take_while, has_suffix, contains,
  all, cut_first, cut_last, parse_uint, compare_int, ℤ, pos, negsuc, Result, ok, err, out_of_fuel,
  ℕ, zero, suc, ◌+◌, ◌^◌, Ordering, lt, eq, gt, Bool, true, false, not, ◌&&◌, ◌||◌, Option, none,
  some, [], ◌∷◌, ◌>>=◌,
}
use snailmail.Version.Numeric.{compare_numeric}

pub first_byte : Bytes → ℕ
first_byte [] = 0
first_byte (c ∷ _) = c

pub version_order : ℕ → ℤ
unfolding is_digit is_alpha
version_order value =
    if value == b'~'
    then negsuc 0
    else if value == 0 || is_digit value
    then pos 0
    else if is_alpha value
    then pos value
    else pos (value + 256)

-- `len(value) != 0 && !isDigit(value[0])`
pub starts_text : Bytes → Bool
unfolding is_digit
starts_text [] = false
starts_text (c ∷ _) = not (is_digit c)

-- `value[1:]` under that test
pub drop_text : Bytes → Bytes
unfolding is_digit
drop_text [] = []
drop_text (c ∷ s) = if not (is_digit c) then s else c ∷ s

-- What the inner loop leaves: a result to return, or what is left of both strings.
pub data Scan : Type 0 where
  returned : Ordering → Scan
  reached : Bytes → Bytes → Scan

pub compare_text : ℕ → Bytes → Bytes → Result Scan
unfolding starts_text drop_text first_byte
compare_text zero left right =
    if starts_text left || starts_text right then out_of_fuel else ok (reached left right)
compare_text (suc fuel) left right =
    let next = compare_text fuel (drop_text left) (drop_text right) in
    let step : Result Scan =
      elim (compare_int (version_order (first_byte left)) (version_order (first_byte right))) [
        | lt ↦ ok (returned lt)
        | gt ↦ ok (returned gt)
        | eq ↦ next
      ] in
    if starts_text left || starts_text right then step else ok (reached left right)

-- `takeDigits`
abbrev pub take_digits : Bytes → Bytes × Bytes
take_digits = take_while is_digit

-- The outer loop, behind the inner one.
pub compare_digits : (Bytes → Bytes → Result Ordering) → Bytes → Bytes → Result Ordering
unfolding take_while is_digit compare_numeric
compare_digits next left right = elim (compare_numeric (take_digits left).0 (take_digits right).0) [
  | lt ↦ ok lt
  | gt ↦ ok gt
  | eq ↦ next (take_digits left).1 (take_digits right).1
]

pub after_text : (Bytes → Bytes → Result Ordering) → Result Scan → Result Ordering
unfolding compare_digits
after_text next (ok (returned o)) = ok o
after_text next (ok (reached left right)) = compare_digits next left right
after_text next err = err
after_text next out_of_fuel = out_of_fuel

abbrev pub both_empty : Bytes → Bytes → Bool
both_empty [] [] = true
both_empty _ _ = false

pub compare_loop : ℕ → Bytes → Bytes → Result Ordering
unfolding compare_text after_text
compare_loop zero left right = if both_empty left right then ok eq else out_of_fuel
compare_loop (suc fuel) left right =
    let scan = compare_text (length left + length right) left right in
    let rest = after_text (compare_loop fuel) scan in if both_empty left right then ok eq else rest

unfoldable pub compare_version_part : Bytes → Bytes → Result Ordering
unfolding compare_loop
compare_version_part left right = compare_loop (length left + length right) left right

pub trim_plus : Bytes → Bytes
trim_plus [] = []
trim_plus (c ∷ s) = if c == b'+' then s else c ∷ s

-- epoch, upstream and revision
pub record Split : Type 0 where
  pub epoch : Bytes
  pub upstream : Bytes
  pub revision : Bytes

abbrev with_revision : Bytes → Bytes → Option (Bytes × Bytes) → Split
with_revision epoch version none = record {
  epoch = epoch;
  upstream = version;
  revision = codes "0";
}
with_revision epoch version (some (front, back)) = record {
  epoch = epoch;
  upstream = front;
  revision = back;
}

abbrev with_epoch : Bytes → Option (Bytes × Bytes) → Split
with_epoch version none = with_revision (codes "0") version (cut_last b'-' version)
with_epoch version (some (epoch, rest)) = with_revision (trim_plus epoch) rest (cut_last b'-' rest)

unfoldable pub split_version : Bytes → Split
unfolding cut_first cut_last trim_plus
split_version version = with_epoch version (cut_first b':' version)

-- `validVersion` behind the epoch
abbrev ends_well : Option (Bytes × Bytes) → Bool
ends_well none = true
ends_well (some (_, revision)) = not (contains (λ c. c == b':') revision)

abbrev version_byte : ℕ → Bool
version_byte c =
    is_alpha c || is_digit c || (c == b'.' || c == b':' || c == b'+' || c == b'~' || c == b'-')

valid_remainder : Bytes → Bool
unfolding is_digit is_alpha cut_last contains has_suffix all
valid_remainder [] = false
valid_remainder (c ∷ s) =
    is_digit c
    && not (has_suffix (c ∷ s) (codes "-"))
    && ends_well (cut_last b'-' (c ∷ s))
    && all version_byte (c ∷ s)

abbrev valid_epoch : Bytes → Bool
valid_epoch epoch = elim (parse_uint (2 ^ 64) epoch) [ none ↦ false | some _ ↦ true ]

abbrev valid_behind : Bytes → Option (Bytes × Bytes) → Bool
valid_behind version none = valid_remainder version
valid_behind version (some (epoch, rest)) =
    not (both_empty epoch [])
    && not (both_empty (trim_plus epoch) [])
    && valid_epoch (trim_plus epoch)
    && valid_remainder rest

abbrev forbidden : ℕ → Bool
forbidden c =
    c == 0 || c == b'\r' || c == b'\n' || c == b' ' || c == b'\t' || c == b'/' || c == b'\\'

unfoldable pub valid_version : Bytes → Bool
unfolding valid_remainder contains cut_first parse_uint trim_plus
valid_version version =
    not (both_empty version [] || contains forbidden version)
    && valid_behind version (cut_first b':' version)

-- The two calls of `compareVersionPart` behind the epochs.
pub compare_split : Split → Split → Result Ordering
unfolding compare_version_part compare_numeric version_order compare_int
compare_split left right = elim (compare_numeric left.epoch right.epoch) [
  | lt ↦ ok lt
  | gt ↦ ok gt
  | eq ↦ do
    upstream ← compare_version_part left.upstream right.upstream
    elim upstream [
      | lt ↦ ok lt
      | gt ↦ ok gt
      | eq ↦ compare_version_part left.revision right.revision
    ]
]

unfoldable pub compare_versions : Bytes → Bytes → Result Ordering
unfolding valid_version split_version compare_split
compare_versions left right =
    if not (valid_version left) || not (valid_version right)
    then err
    else compare_split (split_version left) (split_version right)
