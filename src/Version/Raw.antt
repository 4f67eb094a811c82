-- ===== src/Version/Raw.antt =====
-- formats/raw/version.go. Package semver is a parameter: `new_version` is `semver.NewVersion`, whose
-- error is `none`, and `compare_semver` is `(*semver.Version).Compare`.
pub mod Order
use snailmail.Base.{
  ltb, ◌==◌, if◌then◌else◌, Bytes, ◌==ᵇ◌, compare_padded, compare_list, compare_bytes, fields,
  parse_uint, Result, ok, ℕ, ◌^◌, Ordering, lt, eq, gt, Bool, true, false, not, ◌||◌, Option, none,
  some, List, [], ◌∷◌,
}

abbrev pub is_separator : ℕ → Bool
is_separator c = c == b'.' || c == b'-' || c == b'+' || c == b'~' || c == b'_'

pub split_version : Bytes → List Bytes
unfolding fields
split_version version = fields is_separator version

abbrev ltb_bytes : Bytes → Bytes → Bool
ltb_bytes a b = elim (compare_bytes a b) [ lt ↦ true | _ ↦ false ]

-- The `switch` of the loop.
abbrev pub compare_numbers : Bytes → Bytes → Option ℕ → Option ℕ → Ordering
compare_numbers left right (some a) (some b) =
    if not (a == b) then (if ltb a b then lt else gt) else eq
compare_numbers left right (some a) none = gt
compare_numbers left right none (some b) = lt
compare_numbers left right none none =
    if not (left ==ᵇ right) then (if ltb_bytes left right then lt else gt) else eq

abbrev pub is_empty : Bytes → Bool
is_empty [] = true
is_empty (_ ∷ _) = false

-- The body of the loop; a missing field is "".
pub compare_field : Bytes → Bytes → Ordering
unfolding parse_uint ◌==ᵇ◌ compare_list
compare_field left right =
    if is_empty left
    then lt
    else if is_empty right
    then gt
    else compare_numbers left right (parse_uint (2 ^ 64) left) (parse_uint (2 ^ 64) right)

unfoldable pub compare_natural : Bytes → Bytes → Ordering
unfolding compare_padded compare_field split_version
compare_natural left right =
    compare_padded compare_field [] (split_version left) (split_version right)

module _ {V : Type 0} (new_version : Bytes → Option V) (compare_semver : V → V → Ordering) where
  abbrev pub compare_read : Bytes → Bytes → Option V → Option V → Ordering
  compare_read left right (some a) (some b) = compare_semver a b
  compare_read left right (some a) none = lt
  compare_read left right none (some b) = gt
  compare_read left right none none = compare_natural left right

  -- There is no error.
  unfoldable pub compare_versions : Bytes → Bytes → Result Ordering
  unfolding compare_natural
  compare_versions left right = ok (compare_read left right (new_version left) (new_version right))
