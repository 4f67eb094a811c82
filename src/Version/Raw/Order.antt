-- ===== src/Version/Raw/Order.antt =====
-- The orders behind `compareNatural` and `CompareVersions`.
use snailmail.Base.{
  Bool-cases, Bytes, ==ᵇ_iff, swap, ◌then_by◌, self_eq, IsPreorder-key, IsPreorder-then,
  IsPreorder-compare, compare_padded, compare_list, IsPreorder-compare_list, compare_bytes,
  IsPreorder-compare_bytes, eq_of_compare_bytes, IsPreorder, flush_field, fields_from, fields,
  parse_uint, cut, IsComparator-of_read, IsComparator, ok, ℕ, ◌^◌, compare, Ordering, lt, eq, gt,
  ◌≡◌, refl, ap, fun_ext, inl, inr, Bool, true, false, not, ◌&&◌, Option, none, some, List, [], ◌∷◌,
  ◌++◌, arith,
}
use snailmail.Version.Raw.{
  is_separator, split_version, compare_numbers, is_empty, compare_field, compare_natural,
  compare_read, compare_versions,
}

abbrev all_filled : List Bytes → Bool
all_filled [] = true
all_filled (w ∷ ws) = not (is_empty w) && all_filled ws

flush_field-filled :
    (w : Bytes) (ws : List Bytes) → all_filled ws ≡ true → all_filled (flush_field w ws) ≡ true
unfolding flush_field
flush_field-filled [] ws h = h
flush_field-filled (c ∷ w) ws h = h

fields_from-filled : (sep : ℕ → Bool) (word s : Bytes) → all_filled (fields_from sep word s) ≡ true
unfolding fields_from
fields_from-filled sep word [] = flush_field-filled word [] refl
fields_from-filled sep word (c ∷ s) = elim (Bool-cases (sep c)) [
  | inl cut ↦ rw cut (flush_field-filled word (fields_from sep [] s) (fields_from-filled sep [] s))
  | inr grow ↦ rw grow (fields_from-filled sep (word ++ c ∷ []) s)
]

split_version-filled : (s : Bytes) → all_filled (split_version s) ≡ true
unfolding split_version fields
split_version-filled s = fields_from-filled is_separator [] s

abbrev pub number_of : Bytes → Option ℕ
number_of = parse_uint (2 ^ 64)

abbrev pub field_rank : Option ℕ → ℕ
field_rank none = 0
field_rank (some _) = 1

abbrev pub field_value : Option ℕ → ℕ
field_value none = 0
field_value (some n) = n

abbrev pub field_text : Bytes → Option ℕ → Bytes
field_text s none = s
field_text s (some _) = []

-- A field that a uint64 holds is above every other; numbers compare by value, texts bytewise.
abbrev pub field_order : Bytes → Bytes → Ordering
field_order a b =
    compare (field_rank (number_of a)) (field_rank (number_of b))
    then_by compare (field_value (number_of a)) (field_value (number_of b))
    then_by compare_bytes (field_text a (number_of a)) (field_text b (number_of b))

IsPreorder-field_order : IsPreorder field_order
IsPreorder-field_order =
    IsPreorder-then (IsPreorder-key (λ (s : Bytes). field_rank (number_of s)) IsPreorder-compare) (
      IsPreorder-then (IsPreorder-key (λ (s : Bytes). field_value (number_of s)) IsPreorder-compare)
        (IsPreorder-key (λ (s : Bytes). field_text s (number_of s)) IsPreorder-compare_bytes))

no_text : compare_bytes [] [] ≡ eq
unfolding compare_list
no_text = refl

compare_numbers-order :
    (a b : Bytes) (x y : Option ℕ)
    → compare_numbers a b x y
      ≡ compare (field_rank x) (field_rank y)
        then_by compare (field_value x) (field_value y)
        then_by compare_bytes (field_text a x) (field_text b y)
compare_numbers-order a b (some x) (some y) = ground (arith, no_text)
compare_numbers-order a b (some x) none = ground arith
compare_numbers-order a b none (some y) = ground arith
compare_numbers-order a b none none = ground (
  arith,
  ==ᵇ_iff a b,
  IsPreorder-compare_bytes.swapped a b,
  eq_of_compare_bytes a b,
  self_eq IsPreorder-compare_bytes a,
)

compare_field-order :
    (a b : Bytes) → is_empty a ≡ false → is_empty b ≡ false → compare_field a b ≡ field_order a b
unfolding compare_field
compare_field-order a b h g = rw (h, g) (compare_numbers-order a b (number_of a) (number_of b))

compare_fields-order :
    (xs ys : List Bytes)
    → all_filled xs ≡ true
    → all_filled ys ≡ true
    → compare_padded compare_field [] xs ys ≡ compare_list field_order xs ys
unfolding compare_padded compare_list
compare_fields-order [] [] h g = refl
compare_fields-order [] (y ∷ ys) h g = unfold compare_field in refl
compare_fields-order (x ∷ xs) [] h g = unfold compare_field in ground arith
compare_fields-order (x ∷ xs) (y ∷ ys) h g =
    ground (arith, compare_field-order x y, compare_fields-order xs ys)

compare_natural-order :
    (a b : Bytes)
    → compare_natural a b ≡ compare_list field_order (split_version a) (split_version b)
unfolding compare_natural
compare_natural-order a b =
    compare_fields-order (split_version a) (split_version b) (split_version-filled a)
      (split_version-filled b)

pub IsPreorder-compare_natural : IsPreorder compare_natural
IsPreorder-compare_natural =
    rw (fun_ext λ a. fun_ext λ b. compare_natural-order a b)
      (IsPreorder-key split_version (IsPreorder-compare_list IsPreorder-field_order))

module _ {V : Type 0} (new_version : Bytes → Option V) (compare_semver : V → V → Ordering) where
  abbrev pub order_of : Bytes → Bytes → Option V → Option V → Ordering
  order_of a b (some x) (some y) = compare_semver x y
  order_of a b (some x) none = lt
  order_of a b none (some y) = gt
  order_of a b none none = compare_list field_order (split_version a) (split_version b)

  -- What semver reads is in its order and comes first; the rest is in the order of the fields.
  abbrev pub raw_order : Bytes → Bytes → Ordering
  raw_order a b = order_of a b (new_version a) (new_version b)

  compare_read-order_of :
      (a b : Bytes) (x y : Option V)
      → compare_read new_version compare_semver a b x y ≡ order_of a b x y
  compare_read-order_of a b (some x) (some y) = refl
  compare_read-order_of a b (some x) none = refl
  compare_read-order_of a b none (some y) = refl
  compare_read-order_of a b none none = compare_natural-order a b

  module _ (p : IsPreorder compare_semver) where
    abbrev read : Bytes → Bytes → Option V → Option V → Ordering
    read a b x y = compare_read new_version compare_semver a b x y

    read-swapped : (a b : Bytes) (x y : Option V) → read b a y x ≡ swap (read a b x y)
    read-swapped a b (some x) (some y) = p.swapped x y
    read-swapped a b (some x) none = refl
    read-swapped a b none (some y) = refl
    read-swapped a b none none = IsPreorder-compare_natural.swapped a b

    read-eq_left :
        (a b c : Bytes) (x y z : Option V) → read a b x y ≡ eq → read a c x z ≡ read b c y z
    read-eq_left a b c (some x) (some y) (some z) h = p.eq_left x y z h
    read-eq_left a b c (some x) (some y) none h = refl
    read-eq_left a b c (some x) none z h = cc
    read-eq_left a b c none (some y) z h = cc
    read-eq_left a b c none none (some z) h = refl
    read-eq_left a b c none none none h = IsPreorder-compare_natural.eq_left a b c h

    read-lt_trans :
        (a b c : Bytes) (x y z : Option V)
        → read a b x y ≡ lt
        → read b c y z ≡ lt
        → read a c x z ≡ lt
    read-lt_trans a b c (some x) (some y) (some z) h g = p.lt_trans x y z h g
    read-lt_trans a b c (some x) y none h g = refl
    read-lt_trans a b c (some x) none (some z) h g = cc
    read-lt_trans a b c none (some y) z h g = cc
    read-lt_trans a b c none none (some z) h g = cc
    read-lt_trans a b c none none none h g = IsPreorder-compare_natural.lt_trans a b c h g

    -- Where semver's own comparison is a total preorder, `CompareVersions` is a comparator. On every
    -- two texts it answers: texts that semver reads are in semver's order and below all others, and
    -- those are compared field by field, a missing field being lowest, a text below a number of 64
    -- bits, numbers by value and texts bytewise.
    pub raw_versions-IsComparator :
        IsComparator (compare_versions new_version compare_semver)
        × ((a b : Bytes) → compare_versions new_version compare_semver a b ≡ ok (raw_order a b))
    unfolding compare_versions
    raw_versions-IsComparator = (
      IsComparator-of_read some (λ a b. read a b (new_version a) (new_version b))
          (record {
            swapped = λ a b. read-swapped a b (new_version a) (new_version b);
            eq_left = λ a b c. read-eq_left a b c (new_version a) (new_version b) (new_version c);
            lt_trans = λ a b c. read-lt_trans a b c (new_version a) (new_version b) (new_version c);
          })
          (λ a b. refl),
      λ a b. ap ok (compare_read-order_of a b (new_version a) (new_version b)),
    )
