-- ===== src/Version/Apk/Number.antt =====
-- What `compareNumber` computes on the components that an int64 can hold: a component with a
-- leading zero is a fraction and lies below every other, and the others compare by value.
use snailmail.Base.{
  ltb, if◌then◌else◌, Bool-cases, length, Bytes, ◌then_by◌, IsPreorder-key, IsPreorder-then,
  IsPreorder-compare, compare_list, compare_bytes, IsPreorder-compare_bytes, IsPreorder, is_digit,
  trim_right_cons, trim_right, all, decimal, parse_int, compare_int, pos, ℕ, ◌^◌, compare, Ordering,
  lt, eq, ◌≡◌, refl, inl, inr, Bool, true, false, ◌&&◌, ◌||◌, some, [], ◌∷◌, arith,
}
use snailmail.Version.Numeric.{is_zero}
use snailmail.Version.Apk.{starts_zero, compare_number}

-- A component as `parseVersion` accepts it, below 2 to the 63.
abbrev pub fits : Bytes → Bool
fits [] = false
fits (c ∷ s) = all is_digit (c ∷ s) && ltb (decimal 0 (c ∷ s)) (2 ^ 63)

pub record Key : Type 0 where
  pub rank : ℕ
  pub fraction : Bytes
  pub value : ℕ

abbrev pub key : Bytes → Key
key s =
    if starts_zero s
    then record { rank = 0; fraction = trim_right is_zero s; value = 0 }
    else record { rank = 1; fraction = []; value = decimal 0 s }

abbrev pub compare_key : Key → Key → Ordering
compare_key a b =
    compare a.rank b.rank
    then_by compare_bytes a.fraction b.fraction
    then_by compare a.value b.value

pub IsPreorder-compare_key : IsPreorder compare_key
IsPreorder-compare_key = IsPreorder-then (IsPreorder-key (λ (k : Key). k.rank) IsPreorder-compare) (
    IsPreorder-then (IsPreorder-key (λ (k : Key). k.fraction) IsPreorder-compare_bytes)
      (IsPreorder-key (λ (k : Key). k.value) IsPreorder-compare))

parse_int-fits :
    (c : ℕ) (s : Bytes)
    → fits (c ∷ s) ≡ true
    → parse_int (2 ^ 63) (c ∷ s) ≡ some (pos (decimal 0 (c ∷ s)))
unfolding parse_int all is_digit
parse_int-fits c s h = ground arith

trim_right_head :
    (c : ℕ) (s : Bytes) → is_zero c ≡ false → (t : Bytes) × (trim_right is_zero (c ∷ s) ≡ c ∷ t)
unfolding trim_right
trim_right_head c s h = (trim_right is_zero s, go (trim_right is_zero s))
  where
    go : (r : Bytes) → trim_right_cons is_zero c r ≡ c ∷ r
    go [] = rw (h, trim_right_cons)
    go (d ∷ r) = refl

-- A fraction is below a component with no leading zero.
fraction-below :
    (c e : ℕ) (s t : Bytes)
    → is_zero c ≡ true
    → is_zero e ≡ false
    → is_digit e ≡ true
    → compare_bytes (trim_right is_zero (c ∷ s)) (trim_right is_zero (e ∷ t)) ≡ lt
unfolding trim_right compare_list is_digit
fraction-below c e s t h g d =
    let (r, q) = trim_right_head e t g in rw q (go (trim_right is_zero s) r)
  where
    go : (l r : Bytes) → compare_bytes (trim_right_cons is_zero c l) (e ∷ r) ≡ lt
    go [] r = ground arith
    go (x ∷ l) r = ground arith

all_head : (c : ℕ) (s : Bytes) → fits (c ∷ s) ≡ true → is_digit c ≡ true
unfolding all
all_head c s h = ground arith

-- One digit each.
short_pair :
    (c e : ℕ)
    → is_digit c ≡ true
    → is_digit e ≡ true
    → compare_int (pos (decimal 0 (c ∷ []))) (pos (decimal 0 (e ∷ [])))
      ≡ compare_key (key (c ∷ [])) (key (e ∷ []))
unfolding compare_int decimal is_digit starts_zero trim_right compare_list
short_pair c e h g = ground arith

values : (x y : ℕ) → compare_int (pos x) (pos y) ≡ compare x y
unfolding compare_int
values x y = refl

no_fractions : compare_bytes [] [] ≡ eq
unfolding compare_list
no_fractions = refl

module _ (c e : ℕ) (s t : Bytes) (h : fits (c ∷ s) ≡ true) (g : fits (e ∷ t) ≡ true) where
  long_pair :
      (ltb 1 (length (c ∷ s)) || ltb 1 (length (e ∷ t))) ≡ true
      → compare_number (c ∷ s) (e ∷ t) ≡ compare_key (key (c ∷ s)) (key (e ∷ t))
  unfolding compare_number
  long_pair long = elim (Bool-cases (is_zero c)) [
    | inl zc ↦ elim (Bool-cases (is_zero e)) [
      | inl ze ↦ ground (arith, no_fractions)
      | inr ne ↦ ground (arith, fraction-below c e s t zc ne (all_head e t g))
    ]
    | inr nc ↦ elim (Bool-cases (is_zero e)) [
      | inl ze ↦ ground (
        arith,
        fraction-below e c t s ze nc (all_head c s h),
        IsPreorder-compare_bytes.swapped (trim_right is_zero (e ∷ t)) (trim_right is_zero (c ∷ s)),
      )
      | inr ne ↦ ground (
        arith,
        parse_int-fits c s h,
        parse_int-fits e t g,
        no_fractions,
        values (decimal 0 (c ∷ s)) (decimal 0 (e ∷ t)),
      )
    ]
  ]

pub compare_number-key :
    (a b : Bytes) → fits a ≡ true → fits b ≡ true → compare_number a b ≡ compare_key (key a) (key b)
compare_number-key [] b h g = cc
compare_number-key (c ∷ s) [] h g = cc
compare_number-key (c ∷ []) (e ∷ []) h g =
    unfold compare_number in
    ground (
      arith,
      parse_int-fits c [] h,
      parse_int-fits e [] g,
      short_pair c e (all_head c [] h) (all_head e [] g),
    )
compare_number-key (c ∷ []) (e ∷ x ∷ t) h g = long_pair c e [] (x ∷ t) h g (ground arith)
compare_number-key (c ∷ x ∷ s) (e ∷ t) h g = long_pair c e (x ∷ s) t h g (ground arith)
