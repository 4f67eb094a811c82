-- ===== src/Base/Order.antt =====
-- Three-way comparisons. The source's `int` results -1, 0 and 1 are `lt`, `eq` and `gt`.
use Prim.Native.Nat.{ℕ, compare, Ordering, lt, eq, gt}
use mathlib.Core.Path.{◌≡◌, refl, sym, ◌∙◌}
use mathlib.Core.List.{List, [], ◌∷◌}
use native.Mathlib.Omega.{arith}

abbrev pub swap : Ordering → Ordering
swap lt = gt
swap eq = eq
swap gt = lt

-- The second comparison decides where the first one returned 0.
infixr 20 ◌then_by◌
abbrev pub ◌then_by◌ : Ordering → Ordering → Ordering
eq then_by o = o
lt then_by o = lt
gt then_by o = gt

-- A comparison of a total preorder: what a sort and a search need of it.
pub record IsPreorder {ℓ} {A : Type ℓ} (cmp : A → A → Ordering) : Type ℓ where
  pub swapped : (a b : A) → cmp b a ≡ swap (cmp a b)
  pub eq_left : (a b c : A) → cmp a b ≡ eq → cmp a c ≡ cmp b c
  pub lt_trans : (a b c : A) → cmp a b ≡ lt → cmp b c ≡ lt → cmp a c ≡ lt

pub swap_fixed : (o : Ordering) → o ≡ swap o → o ≡ eq
swap_fixed eq e = refl
swap_fixed lt e = cc
swap_fixed gt e = cc

-- The laws at three values, for two comparisons in a row.
record Laws (ab ba ac bc : Ordering) : Type 0 where
  swapped : ba ≡ swap ab
  eq_left : ab ≡ eq → ac ≡ bc
  lt_trans : ab ≡ lt → bc ≡ lt → ac ≡ lt

Laws-then :
    (ab ba ac bc cb ab' ba' ac' bc' : Ordering)
    → Laws ab ba ac bc
    → cb ≡ swap bc
    → (bc ≡ eq → ab ≡ ac)
    → Laws ab' ba' ac' bc'
    → Laws (ab then_by ab') (ba then_by ba') (ac then_by ac') (bc then_by bc')
Laws-then lt ba ac lt cb ab' ba' ac' bc' l s r l' = ground arith
Laws-then lt ba ac eq cb ab' ba' ac' bc' l s r l' = ground arith
Laws-then lt ba ac gt cb ab' ba' ac' bc' l s r l' = ground arith
Laws-then eq ba ac bc cb ab' ba' ac' bc' l s r l' = ground arith
Laws-then gt ba ac bc cb ab' ba' ac' bc' l s r l' = ground arith

module _ {ℓ} {A : Type ℓ} {cmp : A → A → Ordering} (p : IsPreorder cmp) where
  pub self_eq : (a : A) → cmp a a ≡ eq
  self_eq a = swap_fixed (cmp a a) (p.swapped a a)

  pub eq_right : (a b c : A) → cmp b c ≡ eq → cmp a b ≡ cmp a c
  eq_right a b c e = p.swapped b a ∙ (λ i. swap (p.eq_left b c a e i)) ∙ sym (p.swapped c a)

  laws : (a b c : A) → Laws (cmp a b) (cmp b a) (cmp a c) (cmp b c)
  laws a b c = record {
    swapped = p.swapped a b;
    eq_left = p.eq_left a b c;
    lt_trans = p.lt_trans a b c;
  }

module _ {ℓ} {A : Type ℓ} {cmp : A → A → Ordering} where
  IsPreorder-intro : ((a b c : A) → Laws (cmp a b) (cmp b a) (cmp a c) (cmp b c)) → IsPreorder cmp
  IsPreorder-intro l = record {
    swapped = λ a b. (l a b b).swapped;
    eq_left = λ a b c. (l a b c).eq_left;
    lt_trans = λ a b c. (l a b c).lt_trans;
  }

-- By a key.
pub IsPreorder-key {ℓ κ} :
    {A : Type ℓ} {K : Type κ} {cmp : K → K → Ordering} (key : A → K)
    → IsPreorder cmp
    → IsPreorder (λ (a b : A). cmp (key a) (key b))
IsPreorder-key key p = record {
  swapped = λ a b. p.swapped (key a) (key b);
  eq_left = λ a b c. p.eq_left (key a) (key b) (key c);
  lt_trans = λ a b c. p.lt_trans (key a) (key b) (key c);
}

-- By one comparison, and then by another.
pub IsPreorder-then {ℓ} :
    {A : Type ℓ} {f g : A → A → Ordering}
    → IsPreorder f
    → IsPreorder g
    → IsPreorder (λ (a b : A). f a b then_by g a b)
IsPreorder-then {f} {g} p q = IsPreorder-intro λ a b c.
    Laws-then (f a b) (f b a) (f a c) (f b c) (f c b) (g a b) (g b a) (g a c) (g b c) (laws p a b c)
      (p.swapped b c) (eq_right p a b c) (laws q a b c)

pub IsPreorder-compare : IsPreorder compare
IsPreorder-compare = record {
  swapped = λ a b. ground arith;
  eq_left = λ a b c h. ground arith;
  lt_trans = λ a b c h k. ground arith;
}

-- Lexicographic, where a missing element counts as `d`.
module _ {ℓ} {A : Type ℓ} (cmp : A → A → Ordering) (d : A) where
  unfoldable pub compare_padded : List A → List A → Ordering
  compare_padded [] [] = eq
  compare_padded [] (y ∷ ys) = cmp d y then_by compare_padded [] ys
  compare_padded (x ∷ xs) [] = cmp x d then_by compare_padded xs []
  compare_padded (x ∷ xs) (y ∷ ys) = cmp x y then_by compare_padded xs ys

-- Lexicographic, where the shorter list comes first.
module _ {ℓ} {A : Type ℓ} (cmp : A → A → Ordering) where
  unfoldable pub compare_list : List A → List A → Ordering
  compare_list [] [] = eq
  compare_list [] (y ∷ ys) = lt
  compare_list (x ∷ xs) [] = gt
  compare_list (x ∷ xs) (y ∷ ys) = cmp x y then_by compare_list xs ys

module _ {ℓ} {A : Type ℓ} {cmp : A → A → Ordering} (p : IsPreorder cmp) where
  chain :
      (a b c : A) (ab' ba' ac' bc' : Ordering)
      → Laws ab' ba' ac' bc'
      → Laws (cmp a b then_by ab') (cmp b a then_by ba') (cmp a c then_by ac') (cmp b c then_by bc')
  chain a b c ab' ba' ac' bc' =
      Laws-then (cmp a b) (cmp b a) (cmp a c) (cmp b c) (cmp c b) ab' ba' ac' bc' (laws p a b c)
        (p.swapped b c) (eq_right p a b c)

  compare_list-Laws :
      (xs ys zs : List A)
      → Laws
          (compare_list cmp xs ys)
          (compare_list cmp ys xs)
          (compare_list cmp xs zs)
          (compare_list cmp ys zs)
  unfolding compare_list
  compare_list-Laws [] [] zs = ground arith
  compare_list-Laws [] (y ∷ ys) [] = ground arith
  compare_list-Laws [] (y ∷ ys) (z ∷ zs) = ground arith
  compare_list-Laws (x ∷ xs) [] zs = ground arith
  compare_list-Laws (x ∷ xs) (y ∷ ys) [] = record {
    swapped = (chain x y y _ _ _ _ (compare_list-Laws xs ys ys)).swapped;
    eq_left = λ e. refl;
    lt_trans = λ e f. f;
  }
  compare_list-Laws (x ∷ xs) (y ∷ ys) (z ∷ zs) = chain x y z _ _ _ _ (compare_list-Laws xs ys zs)

  pub IsPreorder-compare_list : IsPreorder (compare_list cmp)
  IsPreorder-compare_list = IsPreorder-intro compare_list-Laws

module _ {ℓ} {A : Type ℓ} {cmp : A → A → Ordering} (p : IsPreorder cmp) (d : A) where
  compare_padded-Laws :
      (xs ys zs : List A)
      → Laws
          (compare_padded cmp d xs ys)
          (compare_padded cmp d ys xs)
          (compare_padded cmp d xs zs)
          (compare_padded cmp d ys zs)
  unfolding compare_padded
  compare_padded-Laws [] [] [] = ground arith
  compare_padded-Laws [] [] (z ∷ zs) = ground arith
  compare_padded-Laws [] (y ∷ ys) [] =
      rw (self_eq p d) at (chain p d y d _ _ _ _ (compare_padded-Laws [] ys []))
  compare_padded-Laws [] (y ∷ ys) (z ∷ zs) = chain p d y z _ _ _ _ (compare_padded-Laws [] ys zs)
  compare_padded-Laws (x ∷ xs) [] [] =
      rw (self_eq p d) at (chain p x d d _ _ _ _ (compare_padded-Laws xs [] []))
  compare_padded-Laws (x ∷ xs) [] (z ∷ zs) = chain p x d z _ _ _ _ (compare_padded-Laws xs [] zs)
  compare_padded-Laws (x ∷ xs) (y ∷ ys) [] = chain p x y d _ _ _ _ (compare_padded-Laws xs ys [])
  compare_padded-Laws (x ∷ xs) (y ∷ ys) (z ∷ zs) =
      chain p x y z _ _ _ _ (compare_padded-Laws xs ys zs)

  pub IsPreorder-compare_padded : IsPreorder (compare_padded cmp d)
  IsPreorder-compare_padded = IsPreorder-intro compare_padded-Laws

-- `strings.Compare`, and `<` on strings: bytewise.
abbrev pub compare_bytes : List ℕ → List ℕ → Ordering
compare_bytes = compare_list compare

pub IsPreorder-compare_bytes : IsPreorder compare_bytes
IsPreorder-compare_bytes = IsPreorder-compare_list IsPreorder-compare

pub eq_of_compare_bytes : (xs ys : List ℕ) → compare_bytes xs ys ≡ eq → xs ≡ ys
unfolding compare_list
eq_of_compare_bytes [] [] h = refl
eq_of_compare_bytes [] (y ∷ ys) h = cc
eq_of_compare_bytes (x ∷ xs) [] h = cc
eq_of_compare_bytes (x ∷ xs) (y ∷ ys) h = ground (arith, eq_of_compare_bytes xs ys)
