-- ===== src/Base/Ascending.antt =====
-- Lists in the order of a comparison, and sorting.
use Prim.Native.Nat.{Ordering, lt, gt}
use mathlib.Core.Path.{◌≡◌, refl}
use mathlib.Core.Bool.{Bool, true, false, ◌&&◌}
use mathlib.Core.List.{List, [], ◌∷◌, map}
use native.Mathlib.Omega.{arith}
use snailmail.Base.Order.{IsPreorder}
use snailmail.Base.Lists.{insert_by, sort_by}

module _ {ℓ} {A : Type ℓ} (cmp : A → A → Ordering) where
  -- The element is not above the first one of the list.
  abbrev pub is_below_first : A → List A → Bool
  is_below_first x [] = true
  is_below_first x (y ∷ ys) = elim (cmp x y) [ gt ↦ false | _ ↦ true ]

  unfoldable pub ascending : List A → Bool
  ascending [] = true
  ascending (x ∷ xs) = is_below_first x xs && ascending xs

  module _ (p : IsPreorder cmp) where
    below_first-insert_by :
        (y x : A) (xs : List A)
        → is_below_first y xs ≡ true
        → cmp y x ≡ lt
        → is_below_first y (insert_by cmp x xs) ≡ true
    unfolding insert_by
    below_first-insert_by y x [] h k = ground arith
    below_first-insert_by y x (z ∷ zs) h k = ground arith

    ascending-insert_by :
        (x : A) (xs : List A) → ascending xs ≡ true → ascending (insert_by cmp x xs) ≡ true
    unfolding ascending insert_by
    ascending-insert_by x [] h = refl
    ascending-insert_by x (y ∷ ys) h =
        ground (arith, ascending-insert_by x ys, below_first-insert_by y x ys, p.swapped x y)

    pub ascending-sort_by : (xs : List A) → ascending (sort_by cmp xs) ≡ true
    unfolding ascending sort_by
    ascending-sort_by [] = refl
    ascending-sort_by (x ∷ xs) = ascending-insert_by x (sort_by cmp xs) (ascending-sort_by xs)

module _ {ℓ κ} {A : Type ℓ} {K : Type κ} (key : A → K) (cmp : K → K → Ordering) where
  below_first-map :
      (x : A) (xs : List A)
      → is_below_first cmp (key x) (map key xs) ≡ is_below_first (λ a b. cmp (key a) (key b)) x xs
  below_first-map x [] = refl
  below_first-map x (y ∷ ys) = refl

  pub ascending-map :
      (xs : List A) → ascending cmp (map key xs) ≡ ascending (λ (a b : A). cmp (key a) (key b)) xs
  unfolding ascending
  ascending-map [] = refl
  ascending-map (x ∷ xs) = ground (arith, ascending-map xs, below_first-map x xs)
