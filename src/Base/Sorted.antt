-- ===== src/Base/Sorted.antt =====
-- What sorting, filtering and appending leave of a list's keys.
use mathlib.Core.Path.{◌≡◌, refl, ap, ◌∙◌}
use mathlib.Core.Bool.{Bool, true, false, not, ◌&&◌, ◌||◌}
use mathlib.Core.List.{List, [], ◌∷◌, ◌++◌, map}
use Prim.Native.Nat.{suc, Ordering}
use native.Mathlib.Omega.{arith}
use snailmail.Base.Tests.{if◌then◌else◌, Bytes, ◌==ᵇ◌, ==ᵇ_iff}
use snailmail.Base.Lists.{mem, distinct, every, filter, count, insert_by, sort_by, ==ᵇ_swap}

module _ {ℓ} {A : Type ℓ} (cmp : A → A → Ordering) where
  pub every-insert_by :
      (test : A → Bool) (x : A) (xs : List A)
      → every test (insert_by cmp x xs) ≡ (test x && every test xs)
  unfolding every insert_by
  every-insert_by test x [] = refl
  every-insert_by test x (y ∷ ys) = ground (arith, every-insert_by test x ys)

  pub every-sort_by : (test : A → Bool) (xs : List A) → every test (sort_by cmp xs) ≡ every test xs
  unfolding every sort_by
  every-sort_by test [] = refl
  every-sort_by test (x ∷ xs) =
      every-insert_by test x (sort_by cmp xs) ∙ ap (λ b. test x && b) (every-sort_by test xs)

  mem-insert_by :
      (key : A → Bytes) (k : Bytes) (x : A) (xs : List A)
      → mem k (map key (insert_by cmp x xs)) ≡ (key x ==ᵇ k || mem k (map key xs))
  unfolding mem insert_by
  mem-insert_by key k x [] = refl
  mem-insert_by key k x (y ∷ ys) = ground (arith, mem-insert_by key k x ys)

  pub mem-sort_by :
      (key : A → Bytes) (k : Bytes) (xs : List A)
      → mem k (map key (sort_by cmp xs)) ≡ mem k (map key xs)
  unfolding mem sort_by
  mem-sort_by key k [] = refl
  mem-sort_by key k (x ∷ xs) =
      mem-insert_by key k x (sort_by cmp xs) ∙ ap (λ b. key x ==ᵇ k || b) (mem-sort_by key k xs)

  distinct-insert_by :
      (key : A → Bytes) (x : A) (xs : List A)
      → distinct (map key (insert_by cmp x xs))
        ≡ (not (mem (key x) (map key xs)) && distinct (map key xs))
  unfolding mem distinct insert_by
  distinct-insert_by key x [] = refl
  distinct-insert_by key x (y ∷ ys) =
      ground (
        arith,
        distinct-insert_by key x ys,
        mem-insert_by key (key y) x ys,
        ==ᵇ_swap (key x) (key y),
      )

  pub distinct-sort_by :
      (key : A → Bytes) (xs : List A) → distinct (map key (sort_by cmp xs)) ≡ distinct (map key xs)
  unfolding distinct sort_by
  distinct-sort_by key [] = refl
  distinct-sort_by key (x ∷ xs) = ground (
    arith,
    distinct-insert_by key x (sort_by cmp xs),
    distinct-sort_by key xs,
    mem-sort_by key (key x) xs,
  )

module _ {ℓ} {A : Type ℓ} where
  pub every-filter :
      (test kept : A → Bool) (xs : List A)
      → every test xs ≡ true
      → every test (filter kept xs) ≡ true
  unfolding every
  every-filter test kept [] h = refl
  every-filter test kept (x ∷ xs) h = ground (arith, every-filter test kept xs)

  mem-filter :
      (key : A → Bytes) (kept : A → Bool) (k : Bytes) (xs : List A)
      → mem k (map key xs) ≡ false
      → mem k (map key (filter kept xs)) ≡ false
  unfolding mem
  mem-filter key kept k [] h = refl
  mem-filter key kept k (x ∷ xs) h = ground (arith, mem-filter key kept k xs)

  pub distinct-filter :
      (key : A → Bytes) (kept : A → Bool) (xs : List A)
      → distinct (map key xs) ≡ true
      → distinct (map key (filter kept xs)) ≡ true
  unfolding distinct
  distinct-filter key kept [] h = refl
  distinct-filter key kept (x ∷ xs) h =
      ground (arith, distinct-filter key kept xs, mem-filter key kept (key x) xs)

  pub every-snoc :
      (test : A → Bool) (xs : List A) (x : A)
      → every test (xs ++ x ∷ []) ≡ (every test xs && test x)
  unfolding every
  every-snoc test [] x = ground arith
  every-snoc test (y ∷ ys) x = ground (arith, every-snoc test ys x)

  pub mem-snoc :
      (key : A → Bytes) (k : Bytes) (xs : List A) (x : A)
      → mem k (map key (xs ++ x ∷ [])) ≡ (mem k (map key xs) || key x ==ᵇ k)
  unfolding mem
  mem-snoc key k [] x = ground arith
  mem-snoc key k (y ∷ ys) x = ground (arith, mem-snoc key k ys x)

  pub distinct-snoc :
      (key : A → Bytes) (xs : List A) (x : A)
      → distinct (map key (xs ++ x ∷ []))
        ≡ (distinct (map key xs) && not (mem (key x) (map key xs)))
  unfolding distinct mem
  distinct-snoc key [] x = ground arith
  distinct-snoc key (y ∷ ys) x =
      ground (arith, distinct-snoc key ys x, mem-snoc key (key y) ys x, ==ᵇ_swap (key x) (key y))

module _ {ℓ} {A : Type ℓ} (test : A → Bool) where
  count-insert_by :
      (cmp : A → A → Ordering) (x : A) (xs : List A)
      → count test (insert_by cmp x xs) ≡ count test (x ∷ xs)
  unfolding count insert_by
  count-insert_by cmp x [] = refl
  count-insert_by cmp x (y ∷ ys) = ground (arith, count-insert_by cmp x ys)

  pub count-sort_by :
      (cmp : A → A → Ordering) (xs : List A) → count test (sort_by cmp xs) ≡ count test xs
  unfolding count sort_by
  count-sort_by cmp [] = refl
  count-sort_by cmp (x ∷ xs) =
      count-insert_by cmp x (sort_by cmp xs)
      ∙ ap (λ n. if test x then suc n else n) (count-sort_by cmp xs)

  pub count-filter :
      (kept : A → Bool) (xs : List A)
      → count test (filter kept xs) ≡ count (λ x. kept x && test x) xs
  unfolding count
  count-filter kept [] = refl
  count-filter kept (x ∷ xs) = ground (arith, count-filter kept xs)

module _ {ℓ} {A : Type ℓ} (key : A → Bytes) (k : Bytes) where
  count-absent : (xs : List A) → mem k (map key xs) ≡ false → count (λ x. key x ==ᵇ k) xs ≡ 0
  unfolding count mem
  count-absent [] h = refl
  count-absent (x ∷ xs) h = ground (arith, count-absent xs)

  pub count-once :
      (xs : List A)
      → distinct (map key xs) ≡ true
      → mem k (map key xs) ≡ true
      → count (λ x. key x ==ᵇ k) xs ≡ 1
  unfolding count mem distinct
  count-once [] d h = cc
  count-once (x ∷ xs) d h = ground (arith, count-once xs, count-absent xs, ==ᵇ_iff (key x) k)
