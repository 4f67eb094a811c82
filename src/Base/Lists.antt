-- ===== src/Base/Lists.antt =====
-- Lists of strings, searched and sorted as the source does.
use Prim.Native.Nat.{ℕ, zero, suc, Ordering, lt}
use mathlib.Core.Path.{◌≡◌, refl}
use mathlib.Core.Bool.{Bool, true, false, not, ◌&&◌, ◌||◌}
use mathlib.Core.List.{List, [], ◌∷◌, ◌++◌}
use mathlib.Core.Option.{Option, none, some}
use mathlib.Core.Logic.{◌⊎◌, inl, inr}
use native.Mathlib.Omega.{arith}
use snailmail.Base.Tests.{if◌then◌else◌, Bytes, ◌==ᵇ◌, ==ᵇ_iff, Bool-cases}
use snailmail.Base.Order.{compare_bytes}

-- Membership in a set of strings.
unfoldable pub mem : Bytes → List Bytes → Bool
unfolding ◌==ᵇ◌
mem s [] = false
mem s (x ∷ xs) = x ==ᵇ s || mem s xs

-- No string occurs twice.
unfoldable pub distinct : List Bytes → Bool
unfolding mem
distinct [] = true
distinct (x ∷ xs) = not (mem x xs) && distinct xs

-- Every element satisfies the predicate.
abbrev pub All {ℓ κ} : {A : Type ℓ} → (A → Type κ) → List A → Type κ
All P [] = Unit
All P (x ∷ xs) = P x × All P xs

abbrev pub filter {ℓ} : {A : Type ℓ} → (A → Bool) → List A → List A
filter test [] = []
filter test (x ∷ xs) = let rest = filter test xs in if test x then x ∷ rest else rest

-- A sort by a comparison; `sort.Slice` promises a sorted permutation, as this is one.
module _ {ℓ} {A : Type ℓ} (cmp : A → A → Ordering) where
  unfoldable pub insert_by : A → List A → List A
  insert_by x [] = x ∷ []
  insert_by x (y ∷ ys) = elim (cmp y x) [ lt ↦ y ∷ insert_by x ys | _ ↦ x ∷ y ∷ ys ]

  unfoldable pub sort_by : List A → List A
  unfolding insert_by
  sort_by [] = []
  sort_by (x ∷ xs) = insert_by x (sort_by xs)

-- `sort.Strings`
abbrev pub sort_strings : List Bytes → List Bytes
sort_strings = sort_by compare_bytes

-- `equalStrings`
unfoldable pub equal_strings : List Bytes → List Bytes → Bool
unfolding ◌==ᵇ◌
equal_strings [] [] = true
equal_strings (x ∷ xs) (y ∷ ys) = x ==ᵇ y && equal_strings xs ys
equal_strings _ _ = false

pub equal_strings_lem : (xs ys : List Bytes) → equal_strings xs ys ≡ true → xs ≡ ys
unfolding equal_strings
equal_strings_lem [] [] h = refl
equal_strings_lem [] (y ∷ ys) h = cc
equal_strings_lem (x ∷ xs) [] h = cc
equal_strings_lem (x ∷ xs) (y ∷ ys) h = ground (arith, ==ᵇ_iff x y, equal_strings_lem xs ys)

pub equal_strings_refl : (xs : List Bytes) → equal_strings xs xs ≡ true
unfolding equal_strings
equal_strings_refl [] = refl
equal_strings_refl (x ∷ xs) = ground (arith, ==ᵇ_iff x x, equal_strings_refl xs)

pub Option-cases {ℓ} : {A : Type ℓ} (o : Option A) → (o ≡ none) ⊎ ((a : A) × (o ≡ some a))
Option-cases none = inl refl
Option-cases (some a) = inr (a, refl)

unfoldable pub every {ℓ} : {A : Type ℓ} → (A → Bool) → List A → Bool
every test [] = true
every test (x ∷ xs) = test x && every test xs

-- No key was seen before, and none occurs twice.
unfoldable pub fresh : List Bytes → List Bytes → Bool
unfolding mem
fresh seen [] = true
fresh seen (k ∷ ks) = not (mem k seen) && fresh (k ∷ seen) ks

unfoldable pub disjoint : List Bytes → List Bytes → Bool
unfolding mem
disjoint seen [] = true
disjoint seen (k ∷ ks) = not (mem k seen) && disjoint seen ks

pub ==ᵇ_swap : (xs ys : Bytes) → (xs ==ᵇ ys) ≡ (ys ==ᵇ xs)
unfolding ◌==ᵇ◌
==ᵇ_swap [] [] = refl
==ᵇ_swap [] (y ∷ ys) = refl
==ᵇ_swap (x ∷ xs) [] = refl
==ᵇ_swap (x ∷ xs) (y ∷ ys) = ground (arith, ==ᵇ_swap xs ys)

disjoint-cons :
    (k : Bytes) (seen ks : List Bytes)
    → disjoint (k ∷ seen) ks ≡ (disjoint seen ks && not (mem k ks))
unfolding disjoint mem
disjoint-cons k seen [] = refl
disjoint-cons k seen (j ∷ js) = ground (arith, disjoint-cons k seen js, ==ᵇ_swap k j)

fresh-disjoint : (seen ks : List Bytes) → fresh seen ks ≡ (disjoint seen ks && distinct ks)
unfolding fresh disjoint distinct
fresh-disjoint seen [] = refl
fresh-disjoint seen (k ∷ ks) = ground (arith, fresh-disjoint (k ∷ seen) ks, disjoint-cons k seen ks)

disjoint-empty : (ks : List Bytes) → disjoint [] ks ≡ true
unfolding disjoint mem
disjoint-empty [] = refl
disjoint-empty (k ∷ ks) = disjoint-empty ks

pub fresh-distinct : (ks : List Bytes) → fresh [] ks ≡ distinct ks
fresh-distinct ks = rw (fresh-disjoint [] ks, disjoint-empty ks) refl

unfoldable pub count {ℓ} : {A : Type ℓ} → (A → Bool) → List A → ℕ
count test [] = zero
count test (x ∷ xs) = let rest = count test xs in if test x then suc rest else rest

-- Some element satisfies the test.
unfoldable pub exists_in {ℓ} : {A : Type ℓ} → (A → Bool) → List A → Bool
exists_in test [] = false
exists_in test (x ∷ xs) = test x || exists_in test xs

-- Some element satisfies the predicate.
abbrev pub Any {ℓ} : {A : Type ℓ} → (A → Type 0) → List A → Type 0
Any P [] = ⊥
Any P (x ∷ xs) = P x ⊎ Any P xs

pub exists_in-Any {ℓ} :
    {A : Type ℓ} (test : A → Bool) (xs : List A)
    → exists_in test xs ≡ true
    → Any (λ x. test x ≡ true) xs
unfolding exists_in
exists_in-Any test [] h = cc
exists_in-Any test (x ∷ xs) h = elim (Bool-cases (test x)) [
  | inl here ↦ inl here
  | inr not_here ↦ inr (exists_in-Any test xs (ground arith))
]

pub Any-exists_in {ℓ} :
    {A : Type ℓ} (test : A → Bool) (xs : List A)
    → Any (λ x. test x ≡ true) xs
    → exists_in test xs ≡ true
unfolding exists_in
Any-exists_in test [] h = elim h [ ]
Any-exists_in test (x ∷ xs) (inl here) = ground arith
Any-exists_in test (x ∷ xs) (inr there) = ground (arith, Any-exists_in test xs there)

pub exists_in-mem :
    (test : Bytes → Bool) (s : Bytes) (xs : List Bytes)
    → mem s xs ≡ true
    → test s ≡ true
    → exists_in test xs ≡ true
unfolding exists_in mem
exists_in-mem test s [] h passes = cc
exists_in-mem test s (x ∷ xs) h passes = elim (Bool-cases (x ==ᵇ s)) [
  | inl same ↦ rw ((==ᵇ_iff x s).0 same) (rw passes refl)
  | inr other ↦ rw (exists_in-mem test s xs (ground arith) passes) (or_true (test x))
]
  where
    or_true : (b : Bool) → (b || true) ≡ true
    or_true true = refl
    or_true false = refl

pub exists_in-append {ℓ} :
    {A : Type ℓ} (test : A → Bool) (xs : List A) (y : A) (ys : List A)
    → test y ≡ true
    → exists_in test (xs ++ y ∷ ys) ≡ true
unfolding exists_in
exists_in-append test [] y ys h = rw h refl
exists_in-append test (x ∷ xs) y ys h = ground (arith, exists_in-append test xs y ys h)

pub map-Any {ℓ} :
    {A : Type ℓ} (P Q : A → Type 0) (xs : List A) → ((x : A) → P x → Q x) → Any P xs → Any Q xs
map-Any P Q [] f h = h
map-Any P Q (x ∷ xs) f (inl here) = inl (f x here)
map-Any P Q (x ∷ xs) f (inr there) = inr (map-Any P Q xs f there)

pub map-All {ℓ} :
    {A : Type ℓ} (P Q : A → Type 0) (xs : List A) → ((x : A) → P x → Q x) → All P xs → All Q xs
map-All P Q [] f h = tt
map-All P Q (x ∷ xs) f (first, rest) = (f x first, map-All P Q xs f rest)
