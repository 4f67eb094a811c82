-- ===== src/State/Prune/Cutoff.antt =====
-- The versions before and behind the cutoff of a sorted partition.
use snailmail.Base.{
  leb, length, Bytes, ==ᵇ_iff, self_eq, eq_right, IsPreorder, mem, every, count, ℕ, zero, suc, ◌≤◌,
  Ordering, lt, ◌≡◌, refl, Bool, true, false, ◌&&◌, List, [], ◌∷◌, arith,
}
use snailmail.State.Prune.{drop_versions}
use snailmail.State.Prune.Sorting.{is_lt, is_newer, is_outdated, up_to, up_to_trans, falling}

module _ (cmp : Bytes → Bytes → Ordering) (p : IsPreorder cmp) where
  -- What stands at a cutoff: as many newer versions as the cutoff has before it, for those below.
  drop-up_to :
      (k : ℕ) (x c : Bytes) (xs rest : List Bytes)
      → every (λ y. up_to cmp x y) xs ≡ true
      → drop_versions k xs ≡ c ∷ rest
      → up_to cmp x c ≡ true
  unfolding drop_versions every
  drop-up_to zero x c [] rest h e = cc
  drop-up_to zero x c (y ∷ ys) rest h e = ground arith
  drop-up_to (suc k) x c [] rest h e = cc
  drop-up_to (suc k) x c (y ∷ ys) rest h e = drop-up_to k x c ys rest (ground arith) e

  below_cutoff :
      (k : ℕ) (v c : Bytes) (xs rest : List Bytes)
      → falling cmp xs ≡ true
      → drop_versions k xs ≡ c ∷ rest
      → cmp v c ≡ lt
      → suc k ≤ count (is_newer cmp v) xs
  unfolding drop_versions falling count
  below_cutoff zero v c [] rest h e l = cc
  below_cutoff zero v c (y ∷ ys) rest h e l = ground (arith, p.swapped v c)
  below_cutoff (suc k) v c [] rest h e l = cc
  below_cutoff (suc k) v c (y ∷ ys) rest h e l = ground (
    arith,
    below_cutoff k v c ys rest,
    drop-up_to k y c ys rest,
    p.swapped v y,
    p.lt_trans v c y,
    eq_right p v c y,
  )

  none_newer :
      (v c : Bytes) (xs : List Bytes)
      → up_to cmp v c ≡ true
      → every (λ y. up_to cmp c y) xs ≡ true
      → count (is_newer cmp v) xs ≡ 0
  unfolding every count
  none_newer v c [] h k = refl
  none_newer v c (x ∷ xs) h k = ground (arith, none_newer v c xs, up_to_trans cmp p x c v)

  at_cutoff :
      (k : ℕ) (v c : Bytes) (xs rest : List Bytes)
      → falling cmp xs ≡ true
      → drop_versions k xs ≡ c ∷ rest
      → up_to cmp v c ≡ true
      → count (is_newer cmp v) xs ≤ k
  unfolding drop_versions falling count
  at_cutoff zero v c [] rest h e u = cc
  at_cutoff zero v c (y ∷ ys) rest h e u = ground (arith, none_newer v y ys)
  at_cutoff (suc k) v c [] rest h e u = cc
  at_cutoff (suc k) v c (y ∷ ys) rest h e u = ground (arith, at_cutoff k v c ys rest)

  is_lt_self : (c : Bytes) → is_lt (cmp c c) ≡ false
  is_lt_self c = ground (arith, self_eq p c)

  pub count_below :
      (k : ℕ) (test : Bytes → Bool) (c : Bytes) (xs rest : List Bytes)
      → falling cmp xs ≡ true
      → drop_versions k xs ≡ c ∷ rest
      → count (λ v. is_lt (cmp v c) && test v) xs ≡ count (λ v. is_lt (cmp v c) && test v) rest
  unfolding drop_versions falling count
  count_below zero test c [] rest h e = cc
  count_below zero test c (y ∷ ys) rest h e = ground (arith, is_lt_self c)
  count_below (suc k) test c [] rest h e = cc
  count_below (suc k) test c (y ∷ ys) rest h e =
      ground (arith, count_below k test c ys rest, drop-up_to k y c ys rest, p.swapped y c)

  pub drop-falling :
      (k : ℕ) (c : Bytes) (xs rest : List Bytes)
      → falling cmp xs ≡ true
      → drop_versions k xs ≡ c ∷ rest
      → every (λ y. up_to cmp c y) rest ≡ true
  unfolding drop_versions falling
  drop-falling zero c [] rest h e = cc
  drop-falling zero c (y ∷ ys) rest h e = ground arith
  drop-falling (suc k) c [] rest h e = cc
  drop-falling (suc k) c (y ∷ ys) rest h e = drop-falling k c ys rest (ground arith) e

  pub drop_short : (k : ℕ) (xs : List Bytes) → drop_versions k xs ≡ [] → length xs ≤ k
  unfolding drop_versions
  drop_short zero [] e = omega arith
  drop_short zero (y ∷ ys) e = cc
  drop_short (suc k) [] e = omega arith
  drop_short (suc k) (y ∷ ys) e = ground (arith, drop_short k ys e)

  -- The outdated versions are those below the cutoff.
  pub is_outdated-cutoff :
      (k : ℕ) (v c : Bytes) (xs rest : List Bytes)
      → falling cmp xs ≡ true
      → drop_versions k xs ≡ c ∷ rest
      → is_outdated cmp (suc k) xs v ≡ is_lt (cmp v c)
  is_outdated-cutoff k v c xs rest h e =
      ground (arith, below_cutoff k v c xs rest h e, at_cutoff k v c xs rest h e, p.swapped v c)

  -- Among few versions none is outdated.
  count_newer : (v : Bytes) (xs : List Bytes) → count (is_newer cmp v) xs ≤ length xs
  unfolding count
  count_newer v [] = omega arith
  count_newer v (x ∷ xs) = ground (arith, count_newer v xs)

  few_newer :
      (v : Bytes) (xs : List Bytes) → mem v xs ≡ true → suc (count (is_newer cmp v) xs) ≤ length xs
  unfolding count mem
  few_newer v [] h = cc
  few_newer v (x ∷ xs) h =
      ground (arith, few_newer v xs, count_newer v xs, ==ᵇ_iff v x, ==ᵇ_iff x v, self_eq p v)

  pub count_few :
      (keep : ℕ) (test : Bytes → Bool) (xs ys : List Bytes)
      → leb (length xs) keep ≡ true
      → every (λ v. mem v xs) ys ≡ true
      → count (λ v. is_outdated cmp keep xs v && test v) ys ≡ 0
  unfolding every count
  count_few keep test xs [] h k = refl
  count_few keep test xs (y ∷ ys) h k = ground (arith, count_few keep test xs ys h, few_newer y xs)

every-mem_cons :
    (x : Bytes) (xs ys : List Bytes)
    → every (λ v. mem v xs) ys ≡ true
    → every (λ v. mem v (x ∷ xs)) ys ≡ true
unfolding every mem
every-mem_cons x xs [] h = refl
every-mem_cons x xs (y ∷ ys) h = ground (arith, every-mem_cons x xs ys)

pub every-mem : (xs : List Bytes) → every (λ v. mem v xs) xs ≡ true
unfolding every mem
every-mem [] = refl
every-mem (x ∷ xs) = ground (arith, every-mem_cons x xs xs, every-mem xs, ==ᵇ_iff x x)
