-- ===== src/State/Prune/Sorting.antt =====
-- The sort of a pruning, under a comparator that answers on all versions.
use snailmail.Base.{
  leb, if◌then◌else◌, Bytes, eq_right, IsPreorder, every, count, ℕ, ◌+◌, Ordering, lt, eq, gt, ◌≡◌,
  refl, Bool, true, false, not, ◌&&◌, List, [], ◌∷◌, arith,
}
use snailmail.State.Prune.{not_below, reverse_onto}

abbrev pub is_lt : Ordering → Bool
is_lt lt = true
is_lt _ = false

abbrev pub is_gt : Ordering → Bool
is_gt gt = true
is_gt _ = false

module _ (cmp : Bytes → Bytes → Ordering) where
  -- `w` is newer than `v`.
  abbrev pub is_newer : Bytes → Bytes → Bool
  is_newer v w = is_gt (cmp w v)

  -- At least `keep` of the versions are newer.
  abbrev pub is_outdated : ℕ → List Bytes → Bytes → Bool
  is_outdated keep versions v = leb keep (count (is_newer v) versions)

  abbrev pub up_to : Bytes → Bytes → Bool
  up_to b a = not (is_gt (cmp a b))

  -- Every version is up to those behind it.
  unfoldable pub rising : List Bytes → Bool
  unfolding every
  rising [] = true
  rising (x ∷ xs) = every (λ y. up_to y x) xs && rising xs

  unfoldable pub falling : List Bytes → Bool
  unfolding every
  falling [] = true
  falling (x ∷ xs) = every (λ y. up_to x y) xs && falling xs

  unfoldable pub insert : Bytes → List Bytes → List Bytes
  unfolding not_below
  insert v [] = v ∷ []
  insert v (p ∷ before) = elim (cmp v p) [
    | lt ↦ v ∷ p ∷ before
    | eq ↦ if not_below v p then v ∷ p ∷ before else p ∷ insert v before
    | gt ↦ p ∷ insert v before
  ]

  unfoldable pub insert_all : List Bytes → List Bytes → List Bytes
  unfolding insert
  insert_all sorted [] = sorted
  insert_all sorted (v ∷ vs) = insert_all (insert v sorted) vs

  count-insert :
      (test : Bytes → Bool) (v : Bytes) (s : List Bytes)
      → count test (insert v s) ≡ count test (v ∷ s)
  unfolding insert count
  count-insert test v [] = refl
  count-insert test v (p ∷ before) = ground (arith, count-insert test v before)

  count-insert_all :
      (test : Bytes → Bool) (vs s : List Bytes)
      → count test (insert_all s vs) ≡ count test s + count test vs
  unfolding insert_all count
  count-insert_all test [] s = omega arith
  count-insert_all test (v ∷ vs) s =
      ground (arith, count-insert_all test vs (insert v s), count-insert test v s)

  every-insert :
      (test : Bytes → Bool) (v : Bytes) (s : List Bytes)
      → every test (insert v s) ≡ (test v && every test s)
  unfolding insert every
  every-insert test v [] = refl
  every-insert test v (p ∷ before) = ground (arith, every-insert test v before)

  module _ (p : IsPreorder cmp) where
    pub up_to_trans : (a b c : Bytes) → up_to b a ≡ true → up_to c b ≡ true → up_to c a ≡ true
    up_to_trans a b c h k = ground (arith, p.lt_trans a b c, p.eq_left a b c, eq_right p a b c)

    every-up_to :
        (v w : Bytes) (xs : List Bytes)
        → up_to w v ≡ true
        → every (λ y. up_to y w) xs ≡ true
        → every (λ y. up_to y v) xs ≡ true
    unfolding every
    every-up_to v w [] h k = refl
    every-up_to v w (x ∷ xs) h k = ground (arith, every-up_to v w xs h, up_to_trans v w x h)

    rising-insert : (v : Bytes) (s : List Bytes) → rising s ≡ true → rising (insert v s) ≡ true
    unfolding rising insert every
    rising-insert v [] h = refl
    rising-insert v (x ∷ xs) h = ground (
      arith,
      rising-insert v xs,
      every-insert (λ y. up_to y x) v xs,
      every-up_to v x xs,
      p.swapped v x,
    )

    rising-insert_all : (vs s : List Bytes) → rising s ≡ true → rising (insert_all s vs) ≡ true
    unfolding insert_all
    rising-insert_all [] s h = h
    rising-insert_all (v ∷ vs) s h = rising-insert_all vs (insert v s) (rising-insert v s h)

    every_both :
        (x : Bytes) (done xs : List Bytes)
        → every (λ y. up_to y x) xs ≡ true
        → every (λ y. every (λ d. up_to y d) done) xs ≡ true
        → every (λ y. up_to y x && every (λ d. up_to y d) done) xs ≡ true
    unfolding every
    every_both x done [] h k = refl
    every_both x done (y ∷ ys) h k = ground (arith, every_both x done ys)

    falling-reverse_onto :
        (done xs : List Bytes)
        → falling done ≡ true
        → rising xs ≡ true
        → every (λ y. every (λ d. up_to y d) done) xs ≡ true
        → falling (reverse_onto done xs) ≡ true
    unfolding falling rising reverse_onto every
    falling-reverse_onto done [] h k e = h
    falling-reverse_onto done (x ∷ xs) h k e =
        falling-reverse_onto (x ∷ done) xs (ground arith) (ground arith)
          (every_both x done xs (ground arith) (ground arith))

    -- The versions in the order of the code: the newest first.
    unfoldable pub sorted_versions : List Bytes → List Bytes
    unfolding reverse_onto insert_all
    sorted_versions vs = reverse_onto [] (insert_all [] vs)

    every_nothing : (xs : List Bytes) → every (λ y. every (λ d. up_to y d) []) xs ≡ true
    unfolding every
    every_nothing [] = refl
    every_nothing (x ∷ xs) = every_nothing xs

    pub falling-sorted_versions : (vs : List Bytes) → falling (sorted_versions vs) ≡ true
    unfolding sorted_versions
    falling-sorted_versions vs =
        falling-reverse_onto [] (insert_all [] vs) (unfold falling in refl)
          (rising-insert_all vs [] (unfold rising in refl)) (every_nothing (insert_all [] vs))

    count-reverse_onto :
        (test : Bytes → Bool) (xs done : List Bytes)
        → count test (reverse_onto done xs) ≡ count test done + count test xs
    unfolding reverse_onto count
    count-reverse_onto test [] done = omega arith
    count-reverse_onto test (x ∷ xs) done = ground (arith, count-reverse_onto test xs (x ∷ done))

    pub count-sorted_versions :
        (test : Bytes → Bool) (vs : List Bytes) → count test (sorted_versions vs) ≡ count test vs
    unfolding sorted_versions count
    count-sorted_versions test vs =
        omega (arith, count-reverse_onto test (insert_all [] vs) [], count-insert_all test vs [])
