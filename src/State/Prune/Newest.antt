-- ===== src/State/Prune/Newest.antt =====
-- Which versions of a partition a pruning withdraws, under a comparator that answers on all of them.
use snailmail.Base.{
  ltb, leb, Bool-cases, length, Bytes, IsPreorder, Result, ok, filter, every, count, count-filter,
  ℕ, suc, ◌-◌, Ordering, ◌≡◌, refl, sym, ap, ◌∙◌, fun_ext, inl, inr, Bool, true, ◌&&◌, List, [],
  ◌∷◌, arith,
}
use snailmail.State.Model.{Placement}
use snailmail.State.Prune.{
  Partition, versions_of, reverse_onto, drop_versions, sift, sort_from, older, cut, remove_from,
}
use snailmail.State.Prune.Sorting.{
  is_lt, is_newer, is_outdated, up_to, falling, insert, insert_all, sorted_versions,
  falling-sorted_versions, count-sorted_versions,
}
use snailmail.State.Prune.Cutoff.{
  drop-falling, drop_short, is_outdated-cutoff, count_few, count_below, every-mem,
}

module _ (compare_version : Bytes → Bytes → Result Ordering) (cmp : Bytes → Bytes → Ordering)
    (answers : (a b : Bytes) → compare_version a b ≡ ok (cmp a b)) where
  sift-insert : (v : Bytes) (s : List Bytes) → sift compare_version v s ≡ ok (insert cmp v s)
  unfolding sift insert
  sift-insert v [] = refl
  sift-insert v (p ∷ before) = rw (answers v p) (ground (arith, sift-insert v before))

  sort_from-insert_all :
      (vs s : List Bytes)
      → sort_from compare_version s vs ≡ ok (reverse_onto [] (insert_all cmp s vs))
  unfolding sort_from insert_all
  sort_from-insert_all [] s = refl
  sort_from-insert_all (v ∷ vs) s = rw (sift-insert v s) (sort_from-insert_all vs (insert cmp v s))

  older-filter :
      (c : Bytes) (rest : List Bytes)
      → every (λ y. up_to cmp c y) rest ≡ true
      → older compare_version c rest ≡ ok (filter (λ v. is_lt (cmp v c)) rest)
  unfolding older every
  older-filter c [] h = refl
  older-filter c (v ∷ vs) h = rw (answers v c, older-filter c vs (ground arith)) (ground arith)

  cut-filter :
      (xs : List Bytes) (k : ℕ)
      → IsPreorder cmp
      → falling cmp xs ≡ true
      → ltb k (length xs) ≡ true
      → (removed : List Bytes) × (cut compare_version (drop_versions k xs) ≡ ok removed)
        × ((test : Bytes → Bool)
            → count test removed ≡ count (λ v. is_outdated cmp (suc k) xs v && test v) xs)
  unfolding cut
  cut-filter xs k p h long = go (drop_versions k xs) refl
    where
      go :
          (rest : List Bytes)
          → drop_versions k xs ≡ rest
          → (removed : List Bytes) × (cut compare_version rest ≡ ok removed)
            × ((test : Bytes → Bool)
                → count test removed ≡ count (λ v. is_outdated cmp (suc k) xs v && test v) xs)
      go [] e = absurd (ground (arith, drop_short cmp p k xs e))
      go (c ∷ rest) e = (
        filter (λ v. is_lt (cmp v c)) rest,
        older-filter c rest (drop-falling cmp p k c xs rest h e),
        λ test.
            count-filter test (λ v. is_lt (cmp v c)) rest
            ∙ sym (count_below cmp p k test c xs rest h e)
            ∙ ap (λ f. count f xs)
                (fun_ext
                  λ v. ap (λ b. b && test v) (sym (is_outdated-cutoff cmp p k v c xs rest h e))),
      )

-- Where the comparator answers on all versions, in a total preorder, the pruning of a partition to
-- `k + 1` versions ends, and what it withdraws are just the versions of the partition than which at
-- least `k + 1` others are newer, each as often as it stands there.
pub remove_from_lem :
    (compare_version : Bytes → Bytes → Result Ordering) (cmp : Bytes → Bytes → Ordering) (k : ℕ)
    (placements : List Placement) (partition : Partition)
    → ((a b : Bytes) → compare_version a b ≡ ok (cmp a b))
    → IsPreorder cmp
    → (removed : List Bytes) × (remove_from compare_version (suc k) placements partition
        ≡ ok removed)
      × ((test : Bytes → Bool)
          → count test removed
            ≡ count
                (λ v. is_outdated cmp (suc k) (versions_of partition placements) v && test v)
                (versions_of partition placements))
unfolding remove_from
remove_from_lem compare_version cmp k placements partition answers p =
    elim (Bool-cases (leb (length sorted) (suc k))) [
      | inl short ↦ (
        [],
        rw (sorts, short) refl,
        λ test.
            unfold count in
            (sym (count_few cmp p (suc k) test sorted sorted short (every-mem sorted)) ∙ same test),
      )
      | inr long ↦
          let (removed, cuts, counts) =
            cut-filter compare_version cmp answers sorted k p (falling-sorted_versions cmp p vs)
              (ground arith) in
          (removed, rw (sorts, long, one_less) cuts, λ test. counts test ∙ same test)
    ]
  where
    vs : List Bytes
    vs = versions_of partition placements

    sorted : List Bytes
    sorted = sorted_versions cmp p vs

    sorts : sort_from compare_version [] vs ≡ ok sorted
    sorts = unfold sorted_versions in sort_from-insert_all compare_version cmp answers vs []

    one_less : suc k - 1 ≡ k
    one_less = omega arith

    same :
        (test : Bytes → Bool)
        → count (λ v. is_outdated cmp (suc k) sorted v && test v) sorted
          ≡ count (λ v. is_outdated cmp (suc k) vs v && test v) vs
    same test =
        count-sorted_versions cmp p (λ v. is_outdated cmp (suc k) sorted v && test v) vs
        ∙ ap (λ f. count f vs)
            (fun_ext λ v.
              ap (λ n. leb (suc k) n && test v) (count-sorted_versions cmp p (is_newer cmp v) vs))
