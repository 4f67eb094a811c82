-- ===== src/State/Prune/Withdrawn.antt =====
-- Which placements of a lock a pruning withdraws, under a comparator that answers on all versions.
use snailmail.Base.{
  ltb, if◌then◌else◌, Bool-cases, Bytes, ◌==ᵇ◌, ==ᵇ_refl, ==ᵇ_iff, IsPreorder, pos, Result, ok, mem,
  filter, insert_by, sort_by, every, ==ᵇ_swap, count, count-filter, ℕ, suc, Ordering, ◌≡◌, refl,
  sym, ap, ◌∙◌, subst, inl, inr, Bool, true, false, not, ◌&&◌, ◌||◌, List, [], ◌∷◌, ◌++◌, map,
  arith,
}
use snailmail.State.Model.{Placement, RepositoryLock, ArtifactOrigin}
use snailmail.Formats.{Format}
use snailmail.State.Lock.Valid.{valid_entries}
use snailmail.State.Lock.Keep.{valid_entries-canonicalize_lock}
use snailmail.State.Placements.{has_placement, with_placements}
use snailmail.State.Placements.Laws.{placed, placed-canonicalize_lock, valid_entries-filter}
use snailmail.State.Prune.{
  Partition, partition_of, same_partition, has_partition, versions_of, partitions,
  compare_partitions, placement_in, remove_all, pruned, prune_placements,
}
use snailmail.State.Prune.Sorting.{is_outdated}
use snailmail.State.Prune.Newest.{remove_from_lem}

same_partition_lem : (a b : Partition) → same_partition a b ≡ true → a ≡ b
unfolding same_partition
same_partition_lem a b h =
    let name : a.package_name ≡ b.package_name =
      (==ᵇ_iff a.package_name b.package_name).0 (ground arith) in
    let track : a.track ≡ b.track = (==ᵇ_iff a.track b.track).0 (ground arith) in
    let distro : a.distro ≡ b.distro = (==ᵇ_iff a.distro b.distro).0 (ground arith) in
    λ i. record { package_name = name i; track = track i; distro = distro i }

has_placement-versions :
    (x : Placement) (q : Partition) (versions : List Bytes) (others : List Placement)
    → has_placement x (map (placement_in q) versions ++ others)
      ≡ (same_partition q (partition_of x) && mem x.version versions || has_placement x others)
unfolding has_placement placement_in mem same_partition partition_of
has_placement-versions x q [] others = ground arith
has_placement-versions x q (v ∷ vs) others =
    ground (arith, has_placement-versions x q vs others, ==ᵇ_swap v x.version)

mem-count : (v : Bytes) (xs : List Bytes) → mem v xs ≡ ltb 0 (count (λ w. w ==ᵇ v) xs)
unfolding mem count
mem-count v [] = refl
mem-count v (x ∷ xs) = ground (arith, mem-count v xs, ==ᵇ_swap v x)

count_at :
    (test : Bytes → Bool) (v : Bytes) (xs : List Bytes)
    → count (λ w. test w && w ==ᵇ v) xs ≡ (if test v then count (λ w. w ==ᵇ v) xs else 0)
unfolding count
count_at test v [] = ground arith
count_at test v (x ∷ xs) = elim (Bool-cases (x ==ᵇ v)) [
  | inl same ↦
      let equal : test x ≡ test v = ap test ((==ᵇ_iff x v).0 same) in
      ground (arith, count_at test v xs)
  | inr other ↦ ground (arith, count_at test v xs)
]

-- At least `k + 1` versions of the placement's partition are newer than its own.
abbrev pub is_withdrawn : (Bytes → Bytes → Ordering) → ℕ → List Placement → Placement → Bool
is_withdrawn cmp k placements x =
    is_outdated cmp (suc k) (versions_of (partition_of x) placements) x.version

module _ (compare_version : Bytes → Bytes → Result Ordering) (cmp : Bytes → Bytes → Ordering)
    (k : ℕ) (answers : (a b : Bytes) → compare_version a b ≡ ok (cmp a b)) (p : IsPreorder cmp)
    (placements : List Placement) where
  mem_removed :
      (q : Partition) (removed : List Bytes) (v : Bytes)
      → ((test : Bytes → Bool)
          → count test removed
            ≡ count
                (λ w. is_outdated cmp (suc k) (versions_of q placements) w && test w)
                (versions_of q placements))
      → mem v (versions_of q placements) ≡ true
      → mem v removed ≡ is_outdated cmp (suc k) (versions_of q placements) v
  mem_removed q removed v counts here =
      let vs = versions_of q placements in
      ground (
        arith,
        mem-count v removed,
        counts (λ w. w ==ᵇ v),
        count_at (is_outdated cmp (suc k) vs) v vs,
        mem-count v vs,
      )

  remove_all_lem :
      (ps : List Partition)
      → (remove : List Placement) × (remove_all compare_version (suc k) placements ps ≡ ok remove)
        × ((x : Placement)
            → mem x.version (versions_of (partition_of x) placements) ≡ true
            → has_placement x remove
              ≡ (has_partition (partition_of x) ps && is_withdrawn cmp k placements x))
  unfolding remove_all has_partition has_placement
  remove_all_lem [] = ([], refl, λ x here. refl)
  remove_all_lem (q ∷ ps) =
      let (removed, removes, counts) =
        remove_from_lem compare_version cmp k placements q answers p in
      let (others, more, rest) = remove_all_lem ps in
      (
        map (placement_in q) removed ++ others,
        rw (removes, more) refl,
        λ x here. elim (Bool-cases (same_partition q (partition_of x))) [
          | inl same ↦
              let equal : partition_of x ≡ q = sym (same_partition_lem q (partition_of x) same) in
              let gone : mem x.version removed ≡ is_withdrawn cmp k placements x =
                mem_removed q removed x.version counts
                  (subst (λ r. mem x.version (versions_of r placements) ≡ true) equal here)
                ∙ ap (λ r. is_outdated cmp (suc k) (versions_of r placements) x.version)
                    (sym equal) in
              ground (arith, has_placement-versions x q removed others, rest x here)
          | inr other ↦ ground (arith, has_placement-versions x q removed others, rest x here)
        ],
      )

-- The partitions and the versions of the placements at hand.
abbrev is_listed : List Partition → List Placement → Placement → Bool
is_listed ps placements x =
    has_partition (partition_of x) ps && mem x.version (versions_of (partition_of x) placements)

has_partition-insert_by :
    (cmp : Partition → Partition → Ordering) (r q : Partition) (ps : List Partition)
    → has_partition r (insert_by cmp q ps) ≡ (same_partition q r || has_partition r ps)
unfolding has_partition insert_by
has_partition-insert_by cmp r q [] = refl
has_partition-insert_by cmp r q (s ∷ ps) = ground (arith, has_partition-insert_by cmp r q ps)

has_partition-sort_by :
    (cmp : Partition → Partition → Ordering) (r : Partition) (ps : List Partition)
    → has_partition r (sort_by cmp ps) ≡ has_partition r ps
unfolding has_partition sort_by
has_partition-sort_by cmp r [] = refl
has_partition-sort_by cmp r (q ∷ ps) =
    has_partition-insert_by cmp r q (sort_by cmp ps)
    ∙ ap (λ b. same_partition q r || b) (has_partition-sort_by cmp r ps)

same_partition_refl : (a : Partition) → same_partition a a ≡ true
unfolding same_partition
same_partition_refl a = ground (arith, ==ᵇ_refl a.package_name, ==ᵇ_refl a.track, ==ᵇ_refl a.distro)

listed_more :
    (y : Placement) (placements xs : List Placement)
    → every (is_listed (partitions placements) placements) xs ≡ true
    → every (is_listed (partitions (y ∷ placements)) (y ∷ placements)) xs ≡ true
unfolding every partitions versions_of has_partition mem
listed_more y placements [] h = refl
listed_more y placements (x ∷ xs) h = ground (arith, listed_more y placements xs)

all_listed : (xs : List Placement) → every (is_listed (partitions xs) xs) xs ≡ true
unfolding every partitions versions_of has_partition mem
all_listed [] = refl
all_listed (x ∷ xs) = ground (
  arith,
  listed_more x xs xs (all_listed xs),
  same_partition_refl (partition_of x),
  ==ᵇ_refl x.version,
)

count_agree :
    (known f g : Placement → Bool) (xs : List Placement)
    → ((x : Placement) → known x ≡ true → f x ≡ g x)
    → every known xs ≡ true
    → count f xs ≡ count g xs
unfolding count every
count_agree known f g [] same h = refl
count_agree known f g (x ∷ xs) same h = ground (arith, count_agree known f g xs same, same x)

valid_entries-pruned :
    (compare_version : Bytes → Bytes → Result Ordering) (valid_origin : ArtifactOrigin → Bool)
    (format : Format) (lock : RepositoryLock) (remove : List Placement)
    → valid_entries valid_origin format lock ≡ true
    → valid_entries valid_origin format (pruned compare_version lock remove).0 ≡ true
unfolding pruned
valid_entries-pruned compare_version valid_origin format lock [] valid = valid
valid_entries-pruned compare_version valid_origin format lock (r ∷ remove) valid =
    let kept : (Placement → Bool) = λ x. not (has_placement x (r ∷ remove)) in
    valid_entries-canonicalize_lock valid_origin format
      (with_placements lock (filter kept lock.placement))
    ∙ valid_entries-filter valid_origin format lock kept valid

count_none : (xs : List Placement) → count (λ x. false) xs ≡ 0
unfolding count
count_none [] = refl
count_none (x ∷ xs) = count_none xs

placed-pruned :
    (compare_version : Bytes → Bytes → Result Ordering) (lock : RepositoryLock)
    (remove : List Placement) (test : Placement → Bool)
    → placed test (pruned compare_version lock remove).0
      ≡ count (λ x. not (has_placement x remove) && test x) lock.placement
unfolding pruned placed has_placement
placed-pruned compare_version lock [] test = refl
placed-pruned compare_version lock (r ∷ remove) test =
    let kept = filter (λ x. not (has_placement x (r ∷ remove))) lock.placement in
    placed-canonicalize_lock test (with_placements lock kept)
    ∙ count-filter test (λ x. not (has_placement x (r ∷ remove))) lock.placement

removed-pruned :
    (compare_version : Bytes → Bytes → Result Ordering) (lock : RepositoryLock)
    (remove : List Placement)
    → (pruned compare_version lock remove).1 ≡ count (λ x. has_placement x remove) lock.placement
unfolding pruned has_placement
removed-pruned compare_version lock [] = sym (count_none lock.placement)
removed-pruned compare_version lock (r ∷ remove) = refl

-- Where the comparator answers on all versions, in a total preorder, pruning to `k + 1` versions
-- succeeds. It withdraws just the placements of the lock than whose version at least `k + 1` versions
-- on the same track and distro of the package are newer, keeps all others as often as they stood
-- there, leaves the entries of the lock valid where they were, and returns the number of those it
-- withdrew.
pub prune_placements_lem :
    (compare_version : Bytes → Bytes → Result Ordering) (cmp : Bytes → Bytes → Ordering) (k : ℕ)
    (valid_origin : ArtifactOrigin → Bool) (format : Format) (lock : RepositoryLock)
    → ((a b : Bytes) → compare_version a b ≡ ok (cmp a b))
    → IsPreorder cmp
    → valid_entries valid_origin format lock ≡ true
    → (out : RepositoryLock × ℕ) × (prune_placements compare_version lock (pos (suc k)) ≡ ok out)
      × (valid_entries valid_origin format out.0 ≡ true)
      × ((test : Placement → Bool)
          → placed test out.0
            ≡ count (λ x. not (is_withdrawn cmp k lock.placement x) && test x) lock.placement)
      × (out.1 ≡ count (is_withdrawn cmp k lock.placement) lock.placement)
unfolding prune_placements
prune_placements_lem compare_version cmp k valid_origin format lock answers p valid =
    let xs = lock.placement in
    let ps = sort_by compare_partitions (partitions xs) in
    let (remove, removes, removed) = remove_all_lem compare_version cmp k answers p xs ps in
    let agrees : ((x : Placement)
        → is_listed (partitions xs) xs x ≡ true
        → has_placement x remove ≡ is_withdrawn cmp k xs x) =
      λ x known.
        let listed : has_partition (partition_of x) ps ≡ true =
          has_partition-sort_by compare_partitions (partition_of x) (partitions xs)
          ∙ ground arith in
        removed x (ground arith) ∙ ap (λ b. b && is_withdrawn cmp k xs x) listed in
    (
      pruned compare_version lock remove,
      rw removes refl,
      valid_entries-pruned compare_version valid_origin format lock remove valid,
      λ test.
          placed-pruned compare_version lock remove test
          ∙ count_agree (is_listed (partitions xs) xs) _ _ xs
              (λ x known. ap (λ b. not b && test x) (agrees x known)) (all_listed xs),
      removed-pruned compare_version lock remove
          ∙ count_agree (is_listed (partitions xs) xs) _ _ xs agrees (all_listed xs),
    )
