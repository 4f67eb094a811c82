-- ===== src/State/Prune.antt =====
-- internal/state/prune.go: withdrawing all but the newest versions of each partition, a package on a
-- track and a distro. The version comparator is a parameter, as it is in the code.
pub mod Sorting
pub mod Cutoff
pub mod Newest
pub mod Withdrawn
use snailmail.Base.{
  leb, if◌then◌else◌, length, Bytes, ◌==ᵇ◌, ◌then_by◌, compare_bytes, ℤ, pos, negsuc, ◌>>=◌, Result,
  ok, err, filter, sort_by, count, ℕ, zero, suc, ◌-◌, Ordering, lt, eq, gt, Bool, true, false, not,
  ◌&&◌, ◌||◌, List, [], ◌∷◌, ◌++◌, map, ◌>>◌,
}
use snailmail.State.Model.{Placement, RepositoryLock}
use snailmail.State.Canonical.{canonicalize_lock}
use snailmail.State.Placements.{has_placement, with_placements}

pub record Partition : Type 0 where
  pub package_name : Bytes
  pub track : Bytes
  pub distro : Bytes

pub partition_of : Placement → Partition
partition_of p = record { package_name = p.package_name; track = p.track; distro = p.distro }

pub same_partition : Partition → Partition → Bool
unfolding ◌==ᵇ◌
same_partition p q =
    p.package_name ==ᵇ q.package_name && p.track ==ᵇ q.track && p.distro ==ᵇ q.distro

pub compare_partitions : Partition → Partition → Ordering
compare_partitions left right =
    compare_bytes left.package_name right.package_name
    then_by compare_bytes left.track right.track
    then_by compare_bytes left.distro right.distro

pub has_partition : Partition → List Partition → Bool
unfolding same_partition
has_partition p [] = false
has_partition p (q ∷ qs) = same_partition q p || has_partition p qs

-- The keys of the map of partitions.
pub partitions : List Placement → List Partition
unfolding has_partition partition_of
partitions [] = []
partitions (p ∷ ps) =
    let rest = partitions ps in
    if has_partition (partition_of p) rest then rest else partition_of p ∷ rest

pub versions_of : Partition → List Placement → List Bytes
unfolding same_partition partition_of
versions_of partition [] = []
versions_of partition (p ∷ ps) =
    let rest = versions_of partition ps in
    if same_partition (partition_of p) partition then p.version ∷ rest else rest

-- `left >= right` on strings
not_below : Bytes → Bytes → Bool
not_below left right = elim (compare_bytes left right) [ lt ↦ false | _ ↦ true ]

reverse_onto : List Bytes → List Bytes → List Bytes
reverse_onto done [] = done
reverse_onto done (x ∷ xs) = reverse_onto (x ∷ done) xs

-- `versions[n:]`
pub drop_versions : ℕ → List Bytes → List Bytes
drop_versions zero versions = versions
drop_versions (suc n) [] = []
drop_versions (suc n) (v ∷ vs) = drop_versions n vs

module _ (compare_version : Bytes → Bytes → Result Ordering) where
  -- The inner loop of the sort: a version moves forward past those that are older. The versions
  -- before it are given last one first.
  pub sift : Bytes → List Bytes → Result (List Bytes)
  unfolding not_below
  sift version [] = ok (version ∷ [])
  sift version (previous ∷ before) =
      let rest = sift version before in
      compare_version version previous >>= λ comparison. elim comparison [
        | lt ↦ ok (version ∷ previous ∷ before)
        | eq ↦
            if not_below version previous
            then ok (version ∷ previous ∷ before)
            else (rest >>= λ moved. ok (previous ∷ moved))
        | gt ↦ rest >>= λ moved. ok (previous ∷ moved)
      ]

  -- The outer loop.
  pub sort_from : List Bytes → List Bytes → Result (List Bytes)
  unfolding sift reverse_onto
  sort_from sorted [] = ok (reverse_onto [] sorted)
  sort_from sorted (version ∷ rest) = sift version sorted >>= λ next. sort_from next rest

  -- The versions behind the cutoff that do not compare equal to it.
  pub older : Bytes → List Bytes → Result (List Bytes)
  older cutoff [] = ok []
  older cutoff (version ∷ rest) = do
    comparison ← compare_version version cutoff
    others ← older cutoff rest
    elim comparison [ eq ↦ ok others | _ ↦ ok (version ∷ others) ]

  -- `versions[keep-1]` and the versions behind it.
  pub cut : List Bytes → Result (List Bytes)
  unfolding older
  cut [] = ok []
  cut (cutoff ∷ rest) = older cutoff rest

  pub remove_from : ℕ → List Placement → Partition → Result (List Bytes)
  unfolding sort_from versions_of cut drop_versions
  remove_from keep placements partition = do
    versions ← sort_from [] (versions_of partition placements)
    if leb (length versions) keep then ok [] else cut (drop_versions (keep - 1) versions)

pub placement_in : Partition → Bytes → Placement
placement_in partition version = record {
  package_name = partition.package_name;
  version = version;
  track = partition.track;
  distro = partition.distro;
}

module _ (compare_version : Bytes → Bytes → Result Ordering) where
  -- The loop on the partitions, which fills the map of placements to remove.
  pub remove_all : ℕ → List Placement → List Partition → Result (List Placement)
  unfolding remove_from placement_in
  remove_all keep placements [] = ok []
  remove_all keep placements (p ∷ ps) = do
    versions ← remove_from compare_version keep placements p
    others ← remove_all keep placements ps
    ok (map (placement_in p) versions ++ others)

  unfoldable pub pruned : RepositoryLock → List Placement → RepositoryLock × ℕ
  unfolding has_placement canonicalize_lock count
  pruned lock [] = (lock, zero)
  pruned lock (r ∷ remove) =
      let kept = filter (λ p. not (has_placement p (r ∷ remove))) lock.placement in
      (
        canonicalize_lock (with_placements lock kept),
        count (λ p. has_placement p (r ∷ remove)) lock.placement,
      )

  unfoldable pub prune_placements : RepositoryLock → ℤ → Result (RepositoryLock × ℕ)
  unfolding remove_all partitions compare_partitions sort_by pruned
  prune_placements lock (negsuc _) = err
  prune_placements lock (pos zero) = err
  prune_placements lock (pos (suc k)) =
      remove_all (suc k) lock.placement (sort_by compare_partitions (partitions lock.placement))
      >>= λ remove. ok (pruned lock remove)
