-- ===== src/State/Canonical/Sorted.antt =====
-- The canonical order of a lock: by package, version and the fields behind them, with nothing lost.
use snailmail.Base.{
  if◌then◌else◌, Bytes, ◌==ᵇ◌, ◌then_by◌, IsPreorder-key, compare_list, IsPreorder-compare_list,
  compare_bytes, IsPreorder-compare_bytes, IsPreorder, insert_by, sort_by, every, count,
  every-sort_by, count-sort_by, ascending, ascending-sort_by, ascending-map, ℕ, ◌+◌, Ordering, lt,
  eq, gt, ◌≡◌, refl, ap, ◌∙◌, fun_ext, subst, Bool, true, List, [], ◌∷◌, map, arith,
}
use snailmail.State.Model.{LockedBlob, PackageVersion, Placement, RepositoryLock, identity}
use snailmail.State.Canonical.{
  compare_blobs, compare_package_versions, compare_placements, sorted_blobs, canonicalize_lock,
}

-- Field by field, each bytewise.
abbrev pub by_fields : List Bytes → List Bytes → Ordering
by_fields = compare_list compare_bytes

abbrev pub version_fields : PackageVersion → List Bytes
version_fields v = v.package_name ∷ v.version ∷ []

abbrev pub blob_fields : LockedBlob → List Bytes
blob_fields b = b.architecture ∷ b.filename ∷ b.sha256 ∷ []

abbrev pub placement_fields : Placement → List Bytes
placement_fields p = p.package_name ∷ p.version ∷ p.track ∷ p.distro ∷ []

then_by-eq : (o : Ordering) → o then_by eq ≡ o
then_by-eq lt = refl
then_by-eq eq = refl
then_by-eq gt = refl

IsPreorder-by_fields : IsPreorder by_fields
IsPreorder-by_fields = IsPreorder-compare_list IsPreorder-compare_bytes

by_fields-compare_package_versions :
    (a b : PackageVersion)
    → by_fields (version_fields a) (version_fields b) ≡ compare_package_versions a b
unfolding compare_list compare_package_versions
by_fields-compare_package_versions a b = rw (then_by-eq (compare_bytes a.version b.version)) refl

by_fields-compare_blobs :
    (a b : LockedBlob) → by_fields (blob_fields a) (blob_fields b) ≡ compare_blobs a b
unfolding compare_list compare_blobs
by_fields-compare_blobs a b = rw (then_by-eq (compare_bytes a.sha256 b.sha256)) refl

by_fields-compare_placements :
    (a b : Placement) → by_fields (placement_fields a) (placement_fields b) ≡ compare_placements a b
unfolding compare_list compare_placements
by_fields-compare_placements a b = rw (then_by-eq (compare_bytes a.distro b.distro)) refl

-- A sort by a comparison of fields puts the fields in order.
ascending_fields {ℓ} :
    {A : Type ℓ} (fields_of : A → List Bytes) (cmp : A → A → Ordering)
    → ((a b : A) → by_fields (fields_of a) (fields_of b) ≡ cmp a b)
    → (xs : List A) → ascending by_fields (map fields_of (sort_by cmp xs)) ≡ true
ascending_fields fields_of cmp same xs =
    ascending-map fields_of by_fields (sort_by cmp xs)
    ∙ ap (λ f. ascending f (sort_by cmp xs)) (fun_ext λ a. fun_ext λ b. same a b)
    ∙ ascending-sort_by cmp
        (subst IsPreorder (fun_ext λ a. fun_ext λ b. same a b)
          (IsPreorder-key fields_of IsPreorder-by_fields))
        xs

-- The blobs that pass a test, in all entries of a version.
unfoldable pub blobs_of : Bytes → (LockedBlob → Bool) → List PackageVersion → ℕ
unfolding ◌==ᵇ◌ count
blobs_of key test [] = 0
blobs_of key test (v ∷ vs) =
    let rest = blobs_of key test vs in
    if identity v ==ᵇ key then count test v.blobs + rest else rest

module _ (key : Bytes) (test : LockedBlob → Bool) where
  blobs_of-insert_by :
      (cmp : PackageVersion → PackageVersion → Ordering) (v : PackageVersion)
      (vs : List PackageVersion)
      → blobs_of key test (insert_by cmp v vs) ≡ blobs_of key test (v ∷ vs)
  unfolding blobs_of insert_by
  blobs_of-insert_by cmp v [] = refl
  blobs_of-insert_by cmp v (w ∷ vs) = ground (arith, blobs_of-insert_by cmp v vs)

  blobs_of-sort_by :
      (cmp : PackageVersion → PackageVersion → Ordering) (vs : List PackageVersion)
      → blobs_of key test (sort_by cmp vs) ≡ blobs_of key test vs
  unfolding blobs_of sort_by
  blobs_of-sort_by cmp [] = refl
  blobs_of-sort_by cmp (v ∷ vs) =
      ground (arith, blobs_of-insert_by cmp v (sort_by cmp vs), blobs_of-sort_by cmp vs)

  blobs_of-sorted_blobs :
      (vs : List PackageVersion) → blobs_of key test (map sorted_blobs vs) ≡ blobs_of key test vs
  unfolding blobs_of
  blobs_of-sorted_blobs [] = refl
  blobs_of-sorted_blobs (v ∷ vs) =
      ground (arith, blobs_of-sorted_blobs vs, count-sort_by test compare_blobs v.blobs)

abbrev pub has_sorted_blobs : PackageVersion → Bool
has_sorted_blobs v = ascending by_fields (map blob_fields v.blobs)

every-sorted_blobs :
    (vs : List PackageVersion) → every has_sorted_blobs (map sorted_blobs vs) ≡ true
unfolding every
every-sorted_blobs [] = refl
every-sorted_blobs (v ∷ vs) = ground (
  arith,
  every-sorted_blobs vs,
  ascending_fields blob_fields compare_blobs by_fields-compare_blobs v.blobs,
)

-- A written lock has its package versions in ascending order of package and version, the blobs of
-- each in ascending order of architecture, filename and SHA-256, and its placements in ascending
-- order of package, version, track and distro; it has the same blobs under every package version, and
-- the same placements, as often as the lock it was made of.
pub canonicalize_lock_lem :
    (lock : RepositoryLock)
    → (ascending by_fields (map version_fields (canonicalize_lock lock).package_version) ≡ true)
      × (every has_sorted_blobs (canonicalize_lock lock).package_version ≡ true)
      × (ascending by_fields (map placement_fields (canonicalize_lock lock).placement) ≡ true)
      × ((key : Bytes) (test : LockedBlob → Bool)
          → blobs_of key test (canonicalize_lock lock).package_version
            ≡ blobs_of key test lock.package_version)
      × ((test : Placement → Bool)
          → count test (canonicalize_lock lock).placement ≡ count test lock.placement)
unfolding canonicalize_lock
canonicalize_lock_lem lock =
    let versions = map sorted_blobs lock.package_version in
    (
      ascending_fields version_fields compare_package_versions by_fields-compare_package_versions
          versions,
      every-sort_by compare_package_versions has_sorted_blobs versions
          ∙ every-sorted_blobs lock.package_version,
      ascending_fields placement_fields compare_placements by_fields-compare_placements
          lock.placement,
      λ key test.
          blobs_of-sort_by key test compare_package_versions versions
          ∙ blobs_of-sorted_blobs key test lock.package_version,
      λ test. count-sort_by test compare_placements lock.placement,
    )
