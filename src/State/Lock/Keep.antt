-- ===== src/State/Lock/Keep.antt =====
-- What leaves the entries of a lock valid: the canonical order, a placement dropped, a new one.
use snailmail.Base.{
  Bytes, mem, insert_by, sort_by, every, every-sort_by, mem-sort_by, distinct-sort_by, ◌≡◌, refl,
  ap, ◌∙◌, Bool, false, List, [], ◌∷◌, map, arith,
}
use snailmail.Formats.{Format}
use snailmail.State.Model.{
  LockedBlob, PackageVersion, Placement, RepositoryLock, ArtifactOrigin, ◌⊕◌, identity,
}
use snailmail.State.Canonical.{
  compare_blobs, compare_package_versions, compare_placements, sorted_blobs, canonicalize_lock,
}
use snailmail.State.Lock.{coordinate, placement_key, blob_ok, version_ok, is_nil}
use snailmail.State.Lock.Valid.{valid_blobs, valid_version, valid_placement, valid_entries}

is_nil-insert_by :
    (x : LockedBlob) (xs : List LockedBlob) → is_nil (insert_by compare_blobs x xs) ≡ false
unfolding insert_by
is_nil-insert_by x [] = refl
is_nil-insert_by x (y ∷ ys) = ground arith

is_nil-sort_by : (xs : List LockedBlob) → is_nil (sort_by compare_blobs xs) ≡ is_nil xs
unfolding sort_by
is_nil-sort_by [] = refl
is_nil-sort_by (x ∷ xs) = is_nil-insert_by x (sort_by compare_blobs xs)

module _ (valid_origin : ArtifactOrigin → Bool) (format : Format) where
  valid_version-sorted_blobs :
      (v : PackageVersion)
      → valid_version valid_origin format (sorted_blobs v) ≡ valid_version valid_origin format v
  unfolding valid_version valid_blobs version_ok
  valid_version-sorted_blobs v =
      rw
        (
          is_nil-sort_by v.blobs,
          every-sort_by compare_blobs (blob_ok valid_origin) v.blobs,
          distinct-sort_by compare_blobs (coordinate format) v.blobs,
        )
        refl

  every-sorted_blobs :
      (vs : List PackageVersion)
      → every (valid_version valid_origin format) (map sorted_blobs vs)
        ≡ every (valid_version valid_origin format) vs
  unfolding every
  every-sorted_blobs [] = refl
  every-sorted_blobs (v ∷ vs) = rw (valid_version-sorted_blobs v, every-sorted_blobs vs) refl

identity-sorted_blobs :
    (vs : List PackageVersion) → map identity (map sorted_blobs vs) ≡ map identity vs
identity-sorted_blobs [] = refl
identity-sorted_blobs (v ∷ vs) = ap (λ ks. identity v ∷ ks) (identity-sorted_blobs vs)

every-valid_placement :
    (left right : List Bytes) (ps : List Placement)
    → ((k : Bytes) → mem k left ≡ mem k right)
    → every (valid_placement left) ps ≡ every (valid_placement right) ps
unfolding every valid_placement
every-valid_placement left right [] same = refl
every-valid_placement left right (p ∷ ps) same =
    rw (same (p.package_name ⊕ p.version), every-valid_placement left right ps same) refl

-- Writing a lock in canonical order changes nothing of what ValidateLock demands of its entries.
pub valid_entries-canonicalize_lock :
    (valid_origin : ArtifactOrigin → Bool) (format : Format) (lock : RepositoryLock)
    → valid_entries valid_origin format (canonicalize_lock lock)
      ≡ valid_entries valid_origin format lock
unfolding valid_entries canonicalize_lock
valid_entries-canonicalize_lock valid_origin format lock =
    let vs = lock.package_version in
    let ps = lock.placement in
    let sorted = map sorted_blobs vs in
    rw
      (
        every-sort_by compare_package_versions (valid_version valid_origin format) sorted,
        every-sorted_blobs valid_origin format vs,
        distinct-sort_by compare_package_versions identity sorted,
        identity-sorted_blobs vs,
        every-sort_by compare_placements
            (valid_placement (map identity (sort_by compare_package_versions sorted))) ps,
        every-valid_placement (map identity (sort_by compare_package_versions sorted))
            (map identity vs) ps
            (λ k.
              mem-sort_by compare_package_versions identity k sorted
              ∙ ap (mem k) (identity-sorted_blobs vs)),
        distinct-sort_by compare_placements placement_key ps,
      )
      refl
