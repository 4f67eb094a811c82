-- ===== src/State/Lock/Valid.antt =====
-- What ValidateLock demands, without its loops and sets.
use snailmail.Base.{
  ◌==◌, if◌then◌else◌, Bytes, ◌==ᵇ◌, ◌>>=◌, ◌>>◌, require, Result, ok, err, mem, distinct, every,
  fresh, fresh-distinct, ◌≡◌, refl, sym, ap, fun_ext, Bool, true, false, not, ◌&&◌, ◌||◌, List, [],
  ◌∷◌, map, arith,
}
use snailmail.Formats.{Format, format_for}
use snailmail.State.Model.{
  LockedBlob, PackageVersion, Placement, RepositoryLock, ArtifactOrigin, lock_schema, ◌⊕◌, identity,
}
use snailmail.State.Lock.{
  coordinate, placement_key, blob_ok, check_blobs, version_ok, check_versions, check_placements,
  validate_lock,
}

-- One round of the innermost loop.
refuse_or_go_on :
    (ok_here repeated rest_ok rest_fresh : Bool) {rest : Result (Unit {0})}
    → rest ≡ require (rest_ok && rest_fresh)
    → (if not ok_here then err else if repeated then err else rest)
      ≡ require ((ok_here && rest_ok) && (not repeated && rest_fresh))
refuse_or_go_on false repeated a b h = refl
refuse_or_go_on true true false b h = refl
refuse_or_go_on true true true b h = refl
refuse_or_go_on true false a b h = h

module _ (valid_origin : ArtifactOrigin → Bool) where
  unfoldable pub valid_blobs : Format → List LockedBlob → Bool
  unfolding every blob_ok distinct coordinate
  valid_blobs format bs = every (blob_ok valid_origin) bs && distinct (map (coordinate format) bs)

  unfoldable pub valid_version : Format → PackageVersion → Bool
  unfolding version_ok valid_blobs
  valid_version format v = version_ok valid_origin v && valid_blobs format v.blobs

unfoldable pub valid_placement : List Bytes → Placement → Bool
unfolding mem ◌==ᵇ◌
valid_placement identities p = mem (p.package_name ⊕ p.version) identities && not (p.track ==ᵇ [])

module _ (valid_origin : ArtifactOrigin → Bool) where
  -- Every package version is valid and none occurs twice; every placement is of a package version
  -- of the lock, and none occurs twice.
  unfoldable pub valid_entries : Format → RepositoryLock → Bool
  unfolding every distinct valid_version valid_placement placement_key
  valid_entries format lock =
      every (valid_version valid_origin format) lock.package_version
      && distinct (map identity lock.package_version)
      && every (valid_placement (map identity lock.package_version)) lock.placement
      && distinct (map placement_key lock.placement)

  check_blobs_lem :
      (format : Format) (seen : List Bytes) (bs : List LockedBlob)
      → check_blobs valid_origin format seen bs
        ≡ require (every (blob_ok valid_origin) bs && fresh seen (map (coordinate format) bs))
  unfolding check_blobs every fresh
  check_blobs_lem format seen [] = refl
  check_blobs_lem format seen (b ∷ bs) =
      refuse_or_go_on (blob_ok valid_origin b) (mem (coordinate format b) seen) _ _
        (check_blobs_lem format (coordinate format b ∷ seen) bs)

seen_after : List Bytes → List PackageVersion → List Bytes
seen_after seen [] = seen
seen_after seen (v ∷ vs) = seen_after (identity v ∷ seen) vs

mem-seen_after :
    (k : Bytes) (seen : List Bytes) (vs : List PackageVersion)
    → mem k (seen_after seen vs) ≡ (mem k seen || mem k (map identity vs))
unfolding seen_after mem
mem-seen_after k seen [] = ground arith
mem-seen_after k seen (v ∷ vs) = ground (arith, mem-seen_after k (identity v ∷ seen) vs)

check_placements_lem :
    (identities seen : List Bytes) (ps : List Placement)
    → check_placements identities seen ps
      ≡ require (every (valid_placement identities) ps && fresh seen (map placement_key ps))
unfolding check_placements every fresh valid_placement
check_placements_lem identities seen [] = refl
check_placements_lem identities seen (p ∷ ps) =
    ground (arith, check_placements_lem identities (placement_key p ∷ seen) ps)

module _ (valid_origin : ArtifactOrigin → Bool) where
  check_versions_lem :
      (format : Format) (seen : List Bytes) (vs : List PackageVersion)
      → check_versions valid_origin format seen vs ≡ (
          require (every (valid_version valid_origin format) vs && fresh seen (map identity vs))
          >> ok (seen_after seen vs))
  unfolding check_versions every valid_version valid_blobs fresh seen_after
  check_versions_lem format seen [] = refl
  check_versions_lem format seen (v ∷ vs) = ground (
    arith,
    check_versions_lem format (identity v ∷ seen) vs,
    check_blobs_lem valid_origin format [] v.blobs,
    fresh-distinct (map (coordinate format) v.blobs),
  )

every-valid_placement :
    (vs : List PackageVersion) (ps : List Placement)
    → every (valid_placement (seen_after [] vs)) ps ≡ every (valid_placement (map identity vs)) ps
unfolding every valid_placement mem
every-valid_placement vs [] = refl
every-valid_placement vs (p ∷ ps) =
    ground (arith, mem-seen_after (p.package_name ⊕ p.version) [] vs, every-valid_placement vs ps)

require-and :
    {A : Type 0} (a b c d : Bool) (x : A) (r : A → Result (Unit {0}))
    → r x ≡ require (c && d)
    → ((require (a && b) >> ok x) >>= r) ≡ require (((a && b) && c) && d)
require-and false b c d x r h = refl
require-and true false c d x r h = refl
require-and true true c d x r h = h

entries_lem :
    (valid_origin : ArtifactOrigin → Bool) (format : Format) (lock : RepositoryLock)
    → (check_versions valid_origin format [] lock.package_version >>= λ versions.
        check_placements versions [] lock.placement)
      ≡ require (valid_entries valid_origin format lock)
unfolding valid_entries
entries_lem valid_origin format lock =
    let vs = lock.package_version in
    let ps = lock.placement in
    rw (check_versions_lem valid_origin format [] vs, fresh-distinct (map identity vs))
      (require-and (every (valid_version valid_origin format) vs) (distinct (map identity vs))
        (every (valid_placement (map identity vs)) ps) (distinct (map placement_key ps))
        (seen_after [] vs) (λ versions. check_placements versions [] ps)
        (rw (sym (every-valid_placement vs ps), sym (fresh-distinct (map placement_key ps)))
          (check_placements_lem (seen_after [] vs) [] ps)))

-- ValidateLock accepts a lock exactly when its schema and its repository are the expected ones, the
-- format is registered, and its entries are valid for that format: every package version and every
-- blob is well formed, no identity, no blob coordinate of one version and no placement occurs twice,
-- and every placement is on a track and of a package version of the lock.
pub validate_lock_lem :
    (valid_origin : ArtifactOrigin → Bool) (lock : RepositoryLock) (expected format : Bytes)
    → validate_lock valid_origin lock expected format ≡ (do
      require (lock.schema_version == lock_schema && lock.repository ==ᵇ expected)
      selected ← format_for format
      require (valid_entries valid_origin selected lock))
unfolding validate_lock
validate_lock_lem valid_origin lock expected format =
    ap
      (λ f.
        require (lock.schema_version == lock_schema && lock.repository ==ᵇ expected)
        >> (format_for format >>= f))
      (fun_ext λ selected. entries_lem valid_origin selected lock)
