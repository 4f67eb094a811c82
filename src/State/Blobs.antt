-- ===== src/State/Blobs.antt =====
-- internal/state/store.go: AddBlob and SetBlobOrigin, which record an artifact in a lock and where it
-- came from. On an error the caller's lock is as before: a package version that AddBlob appends has
-- no blobs, so the loop that can fail does not run on it.
pub mod Bound
use snailmail.Base.{
  if◌then◌else◌, Bytes, codes, ◌==ᵇ◌, compare_int, ℤ, ◌>>=◌, require, Result, ok, err, eq, Bool,
  true, false, not, ◌&&◌, ◌||◌, Option, none, some, List, [], ◌∷◌, ◌++◌, ◌>>◌,
}
use snailmail.Formats.{Format, format_for, artifact_coordinate}
use snailmail.State.Model.{LockedBlob, PackageVersion, Placement, RepositoryLock, ArtifactOrigin}
use snailmail.State.Lock.{coordinate, is_base_name}
use snailmail.State.Placements.{validate_placement_coordinates, has_placement}

-- `legacyDigestConflict`
unfoldable pub legacy_digest_conflict : LockedBlob → LockedBlob → Bool
unfolding ◌==ᵇ◌
legacy_digest_conflict existing derived =
    not (existing.md5 ==ᵇ []) && not (derived.md5 ==ᵇ []) && not (existing.md5 ==ᵇ derived.md5)
    || (not (existing.sha1 ==ᵇ [])
        && not (derived.sha1 ==ᵇ [])
        && not (existing.sha1 ==ᵇ derived.sha1))

unfoldable pub compare_sizes : ℤ → ℤ → Bool
unfolding compare_int
compare_sizes a b = elim (compare_int a b) [ eq ↦ true | _ ↦ false ]

abbrev pub same_artifact : LockedBlob → LockedBlob → Bool
same_artifact existing blob = existing.sha256 ==ᵇ blob.sha256 && existing.filename ==ᵇ blob.filename

-- The body of the loop of `AddBlob`, on the results of its tests.
abbrev pub blob_round : Bool → Bool → Bool → Result Bool → Result Bool
blob_round true true clashes others = err
blob_round true false clashes others = ok true
blob_round false differs true others = err
blob_round false differs false others = others

-- The loop on the blobs of the package version: whether the blob is there already.
unfoldable pub find_blob : Format → LockedBlob → List LockedBlob → Result Bool
unfolding legacy_digest_conflict compare_sizes coordinate ◌==ᵇ◌
find_blob format blob [] = ok false
find_blob format blob (existing ∷ rest) =
    let others = find_blob format blob rest in
    blob_round (same_artifact existing blob)
      (not (compare_sizes existing.size blob.size)
        || legacy_digest_conflict existing blob
        || not (existing.architecture ==ᵇ blob.architecture))
      (existing.filename ==ᵇ blob.filename || coordinate format existing ==ᵇ coordinate format blob)
      others

abbrev pub with_blob : PackageVersion → LockedBlob → Bool → PackageVersion
with_blob v blob true = v
with_blob v blob false = record {
  package_name = v.package_name;
  version = v.version;
  state = v.state;
  blobs = v.blobs ++ blob ∷ [];
}

-- Bind the blob to the first package version of the name and version, or to a new one at the end.
unfoldable pub bind_blob :
    Format → LockedBlob → Bytes → Bytes → List PackageVersion → Result (List PackageVersion × Bool)
unfolding find_blob ◌==ᵇ◌
bind_blob format blob package_name version [] = ok (
  record {
    package_name = package_name;
    version = version;
    state = codes "draft";
    blobs = blob ∷ [];
  }
      ∷ [],
  false,
)
bind_blob format blob package_name version (v ∷ vs) =
    let rest = bind_blob format blob package_name version vs in
    if v.package_name ==ᵇ package_name && v.version ==ᵇ version
    then (find_blob format blob v.blobs >>= λ exists. ok (with_blob v blob exists ∷ vs, exists))
    else (rest >>= λ bound. ok (v ∷ bound.0, bound.1))

-- `if track == "" { track = "stable" }`
abbrev pub track_or_stable : Bytes → Bytes
track_or_stable [] = codes "stable"
track_or_stable (c ∷ s) = c ∷ s

abbrev pub placed_in : RepositoryLock → List PackageVersion → Placement → Bool → RepositoryLock
placed_in lock versions placement exists = record {
  schema_version = lock.schema_version;
  repository = lock.repository;
  package_version = versions;
  placement = if exists then lock.placement else lock.placement ++ placement ∷ [];
}

unfoldable pub add_blob :
    RepositoryLock
    → Bytes
    → Bytes
    → Bytes
    → LockedBlob
    → Bytes
    → Bytes
    → Result (RepositoryLock × Bool)
unfolding validate_placement_coordinates is_base_name bind_blob has_placement format_for
add_blob lock format track distro blob package_name version = do
  selected ← format_for format
  let stable_track = track_or_stable track
  validate_placement_coordinates format stable_track distro
  require (is_base_name blob.filename)
  bound ← bind_blob selected blob package_name version lock.package_version
  let placement : Placement = record {
    package_name = package_name;
    version = version;
    track = stable_track;
    distro = distro;
  }
  let placement_exists = has_placement placement lock.placement
  ok (placed_in lock bound.0 placement placement_exists, not bound.1 || not placement_exists)

same_origin : ArtifactOrigin → ArtifactOrigin → Bool
unfolding ◌==ᵇ◌
same_origin a b = a.kind ==ᵇ b.kind && a.url ==ᵇ b.url && a.provenance ==ᵇ b.provenance

with_origin : LockedBlob → ArtifactOrigin → LockedBlob
with_origin b origin = record {
  filename = b.filename;
  architecture = b.architecture;
  size = b.size;
  md5 = b.md5;
  sha1 = b.sha1;
  sha256 = b.sha256;
  added = b.added;
  origin = some origin;
}

-- What SetBlobOrigin does with the blob it finds: the blob after it, and whether it changed.
pub record_origin : ArtifactOrigin → LockedBlob → Result (LockedBlob × Bool)
unfolding same_origin with_origin
record_origin origin b = elim b.origin [
  | none ↦ ok (with_origin b origin, true)
  | some recorded ↦ if same_origin recorded origin then ok (b, false) else err
]

-- The inner loop: `none` when no blob has the name and the digest.
pub set_origin_in :
    Bytes → Bytes → ArtifactOrigin → List LockedBlob → Option (Result (List LockedBlob × Bool))
unfolding record_origin ◌==ᵇ◌
set_origin_in filename digest origin [] = none
set_origin_in filename digest origin (b ∷ bs) =
    let rest = set_origin_in filename digest origin bs in
    if b.filename ==ᵇ filename && b.sha256 ==ᵇ digest
    then some (record_origin origin b >>= λ r. ok (r.0 ∷ bs, r.1))
    else elim rest [ none ↦ none | some result ↦ some (result >>= λ r. ok (b ∷ r.0, r.1)) ]

with_blobs : PackageVersion → List LockedBlob → PackageVersion
with_blobs v bs = record {
  package_name = v.package_name;
  version = v.version;
  state = v.state;
  blobs = bs;
}

-- The outer loop.
pub set_origin :
    Bytes
    → Bytes
    → Bytes
    → Bytes
    → ArtifactOrigin
    → List PackageVersion
    → Result (List PackageVersion × Bool)
unfolding set_origin_in with_blobs ◌==ᵇ◌
set_origin package_name version filename digest origin [] = err
set_origin package_name version filename digest origin (v ∷ vs) =
    let rest = set_origin package_name version filename digest origin vs in
    let later = rest >>= λ r. ok (v ∷ r.0, r.1) in
    if v.package_name ==ᵇ package_name && v.version ==ᵇ version
    then elim (set_origin_in filename digest origin v.blobs) [
      | none ↦ later
      | some result ↦ result >>= λ r. ok (with_blobs v r.0 ∷ vs, r.1)
    ]
    else later

unfoldable pub set_blob_origin :
    RepositoryLock → Bytes → Bytes → Bytes → Bytes → ArtifactOrigin → Result (RepositoryLock × Bool)
unfolding set_origin
set_blob_origin lock package_name version filename digest origin = do
  updated ← set_origin package_name version filename digest origin lock.package_version
  let changed : RepositoryLock = record {
    schema_version = lock.schema_version;
    repository = lock.repository;
    package_version = updated.0;
    placement = lock.placement;
  }
  ok (changed, updated.1)
