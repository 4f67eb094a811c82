-- ===== src/Tests/Locks.antt =====
-- A lock of two packages, its ledger, and the operations on them.
use snailmail.Base.{
  ◌==◌, length, Bytes, codes, ◌==ᵇ◌, compare_list, contains, all, pos, require, Result, ok,
  distinct, All, every, count, ascending, ℕ, zero, ◌*◌, compare, Ordering, ◌≡◌, refl, ◌↔◌, Bool,
  true, false, not, ◌&&◌, Option, none, some, List, [], ◌∷◌, ◌++◌, map, ◌>>=◌, ◌>>◌,
}
use snailmail.Formats.{raw, format_for}
use snailmail.Hexdigest.{valid_lower_hex, is_lower_hex, valid_lower_hex_lem}
use snailmail.State.Model.{
  LockedBlob, PackageVersion, Placement, RepositoryLock, ArtifactOrigin, PublicationRecord,
  lock_schema,
}
use snailmail.State.Lock.{validate_lock, blob_ok, placement_key}
use snailmail.State.Lock.Valid.{valid_entries, valid_version, validate_lock_lem}
use snailmail.State.Canonical.{canonicalize_lock}
use snailmail.State.Placements.{promote_placement, yank_placements, yanked}
use snailmail.State.Placements.Laws.{placed, promote_placement_lem, yank_placements_lem}
use snailmail.State.Prune.{prune_placements}
use snailmail.State.Prune.Withdrawn.{is_withdrawn, prune_placements_lem}
use snailmail.Version.Raw.Order.{IsPreorder-compare_natural}
use snailmail.State.Blobs.{bind_blob}
use snailmail.State.Blobs.Bound.{bind_blob-valid_version}
use snailmail.State.Ledger.{
  Publication, updated_publication_records, find_record, record_key, publication_record_key,
  validate_published_bindings,
}
use snailmail.State.Ledger.Retry.{updated_publication_records_retry}
use snailmail.State.Ledger.Append.{missing, Same, updated_publication_records_lem}
use snailmail.State.Ledger.Bindings.{record_kept, validate_published_bindings_lem}
use snailmail.Version.Raw
use snailmail.State.History.{
  valid_record, validate_publication_history, validate_publication_history_lem,
}
use snailmail.State.Canonical.Sorted.{
  by_fields, version_fields, has_sorted_blobs, placement_fields, blobs_of, canonicalize_lock_lem,
}
use snailmail.Engine.Rollout.{RolloutRequest, release_key, rollout_releases}
use snailmail.Engine.Rollout.Counted.{publications_of, is_counted, rollout_releases_lem}

-- A digest of 64 characters.
abbrev digest : Bytes
digest = codes "aaaaaaaaaaaaaaaaaaaaaaaaaaaaaaaaaaaaaaaaaaaaaaaaaaaaaaaaaaaaaaaa"

abbrev no_origin_ok : ArtifactOrigin → Bool
no_origin_ok _ = false

abbrev blob_named : Bytes → LockedBlob
blob_named name = record {
  filename = name;
  architecture = codes "all";
  size = pos 7;
  md5 = [];
  sha1 = [];
  sha256 = digest;
  added = [];
  origin = none;
}

abbrev package_at : Bytes → PackageVersion
package_at version = record {
  package_name = codes "tool";
  version = version;
  state = codes "draft";
  blobs = blob_named (codes "tool.bin") ∷ [];
}

abbrev stable : Bytes → Placement
stable version = record {
  package_name = codes "tool";
  version = version;
  track = codes "stable";
  distro = [];
}

abbrev lock : RepositoryLock
lock = record {
  schema_version = lock_schema;
  repository = codes "tools";
  package_version = package_at (codes "2") ∷ package_at (codes "1") ∷ [];
  placement = stable (codes "1") ∷ [];
}

lock_valid : valid_entries no_origin_ok raw lock ≡ true
unfolding valid_entries
lock_valid = refl

valid_lower_hex_lem_example :
    valid_lower_hex digest 32 ≡ (length digest == 2 * 32 && all is_lower_hex digest)
valid_lower_hex_lem_example = valid_lower_hex_lem digest 32

validate_lock_lem_example : validate_lock no_origin_ok lock (codes "tools") (codes "raw") ≡ (do
  require (lock.schema_version == lock_schema && lock.repository ==ᵇ codes "tools")
  selected ← format_for (codes "raw")
  require (valid_entries no_origin_ok selected lock))
validate_lock_lem_example = validate_lock_lem no_origin_ok lock (codes "tools") (codes "raw")

canonicalize_lock_lem_example :
    (ascending by_fields (map version_fields (canonicalize_lock lock).package_version) ≡ true)
    × (every has_sorted_blobs (canonicalize_lock lock).package_version ≡ true)
    × (ascending by_fields (map placement_fields (canonicalize_lock lock).placement) ≡ true)
    × ((key : Bytes) (test : LockedBlob → Bool)
        → blobs_of key test (canonicalize_lock lock).package_version
          ≡ blobs_of key test lock.package_version)
    × ((test : Placement → Bool)
        → count test (canonicalize_lock lock).placement ≡ count test lock.placement)
canonicalize_lock_lem_example = canonicalize_lock_lem lock

-- The result of an operation that succeeds on the lock.
abbrev result : Result (RepositoryLock × Bool) → RepositoryLock × Bool
result (ok out) = out
result _ = (lock, false)

abbrev promoted_lock : RepositoryLock
promoted_lock = (result (promote_placement lock (codes "raw") (stable (codes "2")))).0

promotes : promote_placement lock (codes "raw") (stable (codes "2")) ≡ ok (promoted_lock, true)
unfolding promote_placement
promotes = refl

promote_placement_lem_example :
    (valid_entries no_origin_ok raw promoted_lock ≡ true)
    × (placed (λ q. placement_key q ==ᵇ placement_key (stable (codes "2"))) promoted_lock ≡ 1)
unfolding contains
promote_placement_lem_example =
    promote_placement_lem no_origin_ok lock promoted_lock (codes "raw") raw (stable (codes "2"))
      true refl refl lock_valid promotes

abbrev counted : Result (RepositoryLock × ℕ) → RepositoryLock × ℕ
counted (ok out) = out
counted _ = (lock, zero)

-- Every placement of version 1.
abbrev everywhere : Placement
everywhere = record { package_name = codes "tool"; version = codes "1"; track = []; distro = [] }

abbrev yanked_lock : RepositoryLock
yanked_lock = (counted (yank_placements promoted_lock (codes "raw") everywhere true)).0

yanks : yank_placements promoted_lock (codes "raw") everywhere true ≡ ok (yanked_lock, 1)
unfolding yank_placements promote_placement compare_list count
yanks = refl

promoted_valid : valid_entries no_origin_ok raw promoted_lock ≡ true
unfolding valid_entries promote_placement compare_list
promoted_valid = refl

yank_placements_lem_example :
    (valid_entries no_origin_ok raw yanked_lock ≡ true)
    × (((test : Placement → Bool)
          → placed test yanked_lock
            ≡ placed (λ q. not (yanked everywhere true q) && test q) promoted_lock)
        × (1 ≡ placed (yanked everywhere true) promoted_lock))
yank_placements_lem_example =
    yank_placements_lem no_origin_ok promoted_lock yanked_lock (codes "raw") raw everywhere true 1
      promoted_valid yanks

-- No version of the tests is read as a semantic version.
abbrev no_semver : Bytes → Option ℕ
no_semver _ = none

abbrev compare_raw : Bytes → Bytes → Result Ordering
compare_raw = Raw.compare_versions no_semver compare

abbrev pruned_lock : RepositoryLock × ℕ
pruned_lock = counted (prune_placements compare_raw promoted_lock (pos 1))

prunes : prune_placements compare_raw promoted_lock (pos 1) ≡ ok pruned_lock
unfolding prune_placements promote_placement Raw.compare_versions
prunes = refl

prunes_older : pruned_lock.1 ≡ 1
unfolding prune_placements promote_placement Raw.compare_versions
prunes_older = refl

-- The comparator of raw repositories answers on all texts.
raw_answers : (a b : Bytes) → compare_raw a b ≡ ok (Raw.compare_natural a b)
unfolding Raw.compare_versions
raw_answers a b = refl

prune_placements_lem_example :
    (out : RepositoryLock × ℕ) × (prune_placements compare_raw promoted_lock (pos 1) ≡ ok out)
    × (valid_entries no_origin_ok raw out.0 ≡ true)
    × ((test : Placement → Bool)
        → placed test out.0
          ≡ count
              (λ x. not (is_withdrawn Raw.compare_natural 0 promoted_lock.placement x) && test x)
              promoted_lock.placement)
    × (out.1
        ≡ count
            (is_withdrawn Raw.compare_natural 0 promoted_lock.placement)
            promoted_lock.placement)
prune_placements_lem_example =
    prune_placements_lem compare_raw Raw.compare_natural 0 no_origin_ok raw promoted_lock
      raw_answers IsPreorder-compare_natural promoted_valid

abbrev manual : LockedBlob
manual = blob_named (codes "manual.pdf")

abbrev bound : List PackageVersion × Bool
bound = go (bind_blob raw manual (codes "tool") (codes "1") lock.package_version)
  where
    go : Result (List PackageVersion × Bool) → List PackageVersion × Bool
    go (ok out) = out
    go _ = ([], false)

binds : bind_blob raw manual (codes "tool") (codes "1") lock.package_version ≡ ok bound
unfolding bind_blob
binds = refl

bind_blob-valid_version_example : every (valid_version no_origin_ok raw) bound.0 ≡ true
unfolding every valid_version blob_ok ◌==ᵇ◌
bind_blob-valid_version_example =
    bind_blob-valid_version no_origin_ok raw manual (codes "tool") (codes "1") lock.package_version
      bound refl refl refl refl binds

abbrev publication : Publication
publication = record {
  repository = codes "tools";
  plan_id = codes "p1";
  change_id = codes "c1";
  tree_sha256 = digest;
  recorded_at = codes "2026-01-01T00:00:00Z";
}

abbrev ledger : List PublicationRecord
ledger = go (updated_publication_records [] publication lock)
  where
    go : Result (List PublicationRecord) → List PublicationRecord
    go (ok out) = out
    go _ = []

updated_publication_records_lem_example :
    updated_publication_records ledger publication lock ≡ ok ledger
    ↔ (ledger ≡ ledger ++ missing ledger publication lock.package_version)
      × All
          (λ v. Same publication v (find_record (record_key publication v) ledger))
          lock.package_version
updated_publication_records_lem_example =
    updated_publication_records_lem ledger publication lock ledger

first_apply : updated_publication_records [] publication lock ≡ ok ledger
unfolding updated_publication_records
first_apply = refl

updated_publication_records_retry_example :
    updated_publication_records ledger publication lock ≡ ok ledger
unfolding distinct record_key
updated_publication_records_retry_example =
    updated_publication_records_retry [] ledger publication lock refl first_apply

published : validate_published_bindings lock ledger ≡ ok tt
unfolding validate_published_bindings updated_publication_records
published = refl

validate_published_bindings_lem_example : every (record_kept lock) ledger ≡ true
validate_published_bindings_lem_example = validate_published_bindings_lem lock ledger published

-- A stand-in for `time.Parse`.
abbrev any_time : Bytes → Option ℕ
any_time _ = some 0

validate_publication_history_lem_example :
    validate_publication_history any_time (codes "tools") ledger
    ≡ require (
        every (λ r. valid_record any_time r (codes "tools")) ledger
        && distinct (map publication_record_key ledger))
validate_publication_history_lem_example =
    validate_publication_history_lem any_time (codes "tools") ledger

abbrev everything : RolloutRequest
everything = record { package_name = []; include_withdrawn = true }

rollout_releases_lem_example :
    (distinct (map release_key (rollout_releases (codes "tools") ledger [] everything)) ≡ true)
    × ((key : Bytes)
        → publications_of key (rollout_releases (codes "tools") ledger [] everything)
          ≡ count (is_counted everything.package_name key) ledger)
rollout_releases_lem_example = rollout_releases_lem (codes "tools") ledger [] everything refl
