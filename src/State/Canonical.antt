-- ===== src/State/Canonical.antt =====
-- internal/state/store.go, canonicalizeLock: the order of a written lock.
pub mod Sorted
use snailmail.Base.{◌then_by◌, compare_bytes, sort_by, Ordering, map}
use snailmail.State.Model.{LockedBlob, PackageVersion, Placement, RepositoryLock}

pub compare_blobs : LockedBlob → LockedBlob → Ordering
compare_blobs left right =
    compare_bytes left.architecture right.architecture
    then_by compare_bytes left.filename right.filename
    then_by compare_bytes left.sha256 right.sha256

pub compare_package_versions : PackageVersion → PackageVersion → Ordering
compare_package_versions left right =
    compare_bytes left.package_name right.package_name
    then_by compare_bytes left.version right.version

pub compare_placements : Placement → Placement → Ordering
compare_placements left right =
    compare_bytes left.package_name right.package_name
    then_by compare_bytes left.version right.version
    then_by compare_bytes left.track right.track
    then_by compare_bytes left.distro right.distro

abbrev pub sorted_blobs : PackageVersion → PackageVersion
sorted_blobs v = record {
  package_name = v.package_name;
  version = v.version;
  state = v.state;
  blobs = sort_by compare_blobs v.blobs;
}

unfoldable pub canonicalize_lock : RepositoryLock → RepositoryLock
unfolding sort_by compare_blobs compare_package_versions compare_placements
canonicalize_lock lock = record {
  schema_version = lock.schema_version;
  repository = lock.repository;
  package_version = sort_by compare_package_versions (map sorted_blobs lock.package_version);
  placement = sort_by compare_placements lock.placement;
}
