-- ===== src/Engine/Rollout.antt =====
-- engine/rollout.go, rolloutReleases: a repository's ledger folded into one entry per version. The map
-- from identities to positions is a search of the entries.
pub mod Counted
use snailmail.Base.{if◌then◌else◌, Bytes, ◌==ᵇ◌, mem, filter, ℕ, suc, Bool, ◌||◌, List, [], ◌∷◌}
use snailmail.State.Model.{PublicationRecord, ◌⊕◌}

pub record RolloutRelease : Type 0 where
  pub repository : Bytes
  pub package_name : Bytes
  pub version : Bytes
  pub published_at : Bytes
  pub publications : ℕ
  pub served : Bool
  pub tree_sha256 : Bytes
  pub artifacts : List Bytes

-- The fields of `RolloutWorkspaceRequest` that the fold reads.
pub record RolloutRequest : Type 0 where
  pub package_name : Bytes
  pub include_withdrawn : Bool

abbrev pub release_key : RolloutRelease → Bytes
release_key r = r.package_name ⊕ r.version

abbrev pub record_key : PublicationRecord → Bytes
record_key r = r.package_name ⊕ r.version

pub republished : PublicationRecord → RolloutRelease → RolloutRelease
republished record' release = record {
  repository = release.repository;
  package_name = release.package_name;
  version = release.version;
  published_at = release.published_at;
  publications = suc release.publications;
  served = release.served;
  tree_sha256 = record'.tree_sha256;
  artifacts = record'.blob_sha256;
}

pub first_release : Bytes → List Bytes → PublicationRecord → RolloutRelease
unfolding mem
first_release repository served record' = record {
  repository = repository;
  package_name = record'.package_name;
  version = record'.version;
  published_at = record'.recorded_at;
  publications = 1;
  served = mem (record_key record') served;
  tree_sha256 = record'.tree_sha256;
  artifacts = record'.blob_sha256;
}

-- One round of the loop: the entry of the record's version is updated, or there is a new one.
pub add_record : Bytes → List Bytes → PublicationRecord → List RolloutRelease → List RolloutRelease
unfolding republished first_release ◌==ᵇ◌
add_record repository served record' [] = first_release repository served record' ∷ []
add_record repository served record' (release ∷ releases) =
    let rest = add_record repository served record' releases in
    if release_key release ==ᵇ record_key record'
    then republished record' release ∷ releases
    else release ∷ rest

-- `request.Package != "" && request.Package != record.Package`
abbrev pub asked_for : Bytes → PublicationRecord → Bool
asked_for package_name record' = package_name ==ᵇ [] || package_name ==ᵇ record'.package_name

pub add_all :
    Bytes → List Bytes → Bytes → List PublicationRecord → List RolloutRelease → List RolloutRelease
unfolding add_record ◌==ᵇ◌
add_all repository served package_name [] releases = releases
add_all repository served package_name (r ∷ rs) releases =
    add_all repository served package_name rs
      (if asked_for package_name r then add_record repository served r releases else releases)

unfoldable pub rollout_releases :
    Bytes → List PublicationRecord → List Bytes → RolloutRequest → List RolloutRelease
unfolding add_all
rollout_releases repository records served request =
    let releases = add_all repository served request.package_name records [] in
    if request.include_withdrawn then releases else filter (λ release. release.served) releases
