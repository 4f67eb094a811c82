-- ===== src/Engine/Rollout/Counted.antt =====
-- What the entries of a rollout count.
use snailmail.Base.{
  if◌then◌else◌, Bytes, ◌==ᵇ◌, ==ᵇ_iff, mem, distinct, ==ᵇ_swap, count, ℕ, zero, suc, ◌+◌, ◌≡◌,
  refl, ◌∙◌, Bool, true, ◌&&◌, ◌||◌, List, [], ◌∷◌, map, arith,
}
use snailmail.State.Model.{PublicationRecord}
use snailmail.Engine.Rollout.{
  RolloutRelease, RolloutRequest, release_key, record_key, republished, first_release, add_record,
  asked_for, add_all, rollout_releases,
}

-- The publications that the entries of a version count.
unfoldable pub publications_of : Bytes → List RolloutRelease → ℕ
unfolding ◌==ᵇ◌
publications_of key [] = zero
publications_of key (release ∷ releases) =
    let rest = publications_of key releases in
    if release_key release ==ᵇ key then release.publications + rest else rest

publications_of-add_record :
    (repository : Bytes) (served : List Bytes) (r : PublicationRecord)
    (releases : List RolloutRelease) (key : Bytes)
    → publications_of key (add_record repository served r releases) ≡ (
        if record_key r ==ᵇ key
        then suc (publications_of key releases)
        else publications_of key releases)
unfolding publications_of add_record republished first_release
publications_of-add_record repository served r [] key = ground arith
publications_of-add_record repository served r (release ∷ releases) key = ground (
  arith,
  publications_of-add_record repository served r releases key,
  ==ᵇ_iff (release_key release) (record_key r),
)

-- The records that the rollout counts under a version.
abbrev pub is_counted : Bytes → Bytes → PublicationRecord → Bool
is_counted package_name key r = asked_for package_name r && record_key r ==ᵇ key

publications_of-add_all :
    (repository : Bytes) (served : List Bytes) (package_name : Bytes) (rs : List PublicationRecord)
    (releases : List RolloutRelease) (key : Bytes)
    → publications_of key (add_all repository served package_name rs releases)
      ≡ publications_of key releases + count (is_counted package_name key) rs
unfolding add_all count
publications_of-add_all repository served package_name [] releases key = omega arith
publications_of-add_all repository served package_name (r ∷ rs) releases key = ground (
  arith,
  publications_of-add_all repository served package_name rs
      (if asked_for package_name r then add_record repository served r releases else releases) key,
  publications_of-add_record repository served r releases key,
)

mem-add_record :
    (repository : Bytes) (served : List Bytes) (r : PublicationRecord)
    (releases : List RolloutRelease) (key : Bytes)
    → mem key (map release_key (add_record repository served r releases))
      ≡ (mem key (map release_key releases) || record_key r ==ᵇ key)
unfolding add_record mem republished first_release
mem-add_record repository served r [] key = ground arith
mem-add_record repository served r (release ∷ releases) key = ground (
  arith,
  mem-add_record repository served r releases key,
  ==ᵇ_iff (release_key release) (record_key r),
)

distinct-add_record :
    (repository : Bytes) (served : List Bytes) (r : PublicationRecord)
    (releases : List RolloutRelease)
    → distinct (map release_key releases) ≡ true
    → distinct (map release_key (add_record repository served r releases)) ≡ true
unfolding add_record distinct republished first_release mem
distinct-add_record repository served r [] h = refl
distinct-add_record repository served r (release ∷ releases) h = ground (
  arith,
  distinct-add_record repository served r releases,
  mem-add_record repository served r releases (release_key release),
  ==ᵇ_swap (release_key release) (record_key r),
)

distinct-add_all :
    (repository : Bytes) (served : List Bytes) (package_name : Bytes) (rs : List PublicationRecord)
    (releases : List RolloutRelease)
    → distinct (map release_key releases) ≡ true
    → distinct (map release_key (add_all repository served package_name rs releases)) ≡ true
unfolding add_all
distinct-add_all repository served package_name [] releases h = h
distinct-add_all repository served package_name (r ∷ rs) releases h =
    distinct-add_all repository served package_name rs
      (if asked_for package_name r then add_record repository served r releases else releases)
      (ground (arith, distinct-add_record repository served r releases))

-- A rollout that includes withdrawn versions has at most one entry for each version, and the entry
-- of a version counts just the publications that the ledger records of that version, where the
-- request asks for its package.
pub rollout_releases_lem :
    (repository : Bytes) (records : List PublicationRecord) (served : List Bytes)
    (request : RolloutRequest)
    → request.include_withdrawn ≡ true
    → (distinct (map release_key (rollout_releases repository records served request)) ≡ true)
      × ((key : Bytes)
          → publications_of key (rollout_releases repository records served request)
            ≡ count (is_counted request.package_name key) records)
unfolding rollout_releases publications_of distinct
rollout_releases_lem repository records served request withdrawn =
    let package_name = request.package_name in
    (
      rw withdrawn (distinct-add_all repository served package_name records [] refl),
      λ key.
          rw withdrawn
            (publications_of-add_all repository served package_name records [] key ∙ omega arith),
    )
