-- ===== src/State/Lock.antt =====
-- internal/state/store.go: the desired state of a repository, its lock: what it may hold, and the
-- operations that change it. The check of a recorded origin is a parameter.
pub mod Valid
pub mod Keep
use snailmail.Base.{
  ltb, leb, ◌==◌, if◌then◌else◌, Bytes, codes, ◌==ᵇ◌, trim_right_cons, trim_right, cut_last, ℤ, pos,
  negsuc, require, Result, ok, err, mem, Bool, true, false, not, ◌&&◌, ◌||◌, Option, none, some,
  List, [], ◌∷◌, ◌>>=◌, ◌>>◌,
}
use snailmail.Formats.{Format, format_for, supports_distros, artifact_coordinate}
use snailmail.Hexdigest.{valid_sha256}
use snailmail.State.Model.{
  LockedBlob, PackageVersion, Placement, RepositoryLock, ArtifactOrigin, lock_schema, ◌⊕◌, identity,
}

-- `filepath.Base` on a system whose separator is `/`.
unfoldable pub base_name : Bytes → Bytes
unfolding trim_right trim_right_cons cut_last
base_name [] = codes "."
base_name (c ∷ s) = after_last (trim_right (λ b. b == 47) (c ∷ s))
  where
    after_last : Bytes → Bytes
    after_last [] = codes "/"
    after_last (d ∷ t) = elim (cut_last 47 (d ∷ t)) [ none ↦ d ∷ t | some (_, name) ↦ name ]

-- `strings.IndexFunc(s, unicode.IsControl) >= 0` on UTF-8 text: the control characters are
-- U+0000 to U+001F, U+007F, and U+0080 to U+009F, which are 194 128 to 194 159 in UTF-8.
unfoldable pub has_control : Bytes → Bool
has_control [] = false
has_control (c ∷ []) = ltb c 32 || c == 127
has_control (c ∷ d ∷ s) =
    ltb c 32 || c == 127 || (c == 194 && leb 128 d && leb d 159) || has_control (d ∷ s)

abbrev pub is_negative : ℤ → Bool
is_negative (pos _) = false
is_negative (negsuc _) = true

-- The checks of `AddBlob` and `ValidateLock` that a filename is one name.
unfoldable pub is_base_name : Bytes → Bool
unfolding base_name ◌==ᵇ◌
is_base_name filename = not (filename ==ᵇ []) && base_name filename ==ᵇ filename

unfoldable pub coordinate : Format → LockedBlob → Bytes
unfolding artifact_coordinate
coordinate format blob = artifact_coordinate format blob.filename blob.architecture

abbrev pub is_nil : List LockedBlob → Bool
is_nil [] = true
is_nil (_ ∷ _) = false

unfoldable pub placement_key : Placement → Bytes
placement_key p = p.package_name ⊕ p.version ⊕ p.track ⊕ p.distro

module _ (valid_origin : ArtifactOrigin → Bool) where
  abbrev pub origin_ok : Option ArtifactOrigin → Bool
  origin_ok none = true
  origin_ok (some origin) = valid_origin origin

  unfoldable pub blob_ok : LockedBlob → Bool
  unfolding is_base_name has_control valid_sha256
  blob_ok blob =
      is_base_name blob.filename
      && not (has_control blob.filename)
      && not (is_negative blob.size)
      && valid_sha256 blob.sha256
      && origin_ok blob.origin

  -- The innermost loop of `ValidateLock`, with the coordinates seen.
  unfoldable pub check_blobs : Format → List Bytes → List LockedBlob → Result (Unit {0})
  unfolding blob_ok coordinate mem
  check_blobs format seen [] = ok tt
  check_blobs format seen (b ∷ bs) =
      let rest = check_blobs format (coordinate format b ∷ seen) bs in
      if not (blob_ok b) then err else if mem (coordinate format b) seen then err else rest

  unfoldable pub version_ok : PackageVersion → Bool
  unfolding ◌==ᵇ◌
  version_ok v =
      not (v.package_name ==ᵇ [])
      && not (v.version ==ᵇ [])
      && v.state ==ᵇ codes "draft"
      && not (is_nil v.blobs)

  -- The loop on package versions; it returns the identities seen.
  unfoldable pub check_versions : Format → List Bytes → List PackageVersion → Result (List Bytes)
  unfolding version_ok check_blobs mem
  check_versions format seen [] = ok seen
  check_versions format seen (v ∷ vs) = do
    require (version_ok v)
    require (not (mem (identity v) seen))
    check_blobs format [] v.blobs
    check_versions format (identity v ∷ seen) vs

unfoldable pub check_placements : List Bytes → List Bytes → List Placement → Result (Unit {0})
unfolding placement_key mem ◌==ᵇ◌
check_placements versions seen [] = ok tt
check_placements versions seen (p ∷ ps) = do
  require (mem (p.package_name ⊕ p.version) versions && not (p.track ==ᵇ []))
  require (not (mem (placement_key p) seen))
  check_placements versions (placement_key p ∷ seen) ps

module _ (valid_origin : ArtifactOrigin → Bool) where
  unfoldable pub validate_lock : RepositoryLock → Bytes → Bytes → Result (Unit {0})
  unfolding check_versions check_placements format_for ◌==ᵇ◌
  validate_lock lock expected format = do
    require (lock.schema_version == lock_schema && lock.repository ==ᵇ expected)
    selected ← format_for format
    versions ← check_versions valid_origin selected [] lock.package_version
    check_placements versions [] lock.placement
