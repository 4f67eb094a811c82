-- ===== src/State/Placements.antt =====
-- internal/state/store.go: PromotePlacement and YankPlacements, which offer a version on a track and
-- withdraw it. A `*RepositoryLock` is passed in and returned.
pub mod Keys
pub mod Laws
use snailmail.Base.{
  leb, ◌==◌, if◌then◌else◌, length, Bytes, ◌==ᵇ◌, is_digit, is_alpha, all, require, Result, ok,
  filter, count, ℕ, Bool, true, false, not, ◌&&◌, ◌||◌, List, [], ◌∷◌, ◌++◌, ◌>>=◌, ◌>>◌,
}
use snailmail.Formats.{format_for, supports_distros}
use snailmail.State.Model.{PackageVersion, Placement, RepositoryLock}
use snailmail.State.Canonical.{canonicalize_lock}

-- A byte of a placement coordinate behind the first one: `[A-Za-z0-9._+-]`.
unfoldable pub is_coordinate_byte : ℕ → Bool
unfolding is_digit is_alpha
is_coordinate_byte c = is_digit c || is_alpha c || c == 46 || c == 95 || c == 43 || c == 45

-- `placementCoordinatePattern`: `^[A-Za-z0-9][A-Za-z0-9._+-]{0,127}$`
unfoldable pub is_placement_coordinate : Bytes → Bool
unfolding is_digit is_alpha is_coordinate_byte all
is_placement_coordinate [] = false
is_placement_coordinate (c ∷ s) =
    (is_digit c || is_alpha c) && all is_coordinate_byte s && leb (length s) 127

unfoldable pub validate_placement_coordinates : Bytes → Bytes → Bytes → Result (Unit {0})
unfolding is_placement_coordinate format_for supports_distros ◌==ᵇ◌
validate_placement_coordinates format track distro = do
  require (is_placement_coordinate track)
  selected ← format_for format
  require (if supports_distros selected then is_placement_coordinate distro else distro ==ᵇ [])

-- `packageVersionExists`
pub package_version_exists : Bytes → Bytes → List PackageVersion → Bool
unfolding ◌==ᵇ◌
package_version_exists package_name version [] = false
package_version_exists package_name version (v ∷ vs) =
    v.package_name ==ᵇ package_name && v.version ==ᵇ version
    || package_version_exists package_name version vs

abbrev pub same_placement : Placement → Placement → Bool
same_placement p q =
    p.package_name ==ᵇ q.package_name
    && p.version ==ᵇ q.version
    && p.track ==ᵇ q.track
    && p.distro ==ᵇ q.distro

unfoldable pub has_placement : Placement → List Placement → Bool
unfolding ◌==ᵇ◌
has_placement p [] = false
has_placement p (q ∷ qs) = same_placement q p || has_placement p qs

abbrev pub with_placements : RepositoryLock → List Placement → RepositoryLock
with_placements lock placements = record {
  schema_version = lock.schema_version;
  repository = lock.repository;
  package_version = lock.package_version;
  placement = placements;
}

unfoldable pub promote_placement :
    RepositoryLock → Bytes → Placement → Result (RepositoryLock × Bool)
unfolding validate_placement_coordinates package_version_exists has_placement canonicalize_lock
promote_placement lock format p = do
  validate_placement_coordinates format p.track p.distro
  require (package_version_exists p.package_name p.version lock.package_version)
  if has_placement p lock.placement
      then ok (lock, false)
      else ok (canonicalize_lock (with_placements lock (lock.placement ++ p ∷ [])), true)

-- The test of the loop of `YankPlacements`.
abbrev pub yanked : Placement → Bool → Placement → Bool
yanked p everywhere q =
    q.package_name ==ᵇ p.package_name
    && q.version ==ᵇ p.version
    && (everywhere || q.track ==ᵇ p.track && q.distro ==ᵇ p.distro)

unfoldable pub yank_placements :
    RepositoryLock → Bytes → Placement → Bool → Result (RepositoryLock × ℕ)
unfolding validate_placement_coordinates package_version_exists ◌==ᵇ◌ canonicalize_lock
yank_placements lock format p everywhere = do
  require (package_version_exists p.package_name p.version lock.package_version)
  if everywhere
      then require (p.track ==ᵇ [] && p.distro ==ᵇ [])
      else validate_placement_coordinates format p.track p.distro
  let kept = filter (λ q. not (yanked p everywhere q)) lock.placement
  ok (canonicalize_lock (with_placements lock kept), count (yanked p everywhere) lock.placement)
