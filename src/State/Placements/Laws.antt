-- ===== src/State/Placements/Laws.antt =====
-- What promotion and withdrawal do to a lock.
use snailmail.Base.{
  if◌then◌else◌, Bytes, ◌==ᵇ◌, ==ᵇ_iff, ◌>>=◌, require, >>=-eq-ok, require-eq-ok, ok_injective,
  Result, ok, err, out_of_fuel, mem, filter, count, mem-sort_by, every-filter, distinct-filter,
  every-snoc, mem-snoc, distinct-snoc, count-sort_by, count-filter, count-once, ℕ, ◌≡◌, sym, ap,
  ◌∙◌, subst, Bool, true, false, not, ◌&&◌, List, [], ◌∷◌, ◌++◌, map, arith,
}
use snailmail.Formats.{Format, format_for, supports_distros}
use snailmail.State.Model.{PackageVersion, Placement, RepositoryLock, ArtifactOrigin, ◌⊕◌, identity}
use snailmail.State.Canonical.{canonicalize_lock, compare_placements}
use snailmail.State.Lock.{placement_key}
use snailmail.State.Lock.Valid.{valid_placement, valid_entries}
use snailmail.State.Lock.Keep.{valid_entries-canonicalize_lock}
use snailmail.State.Placements.Keys.{
  plain, nuls, nuls-plain, Plain, has_placement-mem, nuls-coordinate, package_version_exists-mem,
}
use snailmail.State.Placements.{
  is_placement_coordinate, validate_placement_coordinates, package_version_exists, has_placement,
  with_placements, promote_placement, yanked, yank_placements,
}

coordinates_lem :
    (format track distro : Bytes)
    → validate_placement_coordinates format track distro ≡ ok tt
    → (is_placement_coordinate track ≡ true) × (nuls distro ≡ 0)
unfolding validate_placement_coordinates nuls
coordinates_lem format track distro h =
    let (_, track_ok, rest) = >>=-eq-ok (require (is_placement_coordinate track)) _ h in
    (require-eq-ok (is_placement_coordinate track) track_ok, go (format_for format) rest)
  where
    go :
        (f : Result Format)
        → (f >>= λ selected.
            require
              (if supports_distros selected then is_placement_coordinate distro else distro ==ᵇ []))
          ≡ ok tt
        → nuls distro ≡ 0
    go (ok selected) e = ground (arith, nuls-coordinate distro, ==ᵇ_iff distro [])
    go err e = cc
    go out_of_fuel e = cc

module _ (valid_origin : ArtifactOrigin → Bool) (format : Format) where
  valid_entries-snoc :
      (lock : RepositoryLock) (p : Placement)
      → valid_entries valid_origin format lock ≡ true
      → valid_placement (map identity lock.package_version) p ≡ true
      → mem (placement_key p) (map placement_key lock.placement) ≡ false
      → valid_entries valid_origin format (with_placements lock (lock.placement ++ p ∷ [])) ≡ true
  unfolding valid_entries
  valid_entries-snoc lock p valid here new = ground (
    arith,
    every-snoc (valid_placement (map identity lock.package_version)) lock.placement p,
    distinct-snoc placement_key lock.placement p,
  )

  pub valid_entries-filter :
      (lock : RepositoryLock) (kept : Placement → Bool)
      → valid_entries valid_origin format lock ≡ true
      → valid_entries valid_origin format (with_placements lock (filter kept lock.placement)) ≡ true
  unfolding valid_entries
  valid_entries-filter lock kept valid = ground (
    arith,
    every-filter (valid_placement (map identity lock.package_version)) kept lock.placement,
    distinct-filter placement_key kept lock.placement,
  )

-- The placements of a lock that satisfy a test.
unfoldable pub placed : (Placement → Bool) → RepositoryLock → ℕ
unfolding count
placed test lock = count test lock.placement

pub placed-canonicalize_lock :
    (test : Placement → Bool) (lock : RepositoryLock)
    → placed test (canonicalize_lock lock) ≡ placed test lock
unfolding placed canonicalize_lock
placed-canonicalize_lock test lock = count-sort_by test compare_placements lock.placement

-- Valid entries name the placement of a key once.
placed-once :
    (valid_origin : ArtifactOrigin → Bool) (format : Format) (lock : RepositoryLock) (key : Bytes)
    → valid_entries valid_origin format lock ≡ true
    → mem key (map placement_key lock.placement) ≡ true
    → placed (λ q. placement_key q ==ᵇ key) lock ≡ 1
unfolding placed valid_entries
placed-once valid_origin format lock key valid here =
    count-once placement_key key lock.placement (ground arith) here

-- The lock that a promotion of a new placement writes.
abbrev promoted : RepositoryLock → Placement → RepositoryLock
promoted lock p = canonicalize_lock (with_placements lock (lock.placement ++ p ∷ []))

mem-promoted :
    (lock : RepositoryLock) (p : Placement)
    → mem (placement_key p) (map placement_key (promoted lock p).placement) ≡ true
unfolding canonicalize_lock
mem-promoted lock p =
    mem-sort_by compare_placements placement_key (placement_key p) (lock.placement ++ p ∷ [])
    ∙ ground (
      arith,
      mem-snoc placement_key (placement_key p) lock.placement p,
      ==ᵇ_iff (placement_key p) (placement_key p),
    )

-- What a promotion establishes.
Promoted : (ArtifactOrigin → Bool) → Format → Placement → RepositoryLock → Type 0
unfolding placed
Promoted valid_origin format p lock =
    (valid_entries valid_origin format lock ≡ true)
    × (placed (λ q. placement_key q ==ᵇ placement_key p) lock ≡ 1)

promoted-Promoted :
    (valid_origin : ArtifactOrigin → Bool) (format : Format) (lock : RepositoryLock) (p : Placement)
    → valid_entries valid_origin format lock ≡ true
    → valid_placement (map identity lock.package_version) p ≡ true
    → mem (placement_key p) (map placement_key lock.placement) ≡ false
    → Promoted valid_origin format p (promoted lock p)
unfolding Promoted
promoted-Promoted valid_origin format lock p valid here new =
    let entries =
      valid_entries-canonicalize_lock valid_origin format
        (with_placements lock (lock.placement ++ p ∷ []))
      ∙ valid_entries-snoc valid_origin format lock p valid here new in
    (
      entries,
      placed-once valid_origin format (promoted lock p) (placement_key p) entries
          (mem-promoted lock p),
    )

valid_placement_lem :
    (p : Placement) (vs : List PackageVersion)
    → is_placement_coordinate p.track ≡ true
    → package_version_exists p.package_name p.version vs ≡ true
    → valid_placement (map identity vs) p ≡ true
unfolding valid_placement is_placement_coordinate
valid_placement_lem p vs track_ok exists = go p.track track_ok
  where
    go :
        (track : Bytes)
        → is_placement_coordinate track ≡ true
        → (mem (p.package_name ⊕ p.version) (map identity vs) && not (track ==ᵇ [])) ≡ true
    go [] e = cc
    go (c ∷ s) e = ground (arith, package_version_exists-mem p.package_name p.version vs)

-- A promotion that succeeds leaves the entries of the lock valid, and the placement is in the lock
-- exactly once, when the package name and the version have no NUL byte.
pub promote_placement_lem :
    (valid_origin : ArtifactOrigin → Bool) (lock lock' : RepositoryLock) (format : Bytes)
    (selected : Format) (p : Placement) (changed : Bool)
    → plain p.package_name ≡ true
    → plain p.version ≡ true
    → valid_entries valid_origin selected lock ≡ true
    → promote_placement lock format p ≡ ok (lock', changed)
    → (valid_entries valid_origin selected lock' ≡ true)
      × (placed (λ q. placement_key q ==ᵇ placement_key p) lock' ≡ 1)
unfolding promote_placement Promoted Plain
promote_placement_lem valid_origin lock lock' format selected p changed name_plain version_plain
      valid h =
    let (_, coordinates, h1) =
      >>=-eq-ok (validate_placement_coordinates format p.track p.distro) _ h in
    let (_, found, h2) =
      >>=-eq-ok (require (package_version_exists p.package_name p.version lock.package_version)) _
        h1 in
    let (track_ok, distro_plain) = coordinates_lem format p.track p.distro coordinates in
    let exists =
      require-eq-ok (package_version_exists p.package_name p.version lock.package_version) found in
    let keys = has_placement-mem p lock.placement (
      nuls-plain p.package_name name_plain,
      (nuls-plain p.version version_plain, (nuls-coordinate p.track track_ok, distro_plain)),
    ) in
    go (has_placement p lock.placement) (sym keys)
      (valid_placement_lem p lock.package_version track_ok exists) h2
  where
    go :
        (here : Bool)
        → mem (placement_key p) (map placement_key lock.placement) ≡ here
        → valid_placement (map identity lock.package_version) p ≡ true
        → if◌then◌else◌ {A = Result (RepositoryLock × Bool)} here
            (ok (lock, false))
            (ok (promoted lock p, true))
          ≡ ok (lock', changed)
        → Promoted valid_origin selected p lock'
    go true m good e =
        subst (Promoted valid_origin selected p) (ap (λ r. r.0) (ok_injective e))
          (valid, placed-once valid_origin selected lock (placement_key p) valid m)
    go false m good e =
        subst (Promoted valid_origin selected p) (ap (λ r. r.0) (ok_injective e))
          (promoted-Promoted valid_origin selected lock p valid good m)

-- A withdrawal that succeeds leaves the entries of the lock valid; of each kind of placement, however
-- described, the lock keeps just those that the withdrawal does not name, and the number returned is
-- that of the placements it does name.
pub yank_placements_lem :
    (valid_origin : ArtifactOrigin → Bool) (lock lock' : RepositoryLock) (format : Bytes)
    (selected : Format) (p : Placement) (everywhere : Bool) (removed : ℕ)
    → valid_entries valid_origin selected lock ≡ true
    → yank_placements lock format p everywhere ≡ ok (lock', removed)
    → (valid_entries valid_origin selected lock' ≡ true)
      × (((test : Placement → Bool)
            → placed test lock' ≡ placed (λ q. not (yanked p everywhere q) && test q) lock)
          × (removed ≡ placed (yanked p everywhere) lock))
unfolding yank_placements placed
yank_placements_lem valid_origin lock lock' format selected p everywhere removed valid h =
    let (_, _, h1) =
      >>=-eq-ok (require (package_version_exists p.package_name p.version lock.package_version)) _
        h in
    let (_, _, h2) =
      >>=-eq-ok
        (if everywhere
          then require (p.track ==ᵇ [] && p.distro ==ᵇ [])
          else validate_placement_coordinates format p.track p.distro)
        _ h1 in
    let e = ok_injective h2 in
    let kept = with_placements lock (filter (λ q. not (yanked p everywhere q)) lock.placement) in
    subst
      (λ l.
        (valid_entries valid_origin selected l ≡ true)
        × (((test : Placement → Bool)
              → placed test l ≡ placed (λ q. not (yanked p everywhere q) && test q) lock)
            × (removed ≡ placed (yanked p everywhere) lock)))
      (ap (λ r. r.0) e)
      (
        valid_entries-canonicalize_lock valid_origin selected kept
            ∙ valid_entries-filter valid_origin selected lock (λ q. not (yanked p everywhere q))
                valid,
        (
          λ test.
              placed-canonicalize_lock test kept
              ∙ count-filter test (λ q. not (yanked p everywhere q)) lock.placement,
          sym (ap (λ r. r.1) e),
        ),
      )
