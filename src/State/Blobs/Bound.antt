-- ===== src/State/Blobs/Bound.antt =====
-- What recording an artifact does to the package versions of a lock.
use snailmail.Base.{
  if◌then◌else◌, Bytes, codes, ◌==ᵇ◌, ◌>>=◌, >>=-eq-ok, ok_injective, Result, ok, err, out_of_fuel,
  mem, distinct, every, every-snoc, distinct-snoc, ◌≡◌, refl, subst, Bool, true, false, ◌&&◌, List,
  [], ◌∷◌, ◌++◌, map, arith,
}
use snailmail.Formats.{Format}
use snailmail.State.Model.{LockedBlob, PackageVersion, ArtifactOrigin}
use snailmail.State.Lock.{coordinate, blob_ok, version_ok, is_nil}
use snailmail.State.Lock.Valid.{valid_blobs, valid_version}
use snailmail.State.Blobs.{blob_round, same_artifact, find_blob, with_blob, bind_blob}

blob_round_lem :
    (same differs clashes : Bool) (others : Result Bool)
    → blob_round same differs clashes others ≡ ok false
    → (clashes ≡ false) × (others ≡ ok false)
blob_round_lem true true clashes others h = cc
blob_round_lem true false clashes others h = cc
blob_round_lem false differs true others h = cc
blob_round_lem false differs false others h = (refl, h)

-- A blob that the loop accepts as new has another filename and another coordinate than every blob
-- of the package version, so that the coordinates stay distinct.
find_blob-distinct :
    (format : Format) (blob : LockedBlob) (bs : List LockedBlob)
    → find_blob format blob bs ≡ ok false
    → mem (coordinate format blob) (map (coordinate format) bs) ≡ false
unfolding find_blob mem
find_blob-distinct format blob [] h = refl
find_blob-distinct format blob (b ∷ bs) h =
    let (clear, rest) = blob_round_lem (same_artifact b blob) _ _ _ h in
    ground (arith, clear, find_blob-distinct format blob bs rest)

is_nil-snoc : (bs : List LockedBlob) (b : LockedBlob) → is_nil (bs ++ b ∷ []) ≡ false
is_nil-snoc [] b = refl
is_nil-snoc (_ ∷ _) b = refl

module _ (valid_origin : ArtifactOrigin → Bool) (format : Format) where
  valid_version-snoc :
      (blob : LockedBlob) (v : PackageVersion)
      → valid_version valid_origin format v ≡ true
      → blob_ok valid_origin blob ≡ true
      → find_blob format blob v.blobs ≡ ok false
      → valid_version valid_origin format (with_blob v blob false) ≡ true
  unfolding valid_version valid_blobs version_ok
  valid_version-snoc blob v valid good found = ground (
    arith,
    every-snoc (blob_ok valid_origin) v.blobs blob,
    distinct-snoc (coordinate format) v.blobs blob,
    find_blob-distinct format blob v.blobs found,
    is_nil-snoc v.blobs blob,
  )

  new_version_valid :
      (blob : LockedBlob) (package_name version : Bytes)
      → (package_name ==ᵇ []) ≡ false
      → (version ==ᵇ []) ≡ false
      → blob_ok valid_origin blob ≡ true
      → valid_version valid_origin format record {
        package_name = package_name;
        version = version;
        state = codes "draft";
        blobs = blob ∷ [];
      }
        ≡ true
  unfolding valid_version valid_blobs version_ok every distinct mem ◌==ᵇ◌
  new_version_valid blob package_name version name some_version good = ground arith

  -- Recording an artifact keeps every package version of the lock valid, when the artifact's blob
  -- passes the checks of a locked blob and its package name and version are not empty; in
  -- particular no two blobs of one package version have one coordinate.
  pub bind_blob-valid_version :
      (blob : LockedBlob) (package_name version : Bytes) (vs : List PackageVersion)
      (out : List PackageVersion × Bool)
      → (package_name ==ᵇ []) ≡ false
      → (version ==ᵇ []) ≡ false
      → blob_ok valid_origin blob ≡ true
      → every (valid_version valid_origin format) vs ≡ true
      → bind_blob format blob package_name version vs ≡ ok out
      → every (valid_version valid_origin format) out.0 ≡ true
  unfolding bind_blob every
  bind_blob-valid_version blob package_name version [] out name some_version good valid h =
      subst (λ o. every (valid_version valid_origin format) o.0 ≡ true) (ok_injective h)
        (ground (arith, new_version_valid blob package_name version name some_version good))
  bind_blob-valid_version blob package_name version (v ∷ vs) out name some_version good valid h =
      go (v.package_name ==ᵇ package_name && v.version ==ᵇ version) h
        (λ rest. bind_blob-valid_version blob package_name version vs rest name some_version good)
    where
      ValidOut : List PackageVersion × Bool → Type 0
      ValidOut o = every (valid_version valid_origin format) o.0 ≡ true

      found_here :
          (found : Result Bool)
          → find_blob format blob v.blobs ≡ found
          → (found >>= λ exists. ok (with_blob v blob exists ∷ vs, exists)) ≡ ok out
          → ValidOut out
      found_here (ok true) f e = subst ValidOut (ok_injective e) valid
      found_here (ok false) f e =
          subst ValidOut (ok_injective e) (ground (arith, valid_version-snoc blob v))
      found_here err f e = cc
      found_here out_of_fuel f e = cc

      go :
          (here : Bool)
          → (if here
              then (find_blob format blob v.blobs >>= λ exists.
                  ok (with_blob v blob exists ∷ vs, exists))
              else (bind_blob format blob package_name version vs >>= λ bound.
                  ok (v ∷ bound.0, bound.1)))
            ≡ ok out
          → ((rest : List PackageVersion × Bool)
              → every (valid_version valid_origin format) vs ≡ true
              → bind_blob format blob package_name version vs ≡ ok rest
              → ValidOut rest)
          → ValidOut out
      go true e later = found_here (find_blob format blob v.blobs) refl e
      go false e later =
          let (rest, bound, e') =
            >>=-eq-ok (bind_blob format blob package_name version vs)
              (λ bound. ok (v ∷ bound.0, bound.1)) {b = out} e in
          subst ValidOut (ok_injective e') (ground (arith, later rest))
