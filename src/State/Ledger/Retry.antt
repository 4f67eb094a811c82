-- ===== src/State/Ledger/Retry.antt =====
-- The ledger after a retry of an apply.
use snailmail.Base.{
  if◌then◌else◌, Bool-cases, Bytes, ◌==ᵇ◌, ==ᵇ_refl, ==ᵇ_iff, ok, mem, distinct, All,
  equal_strings_refl, Option-cases, map-All, ◌≡◌, refl, sym, ap, ◌∙◌, subst, inl, inr, true, false,
  none, some, List, [], ◌∷◌, ◌++◌, map, append-nil, arith,
}
use snailmail.State.Model.{PackageVersion, RepositoryLock, PublicationRecord}
use snailmail.State.Ledger.{
  publication_record_equal, publication_record_key, find_record, Publication, record_key, candidate,
  updated_publication_records,
}
use snailmail.State.Ledger.Append.{missing, Same, updated_publication_records_lem}

-- The keys of package versions.
abbrev pub keys_of : Publication → List PackageVersion → List Bytes
keys_of p vs = map (record_key p) vs

find_record-append :
    (key : Bytes) (xs ys : List PublicationRecord)
    → find_record key ys ≡ none
    → find_record key (xs ++ ys) ≡ find_record key xs
unfolding find_record
find_record-append key [] ys h = h
find_record-append key (x ∷ xs) ys h = rw (find_record-append key xs ys h) refl

find_record-append_found :
    (key : Bytes) (xs ys : List PublicationRecord) (r : PublicationRecord)
    → find_record key ys ≡ some r
    → find_record key (xs ++ ys) ≡ some r
unfolding find_record
find_record-append_found key [] ys r h = h
find_record-append_found key (x ∷ xs) ys r h = rw (find_record-append_found key xs ys r h) refl

-- A record in front of others that do not have the key.
find_record-cons :
    (key : Bytes) (x : PublicationRecord) (xs : List PublicationRecord)
    → find_record key xs ≡ none
    → find_record key (x ∷ xs) ≡ (if publication_record_key x ==ᵇ key then some x else none)
unfolding find_record
find_record-cons key x xs h = rw h refl

find_record-cons_found :
    (key : Bytes) (x : PublicationRecord) (xs : List PublicationRecord) (r : PublicationRecord)
    → find_record key xs ≡ some r
    → find_record key (x ∷ xs) ≡ some r
unfolding find_record
find_record-cons_found key x xs r h = rw h refl

candidate_key :
    (p : Publication) (v : PackageVersion) → publication_record_key (candidate p v) ≡ record_key p v
unfolding publication_record_key candidate record_key
candidate_key p v = refl

publication_record_equal_refl : (r : PublicationRecord) → publication_record_equal r r ≡ true
unfolding publication_record_equal
publication_record_equal_refl r = ground (
  arith,
  ==ᵇ_refl r.plan_id,
  ==ᵇ_refl r.change_id,
  ==ᵇ_refl r.repository,
  ==ᵇ_refl r.package_name,
  ==ᵇ_refl r.version,
  ==ᵇ_refl r.tree_sha256,
  ==ᵇ_refl r.recorded_at,
  equal_strings_refl r.blob_sha256,
)

module _ (existing : List PublicationRecord) (p : Publication) where
  missing-absent :
      (v : PackageVersion) (vs : List PackageVersion)
      → find_record (record_key p v) existing ≡ none
      → missing existing p (v ∷ vs) ≡ candidate p v ∷ missing existing p vs
  unfolding missing
  missing-absent v vs absent = ground (arith, absent)

  missing-found :
      (v : PackageVersion) (vs : List PackageVersion) (r : PublicationRecord)
      → find_record (record_key p v) existing ≡ some r
      → missing existing p (v ∷ vs) ≡ missing existing p vs
  unfolding missing
  missing-found v vs r found = ground (arith, found)

  missing-nil : missing existing p [] ≡ []
  unfolding missing
  missing-nil = refl

  find_record-nil : (key : Bytes) → find_record key [] ≡ none
  unfolding find_record
  find_record-nil key = refl

  -- A key that no missing record has.
  find_record-missing :
      (key : Bytes) (vs : List PackageVersion)
      → All
          (λ v. (find_record (record_key p v) existing ≡ none) → (record_key p v ==ᵇ key) ≡ false)
          vs
      → find_record key (missing existing p vs) ≡ none
  find_record-missing key [] other = rw missing-nil (find_record-nil key)
  find_record-missing key (v ∷ vs) (first, rest) =
      elim (Option-cases (find_record (record_key p v) existing)) [
        | inl absent ↦ rw (missing-absent v vs absent) (
            find_record-cons key (candidate p v) _ (find_record-missing key vs rest)
            ∙ rw (candidate_key p v) (rw (first absent) refl))
        | inr (r, found) ↦ rw (missing-found v vs r found) (find_record-missing key vs rest)
      ]

  -- The keys of versions that are not the version's own.
  others :
      (v : PackageVersion) (vs : List PackageVersion)
      → mem (record_key p v) (keys_of p vs) ≡ false
      → All
          (λ w.
            (find_record (record_key p w) existing ≡ none)
            → (record_key p w ==ᵇ record_key p v) ≡ false)
          vs
  unfolding mem
  others v [] h = tt
  others v (w ∷ ws) h = ((λ _. ground arith), others v ws (ground arith))

  -- A key that the ledger has.
  held :
      (key : Bytes) (r : PublicationRecord) (vs : List PackageVersion)
      → find_record key existing ≡ some r
      → All
          (λ w. (find_record (record_key p w) existing ≡ none) → (record_key p w ==ᵇ key) ≡ false)
          vs
  held key r [] found = tt
  held key r (w ∷ ws) found = (differs, held key r ws found)
    where
      clash :
          find_record (record_key p w) existing ≡ find_record key existing
          → find_record (record_key p w) existing ≡ none
          → (record_key p w ==ᵇ key) ≡ false
      clash e absent = let bad : some r ≡ none = sym found ∙ sym e ∙ absent in cc

      differs : find_record (record_key p w) existing ≡ none → (record_key p w ==ᵇ key) ≡ false
      differs absent = elim (Bool-cases (record_key p w ==ᵇ key)) [
        | inl same ↦
            clash (ap (λ k. find_record k existing) ((==ᵇ_iff (record_key p w) key).0 same)) absent
        | inr other ↦ other
      ]

  -- The record of a version after an apply.
  abbrev Settled : List PublicationRecord → PackageVersion → Type 0
  Settled records v =
      (r : PublicationRecord) × (find_record (record_key p v) records ≡ some r)
      × (publication_record_equal r (candidate p v) ≡ true)

  New : List PackageVersion → PackageVersion → Type 0
  New vs v =
      find_record (record_key p v) existing ≡ none
      → find_record (record_key p v) (missing existing p vs) ≡ some (candidate p v)

  New-cons : (v w : PackageVersion) (vs : List PackageVersion) → New vs w → New (v ∷ vs) w
  unfolding New
  New-cons v w vs new absent = elim (Option-cases (find_record (record_key p v) existing)) [
    | inl gone ↦
        rw (missing-absent v vs gone)
          (find_record-cons_found (record_key p w) (candidate p v) _ (candidate p w) (new absent))
    | inr (r, found) ↦ rw (missing-found v vs r found) (new absent)
  ]

  -- With distinct keys, the record of a new version is its candidate.
  distinct-New : (vs : List PackageVersion) → distinct (keys_of p vs) ≡ true → All (New vs) vs
  unfolding New distinct
  distinct-New [] h = tt
  distinct-New (v ∷ vs) h = (
    (λ absent. rw (missing-absent v vs absent) (
        find_record-cons (record_key p v) (candidate p v) _
          (find_record-missing (record_key p v) vs (others v vs (ground arith)))
        ∙ rw (candidate_key p v) (rw (==ᵇ_refl (record_key p v)) refl))),
    map-All (New vs) (New (v ∷ vs)) vs (λ w. New-cons v w vs) (distinct-New vs (ground arith)),
  )

  Settled-one :
      (vs : List PackageVersion) (v : PackageVersion)
      → New vs v
      → Same p v (find_record (record_key p v) existing)
      → Settled (existing ++ missing existing p vs) v
  unfolding New Same
  Settled-one vs v new same = elim (Option-cases (find_record (record_key p v) existing)) [
    | inl absent ↦ (
      candidate p v,
      find_record-append_found (record_key p v) existing _ (candidate p v) (new absent),
      publication_record_equal_refl (candidate p v),
    )
    | inr (r, found) ↦ (
      r,
      find_record-append (record_key p v) existing _
            (find_record-missing (record_key p v) vs (held (record_key p v) r vs found))
          ∙ found,
      subst (Same p v) found same,
    )
  ]

  Settled-all :
      (vs us : List PackageVersion)
      → All (New vs) us
      → All (λ v. Same p v (find_record (record_key p v) existing)) us
      → All (Settled (existing ++ missing existing p vs)) us
  Settled-all vs [] new same = tt
  Settled-all vs (u ∷ us) (new, news) (same, sames) =
      (Settled-one vs u new same, Settled-all vs us news sames)

module _ (records : List PublicationRecord) (p : Publication) where
  Settled-missing :
      (vs : List PackageVersion) → All (Settled records p records) vs → missing records p vs ≡ []
  Settled-missing [] h = missing-nil records p
  Settled-missing (v ∷ vs) ((r, found, same), rest) =
      missing-found records p v vs r found ∙ Settled-missing vs rest

  Settled-Same :
      (vs : List PackageVersion)
      → All (Settled records p records) vs
      → All (λ v. Same p v (find_record (record_key p v) records)) vs
  unfolding Same
  Settled-Same [] h = tt
  Settled-Same (v ∷ vs) ((r, found, same), rest) =
      (subst (Same p v) (sym found) same, Settled-Same vs rest)

-- A retry of an apply that succeeded succeeds and leaves the ledger as it is, where no two package
-- versions of the lock have the same key in it.
pub updated_publication_records_retry :
    (existing records : List PublicationRecord) (p : Publication) (lock : RepositoryLock)
    → distinct (keys_of p lock.package_version) ≡ true
    → updated_publication_records existing p lock ≡ ok records
    → updated_publication_records records p lock ≡ ok records
updated_publication_records_retry existing records p lock keys h =
    let (appended, same) = (updated_publication_records_lem existing p lock records).0 h in
    let settled =
      Settled-all existing p lock.package_version lock.package_version
        (distinct-New existing p lock.package_version keys) same in
    let kept : All (Settled records p records) lock.package_version =
      subst (λ l. All (Settled existing p l) lock.package_version) (sym appended) settled in
    (updated_publication_records_lem records p lock records).1 (
      sym (
          ap (λ m. records ++ m) (Settled-missing records p lock.package_version kept)
          ∙ append-nil records),
      Settled-Same records p lock.package_version kept,
    )
