-- ===== src/State/Ledger/Bindings.antt =====
-- What a lock that passes against the ledger has of the published versions.
use snailmail.Base.{
  Bool-cases, Bytes, ◌==ᵇ◌, ==ᵇ_iff, compare_bytes, all, >>=-eq-ok, ok, All, insert_by, sort_by,
  sort_strings, equal_strings, equal_strings_lem, equal_strings_refl, every, ◌≡◌, refl, sym, subst,
  inl, inr, Bool, true, false, not, ◌&&◌, ◌||◌, List, [], ◌∷◌, arith,
}
use snailmail.State.Model.{PackageVersion, RepositoryLock, PublicationRecord, ◌⊕◌, identity}
use snailmail.State.Ledger.{
  blob_digests, Bindings, published, is_nil, bind_records, check_lock, has_version, check_bound,
  validate_published_bindings,
}

-- The bindings have the key.
bound : Bytes → Bindings → Bool
unfolding ◌==ᵇ◌
bound key [] = false
bound key ((k, _) ∷ rest) = k ==ᵇ key || bound key rest

abbrev pub key_of : PublicationRecord → Bytes
key_of r = r.package_name ⊕ r.version

is_nil-insert_by : (x : Bytes) (xs : List Bytes) → is_nil (insert_by compare_bytes x xs) ≡ false
unfolding insert_by
is_nil-insert_by x [] = refl
is_nil-insert_by x (y ∷ ys) = ground arith

is_nil-sort_strings : (xs : List Bytes) → is_nil xs ≡ false → is_nil (sort_strings xs) ≡ false
unfolding sort_by
is_nil-sort_strings [] h = cc
is_nil-sort_strings (x ∷ xs) h = is_nil-insert_by x (sort_strings xs)

bind_records-bound :
    (rs : List PublicationRecord) (bindings : Bindings) {out : Bindings} (key : Bytes)
    → bind_records rs bindings ≡ ok out
    → bound key bindings ≡ true
    → bound key out ≡ true
unfolding bind_records bound
bind_records-bound [] bindings {out} key h b = ground arith
bind_records-bound (r ∷ rs) bindings {out} key h b = ground (
  arith,
  bind_records-bound rs ((key_of r, sort_strings r.blob_sha256) ∷ bindings) {out = out} key,
)

bind_records-published :
    (rs : List PublicationRecord) (bindings : Bindings) {out : Bindings} (key : Bytes)
    → bind_records rs bindings ≡ ok out
    → is_nil (published key bindings) ≡ false
    → published key out ≡ published key bindings
unfolding bind_records published
bind_records-published [] bindings {out} key h b = ground arith
bind_records-published (r ∷ rs) bindings {out} key h b = ground (
  arith,
  bind_records-published rs ((key_of r, sort_strings r.blob_sha256) ∷ bindings) {out = out} key,
  equal_strings_lem (published (key_of r) bindings) (sort_strings r.blob_sha256),
  ==ᵇ_iff (key_of r) key,
)

-- What the checks of the lock show for a published key.
Kept : List PackageVersion → Bytes → List Bytes → Type 0
unfolding blob_digests
Kept vs key digests = All (λ v. identity v ≡ key → blob_digests v ≡ digests) vs

check_lock-Kept :
    (bindings : Bindings) (vs : List PackageVersion) (key : Bytes)
    → check_lock bindings vs ≡ ok tt
    → is_nil (published key bindings) ≡ false
    → Kept vs key (published key bindings)
unfolding check_lock Kept
check_lock-Kept bindings [] key h b = tt
check_lock-Kept bindings (v ∷ vs) key h b = (
  λ same.
      ground (arith, same, equal_strings_lem (published (identity v) bindings) (blob_digests v)),
  check_lock-Kept bindings vs key (ground arith) b,
)

check_bound-has_version :
    (bindings : Bindings) (vs : List PackageVersion) (key : Bytes)
    → check_bound bindings vs ≡ ok tt
    → bound key bindings ≡ true
    → has_version key vs ≡ true
unfolding check_bound bound
check_bound-has_version [] vs key h b = cc
check_bound-has_version ((k, digests) ∷ rest) vs key h b =
    ground (arith, ==ᵇ_iff k key, check_bound-has_version rest vs key)

-- A ledger record is kept by a lock.
RecordKept : RepositoryLock → PublicationRecord → Type 0
unfolding Kept has_version sort_by
RecordKept lock r =
    (has_version (key_of r) lock.package_version ≡ true)
    × (is_nil r.blob_sha256 ≡ false
        → Kept lock.package_version (key_of r) (sort_strings r.blob_sha256))

-- Every record of the ledger before the loop is bound after it.
bind_records_lem :
    (rs : List PublicationRecord) (bindings : Bindings) {out : Bindings}
    → bind_records rs bindings ≡ ok out
    → All
        (λ r.
          (bound (key_of r) out ≡ true)
          × (is_nil r.blob_sha256 ≡ false → published (key_of r) out ≡ sort_strings r.blob_sha256))
        rs
unfolding bind_records bound published
bind_records_lem [] bindings h = tt
bind_records_lem (r ∷ rs) bindings {out} h =
    let key = key_of r in
    let next = (key, sort_strings r.blob_sha256) ∷ bindings in
    let same = ==ᵇ_iff key key in
    let rest : bind_records rs next ≡ ok out = ground arith in
    (
      (
        bind_records-bound rs next {out = out} key rest (ground (arith, same)),
        λ named. ground (
          arith,
          bind_records-published rs next {out = out} key rest,
          is_nil-sort_strings r.blob_sha256 named,
          same,
        ),
      ),
      bind_records_lem rs next rest,
    )

bindings-RecordKept :
    (lock : RepositoryLock) (records : List PublicationRecord)
    → validate_published_bindings lock records ≡ ok tt
    → All (RecordKept lock) records
unfolding validate_published_bindings RecordKept
bindings-RecordKept lock records h =
    let (bindings, bind, checked) = >>=-eq-ok (bind_records records []) _ h in
    let (_, first, second) = >>=-eq-ok (check_lock bindings lock.package_version) _ checked in
    go bindings (check_lock-Kept bindings lock.package_version)
      (λ key. check_bound-has_version bindings lock.package_version key second) first records
      (bind_records_lem records [] bind)
  where
    go :
        (bindings : Bindings)
        → ((key : Bytes)
            → check_lock bindings lock.package_version ≡ ok tt
            → is_nil (published key bindings) ≡ false
            → Kept lock.package_version key (published key bindings))
        → ((key : Bytes) → bound key bindings ≡ true → has_version key lock.package_version ≡ true)
        → check_lock bindings lock.package_version ≡ ok tt
        → (rs : List PublicationRecord)
        → All
            (λ r.
              (bound (key_of r) bindings ≡ true)
              × (is_nil r.blob_sha256 ≡ false
                  → published (key_of r) bindings ≡ sort_strings r.blob_sha256))
            rs
        → All (RecordKept lock) rs
    go bindings kept has first [] all = tt
    go bindings kept has first (r ∷ rs) ((in_lock, digests), all) = (
      (
        has (key_of r) in_lock,
        λ named. subst (Kept lock.package_version (key_of r)) (digests named) (
            kept (key_of r) first (
              subst (λ d. is_nil d ≡ false) (sym (digests named))
                (is_nil-sort_strings r.blob_sha256 named))),
      ),
      go bindings kept has first rs all,
    )

-- The same as a test: the lock has the record's package version, and unless the record names no
-- digest, every entry of that identity has the record's digests in sorted order.
unfoldable pub record_kept : RepositoryLock → PublicationRecord → Bool
unfolding has_version every equal_strings blob_digests sort_by ◌==ᵇ◌
record_kept lock r =
    has_version (key_of r) lock.package_version
    && (is_nil r.blob_sha256
        || every
            (λ v.
              not (identity v ==ᵇ key_of r)
              || equal_strings (blob_digests v) (sort_strings r.blob_sha256))
            lock.package_version)

every-Kept :
    (vs : List PackageVersion) (key : Bytes) (digests : List Bytes)
    → Kept vs key digests
    → every (λ v. not (identity v ==ᵇ key) || equal_strings (blob_digests v) digests) vs ≡ true
unfolding every Kept
every-Kept [] key digests h = refl
every-Kept (v ∷ vs) key digests (kept, rest) = elim (Bool-cases (identity v ==ᵇ key)) [
  | inl same ↦
      let equal = kept ((==ᵇ_iff (identity v) key).0 same) in
      ground (
        arith,
        every-Kept vs key digests rest,
        subst (λ d. equal_strings (blob_digests v) d ≡ true) equal
            (equal_strings_refl (blob_digests v)),
      )
  | inr other ↦ ground (arith, every-Kept vs key digests rest)
]

RecordKept-record_kept :
    (lock : RepositoryLock) (r : PublicationRecord) → RecordKept lock r → record_kept lock r ≡ true
unfolding RecordKept record_kept
RecordKept-record_kept lock r (here, digests) = elim (Bool-cases (is_nil r.blob_sha256)) [
  | inl empty ↦ ground arith
  | inr named ↦ ground (
    arith,
    every-Kept lock.package_version (key_of r) (sort_strings r.blob_sha256) (digests named),
  )
]

-- When the lock passes the check against the ledger, every record of the ledger still has its
-- package version in the lock, and when the record names any digest, each entry of the lock for
-- that package version has exactly the record's digests, in sorted order.
pub validate_published_bindings_lem :
    (lock : RepositoryLock) (records : List PublicationRecord)
    → validate_published_bindings lock records ≡ ok tt
    → every (record_kept lock) records ≡ true
unfolding every
validate_published_bindings_lem lock records h = go records (bindings-RecordKept lock records h)
  where
    go :
        (rs : List PublicationRecord)
        → All (RecordKept lock) rs
        → every (record_kept lock) rs ≡ true
    go [] all = refl
    go (r ∷ rs) (kept, all) = ground (arith, RecordKept-record_kept lock r kept, go rs all)
