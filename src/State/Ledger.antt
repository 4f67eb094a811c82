-- ===== src/State/Ledger.antt =====
-- internal/state/ledger.go: the append-only publication ledger.
pub mod Append
pub mod Retry
pub mod Bindings
use snailmail.Base.{
  ◌==◌, if◌then◌else◌, Bytes, ◌==ᵇ◌, compare_list, Result, ok, err, sort_by, sort_strings,
  equal_strings, Bool, true, false, not, ◌&&◌, ◌||◌, Option, none, some, List, [], ◌∷◌, ◌++◌, ◌>>=◌,
  ◌>>◌,
}
use snailmail.State.Model.{
  LockedBlob, PackageVersion, RepositoryLock, PublicationRecord, ledger_schema, ◌⊕◌,
}

unfoldable pub publication_record_key : PublicationRecord → Bytes
publication_record_key r = r.plan_id ⊕ r.change_id ⊕ r.package_name ⊕ r.version

abbrev digests_of : List LockedBlob → List Bytes
digests_of [] = []
digests_of (b ∷ bs) = b.sha256 ∷ digests_of bs

pub blob_digests : PackageVersion → List Bytes
unfolding sort_by compare_list
blob_digests p = sort_strings (digests_of p.blobs)

unfoldable pub publication_record_equal : PublicationRecord → PublicationRecord → Bool
unfolding ◌==ᵇ◌ equal_strings
publication_record_equal left right =
    left.schema_version == right.schema_version
    && left.plan_id ==ᵇ right.plan_id
    && left.change_id ==ᵇ right.change_id
    && left.repository ==ᵇ right.repository
    && left.package_name ==ᵇ right.package_name
    && left.version ==ᵇ right.version
    && left.tree_sha256 ==ᵇ right.tree_sha256
    && left.recorded_at ==ᵇ right.recorded_at
    && equal_strings left.blob_sha256 right.blob_sha256

-- A map from keys to records, filled in order: the last record of a key stays.
pub find_record : Bytes → List PublicationRecord → Option PublicationRecord
unfolding publication_record_key ◌==ᵇ◌
find_record key [] = none
find_record key (r ∷ rs) = elim (find_record key rs) [
  | some s ↦ some s
  | none ↦ if publication_record_key r ==ᵇ key then some r else none
]

-- What one apply publishes.
pub record Publication : Type 0 where
  pub repository : Bytes
  pub plan_id : Bytes
  pub change_id : Bytes
  pub tree_sha256 : Bytes
  pub recorded_at : Bytes

unfoldable pub record_key : Publication → PackageVersion → Bytes
record_key p v = p.plan_id ⊕ p.change_id ⊕ v.package_name ⊕ v.version

pub candidate : Publication → PackageVersion → PublicationRecord
unfolding blob_digests
candidate p v = record {
  schema_version = ledger_schema;
  plan_id = p.plan_id;
  change_id = p.change_id;
  repository = p.repository;
  package_name = v.package_name;
  version = v.version;
  blob_sha256 = blob_digests v;
  tree_sha256 = p.tree_sha256;
  recorded_at = p.recorded_at;
}

-- The loop of `updatedPublicationRecords`; `seen` is the ledger before it.
pub add_records :
    List PublicationRecord
    → Publication
    → List PackageVersion
    → List PublicationRecord
    → Result (List PublicationRecord)
unfolding find_record record_key candidate publication_record_equal
add_records seen p [] records = ok records
add_records seen p (v ∷ vs) records = elim (find_record (record_key p v) seen) [
  | some previous ↦ elim (publication_record_equal previous (candidate p v)) [
    | true ↦ add_records seen p vs records
    | false ↦ err
  ]
  | none ↦ add_records seen p vs (records ++ candidate p v ∷ [])
]

unfoldable pub updated_publication_records :
    List PublicationRecord → Publication → RepositoryLock → Result (List PublicationRecord)
unfolding add_records
updated_publication_records existing p lock = add_records existing p lock.package_version existing

-- A map from identities to sorted digests. An absent key and one bound to no digest are both
-- `nil` in the source.
abbrev pub Bindings : Type 0
Bindings = List (Bytes × List Bytes)

pub published : Bytes → Bindings → List Bytes
unfolding ◌==ᵇ◌
published key [] = []
published key ((k, digests) ∷ rest) = if k ==ᵇ key then digests else published key rest

abbrev pub is_nil : List Bytes → Bool
is_nil [] = true
is_nil (_ ∷ _) = false

-- The first loop of `ValidatePublishedBindings`.
pub bind_records : List PublicationRecord → Bindings → Result Bindings
unfolding published equal_strings sort_by compare_list
bind_records [] bindings = ok bindings
bind_records (r ∷ rs) bindings =
    let key = r.package_name ⊕ r.version in
    let digests = sort_strings r.blob_sha256 in
    let existing = published key bindings in
    let rest = bind_records rs ((key, digests) ∷ bindings) in
    if not (is_nil existing) && not (equal_strings existing digests) then err else rest

-- The second loop: a published version keeps its bytes.
pub check_lock : Bindings → List PackageVersion → Result (Unit {0})
unfolding published blob_digests equal_strings
check_lock bindings [] = ok tt
check_lock bindings (v ∷ vs) =
    let bound = published (v.package_name ⊕ v.version) bindings in
    let rest = check_lock bindings vs in
    if is_nil bound then rest else if equal_strings bound (blob_digests v) then rest else err

pub has_version : Bytes → List PackageVersion → Bool
unfolding ◌==ᵇ◌
has_version key [] = false
has_version key (v ∷ vs) = (v.package_name ⊕ v.version) ==ᵇ key || has_version key vs

-- The third loop: a published version stays in the lock. Its sorted keys only choose which error
-- is reported.
pub check_bound : Bindings → List PackageVersion → Result (Unit {0})
unfolding has_version
check_bound [] versions = ok tt
check_bound ((key, _) ∷ rest) versions =
    let checked = check_bound rest versions in if has_version key versions then checked else err

unfoldable pub validate_published_bindings :
    RepositoryLock → List PublicationRecord → Result (Unit {0})
unfolding bind_records check_lock check_bound
validate_published_bindings lock records = do
  bindings ← bind_records records []
  check_lock bindings lock.package_version
  check_bound bindings lock.package_version
