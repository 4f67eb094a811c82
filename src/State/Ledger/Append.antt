-- ===== src/State/Ledger/Append.antt =====
-- What an apply does to the ledger.
use snailmail.Base.{
  Bool-cases, ok, All, Option-cases, ◌≡◌, sym, ap, ◌∙◌, subst, ◌↔◌, inl, inr, true, Option, none,
  some, List, [], ◌∷◌, ◌++◌, append-nil, append_assoc, arith,
}
use snailmail.State.Model.{PackageVersion, RepositoryLock, PublicationRecord}
use snailmail.State.Ledger.{
  publication_record_equal, find_record, Publication, record_key, candidate, add_records,
  updated_publication_records,
}

-- The candidates that the ledger does not have yet.
unfoldable pub missing :
    List PublicationRecord → Publication → List PackageVersion → List PublicationRecord
unfolding find_record record_key candidate
missing seen p [] = []
missing seen p (v ∷ vs) = elim (find_record (record_key p v) seen) [
  | some _ ↦ missing seen p vs
  | none ↦ candidate p v ∷ missing seen p vs
]

-- The record of a version, if the ledger has one, is the candidate.
unfoldable pub Same : Publication → PackageVersion → Option PublicationRecord → Type 0
unfolding publication_record_equal candidate
Same p v none = Unit
Same p v (some r) = publication_record_equal r (candidate p v) ≡ true

add_records_lem :
    (seen : List PublicationRecord) (p : Publication) (vs : List PackageVersion)
    (records : List PublicationRecord) {out : List PublicationRecord}
    → add_records seen p vs records ≡ ok out
    → (out ≡ records ++ missing seen p vs)
      × All (λ v. Same p v (find_record (record_key p v) seen)) vs
unfolding add_records missing Same
add_records_lem seen p [] records {out} h = (ground (arith, append-nil records), tt)
add_records_lem seen p (v ∷ vs) records {out} h =
    elim (Option-cases (find_record (record_key p v) seen)) [
      | inl absent ↦
          let rest =
            add_records_lem seen p vs (records ++ candidate p v ∷ []) {out = out} (ground arith) in
          (
            ground (
              arith,
              rest.0,
              absent,
              append_assoc records (candidate p v ∷ []) (missing seen p vs),
            ),
            (subst (Same p v) (sym absent) tt, rest.1),
          )
      | inr (r, found) ↦ elim (Bool-cases (publication_record_equal r (candidate p v))) [
        | inl same ↦
            let rest = add_records_lem seen p vs records {out = out} (ground arith) in
            (ground (arith, rest.0, found), (subst (Same p v) (sym found) same, rest.1))
        | inr other ↦ absurd (ground arith)
      ]
    ]

add_records-missing :
    (seen : List PublicationRecord) (p : Publication) (vs : List PackageVersion)
    (records : List PublicationRecord)
    → All (λ v. Same p v (find_record (record_key p v) seen)) vs
    → add_records seen p vs records ≡ ok (records ++ missing seen p vs)
unfolding add_records missing Same
add_records-missing seen p [] records h = ground (arith, append-nil records)
add_records-missing seen p (v ∷ vs) records (same, rest) =
    elim (Option-cases (find_record (record_key p v) seen)) [
      | inl absent ↦
          let appended = add_records-missing seen p vs (records ++ candidate p v ∷ []) rest in
          ground
            (arith, appended, absent, append_assoc records (candidate p v ∷ []) (missing seen p vs))
      | inr (r, found) ↦
          let equal = subst (Same p v) found same in
          ground (arith, add_records-missing seen p vs records rest, found, equal)
    ]

-- An apply succeeds exactly when, for every version of the lock, the last record that the ledger has
-- under the version's key, if it has one, equals the candidate of that version; the ledger after it is the ledger before it, unchanged and in order,
-- followed by the candidates it did not have.
pub updated_publication_records_lem :
    (existing : List PublicationRecord) (p : Publication) (lock : RepositoryLock)
    (records : List PublicationRecord)
    → updated_publication_records existing p lock ≡ ok records
      ↔ (records ≡ existing ++ missing existing p lock.package_version)
        × All (λ v. Same p v (find_record (record_key p v) existing)) lock.package_version
unfolding updated_publication_records
updated_publication_records_lem existing p lock records = (
  add_records_lem existing p lock.package_version existing,
  λ (out, same).
      add_records-missing existing p lock.package_version existing same ∙ ap ok (sym out),
)
