-- ===== src/State/History.antt =====
-- internal/state/ledger.go: validatePublicationRecord and ValidatePublicationHistory, what a ledger
-- must be before it is used. `time.Parse` is a parameter.
use snailmail.Base.{
  ◌==◌, Bytes, ◌==ᵇ◌, compare_bytes, ◌>>◌, require, Result, ok, mem, distinct, every, fresh,
  fresh-distinct, ℕ, zero, suc, gt, ◌≡◌, refl, ap, ◌∙◌, Bool, true, false, not, ◌&&◌, ◌||◌, Option,
  none, some, List, [], ◌∷◌, ◌++◌, map, arith,
}
use snailmail.Hexdigest.{valid_sha256}
use snailmail.State.Model.{PublicationRecord, ledger_schema}
use snailmail.State.Ledger.{publication_record_key}

-- `record.TreeSHA256[:12]`
take : ℕ → Bytes → Bytes
take zero s = []
take (suc n) [] = []
take (suc n) (c ∷ s) = c ∷ take n s

-- `left <= right` on strings
not_above : Bytes → Bytes → Bool
not_above left right = elim (compare_bytes left right) [ gt ↦ false | _ ↦ true ]

-- The loop on the digests, with the one before.
pub valid_digests : Bytes → List Bytes → Bool
unfolding valid_sha256 not_above ◌==ᵇ◌
valid_digests previous [] = true
valid_digests previous (digest ∷ digests) =
    let rest = valid_digests digest digests in
    valid_sha256 digest && (previous ==ᵇ [] || not (not_above digest previous)) && rest

is_nil : List Bytes → Bool
is_nil [] = true
is_nil (_ ∷ _) = false

is_some {ℓ} : {A : Type ℓ} → Option A → Bool
is_some none = false
is_some (some _) = true

both_required :
    (valid repeated rest_valid rest_fresh : Bool) {rest : Result (Unit {0})}
    → rest ≡ require (rest_valid && rest_fresh)
    → (require valid >> (require (not repeated) >> rest))
      ≡ require ((valid && rest_valid) && (not repeated && rest_fresh))
both_required false repeated a b h = refl
both_required true false a b h = h
both_required true true a b h = ground arith

module _ (parse_time : Bytes → Option ℕ) where
  unfoldable pub valid_record : PublicationRecord → Bytes → Bool
  unfolding valid_sha256 take valid_digests is_nil is_some ◌==ᵇ◌
  valid_record r repository =
      r.schema_version == ledger_schema
      && not (r.repository ==ᵇ [])
      && (repository ==ᵇ [] || r.repository ==ᵇ repository)
      && valid_sha256 r.plan_id
      && valid_sha256 r.tree_sha256
      && r.change_id ==ᵇ r.repository ++ 58 ∷ take 12 r.tree_sha256
      && not (r.package_name ==ᵇ [])
      && not (r.version ==ᵇ [])
      && not (is_nil r.blob_sha256)
      && valid_digests [] r.blob_sha256
      && is_some (parse_time r.recorded_at)

  pub check_records : Bytes → List Bytes → List PublicationRecord → Result (Unit {0})
  unfolding valid_record publication_record_key mem
  check_records repository seen [] = ok tt
  check_records repository seen (r ∷ rs) = do
    require (valid_record r repository)
    require (not (mem (publication_record_key r) seen))
    check_records repository (publication_record_key r ∷ seen) rs

  unfoldable pub validate_publication_history : Bytes → List PublicationRecord → Result (Unit {0})
  unfolding check_records
  validate_publication_history repository records = check_records repository [] records

  check_records_lem :
      (repository : Bytes) (seen : List Bytes) (rs : List PublicationRecord)
      → check_records repository seen rs
        ≡ require (
            every (λ r. valid_record r repository) rs && fresh seen (map publication_record_key rs))
  unfolding check_records every fresh
  check_records_lem repository seen [] = refl
  check_records_lem repository seen (r ∷ rs) =
      both_required (valid_record r repository) (mem (publication_record_key r) seen) _ _
        (check_records_lem repository (publication_record_key r ∷ seen) rs)

  -- A ledger passes exactly when each of its records is valid for the repository and no two records
  -- have one key.
  pub validate_publication_history_lem :
      (repository : Bytes) (records : List PublicationRecord)
      → validate_publication_history repository records
        ≡ require (
            every (λ r. valid_record r repository) records
            && distinct (map publication_record_key records))
  unfolding validate_publication_history
  validate_publication_history_lem repository records =
      check_records_lem repository [] records
      ∙ ap (λ b. require (every (λ r. valid_record r repository) records && b))
          (fresh-distinct (map publication_record_key records))
