-- ===== src/Gate/Safe.antt =====
-- What stands behind a gate that opens.
use snailmail.Base.{
  ◌==◌, length, Bytes, ◌==ᵇ◌, ==ᵇ_iff, of_option, require, >>=-eq-ok, require-eq-ok, ok_injective,
  ok, Any, exists_in-Any, map-Any, ℕ, ◌<◌, ◌≡◌, refl, sym, ap, ◌∙◌, true, not, Option, none, some,
  [], arith,
}
use snailmail.Gate.Approval.{
  Requirement, Approval, ApprovalFile, Crypto, approval_schema, approval_message, approval_key_id,
  key_signed, signature_signed, verify_approval,
}
use snailmail.Gate.Evaluate.{load_approvals, is_before, approves, require_approval}

module _ (crypto : Crypto) (requirement : Requirement) where
  -- A key of the repository's list made the signature.
  abbrev pub SignedBy : Approval → Bytes → Bytes → Type 0
  SignedBy approval signature encoded =
      (key : Bytes) × (crypto.decode_base64 encoded ≡ some key)
      × (length key ≡ 32)
      × (approval.approver ≡ approval_key_id crypto key)
      × (crypto.verify key (approval_message approval) signature ≡ true)

  abbrev pub Approved : Approval → Type 0
  Approved approval =
      (approval.plan_id ≡ requirement.plan_id)
      × (approval.repository ≡ requirement.repository)
      × ((instant : ℕ) × (crypto.parse_time approval.expires_at ≡ some instant)
          × (requirement.now < instant))
      × ((signature : Bytes) × (crypto.decode_base64 approval.signature ≡ some signature)
          × Any (SignedBy approval signature) requirement.approval_keys)

  key_signed_lem :
      (approval : Approval) (signature : Bytes) (o : Option Bytes)
      → key_signed crypto approval signature o ≡ true
      → (key : Bytes) × (o ≡ some key)
        × (length key ≡ 32)
        × (approval.approver ≡ approval_key_id crypto key)
        × (crypto.verify key (approval_message approval) signature ≡ true)
  unfolding key_signed
  key_signed_lem approval signature none h = cc
  key_signed_lem approval signature (some key) h = (
    key,
    refl,
    ground arith,
    (==ᵇ_iff approval.approver (approval_key_id crypto key)).0 (ground arith),
    ground arith,
  )

  signature_signed_lem :
      (approval : Approval) (o : Option Bytes)
      → signature_signed crypto approval requirement.approval_keys o ≡ true
      → (signature : Bytes) × (o ≡ some signature)
        × Any (SignedBy approval signature) requirement.approval_keys
  unfolding signature_signed
  signature_signed_lem approval none h = cc
  signature_signed_lem approval (some signature) h = (
    signature,
    refl,
    map-Any _ _ requirement.approval_keys
        (λ encoded. key_signed_lem approval signature (crypto.decode_base64 encoded))
        (exists_in-Any _ requirement.approval_keys (ground arith)),
  )

  is_before_lem :
      (o : Option ℕ)
      → is_before requirement.now o ≡ true
      → (instant : ℕ) × (o ≡ some instant) × (requirement.now < instant)
  unfolding is_before
  is_before_lem none h = cc
  is_before_lem (some instant) h = (instant, refl, ground arith)

  approves-Approved :
      (approval : Approval) → approves crypto requirement approval ≡ true → Approved approval
  unfolding approves verify_approval
  approves-Approved approval h = (
    (==ᵇ_iff approval.plan_id requirement.plan_id).0 (ground arith),
    (==ᵇ_iff approval.repository requirement.repository).0 (ground arith),
    is_before_lem (crypto.parse_time approval.expires_at) (ground arith),
    signature_signed_lem approval (crypto.decode_base64 approval.signature) (ground arith),
  )

  module _ (read_file : Bytes → Option Bytes) (decode : Bytes → Option ApprovalFile) where
    -- Where the approval gate opens, the evidence file is of the current schema and holds an
    -- approval of this plan and repository that has not expired and that a key of the plan's
    -- approval keys has signed.
    pub require_approval_lem :
        (filename : Bytes)
        → require_approval crypto read_file decode filename requirement ≡ ok tt
        → (evidence : ApprovalFile) × (load_approvals read_file decode filename ≡ ok evidence)
          × (evidence.schema_version ≡ 1)
          × Any Approved evidence.approvals
    unfolding require_approval load_approvals
    require_approval_lem filename h =
        let (_, _, named) = >>=-eq-ok (require (not (filename ==ᵇ []))) _ h in
        let (evidence, loaded, accepted) =
          >>=-eq-ok (load_approvals read_file decode filename) _ named in
        let (content, _, opened) = >>=-eq-ok (of_option (read_file filename)) _ loaded in
        let (found, _, decoded) = >>=-eq-ok (of_option (decode content)) _ opened in
        let (_, versioned, same) =
          >>=-eq-ok (require (found.schema_version == approval_schema)) _ decoded in
        let version : found.schema_version == approval_schema ≡ true = require-eq-ok _ versioned in
        let equal : found ≡ evidence = ok_injective same in
        (
          evidence,
          loaded,
          ap (λ e. e.schema_version) (sym equal) ∙ ground arith,
          map-Any _ _ evidence.approvals approves-Approved
              (exists_in-Any _ evidence.approvals (require-eq-ok _ accepted)),
        )
