-- ===== src/Gate/Evaluate.antt =====
-- gate/gate.go: LoadApprovals, requireApproval and Authorize. Reading a file and decoding its JSON
-- are parameters.
use snailmail.Base.{
  ltb, ◌==◌, if◌then◌else◌, Bytes, codes, ◌==ᵇ◌, of_option, require, is_ok, Result, ok, exists_in,
  ℕ, Bool, true, false, not, ◌&&◌, Option, none, some, [], ◌>>=◌, ◌>>◌,
}
use snailmail.Gate.Approval.{
  Requirement, Approval, ApprovalFile, Crypto, approval_schema, verify_approval,
}
use snailmail.Gate.Review.{Forge, verify_merged_pr}

module _ (read_file : Bytes → Option Bytes) (decode : Bytes → Option ApprovalFile) where
  unfoldable pub load_approvals : Bytes → Result ApprovalFile
  load_approvals filename = do
    content ← of_option (read_file filename)
    evidence ← of_option (decode content)
    require (evidence.schema_version == approval_schema)
    ok evidence

unfoldable pub is_before : ℕ → Option ℕ → Bool
is_before now none = false
is_before now (some expires_at) = ltb now expires_at

module _ (crypto : Crypto) where
  -- Whether an approval is bound to the requirement, unexpired and signed.
  unfoldable pub approves : Requirement → Approval → Bool
  unfolding ◌==ᵇ◌ is_before verify_approval
  approves requirement approval =
      approval.plan_id ==ᵇ requirement.plan_id
      && approval.repository ==ᵇ requirement.repository
      && not (approval.approver ==ᵇ [])
      && is_before requirement.now (crypto.parse_time approval.expires_at)
      && verify_approval crypto approval requirement.approval_keys

  module _ (read_file : Bytes → Option Bytes) (decode : Bytes → Option ApprovalFile) where
    unfoldable pub require_approval : Bytes → Requirement → Result (Unit {0})
    unfolding load_approvals approves exists_in ◌==ᵇ◌
    require_approval approval_file requirement = do
      require (not (approval_file ==ᵇ []))
      evidence ← load_approvals read_file decode approval_file
      require (exists_in (approves requirement) evidence.approvals)

    -- `DefaultEvaluator.Authorize`
    unfoldable pub authorize : {W : Type 0} → Bytes → Option (Forge W) → Requirement → W → Bool × W
    unfolding require_approval verify_merged_pr ◌==ᵇ◌
    authorize approval_file forges requirement w =
        if requirement.policy ==ᵇ codes "auto"
        then (true, w)
        else if requirement.policy ==ᵇ codes "pr"
        then verify_merged_pr forges requirement requirement.git_revision w
        else if requirement.policy ==ᵇ codes "approval"
        then (is_ok (require_approval approval_file requirement), w)
        else (false, w)
