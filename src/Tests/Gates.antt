-- ===== src/Tests/Gates.antt =====
-- A signed approval and a merged pull request.
use snailmail.Base.{
  Bytes, codes, ◌==ᵇ◌, parse_uint, pos, ok, mem, Any, ℕ, suc, ◌≡◌, refl, ◌≢◌, true, Option, some,
  [], ◌∷◌, ◌++◌, arith,
}
use snailmail.Gate.Approval.{
  Requirement, Approval, ApprovalFile, PrivateKeyFile, Crypto, approval_schema, approval_message,
  sign_approval,
}
use snailmail.Gate.Review.{target_of, PullRequest, Forge, verify_merged_pr}
use snailmail.Gate.Evaluate.{load_approvals, require_approval}
use snailmail.Gate.Message.{is_clean, approval_message_injective}
use snailmail.Gate.Signed.{Lawful, require_approval-sign_approval}
use snailmail.Gate.Safe.{Approved, require_approval_lem}
use snailmail.Gate.Landed.{Reviewed, verify_merged_pr_lem}

abbrev half : Bytes
half = codes "0123456789abcdef0123456789abcdef"

abbrev signature : Bytes
signature = half ++ half

-- One key, one signature.
abbrev pub crypto : Crypto
crypto = record {
  encode_base64 = λ x. x;
  decode_base64 = some;
  sha256_hex = λ x. x;
  public_key = λ _. half;
  sign = λ _ _. signature;
  verify = λ _ _ s. s ==ᵇ signature;
  parse_time = parse_uint 4294967296;
}

crypto-Lawful : Lawful crypto
unfolding ◌==ᵇ◌
crypto-Lawful = record {
  decodes = λ x. refl;
  public_length = λ _ _. refl;
  signature_length = λ _ _ _. refl;
}

abbrev key_file : PrivateKeyFile
key_file = record { schema_version = 1; private_key = signature }

abbrev pub approval : Approval
approval = record {
  plan_id = codes "plan";
  repository = codes "apt";
  approver = codes "ed25519:" ++ half;
  expires_at = codes "200";
  signature = signature;
}

abbrev pub requirement : Requirement
requirement = record {
  policy = codes "approval";
  plan_id = codes "plan";
  repository = codes "apt";
  git_revision = codes "r1";
  root = [];
  now = 100;
  forge_repository = codes "owner/name";
  forge = [];
  forge_host = [];
  approval_keys = half ∷ [];
}

abbrev pub read_file : Bytes → Option Bytes
read_file name = some name

abbrev pub decode : Bytes → Option ApprovalFile
decode _ = some (record { schema_version = approval_schema; approvals = approval ∷ [] })

sign_example :
    sign_approval crypto (some key_file) (codes "plan") (codes "apt") (codes "200")
    ≡ ok (approval, half)
unfolding sign_approval
sign_example = refl

require_approval-sign_approval_example :
    require_approval crypto read_file decode (codes "approvals.json") requirement ≡ ok tt
unfolding ◌==ᵇ◌ mem parse_uint
require_approval-sign_approval_example =
    require_approval-sign_approval crypto crypto-Lawful read_file decode (some key_file)
      (codes "plan") (codes "apt") (codes "200") approval half requirement (codes "approvals.json")
      (codes "approvals.json") 200 [] [] sign_example (λ _ _ _. refl) refl refl refl refl
      (omega arith) refl refl refl

require_approval_lem_example :
    (evidence : ApprovalFile) × (load_approvals read_file decode (codes "approvals.json")
      ≡ ok evidence)
    × (evidence.schema_version ≡ 1)
    × Any (Approved crypto requirement) evidence.approvals
require_approval_lem_example =
    require_approval_lem crypto requirement read_file decode (codes "approvals.json")
      require_approval-sign_approval_example

abbrev unsigned : Approval
unsigned = record approval { signature = [] }

approval_message_injective_example :
    (approval.plan_id ≡ unsigned.plan_id)
    × (approval.repository ≡ unsigned.repository)
    × (approval.approver ≡ unsigned.approver)
    × (approval.expires_at ≡ unsigned.expires_at)
unfolding is_clean approval_message
approval_message_injective_example = approval_message_injective approval unsigned refl refl refl

abbrev pull : ℕ → Bytes → PullRequest
pull number base = record { number = pos number; merged = true; base_branch = base }

abbrev forge : Forge ℕ
forge = record {
  resolve = λ _ w. (true, suc w);
  repository =
      λ _ w. (some (record { name = codes "owner/name"; default_branch = codes "main" }), suc w);
  pull_requests = λ _ _ w. (some (pull 7 (codes "dev") ∷ pull 8 (codes "main") ∷ []), suc w);
  ancestry = λ _ revision _ w. (some (record { contains = true; merge_base = revision }), suc w);
}

verify_merged_pr_lem_example :
    (codes "owner/name" ≢ [])
    × (f : Forge ℕ) × (some forge ≡ some f)
    × Reviewed f (target_of requirement) (codes "r1")
unfolding verify_merged_pr
verify_merged_pr_lem_example = verify_merged_pr_lem (some forge) requirement (codes "r1") 0 refl
