-- ===== src/Gate/Approval.antt =====
-- gate/gate.go: signed approvals. Ed25519, SHA-256, base64 and the clock's format are parameters;
-- an instant is its number of seconds.
use snailmail.Base.{
  ◌==◌, length, Bytes, codes, ◌==ᵇ◌, of_option, require, Result, ok, exists_in, ℕ, Bool, false,
  ◌&&◌, Option, none, some, List, [], ◌∷◌, ◌++◌, ◌>>=◌, ◌>>◌,
}

pub record Requirement : Type 0 where
  pub policy : Bytes
  pub plan_id : Bytes
  pub repository : Bytes
  pub git_revision : Bytes
  pub root : Bytes
  pub now : ℕ
  pub forge_repository : Bytes
  pub forge : Bytes
  pub forge_host : Bytes
  pub approval_keys : List Bytes

pub record Approval : Type 0 where
  pub plan_id : Bytes
  pub repository : Bytes
  pub approver : Bytes
  pub expires_at : Bytes
  pub signature : Bytes

pub record ApprovalFile : Type 0 where
  pub schema_version : ℕ
  pub approvals : List Approval

pub record PrivateKeyFile : Type 0 where
  pub schema_version : ℕ
  pub private_key : Bytes

pub record Crypto : Type 0 where
  -- `base64.StdEncoding`
  pub encode_base64 : Bytes → Bytes
  pub decode_base64 : Bytes → Option Bytes
  -- the digits of a SHA-256 digest
  pub sha256_hex : Bytes → Bytes
  -- `ed25519`
  pub public_key : Bytes → Bytes
  pub sign : Bytes → Bytes → Bytes
  pub verify : Bytes → Bytes → Bytes → Bool
  -- `time.Parse` of RFC 3339
  pub parse_time : Bytes → Option ℕ

abbrev pub approval_schema : ℕ
approval_schema = 1

unfoldable pub approval_message : Approval → Bytes
approval_message a =
    codes "snailmail-approval/v1"
    ++ 0 ∷ (a.plan_id ++ 0 ∷ (a.repository ++ 0 ∷ (a.approver ++ 0 ∷ a.expires_at)))

module _ (crypto : Crypto) where
  unfoldable pub approval_key_id : Bytes → Bytes
  approval_key_id key = codes "ed25519:" ++ crypto.sha256_hex key

  -- Whether the decoded key made the signature.
  unfoldable pub key_signed : Approval → Bytes → Option Bytes → Bool
  unfolding approval_message approval_key_id ◌==ᵇ◌
  key_signed approval signature none = false
  key_signed approval signature (some key) =
      length key == 32
      && approval.approver ==ᵇ approval_key_id key
      && crypto.verify key (approval_message approval) signature

  unfoldable pub signature_signed : Approval → List Bytes → Option Bytes → Bool
  unfolding key_signed exists_in
  signature_signed approval allowed_keys none = false
  signature_signed approval allowed_keys (some signature) =
      length signature == 64
      && exists_in (λ encoded. key_signed approval signature (crypto.decode_base64 encoded))
          allowed_keys

  unfoldable pub verify_approval : Approval → List Bytes → Bool
  unfolding signature_signed
  verify_approval approval allowed_keys =
      signature_signed approval allowed_keys (crypto.decode_base64 approval.signature)

  unfoldable pub signed_with : Bytes → Bytes → Bytes → Bytes → Approval
  unfolding approval_message approval_key_id
  signed_with key plan_id repository expires_at = record unsigned {
    signature = crypto.encode_base64 (crypto.sign key (approval_message unsigned));
  }
    where
      unsigned : Approval
      unsigned = record {
        plan_id = plan_id;
        repository = repository;
        approver = approval_key_id (crypto.public_key key);
        expires_at = expires_at;
        signature = [];
      }

  -- `SignApproval` on the key file as it was read and decoded: the approval and the public key.
  unfoldable pub sign_approval :
      Option PrivateKeyFile → Bytes → Bytes → Bytes → Result (Approval × Bytes)
  unfolding signed_with
  sign_approval file plan_id repository expires_at = do
    key_file ← of_option file
    require (key_file.schema_version == approval_schema)
    key ← of_option (crypto.decode_base64 key_file.private_key)
    require (length key == 64)
    ok (signed_with key plan_id repository expires_at, crypto.encode_base64 (crypto.public_key key))
