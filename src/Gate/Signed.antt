-- ===== src/Gate/Signed.antt =====
-- When an approval that is signed is accepted.
use snailmail.Base.{
  ◌==◌, length, Bytes, ◌==ᵇ◌, ==ᵇ_refl, of_option, require, >>=-eq-ok, require-eq-ok, ok_injective,
  of_option-eq-ok, ok, mem, exists_in, exists_in-mem, exists_in-append, ℕ, ◌<◌, ◌≡◌, refl, sym, ap,
  true, false, Option, some, List, [], ◌∷◌, ◌++◌, arith,
}
use snailmail.Gate.Approval.{
  Requirement, Approval, ApprovalFile, PrivateKeyFile, Crypto, approval_schema, approval_message,
  approval_key_id, key_signed, signature_signed, verify_approval, signed_with, sign_approval,
}
use snailmail.Gate.Evaluate.{load_approvals, is_before, approves, require_approval}

-- What Ed25519 and base64 promise.
pub record Lawful (crypto : Crypto) : Type 0 where
  pub decodes : (x : Bytes) → crypto.decode_base64 (crypto.encode_base64 x) ≡ some x
  pub public_length : (key : Bytes) → length key ≡ 64 → length (crypto.public_key key) ≡ 32
  pub signature_length :
      (key message : Bytes) → length key ≡ 64 → length (crypto.sign key message) ≡ 64

-- The public half of a private key checks what the key signs. A key file may hold a public half of
-- another seed, which the code does not notice.
abbrev pub IsPair : Crypto → Bytes → Type 0
IsPair crypto key =
    (message : Bytes)
    → crypto.verify (crypto.public_key key) message (crypto.sign key message) ≡ true

module _ (crypto : Crypto) (lawful : Lawful crypto) where
  key_signed-signed_with :
      (key plan_id repository expires_at : Bytes)
      → length key ≡ 64
      → IsPair crypto key
      → key_signed crypto
          (signed_with crypto key plan_id repository expires_at)
          (crypto.sign key
            (approval_message (signed_with crypto key plan_id repository expires_at)))
          (crypto.decode_base64 (crypto.encode_base64 (crypto.public_key key)))
        ≡ true
  unfolding key_signed signed_with approval_message
  key_signed-signed_with key plan_id repository expires_at size pair =
      rw (lawful.decodes (crypto.public_key key)) (
        ground (
          arith,
          lawful.public_length key size,
          ==ᵇ_refl (approval_key_id crypto (crypto.public_key key)),
          pair (approval_message (signed_with crypto key plan_id repository expires_at)),
        ))

  verify_approval-signed_with :
      (key plan_id repository expires_at : Bytes) (allowed : List Bytes)
      → length key ≡ 64
      → IsPair crypto key
      → mem (crypto.encode_base64 (crypto.public_key key)) allowed ≡ true
      → verify_approval crypto (signed_with crypto key plan_id repository expires_at) allowed ≡ true
  unfolding verify_approval signature_signed signed_with
  verify_approval-signed_with key plan_id repository expires_at allowed size pair known =
      rw
        (lawful.decodes (
          crypto.sign key
            (approval_message (signed_with crypto key plan_id repository expires_at))))
        (rw
          (exists_in-mem
            (λ encoded.
              key_signed crypto (signed_with crypto key plan_id repository expires_at)
                (crypto.sign key
                  (approval_message (signed_with crypto key plan_id repository expires_at)))
                (crypto.decode_base64 encoded))
            (crypto.encode_base64 (crypto.public_key key)) allowed known
            (key_signed-signed_with key plan_id repository expires_at size pair))
          (ground (
            arith,
            lawful.signature_length key
                (approval_message (signed_with crypto key plan_id repository expires_at)) size,
          )))

-- A signed approval approves while it lasts.
approves-signed_with :
    (crypto : Crypto) (lawful : Lawful crypto) (requirement : Requirement) (key expires_at : Bytes)
    (instant : ℕ)
    → length key ≡ 64
    → IsPair crypto key
    → mem (crypto.encode_base64 (crypto.public_key key)) requirement.approval_keys ≡ true
    → crypto.parse_time expires_at ≡ some instant
    → requirement.now < instant
    → approves crypto requirement
        (signed_with crypto key requirement.plan_id requirement.repository expires_at)
      ≡ true
unfolding approves is_before signed_with approval_key_id ◌==ᵇ◌
approves-signed_with crypto lawful requirement key expires_at instant size pair known parsed early =
    rw (==ᵇ_refl requirement.plan_id) (
      rw (==ᵇ_refl requirement.repository) (
        rw parsed (
          ground (
            arith,
            verify_approval-signed_with crypto lawful key requirement.plan_id requirement.repository
                expires_at requirement.approval_keys size pair known,
          ))))

-- The private key of a key file.
abbrev pub Holds : Crypto → Option PrivateKeyFile → Bytes → Type 0
Holds crypto file key =
    (key_file : PrivateKeyFile) × (file ≡ some key_file)
    × (crypto.decode_base64 key_file.private_key ≡ some key)

-- What a key file must hold for an approval to come out.
sign_approval-ok :
    (crypto : Crypto) (file : Option PrivateKeyFile) (plan_id repository expires_at : Bytes)
    {approval : Approval} {public : Bytes}
    → sign_approval crypto file plan_id repository expires_at ≡ ok (approval, public)
    → (key : Bytes) × (Holds crypto file key)
      × (length key ≡ 64)
      × (signed_with crypto key plan_id repository expires_at ≡ approval)
      × (crypto.encode_base64 (crypto.public_key key) ≡ public)
unfolding sign_approval
sign_approval-ok crypto file plan_id repository expires_at h =
    let (key_file, held, opened) = >>=-eq-ok (of_option file) _ h in
    let (_, _, versioned) =
      >>=-eq-ok (require (key_file.schema_version == approval_schema)) _ opened in
    let (key, read, decoded) =
      >>=-eq-ok (of_option (crypto.decode_base64 key_file.private_key)) _ versioned in
    let (_, size, signed) = >>=-eq-ok (require (length key == 64)) _ decoded in
    let sized : length key == 64 ≡ true = require-eq-ok _ size in
    (
      key,
      (key_file, of_option-eq-ok file held, of_option-eq-ok _ read),
      ground arith,
      ap (λ p. p.0) (ok_injective signed),
      ap (λ p. p.1) (ok_injective signed),
    )

module _ (crypto : Crypto) (lawful : Lawful crypto) (read_file : Bytes → Option Bytes)
    (decode : Bytes → Option ApprovalFile) where
  -- An approval that is signed for a plan and a repository passes the approval gate of that plan and
  -- repository before it expires, where the private key in the file belongs to its public half, that
  -- public key is among the approval keys, and the approval stands in an evidence file of the current
  -- schema.
  pub require_approval-sign_approval :
      (file : Option PrivateKeyFile) (plan_id repository expires_at : Bytes) (approval : Approval)
      (public : Bytes) (requirement : Requirement) (filename content : Bytes) (instant : ℕ)
      (earlier later : List Approval)
      → sign_approval crypto file plan_id repository expires_at ≡ ok (approval, public)
      → ((key : Bytes) → Holds crypto file key → IsPair crypto key)
      → requirement.plan_id ≡ plan_id
      → requirement.repository ≡ repository
      → mem public requirement.approval_keys ≡ true
      → crypto.parse_time expires_at ≡ some instant
      → requirement.now < instant
      → (filename ==ᵇ []) ≡ false
      → read_file filename ≡ some content
      → decode content
        ≡ some
            (record { schema_version = approval_schema; approvals = earlier ++ approval ∷ later })
      → require_approval crypto read_file decode filename requirement ≡ ok tt
  unfolding require_approval load_approvals
  require_approval-sign_approval file plan_id repository expires_at approval public requirement
        filename content instant earlier later signed paired plan_e repository_e known parsed early
        named found_e decoded_e =
      rw named (rw found_e (rw decoded_e (rw accepted refl)))
    where
      accepted : exists_in (approves crypto requirement) (earlier ++ approval ∷ later) ≡ true
      accepted =
          let (key, holds, size, made, encoded) =
            sign_approval-ok crypto file plan_id repository expires_at signed in
          exists_in-append (approves crypto requirement) earlier approval later (
            rw (sym made) (
              rw (sym plan_e) (
                rw (sym repository_e) (
                  approves-signed_with crypto lawful requirement key expires_at instant size
                    (paired key holds) (rw encoded known) parsed early))))
