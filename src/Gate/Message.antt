-- ===== src/Gate/Message.antt =====
-- The signed message of an approval, and its fields.
use snailmail.Base.{codes, is_free, cut, ◌≡◌, refl, Bool, true, ◌&&◌, arith}
use snailmail.Gate.Approval.{Approval, approval_message}

unfoldable pub is_clean : Approval → Bool
unfolding is_free
is_clean a = is_free 0 a.plan_id && is_free 0 a.repository && is_free 0 a.approver

-- Two approvals with the same signed message are for the same plan, repository, approver and
-- expiry, where the first three fields of both have no zero byte.
pub approval_message_injective :
    (a b : Approval)
    → is_clean a ≡ true
    → is_clean b ≡ true
    → approval_message a ≡ approval_message b
    → (a.plan_id ≡ b.plan_id)
      × (a.repository ≡ b.repository)
      × (a.approver ≡ b.approver)
      × (a.expires_at ≡ b.expires_at)
unfolding is_clean approval_message
approval_message_injective a b p q e =
    let (_, plan) =
      cut 0 (codes "snailmail-approval/v1") (codes "snailmail-approval/v1") refl refl e in
    let (plan_id, more) = cut 0 a.plan_id b.plan_id (ground arith) (ground arith) plan in
    let (repository, rest) = cut 0 a.repository b.repository (ground arith) (ground arith) more in
    let (approver, expires_at) = cut 0 a.approver b.approver (ground arith) (ground arith) rest in
    (plan_id, repository, approver, expires_at)
