-- ===== src/Gate.antt =====
-- gate/gate.go: the evidence under which a plan may take effect.
pub mod Approval
pub mod Review
pub mod Evaluate
pub mod Message
pub mod Signed
pub mod Safe
pub mod Landed
