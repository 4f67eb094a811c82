-- ===== src/Engine.antt =====
-- engine/: the operations of the command line on a workspace.
pub mod Duration
pub mod Host
pub mod Rotation
pub mod Transition
pub mod Rollout
pub mod Apply
