-- ===== src/Engine/Apply.antt =====
-- engine/workspace.go: applying a reviewed plan, from its authorization to the deployment receipts.
pub mod Run
pub mod Publish
pub mod Workspace
pub mod Rules
pub mod Trace
pub mod Effects
pub mod Sound
pub mod Phases
pub mod Authorized
pub mod DryRun
pub mod Gated
