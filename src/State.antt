-- ===== src/State.antt =====
-- internal/state: the records of a workspace and the operations on them.
pub mod Model
pub mod Ledger
pub mod Shards
pub mod Names
pub mod Urls
pub mod Hosts
pub mod Policy
pub mod Lock
pub mod Canonical
pub mod Placements
pub mod Prune
pub mod Blobs
pub mod History
