-- ===== src/Tests.antt =====
-- The definitions evaluated on concrete values, and the theorems applied to them.
mod Versions
mod Locks
mod Rotations
mod Gates
mod Applies
mod Shards
mod Hosts
mod Policies
