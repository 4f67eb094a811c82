-- ===== src/Engine/Host.antt =====
-- host/host.go: what the engine and a host say to one another; the host itself is a parameter of
-- Engine/Apply. Of `ClientAccess` only what the engine reads is a field; the rest is opaque.
use snailmail.Base.{Bytes, ◌==ᵇ◌, Bool, ◌&&◌, Option}

pub record ClientAccess : Type 0 where
  pub endpoint : Bytes
  pub rest : Bytes

-- `PublishedRevision`, and `ExpectedRevision`, which has the same fields.
pub record PublishedRevision : Type 0 where
  pub native_revision : Bytes
  pub tree_sha256 : Bytes
  pub plan_id : Bytes
  pub change_id : Bytes
  pub restore_id : Bytes
  pub release_sha256 : Bytes
  pub manifest_sha256 : Bytes
  pub restore_sha256 : Bytes
  pub restore_root_sha256 : Bytes

pub record RestoreRef : Type 0 where
  pub id : Bytes
  pub plan_id : Bytes
  pub change_id : Bytes
  pub failed_tree : Bytes
  pub descriptor_sha256 : Bytes
  pub root_sha256 : Bytes

-- `StagedPublication`, less the fields that a host only reads back.
pub record StagedPublication : Type 0 where
  pub id : Bytes
  pub preview_endpoint : Bytes
  pub access : ClientAccess

pub record CommitResult : Type 0 where
  pub revision : PublishedRevision
  pub canonical_endpoint : Bytes
  pub restore_ref : Option RestoreRef
  pub access : ClientAccess

-- `==` on two revisions
unfoldable pub same_revision : PublishedRevision → PublishedRevision → Bool
unfolding ◌==ᵇ◌
same_revision a b =
    a.native_revision ==ᵇ b.native_revision
    && a.tree_sha256 ==ᵇ b.tree_sha256
    && a.plan_id ==ᵇ b.plan_id
    && a.change_id ==ᵇ b.change_id
    && a.restore_id ==ᵇ b.restore_id
    && a.release_sha256 ==ᵇ b.release_sha256
    && a.manifest_sha256 ==ᵇ b.manifest_sha256
    && a.restore_sha256 ==ᵇ b.restore_sha256
    && a.restore_root_sha256 ==ᵇ b.restore_root_sha256
