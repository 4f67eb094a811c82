-- ===== src/State/Model.antt =====
-- internal/state/model.go: the locks, ledgers and receipts. An `int` that is only compared with a
-- constant is a number; a size is an integer.
use snailmail.Base.{Bytes, ℤ, ℕ, Option, List, ◌∷◌, ◌++◌}

-- `LockSchema` and `LedgerSchema`
abbrev pub lock_schema : ℕ
lock_schema = 2

abbrev pub ledger_schema : ℕ
ledger_schema = 1

pub record ArtifactOrigin : Type 0 where
  pub kind : Bytes
  pub url : Bytes
  pub provenance : Bytes

pub record LockedBlob : Type 0 where
  pub filename : Bytes
  pub architecture : Bytes
  pub size : ℤ
  pub md5 : Bytes
  pub sha1 : Bytes
  pub sha256 : Bytes
  pub added : Bytes
  pub origin : Option ArtifactOrigin

pub record PackageVersion : Type 0 where
  pub package_name : Bytes
  pub version : Bytes
  pub state : Bytes
  pub blobs : List LockedBlob

pub record Placement : Type 0 where
  pub package_name : Bytes
  pub version : Bytes
  pub track : Bytes
  pub distro : Bytes

pub record RepositoryLock : Type 0 where
  pub schema_version : ℕ
  pub repository : Bytes
  pub package_version : List PackageVersion
  pub placement : List Placement

pub record PublicationRecord : Type 0 where
  pub schema_version : ℕ
  pub plan_id : Bytes
  pub change_id : Bytes
  pub repository : Bytes
  pub package_name : Bytes
  pub version : Bytes
  pub blob_sha256 : List Bytes
  pub tree_sha256 : Bytes
  pub recorded_at : Bytes

-- A key of two strings: `left + "\x00" + right`.
infixr 60 ◌⊕◌
abbrev pub ◌⊕◌ : Bytes → Bytes → Bytes
left ⊕ right = left ++ (0 ∷ right)

-- `packageVersion.Package + "\x00" + packageVersion.Version`
abbrev pub identity : PackageVersion → Bytes
identity p = p.package_name ⊕ p.version
