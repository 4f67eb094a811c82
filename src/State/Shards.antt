-- ===== src/State/Shards.antt =====
-- internal/state/lockshard.go and internal/state/locksize.go: a lock kept in one file for each
-- package. SHA-256, the TOML codec and the file system are parameters; `files` holds what stands
-- under the directory of the shards, by relative path. A shard's digest is looked at once, whichever
-- worker reads it, and the errors are taken in the order of the index, as the code does.
pub mod Fixed
pub mod Bounds
use snailmail.Base.{
  leb, length, Bytes, codes, ◌==ᵇ◌, compare_bytes, has_prefix, parse_int, pos, of_option, require,
  Result, ok, sort_by, every, ℕ, suc, ◌+◌, ◌*◌, ◌^◌, Ordering, Bool, false, not, ◌||◌, Option, some,
  List, [], ◌∷◌, ◌++◌, ◌>>=◌, ◌>>◌,
}
use snailmail.State.Model.{PackageVersion, Placement, RepositoryLock, lock_schema}

abbrev pub lock_shard_schema : ℕ
lock_shard_schema = 3

abbrev pub lock_shard_threshold : ℕ
lock_shard_threshold = 2000

pub record LockShardEntry : Type 0 where
  pub package_name : Bytes
  pub path : Bytes
  pub sha256 : Bytes

pub record LockRoot : Type 0 where
  pub schema_version : ℕ
  pub repository : Bytes
  pub placement : List Placement
  pub merkle_root : Bytes
  pub shard : List LockShardEntry

pub record LockShard : Type 0 where
  pub package_name : Bytes
  pub package_version : List PackageVersion

abbrev pub compare_entries : LockShardEntry → LockShardEntry → Ordering
compare_entries a b = compare_bytes a.package_name b.package_name

-- What is digested of an index, one line for an entry.
unfoldable pub index_text : List LockShardEntry → Bytes
index_text [] = []
index_text (e ∷ es) = e.package_name ++ 0 ∷ (e.path ++ 0 ∷ (e.sha256 ++ 10 ∷ index_text es))

-- `strings.Contains(path, "..")`
unfoldable pub has_parent : Bytes → Bool
unfolding has_prefix
has_parent [] = false
has_parent (c ∷ s) = has_prefix (c ∷ s) (codes "..") || has_parent s

-- Whether a path may leave the directory.
unfoldable pub leaves : LockShardEntry → Bool
unfolding has_parent has_prefix
leaves e = has_parent e.path || has_prefix e.path (codes "/")

-- `maxLockBytes`, of the value of its variable in the environment.
unfoldable pub max_lock_bytes : Bytes → ℕ
unfolding parse_int
max_lock_bytes given = elim (parse_int (2 ^ 63) given) [
  | some (pos (suc n)) ↦ suc n
  | _ ↦ 128 * 2 ^ 20
]

module _ (sha256 : Bytes → Bytes) (decode : Bytes → Option LockShard) (files : Bytes → Option Bytes)
    (limit : ℕ) where
  unfoldable pub merkle_root : List LockShardEntry → Bytes
  unfolding index_text sort_by
  merkle_root entries = sha256 (index_text (sort_by compare_entries entries))

  -- One shard: its package versions and the size of its file.
  unfoldable pub read_shard : LockShardEntry → Result (List PackageVersion × ℕ)
  unfolding ◌==ᵇ◌
  read_shard entry = do
    content ← of_option (files entry.path)
    require (sha256 content ==ᵇ entry.sha256)
    shard ← of_option (decode content)
    require (shard.package_name ==ᵇ entry.package_name)
    ok (shard.package_version, length content)

  -- The shards in the order of the index, `total` bytes being read before.
  unfoldable pub read_shards : List LockShardEntry → ℕ → Result (List PackageVersion)
  unfolding read_shard
  read_shards [] total = ok []
  read_shards (e ∷ es) total = do
    shard ← read_shard e
    require (leb (total + shard.1) limit)
    rest ← read_shards es (total + shard.1)
    ok (shard.0 ++ rest)

  unfoldable pub read_sharded_lock : LockRoot → Result RepositoryLock
  unfolding merkle_root leaves read_shards every
  read_sharded_lock root = do
    require (merkle_root root.shard ==ᵇ root.merkle_root)
    require (every (λ e. not (leaves e)) root.shard)
    versions ← read_shards root.shard 0
    ok (record {
      schema_version = lock_schema;
      repository = root.repository;
      package_version = versions;
      placement = root.placement;
    })
