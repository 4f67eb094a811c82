-- ===== src/Tests/Shards.antt =====
-- A lock of one package in a shard.
use snailmail.Base.{
  if◌then◌else◌, Bytes, codes, ◌==ᵇ◌, ok, All, sort_by, every, ◌≤◌, ◌≡◌, refl, ◌⊎◌, Option, none,
  some, [], ◌∷◌, ◌++◌,
}
use snailmail.State.Model.{PackageVersion, RepositoryLock, lock_schema}
use snailmail.State.Shards.{
  LockShardEntry, LockRoot, LockShard, compare_entries, index_text, merkle_root, read_sharded_lock,
  max_lock_bytes, lock_shard_schema,
}
use snailmail.State.Shards.Fixed.{
  Collision, IsWritten, is_clean_entry, package_version-read_sharded_lock,
}
use snailmail.State.Shards.Bounds.{Vouched, size_of, read_sharded_lock_lem}

abbrev version : PackageVersion
version = record {
  package_name = codes "tool";
  version = codes "1.0";
  state = codes "active";
  blobs = [];
}

abbrev shard : LockShard
shard = record { package_name = codes "tool"; package_version = version ∷ [] }

-- A digest that is the text itself.
abbrev digest : Bytes → Bytes
digest x = x

abbrev decode : Bytes → Option LockShard
decode _ = some shard

abbrev entry : LockShardEntry
entry = record {
  package_name = codes "tool";
  path = codes "3f/tool.toml";
  sha256 = codes "content";
}

abbrev files : Bytes → Option Bytes
files _ = some (codes "content")

-- The same shard, and another file beside it.
abbrev others : Bytes → Option Bytes
others path = if path ==ᵇ codes "3f/tool.toml" then some (codes "content") else none

abbrev index : Bytes
index = codes "tool" ++ 0 ∷ (codes "3f/tool.toml" ++ 0 ∷ (codes "content" ++ 10 ∷ []))

abbrev root : LockRoot
root = record {
  schema_version = lock_shard_schema;
  repository = codes "apt";
  placement = [];
  merkle_root = index;
  shard = entry ∷ [];
}

abbrev lock : RepositoryLock
lock = record {
  schema_version = lock_schema;
  repository = codes "apt";
  package_version = version ∷ [];
  placement = [];
}

read_files : read_sharded_lock digest decode files 100 root ≡ ok lock
unfolding read_sharded_lock
read_files = refl

read_others :
    read_sharded_lock digest decode others 100 (record root { repository = codes "yum" })
    ≡ ok (record lock { repository = codes "yum" })
unfolding read_sharded_lock
read_others = refl

max_lock_bytes_default : max_lock_bytes (codes "-5") ≡ 134217728
unfolding max_lock_bytes
max_lock_bytes_default = refl

read_sharded_lock_lem_example :
    (merkle_root digest decode files 100 (entry ∷ []) ≡ index)
    × All (Vouched digest decode files 100) (entry ∷ [])
    × (size_of files (entry ∷ []) ≤ 100)
read_sharded_lock_lem_example = read_sharded_lock_lem digest decode files 100 root lock read_files

root_IsWritten : IsWritten (entry ∷ [])
unfolding sort_by every is_clean_entry
root_IsWritten = (refl, refl)

package_version-read_sharded_lock_example :
    (lock.package_version ≡ (record lock { repository = codes "yum" }).package_version)
    ⊎ Collision digest decode 100
        (index_text (sort_by compare_entries root.shard))
        files
        (index_text (sort_by compare_entries root.shard))
        others
package_version-read_sharded_lock_example =
    package_version-read_sharded_lock digest decode 100 files others root
      (record root { repository = codes "yum" }) lock (record lock { repository = codes "yum" })
      root_IsWritten root_IsWritten refl read_files read_others
