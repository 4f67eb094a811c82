-- ===== src/State/Shards/Bounds.antt =====
-- What a sharded lock that is read has passed.
use snailmail.Base.{
  leb, length, Bytes, ◌==ᵇ◌, ==ᵇ_iff, of_option, require, >>=-eq-ok, require-eq-ok, ok_injective,
  of_option-eq-ok, ok, All, every, ℕ, ◌+◌, ◌≤◌, ◌≡◌, ap, ◌∙◌, true, false, not, Option, none, some,
  List, [], ◌∷◌, arith,
}
use snailmail.State.Model.{PackageVersion, RepositoryLock}
use snailmail.State.Shards.{
  LockShardEntry, LockRoot, LockShard, has_parent, leaves, merkle_root, read_shard, read_shards,
  read_sharded_lock,
}

abbrev pub file_size : Option Bytes → ℕ
file_size none = 0
file_size (some content) = length content

-- The number of bytes of the files of an index.
unfoldable pub size_of : (Bytes → Option Bytes) → List LockShardEntry → ℕ
size_of files [] = 0
size_of files (e ∷ es) = file_size (files e.path) + size_of files es

module _ (sha256 : Bytes → Bytes) (decode : Bytes → Option LockShard) (files : Bytes → Option Bytes)
    (limit : ℕ) where
  -- The file of an entry stands inside the directory, with the digest and the package of the entry.
  abbrev pub Vouched : LockShardEntry → Type 0
  Vouched e =
      (has_parent e.path ≡ false)
      × ((content : Bytes) × (shard : LockShard) × (files e.path ≡ some content)
          × (sha256 content ≡ e.sha256)
          × (decode content ≡ some shard)
          × (shard.package_name ≡ e.package_name))

  read_shard-Vouched :
      (e : LockShardEntry) (result : List PackageVersion × ℕ)
      → leaves e ≡ false
      → read_shard sha256 decode files limit e ≡ ok result
      → Vouched e × (file_size (files e.path) ≡ result.1)
  unfolding read_shard leaves
  read_shard-Vouched e result inside h =
      let (content, read, opened) = >>=-eq-ok (of_option (files e.path)) _ h in
      let (_, digest, checked) = >>=-eq-ok (require (sha256 content ==ᵇ e.sha256)) _ opened in
      let (shard, decoded, named) = >>=-eq-ok (of_option (decode content)) _ checked in
      let (_, name, returned) =
        >>=-eq-ok (require (shard.package_name ==ᵇ e.package_name)) _ named in
      let found : files e.path ≡ some content = of_option-eq-ok (files e.path) read in
      (
        (
          ground arith,
          (
            content,
            shard,
            found,
            (==ᵇ_iff (sha256 content) e.sha256).0 (require-eq-ok _ digest),
            of_option-eq-ok (decode content) decoded,
            (==ᵇ_iff shard.package_name e.package_name).0 (require-eq-ok _ name),
          ),
        ),
        ap file_size found ∙ ap (λ r. r.1) (ok_injective returned),
      )

  read_shards_bound :
      (entries : List LockShardEntry) (total : ℕ) (versions : List PackageVersion)
      → every (λ e. not (leaves e)) entries ≡ true
      → total ≤ limit
      → read_shards sha256 decode files limit entries total ≡ ok versions
      → All Vouched entries × (total + size_of files entries ≤ limit)
  unfolding read_shards every size_of
  read_shards_bound [] total versions inside fits h = (tt, omega arith)
  read_shards_bound (e ∷ es) total versions inside fits h =
      let (shard, read, more) = >>=-eq-ok (read_shard sha256 decode files limit e) _ h in
      let (_, small, going) = >>=-eq-ok (require (leb (total + shard.1) limit)) _ more in
      let (rest, next, _) =
        >>=-eq-ok (read_shards sha256 decode files limit es (total + shard.1)) _ going in
      let (vouched, size) = read_shard-Vouched e shard (ground arith) read in
      let small_enough : leb (total + shard.1) limit ≡ true = require-eq-ok _ small in
      let (all_vouched, bound) =
        read_shards_bound es (total + shard.1) rest (ground arith) (ground arith) next in
      ((vouched, all_vouched), omega arith)

  -- Where a sharded lock is read, the index has the Merkle root of the lock's root, the files of the
  -- index are together within the limit, and each stands inside the directory with the digest and
  -- the package that its entry names.
  pub read_sharded_lock_lem :
      (root : LockRoot) (lock : RepositoryLock)
      → read_sharded_lock sha256 decode files limit root ≡ ok lock
      → (merkle_root sha256 decode files limit root.shard ≡ root.merkle_root)
        × All Vouched root.shard
        × (size_of files root.shard ≤ limit)
  unfolding read_sharded_lock
  read_sharded_lock_lem root lock h =
      let (_, merkle, checked) =
        >>=-eq-ok (require (merkle_root sha256 decode files limit root.shard ==ᵇ root.merkle_root))
          _ h in
      let (_, kept, going) =
        >>=-eq-ok (require (every (λ e. not (leaves e)) root.shard)) _ checked in
      let (versions, read, _) =
        >>=-eq-ok (read_shards sha256 decode files limit root.shard 0) _ going in
      let (vouched, bound) =
        read_shards_bound root.shard 0 versions (require-eq-ok _ kept) (omega arith) read in
      ((==ᵇ_iff _ root.merkle_root).0 (require-eq-ok _ merkle), vouched, omega arith)
