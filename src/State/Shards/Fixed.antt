-- ===== src/State/Shards/Fixed.antt =====
-- Two sharded locks with one Merkle root.
use snailmail.Base.{
  leb, Bool-cases, Bytes, ◌==ᵇ◌, ==ᵇ_iff, is_free, cut, of_option, require, >>=-eq-ok,
  require-eq-ok, ok_injective, of_option-eq-ok, ok, sort_by, every, ℕ, ◌+◌, ◌≡◌, refl, sym, ap, ◌∙◌,
  ◌≢◌, ◌⊎◌, inl, inr, Bool, true, false, not, ◌&&◌, Option, none, some, List, [], ◌∷◌, ◌++◌, arith,
}
use snailmail.State.Model.{PackageVersion, RepositoryLock}
use snailmail.State.Shards.{
  LockShardEntry, LockRoot, LockShard, compare_entries, index_text, leaves, merkle_root, read_shard,
  read_shards, read_sharded_lock,
}

-- The fields of an entry hold none of the bytes that end them.
unfoldable pub is_clean_entry : LockShardEntry → Bool
unfolding is_free
is_clean_entry e = is_free 0 e.package_name && is_free 0 e.path && is_free 10 e.sha256

-- An index as it is written: sorted, with clean fields.
abbrev pub IsWritten : List LockShardEntry → Type 0
IsWritten es = (sort_by compare_entries es ≡ es) × (every is_clean_entry es ≡ true)

append_cons : (xs : Bytes) (c : ℕ) (t : Bytes) → [] ≡ xs ++ c ∷ t → ⊥
append_cons [] c t e = cc
append_cons (x ∷ xs) c t e = cc

index_text_injective :
    (xs ys : List LockShardEntry)
    → every is_clean_entry xs ≡ true
    → every is_clean_entry ys ≡ true
    → index_text xs ≡ index_text ys
    → xs ≡ ys
unfolding index_text every is_clean_entry
index_text_injective [] [] p q e = refl
index_text_injective [] (y ∷ ys) p q e = elim (append_cons y.package_name _ _ e) [ ]
index_text_injective (x ∷ xs) [] p q e = elim (append_cons x.package_name _ _ (sym e)) [ ]
index_text_injective (x ∷ xs) (y ∷ ys) p q e =
    let (name, more) = cut 0 x.package_name y.package_name (ground arith) (ground arith) e in
    let (path, rest) = cut 0 x.path y.path (ground arith) (ground arith) more in
    let (digest, others) = cut 10 x.sha256 y.sha256 (ground arith) (ground arith) rest in
    let same = index_text_injective xs ys (ground arith) (ground arith) others in
    λ i. record { package_name = name i; path = path i; sha256 = digest i } ∷ same i

-- Both hold, or there is the exception.
both {ℓ κ} : {A B D : Type ℓ} {C : Type κ} → (A → B → D) → A ⊎ C → B ⊎ C → D ⊎ C
both f (inl a) (inl b) = inl (f a b)
both f (inl a) (inr c) = inr c
both f (inr c) b = inr c

false_not_true : false ≡ true → ⊥
false_not_true e = cc

abbrev versions_of : Option LockShard → List PackageVersion
versions_of none = []
versions_of (some shard) = shard.package_version

module _ (sha256 : Bytes → Bytes) (decode : Bytes → Option LockShard) (limit : ℕ) where
  -- What a read takes in: the text of its index, and the files of its directory.
  abbrev pub IsRead : Bytes → (Bytes → Option Bytes) → Bytes → Type 0
  IsRead index files x = (x ≡ index) ⊎ ((path : Bytes) × (files path ≡ some x))

  -- Two texts of two reads that differ and have one digest.
  abbrev pub Collision : Bytes → (Bytes → Option Bytes) → Bytes → (Bytes → Option Bytes) → Type 0
  Collision index files index2 others =
      (x : Bytes) × (y : Bytes) × IsRead index files x
      × IsRead index2 others y
      × (x ≢ y)
      × (sha256 x ≡ sha256 y)

  same_text :
      (index index2 : Bytes) (files others : Bytes → Option Bytes) (x y : Bytes)
      → IsRead index files x
      → IsRead index2 others y
      → sha256 x ≡ sha256 y
      → (x ≡ y) ⊎ Collision index files index2 others
  same_text index index2 files others x y p q e = elim (Bool-cases (x ==ᵇ y)) [
    | inl same ↦ inl ((==ᵇ_iff x y).0 same)
    | inr other ↦ inr (x, y, p, q, (λ same. false_not_true (sym other ∙ (==ᵇ_iff x y).1 same)), e)
  ]

  read_shard_lem :
      (files : Bytes → Option Bytes) (entry : LockShardEntry) (result : List PackageVersion × ℕ)
      → read_shard sha256 decode files limit entry ≡ ok result
      → (content : Bytes) × (shard : LockShard) × (files entry.path ≡ some content)
        × (sha256 content ≡ entry.sha256)
        × (decode content ≡ some shard)
        × (shard.package_version ≡ result.0)
  unfolding read_shard
  read_shard_lem files entry result h =
      let (content, file, opened) = >>=-eq-ok (of_option (files entry.path)) _ h in
      let (_, digest, checked) = >>=-eq-ok (require (sha256 content ==ᵇ entry.sha256)) _ opened in
      let (shard, decoded, named) = >>=-eq-ok (of_option (decode content)) _ checked in
      let (_, _, returned) =
        >>=-eq-ok (require (shard.package_name ==ᵇ entry.package_name)) _ named in
      (
        content,
        shard,
        of_option-eq-ok (files entry.path) file,
        (==ᵇ_iff (sha256 content) entry.sha256).0 (require-eq-ok _ digest),
        of_option-eq-ok (decode content) decoded,
        ap (λ r. r.0) (ok_injective returned),
      )

  same_shard :
      (index index2 : Bytes) (files others : Bytes → Option Bytes) (entry : LockShardEntry)
      (first other : List PackageVersion × ℕ)
      → read_shard sha256 decode files limit entry ≡ ok first
      → read_shard sha256 decode others limit entry ≡ ok other
      → (first.0 ≡ other.0) ⊎ Collision index files index2 others
  same_shard index index2 files others entry first other h k =
      let (content, shard, file, digest, decoded, held) = read_shard_lem files entry first h in
      let (content2, shard2, file2, digest2, decoded2, held2) =
        read_shard_lem others entry other k in
      elim (same_text index index2 files others content content2 (inr (entry.path, file))
        (inr (entry.path, file2)) (digest ∙ sym digest2)) [
          | inl contents ↦
              let shards : some shard ≡ some shard2 = sym decoded ∙ ap decode contents ∙ decoded2 in
              inl (sym held ∙ ap versions_of shards ∙ held2)
          | inr collision ↦ inr collision
        ]

  read_shards_lem :
      (index index2 : Bytes) (files others : Bytes → Option Bytes) (entries : List LockShardEntry)
      (m n : ℕ) (xs ys : List PackageVersion)
      → read_shards sha256 decode files limit entries m ≡ ok xs
      → read_shards sha256 decode others limit entries n ≡ ok ys
      → (xs ≡ ys) ⊎ Collision index files index2 others
  unfolding read_shards
  read_shards_lem index index2 files others [] m n xs ys h k =
      inl (sym (ok_injective h) ∙ ok_injective k)
  read_shards_lem index index2 files others (entry ∷ entries) m n xs ys h k =
      let (first, read, more) = >>=-eq-ok (read_shard sha256 decode files limit entry) _ h in
      let (other, read2, more2) = >>=-eq-ok (read_shard sha256 decode others limit entry) _ k in
      let (_, _, going) = >>=-eq-ok (require (leb (m + first.1) limit)) _ more in
      let (_, _, going2) = >>=-eq-ok (require (leb (n + other.1) limit)) _ more2 in
      let (rest, next, returned) =
        >>=-eq-ok (read_shards sha256 decode files limit entries (m + first.1)) _ going in
      let (rest2, next2, returned2) =
        >>=-eq-ok (read_shards sha256 decode others limit entries (n + other.1)) _ going2 in
      both
        (λ (heads : first.0 ≡ other.0) (tails : rest ≡ rest2).
          sym (ok_injective returned)
          ∙ ap (λ v. v ++ rest) heads
          ∙ ap (λ v. other.0 ++ v) tails
          ∙ ok_injective returned2)
        (same_shard index index2 files others entry first other read read2)
        (read_shards_lem index index2 files others entries _ _ rest rest2 next next2)

  same_lock :
      (files : Bytes → Option Bytes) (root : LockRoot) (lock : RepositoryLock)
      → read_sharded_lock sha256 decode files limit root ≡ ok lock
      → (sha256 (index_text (sort_by compare_entries root.shard)) ≡ root.merkle_root)
        × (read_shards sha256 decode files limit root.shard 0 ≡ ok lock.package_version)
  unfolding read_sharded_lock merkle_root
  same_lock files root lock h =
      let (_, merkle, checked) =
        >>=-eq-ok
          (require (sha256 (index_text (sort_by compare_entries root.shard)) ==ᵇ root.merkle_root))
          _ h in
      let (_, _, kept) = >>=-eq-ok (require (every (λ e. not (leaves e)) root.shard)) _ checked in
      let (versions, read, returned) =
        >>=-eq-ok (read_shards sha256 decode files limit root.shard 0) _ kept in
      (
        (==ᵇ_iff _ root.merkle_root).0 (require-eq-ok _ merkle),
        read ∙ ap ok (ap (λ l. l.package_version) (ok_injective returned)),
      )

  -- Two locks that are read under the same Merkle root have the same package versions, whatever the
  -- files under the two directories are, or two texts that differ have one digest, each of them the
  -- text of its index or a file of its directory; both indexes are sorted, as they are written, and
  -- their fields hold no byte that ends them.
  pub package_version-read_sharded_lock :
      (files others : Bytes → Option Bytes) (root root2 : LockRoot) (lock lock2 : RepositoryLock)
      → IsWritten root.shard
      → IsWritten root2.shard
      → root.merkle_root ≡ root2.merkle_root
      → read_sharded_lock sha256 decode files limit root ≡ ok lock
      → read_sharded_lock sha256 decode others limit root2 ≡ ok lock2
      → (lock.package_version ≡ lock2.package_version)
        ⊎ Collision
            (index_text (sort_by compare_entries root.shard))
            files
            (index_text (sort_by compare_entries root2.shard))
            others
  package_version-read_sharded_lock files others root root2 lock lock2 (sorted, clean)
        (sorted2, clean2) same h k =
      let (merkle, read) = same_lock files root lock h in
      let (merkle2, read2) = same_lock others root2 lock2 k in
      elim (same_text _ _ files others _ _ (inl refl) (inl refl) (merkle ∙ same ∙ sym merkle2)) [
        | inl texts ↦
            let shards : root.shard ≡ root2.shard =
              index_text_injective root.shard root2.shard clean clean2
                (ap index_text (sym sorted) ∙ texts ∙ ap index_text sorted2) in
            read_shards_lem _ _ files others root.shard 0 0 _ _ read
              (ap (λ es. read_shards sha256 decode others limit es 0) shards ∙ read2)
        | inr collision ↦ inr collision
      ]
