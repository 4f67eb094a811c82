-- ===== src/State/Placements/Keys.antt =====
-- The keys of placements, joined with NUL.
use snailmail.Base.{
  ◌==◌, if◌then◌else◌, Bool-cases, Bytes, ◌==ᵇ◌, ==ᵇ_iff, is_digit, is_alpha, contains, all, mem, ℕ,
  zero, suc, ◌+◌, ◌≡◌, refl, sym, ap, ◌∙◌, ◌↔◌, inl, inr, Bool, true, not, List, [], ◌∷◌, map,
  arith,
}
use snailmail.State.Model.{PackageVersion, Placement, ◌⊕◌, identity}
use snailmail.State.Lock.{placement_key}
use snailmail.State.Placements.{
  is_placement_coordinate, package_version_exists, same_placement, has_placement,
  is_coordinate_byte,
}

-- No byte is NUL, which the keys put between their parts.
abbrev pub plain : Bytes → Bool
plain s = not (contains (λ c. c == 0) s)

-- The NUL bytes of a string.
unfoldable pub nuls : Bytes → ℕ
nuls [] = zero
nuls (c ∷ s) = let rest = nuls s in if c == 0 then suc rest else rest

nuls-⊕ : (s t : Bytes) → nuls (s ⊕ t) ≡ suc (nuls s + nuls t)
unfolding nuls
nuls-⊕ [] t = ground arith
nuls-⊕ (c ∷ s) t = ground (arith, nuls-⊕ s t)

pub nuls-plain : (s : Bytes) → plain s ≡ true → nuls s ≡ 0
unfolding nuls contains
nuls-plain [] h = refl
nuls-plain (c ∷ s) h = ground (arith, nuls-plain s)

⊕_injective : (a b s t : Bytes) → nuls a ≡ 0 → nuls b ≡ 0 → a ⊕ s ≡ b ⊕ t → (a ≡ b) × (s ≡ t)
unfolding nuls
⊕_injective [] [] s t p q h = ground arith
⊕_injective [] (d ∷ b) s t p q h = absurd (ground arith)
⊕_injective (c ∷ a) [] s t p q h = absurd (ground arith)
⊕_injective (c ∷ a) (d ∷ b) s t p q h = ground (arith, ⊕_injective a b s t)

-- Every part of a placement's key is free of NUL.
unfoldable pub Plain : Placement → Type 0
Plain p =
    (nuls p.package_name ≡ 0) × ((nuls p.version ≡ 0) × ((nuls p.track ≡ 0) × (nuls p.distro ≡ 0)))

nuls-placement_key :
    (p : Placement)
    → nuls (placement_key p)
      ≡ 3 + (nuls p.package_name + nuls p.version + nuls p.track + nuls p.distro)
unfolding placement_key
nuls-placement_key p =
    let a = p.package_name in
    let b = p.version in
    let c = p.track in
    let d = p.distro in omega (arith, nuls-⊕ a (b ⊕ c ⊕ d), nuls-⊕ b (c ⊕ d), nuls-⊕ c d)

key_of_parts :
    (p q : Placement)
    → q.package_name ≡ p.package_name
    → q.version ≡ p.version
    → q.track ≡ p.track
    → q.distro ≡ p.distro
    → placement_key q ≡ placement_key p
unfolding placement_key
key_of_parts p q a b c d = rw (a, b, c, d) refl

same_placement_iff :
    (p q : Placement)
    → same_placement q p ≡ true
      ↔ (q.package_name ≡ p.package_name)
        × ((q.version ≡ p.version) × ((q.track ≡ p.track) × (q.distro ≡ p.distro)))
same_placement_iff p q = ground (
  arith,
  ==ᵇ_iff q.package_name p.package_name,
  ==ᵇ_iff q.version p.version,
  ==ᵇ_iff q.track p.track,
  ==ᵇ_iff q.distro p.distro,
)

same_placement-key :
    (p q : Placement) → Plain p → same_placement q p ≡ (placement_key q ==ᵇ placement_key p)
unfolding Plain placement_key
same_placement-key p q (a, (b, (c, d))) = elim (Bool-cases (placement_key q ==ᵇ placement_key p)) [
  | inl equal ↦
      let keys = (==ᵇ_iff (placement_key q) (placement_key p)).0 equal in
      let total = ap nuls keys ∙ nuls-placement_key p in
      let zeros = nuls-placement_key q in
      let (e1, h1) = ⊕_injective q.package_name p.package_name _ _ (omega arith) a keys in
      let (e2, h2) = ⊕_injective q.version p.version _ _ (omega arith) b h1 in
      let (e3, e4) = ⊕_injective q.track p.track _ _ (omega arith) c h2 in
      (same_placement_iff p q).1 (e1, (e2, (e3, e4))) ∙ sym equal
  | inr other ↦ elim (Bool-cases (same_placement q p)) [
    | inl same ↦
        let (a', (b', (c', d'))) = (same_placement_iff p q).0 same in
        let equal =
          (==ᵇ_iff (placement_key q) (placement_key p)).1 (key_of_parts p q a' b' c' d') in
        absurd (ground arith)
    | inr differ ↦ differ ∙ sym other
  ]
]

pub has_placement-mem :
    (p : Placement) (qs : List Placement)
    → Plain p
    → has_placement p qs ≡ mem (placement_key p) (map placement_key qs)
unfolding has_placement mem
has_placement-mem p [] h = refl
has_placement-mem p (q ∷ qs) h = rw (same_placement-key p q h, has_placement-mem p qs h) refl

nuls-all : (s : Bytes) → all is_coordinate_byte s ≡ true → nuls s ≡ 0
unfolding all nuls is_coordinate_byte is_digit is_alpha
nuls-all [] h = refl
nuls-all (c ∷ s) h = ground (arith, nuls-all s)

pub nuls-coordinate : (s : Bytes) → is_placement_coordinate s ≡ true → nuls s ≡ 0
unfolding is_placement_coordinate is_digit is_alpha nuls
nuls-coordinate [] h = refl
nuls-coordinate (c ∷ s) h = ground (arith, nuls-all s)

identity_of_parts :
    (v : PackageVersion) (package_name version : Bytes)
    → v.package_name ≡ package_name
    → v.version ≡ version
    → identity v ≡ package_name ⊕ version
identity_of_parts v package_name version a b = rw (a, b) refl

pub package_version_exists-mem :
    (package_name version : Bytes) (vs : List PackageVersion)
    → package_version_exists package_name version vs ≡ true
    → mem (package_name ⊕ version) (map identity vs) ≡ true
unfolding package_version_exists mem
package_version_exists-mem package_name version [] h = h
package_version_exists-mem package_name version (v ∷ vs) h = ground (
  arith,
  package_version_exists-mem package_name version vs,
  ==ᵇ_iff v.package_name package_name,
  ==ᵇ_iff v.version version,
  ==ᵇ_iff (identity v) (package_name ⊕ version),
  identity_of_parts v package_name version,
)
