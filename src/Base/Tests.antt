-- ===== src/Base/Tests.antt =====
-- Boolean tests, lengths and results.
use Prim.Native.Nat.{ℕ, suc, ◌+◌, compare, Ordering}
use Prim.Native.Char.{code}
use Prim.Native.String.{String}
use mathlib.Core.Path.{◌≡◌, refl}
use mathlib.Core.Logic.{◌⊎◌, ◌↔◌, inl, inr}
use mathlib.Core.Bool.{Bool, true, false, not, ◌&&◌, ◌||◌}
use mathlib.Core.List.{List, [], ◌∷◌, ◌++◌}
use native.Mathlib.Omega.{arith}

abbrev pub ltb : ℕ → ℕ → Bool
ltb a b = elim (compare a b) [ Ordering.lt ↦ true | _ ↦ false ]

abbrev pub leb : ℕ → ℕ → Bool
leb a b = elim (compare a b) [ Ordering.gt ↦ false | _ ↦ true ]

infix 50 ◌==◌
abbrev pub ◌==◌ : ℕ → ℕ → Bool
a == b = elim (compare a b) [ Ordering.eq ↦ true | _ ↦ false ]

infix 1 if◌then◌else◌
abbrev pub if◌then◌else◌ {ℓ} : {A : Type ℓ} → Bool → A → A → A
if true then x else y = x
if false then x else y = y

pub Bool-cases : (b : Bool) → (b ≡ true) ⊎ (b ≡ false)
Bool-cases true = inl refl
Bool-cases false = inr refl

module _ {ℓ} {A : Type ℓ} where
  abbrev pub length : List A → ℕ
  length [] = 0
  length (x ∷ xs) = suc (length xs)

  pub length-append : (xs ys : List A) → length (xs ++ ys) ≡ length xs + length ys
  length-append [] ys = omega arith
  length-append (x ∷ xs) ys = omega (arith, length-append xs ys)

-- A Go string or byte slice.
abbrev pub Bytes : Type 0
Bytes = List ℕ

-- The code points of a literal: its bytes, where the literal is ASCII.
abbrev pub codes : String → Bytes
codes String.[] = []
codes (String.◌∷◌ c s) = code c ∷ codes s

-- `left == right` on strings.
infix 50 ◌==ᵇ◌
unfoldable pub ◌==ᵇ◌ : Bytes → Bytes → Bool
[] ==ᵇ [] = true
(x ∷ xs) ==ᵇ (y ∷ ys) = x == y && xs ==ᵇ ys
_ ==ᵇ _ = false

eq_of_==ᵇ : (xs ys : Bytes) → (xs ==ᵇ ys) ≡ true → xs ≡ ys
unfolding ◌==ᵇ◌
eq_of_==ᵇ [] [] h = refl
eq_of_==ᵇ [] (y ∷ ys) h = cc
eq_of_==ᵇ (x ∷ xs) [] h = cc
eq_of_==ᵇ (x ∷ xs) (y ∷ ys) h = ground (arith, eq_of_==ᵇ xs ys)

pub ==ᵇ_refl : (xs : Bytes) → (xs ==ᵇ xs) ≡ true
unfolding ◌==ᵇ◌
==ᵇ_refl [] = refl
==ᵇ_refl (x ∷ xs) = ground (arith, ==ᵇ_refl xs)

pub ==ᵇ_iff : (xs ys : Bytes) → ((xs ==ᵇ ys) ≡ true) ↔ (xs ≡ ys)
==ᵇ_iff xs ys = (eq_of_==ᵇ xs ys, λ e. rw e (==ᵇ_refl ys))

-- Both parts of a conjunction that holds.
pub and_split : (a b : Bool) → (a && b) ≡ true → (a ≡ true) × (b ≡ true)
and_split true b h = (refl, h)
and_split false b h = cc

pub left_of : (a b c : Bool) → (a || b || c) ≡ true → b ≡ false → c ≡ false → a ≡ true
left_of true b c h p q = refl
left_of false b c h p q = ground arith

pub refuted : (b : Bool) → not b ≡ true → b ≡ true → ⊥
refuted true h k = cc
refuted false h k = cc
