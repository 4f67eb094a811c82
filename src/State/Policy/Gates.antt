-- ===== src/State/Policy/Gates.antt =====
-- The gates that a manifest may configure.
use snailmail.Base.{
  if◌then◌else◌, Bool-cases, length, Bytes, codes, ◌==ᵇ◌, ==ᵇ_iff, and_split, left_of, refuted,
  self_eq, compare_bytes, IsPreorder-compare_bytes, mem, distinct, All, Ordering, lt, eq, gt, ◌≡◌,
  refl, sym, ap, ◌∙◌, ◌≢◌, ◌⊎◌, inl, inr, Bool, true, false, not, ◌&&◌, ◌||◌, Option, none, some,
  List, [], ◌∷◌, arith,
}
use snailmail.State.Policy.{
  valid_gate, has_key_size, is_lt, approval_keys_ok, is_nonempty, valid_gate_configuration,
}

has_key_size_lem :
    (o : Option Bytes) → has_key_size o ≡ true → (key : Bytes) × (o ≡ some key) × (length key ≡ 32)
has_key_size_lem none h = cc
has_key_size_lem (some key) h = (key, refl, ground arith)

is_lt_lem : (o : Ordering) → is_lt o ≡ true → o ≡ lt
is_lt_lem lt h = refl
is_lt_lem eq h = cc
is_lt_lem gt h = cc

-- Above every key of a list.
abbrev Below : Bytes → List Bytes → Type 0
Below x ys = All (λ y. compare_bytes x y ≡ lt) ys

irreflexive : (x y : Bytes) → compare_bytes x y ≡ lt → (y ==ᵇ x) ≡ false
irreflexive x y h = elim (Bool-cases (y ==ᵇ x)) [
  | inl same ↦ clash (ap (compare_bytes x) (sym ((==ᵇ_iff y x).0 same)))
  | inr other ↦ other
]
  where
    clash : compare_bytes x x ≡ compare_bytes x y → (y ==ᵇ x) ≡ false
    clash e = let eq_lt : eq ≡ lt = sym (self_eq IsPreorder-compare_bytes x) ∙ e ∙ h in cc

Below-mem : (x : Bytes) (ys : List Bytes) → Below x ys → mem x ys ≡ false
unfolding mem
Below-mem x [] h = refl
Below-mem x (y ∷ ys) (first, rest) = rw (irreflexive x y first) (Below-mem x ys rest)

Below-trans : (x y : Bytes) (zs : List Bytes) → compare_bytes x y ≡ lt → Below y zs → Below x zs
Below-trans x y [] h below = tt
Below-trans x y (z ∷ zs) h (first, rest) =
    (IsPreorder-compare_bytes.lt_trans x y z h first, Below-trans x y zs h rest)

chosen_then : (b x y : Bool) → b ≡ true → (if b then x else y) ≡ true → x ≡ true
chosen_then true x y p h = h
chosen_then false x y p h = cc

chosen_else : (b x y : Bool) → b ≡ false → (if b then x else y) ≡ true → y ≡ true
chosen_else true x y p h = cc
chosen_else false x y p h = h

empty_keys : (keys : List Bytes) → not (is_nonempty keys) ≡ true → keys ≡ []
empty_keys [] h = refl
empty_keys (k ∷ ks) h = cc

some_keys : (keys : List Bytes) → is_nonempty keys ≡ true → keys ≢ []
some_keys [] h = cc
some_keys (k ∷ ks) h = λ e. let bad : true ≡ false = ap is_nonempty e in cc

named_forge :
    (a : Bool) (forge_repository : Bytes)
    → a ≡ true
    → not (a && forge_repository ==ᵇ []) ≡ true
    → forge_repository ≢ []
named_forge true s p h = λ e. refuted _ h ((==ᵇ_iff s []).1 e)
named_forge false s p h = cc

module _ (decode_base64 : Bytes → Option Bytes) where
  -- An Ed25519 public key.
  abbrev pub PublicKey : Bytes → Type 0
  PublicKey encoded = (key : Bytes) × (decode_base64 encoded ≡ some key) × (length key ≡ 32)

  public_keys :
      (previous : Bytes) (keys : List Bytes)
      → approval_keys_ok decode_base64 previous keys ≡ true
      → All PublicKey keys
  unfolding approval_keys_ok
  public_keys previous [] h = tt
  public_keys previous (k ∷ ks) h =
      let (m, rest) = and_split _ _ h in
      let (sized, _) = and_split _ _ m in
      (has_key_size_lem (decode_base64 k) sized, public_keys k ks rest)

  named :
      (k : Bytes)
      → decode_base64 [] ≡ some []
      → has_key_size (decode_base64 k) ≡ true
      → (k ==ᵇ []) ≡ false
  unfolding ◌==ᵇ◌
  named [] empty h = let bad : false ≡ true = ap has_key_size (sym empty) ∙ h in cc
  named (c ∷ s) empty h = refl

  ascending :
      (previous : Bytes) (keys : List Bytes)
      → decode_base64 [] ≡ some []
      → (previous ==ᵇ []) ≡ false
      → approval_keys_ok decode_base64 previous keys ≡ true
      → Below previous keys × (distinct keys ≡ true)
  unfolding approval_keys_ok distinct
  ascending previous [] empty p h = (tt, refl)
  ascending previous (k ∷ ks) empty p h =
      let (m, rest) = and_split _ _ h in
      let (sized, above) = and_split _ _ m in
      let (below, rest_distinct) = ascending k ks empty (named k empty sized) rest in
      let lower : compare_bytes previous k ≡ lt = is_lt_lem _ (after_name _ _ p above) in
      ((lower, Below-trans previous k ks lower below), rw (Below-mem k ks below) rest_distinct)
    where
      after_name : (a b : Bool) → a ≡ false → (a || b) ≡ true → b ≡ true
      after_name true b e g = cc
      after_name false b e g = g

  first_distinct :
      (keys : List Bytes)
      → decode_base64 [] ≡ some []
      → approval_keys_ok decode_base64 [] keys ≡ true
      → distinct keys ≡ true
  unfolding approval_keys_ok distinct
  first_distinct [] empty h = refl
  first_distinct (k ∷ ks) empty h =
      let (m, rest) = and_split _ _ h in
      let (sized, _) = and_split _ _ m in
      let (below, rest_distinct) = ascending k ks empty (named k empty sized) rest in
      rw (Below-mem k ks below) rest_distinct

  -- Where base64 decodes the empty text to itself, a gate configuration that is accepted is `auto`
  -- without approval keys, or `pr` with a forge repository and without approval keys, or `approval`
  -- with at least one approval key, all distinct, each of which decodes to 32 bytes.
  pub valid_gate_configuration_lem :
      (policy : Bytes) (keys : List Bytes) (forge_repository : Bytes)
      → decode_base64 [] ≡ some []
      → valid_gate_configuration decode_base64 policy keys forge_repository ≡ true
      → ((policy ≡ codes "auto") × (keys ≡ []))
        ⊎ (((policy ≡ codes "pr") × (forge_repository ≢ []) × (keys ≡ []))
            ⊎ ((policy ≡ codes "approval")
                × (keys ≢ [])
                × All PublicKey keys
                × (distinct keys ≡ true)))
  unfolding valid_gate_configuration valid_gate
  valid_gate_configuration_lem policy keys forge_repository empty h =
      let (m, configured) = and_split _ _ h in
      let (known, forged) = and_split _ _ m in
      elim (Bool-cases (policy ==ᵇ codes "approval")) [
        | inl approval ↦
            let (some_key, sorted) = and_split _ _ (chosen_then _ _ _ approval configured) in
            inr (
              inr (
                (==ᵇ_iff policy (codes "approval")).0 approval,
                some_keys keys some_key,
                public_keys [] keys sorted,
                first_distinct keys empty sorted,
              ))
        | inr not_approval ↦
            let no_keys = empty_keys keys (chosen_else _ _ _ not_approval configured) in
            elim (Bool-cases (policy ==ᵇ codes "pr")) [
              | inl review ↦ inr (
                  inl (
                    (==ᵇ_iff policy (codes "pr")).0 review,
                    named_forge _ forge_repository review forged,
                    no_keys,
                  ))
              | inr not_review ↦ inl (
                (==ᵇ_iff policy (codes "auto")).0 (left_of _ _ _ known not_review not_approval),
                no_keys,
              )
            ]
      ]
