-- ===== src/State/Policy/Signing.antt =====
-- Accepted signing configurations, and signing states.
use snailmail.Base.{
  if◌then◌else◌, Bool-cases, Bytes, codes, ◌==ᵇ◌, and_split, has_prefix, ◌>>=◌, ok, ◌≡◌, refl, inl,
  inr, Bool, true, false, Option, none, some, List, [], ◌∷◌,
}
use snailmail.Engine.Rotation.{
  SigningRotation, Repository, SigningKey, Keys, SigningState, find_key, fingerprints,
  with_fingerprints, no_signing, rotated_state, signing_state, repository_signing_state,
  deployment_signing_state, repository_deployment_signing_state,
}
use snailmail.State.Urls.{Url}
use snailmail.State.Policy.{
  is_key_of, is_some, signing_algorithm, valid_rotation, valid_keyring, valid_signing,
  valid_repository_signing,
}

abbrev pub Known : Keys → Bytes → Type 0
Known keys name = (key : SigningKey) × (find_key name keys ≡ some key)

state-Known :
    (keys : Keys) (signing : SigningState) (fingerprint_list : List Bytes)
    → Known keys signing.active
    → fingerprints keys signing.trusted ≡ ok fingerprint_list
    → (state : SigningState) × (deployment_signing_state keys signing ≡ ok state)
unfolding deployment_signing_state
state-Known keys signing fingerprint_list (key, found) trusted =
    elim (Bool-cases (signing.active ==ᵇ [])) [
      | inl is ↦ (no_signing, rw is refl)
      | inr other ↦ (
        with_fingerprints key.fingerprint fingerprint_list signing,
        rw other (rw found (rw trusted refl)),
      )
    ]

one_fingerprint :
    (keys : Keys) (a : Bytes)
    → Known keys a
    → (xs : List Bytes) × (fingerprints keys (a ∷ []) ≡ ok xs)
unfolding fingerprints
one_fingerprint keys a (key, found) = (key.fingerprint ∷ [], rw found refl)

two_fingerprints :
    (keys : Keys) (a b : Bytes)
    → Known keys a
    → Known keys b
    → (xs : List Bytes) × (fingerprints keys (a ∷ b ∷ []) ≡ ok xs)
unfolding fingerprints
two_fingerprints keys a b (key, found) (key2, found2) =
    (key.fingerprint ∷ key2.fingerprint ∷ [], rw found (rw found2 refl))

is_some_lem :
    (keys : Keys) (name : Bytes) (o : Option SigningKey)
    → find_key name keys ≡ o
    → is_some o ≡ true
    → Known keys name
is_some_lem keys name none e h = cc
is_some_lem keys name (some key) e h = (key, e)

is_key_of_lem :
    (algorithm : Option Bytes) (o : Option SigningKey)
    → is_key_of algorithm o ≡ true
    → is_some o ≡ true
unfolding is_key_of
is_key_of_lem none o h = cc
is_key_of_lem (some a) none h = cc
is_key_of_lem (some a) (some key) h = refl

rotated-Known :
    (keys : Keys) (base keyring : Bytes) (rotation : Option SigningRotation)
    → Known keys base
    → valid_rotation base keys rotation ≡ true
    → (state : SigningState) × (deployment_signing_state keys (rotated_state base keyring rotation)
        ≡ ok state)
unfolding rotated_state valid_rotation
rotated-Known keys base keyring none known h =
    let (xs, trusted) = one_fingerprint keys base known in state-Known keys _ xs known trusted
rotated-Known keys base keyring (some rotation) known h =
    let (_, there) = and_split _ _ h in
    let successor : Known keys rotation.successor_key =
      is_some_lem keys rotation.successor_key _ refl there in
    let (xs, trusted) = two_fingerprints keys base rotation.successor_key known successor in
    state-Known keys _ xs (chosen (rotation.phase ==ᵇ codes "activated") successor) trusted
  where
    chosen :
        (b : Bool)
        → Known keys rotation.successor_key
        → Known keys (if b then rotation.successor_key else base)
    chosen true successor = successor
    chosen false successor = known

module _ (parse_url : Bytes → Option Url) (clean : Bytes → Bytes) where
  keyring_named :
      (keyring : Bytes) → valid_keyring parse_url clean keyring ≡ true → (keyring ==ᵇ []) ≡ false
  unfolding valid_keyring has_prefix ◌==ᵇ◌
  keyring_named [] h = cc
  keyring_named (c ∷ s) h = refl

  -- The key of a repository with one.
  base-Known :
      (format base keyring : Bytes) (rotation : Option SigningRotation) (keys : Keys)
      → valid_signing parse_url clean format (base ∷ []) keyring rotation keys ≡ true
      → Known keys base × ((keyring ==ᵇ []) ≡ false) × (valid_rotation base keys rotation ≡ true)
  unfolding valid_signing
  base-Known format base keyring rotation keys h =
      let (m1, rotating) = and_split _ _ h in
      let (m2, named) = and_split _ _ m1 in
      let (listed, _) = and_split _ _ m2 in
      (
        is_some_lem keys base _ refl
            (is_key_of_lem (signing_algorithm format) (find_key base keys) listed),
        keyring_named keyring named,
        rotating,
      )

  signing_state_ok :
      (format : Bytes) (names : List Bytes) (keyring : Bytes) (rotation : Option SigningRotation)
      (keys : Keys)
      → valid_signing parse_url clean format names keyring rotation keys ≡ true
      → (state : SigningState) × (signing_state names keyring rotation
            >>= deployment_signing_state keys
          ≡ ok state)
  unfolding valid_signing signing_state deployment_signing_state ◌==ᵇ◌
  signing_state_ok format [] keyring rotation keys h = (no_signing, refl)
  signing_state_ok format (base ∷ []) keyring rotation keys h =
      let (known, named, rotating) = base-Known format base keyring rotation keys h in
      let (state, found) = rotated-Known keys base keyring rotation known rotating in
      (state, rw named found)
  signing_state_ok format (_ ∷ _ ∷ _) keyring rotation keys h = cc

  -- A repository whose signing configuration is accepted has a signing state: its active key and
  -- every key that its clients are to trust are keys of the manifest.
  pub valid_repository_signing_lem :
      (repository : Repository) (keys : Keys)
      → valid_repository_signing parse_url clean repository keys ≡ true
      → (state : SigningState) × (repository_deployment_signing_state repository keys ≡ ok state)
  unfolding valid_repository_signing repository_deployment_signing_state repository_signing_state
  valid_repository_signing_lem repository keys h =
      signing_state_ok repository.format repository.signing_keys repository.signing_keyring
        repository.signing_rotation keys h
