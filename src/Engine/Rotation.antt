-- ===== src/Engine/Rotation.antt =====
-- engine/signing.go and engine/rotation.go: which keys sign a repository, which keys its clients
-- trust, and the step of a key rotation. Reading the manifest, the deployment record and the trust
-- time from git are arguments. Instants are nanoseconds, and `time.Parse` is a parameter.
pub mod Safe
use snailmail.Base.{
  ◌==◌, if◌then◌else◌, Bytes, codes, ◌==ᵇ◌, of_option, require, ◌>>=◌, Result, ok, err,
  equal_strings, ℕ, zero, ◌*◌, Bool, true, not, ◌&&◌, ◌||◌, Option, none, some, List, [], ◌∷◌, ◌>>◌,
}
use snailmail.Engine.Duration.{hour, duration_of_seconds, add_durations, reaches}

pub record SigningRotation : Type 0 where
  pub successor_key : Bytes
  pub phase : Bytes
  pub minimum_refresh_seconds : ℕ

-- The fields of `state.Repository` that signing reads.
pub record Repository : Type 0 where
  pub format : Bytes
  pub signing_keys : List Bytes
  pub signing_keyring : Bytes
  pub signing_rotation : Option SigningRotation

pub record SigningKey : Type 0 where
  pub algorithm : Bytes
  pub fingerprint : Bytes
  pub created_at : Bytes
  pub expires_at : Bytes

-- The manifest's map of keys; the names of a map are distinct.
abbrev pub Keys : Type 0
Keys = List (Bytes × SigningKey)

unfoldable pub find_key : Bytes → Keys → Option SigningKey
unfolding ◌==ᵇ◌
find_key name [] = none
find_key name ((n, key) ∷ rest) = if n ==ᵇ name then some key else find_key name rest

-- `state.DeploymentRecord`, less its schema version.
pub record DeploymentRecord : Type 0 where
  pub repository : Bytes
  pub plan_id : Bytes
  pub change_id : Bytes
  pub deployed_at : Bytes
  pub native_revision : Bytes
  pub tree_sha256 : Bytes
  pub manifest_sha256 : Bytes
  pub active_signing_fingerprint : Bytes
  pub trusted_signing_fingerprints : List Bytes
  pub signing_rotation_phase : Bytes
  pub signing_keyring_path : Bytes
  pub signing_minimum_refresh_seconds : ℕ
  pub trust_since : Bytes

-- The results of `repositorySigningState`, and with fingerprints in place of names
-- `deploymentSigningState`.
pub record SigningState : Type 0 where
  pub active : Bytes
  pub trusted : List Bytes
  pub keyring : Bytes
  pub phase : Bytes
  pub minimum_refresh : ℕ

abbrev pub no_signing : SigningState
no_signing = record { active = []; trusted = []; keyring = []; phase = []; minimum_refresh = zero }

unfoldable pub rotated_state : Bytes → Bytes → Option SigningRotation → SigningState
unfolding ◌==ᵇ◌
rotated_state base keyring none = record {
  active = base;
  trusted = base ∷ [];
  keyring = keyring;
  phase = [];
  minimum_refresh = zero;
}
rotated_state base keyring (some rotation) = record {
  active = if rotation.phase ==ᵇ codes "activated" then rotation.successor_key else base;
  trusted = base ∷ rotation.successor_key ∷ [];
  keyring = keyring;
  phase = rotation.phase;
  minimum_refresh = rotation.minimum_refresh_seconds;
}

unfoldable pub signing_state : List Bytes → Bytes → Option SigningRotation → Result SigningState
unfolding rotated_state ◌==ᵇ◌
signing_state [] keyring rotation = ok no_signing
signing_state (base ∷ []) keyring rotation =
    if keyring ==ᵇ [] then err else ok (rotated_state base keyring rotation)
signing_state (_ ∷ _ ∷ _) keyring rotation = err

unfoldable pub repository_signing_state : Repository → Result SigningState
unfolding signing_state
repository_signing_state repository =
    signing_state repository.signing_keys repository.signing_keyring repository.signing_rotation

-- The loop on the names of the trusted keys.
unfoldable pub fingerprints : Keys → List Bytes → Result (List Bytes)
unfolding find_key
fingerprints keys [] = ok []
fingerprints keys (name ∷ names) = do
  key ← of_option (find_key name keys)
  rest ← fingerprints keys names
  ok (key.fingerprint ∷ rest)

pub with_fingerprints : Bytes → List Bytes → SigningState → SigningState
with_fingerprints active trusted signing = record {
  active = active;
  trusted = trusted;
  keyring = signing.keyring;
  phase = signing.phase;
  minimum_refresh = signing.minimum_refresh;
}

unfoldable pub deployment_signing_state : Keys → SigningState → Result SigningState
unfolding find_key fingerprints ◌==ᵇ◌ with_fingerprints
deployment_signing_state keys signing =
    let known = (do
      active ← of_option (find_key signing.active keys)
      trusted ← fingerprints keys signing.trusted
      ok (with_fingerprints active.fingerprint trusted signing)) in
    if signing.active ==ᵇ [] then ok no_signing else known

-- `repositoryDeploymentSigningState`
unfoldable pub repository_deployment_signing_state : Repository → Keys → Result SigningState
unfolding repository_signing_state deployment_signing_state
repository_deployment_signing_state repository keys =
    repository_signing_state repository >>= deployment_signing_state keys

unfoldable pub deployment_signing_matches : DeploymentRecord → SigningState → Bool
unfolding ◌==ᵇ◌ equal_strings
deployment_signing_matches deployment signing =
    deployment.active_signing_fingerprint ==ᵇ signing.active
    && equal_strings deployment.trusted_signing_fingerprints signing.trusted
    && deployment.signing_rotation_phase ==ᵇ signing.phase
    && deployment.signing_keyring_path ==ᵇ signing.keyring
    && deployment.signing_minimum_refresh_seconds == signing.minimum_refresh
    && (signing.active ==ᵇ [] || not (deployment.trust_since ==ᵇ []))

module _ (parse_time : Bytes → Option ℕ) where
  -- When a key of the map expires; an absent key has the empty time.
  pub expires : Bytes → Keys → Result ℕ
  unfolding find_key
  expires name keys = elim (find_key name keys) [
    | none ↦ of_option (parse_time [])
    | some key ↦ of_option (parse_time key.expires_at)
  ]

  -- `validateRotationAdvanceValidity`
  pub validate_advance : Bytes → SigningRotation → Keys → ℕ → Result (Unit {0})
  unfolding expires reaches duration_of_seconds add_durations ◌==ᵇ◌
  validate_advance base rotation keys now = do
    base_expires ← expires base keys
    successor_expires ← expires rotation.successor_key keys
    require (
        if rotation.phase ==ᵇ codes "introducing"
        then reaches now (2 * hour) base_expires
          && reaches now
              (add_durations (duration_of_seconds rotation.minimum_refresh_seconds) (2 * hour))
              successor_expires
        else if rotation.phase ==ᵇ codes "activated"
        then reaches now (2 * hour) successor_expires
        else true)

with_phase : SigningRotation → Bytes → SigningRotation
with_phase rotation phase = record {
  successor_key = rotation.successor_key;
  phase = phase;
  minimum_refresh_seconds = rotation.minimum_refresh_seconds;
}

-- The switch of `advanceKeyRotation`.
pub next_phase : Bytes → Repository → SigningRotation → Result Repository
unfolding with_phase ◌==ᵇ◌
next_phase base repository rotation =
    if rotation.phase ==ᵇ codes "introducing"
    then ok record {
      format = repository.format;
      signing_keys = repository.signing_keys;
      signing_keyring = repository.signing_keyring;
      signing_rotation = some (with_phase rotation (codes "activated"));
    }
    else if rotation.phase ==ᵇ codes "activated"
    then ok record {
      format = repository.format;
      signing_keys = rotation.successor_key ∷ [];
      signing_keyring = repository.signing_keyring;
      signing_rotation = none;
    }
    else err

module _ (parse_time : Bytes → Option ℕ) where
  -- `advanceKeyRotation` from the manifest and the deployment record it loads: the repository it
  -- writes, and whether that has to be deployed. First, with a rotation under way.
  pub advance_rotation :
      Bytes
      → SigningRotation
      → Repository
      → Keys
      → DeploymentRecord
      → Result ℕ
      → ℕ
      → Result (Repository × Bool)
  unfolding repository_deployment_signing_state deployment_signing_matches validate_advance
      next_phase reaches duration_of_seconds
  advance_rotation base rotation repository keys deployment trust_since now = do
    desired ← repository_deployment_signing_state repository keys
    require (deployment_signing_matches deployment desired)
    trusted_since ← trust_since
    require (reaches trusted_since (duration_of_seconds rotation.minimum_refresh_seconds) now)
    validate_advance parse_time base rotation keys now
    next ← next_phase base repository rotation
    ok (next, true)

  pub advance_from :
      List Bytes
      → Option SigningRotation
      → Repository
      → Keys
      → DeploymentRecord
      → Result ℕ
      → ℕ
      → Result (Repository × Bool)
  unfolding advance_rotation
  advance_from (base ∷ []) none repository keys deployment trust_since now = do
    desired ← repository_deployment_signing_state repository keys
    ok (repository, not (deployment_signing_matches deployment desired))
  advance_from (base ∷ []) (some rotation) repository keys deployment trust_since now =
      advance_rotation base rotation repository keys deployment trust_since now
  advance_from _ _ repository keys deployment trust_since now = err

  unfoldable pub advance_key_rotation :
      Repository → Keys → DeploymentRecord → Result ℕ → ℕ → Result (Repository × Bool)
  unfolding advance_from
  advance_key_rotation repository =
      advance_from repository.signing_keys repository.signing_rotation repository
