-- ===== src/Engine/Transition.antt =====
-- engine/signing.go, validateRepositorySigningTransition: which change of the signing state a plan
-- may publish over the deployed one. The trust time is absent where the code has a zero time.
pub mod Trusted
use snailmail.Base.{
  leb, ◌==◌, if◌then◌else◌, Bytes, codes, ◌==ᵇ◌, of_option, require, Result, ok, equal_strings, ℕ,
  ◌*◌, Bool, true, false, not, ◌&&◌, ◌||◌, Option, none, some, List, [], ◌∷◌, ◌>>=◌, ◌>>◌,
}
use snailmail.Engine.Host.{PublishedRevision}
use snailmail.Engine.Rotation.{
  SigningRotation, Repository, SigningKey, Keys, find_key, DeploymentRecord, SigningState,
  repository_deployment_signing_state, deployment_signing_matches,
}
use snailmail.Engine.Duration.{hour, duration_of_seconds, add_durations, reaches, is_within}

-- `MinimumSigningRefreshSeconds`: seven days.
abbrev pub minimum_signing_refresh_seconds : ℕ
minimum_signing_refresh_seconds = 604800

abbrev pub first_key : List Bytes → Bytes
first_key [] = []
first_key (k ∷ _) = k

module _ (parse_time : Bytes → Option ℕ) where
  -- `validateRotationKeyValidity`; a repository in rotation has one signing key.
  pub validate_rotation : Bytes → SigningRotation → Keys → ℕ → Result (Unit {0})
  unfolding find_key reaches is_within duration_of_seconds add_durations ◌==ᵇ◌
  validate_rotation base_name rotation keys at_time = do
    base ← of_option (find_key base_name keys)
    successor ← of_option (find_key rotation.successor_key keys)
    base_expires ← of_option (parse_time base.expires_at)
    successor_created ← of_option (parse_time successor.created_at)
    successor_expires ← of_option (parse_time successor.expires_at)
    let minimum = duration_of_seconds rotation.minimum_refresh_seconds
    require (
        if rotation.phase ==ᵇ codes "introducing"
        then reaches at_time (add_durations minimum (2 * hour)) base_expires
          && is_within at_time minimum successor_created
          && reaches at_time (add_durations (add_durations minimum minimum) (2 * hour))
              successor_expires
        else if rotation.phase ==ᵇ codes "activated"
        then reaches at_time (add_durations minimum (2 * hour)) successor_expires
        else true)

  pub validate_rotation_key_validity :
      Option SigningRotation → Repository → Keys → ℕ → Result (Unit {0})
  unfolding validate_rotation
  validate_rotation_key_validity none repository keys at_time = ok tt
  validate_rotation_key_validity (some rotation) repository keys at_time =
      validate_rotation (first_key repository.signing_keys) rotation keys at_time

-- The deployment record is of the revision that the host reports.
pub receipt_matches : DeploymentRecord → PublishedRevision → Bool
unfolding ◌==ᵇ◌
receipt_matches deployment observed =
    deployment.native_revision ==ᵇ observed.native_revision
    && deployment.tree_sha256 ==ᵇ observed.tree_sha256
    && (deployment.manifest_sha256 ==ᵇ []
        || observed.manifest_sha256 ==ᵇ []
        || deployment.manifest_sha256 ==ᵇ observed.manifest_sha256)

-- `transitionReady`
pub transition_ready : DeploymentRecord → ℕ → Option ℕ → Bool
unfolding reaches duration_of_seconds
transition_ready deployment at_time none = false
transition_ready deployment at_time (some trust_not_before) =
    leb minimum_signing_refresh_seconds deployment.signing_minimum_refresh_seconds
    && reaches trust_not_before (duration_of_seconds deployment.signing_minimum_refresh_seconds)
        at_time

-- `desired.trusted[:1]`
abbrev pub first_only : List Bytes → List Bytes
first_only [] = []
first_only (k ∷ _) = k ∷ []

-- The list has the two keys.
abbrev pub are_two : List Bytes → Bytes → Bytes → Bool
are_two (a ∷ b ∷ []) first last = first ==ᵇ a && last ==ᵇ b
are_two _ first last = false

-- The list has two keys, the second being this one.
abbrev pub is_second_of_two : List Bytes → Bytes → Bool
is_second_of_two (_ ∷ b ∷ []) last = b ==ᵇ last
is_second_of_two _ last = false

abbrev pub is_only : List Bytes → Bytes → Bool
is_only (a ∷ []) key = a ==ᵇ key
is_only _ key = false

-- The switch on the phase that the manifest asks for.
pub phase_allowed : DeploymentRecord → SigningState → Bool → Bool
unfolding ◌==ᵇ◌ equal_strings
phase_allowed deployment desired ready =
    if desired.phase ==ᵇ codes "introducing"
    then deployment.signing_rotation_phase ==ᵇ []
      && deployment.signing_minimum_refresh_seconds == 0
      && deployment.active_signing_fingerprint ==ᵇ desired.active
      && equal_strings deployment.trusted_signing_fingerprints (first_only desired.trusted)
    else if desired.phase ==ᵇ codes "activated"
    then deployment.signing_rotation_phase ==ᵇ codes "introducing"
      && deployment.signing_minimum_refresh_seconds == desired.minimum_refresh
      && are_two desired.trusted deployment.active_signing_fingerprint desired.active
      && equal_strings deployment.trusted_signing_fingerprints desired.trusted
      && ready
    else if desired.phase ==ᵇ []
    then deployment.signing_rotation_phase ==ᵇ codes "activated"
      && is_second_of_two deployment.trusted_signing_fingerprints desired.active
      && is_only desired.trusted desired.active
      && deployment.active_signing_fingerprint ==ᵇ desired.active
      && ready
    else false

-- The checks on a change of a deployed signing state.
pub change_allowed : DeploymentRecord → SigningState → PublishedRevision → Bool → Result (Unit {0})
unfolding receipt_matches phase_allowed ◌==ᵇ◌
change_allowed deployment desired observed ready = do
  require (receipt_matches deployment observed)
  require (not (desired.active ==ᵇ []))
  require (
      deployment.active_signing_fingerprint ==ᵇ []
      || deployment.signing_keyring_path ==ᵇ desired.keyring)
  require (
      (deployment.active_signing_fingerprint ==ᵇ [] && desired.phase ==ᵇ [])
      || phase_allowed deployment desired ready)

module _ (parse_time : Bytes → Option ℕ) where
  unfoldable pub validate_transition :
      Repository → Keys → DeploymentRecord → PublishedRevision → ℕ → Option ℕ → Result (Unit {0})
  unfolding repository_deployment_signing_state deployment_signing_matches
      validate_rotation_key_validity transition_ready change_allowed ◌==ᵇ◌
  validate_transition repository keys deployment observed at_time trust_not_before = do
    desired ← repository_deployment_signing_state repository keys
    validate_rotation_key_validity parse_time repository.signing_rotation repository keys at_time
    if deployment.native_revision ==ᵇ []
        then require (desired.phase ==ᵇ [])
        else if deployment_signing_matches deployment desired
        then ok tt
        else change_allowed deployment desired observed
            (transition_ready deployment at_time trust_not_before)
