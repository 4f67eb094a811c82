-- ===== src/Engine/Transition/Trusted.antt =====
-- What a change of the signing state keeps of a deployment that signs.
use snailmail.Base.{
  Bool-cases, Bytes, ◌==ᵇ◌, ==ᵇ_iff, require, >>=-eq-ok, require-eq-ok, ok, mem, equal_strings_lem,
  ℕ, ◌≡◌, inl, inr, Bool, true, false, not, ◌||◌, Option, List, [], ◌∷◌, arith,
}
use snailmail.Engine.Host.{PublishedRevision}
use snailmail.Engine.Rotation.{
  Repository, Keys, DeploymentRecord, SigningState, repository_deployment_signing_state,
  deployment_signing_matches,
}
use snailmail.Engine.Transition.{
  are_two, is_second_of_two, receipt_matches, phase_allowed, change_allowed,
  validate_rotation_key_validity, transition_ready, validate_transition,
}

are_two-mem :
    (keys : List Bytes) (first last : Bytes) → are_two keys first last ≡ true → mem last keys ≡ true
unfolding mem
are_two-mem [] first last h = cc
are_two-mem (_ ∷ []) first last h = cc
are_two-mem (a ∷ b ∷ []) first last h = ground (arith, ==ᵇ_iff last b, ==ᵇ_iff b last)
are_two-mem (_ ∷ _ ∷ _ ∷ _) first last h = cc

is_second_of_two-mem :
    (keys : List Bytes) (last : Bytes) → is_second_of_two keys last ≡ true → mem last keys ≡ true
unfolding mem
is_second_of_two-mem [] last h = cc
is_second_of_two-mem (_ ∷ []) last h = cc
is_second_of_two-mem (a ∷ b ∷ []) last h = ground arith
is_second_of_two-mem (_ ∷ _ ∷ _ ∷ _) last h = cc

phase_allowed-mem :
    (deployment : DeploymentRecord) (desired : SigningState) (ready : Bool)
    → mem deployment.active_signing_fingerprint deployment.trusted_signing_fingerprints ≡ true
    → phase_allowed deployment desired ready ≡ true
    → mem desired.active deployment.trusted_signing_fingerprints ≡ true
unfolding phase_allowed
phase_allowed-mem deployment desired ready consistent h = ground (
  arith,
  ==ᵇ_iff deployment.active_signing_fingerprint desired.active,
  equal_strings_lem deployment.trusted_signing_fingerprints desired.trusted,
  are_two-mem desired.trusted deployment.active_signing_fingerprint desired.active,
  is_second_of_two-mem deployment.trusted_signing_fingerprints desired.active,
)

change_allowed-mem :
    (deployment : DeploymentRecord) (desired : SigningState) (observed : PublishedRevision)
    (ready : Bool)
    → mem deployment.active_signing_fingerprint deployment.trusted_signing_fingerprints ≡ true
    → (deployment.active_signing_fingerprint ==ᵇ []) ≡ false
    → change_allowed deployment desired observed ready ≡ ok tt
    → mem desired.active deployment.trusted_signing_fingerprints ≡ true
unfolding change_allowed
change_allowed-mem deployment desired observed ready consistent signed h =
    let (_, _, h1) = >>=-eq-ok (require (receipt_matches deployment observed)) _ h in
    let (_, _, h2) = >>=-eq-ok (require (not (desired.active ==ᵇ []))) _ h1 in
    let (_, _, h3) =
      >>=-eq-ok
        (require (
          deployment.active_signing_fingerprint ==ᵇ []
          || deployment.signing_keyring_path ==ᵇ desired.keyring))
        _ h2 in
    phase_allowed-mem deployment desired ready consistent (ground (arith, require-eq-ok _ h3))

matches-mem :
    (deployment : DeploymentRecord) (desired : SigningState)
    → mem deployment.active_signing_fingerprint deployment.trusted_signing_fingerprints ≡ true
    → deployment_signing_matches deployment desired ≡ true
    → mem desired.active deployment.trusted_signing_fingerprints ≡ true
unfolding deployment_signing_matches
matches-mem deployment desired consistent h =
    ground (arith, ==ᵇ_iff deployment.active_signing_fingerprint desired.active)

-- When the check passes a repository over a deployment that signs, whose active key is among its
-- trusted keys, the repository's signing state can be formed and its active key is among the keys
-- that the deployment's clients trust.
pub validate_transition_lem :
    (parse_time : Bytes → Option ℕ) (repository : Repository) (keys : Keys)
    (deployment : DeploymentRecord) (observed : PublishedRevision) (at_time : ℕ)
    (trust_not_before : Option ℕ)
    → (deployment.native_revision ==ᵇ []) ≡ false
    → (deployment.active_signing_fingerprint ==ᵇ []) ≡ false
    → mem deployment.active_signing_fingerprint deployment.trusted_signing_fingerprints ≡ true
    → validate_transition parse_time repository keys deployment observed at_time trust_not_before
      ≡ ok tt
    → (desired : SigningState) × ((repository_deployment_signing_state repository keys ≡ ok desired)
        × (mem desired.active deployment.trusted_signing_fingerprints ≡ true))
unfolding validate_transition
validate_transition_lem parse_time repository keys deployment observed at_time trust_not_before
      deployed signed consistent h =
    let (desired, e, h1) = >>=-eq-ok (repository_deployment_signing_state repository keys) _ h in
    let (_, _, h2) =
      >>=-eq-ok
        (validate_rotation_key_validity parse_time repository.signing_rotation repository keys
          at_time)
        _ h1 in
    let ready = transition_ready deployment at_time trust_not_before in
    let checked = change_allowed-mem deployment desired observed ready consistent signed in
    let matched = matches-mem deployment desired consistent in
    (
      desired,
      (
        e,
        elim (Bool-cases (deployment_signing_matches deployment desired)) [
          | inl same ↦ matched same
          | inr changed ↦ checked (rw (deployed, changed) at h2)
        ],
      ),
    )
