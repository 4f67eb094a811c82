-- ===== src/Engine/Rotation/Safe.antt =====
-- The key with which a rotation that advances signs, and the trust that the deployment has in it.
use snailmail.Base.{
  if◌then◌else◌, Bytes, codes, ◌==ᵇ◌, ==ᵇ_iff, of_option, require, >>=-eq-ok, require-eq-ok,
  ok_injective, of_option-eq-ok, Result, ok, err, mem, equal_strings_lem, ℕ, ◌+◌, ◌*◌, ◌^◌, ◌≤◌,
  ◌<◌, ◌≡◌, refl, sym, ap, ◌∙◌, subst, Bool, true, false, Option, none, some, List, [], ◌∷◌, arith,
}
use snailmail.Engine.Rotation.{
  SigningRotation, Repository, SigningKey, Keys, find_key, DeploymentRecord, SigningState,
  rotated_state, signing_state, repository_signing_state, fingerprints, with_fingerprints,
  deployment_signing_state, repository_deployment_signing_state, deployment_signing_matches,
  with_phase, next_phase, validate_advance, advance_rotation, advance_from, advance_key_rotation,
}
use snailmail.Engine.Duration.{second, duration_of_seconds, reaches, reaches-duration_of_seconds}

-- The key is known, and its fingerprint is in the list.
abbrev KeyIn : Bytes → Keys → List Bytes → Type 0
KeyIn name keys trusted =
    (key : SigningKey) × ((find_key name keys ≡ some key) × (mem key.fingerprint trusted ≡ true))

fingerprints-second :
    (keys : Keys) (base successor : Bytes) (out : List Bytes)
    → fingerprints keys (base ∷ successor ∷ []) ≡ ok out
    → KeyIn successor keys out
unfolding fingerprints mem
fingerprints-second keys base successor out h =
    let (first, _, h1) = >>=-eq-ok (of_option (find_key base keys)) _ h in
    let (rest, e, h2) = >>=-eq-ok (fingerprints keys (successor ∷ [])) _ h1 in
    let (key, k, h3) = >>=-eq-ok (of_option (find_key successor keys)) _ e in
    (
      key,
      (
        of_option-eq-ok (find_key successor keys) k,
        subst (λ o. mem key.fingerprint o ≡ true) (ok_injective h2)
            (subst (λ r. mem key.fingerprint (first.fingerprint ∷ r) ≡ true) (ok_injective h3)
              (ground (arith, ==ᵇ_iff key.fingerprint key.fingerprint))),
      ),
    )

active_named :
    (base keyring : Bytes) (rotation : SigningRotation)
    → (base ==ᵇ []) ≡ false
    → (rotation.successor_key ==ᵇ []) ≡ false
    → ((rotated_state base keyring (some rotation)).active ==ᵇ []) ≡ false
unfolding rotated_state
active_named base keyring rotation b s = ground arith

deployment_signing_state-trusted :
    (keys : Keys) (base keyring : Bytes) (rotation : SigningRotation) (desired : SigningState)
    → (base ==ᵇ []) ≡ false
    → (rotation.successor_key ==ᵇ []) ≡ false
    → deployment_signing_state keys (rotated_state base keyring (some rotation)) ≡ ok desired
    → KeyIn rotation.successor_key keys desired.trusted
unfolding deployment_signing_state with_fingerprints rotated_state
deployment_signing_state-trusted keys base keyring rotation desired b s h =
    let state = rotated_state base keyring (some rotation) in
    let (active, _, h1) =
      >>=-eq-ok (of_option (find_key state.active keys)) _
        (rw (active_named base keyring rotation b s) at h) in
    let (trusted, e, h2) = >>=-eq-ok (fingerprints keys state.trusted) _ h1 in
    subst (λ d. KeyIn rotation.successor_key keys d.trusted) (ok_injective h2)
      (fingerprints-second keys base rotation.successor_key trusted e)

signing_state-keyring :
    (base keyring : Bytes) (rotation : Option SigningRotation) (state : SigningState)
    → signing_state (base ∷ []) keyring rotation ≡ ok state
    → ((keyring ==ᵇ []) ≡ false) × (rotated_state base keyring rotation ≡ state)
unfolding signing_state
signing_state-keyring base keyring rotation state h = go (keyring ==ᵇ []) refl h
  where
    go :
        (empty : Bool)
        → (keyring ==ᵇ []) ≡ empty
        → (if empty then err else ok (rotated_state base keyring rotation)) ≡ ok state
        → ((keyring ==ᵇ []) ≡ false) × (rotated_state base keyring rotation ≡ state)
    go true e h = cc
    go false e h = (e, ok_injective h)

signing_state-some :
    (base keyring : Bytes) (rotation : Option SigningRotation)
    → (keyring ==ᵇ []) ≡ false
    → signing_state (base ∷ []) keyring rotation ≡ ok (rotated_state base keyring rotation)
unfolding signing_state
signing_state-some base keyring rotation h = ground arith

-- The active key of a repository that signs.
SignsWith : Repository → Bytes → Type 0
unfolding repository_signing_state
SignsWith repository name =
    (state : SigningState) × ((repository_signing_state repository ≡ ok state)
      × (state.active ≡ name))

next_phase-SignsWith :
    (base : Bytes) (repository : Repository) (rotation : SigningRotation) (next : Repository)
    → repository.signing_keys ≡ base ∷ []
    → (repository.signing_keyring ==ᵇ []) ≡ false
    → next_phase base repository rotation ≡ ok next
    → SignsWith next rotation.successor_key
unfolding next_phase SignsWith repository_signing_state with_phase rotated_state ◌==ᵇ◌
next_phase-SignsWith base repository rotation next keys keyring h =
    go (rotation.phase ==ᵇ codes "introducing") (rotation.phase ==ᵇ codes "activated") h
  where
    activated : Repository
    activated = record {
      format = repository.format;
      signing_keys = repository.signing_keys;
      signing_keyring = repository.signing_keyring;
      signing_rotation = some (with_phase rotation (codes "activated"));
    }

    retired : Repository
    retired = record {
      format = repository.format;
      signing_keys = rotation.successor_key ∷ [];
      signing_keyring = repository.signing_keyring;
      signing_rotation = none;
    }

    go :
        (introducing active : Bool)
        → (if introducing then ok activated else if active then ok retired else err) ≡ ok next
        → SignsWith next rotation.successor_key
    go true active e =
        subst (λ n. SignsWith n rotation.successor_key) (ok_injective e)
          (
            rotated_state base repository.signing_keyring
                (some (with_phase rotation (codes "activated"))),
            (
              ap
                    (λ ks.
                      signing_state ks repository.signing_keyring
                        (some (with_phase rotation (codes "activated"))))
                    keys
                  ∙ signing_state-some base repository.signing_keyring
                      (some (with_phase rotation (codes "activated"))) keyring,
              refl,
            ),
          )
    go false true e =
        subst (λ n. SignsWith n rotation.successor_key) (ok_injective e)
          (
            rotated_state rotation.successor_key repository.signing_keyring none,
            (
              signing_state-some rotation.successor_key repository.signing_keyring none keyring,
              refl,
            ),
          )
    go false false e = cc

-- The repository signs with a key that the deployment's clients trust, and have trusted for the
-- refresh time of the rotation.
pub TrustedStep : SigningRotation → Keys → DeploymentRecord → Result ℕ → ℕ → Repository → Type 0
unfolding SignsWith find_key
TrustedStep rotation keys deployment trust_since now next =
    SignsWith next rotation.successor_key
    × (KeyIn rotation.successor_key keys deployment.trusted_signing_fingerprints
        × ((since : ℕ) × ((trust_since ≡ ok since)
              × (since + rotation.minimum_refresh_seconds * second ≤ now))))

matches-trusted :
    (deployment : DeploymentRecord) (state : SigningState)
    → deployment_signing_matches deployment state ≡ true
    → state.trusted ≡ deployment.trusted_signing_fingerprints
unfolding deployment_signing_matches
matches-trusted deployment state h =
    sym (equal_strings_lem deployment.trusted_signing_fingerprints state.trusted (ground arith))

desired-trusted :
    (repository : Repository) (keys : Keys) (base : Bytes) (rotation : SigningRotation)
    (desired : SigningState)
    → repository.signing_keys ≡ base ∷ []
    → repository.signing_rotation ≡ some rotation
    → (base ==ᵇ []) ≡ false
    → (rotation.successor_key ==ᵇ []) ≡ false
    → repository_deployment_signing_state repository keys ≡ ok desired
    → ((repository.signing_keyring ==ᵇ []) ≡ false)
      × KeyIn rotation.successor_key keys desired.trusted
unfolding repository_deployment_signing_state repository_signing_state
desired-trusted repository keys base rotation desired one rotating b s h =
    let keyring = repository.signing_keyring in
    let (state, e, h1) = >>=-eq-ok (repository_signing_state repository) _ h in
    let (signs, same) = signing_state-keyring base keyring (some rotation) state (
      sym (
        ap (λ ks. signing_state ks keyring repository.signing_rotation) one
        ∙ ap (signing_state (base ∷ []) keyring) rotating)
      ∙ e) in
    (
      signs,
      deployment_signing_state-trusted keys base keyring rotation desired b s
          (ap (deployment_signing_state keys) same ∙ h1),
    )

advance_rotation-TrustedStep :
    (parse_time : Bytes → Option ℕ) (repository : Repository) (keys : Keys)
    (deployment : DeploymentRecord) (trust_since : Result ℕ) (now : ℕ) (base : Bytes)
    (rotation : SigningRotation) (out : Repository × Bool)
    → repository.signing_keys ≡ base ∷ []
    → repository.signing_rotation ≡ some rotation
    → (base ==ᵇ []) ≡ false
    → (rotation.successor_key ==ᵇ []) ≡ false
    → rotation.minimum_refresh_seconds * second < 2 ^ 63
    → advance_rotation parse_time base rotation repository keys deployment trust_since now ≡ ok out
    → TrustedStep rotation keys deployment trust_since now out.0
unfolding advance_rotation TrustedStep
advance_rotation-TrustedStep parse_time repository keys deployment trust_since now base rotation out
      one rotating b s small h =
    let (desired, e, h1) = >>=-eq-ok (repository_deployment_signing_state repository keys) _ h in
    let (_, matches, h2) =
      >>=-eq-ok (require (deployment_signing_matches deployment desired)) _ h1 in
    let (since, trusted, h3) = >>=-eq-ok trust_since _ h2 in
    let old_enough = reaches since (duration_of_seconds rotation.minimum_refresh_seconds) now in
    let (_, late, h4) = >>=-eq-ok (require old_enough) _ h3 in
    let (_, _, h5) = >>=-eq-ok (validate_advance parse_time base rotation keys now) _ h4 in
    let (next, step, h6) = >>=-eq-ok (next_phase base repository rotation) _ h5 in
    let (signs, known) = desired-trusted repository keys base rotation desired one rotating b s e in
    let same = matches-trusted deployment desired (require-eq-ok _ matches) in
    (
      subst (λ n. SignsWith n rotation.successor_key) (ap (λ r. r.0) (ok_injective h6))
          (next_phase-SignsWith base repository rotation next one signs step),
      (
        subst (KeyIn rotation.successor_key keys) same known,
        (
          since,
          (
            trusted,
            reaches-duration_of_seconds since rotation.minimum_refresh_seconds now small
                (require-eq-ok old_enough late),
          ),
        ),
      ),
    )

-- When a rotation of a repository with one signing key advances, neither key name is empty, and the
-- refresh time of the rotation in nanoseconds fits in an int64, the repository afterwards signs with the successor key; the deployed repository, at which its
-- clients look, lists that key's fingerprint as trusted, and its trust is older than the refresh time
-- of the rotation.
pub advance_key_rotation_lem :
    (parse_time : Bytes → Option ℕ) (repository : Repository) (keys : Keys)
    (deployment : DeploymentRecord) (trust_since : Result ℕ) (now : ℕ) (base : Bytes)
    (rotation : SigningRotation) (out : Repository × Bool)
    → repository.signing_keys ≡ base ∷ []
    → repository.signing_rotation ≡ some rotation
    → (base ==ᵇ []) ≡ false
    → (rotation.successor_key ==ᵇ []) ≡ false
    → rotation.minimum_refresh_seconds * second < 2 ^ 63
    → advance_key_rotation parse_time repository keys deployment trust_since now ≡ ok out
    → TrustedStep rotation keys deployment trust_since now out.0
unfolding advance_key_rotation advance_from
advance_key_rotation_lem parse_time repository keys deployment trust_since now base rotation out one
      rotating b s small h =
    advance_rotation-TrustedStep parse_time repository keys deployment trust_since now base rotation
      out one rotating b s small
      (sym (
          ap
            (λ ks.
              advance_from parse_time ks repository.signing_rotation repository keys deployment
                trust_since now)
            one
          ∙ ap
              (λ r.
                advance_from parse_time (base ∷ []) r repository keys deployment trust_since now)
              rotating)
        ∙ h)
