-- ===== src/Tests/Rotations.antt =====
-- A rotation that advances from its introduction.
use snailmail.Base.{
  Bytes, codes, ◌==ᵇ◌, parse_uint, Result, ok, mem, ℕ, ◌*◌, ◌≡◌, refl, Bool, true, false, Option,
  none, some, [], ◌∷◌, arith,
}
use snailmail.Engine.Host.{PublishedRevision}
use snailmail.Engine.Transition.{validate_transition}
use snailmail.Engine.Transition.Trusted.{validate_transition_lem}
use snailmail.Engine.Rotation.{
  SigningState, repository_deployment_signing_state, SigningRotation, Repository, SigningKey, Keys,
  DeploymentRecord, advance_key_rotation,
}
use snailmail.Engine.Duration.{second}
use snailmail.Engine.Rotation.Safe.{TrustedStep, advance_key_rotation_lem}

abbrev rotation : SigningRotation
rotation = record {
  successor_key = codes "new";
  phase = codes "introducing";
  minimum_refresh_seconds = 604800;
}

abbrev repository : Repository
repository = record {
  format = codes "deb";
  signing_keys = codes "old" ∷ [];
  signing_keyring = codes "keyring.gpg";
  signing_rotation = some rotation;
}

abbrev key : Bytes → SigningKey
key fingerprint = record {
  algorithm = codes "openpgp-rsa4096";
  fingerprint = fingerprint;
  created_at = codes "1";
  expires_at = codes "99999999";
}

abbrev keys : Keys
keys = (codes "old", key (codes "f0")) ∷ (codes "new", key (codes "f1")) ∷ []

abbrev deployment : DeploymentRecord
deployment = record {
  repository = codes "apt";
  plan_id = [];
  change_id = [];
  deployed_at = [];
  native_revision = codes "r1";
  tree_sha256 = codes "t1";
  manifest_sha256 = [];
  active_signing_fingerprint = codes "f0";
  trusted_signing_fingerprints = codes "f0" ∷ codes "f1" ∷ [];
  signing_rotation_phase = codes "introducing";
  signing_keyring_path = codes "keyring.gpg";
  signing_minimum_refresh_seconds = 604800;
  trust_since = codes "1000";
}

-- A stand-in for `time.Parse`: a number of seconds.
abbrev parse_seconds : Bytes → Option ℕ
parse_seconds text = elim (parse_uint 18446744073709551616 text) [
  | none ↦ none
  | some n ↦ some (n * second)
]

abbrev now : ℕ
now = 700000 * second

abbrev advanced : Repository × Bool
advanced =
    go (advance_key_rotation parse_seconds repository keys deployment (ok (1000 * second)) now)
  where
    go : Result (Repository × Bool) → Repository × Bool
    go (ok out) = out
    go _ = (repository, false)

advances :
    advance_key_rotation parse_seconds repository keys deployment (ok (1000 * second)) now
    ≡ ok advanced
unfolding advance_key_rotation parse_uint
advances = refl

advances_phase : advanced.1 ≡ true
unfolding advance_key_rotation parse_uint
advances_phase = refl

advance_key_rotation_lem_example :
    TrustedStep rotation keys deployment (ok (1000 * second)) now advanced.0
unfolding ◌==ᵇ◌
advance_key_rotation_lem_example =
    advance_key_rotation_lem parse_seconds repository keys deployment (ok (1000 * second)) now
      (codes "old") rotation advanced refl refl refl refl (omega arith) advances

abbrev observed : PublishedRevision
observed = record {
  native_revision = codes "r1";
  tree_sha256 = codes "t1";
  plan_id = [];
  change_id = [];
  restore_id = [];
  release_sha256 = [];
  manifest_sha256 = codes "m1";
  restore_sha256 = [];
  restore_root_sha256 = [];
}

-- The advanced repository over the deployment of the introduction.
transition_passes :
    validate_transition parse_seconds advanced.0 keys deployment observed now (some (1000 * second))
    ≡ ok tt
unfolding validate_transition advance_key_rotation parse_uint
transition_passes = refl

validate_transition_lem_example :
    (desired : SigningState) × ((repository_deployment_signing_state advanced.0 keys ≡ ok desired)
      × (mem desired.active deployment.trusted_signing_fingerprints ≡ true))
unfolding mem
validate_transition_lem_example =
    validate_transition_lem parse_seconds advanced.0 keys deployment observed now
      (some (1000 * second)) refl refl refl transition_passes

-- A refresh time of 2 ^ 63 nanoseconds is negative in the code, and never holds a rotation back.
abbrev endless : SigningRotation
endless = record {
  successor_key = codes "new";
  phase = codes "introducing";
  minimum_refresh_seconds = 9223372037;
}

abbrev endless_repository : Repository
endless_repository = record repository { signing_rotation = some endless }

abbrev endless_deployment : DeploymentRecord
endless_deployment = record deployment { signing_minimum_refresh_seconds = 9223372037 }

abbrev has_advanced : Result (Repository × Bool) → Bool
has_advanced (ok out) = out.1
has_advanced _ = false

advances_at_once :
    has_advanced (
      advance_key_rotation parse_seconds endless_repository keys endless_deployment
        (ok (100000 * second))
        (100000 * second))
    ≡ true
unfolding advance_key_rotation parse_uint
advances_at_once = refl
