-- ===== src/Tests/Policies.antt =====
-- A signed Debian repository with a rotation, and an approval gate.
use snailmail.Base.{
  Bytes, codes, ok, distinct, All, ◌≡◌, refl, ◌≢◌, ◌⊎◌, true, false, Option, none, some, [], ◌∷◌,
}
use snailmail.Engine.Rotation.{
  Repository, SigningState, SigningKey, Keys, repository_deployment_signing_state,
}
use snailmail.State.Urls.{Url}
use snailmail.State.Policy.{valid_gate_configuration, valid_repository_signing}
use snailmail.State.Policy.Signing.{valid_repository_signing_lem}
use snailmail.State.Policy.Gates.{PublicKey, valid_gate_configuration_lem}

abbrev no_url : Bytes → Option Url
no_url _ = none

abbrev clean : Bytes → Bytes
clean path = path

abbrev signed : Repository
signed = record {
  format = codes "deb";
  signing_keys = codes "old" ∷ [];
  signing_keyring = codes "keys/apt.gpg";
  signing_rotation = some (record {
    successor_key = codes "new";
    phase = codes "activated";
    minimum_refresh_seconds = 604800;
  });
}

abbrev key : Bytes → SigningKey
key fingerprint = record {
  algorithm = codes "openpgp-rsa4096";
  fingerprint = fingerprint;
  created_at = [];
  expires_at = [];
}

abbrev keys : Keys
keys = (codes "old", key (codes "f0")) ∷ (codes "new", key (codes "f1")) ∷ []

signed_accepted : valid_repository_signing no_url clean signed keys ≡ true
unfolding valid_repository_signing
signed_accepted = refl

-- Alpine clients verify another algorithm.
algorithm_refused :
    valid_repository_signing no_url clean (record signed { format = codes "apk" }) keys ≡ false
unfolding valid_repository_signing
algorithm_refused = refl

valid_repository_signing_lem_example :
    (state : SigningState) × (repository_deployment_signing_state signed keys ≡ ok state)
valid_repository_signing_lem_example =
    valid_repository_signing_lem no_url clean signed keys signed_accepted

abbrev no_forge : Bytes
no_forge = []

abbrev first_key : Bytes
first_key = codes "0123456789abcdef0123456789abcdef"

abbrev second_key : Bytes
second_key = codes "1123456789abcdef0123456789abcdef"

valid_gate_configuration_lem_example :
    ((codes "approval" ≡ codes "auto") × (first_key ∷ second_key ∷ [] ≡ []))
    ⊎ (((codes "approval" ≡ codes "pr") × (no_forge ≢ []) × (first_key ∷ second_key ∷ [] ≡ []))
        ⊎ ((codes "approval" ≡ codes "approval")
            × (first_key ∷ second_key ∷ [] ≢ [])
            × All (PublicKey some) (first_key ∷ second_key ∷ [])
            × (distinct (first_key ∷ second_key ∷ []) ≡ true)))
unfolding valid_gate_configuration
valid_gate_configuration_lem_example =
    valid_gate_configuration_lem some (codes "approval") (first_key ∷ second_key ∷ []) no_forge refl
      refl
