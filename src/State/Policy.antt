-- ===== src/State/Policy.antt =====
-- ValidateGateConfiguration and validateRepositorySigning of internal/state/store.go. `path.Clean` and
-- base64 are parameters.
pub mod Signing
pub mod Gates
use snailmail.Base.{
  leb, ◌==◌, if◌then◌else◌, length, Bytes, codes, ◌==ᵇ◌, compare_list, compare_bytes, has_prefix,
  has_suffix, mem, ◌*◌, Ordering, lt, eq, gt, Bool, true, false, not, ◌&&◌, ◌||◌, Option, none,
  some, List, [], ◌∷◌,
}
use snailmail.Engine.Rotation.{SigningRotation, Repository, SigningKey, Keys, find_key}
use snailmail.State.Urls.{Url, valid_relative_path}

unfoldable pub valid_gate : Bytes → Bool
unfolding ◌==ᵇ◌
valid_gate value = value ==ᵇ codes "auto" || value ==ᵇ codes "pr" || value ==ᵇ codes "approval"

abbrev pub has_key_size : Option Bytes → Bool
has_key_size none = false
has_key_size (some key) = length key == 32

abbrev pub is_lt : Ordering → Bool
is_lt lt = true
is_lt eq = false
is_lt gt = false

abbrev pub is_nonempty : List Bytes → Bool
is_nonempty [] = false
is_nonempty (_ ∷ _) = true

module _ (decode_base64 : Bytes → Option Bytes) where
  -- The loop on the approval keys, which are sorted.
  unfoldable pub approval_keys_ok : Bytes → List Bytes → Bool
  unfolding ◌==ᵇ◌ compare_list
  approval_keys_ok previous [] = true
  approval_keys_ok previous (encoded ∷ rest) =
      has_key_size (decode_base64 encoded)
      && (previous ==ᵇ [] || is_lt (compare_bytes previous encoded))
      && approval_keys_ok encoded rest

  -- `ValidateGateConfiguration`; whether there is no error.
  unfoldable pub valid_gate_configuration : Bytes → List Bytes → Bytes → Bool
  unfolding valid_gate approval_keys_ok ◌==ᵇ◌
  valid_gate_configuration policy approval_keys forge_repository =
      valid_gate policy
      && not (policy ==ᵇ codes "pr" && forge_repository ==ᵇ [])
      && (if policy ==ᵇ codes "approval"
          then is_nonempty approval_keys && approval_keys_ok [] approval_keys
          else not (is_nonempty approval_keys))

-- The signing algorithm of a format, of those that implement signing.
unfoldable pub signing_algorithm : Bytes → Option Bytes
unfolding mem ◌==ᵇ◌
signing_algorithm format =
    if mem format (codes "deb" ∷ codes "helm" ∷ codes "rpm" ∷ [])
    then some (codes "openpgp-rsa4096")
    else if format ==ᵇ codes "apk"
    then some (codes "apk-rsa4096")
    else none

-- Whether the key is there and of the algorithm.
unfoldable pub is_key_of : Option Bytes → Option SigningKey → Bool
unfolding ◌==ᵇ◌
is_key_of (some algorithm) (some key) = key.algorithm ==ᵇ algorithm
is_key_of _ _ = false

abbrev pub is_some : Option SigningKey → Bool
is_some none = false
is_some (some _) = true

unfoldable pub valid_rotation : Bytes → Keys → Option SigningRotation → Bool
unfolding ◌==ᵇ◌ find_key
valid_rotation base keys none = true
valid_rotation base keys (some rotation) =
    not (rotation.successor_key ==ᵇ base)
    && (rotation.phase ==ᵇ codes "introducing" || rotation.phase ==ᵇ codes "activated")
    && leb (7 * 24 * 60 * 60) rotation.minimum_refresh_seconds
    && is_some (find_key rotation.successor_key keys)

module _ (parse_url : Bytes → Option Url) (clean : Bytes → Bytes) where
  unfoldable pub valid_keyring : Bytes → Bool
  unfolding valid_relative_path has_prefix has_suffix
  valid_keyring keyring =
      valid_relative_path parse_url clean keyring
      && has_prefix keyring (codes "keys/")
      && has_suffix keyring (codes ".gpg")

  -- The switch on the number of keys; a key's name is not empty where it is above the empty text.
  unfoldable pub valid_signing : Bytes → List Bytes → Bytes → Option SigningRotation → Keys → Bool
  unfolding signing_algorithm is_key_of find_key valid_keyring valid_rotation ◌==ᵇ◌
  valid_signing format [] keyring none keys = keyring ==ᵇ []
  valid_signing format [] keyring (some _) keys = false
  valid_signing format (base ∷ []) keyring rotation keys =
      is_key_of (signing_algorithm format) (find_key base keys)
      && not (base ==ᵇ [])
      && valid_keyring keyring
      && valid_rotation base keys rotation
  valid_signing format (_ ∷ _ ∷ _) keyring rotation keys = false

  -- `validateRepositorySigning`; whether there is no error.
  unfoldable pub valid_repository_signing : Repository → Keys → Bool
  unfolding valid_signing
  valid_repository_signing r keys =
      valid_signing r.format r.signing_keys r.signing_keyring r.signing_rotation keys
