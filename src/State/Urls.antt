-- ===== src/State/Urls.antt =====
-- internal/state/store.go: validateRelativePath, validateHTTPURL, isLoopbackHost and
-- sameConfiguredEndpoint. `url.Parse` and `path.Clean` are parameters; `strings.EqualFold` is for ASCII.
pub mod Endpoint
use snailmail.Base.{
  ◌==◌, if◌then◌else◌, Bytes, codes, ◌==ᵇ◌, has_prefix, contains, ℕ, Bool, false, not, ◌&&◌, ◌||◌,
  Option, none, some, [], ◌∷◌,
}
use snailmail.Hexdigest.{to_lower}

-- What `url.Parse` finds.
pub record Url : Type 0 where
  pub scheme : Bytes
  pub host : Bytes
  pub hostname : Bytes
  pub has_user : Bool
  pub raw_query : Bytes
  pub fragment : Bytes
  pub escaped_path : Bytes

unfoldable pub is_loopback_host : Bytes → Bool
unfolding ◌==ᵇ◌
is_loopback_host value =
    value ==ᵇ codes "localhost" || value ==ᵇ codes "127.0.0.1" || value ==ᵇ codes "::1"

abbrev is_control : ℕ → Bool
is_control c = c == 0 || c == 13 || c == 10

-- `strings.TrimSuffix(s, "/")`
unfoldable pub trim_slash : Bytes → Bytes
trim_slash [] = []
trim_slash (c ∷ []) = if c == 47 then [] else c ∷ []
trim_slash (c ∷ d ∷ s) = c ∷ trim_slash (d ∷ s)

-- Without credentials, query or fragment.
abbrev pub is_plain : Option Url → Bool
is_plain none = false
is_plain (some u) =
    (u.scheme ==ᵇ codes "http" || u.scheme ==ᵇ codes "https")
    && not (u.host ==ᵇ [])
    && not u.has_user
    && u.raw_query ==ᵇ []
    && u.fragment ==ᵇ []

abbrev pub is_secure_url : Option Url → Bool
is_secure_url none = false
is_secure_url (some u) =
    u.scheme ==ᵇ codes "https" || u.scheme ==ᵇ codes "http" && is_loopback_host u.hostname

module _ (parse_url : Bytes → Option Url) (clean : Bytes → Bytes) where
  unfoldable pub valid_relative_path : Bytes → Bool
  unfolding ◌==ᵇ◌ has_prefix contains
  valid_relative_path name =
      not (name ==ᵇ [] || has_prefix name (codes "/"))
      && not (contains is_control name)
      && not (
          clean name ==ᵇ codes "."
          || clean name ==ᵇ codes ".."
          || has_prefix (clean name) (codes "../"))

  unfoldable pub valid_http_url : Bytes → Bool
  unfolding ◌==ᵇ◌ contains
  valid_http_url value = not (contains is_control value) && is_plain (parse_url value)

  -- An HTTPS URL, or an HTTP one of this machine.
  unfoldable pub is_secure : Bytes → Bool
  unfolding ◌==ᵇ◌ is_loopback_host
  is_secure value = is_secure_url (parse_url value)

  unfoldable pub same_url : Option Url → Option Url → Bool
  unfolding ◌==ᵇ◌ to_lower trim_slash
  same_url (some u) (some v) =
      to_lower u.scheme ==ᵇ to_lower v.scheme
      && to_lower u.host ==ᵇ to_lower v.host
      && to_lower (trim_slash u.escaped_path) ==ᵇ to_lower (trim_slash v.escaped_path)
  same_url _ _ = false

  -- `sameConfiguredEndpoint`
  unfoldable pub same_endpoint : Bytes → Bytes → Bool
  unfolding same_url
  same_endpoint left right = same_url (parse_url left) (parse_url right)
