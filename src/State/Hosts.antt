-- ===== src/State/Hosts.antt =====
-- validateRepositoryHost of internal/state/store.go, and the support matrix of host/support.go.
-- `url.Parse` and `path.Clean` are parameters. `strings.EqualFold` and `strings.ToLower` are for ASCII.
pub mod Safe
use snailmail.Base.{
  ◌==◌, if◌then◌else◌, Bytes, codes, ◌==ᵇ◌, has_prefix, has_suffix, contains, ℤ, pos, negsuc, mem,
  every, ℕ, Bool, true, false, not, ◌&&◌, ◌||◌, Option, List, [], ◌∷◌,
}
use snailmail.Hexdigest.{to_lower}
use snailmail.State.Urls.{Url, valid_relative_path, valid_http_url, is_secure, same_endpoint}
use snailmail.State.Names.{has_text, valid_github_repository, valid_git_branch}

pub record HostConfig : Type 0 where
  pub kind : Bytes
  pub path : Bytes
  pub target : Bytes
  pub bucket : Bytes
  pub prefix : Bytes
  pub region : Bytes
  pub endpoint : Bytes
  pub canonical_endpoint : Bytes
  pub use_path_style : Bool
  pub read_auth : Bytes
  pub credential_broker : Bytes
  pub repository : Bytes
  pub branch : Bytes
  pub preview_repository : Bytes
  pub preview_branch : Bytes
  pub preview_endpoint : Bytes

-- The fields of `Repository` that the check of its host reads.
pub record HostedRepository : Type 0 where
  pub format : Bytes
  pub gate : Bytes
  pub visibility : Bytes
  pub keep : ℤ
  pub host : HostConfig

abbrev pub served_formats : Bytes → List Bytes
served_formats kind =
    if kind ==ᵇ codes "s3"
    then codes "pypi" ∷ codes "helm" ∷ codes "rpm" ∷ codes "raw" ∷ []
    else if mem kind (codes "local" ∷ codes "rsync" ∷ codes "github-pages" ∷ [])
    then codes "pypi" ∷ codes "deb" ∷ codes "helm" ∷ codes "raw" ∷ codes "rpm" ∷ codes "apk" ∷ []
    else []

-- `Supports(hostType, format).Supported()`
unfoldable pub supports : Bytes → Bytes → Bool
unfolding mem ◌==ᵇ◌
supports kind format = mem format (served_formats kind)

-- All of the fields are empty.
unfoldable pub unset : List Bytes → Bool
unfolding every ◌==ᵇ◌
unset = every (λ s. s ==ᵇ [])

abbrev is_target_space : ℕ → Bool
is_target_space c = c == 32 || c == 9 || c == 13 || c == 10 || c == 0

abbrev pub is_negative : ℤ → Bool
is_negative (pos n) = false
is_negative (negsuc n) = true

module _ (parse_url : Bytes → Option Url) (clean : Bytes → Bytes) where
  unfoldable pub valid_local_host : HostedRepository → Bool
  unfolding valid_relative_path unset valid_http_url ◌==ᵇ◌
  valid_local_host r =
      valid_relative_path parse_url clean r.host.path
      && unset (
          r.host.bucket ∷ r.host.prefix ∷ r.host.endpoint ∷ r.host.read_auth
          ∷ r.host.credential_broker ∷ r.host.repository ∷ r.host.preview_repository
          ∷ r.host.preview_endpoint ∷ r.host.branch ∷ r.host.preview_branch ∷ [])
      && (r.host.canonical_endpoint ==ᵇ []
          || valid_http_url parse_url clean r.host.canonical_endpoint)

  unfoldable pub valid_rsync_host : HostedRepository → Bool
  unfolding supports contains has_prefix unset valid_http_url ◌==ᵇ◌
  valid_rsync_host r =
      supports (codes "rsync") r.format
      && not (r.host.target ==ᵇ [])
      && not (contains is_target_space r.host.target)
      && has_prefix r.host.path (codes "/")
      && not (clean r.host.path ==ᵇ codes "/")
      && unset (r.host.bucket ∷ r.host.prefix ∷ r.host.repository ∷ r.host.branch ∷ [])
      && r.visibility ==ᵇ codes "public"
      && (r.host.canonical_endpoint ==ᵇ []
          || valid_http_url parse_url clean r.host.canonical_endpoint)

  -- The read credentials that the visibility asks for.
  unfoldable pub valid_read_auth : HostedRepository → Bool
  unfolding ◌==ᵇ◌
  valid_read_auth r =
      not (
        r.visibility ==ᵇ codes "private"
        && (not (r.host.read_auth ==ᵇ codes "basic")
            || not (r.host.credential_broker ==ᵇ codes "default")))
      && not (
          r.visibility ==ᵇ codes "public"
          && (not (r.host.read_auth ==ᵇ []) || not (r.host.credential_broker ==ᵇ [])))

  unfoldable pub valid_prefix : Bytes → Bool
  unfolding ◌==ᵇ◌ has_prefix has_suffix
  valid_prefix prefix =
      prefix ==ᵇ []
      || not (has_prefix prefix (codes "/"))
        && not (has_suffix prefix (codes "/"))
        && clean prefix ==ᵇ prefix
        && not (has_prefix prefix (codes "../"))

  unfoldable pub valid_s3_host : HostedRepository → Bool
  unfolding supports valid_read_auth unset valid_prefix valid_http_url is_secure ◌==ᵇ◌
  valid_s3_host r =
      supports (codes "s3") r.format
      && valid_read_auth r
      && not (r.host.bucket ==ᵇ [])
      && not (r.host.canonical_endpoint ==ᵇ [])
      && unset (
          r.host.path ∷ r.host.repository ∷ r.host.preview_repository ∷ r.host.preview_endpoint
          ∷ r.host.branch ∷ r.host.preview_branch ∷ [])
      && valid_prefix r.host.prefix
      && valid_http_url parse_url clean r.host.canonical_endpoint
      && is_secure parse_url clean r.host.canonical_endpoint
      && (r.host.endpoint ==ᵇ []
          || valid_http_url parse_url clean r.host.endpoint
            && is_secure parse_url clean r.host.endpoint)

  unfoldable pub has_preview : HostedRepository → Bool
  unfolding ◌==ᵇ◌
  has_preview r =
      not (r.host.preview_repository ==ᵇ [])
      || not (r.host.preview_branch ==ᵇ [])
      || not (r.host.preview_endpoint ==ᵇ [])

  unfoldable pub valid_preview : HostedRepository → Bool
  unfolding valid_github_repository to_lower same_endpoint valid_git_branch valid_http_url is_secure
      ◌==ᵇ◌
  valid_preview r =
      valid_github_repository r.host.preview_repository
      && not (to_lower r.host.repository ==ᵇ to_lower r.host.preview_repository)
      && not (same_endpoint parse_url clean r.host.canonical_endpoint r.host.preview_endpoint)
      && valid_git_branch r.host.preview_branch
      && valid_http_url parse_url clean r.host.preview_endpoint
      && is_secure parse_url clean r.host.preview_endpoint

  unfoldable pub valid_pages_host : HostedRepository → Bool
  unfolding supports unset valid_github_repository valid_git_branch has_preview valid_preview
      valid_http_url is_secure ◌==ᵇ◌
  valid_pages_host r =
      supports (codes "github-pages") r.format
      && r.visibility ==ᵇ codes "public"
      && unset (
          r.host.path ∷ r.host.bucket ∷ r.host.prefix ∷ r.host.region ∷ r.host.endpoint
          ∷ r.host.read_auth ∷ r.host.credential_broker ∷ [])
      && not r.host.use_path_style
      && valid_github_repository r.host.repository
      && valid_git_branch r.host.branch
      && (has_preview r || r.gate ==ᵇ codes "auto" || r.gate ==ᵇ [])
      && (not (has_preview r) || valid_preview r)
      && valid_http_url parse_url clean r.host.canonical_endpoint
      && is_secure parse_url clean r.host.canonical_endpoint

  -- `validateRepositoryHost`; whether there is no error.
  unfoldable pub valid_repository_host : HostedRepository → Bool
  unfolding valid_local_host valid_rsync_host valid_s3_host valid_pages_host ◌==ᵇ◌
  valid_repository_host r =
      not (is_negative r.keep)
      && (r.visibility ==ᵇ codes "public" || r.visibility ==ᵇ codes "private")
      && (if r.host.kind ==ᵇ codes "local"
          then valid_local_host r
          else if r.host.kind ==ᵇ codes "rsync"
          then valid_rsync_host r
          else if r.host.kind ==ᵇ codes "s3"
          then valid_s3_host r
          else if r.host.kind ==ᵇ codes "github-pages"
          then valid_pages_host r
          else false)
