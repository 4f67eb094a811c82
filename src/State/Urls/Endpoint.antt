-- ===== src/State/Urls/Endpoint.antt =====
-- What an accepted endpoint guarantees.
use snailmail.Base.{
  Bool-cases, Bytes, codes, ◌==ᵇ◌, ==ᵇ_iff, ◌≡◌, refl, ◌⊎◌, inl, inr, Bool, true, false, Option,
  none, some, [], arith,
}
use snailmail.State.Urls.{Url, is_loopback_host, is_plain, is_secure_url, valid_http_url, is_secure}

abbrev is_over_https : Url → Bool
is_over_https u = u.scheme ==ᵇ codes "https"

https_or_loopback :
    (u : Url)
    → is_secure_url (some u) ≡ true
    → (u.scheme ≡ codes "https") ⊎ (is_loopback_host u.hostname ≡ true)
https_or_loopback u h = elim (Bool-cases (is_over_https u)) [
  | inl is ↦ inl ((==ᵇ_iff u.scheme (codes "https")).0 is)
  | inr other ↦ inr (ground arith)
]

url_lem :
    (o : Option Url)
    → is_plain o ≡ true
    → is_secure_url o ≡ true
    → (u : Url) × (o ≡ some u)
      × (u.has_user ≡ false)
      × (u.raw_query ≡ [])
      × (u.fragment ≡ [])
      × ((u.scheme ≡ codes "https") ⊎ (is_loopback_host u.hostname ≡ true))
url_lem none plain secure = cc
url_lem (some u) plain secure = (
  u,
  refl,
  ground arith,
  (==ᵇ_iff u.raw_query []).0 (ground arith),
  (==ᵇ_iff u.fragment []).0 (ground arith),
  https_or_loopback u secure,
)

module _ (parse_url : Bytes → Option Url) (clean : Bytes → Bytes) where
  -- A URL without credentials, query or fragment, over HTTPS or of this machine.
  abbrev pub SafeEndpoint : Bytes → Type 0
  SafeEndpoint value =
      (u : Url) × (parse_url value ≡ some u)
      × (u.has_user ≡ false)
      × (u.raw_query ≡ [])
      × (u.fragment ≡ [])
      × ((u.scheme ≡ codes "https") ⊎ (is_loopback_host u.hostname ≡ true))

  pub is_secure-SafeEndpoint :
      (value : Bytes)
      → valid_http_url parse_url clean value ≡ true
      → is_secure parse_url clean value ≡ true
      → SafeEndpoint value
  unfolding valid_http_url is_secure
  is_secure-SafeEndpoint value plain secure = url_lem (parse_url value) (ground arith) secure
