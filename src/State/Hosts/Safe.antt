-- ===== src/State/Hosts/Safe.antt =====
-- What a repository's host configuration guarantees once it is accepted.
use snailmail.Base.{
  if◌then◌else◌, Bool-cases, Bytes, codes, ◌==ᵇ◌, ==ᵇ_iff, and_split, left_of, refuted, distinct,
  ◌≡◌, refl, ap, ◌≢◌, ◌⊎◌, inl, inr, Bool, true, false, not, ◌||◌, Option, [], arith,
}
use snailmail.Hexdigest.{to_lower}
use snailmail.State.Urls.{Url}
use snailmail.State.Urls.Endpoint.{SafeEndpoint, is_secure-SafeEndpoint}
use snailmail.State.Hosts.{
  HostedRepository, supports, valid_read_auth, valid_s3_host, valid_rsync_host, valid_local_host,
  valid_pages_host, has_preview, valid_preview, valid_repository_host,
}

module _ (parse_url : Bytes → Option Url) (clean : Bytes → Bytes) where
  -- What an accepted host configuration guarantees, by the type of the host.
  abbrev pub LocalHost : HostedRepository → Type 0
  LocalHost r = r.host.kind ≡ codes "local"

  abbrev pub RsyncHost : HostedRepository → Type 0
  RsyncHost r =
      (r.host.kind ≡ codes "rsync")
      × (r.visibility ≡ codes "public")
      × (supports (codes "rsync") r.format ≡ true)

  abbrev pub S3Host : HostedRepository → Type 0
  S3Host r =
      (r.host.kind ≡ codes "s3")
      × (supports (codes "s3") r.format ≡ true)
      × SafeEndpoint parse_url clean r.host.canonical_endpoint
      × ((r.visibility ≡ codes "public")
          ⊎ ((r.host.read_auth ≡ codes "basic") × (r.host.credential_broker ≡ codes "default")))

  abbrev pub PagesHost : HostedRepository → Type 0
  PagesHost r =
      (r.host.kind ≡ codes "github-pages")
      × (supports (codes "github-pages") r.format ≡ true)
      × (r.visibility ≡ codes "public")
      × SafeEndpoint parse_url clean r.host.canonical_endpoint
      × (((r.gate ≡ codes "auto") ⊎ (r.gate ≡ []))
          ⊎ (SafeEndpoint parse_url clean r.host.preview_endpoint
              × (r.host.repository ≢ r.host.preview_repository)))

  -- Read credentials for a repository that is not public.
  read_auth_lem :
      (r : HostedRepository)
      → (r.visibility ==ᵇ codes "public" || r.visibility ==ᵇ codes "private") ≡ true
      → valid_read_auth parse_url clean r ≡ true
      → (r.visibility ≡ codes "public")
        ⊎ ((r.host.read_auth ≡ codes "basic") × (r.host.credential_broker ≡ codes "default"))
  unfolding valid_read_auth
  read_auth_lem r visible h = elim (Bool-cases (r.visibility ==ᵇ codes "public")) [
    | inl is ↦ inl ((==ᵇ_iff r.visibility (codes "public")).0 is)
    | inr other ↦ inr (
      (==ᵇ_iff r.host.read_auth (codes "basic")).0 (ground arith),
      (==ᵇ_iff r.host.credential_broker (codes "default")).0 (ground arith),
    )
  ]

  s3_lem :
      (r : HostedRepository)
      → (r.host.kind ==ᵇ codes "s3") ≡ true
      → (r.visibility ==ᵇ codes "public" || r.visibility ==ᵇ codes "private") ≡ true
      → valid_s3_host parse_url clean r ≡ true
      → S3Host r
  unfolding valid_s3_host
  s3_lem r kind visible h =
      let (m1, _) = and_split _ _ h in
      let (m2, secure) = and_split _ _ m1 in
      let (m3, plain) = and_split _ _ m2 in
      let (m4, _) = and_split _ _ m3 in
      let (m5, _) = and_split _ _ m4 in
      let (m6, _) = and_split _ _ m5 in
      let (m7, _) = and_split _ _ m6 in
      let (served, auth) = and_split _ _ m7 in
      (
        (==ᵇ_iff r.host.kind (codes "s3")).0 kind,
        served,
        is_secure-SafeEndpoint parse_url clean r.host.canonical_endpoint plain secure,
        read_auth_lem r visible auth,
      )

  implied : (a b : Bool) → a ≡ true → (not a || b) ≡ true → b ≡ true
  implied true b h k = k
  implied false b h k = cc

  distinct_preview :
      (r : HostedRepository)
      → valid_preview parse_url clean r ≡ true
      → SafeEndpoint parse_url clean r.host.preview_endpoint
        × (r.host.repository ≢ r.host.preview_repository)
  unfolding valid_preview
  distinct_preview r h =
      let (m1, secure) = and_split _ _ h in
      let (m2, plain) = and_split _ _ m1 in
      let (m3, _) = and_split _ _ m2 in
      let (m4, _) = and_split _ _ m3 in
      let (_, distinct) = and_split _ _ m4 in
      (
        is_secure-SafeEndpoint parse_url clean r.host.preview_endpoint plain secure,
        λ same. refuted _ distinct (
            (==ᵇ_iff (to_lower r.host.repository) (to_lower r.host.preview_repository)).1
              (ap to_lower same)),
      )

  preview_lem :
      (r : HostedRepository)
      → (has_preview parse_url clean r || r.gate ==ᵇ codes "auto" || r.gate ==ᵇ []) ≡ true
      → (not (has_preview parse_url clean r) || valid_preview parse_url clean r) ≡ true
      → ((r.gate ≡ codes "auto") ⊎ (r.gate ≡ []))
        ⊎ (SafeEndpoint parse_url clean r.host.preview_endpoint
            × (r.host.repository ≢ r.host.preview_repository))
  preview_lem r reviewed h = elim (Bool-cases (r.gate ==ᵇ codes "auto")) [
    | inl is ↦ inl (inl ((==ᵇ_iff r.gate (codes "auto")).0 is))
    | inr not_auto ↦ elim (Bool-cases (r.gate ==ᵇ [])) [
      | inl is ↦ inl (inr ((==ᵇ_iff r.gate []).0 is))
      | inr named ↦ inr (distinct_preview r (implied _ _ (left_of _ _ _ reviewed not_auto named) h))
    ]
  ]

  pages_lem :
      (r : HostedRepository)
      → (r.host.kind ==ᵇ codes "github-pages") ≡ true
      → valid_pages_host parse_url clean r ≡ true
      → PagesHost r
  unfolding valid_pages_host
  pages_lem r kind h =
      let (m1, secure) = and_split _ _ h in
      let (m2, plain) = and_split _ _ m1 in
      let (m3, previewed) = and_split _ _ m2 in
      let (m4, reviewed) = and_split _ _ m3 in
      let (m5, _) = and_split _ _ m4 in
      let (m6, _) = and_split _ _ m5 in
      let (m7, _) = and_split _ _ m6 in
      let (m8, _) = and_split _ _ m7 in
      let (served, public) = and_split _ _ m8 in
      (
        (==ᵇ_iff r.host.kind (codes "github-pages")).0 kind,
        served,
        (==ᵇ_iff r.visibility (codes "public")).0 public,
        is_secure-SafeEndpoint parse_url clean r.host.canonical_endpoint plain secure,
        preview_lem r reviewed previewed,
      )

  rsync_lem :
      (r : HostedRepository)
      → (r.host.kind ==ᵇ codes "rsync") ≡ true
      → valid_rsync_host parse_url clean r ≡ true
      → RsyncHost r
  unfolding valid_rsync_host
  rsync_lem r kind h =
      let (m1, _) = and_split _ _ h in
      let (m2, public) = and_split _ _ m1 in
      let (m3, _) = and_split _ _ m2 in
      let (m4, _) = and_split _ _ m3 in
      let (m5, _) = and_split _ _ m4 in
      let (m6, _) = and_split _ _ m5 in
      let (served, _) = and_split _ _ m6 in
      (
        (==ᵇ_iff r.host.kind (codes "rsync")).0 kind,
        (==ᵇ_iff r.visibility (codes "public")).0 public,
        served,
      )

  -- The branches of the check by the type of the host.
  by_kind :
      (is_local is_rsync is_s3 is_pages l y s p : Bool)
      → (if is_local
          then l
          else if is_rsync
          then y
          else if is_s3
          then s
          else if is_pages
          then p
          else false)
        ≡ true
      → (is_local ≡ true)
        ⊎ (((is_rsync ≡ true) × (y ≡ true))
            ⊎ (((is_s3 ≡ true) × (s ≡ true)) ⊎ ((is_pages ≡ true) × (p ≡ true))))
  by_kind true is_rsync is_s3 is_pages l y s p h = inl refl
  by_kind false true is_s3 is_pages l y s p h = inr (inl (refl, h))
  by_kind false false true is_pages l y s p h = inr (inr (inl (refl, h)))
  by_kind false false false true l y s p h = inr (inr (inr (refl, h)))
  by_kind false false false false l y s p h = cc

  -- A host configuration that is accepted is of one of four types. A repository that is not public is
  -- on a local host, or on S3 with Basic authentication and the default broker. The remote types
  -- serve the format; on S3 and on GitHub Pages the canonical endpoint is an HTTPS URL, or a loopback
  -- one, without credentials, query or fragment. On GitHub Pages a gate other than `auto` has such a
  -- preview endpoint, of another repository.
  pub valid_repository_host_lem :
      (r : HostedRepository)
      → valid_repository_host parse_url clean r ≡ true
      → LocalHost r ⊎ (RsyncHost r ⊎ (S3Host r ⊎ PagesHost r))
  unfolding valid_repository_host
  valid_repository_host_lem r h =
      let (m1, placed) = and_split _ _ h in
      let (_, visible) = and_split _ _ m1 in
      elim (by_kind (r.host.kind ==ᵇ codes "local") (r.host.kind ==ᵇ codes "rsync")
        (r.host.kind ==ᵇ codes "s3") (r.host.kind ==ᵇ codes "github-pages")
        (valid_local_host parse_url clean r) (valid_rsync_host parse_url clean r)
        (valid_s3_host parse_url clean r) (valid_pages_host parse_url clean r) placed) [
          | inl is ↦ inl ((==ᵇ_iff r.host.kind (codes "local")).0 is)
          | inr (inl (is, valid)) ↦ inr (inl (rsync_lem r is valid))
          | inr (inr (inl (is, valid))) ↦ inr (inr (inl (s3_lem r is visible valid)))
          | inr (inr (inr (is, valid))) ↦ inr (inr (inr (pages_lem r is valid)))
        ]
