-- ===== src/Tests/Versions.antt =====
-- The version comparators of the formats on versions of real packages.
use snailmail.Base.{
  Bytes, codes, IsPreorder-compare, parse_uint, IsComparator, ok, ℕ, compare, lt, eq, ◌≡◌, refl,
  Option, [], ◌∷◌, ◌++◌,
}
use snailmail.Version.Deb
use snailmail.Version.Deb.Parts.{compare_runs, runs}
use snailmail.Version.Deb.Order.{compare_version_part-runs}
use snailmail.Version.Rpm
use snailmail.Version.Rpm.Tokens.{compare_tokens, tokens}
use snailmail.Version.Rpm.Loop.{compare_segments-tokens}
use snailmail.Version.Apk
use snailmail.Version.Pypi
use snailmail.Version.Raw
use snailmail.Version.Raw.Order.{raw_order, raw_versions-IsComparator}
use snailmail.Version.Helm

deb_tilde : Deb.compare_versions (codes "1:1.0~rc1-2") (codes "1:1.0-1") ≡ ok lt
unfolding Deb.compare_versions
deb_tilde = refl

rpm_tilde : Rpm.compare_versions (codes "1.0~rc1") (codes "0:1.0-") ≡ ok lt
unfolding Rpm.compare_versions
rpm_tilde = refl

rpm_separators : Rpm.compare_versions (codes "1.010-1") (codes "1.10.-01") ≡ ok eq
unfolding Rpm.compare_versions
rpm_separators = refl

apk_suffix : Apk.compare_versions (codes "1.2.3a_rc1-r4") (codes "1.2.3a-r4") ≡ ok lt
unfolding Apk.compare_versions
apk_suffix = refl

-- Past 63 bits a component is compared as text, so 5 is below 10, 10 is below this number, and this
-- number is below 5.
apk_cycle_low : Apk.compare_versions (codes "5") (codes "10") ≡ ok lt
unfolding Apk.compare_versions
apk_cycle_low = refl

apk_cycle_high : Apk.compare_versions (codes "10") (codes "10000000000000000000") ≡ ok lt
unfolding Apk.compare_versions
apk_cycle_high = refl

apk_cycle_back : Apk.compare_versions (codes "10000000000000000000") (codes "5") ≡ ok lt
unfolding Apk.compare_versions
apk_cycle_back = refl

pypi_zeros : Pypi.compare_versions (codes "1.0.0") (codes "1") ≡ ok eq
unfolding Pypi.compare_versions
pypi_zeros = refl

-- U+00A0 around the text, U+017F in `post` and U+212A in the local part.
pypi_unicode :
    Pypi.compare_versions
      (194
        ∷ 160
        ∷ (codes "1.0.PO" ++ 197 ∷ 191 ∷ (codes "t1+" ++ 226 ∷ 132 ∷ 170 ∷ 226 ∷ 128 ∷ 169 ∷ [])))
      (codes "1.0.post1+k")
    ≡ ok eq
unfolding Pypi.compare_versions
pypi_unicode = refl

compare_version_part-runs_example :
    Deb.compare_version_part (codes "1.0~rc1") (codes "1.00")
    ≡ ok (compare_runs (runs (codes "1.0~rc1")) (runs (codes "1.00")))
compare_version_part-runs_example = compare_version_part-runs (codes "1.0~rc1") (codes "1.00")

compare_segments-tokens_example :
    Rpm.compare_segments (codes "1.0^git1") (codes "1.0.1")
    ≡ ok (compare_tokens (tokens (codes "1.0^git1")) (tokens (codes "1.0.1")))
compare_segments-tokens_example = compare_segments-tokens (codes "1.0^git1") (codes "1.0.1")

-- A stand-in for package semver: numbers, in their order.
abbrev new_version : Bytes → Option ℕ
new_version = parse_uint 18446744073709551616

raw_versions-IsComparator_example :
    IsComparator (Raw.compare_versions new_version compare)
    × ((a b : Bytes)
        → Raw.compare_versions new_version compare a b ≡ ok (raw_order new_version compare a b))
raw_versions-IsComparator_example = raw_versions-IsComparator new_version compare IsPreorder-compare

helm_order : Helm.compare_versions new_version compare (codes "2") (codes "10") ≡ ok lt
unfolding Helm.compare_versions parse_uint
helm_order = refl
