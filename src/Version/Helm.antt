-- ===== src/Version/Helm.antt =====
-- formats/helm/version.go. Package semver is a parameter: `new_version` is `semver.NewVersion`, whose
-- error is `none`, and `compare_semver` is `(*semver.Version).Compare`.
use snailmail.Base.{Bytes, of_option, Result, ok, Ordering, Option, ◌>>=◌}

module _ {V : Type 0} (new_version : Bytes → Option V) (compare_semver : V → V → Ordering) where
  unfoldable pub compare_versions : Bytes → Bytes → Result Ordering
  compare_versions left right = do
    left_version ← of_option (new_version left)
    right_version ← of_option (new_version right)
    ok (compare_semver left_version right_version)
