-- ===== src/Gate/Review.antt =====
-- gate/gate.go: verifyMergedPR; forge/forge.go: what the gate asks of a forge. The forge is a
-- parameter: its own state, and for each question an answer and the state after it.
use snailmail.Base.{
  ltb, if◌then◌else◌, Bytes, ◌==ᵇ◌, ℤ, pos, negsuc, Bool, true, false, ◌&&◌, Option, none, some,
  List, [], ◌∷◌,
}
use snailmail.Gate.Approval.{Requirement}

-- `forge.Repository`
pub record Target : Type 0 where
  pub name : Bytes
  pub provider : Bytes
  pub host : Bytes
  pub working_directory : Bytes

pub record RepositoryInfo : Type 0 where
  pub name : Bytes
  pub default_branch : Bytes

pub record PullRequest : Type 0 where
  pub number : ℤ
  pub merged : Bool
  pub base_branch : Bytes

pub record Ancestry : Type 0 where
  pub contains : Bool
  pub merge_base : Bytes

-- The forge that the resolver selects, or `none`.
pub record Forge (W : Type 0) : Type 0 where
  pub resolve : Target → W → Bool × W
  pub repository : Target → W → Option RepositoryInfo × W
  pub pull_requests : Target → Bytes → W → Option (List PullRequest) × W
  pub ancestry : Target → Bytes → Bytes → W → Option Ancestry × W

abbrev pub target_of : Requirement → Target
target_of requirement = record {
  name = requirement.forge_repository;
  provider = requirement.forge;
  host = requirement.forge_host;
  working_directory = requirement.root;
}

abbrev pub is_positive : ℤ → Bool
is_positive (pos n) = ltb 0 n
is_positive (negsuc n) = false

-- Whether a pull request landed on the default branch.
unfoldable pub is_landed : Bytes → PullRequest → Bool
unfolding ◌==ᵇ◌
is_landed default_branch pull =
    is_positive pull.number && pull.merged && pull.base_branch ==ᵇ default_branch

-- Whether the branch is known to contain the revision.
unfoldable pub is_reachable : Bytes → Option Ancestry → Bool
unfolding ◌==ᵇ◌
is_reachable revision none = false
is_reachable revision (some a) = a.contains && a.merge_base ==ᵇ revision

module _ {W : Type 0} (forge : Forge W) (target : Target) (revision : Bytes) where
  -- The ancestry is asked again for each pull request that landed.
  unfoldable pub any_merged : Bytes → List PullRequest → W → Bool × W
  unfolding is_landed is_reachable
  any_merged default_branch [] w = (false, w)
  any_merged default_branch (pull ∷ pulls) w =
      let (answer, v) = forge.ancestry target revision default_branch w in
      let after = any_merged default_branch pulls v in
      let skipped = any_merged default_branch pulls w in
      if is_landed default_branch pull
      then (if is_reachable revision answer then (true, v) else after)
      else skipped

  unfoldable pub review_pulls : Option RepositoryInfo → Option (List PullRequest) × W → Bool × W
  unfolding any_merged
  review_pulls (some info) (some pulls, w) = any_merged info.default_branch pulls w
  review_pulls _ (_, w) = (false, w)

  unfoldable pub review_repository : Option RepositoryInfo × W → Bool × W
  unfolding review_pulls
  review_repository (none, w) = (false, w)
  review_repository (some info, w) =
      review_pulls (some info) (forge.pull_requests target revision w)

  unfoldable pub review_resolved : Bool × W → Bool × W
  unfolding review_repository
  review_resolved (false, w) = (false, w)
  review_resolved (true, w) = review_repository (forge.repository target w)

-- `verifyMergedPR`, where `none` is a resolver that was not configured.
unfoldable pub verify_merged_pr :
    {W : Type 0} → Option (Forge W) → Requirement → Bytes → W → Bool × W
unfolding ◌==ᵇ◌ review_resolved
verify_merged_pr none requirement revision w = (false, w)
verify_merged_pr (some forge) requirement revision w =
    if requirement.forge_repository ==ᵇ []
    then (false, w)
    else review_resolved forge (target_of requirement) revision
        (forge.resolve (target_of requirement) w)
