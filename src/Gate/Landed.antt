-- ===== src/Gate/Landed.antt =====
-- What stands behind a pull-request gate that opens, and which evidence each policy asks for.
use snailmail.Base.{
  if◌then◌else◌, Bytes, ◌==ᵇ◌, ==ᵇ_iff, ℤ, pos, negsuc, Any, ℕ, ◌<◌, ◌≡◌, refl, ◌≢◌, ◌⊎◌, inl, inr,
  Bool, true, false, Option, none, some, List, [], ◌∷◌, arith,
}
use snailmail.Gate.Approval.{Requirement}
use snailmail.Gate.Review.{
  Target, RepositoryInfo, PullRequest, Ancestry, Forge, target_of, is_positive, is_landed,
  is_reachable, any_merged, review_pulls, review_repository, review_resolved, verify_merged_pr,
}

-- A numbered pull request that was merged into the branch.
abbrev pub Landed : Bytes → PullRequest → Type 0
Landed default_branch pull =
    ((number : ℕ) × (pull.number ≡ pos number) × (0 < number))
    × (pull.merged ≡ true)
    × (pull.base_branch ≡ default_branch)

is_positive_lem : (n : ℤ) → is_positive n ≡ true → (m : ℕ) × (n ≡ pos m) × (0 < m)
is_positive_lem (pos n) h = (n, refl, ground arith)
is_positive_lem (negsuc n) h = cc

is_landed-Landed :
    (default_branch : Bytes) (pull : PullRequest)
    → is_landed default_branch pull ≡ true
    → Landed default_branch pull
unfolding is_landed
is_landed-Landed default_branch pull h = (
  is_positive_lem pull.number (ground arith),
  ground arith,
  (==ᵇ_iff pull.base_branch default_branch).0 (ground arith),
)

is_reachable_lem :
    (revision : Bytes) (answer : Option Ancestry)
    → is_reachable revision answer ≡ true
    → (found : Ancestry) × (answer ≡ some found)
      × (found.contains ≡ true)
      × (found.merge_base ≡ revision)
unfolding is_reachable
is_reachable_lem revision none h = cc
is_reachable_lem revision (some found) h =
    (found, refl, ground arith, (==ᵇ_iff found.merge_base revision).0 (ground arith))

module _ {W : Type 0} (forge : Forge W) (target : Target) (revision : Bytes) where
  -- The forge has said that the branch contains the revision.
  abbrev Reachable : Bytes → Type 0
  Reachable default_branch =
      (w : W) × ((found : Ancestry) × ((forge.ancestry target revision default_branch w).0
          ≡ some found)
        × (found.contains ≡ true)
        × (found.merge_base ≡ revision))

  found_in :
      (landed reachable : Bool) (v : W) (later skipped : Bool × W)
      → (if landed then (if reachable then (true, v) else later) else skipped).0 ≡ true
      → ((landed ≡ true) × (reachable ≡ true)) ⊎ ((later.0 ≡ true) ⊎ (skipped.0 ≡ true))
  found_in true true v later skipped h = inl (refl, refl)
  found_in true false v later skipped h = inr (inl h)
  found_in false reachable v later skipped h = inr (inr h)

  any_merged_lem :
      (default_branch : Bytes) (pulls : List PullRequest) (w : W)
      → (any_merged forge target revision default_branch pulls w).0 ≡ true
      → Any (Landed default_branch) pulls × Reachable default_branch
  unfolding any_merged
  any_merged_lem default_branch [] w h = cc
  any_merged_lem default_branch (pull ∷ pulls) w h =
      elim (found_in (is_landed default_branch pull)
        (is_reachable revision (forge.ancestry target revision default_branch w).0)
        (forge.ancestry target revision default_branch w).1
        (any_merged forge target revision default_branch pulls
          (forge.ancestry target revision default_branch w).1)
        (any_merged forge target revision default_branch pulls w) h) [
          | inl (landed, reachable) ↦ (
            inl (is_landed-Landed default_branch pull landed),
            (w, is_reachable_lem revision _ reachable),
          )
          | inr (inl later) ↦ there (any_merged_lem default_branch pulls _ later)
          | inr (inr skipped) ↦ there (any_merged_lem default_branch pulls w skipped)
        ]
    where
      there :
          Any (Landed default_branch) pulls × Reachable default_branch
          → Any (Landed default_branch) (pull ∷ pulls) × Reachable default_branch
      there (found, reachable) = (inr found, reachable)

  -- What the forge has answered.
  abbrev pub Reviewed : Type 0
  Reviewed =
      (info : RepositoryInfo) × (pulls : List PullRequest) × ((v : W) × ((forge.repository target
            v).0
          ≡ some info))
      × ((v : W) × ((forge.pull_requests target revision v).0 ≡ some pulls))
      × Any (Landed info.default_branch) pulls
      × Reachable info.default_branch

  review_pulls_lem :
      (info : RepositoryInfo) (answer : Option (List PullRequest) × W)
      → (review_pulls forge target revision (some info) answer).0 ≡ true
      → (pulls : List PullRequest) × (answer.0 ≡ some pulls)
        × Any (Landed info.default_branch) pulls
        × Reachable info.default_branch
  unfolding review_pulls
  review_pulls_lem info (none, w) h = cc
  review_pulls_lem info (some pulls, w) h =
      let (landed, reachable) = any_merged_lem info.default_branch pulls w h in
      (pulls, refl, landed, reachable)

  review_repository_lem :
      (answer : Option RepositoryInfo × W)
      → ((v : W) × ((forge.repository target v).0 ≡ answer.0))
      → (review_repository forge target revision answer).0 ≡ true
      → Reviewed
  unfolding review_repository
  review_repository_lem (none, w) asked h = cc
  review_repository_lem (some info, w) asked h =
      let (pulls, answered, landed, reachable) =
        review_pulls_lem info (forge.pull_requests target revision w) h in
      (info, pulls, asked, (w, answered), landed, reachable)

  review_resolved_lem :
      (answer : Bool × W) → (review_resolved forge target revision answer).0 ≡ true → Reviewed
  unfolding review_resolved
  review_resolved_lem (false, w) h = cc
  review_resolved_lem (true, w) h = review_repository_lem (forge.repository target w) (w, refl) h

named_target :
    {W : Type 0} (b : Bool) (w : W) (x : Bool × W)
    → (if b then (false, w) else x).0 ≡ true
    → (b ≡ false) × (x.0 ≡ true)
named_target true w x h = cc
named_target false w x h = (refl, h)

-- Where the pull-request gate opens, the plan names a forge repository and a forge is configured
-- which has answered, of that repository, what its default branch is, that a pull request of the
-- revision with a positive number was merged into that branch, and that the branch contains the
-- revision, which is its own merge base with it.
pub verify_merged_pr_lem :
    {W : Type 0} (forges : Option (Forge W)) (requirement : Requirement) (revision : Bytes) (w : W)
    → (verify_merged_pr forges requirement revision w).0 ≡ true
    → (requirement.forge_repository ≢ [])
      × (forge : Forge W) × (forges ≡ some forge)
      × Reviewed forge (target_of requirement) revision
unfolding verify_merged_pr
verify_merged_pr_lem none requirement revision w h = cc
verify_merged_pr_lem (some forge) requirement revision w h =
    let (named, resolved) = named_target (requirement.forge_repository ==ᵇ []) w _ h in
    (
      λ e. absurd ((==ᵇ_iff requirement.forge_repository []).1 e) named,
      forge,
      refl,
      review_resolved_lem forge (target_of requirement) revision
          (forge.resolve (target_of requirement) w) resolved,
    )
  where
    absurd : {b : Bool} → b ≡ true → b ≡ false → ⊥
    absurd p q = cc
