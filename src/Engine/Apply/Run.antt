-- ===== src/Engine/Apply/Run.antt =====
-- The state of an apply, the environment it calls, and its elementary calls. The environment is a
-- parameter: a state of its own, and for each call an answer and the state after it. The trace lists
-- the calls that take effect, the newest first; nothing in the code reads it.
use snailmail.Base.{
  Bytes, Result, ok, err, out_of_fuel, ℕ, Bool, true, false, Option, none, some, List, [], ◌∷◌,
}
use snailmail.Engine.Host.{
  ClientAccess, PublishedRevision, RestoreRef, StagedPublication, CommitResult,
}
use snailmail.Engine.Rotation.{DeploymentRecord, SigningState}

-- The fields of `state.PlanRepository` that an apply reads; `observed` stands for its nine fields
-- `Observed…`.
pub record PlanRepository : Type 0 where
  pub name : Bytes
  pub action : Bytes
  pub change_id : Bytes
  pub desired_tree_sha256 : Bytes
  pub desired_manifest_sha256 : Bytes
  pub observed : PublishedRevision
  pub approval_keys : List Bytes
  pub publication_records : Bool

-- `applyRepository`, with what an apply reads of its repository and host repository.
pub record ApplyRepository : Type 0 where
  pub planned : PlanRepository
  pub gate : Bytes
  pub format : Bytes
  pub host_type : Bytes
  pub observed : PublishedRevision
  pub host_stage : StagedPublication
  pub current : Bool
  pub deployment : DeploymentRecord
  pub signing_state : SigningState

-- The parts of the plan and the request that the phases read.
pub record Settings : Type 0 where
  pub plan_id : Bytes
  pub created_at : Bytes
  pub git_revision : Bytes
  pub expires_at : ℕ
  pub structural_only : Bool
  pub dry_run : Bool
  pub has_gates : Bool
  pub ledger_committed : Bool
  pub ledger_repositories : List Bytes

pub record Environment (W : Type 0) : Type 0 where
  pub current_time : W → ℕ × W
  -- `Gates.Authorize` at an instant
  pub gate : ApplyRepository → ℕ → W → Bool × W
  pub stage_files : ApplyRepository → W → Bool × W
  pub stage : ApplyRepository → W → (StagedPublication × Bool) × W
  pub commit : ApplyRepository → PublishedRevision → W → Option CommitResult × W
  pub observe : ApplyRepository → W → Option PublishedRevision × W
  pub read_access : ApplyRepository → PublishedRevision → W → Option ClientAccess × W
  pub restore : ApplyRepository → RestoreRef → PublishedRevision → W → Bool × W
  pub abort : ApplyRepository → W → W
  -- `verifyStaged`, `verifyEndpointClient` and `verifyCanonicalClient`
  pub verify_staged : ApplyRepository → W → Bool × W
  pub verify_endpoint : ApplyRepository → ClientAccess → W → Bool × W
  pub verify_canonical : ApplyRepository → ClientAccess → W → Bool × W
  -- `host.Supports(…).RemoteClientVerification`
  pub remote_verification : ApplyRepository → Bool
  pub assert_head : Bytes → W → Bool × W
  pub assert_revision : Bytes → W → Bool × W
  pub lock_revision : Bytes → W → Bool × W
  pub require_clean_git : W → Option Bytes × W
  pub ledger_revision : W → Option Bytes × W
  pub commit_paths : Bytes → W → Bool × W
  pub committed_ledger : ApplyRepository → Bytes → W → Bool × W
  pub prepare_records : ApplyRepository → W → Bool × W
  pub commit_ledgers : W → Option Bytes × W
  pub before_receipts : W → Bool × W
  pub commit_deployments : Bytes → List DeploymentRecord → W → Bool × W

-- Why a revision was put back: the publication of this apply failed its probe, or a revision that
-- was live before failed it.
pub data Cause : Type 0 where
  after_commit : Cause
  after_probe : Cause

pub data Event : Type 0 where
  passed : ApplyRepository → Event
  staged : ApplyRepository → Event
  committed : ApplyRepository → Option CommitResult → Event
  observed : ApplyRepository → Option PublishedRevision → Event
  restored : Cause → ApplyRepository → Bool → Event
  aborted : ApplyRepository → Event
  ledgers : Bytes → Event
  recorded : List DeploymentRecord → Event

-- The state of an apply: `Applied` and `Current` of the result, the receipts gathered, and the
-- repositories that were staged.
pub record Run (W : Type 0) : Type 0 where
  pub world : W
  pub trace : List Event
  pub applied : ℕ
  pub current : ℕ
  pub deployments : List DeploymentRecord
  pub stages : List ApplyRepository

abbrev pub Action : Type 0 → Type 0 → Type 0
Action W A = Run W → Result A × Run W

module _ {W A B : Type 0} where
  -- The rest of a sequence, which an error skips.
  abbrev pub continue : (A → Action W B) → Result A × Run W → Result B × Run W
  continue next (ok a, s) = next a s
  continue next (err, s) = (err, s)
  continue next (out_of_fuel, s) = (out_of_fuel, s)

  infixl 5 ◌>>=◌
  unfoldable pub ◌>>=◌ : Action W A → (A → Action W B) → Action W B
  ◌>>=◌ first next s = continue next (first s)

module _ {W B : Type 0} where
  infixl 5 ◌>>◌
  abbrev pub ◌>>◌ : Action W (Unit {0}) → Action W B → Action W B
  first >> next = first >>= λ _. next

module _ {W A : Type 0} where
  unfoldable pub pure : A → Action W A
  pure a s = (ok a, s)

  unfoldable pub fail : Action W A
  fail s = (err, s)

  -- What a field of the state holds.
  unfoldable pub read : (Run W → A) → Action W A
  read field s = (ok (field s), s)

  -- A call of the environment.
  unfoldable pub call : (W → A × W) → Action W A
  call ask s = let (a, w) = ask s.world in (ok a, record s { world = w })

  -- The value of a call, or its error.
  unfoldable pub found : Option A → Action W A
  unfolding fail pure
  found none = fail
  found (some a) = pure a

module _ {W : Type 0} where
  unfoldable pub check : Bool → Action W (Unit {0})
  unfolding pure fail
  check true = pure tt
  check false = fail

  unfoldable pub modify : (Run W → Run W) → Action W (Unit {0})
  modify f s = (ok tt, f s)

  unfoldable pub emit : Event → Action W (Unit {0})
  emit e s = (ok tt, record s { trace = e ∷ s.trace })

  -- The state at the start of an apply.
  abbrev pub start : W → Run W
  start w = record {
    world = w;
    trace = [];
    applied = 0;
    current = 0;
    deployments = [];
    stages = [];
  }
