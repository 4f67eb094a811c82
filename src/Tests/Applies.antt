-- ===== src/Tests/Applies.antt =====
-- An apply of one repository on a host whose probe fails, one that succeeds, and a dry run.
use snailmail.Base.{
  if◌then◌else◌, Bytes, codes, ◌==ᵇ◌, parse_uint, Result, ok, err, Any, ℕ, suc, ◌+◌, ◌<◌, ◌≡◌, refl,
  Bool, true, false, none, some, [], ◌∷◌, map,
}
use snailmail.Engine.Host.{ClientAccess, PublishedRevision, RestoreRef}
use snailmail.Engine.Rotation.{DeploymentRecord, no_signing}
use snailmail.Engine.Apply.Run.{
  ApplyRepository, Settings, Environment, Run, start, ◌>>=◌, pure, fail, call, found, check, modify,
  emit, read,
}
use snailmail.Engine.Apply.Publish.{authorize}
use snailmail.Engine.Apply.Workspace.{apply_workspace}
use snailmail.Engine.Apply.Trace.{authorized, commits, undone}
use snailmail.Engine.Apply.Authorized.{authorized-apply_workspace, applied-apply_workspace}
use snailmail.Engine.Apply.DryRun.{
  only_passed, is_permitted, only_passed-apply_workspace, authorize_lem,
}
use snailmail.Engine.Apply.Gated.{Place, requirement_of, authorize-Approved}
use snailmail.Gate.Approval.{ApprovalFile}
use snailmail.Gate.Safe.{Approved}
use snailmail.Gate.Evaluate
use snailmail.Gate.Evaluate.{load_approvals}
use snailmail.Tests.Gates.{crypto, read_file, decode}

abbrev access : ClientAccess
access = record { endpoint = []; rest = [] }

abbrev revision : Bytes → PublishedRevision
revision tree = record {
  native_revision = codes "n1";
  tree_sha256 = tree;
  plan_id = codes "plan";
  change_id = codes "change";
  restore_id = [];
  release_sha256 = [];
  manifest_sha256 = [];
  restore_sha256 = [];
  restore_root_sha256 = [];
}

abbrev reference : RestoreRef
reference = record {
  id = codes "restore";
  plan_id = codes "plan";
  change_id = codes "change";
  failed_tree = codes "new";
  descriptor_sha256 = [];
  root_sha256 = [];
}

abbrev no_deployment : DeploymentRecord
no_deployment = record {
  repository = [];
  plan_id = [];
  change_id = [];
  deployed_at = [];
  native_revision = [];
  tree_sha256 = [];
  manifest_sha256 = [];
  active_signing_fingerprint = [];
  trusted_signing_fingerprints = [];
  signing_rotation_phase = [];
  signing_keyring_path = [];
  signing_minimum_refresh_seconds = 0;
  trust_since = [];
}

abbrev item : ApplyRepository
item = record {
  planned = record {
    name = codes "apt";
    action = codes "publish";
    change_id = codes "change";
    desired_tree_sha256 = codes "new";
    desired_manifest_sha256 = [];
    observed = revision (codes "old");
    approval_keys = codes "0123456789abcdef0123456789abcdef" ∷ [];
    publication_records = true;
  };
  gate = codes "approval";
  format = codes "deb";
  host_type = codes "local";
  observed = revision (codes "old");
  host_stage = record { id = []; preview_endpoint = []; access = access };
  current = false;
  deployment = no_deployment;
  signing_state = no_signing;
}

abbrev settings : Bool → Settings
settings dry_run = record {
  plan_id = codes "plan";
  created_at = codes "1";
  git_revision = codes "r1";
  expires_at = 150;
  structural_only = false;
  dry_run = dry_run;
  has_gates = true;
  ledger_committed = false;
  ledger_repositories = codes "apt" ∷ [];
}

abbrev place : Place
place = record { root = []; forge_repository = []; forge = []; forge_host = [] }

-- A host that accepts every call; whether the client can install afterwards is a parameter.
abbrev environment : Bool → Environment ℕ
environment installs = record {
  current_time = λ w. (100, suc w);
  gate = λ it now w.
      Evaluate.authorize crypto read_file decode (codes "approvals.json") none
        (requirement_of (settings false) place it now) w;
  stage_files = λ _ w. (true, w);
  stage =
      λ _ w. ((record { id = codes "stage"; preview_endpoint = []; access = access }, true), suc w);
  commit = λ _ _ w. (
    some (record {
      revision = revision (codes "new");
      canonical_endpoint = [];
      restore_ref = some reference;
      access = access;
    }),
    suc w,
  );
  observe = λ _ w. (some (revision (codes "new")), w);
  read_access = λ _ _ w. (some access, w);
  restore = λ _ _ _ w. (true, suc w);
  abort = λ _ w. w;
  verify_staged = λ _ w. (true, w);
  verify_endpoint = λ _ _ w. (true, w);
  verify_canonical = λ _ _ w. (installs, w);
  remote_verification = λ _. true;
  assert_head = λ _ w. (true, w);
  assert_revision = λ _ w. (true, w);
  lock_revision = λ _ w. (true, w);
  require_clean_git = λ w. (some (codes "r1"), w);
  ledger_revision = λ w. (some (codes "r2"), w);
  commit_paths = λ _ w. (true, w);
  committed_ledger = λ _ _ w. (true, w);
  prepare_records = λ _ w. (true, w);
  commit_ledgers = λ w. (some (codes "r2"), suc w);
  before_receipts = λ w. (true, w);
  commit_deployments = λ _ _ w. (true, w);
}

abbrev render_time : ℕ → Bytes
render_time now = now ∷ []

abbrev failing : Result (Unit {0}) × Run ℕ
failing = apply_workspace (environment false) render_time (settings false) (item ∷ []) (start 0)

-- The client cannot install what was published, and the host restores.
failing_counts :
    (failing.0 ≡ err)
    × (failing.1.applied ≡ 0)
    × (undone failing.1.trace ≡ 1)
    × (commits failing.1.trace ≡ 1)
unfolding apply_workspace ◌>>=◌ ◌==ᵇ◌ call pure check found emit modify fail read commits undone
    Evaluate.authorize parse_uint
failing_counts = (refl, refl, refl, refl)

authorized-apply_workspace_example : authorized failing.1.trace ≡ true
authorized-apply_workspace_example =
    authorized-apply_workspace (environment false) render_time (settings false) (item ∷ []) 0

applied-apply_workspace_example :
    failing.1.applied + undone failing.1.trace ≡ commits failing.1.trace
applied-apply_workspace_example =
    applied-apply_workspace (environment false) render_time (settings false) (item ∷ []) 0 refl

abbrev published : Result (Unit {0}) × Run ℕ
published = apply_workspace (environment true) render_time (settings false) (item ∷ []) (start 0)

published_counts :
    (published.0 ≡ ok tt)
    × (published.1.applied ≡ 1)
    × (map (λ r. r.tree_sha256) published.1.deployments ≡ codes "new" ∷ [])
unfolding apply_workspace ◌>>=◌ ◌==ᵇ◌ call pure check found emit modify fail read Evaluate.authorize
    parse_uint
published_counts = (refl, refl, refl)

only_passed-apply_workspace_example :
    only_passed
      (apply_workspace (environment true) render_time (settings true) (item ∷ []) (start 0)).1.trace
    ≡ true
only_passed-apply_workspace_example =
    only_passed-apply_workspace (environment true) render_time (settings true) (item ∷ []) 0 refl

authorize_lem_example :
    (authorize (environment true) render_time (settings false) item (start 0)).0
    ≡ (if is_permitted (environment true) (settings false) item 0 then ok tt else err)
authorize_lem_example = authorize_lem (environment true) render_time (settings false) item (start 0)

authorize-Approved_example :
    (100 < 150)
    × (evidence : ApprovalFile) × (load_approvals read_file decode (codes "approvals.json")
        ≡ ok evidence)
    × Any (Approved crypto (requirement_of (settings false) place item 100)) evidence.approvals
unfolding authorize ◌>>=◌ ◌==ᵇ◌ call pure check found emit modify fail Evaluate.authorize parse_uint
authorize-Approved_example =
    authorize-Approved crypto read_file decode (codes "approvals.json") none place (settings false)
      (environment true) render_time item (start 0) (λ _ _ _. refl) refl refl refl
