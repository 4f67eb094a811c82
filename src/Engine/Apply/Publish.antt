-- ===== src/Engine/Apply/Publish.antt =====
-- engine/workspace.go: authorize, publish, verifyCurrent, restore and restoreFailedPublication.
use snailmail.Base.{
  ltb, ◌==◌, if◌then◌else◌, Bytes, codes, ◌==ᵇ◌, equal_strings, ℕ, suc, ◌-◌, Bool, true, false, not,
  ◌&&◌, ◌||◌, Option, none, some, [], ◌∷◌, ◌++◌,
}
use snailmail.Engine.Host.{ClientAccess, PublishedRevision, RestoreRef, CommitResult, same_revision}
use snailmail.Engine.Rotation.{DeploymentRecord}
use snailmail.Engine.Apply.Run.{
  ApplyRepository, Settings, Environment, Cause, after_commit, after_probe, passed, committed,
  observed, restored, Run, Action, ◌>>=◌, ◌>>◌, pure, fail, call, found, check, modify, emit,
}

-- `deploymentRecordFor`; `rendered` is the current time in RFC 3339.
unfoldable pub deployment_record_for :
    ApplyRepository → Bytes → Bytes → Bytes → Bytes → DeploymentRecord
unfolding ◌==ᵇ◌ equal_strings
deployment_record_for item native_revision plan_id deployed_at rendered = record {
  repository = item.planned.name;
  plan_id = plan_id;
  change_id = item.planned.change_id;
  deployed_at = deployed_at;
  native_revision = native_revision;
  tree_sha256 = item.planned.desired_tree_sha256;
  manifest_sha256 = item.planned.desired_manifest_sha256;
  active_signing_fingerprint = item.signing_state.active;
  trusted_signing_fingerprints = item.signing_state.trusted;
  signing_rotation_phase = item.signing_state.phase;
  signing_keyring_path = item.signing_state.keyring;
  signing_minimum_refresh_seconds = item.signing_state.minimum_refresh;
  trust_since = if item.signing_state.active ==ᵇ [] then [] else since;
}
  where
    continuous : Bool
    continuous =
        item.deployment.native_revision ==ᵇ item.observed.native_revision
        && item.deployment.tree_sha256 ==ᵇ item.observed.tree_sha256
        && (item.observed.manifest_sha256 ==ᵇ []
            || item.deployment.manifest_sha256 ==ᵇ item.observed.manifest_sha256)

    unchanged : Bool
    unchanged =
        continuous
        && item.deployment.active_signing_fingerprint ==ᵇ item.signing_state.active
        && equal_strings item.deployment.trusted_signing_fingerprints item.signing_state.trusted
        && item.deployment.signing_keyring_path ==ᵇ item.signing_state.keyring
        && item.deployment.signing_rotation_phase ==ᵇ item.signing_state.phase
        && item.deployment.signing_minimum_refresh_seconds == item.signing_state.minimum_refresh
        && not (item.deployment.trust_since ==ᵇ [])

    since : Bytes
    since = if unchanged then item.deployment.trust_since else rendered

-- The restore reference of a revision that was live before this apply.
abbrev pub restore_ref_of : PublishedRevision → RestoreRef
restore_ref_of r = record {
  id = r.restore_id;
  plan_id = r.plan_id;
  change_id = r.change_id;
  failed_tree = r.tree_sha256;
  descriptor_sha256 = r.restore_sha256;
  root_sha256 = r.restore_root_sha256;
}

-- `access.Endpoint`, or the canonical endpoint where it is empty.
abbrev pub access_of : CommitResult → ClientAccess
access_of c = record {
  endpoint = if c.access.endpoint ==ᵇ [] then c.canonical_endpoint else c.access.endpoint;
  rest = c.access.rest;
}

-- Whether the host serves what was committed.
unfoldable pub matches_commit : ApplyRepository → CommitResult → PublishedRevision → Bool
unfolding ◌==ᵇ◌ same_revision
matches_commit item commit canonical =
    canonical.tree_sha256 ==ᵇ item.planned.desired_tree_sha256
    && canonical.native_revision ==ᵇ commit.revision.native_revision
    && (not (item.host_type ==ᵇ codes "s3") || same_revision canonical commit.revision)

module _ {W : Type 0} where
  abbrev pub less_applied : Run W → Run W
  less_applied s = record s { applied = s.applied - 1 }

  abbrev pub less_current : Run W → Run W
  less_current s = record s { current = s.current - 1 }

  abbrev pub count_current : Run W → Run W
  count_current s = record s { current = suc s.current }

  -- The host has restored, or refused to.
  abbrev pub count_restore : Cause → (Run W → Run W) → ApplyRepository → Bool → Run W → Run W
  count_restore cause uncount item true s =
      uncount (record s { trace = restored cause item true ∷ s.trace })
  count_restore cause uncount item false s = record s {
    trace = restored cause item false ∷ s.trace;
  }

  -- The host has committed, or refused to.
  abbrev pub count_commit : ApplyRepository → Option CommitResult → Run W → Run W
  count_commit item none s = record s { trace = committed item none ∷ s.trace }
  count_commit item (some c) s = record s {
    trace = committed item (some c) ∷ s.trace;
    applied = suc s.applied;
  }

  abbrev pub append_deployment : DeploymentRecord → Run W → Run W
  append_deployment r s = record s { deployments = s.deployments ++ r ∷ [] }

module _ {W : Type 0} (env : Environment W) (render_time : ℕ → Bytes) (settings : Settings) where
  -- The gate of a repository whose policy is not `auto`.
  unfoldable pub ask_gate : ApplyRepository → ℕ → Action W (Unit {0})
  ask_gate item now = do
    check settings.has_gates
    accepted ← call (env.gate item now)
    check accepted

  unfoldable pub authorize_effect : ApplyRepository → Action W (Unit {0})
  unfolding ask_gate ◌==ᵇ◌
  authorize_effect item = do
    now ← call env.current_time
    check (ltb now settings.expires_at)
    if item.gate ==ᵇ codes "auto" then pure tt else ask_gate item now

  unfoldable pub authorize : ApplyRepository → Action W (Unit {0})
  unfolding authorize_effect ◌==ᵇ◌
  authorize item = do
    if item.planned.action ==ᵇ codes "noop" then pure tt else authorize_effect item
    emit (passed item)

  -- `restoreFailedPublication`; the count of the result goes down when the host has restored.
  unfoldable pub restore_failed :
      Cause
      → (Run W → Run W)
      → ApplyRepository
      → RestoreRef
      → PublishedRevision
      → Action W (Unit {0})
  unfolding authorize
  restore_failed cause uncount item reference expected = do
    authorize item
    done ← call (env.restore item reference expected)
    modify (count_restore cause uncount item done)
    check done

  unfoldable pub undo_to :
      ApplyRepository → PublishedRevision → Option RestoreRef → Action W (Unit {0})
  unfolding restore_failed
  undo_to item revision none = fail
  undo_to item revision (some reference) = do
    restore_failed after_commit less_applied item reference revision
    fail

  -- `restore`: the failure of the probe is reported in any case.
  unfoldable pub undo : ApplyRepository → CommitResult → Action W (Unit {0})
  unfolding undo_to
  undo item commit = undo_to item commit.revision commit.restore_ref

  unfoldable pub record_deployment : ApplyRepository → Bytes → Action W (Unit {0})
  unfolding deployment_record_for
  record_deployment item native_revision = do
    now ← call env.current_time
    modify (
        append_deployment (
          deployment_record_for item native_revision settings.plan_id settings.created_at
            (render_time now)))

  -- The host's `Commit`, after which the repository counts as applied.
  unfoldable pub commit_stage : ApplyRepository → Action W CommitResult
  commit_stage item = do
    result ← call (env.commit item item.planned.observed)
    modify (count_commit item result)
    found result

  -- Whether the host is observed to serve what was committed.
  unfoldable pub observe_commit : ApplyRepository → CommitResult → Action W Bool
  unfolding matches_commit
  observe_commit item commit = do
    canonical ← call (env.observe item)
    emit (observed item canonical)
    pure (elim canonical [ none ↦ false | some r ↦ matches_commit item commit r ])

  -- The client's probe of what was committed, left out in a structural apply.
  unfoldable pub probe_commit : ApplyRepository → CommitResult → Action W Bool
  unfolding ◌==ᵇ◌
  probe_commit item commit =
      if settings.structural_only
      then pure true
      else call (env.verify_canonical item (access_of commit))

  -- `publish`, for the git revision of the apply.
  unfoldable pub publish : Bytes → ApplyRepository → Action W (Unit {0})
  unfolding authorize commit_stage observe_commit probe_commit undo record_deployment
  publish revision item = do
    head ← call (env.assert_head revision)
    check head
    authorize item
    commit ← commit_stage item
    served ← observe_commit item commit
    if served then pure tt else undo item commit
    installed ← probe_commit item commit
    if installed then pure tt else undo item commit
    still_head ← call (env.assert_head revision)
    check still_head
    record_deployment item commit.revision.native_revision

  -- A failed probe of a revision that was live before.
  unfoldable pub undo_current : ApplyRepository → Action W (Unit {0})
  unfolding restore_failed ◌==ᵇ◌
  undo_current item = do
    if item.observed.restore_id ==ᵇ []
        then pure tt
        else restore_failed after_probe less_current item (restore_ref_of item.observed)
            item.observed
    fail

  unfoldable pub probe_current : ApplyRepository → Action W (Unit {0})
  unfolding undo_current
  probe_current item = do
    access ← call (env.read_access item item.observed)
    some_access ← found access
    installed ← call (env.verify_canonical item some_access)
    if installed then pure tt else undo_current item

  -- `verifyCurrent`: nothing is published.
  unfoldable pub verify_current : ApplyRepository → Action W (Unit {0})
  unfolding probe_current record_deployment ◌==ᵇ◌
  verify_current item = do
    modify count_current
    if not settings.structural_only && not (item.planned.action ==ᵇ codes "noop")
        then probe_current item
        else pure tt
    if item.planned.action ==ᵇ codes "noop"
        then pure tt
        else record_deployment item item.observed.native_revision
