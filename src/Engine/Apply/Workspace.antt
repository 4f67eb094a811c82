-- ===== src/Engine/Apply/Workspace.antt =====
-- engine/workspace.go: stageOnHosts, commitPublicationLedgers, publishAndRecord and ApplyWorkspace.
use snailmail.Base.{
  if◌then◌else◌, Bytes, codes, ◌==ᵇ◌, count, ℕ, Bool, false, not, ◌||◌, List, [], ◌∷◌, ◌++◌,
}
use snailmail.Engine.Host.{ClientAccess, StagedPublication}
use snailmail.Engine.Apply.Run.{
  ApplyRepository, Settings, Environment, staged, aborted, ledgers, recorded, Run, Action, ◌>>=◌,
  ◌>>◌, pure, call, found, check, modify, emit, read,
}
use snailmail.Engine.Apply.Publish.{authorize, publish, verify_current}

abbrev pub with_stage : ApplyRepository → StagedPublication → ApplyRepository
with_stage item stage = record item { host_stage = stage }

module _ {W : Type 0} where
  -- The host's answer is kept also when it comes with an error.
  abbrev pub add_stage : ApplyRepository → Run W → Run W
  add_stage item s = record s { trace = staged item ∷ s.trace; stages = s.stages ++ item ∷ [] }

  -- A loop that stops at the first error.
  unfoldable pub for_each :
      (ApplyRepository → Action W (Unit {0})) → List ApplyRepository → Action W (Unit {0})
  for_each body [] = pure tt
  for_each body (item ∷ items) = do body item; for_each body items

-- Where a staged repository can be installed from before it is live.
abbrev pub preview_of : StagedPublication → ClientAccess
preview_of stage = record {
  endpoint = if stage.access.endpoint ==ᵇ [] then stage.preview_endpoint else stage.access.endpoint;
  rest = stage.access.rest;
}

module _ {W : Type 0} (env : Environment W) (render_time : ℕ → Bytes) (settings : Settings) where
  -- The probe of a stage.
  unfoldable pub probe_stage : ApplyRepository → Action W (Unit {0})
  unfolding ◌==ᵇ◌
  probe_stage item =
      if settings.structural_only
      then pure tt
      else if item.host_type ==ᵇ codes "local"
      then (call (env.verify_staged item) >>= check)
      else do
        check (env.remote_verification item)
        if (preview_of item.host_stage).endpoint ==ᵇ []
            then (call (env.verify_staged item) >>= check)
            else (call (env.verify_endpoint item (preview_of item.host_stage)) >>= check)

  unfoldable pub stage_new : ApplyRepository → Action W ApplyRepository
  unfolding authorize probe_stage
  stage_new item = do
    files ← call (env.stage_files item)
    check files
    authorize env render_time settings item
    answer ← call (env.stage item)
    modify (add_stage (with_stage item answer.0))
    check answer.1
    probe_stage (with_stage item answer.0)
    pure (with_stage item answer.0)

  unfoldable pub stage_on_hosts : List ApplyRepository → Action W (List ApplyRepository)
  unfolding stage_new
  stage_on_hosts [] = pure []
  stage_on_hosts (item ∷ items) = do
    first ← (if item.current then pure item else stage_new item)
    rest ← stage_on_hosts items
    pure (first ∷ rest)

  -- A check of the repositories that record publications.
  unfoldable pub for_records :
      (ApplyRepository → Action W (Unit {0})) → List ApplyRepository → Action W (Unit {0})
  unfolding for_each
  for_records body =
      for_each (λ item. if item.planned.publication_records then body item else pure tt)

  unfoldable pub validate_ledgers : Bytes → List ApplyRepository → Action W (Unit {0})
  unfolding for_records
  validate_ledgers revision prepared = do
    paths ← call (env.commit_paths revision)
    check paths
    for_records (λ item. call (env.committed_ledger item revision) >>= check) prepared

  unfoldable pub validate_earlier : List ApplyRepository → Action W (Unit {0})
  unfolding validate_ledgers
  validate_earlier prepared = do
    revision ← call env.ledger_revision
    ledger_revision ← found revision
    validate_ledgers ledger_revision prepared

  -- The ledgers of an earlier run, where the plan has any.
  unfoldable pub validate_planned : List Bytes → List ApplyRepository → Action W (Unit {0})
  unfolding validate_earlier
  validate_planned [] prepared = pure tt
  validate_planned (_ ∷ _) prepared = validate_earlier prepared

  -- The ledgers that an earlier run committed.
  unfoldable pub committed_ledgers : List ApplyRepository → Action W Bytes
  unfolding validate_planned
  committed_ledgers prepared = do
    clean ← call env.require_clean_git
    head ← found clean
    validate_planned settings.ledger_repositories prepared
    pure head

  unfoldable pub prepare_ledgers : List ApplyRepository → Action W (Unit {0})
  unfolding for_records
  prepare_ledgers prepared =
      for_records (λ item. call (env.prepare_records item) >>= check) prepared

  -- The commit of the ledgers of this run.
  unfoldable pub new_ledgers : List ApplyRepository → Action W Bytes
  unfolding validate_ledgers
  new_ledgers prepared = do
    answer ← call env.commit_ledgers
    revision ← found answer
    emit (ledgers revision)
    validate_ledgers revision prepared
    pure revision

  unfoldable pub planned_ledgers : List Bytes → List ApplyRepository → Action W Bytes
  unfolding new_ledgers
  planned_ledgers [] prepared = pure settings.git_revision
  planned_ledgers (_ ∷ _) prepared = new_ledgers prepared

  unfoldable pub commit_publication_ledgers : List ApplyRepository → Action W Bytes
  unfolding committed_ledgers prepare_ledgers planned_ledgers
  commit_publication_ledgers prepared =
      if settings.ledger_committed
      then (do head ← committed_ledgers prepared; prepare_ledgers prepared; pure head)
      else (do prepare_ledgers prepared; planned_ledgers settings.ledger_repositories prepared)

  unfoldable pub needs_publication : List ApplyRepository → Bool
  needs_publication [] = false
  needs_publication (item ∷ items) = not item.current || needs_publication items

  -- Git is held until the receipts are written; its release is left out.
  unfoldable pub hold_git : Bytes → List ApplyRepository → Action W (Unit {0})
  unfolding needs_publication
  hold_git revision prepared =
      if needs_publication prepared
      then (call (env.lock_revision revision) >>= check)
      else (call (env.assert_revision revision) >>= check)

  unfoldable pub publish_all : Bytes → List ApplyRepository → Action W (Unit {0})
  unfolding for_each publish verify_current
  publish_all revision = for_each (λ item.
      if item.current
      then verify_current env render_time settings item
      else publish env render_time settings revision item)

  -- The receipts of what was published.
  unfoldable pub write_receipts : Bytes → Action W (Unit {0})
  write_receipts revision = do
    receipts ← read (λ s. s.deployments)
    ready ← call env.before_receipts
    check ready
    written ← call (env.commit_deployments revision receipts)
    emit (recorded receipts)
    check written

  unfoldable pub publish_and_record : List ApplyRepository → Bytes → Action W (Unit {0})
  unfolding hold_git publish_all write_receipts
  publish_and_record prepared revision = do
    hold_git revision prepared
    publish_all revision prepared
    write_receipts revision

  -- The deferred `Abort` of every stage.
  unfoldable pub abort_all : List ApplyRepository → Run W → Run W
  unfolding ◌==ᵇ◌
  abort_all [] s = s
  abort_all (item ∷ items) s = abort_all items (
      if item.host_stage.id ==ᵇ []
      then s
      else record s { world = env.abort item s.world; trace = aborted item ∷ s.trace })

  -- A body whose stages are aborted however it ends.
  unfoldable pub then_abort : Action W (Unit {0}) → Action W (Unit {0})
  unfolding abort_all
  then_abort body s = let (r, t) = body s in (r, abort_all t.stages t)

  -- The phases that a dry run leaves out.
  unfoldable pub take_effect : List ApplyRepository → Action W (Unit {0})
  unfolding stage_on_hosts for_records authorize commit_publication_ledgers publish_and_record
  take_effect prepared = do
    items ← stage_on_hosts prepared
    if settings.ledger_committed
        then pure tt
        else for_records (authorize env render_time settings) items
    revision ← commit_publication_ledgers items
    publish_and_record items revision

  unfoldable pub count_dry_run : List ApplyRepository → Run W → Run W
  unfolding count
  count_dry_run prepared s = record s {
    applied = count (λ (item : ApplyRepository). not item.current) prepared;
    current = count (λ (item : ApplyRepository). item.current) prepared;
  }

  -- `ApplyWorkspace` on the repositories that were prepared.
  unfoldable pub apply_workspace : List ApplyRepository → Action W (Unit {0})
  unfolding for_each authorize take_effect then_abort count_dry_run
  apply_workspace prepared = do
    for_each (authorize env render_time settings) prepared
    if settings.dry_run then modify (count_dry_run prepared) else then_abort (take_effect prepared)
