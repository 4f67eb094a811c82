-- ===== src/Engine/Apply/Phases.antt =====
-- The phases of an apply, and its invariant.
use snailmail.Base.{
  if◌then◌else◌, Bytes, codes, ◌==ᵇ◌, Result, ok, err, out_of_fuel, ℕ, Bool, true, false, List, [],
  ◌∷◌,
}
use snailmail.Engine.Rotation.{DeploymentRecord}
use snailmail.Engine.Apply.Run.{
  ApplyRepository, Settings, Environment, ledgers, recorded, Run, Action, ◌>>=◌, call, check, emit,
}
use snailmail.Engine.Apply.Workspace.{
  with_stage, preview_of, probe_stage, stage_new, stage_on_hosts, for_records, validate_ledgers,
  validate_earlier, validate_planned, planned_ledgers, committed_ledgers, prepare_ledgers,
  new_ledgers, commit_publication_ledgers, hold_git, publish_all, needs_publication, write_receipts,
  publish_and_record, abort_all, then_abort, take_effect,
}
use snailmail.Engine.Apply.Rules.{
  After, ensures, Keeps, bind_rule, Keeps-bind, Keeps-pure, if_rule, Keeps-check, Keeps-found,
  modify_rule, Keeps-for_each, Keeps-read,
}
use snailmail.Engine.Apply.Trace.{authorized, is_allowed, commits, undone, Sound, Ready}
use snailmail.Engine.Apply.Effects.{
  call_rule, add_stage_rule, authorize_step, Keeps-authorize, call-Ready,
}
use snailmail.Engine.Apply.Sound.{publish_rule, verify_current_rule}

module _ {W : Type 0} where
  checked : (ask : W → Bool × W) → Keeps Sound (call ask >>= check)
  checked ask = Keeps-bind (call_rule ask) Keeps-check

  ledgers_rule : (revision : Bytes) → Keeps {W = W} Sound (emit (ledgers revision))
  unfolding emit authorized is_allowed commits undone
  ledgers_rule revision = ensures (λ s h. h)

  recorded_rule :
      (receipts : List DeploymentRecord) → Keeps {W = W} Sound (emit (recorded receipts))
  unfolding emit authorized is_allowed commits undone
  recorded_rule receipts = ensures (λ s h. h)

  if_Sound : (b : Bool) (s t : Run W) → Sound s → Sound t → Sound (if b then s else t)
  if_Sound true s t h k = h
  if_Sound false s t h k = k

  After-Sound : (r : Result (Unit {0}) × Run W) → After Sound (λ _. Sound) r → Sound r.1
  After-Sound (ok a, s) h = h
  After-Sound (err, s) h = h
  After-Sound (out_of_fuel, s) h = h

module _ {W : Type 0} (env : Environment W) (render_time : ℕ → Bytes) (settings : Settings) where
  probe_stage_rule :
      (item : ApplyRepository) → Keeps Sound (probe_stage env render_time settings item)
  unfolding probe_stage
  probe_stage_rule item = if_rule settings.structural_only (Keeps-pure tt) (
      if_rule (item.host_type ==ᵇ codes "local") (checked _) (
        Keeps-bind (Keeps-check _)
          (λ _. if_rule ((preview_of item.host_stage).endpoint ==ᵇ []) (checked _) (checked _))))

  stage_new_rule : (item : ApplyRepository) → Keeps Sound (stage_new env render_time settings item)
  unfolding stage_new
  stage_new_rule item = Keeps-bind (call_rule _) (λ files. Keeps-bind (Keeps-check files) (λ _.
      bind_rule (λ _. Ready item) (authorize_step env render_time settings item)
        (λ _.
          bind_rule (λ _. Ready item) (call-Ready item _)
            (λ answer.
              bind_rule (λ _. Sound) (modify_rule _ (add_stage_rule (with_stage item answer.0)))
                (λ _. Keeps-bind (Keeps-check answer.1) (λ _.
                  Keeps-bind (probe_stage_rule (with_stage item answer.0)) (λ _. Keeps-pure _)))))))

  stage_on_hosts_rule :
      (items : List ApplyRepository) → Keeps Sound (stage_on_hosts env render_time settings items)
  unfolding stage_on_hosts
  stage_on_hosts_rule [] = Keeps-pure []
  stage_on_hosts_rule (item ∷ items) =
      Keeps-bind (if_rule item.current (Keeps-pure item) (stage_new_rule item))
        (λ first. Keeps-bind (stage_on_hosts_rule items) (λ rest. Keeps-pure _))

  for_records_rule :
      (body : ApplyRepository → Action W (Unit {0})) (items : List ApplyRepository)
      → ((item : ApplyRepository) → Keeps Sound (body item))
      → Keeps Sound (for_records env render_time settings body items)
  unfolding for_records
  for_records_rule body items rule =
      Keeps-for_each items
        (λ item. if_rule item.planned.publication_records (rule item) (Keeps-pure tt))

  validate_ledgers_rule :
      (revision : Bytes) (items : List ApplyRepository)
      → Keeps Sound (validate_ledgers env render_time settings revision items)
  unfolding validate_ledgers
  validate_ledgers_rule revision items =
      Keeps-bind (call_rule _) (λ paths.
        Keeps-bind (Keeps-check paths) (λ _. for_records_rule _ items (λ item. checked _)))

  validate_planned_rule :
      (names : List Bytes) (items : List ApplyRepository)
      → Keeps Sound (validate_planned env render_time settings names items)
  unfolding validate_planned validate_earlier
  validate_planned_rule [] items = Keeps-pure tt
  validate_planned_rule (_ ∷ _) items = Keeps-bind (call_rule _) (λ revision.
      Keeps-bind (Keeps-found revision)
        (λ ledger_revision. validate_ledgers_rule ledger_revision items))

  prepare_ledgers_rule :
      (items : List ApplyRepository) → Keeps Sound (prepare_ledgers env render_time settings items)
  unfolding prepare_ledgers
  prepare_ledgers_rule items = for_records_rule _ items (λ item. checked _)

  planned_ledgers_rule :
      (names : List Bytes) (items : List ApplyRepository)
      → Keeps Sound (planned_ledgers env render_time settings names items)
  unfolding planned_ledgers new_ledgers
  planned_ledgers_rule [] items = Keeps-pure _
  planned_ledgers_rule (_ ∷ _) items = Keeps-bind (call_rule _) (λ answer.
      Keeps-bind (Keeps-found answer) (λ revision.
        Keeps-bind (ledgers_rule revision)
          (λ _. Keeps-bind (validate_ledgers_rule revision items) (λ _. Keeps-pure revision))))

  commit_publication_ledgers_rule :
      (items : List ApplyRepository)
      → Keeps Sound (commit_publication_ledgers env render_time settings items)
  unfolding commit_publication_ledgers committed_ledgers
  commit_publication_ledgers_rule items =
      if_rule settings.ledger_committed
        (Keeps-bind
          (Keeps-bind (call_rule _) (λ clean. Keeps-bind (Keeps-found clean) (λ head.
            Keeps-bind (validate_planned_rule settings.ledger_repositories items)
              (λ _. Keeps-pure head))))
          (λ head. Keeps-bind (prepare_ledgers_rule items) (λ _. Keeps-pure head)))
        (Keeps-bind (prepare_ledgers_rule items)
          (λ _. planned_ledgers_rule settings.ledger_repositories items))

  write_receipts_rule :
      (revision : Bytes) → Keeps Sound (write_receipts env render_time settings revision)
  unfolding write_receipts
  write_receipts_rule revision = Keeps-bind (Keeps-read _) (λ receipts.
      Keeps-bind (call_rule _) (λ ready. Keeps-bind (Keeps-check ready) (λ _.
        Keeps-bind (call_rule _)
          (λ written. Keeps-bind (recorded_rule receipts) (λ _. Keeps-check written)))))

  publish_and_record_rule :
      (items : List ApplyRepository) (revision : Bytes)
      → Keeps Sound (publish_and_record env render_time settings items revision)
  unfolding publish_and_record hold_git publish_all
  publish_and_record_rule items revision =
      Keeps-bind
        (if_rule (needs_publication env render_time settings items) (checked _) (checked _))
        (λ _.
          Keeps-bind
            (Keeps-for_each items (λ item.
              if_rule item.current (verify_current_rule env render_time settings item)
                (publish_rule env render_time settings revision item)))
            (λ _. write_receipts_rule revision))

  abort_all-Sound :
      (items : List ApplyRepository) (s : Run W)
      → Sound s
      → Sound (abort_all env render_time settings items s)
  unfolding abort_all authorized is_allowed commits undone
  abort_all-Sound [] s h = h
  abort_all-Sound (item ∷ items) s h =
      abort_all-Sound items _ (if_Sound (item.host_stage.id ==ᵇ []) _ _ h h)

  pub take_effect_rule :
      (items : List ApplyRepository) → Keeps Sound (take_effect env render_time settings items)
  unfolding take_effect
  take_effect_rule prepared = Keeps-bind (stage_on_hosts_rule prepared) (λ items.
      Keeps-bind
        (if_rule settings.ledger_committed (Keeps-pure tt)
          (for_records_rule _ items (Keeps-authorize env render_time settings)))
        (λ _.
          Keeps-bind (commit_publication_ledgers_rule items)
            (λ revision. publish_and_record_rule items revision)))

  -- The stages are aborted on every outcome.
  pub then_abort_rule :
      (body : Action W (Unit {0}))
      → Keeps Sound body
      → Keeps Sound (then_abort env render_time settings body)
  unfolding then_abort
  then_abort_rule body rule = ensures (λ s h.
      aborted_sound (body s).0 _
        (abort_all-Sound (body s).1.stages (body s).1 (After-Sound (body s) (rule.holds s h))))
    where
      aborted_sound :
          (r : Result (Unit {0})) (s : Run W) → Sound s → After Sound (λ _. Sound) (r, s)
      aborted_sound (ok a) s h = h
      aborted_sound err s h = h
      aborted_sound out_of_fuel s h = h
