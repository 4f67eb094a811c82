-- ===== src/Engine/Apply/Sound.antt =====
-- Publishing one repository, and the invariant of an apply.
use snailmail.Base.{
  Bytes, codes, ◌==ᵇ◌, ℕ, ◌<◌, Bool, true, not, ◌&&◌, Option, none, some, [], arith,
}
use snailmail.Engine.Host.{PublishedRevision, RestoreRef, CommitResult}
use snailmail.Engine.Apply.Run.{
  ApplyRepository, Settings, Environment, Cause, after_commit, after_probe, Run, Action, pure, fail,
  found,
}
use snailmail.Engine.Apply.Publish.{
  less_applied, less_current, count_current, count_restore, count_commit, restore_failed, undo_to,
  undo, record_deployment, commit_stage, observe_commit, probe_commit, publish, undo_current,
  probe_current, verify_current,
}
use snailmail.Engine.Apply.Rules.{
  Ensures, ensures, Keeps, bind_rule, pure_rule, consequence_rule, if_rule, Keeps-check, found_rule,
  fail_rule, modify_rule,
}
use snailmail.Engine.Apply.Trace.{Sound}
use snailmail.Engine.Apply.Effects.{
  count_commit_rule, undo_rule, undo_current_rule, SoundWith, with_call, with_pure, with_check,
  with_bind, authorize_rule, ReadyWith, ready_call, observed_rule,
}

abbrev Positive : ℕ → Type 0
Positive n = 0 < n

-- Nothing is known of the number of repositories applied.
abbrev pub Any : ℕ → Type 0
Any _ = Unit {0}

-- After the host's answer to a commit.
abbrev Counted : {W : Type 0} → Option CommitResult → Run W → Type 0
Counted none = Sound
Counted (some _) = SoundWith Positive

found_commit :
    {W : Type 0} (o : Option CommitResult)
    → Ensures {W = W} Sound (Counted o) (found o) (λ _. SoundWith Positive)
unfolding found fail pure
found_commit none = ensures (λ s h. h)
found_commit (some c) = ensures (λ s h. h)

counted :
    {W : Type 0} (item : ApplyRepository) (o : Option CommitResult) (s : Run W)
    → ReadyWith Any item s
    → Counted o (count_commit item o s)
counted item none s (h, _) = count_commit_rule item none s h
counted item (some c) s (h, _) = (count_commit_rule item (some c) s h, omega arith)

module _ {W : Type 0} (env : Environment W) (render_time : ℕ → Bytes) (settings : Settings) where
  -- Steps that leave the number of repositories applied known to be positive.
  abbrev Standing : {A : Type 0} → Action W A → Type 0
  Standing m = Ensures Sound (SoundWith Positive) m (λ _. SoundWith Positive)

  commit_stage_rule :
      (item : ApplyRepository)
      → Ensures Sound
          (ReadyWith Any item)
          (commit_stage env render_time settings item)
          (λ _. SoundWith Positive)
  unfolding commit_stage
  commit_stage_rule item =
      bind_rule (λ _. ReadyWith Any item) (ready_call Any item _)
        (λ result.
          bind_rule (λ _. Counted result) (modify_rule _ (counted item result))
            (λ _. found_commit result))

  observe_commit_rule :
      (item : ApplyRepository) (commit : CommitResult)
      → Standing (observe_commit env render_time settings item commit)
  unfolding observe_commit
  observe_commit_rule item commit = with_bind Positive (with_call Positive _) (λ canonical.
      with_bind Positive (observed_rule Positive item canonical) (λ _. with_pure Positive _))

  -- The host restores; a count goes down.
  restore_failed_rule :
      (N : ℕ → Type 0) (cause : Cause) (uncount : Run W → Run W) (item : ApplyRepository)
      (reference : RestoreRef) (expected : PublishedRevision)
      → ((done : Bool) (s : Run W)
          → ReadyWith N item s
          → Sound (count_restore cause uncount item done s))
      → Ensures Sound
          (SoundWith N)
          (restore_failed env render_time settings cause uncount item reference expected)
          (λ _. Sound)
  unfolding restore_failed
  restore_failed_rule N cause uncount item reference expected step =
      bind_rule (λ _. ReadyWith N item) (authorize_rule N env render_time settings item)
        (λ _.
          bind_rule (λ _. ReadyWith N item) (ready_call N item _)
            (λ done. bind_rule (λ _. Sound) (modify_rule _ (step done)) (λ _. Keeps-check done)))

  undo_to_rule :
      (item : ApplyRepository) (revision : PublishedRevision) (o : Option RestoreRef)
      → Standing (undo_to env render_time settings item revision o)
  unfolding undo_to
  undo_to_rule item revision none = fail_rule (λ s h. h.0)
  undo_to_rule item revision (some reference) =
      bind_rule (λ _. Sound)
        (restore_failed_rule Positive after_commit less_applied item reference revision
          (λ done s (h, positive). undo_rule item done s h positive))
        (λ _. fail_rule (λ s h. h))

  undo_lem :
      (item : ApplyRepository) (commit : CommitResult)
      → Standing (undo env render_time settings item commit)
  unfolding undo
  undo_lem item commit = undo_to_rule item commit.revision commit.restore_ref

  probe_commit_rule :
      (item : ApplyRepository) (commit : CommitResult)
      → Standing (probe_commit env render_time settings item commit)
  unfolding probe_commit
  probe_commit_rule item commit =
      if_rule settings.structural_only (with_pure Positive true) (with_call Positive _)

  record_rule :
      (N : ℕ → Type 0) (item : ApplyRepository) (native_revision : Bytes)
      → Ensures Sound
          (SoundWith N)
          (record_deployment env render_time settings item native_revision)
          (λ _. Sound)
  unfolding record_deployment
  record_rule N item native_revision =
      with_bind N (with_call N _) (λ now. modify_rule _ (λ s h. h.0))

  publish_step :
      (revision : Bytes) (item : ApplyRepository)
      → Ensures Sound (SoundWith Any) (publish env render_time settings revision item) (λ _. Sound)
  unfolding publish
  publish_step revision item = with_bind Any (with_call Any _) (λ head.
      with_bind Any (with_check Any head) (λ _.
        bind_rule (λ _. ReadyWith Any item) (authorize_rule Any env render_time settings item)
          (λ _.
            bind_rule (λ _. SoundWith Positive) (commit_stage_rule item)
              (λ commit. with_bind Positive (observe_commit_rule item commit) (λ served.
                with_bind Positive (if_rule served (with_pure Positive tt) (undo_lem item commit))
                  (λ _. with_bind Positive (probe_commit_rule item commit) (λ installed.
                    with_bind Positive
                      (if_rule installed (with_pure Positive tt) (undo_lem item commit))
                      (λ _. with_bind Positive (with_call Positive _) (λ still_head.
                        with_bind Positive (with_check Positive still_head)
                          (λ _. record_rule Positive item _))))))))))

  undo_current_step :
      (item : ApplyRepository)
      → Ensures Sound
          (SoundWith Any)
          (undo_current env render_time settings item)
          (λ _. SoundWith Any)
  unfolding undo_current
  undo_current_step item =
      bind_rule (λ _. Sound)
        (if_rule (item.observed.restore_id ==ᵇ []) (pure_rule tt (λ s h. h.0)) (
          restore_failed_rule Any after_probe less_current item _ item.observed
            (λ done s (h, _). undo_current_rule item done s h)))
        (λ _. fail_rule (λ s h. h))

  probe_current_step :
      (item : ApplyRepository)
      → Ensures Sound
          (SoundWith Any)
          (probe_current env render_time settings item)
          (λ _. SoundWith Any)
  unfolding probe_current
  probe_current_step item = with_bind Any (with_call Any _) (λ access.
      with_bind Any (found_rule access (λ s h. h.0)) (λ some_access.
        with_bind Any (with_call Any _)
          (λ installed. if_rule installed (with_pure Any tt) (undo_current_step item))))

  verify_current_step :
      (item : ApplyRepository)
      → Ensures Sound (SoundWith Any) (verify_current env render_time settings item) (λ _. Sound)
  unfolding verify_current
  verify_current_step item = with_bind Any (modify_rule count_current (λ s h. h)) (λ _.
      with_bind Any
        (if_rule (not settings.structural_only && not (item.planned.action ==ᵇ codes "noop"))
          (probe_current_step item) (with_pure Any tt))
        (λ _.
          if_rule (item.planned.action ==ᵇ codes "noop") (pure_rule tt (λ s h. h.0))
            (record_rule Any item item.observed.native_revision)))

  pub publish_rule :
      (revision : Bytes) (item : ApplyRepository)
      → Keeps Sound (publish env render_time settings revision item)
  publish_rule revision item =
      consequence_rule (λ s h. (h, tt)) (publish_step revision item) (λ _ s h. h)

  pub verify_current_rule :
      (item : ApplyRepository) → Keeps Sound (verify_current env render_time settings item)
  verify_current_rule item =
      consequence_rule (λ s h. (h, tt)) (verify_current_step item) (λ _ s h. h)
