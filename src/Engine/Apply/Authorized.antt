-- ===== src/Engine/Apply/Authorized.antt =====
-- What holds of an apply on every outcome.
use snailmail.Base.{
  if◌then◌else◌, Bytes, Result, ok, err, out_of_fuel, ℕ, ◌+◌, ◌≡◌, refl, Bool, true, false, List,
}
use snailmail.Engine.Apply.Run.{ApplyRepository, Settings, Environment, Run, Action, start}
use snailmail.Engine.Apply.Workspace.{take_effect, then_abort, apply_workspace}
use snailmail.Engine.Apply.Rules.{
  After, Ensures, Keeps, Keeps-bind, bind_rule, if_rule, modify_rule, Keeps-for_each,
  consequence_rule,
}
use snailmail.Engine.Apply.Trace.{authorized, commits, undone, Sound}
use snailmail.Engine.Apply.Effects.{Keeps-authorize}
use snailmail.Engine.Apply.Phases.{take_effect_rule, then_abort_rule}

-- The calls of the trace are authorized, whatever the counts.
abbrev Allowed : {W : Type 0} → Run W → Type 0
Allowed s = authorized s.trace ≡ true

module _ {W : Type 0} where
  start-Sound : (w : W) → Sound (start w)
  unfolding authorized commits undone
  start-Sound w = (refl, refl)

  Allowed-of :
      (r : Result (Unit {0}) × Run W) → After Sound (λ _. Allowed) r → authorized r.1.trace ≡ true
  Allowed-of (ok a, s) h = h
  Allowed-of (err, s) h = h.0
  Allowed-of (out_of_fuel, s) h = h.0

  counts_of :
      (r : Result (Unit {0}) × Run W)
      → After Sound (λ _. Sound) r
      → r.1.applied + undone r.1.trace ≡ commits r.1.trace
  counts_of (ok a, s) h = h.1
  counts_of (err, s) h = h.1
  counts_of (out_of_fuel, s) h = h.1

  -- The branch of a run that is not dry.
  effect_branch :
      (m n : Action W (Unit {0})) (b : Bool)
      → b ≡ false
      → Keeps Sound n
      → Keeps Sound (if b then m else n)
  effect_branch m n true h rule = cc
  effect_branch m n false h rule = rule

module _ {W : Type 0} (env : Environment W) (render_time : ℕ → Bytes) (settings : Settings) where
  effect_rule :
      (items : List ApplyRepository)
      → Keeps Sound
          (then_abort env render_time settings (take_effect env render_time settings items))
  effect_rule items =
      then_abort_rule env render_time settings _ (take_effect_rule env render_time settings items)

  apply_rule :
      (items : List ApplyRepository)
      → Ensures Sound Sound (apply_workspace env render_time settings items) (λ _. Allowed)
  unfolding apply_workspace
  apply_rule items =
      bind_rule (λ _. Sound) (Keeps-for_each items (Keeps-authorize env render_time settings))
        (λ _.
          if_rule settings.dry_run (modify_rule _ (λ s h. h.0))
            (consequence_rule (λ s h. h) (effect_rule items) (λ _ s h. h.0)))

  counted_rule :
      (items : List ApplyRepository)
      → settings.dry_run ≡ false
      → Keeps Sound (apply_workspace env render_time settings items)
  unfolding apply_workspace
  counted_rule items wet =
      Keeps-bind (Keeps-for_each items (Keeps-authorize env render_time settings))
        (λ _. effect_branch _ _ settings.dry_run wet (effect_rule items))

  -- However an apply ends, each staging, commit and restore that it asked of a host stands in its
  -- trace directly behind the passing of the expiry and gate checks for a repository of that name.
  pub authorized-apply_workspace :
      (items : List ApplyRepository) (w : W)
      → authorized (apply_workspace env render_time settings items (start w)).1.trace ≡ true
  authorized-apply_workspace items w =
      Allowed-of _ ((apply_rule items).holds (start w) (start-Sound w))

  -- However an apply that is not a dry run ends, the publications that it counts as applied and
  -- those that the host has undone are together the commits that the host has accepted.
  pub applied-apply_workspace :
      (items : List ApplyRepository) (w : W)
      → settings.dry_run ≡ false
      → (apply_workspace env render_time settings items (start w)).1.applied
          + undone (apply_workspace env render_time settings items (start w)).1.trace
        ≡ commits (apply_workspace env render_time settings items (start w)).1.trace
  applied-apply_workspace items w wet =
      counts_of _ ((counted_rule items wet).holds (start w) (start-Sound w))
