-- ===== src/Engine/Apply/DryRun.antt =====
-- What a dry run asks of the hosts, and when a repository is authorized.
use snailmail.Base.{
  ltb, if◌then◌else◌, Bytes, codes, ◌==ᵇ◌, Result, ok, err, out_of_fuel, ℕ, ◌≡◌, refl, Bool, true,
  false, ◌&&◌, ◌||◌, List, [], ◌∷◌, arith,
}
use snailmail.Engine.Apply.Run.{
  ApplyRepository, Settings, Environment, Event, passed, Run, Action, start, ◌>>=◌, pure, check,
  call, emit, fail,
}
use snailmail.Engine.Apply.Publish.{ask_gate, authorize_effect, authorize}
use snailmail.Engine.Apply.Workspace.{apply_workspace}
use snailmail.Engine.Apply.Rules.{
  After, ensures, Keeps, Keeps-bind, if_rule, Keeps-pure, Keeps-check, modify_rule, Keeps-for_each,
}

unfoldable pub only_passed : List Event → Bool
only_passed [] = true
only_passed (passed _ ∷ before) = only_passed before
only_passed (_ ∷ before) = false

-- What the expiry, the policy and the gate say of a repository, in the environment's state `w`.
unfoldable pub is_permitted : {W : Type 0} → Environment W → Settings → ApplyRepository → W → Bool
unfolding ◌==ᵇ◌
is_permitted env settings item w =
    item.planned.action ==ᵇ codes "noop"
    || ltb (env.current_time w).0 settings.expires_at
      && (item.gate ==ᵇ codes "auto"
          || settings.has_gates && (env.gate item (env.current_time w).0 (env.current_time w).1).0)

module _ {W : Type 0} where
  abbrev Quiet : Run W → Type 0
  Quiet s = only_passed s.trace ≡ true

  Quiet-call : {A : Type 0} (ask : W → A × W) → Keeps Quiet (call ask)
  unfolding call
  Quiet-call ask = ensures (λ s h. h)

  Quiet-passed : (item : ApplyRepository) → Keeps Quiet (emit (passed item))
  unfolding emit only_passed
  Quiet-passed item = ensures (λ s h. h)

  Quiet-start : (w : W) → Quiet (start w)
  unfolding only_passed
  Quiet-start w = refl

  Quiet-of :
      (r : Result (Unit {0}) × Run W) → After Quiet (λ _. Quiet) r → only_passed r.1.trace ≡ true
  Quiet-of (ok a, s) h = h
  Quiet-of (err, s) h = h
  Quiet-of (out_of_fuel, s) h = h

  dry_branch :
      (m n : Action W (Unit {0})) (b : Bool)
      → b ≡ true
      → Keeps Quiet m
      → Keeps Quiet (if b then m else n)
  dry_branch m n true h rule = rule
  dry_branch m n false h rule = cc

module _ {W : Type 0} (env : Environment W) (render_time : ℕ → Bytes) (settings : Settings) where
  Quiet-authorize : (item : ApplyRepository) → Keeps Quiet (authorize env render_time settings item)
  unfolding authorize authorize_effect ask_gate
  Quiet-authorize item =
      Keeps-bind
        (if_rule (item.planned.action ==ᵇ codes "noop") (Keeps-pure tt) (
          Keeps-bind (Quiet-call _) (λ now. Keeps-bind (Keeps-check _) (λ _.
            if_rule (item.gate ==ᵇ codes "auto") (Keeps-pure tt)
              (Keeps-bind (Keeps-check _) (λ _. Keeps-bind (Quiet-call _) Keeps-check))))))
        (λ _. Quiet-passed item)

  Quiet-rule :
      (items : List ApplyRepository)
      → settings.dry_run ≡ true
      → Keeps Quiet (apply_workspace env render_time settings items)
  unfolding apply_workspace
  Quiet-rule items dry =
      Keeps-bind (Keeps-for_each items Quiet-authorize)
        (λ _. dry_branch _ _ settings.dry_run dry (modify_rule _ (λ s h. h)))

  -- A dry run asks no host to stage, commit or restore, and commits neither ledgers nor receipts.
  pub only_passed-apply_workspace :
      (items : List ApplyRepository) (w : W)
      → settings.dry_run ≡ true
      → only_passed (apply_workspace env render_time settings items (start w)).1.trace ≡ true
  only_passed-apply_workspace items w dry =
      Quiet-of _ ((Quiet-rule items dry).holds (start w) (Quiet-start w))

  -- The checks pass exactly for a repository with nothing to publish, or before the plan expires
  -- under the policy `auto`, or before it expires where there are gates and they accept.
  pub authorize_lem :
      (item : ApplyRepository) (s : Run W)
      → (authorize env render_time settings item s).0
        ≡ (if is_permitted env settings item s.world then ok tt else err)
  unfolding authorize authorize_effect ask_gate is_permitted ◌>>=◌ call check pure emit fail
  authorize_lem item s = ground arith
