-- ===== src/Engine/Apply/Gated.antt =====
-- engine/workspace.go: what authorize asks of the gates, and what an approval gate then guarantees.
use snailmail.Base.{
  if◌then◌else◌, Bytes, codes, ◌==ᵇ◌, is_ok, is_ok_lem, Result, ok, err, Any, ℕ, ◌<◌, ◌≡◌, refl,
  sym, ap, ◌∙◌, Bool, true, false, Option, arith,
}
use snailmail.Gate.Approval.{Requirement, ApprovalFile, Crypto}
use snailmail.Gate.Review.{Forge}
use snailmail.Gate.Evaluate.{load_approvals, require_approval}
use snailmail.Gate.Evaluate
use snailmail.Gate.Safe.{Approved, require_approval_lem}
use snailmail.Engine.Apply.Run.{ApplyRepository, Settings, Environment, Run}
use snailmail.Engine.Apply.Publish.{authorize}
use snailmail.Engine.Apply.DryRun.{is_permitted, authorize_lem}

-- The forge of the plan and the directory of the workspace.
pub record Place : Type 0 where
  pub root : Bytes
  pub forge_repository : Bytes
  pub forge : Bytes
  pub forge_host : Bytes

abbrev pub requirement_of : Settings → Place → ApplyRepository → ℕ → Requirement
requirement_of settings place item now = record {
  policy = item.gate;
  plan_id = settings.plan_id;
  repository = item.planned.name;
  git_revision = settings.git_revision;
  root = place.root;
  now = now;
  forge_repository = place.forge_repository;
  forge = place.forge;
  forge_host = place.forge_host;
  approval_keys = item.planned.approval_keys;
}

module _ {W : Type 0} (crypto : Crypto) (read_file : Bytes → Option Bytes)
    (decode : Bytes → Option ApprovalFile) (approval_file : Bytes) (forges : Option (Forge W))
    (place : Place) (settings : Settings) where
  -- The environment asks the evaluator of gate/gate.go.
  abbrev pub AsksGate : Environment W → Type 0
  AsksGate env =
      (item : ApplyRepository) (now : ℕ) (w : W)
      → env.gate item now w
        ≡ Evaluate.authorize crypto read_file decode approval_file forges
            (requirement_of settings place item now) w

  opened_approval :
      (requirement : Requirement) (w : W)
      → requirement.policy ≡ codes "approval"
      → (Evaluate.authorize crypto read_file decode approval_file forges requirement w).0 ≡ true
      → require_approval crypto read_file decode approval_file requirement ≡ ok tt
  unfolding Evaluate.authorize ◌==ᵇ◌
  opened_approval requirement w policy h =
      is_ok_lem (require_approval crypto read_file decode approval_file requirement) (sym reads ∙ h)
    where
      reads :
          (Evaluate.authorize crypto read_file decode approval_file forges requirement w).0
          ≡ is_ok (require_approval crypto read_file decode approval_file requirement)
      reads =
          let not_auto : (requirement.policy ==ᵇ codes "auto") ≡ false = rw policy refl in
          let not_pr : (requirement.policy ==ᵇ codes "pr") ≡ false = rw policy refl in
          let approval : (requirement.policy ==ᵇ codes "approval") ≡ true = rw policy refl in
          rw not_auto (rw not_pr (rw approval refl))

  permitted_of :
      (b : Bool) {r : Result (Unit {0})} → r ≡ (if b then ok tt else err) → r ≡ ok tt → b ≡ true
  permitted_of true p q = refl
  permitted_of false p q = cc

  -- Where an apply lets a repository with the approval gate take effect, the plan has not expired,
  -- and the evidence file is read and holds an approval of this plan and repository, unexpired at that time and
  -- signed by one of the plan's approval keys.
  pub authorize-Approved :
      (env : Environment W) (render_time : ℕ → Bytes) (item : ApplyRepository) (s : Run W)
      → AsksGate env
      → item.gate ≡ codes "approval"
      → (item.planned.action ==ᵇ codes "noop") ≡ false
      → (authorize env render_time settings item s).0 ≡ ok tt
      → ((env.current_time s.world).0 < settings.expires_at)
        × (evidence : ApprovalFile) × (load_approvals read_file decode approval_file ≡ ok evidence)
        × Any
            (Approved crypto (requirement_of settings place item (env.current_time s.world).0))
            evidence.approvals
  unfolding is_permitted ◌==ᵇ◌
  authorize-Approved env render_time item s asks policy effect h =
      let permitted : is_permitted env settings item s.world ≡ true =
        permitted_of _ (authorize_lem env render_time settings item s) h in
      let not_auto : (item.gate ==ᵇ codes "auto") ≡ false = rw policy refl in
      let accepted : (env.gate item (env.current_time s.world).0 (env.current_time s.world).1).0
          ≡ true =
        ground arith in
      let (evidence, loaded, _, approved) =
        require_approval_lem crypto
          (requirement_of settings place item (env.current_time s.world).0) read_file decode
          approval_file
          (opened_approval _ (env.current_time s.world).1 policy (
            ap (λ r. r.0)
              (sym (asks item (env.current_time s.world).0 (env.current_time s.world).1))
            ∙ accepted)) in
      (ground arith, evidence, loaded, approved)
