-- ===== src/Engine/Apply/Effects.antt =====
-- The elementary steps of an apply, and its invariant.
use snailmail.Base.{
  Bytes, codes, ◌==ᵇ◌, ==ᵇ_refl, ℕ, ◌<◌, ◌≡◌, ap, ◌∙◌, Bool, true, false, ◌&&◌, Option, none, some,
  arith,
}
use snailmail.Engine.Host.{PublishedRevision, CommitResult}
use snailmail.Engine.Apply.Run.{
  ApplyRepository, Settings, Environment, after_commit, after_probe, passed, observed, Run, Action,
  ◌>>=◌, pure, call, check, emit,
}
use snailmail.Engine.Apply.Publish.{
  less_applied, less_current, count_restore, count_commit, ask_gate, authorize_effect, authorize,
}
use snailmail.Engine.Apply.Workspace.{add_stage}
use snailmail.Engine.Apply.Rules.{
  Ensures, ensures, Keeps, bind_rule, consequence_rule, if_rule, check_rule,
}
use snailmail.Engine.Apply.Trace.{is_passed, is_allowed, authorized, commits, undone, Sound, Ready}

and-intro : {a b : Bool} → a ≡ true → b ≡ true → (a && b) ≡ true
and-intro {b = b} p q = ap (λ x. x && b) p ∙ q

module _ {W : Type 0} where
  Ready-Sound : (item : ApplyRepository) (s : Run W) → Ready item s → Sound s
  Ready-Sound item s h = h.0

  pub call_rule : {A : Type 0} (ask : W → A × W) → Keeps Sound (call ask)
  unfolding call
  call_rule ask = ensures (λ s h. h)

  pub call-Ready :
      {A : Type 0} (item : ApplyRepository) (ask : W → A × W)
      → Ensures Sound (Ready item) (call ask) (λ _. Ready item)
  unfolding call
  call-Ready item ask = ensures (λ s h. h)

  pub add_stage_rule :
      (item : ApplyRepository) (s : Run W) → Ready item s → Sound (add_stage item s)
  unfolding authorized is_allowed commits undone
  add_stage_rule item s ((auth, sum), ready) = (and-intro ready auth, sum)

  pub count_commit_rule :
      (item : ApplyRepository) (o : Option CommitResult) (s : Run W)
      → Ready item s
      → Sound (count_commit item o s)
  unfolding authorized is_allowed commits undone
  count_commit_rule item none s ((auth, sum), ready) = (and-intro ready auth, sum)
  count_commit_rule item (some c) s ((auth, sum), ready) = (and-intro ready auth, omega arith)

  pub undo_rule :
      (item : ApplyRepository) (done : Bool) (s : Run W)
      → Ready item s
      → 0 < s.applied
      → Sound (count_restore after_commit less_applied item done s)
  unfolding authorized is_allowed commits undone
  undo_rule item true s ((auth, sum), ready) positive = (and-intro ready auth, omega arith)
  undo_rule item false s ((auth, sum), ready) positive = (and-intro ready auth, sum)

  pub undo_current_rule :
      (item : ApplyRepository) (done : Bool) (s : Run W)
      → Ready item s
      → Sound (count_restore after_probe less_current item done s)
  unfolding authorized is_allowed commits undone
  undo_current_rule item true s ((auth, sum), ready) = (and-intro ready auth, sum)
  undo_current_rule item false s ((auth, sum), ready) = (and-intro ready auth, sum)

-- The invariant, with what is known of the number of repositories applied.
abbrev pub SoundWith : {W : Type 0} → (ℕ → Type 0) → Run W → Type 0
SoundWith N s = Sound s × N s.applied

abbrev pub ReadyWith : {W : Type 0} → (ℕ → Type 0) → ApplyRepository → Run W → Type 0
ReadyWith N item s = Ready item s × N s.applied

module _ {W : Type 0} (N : ℕ → Type 0) where
  abbrev Steady : {A : Type 0} → Action W A → Type 0
  Steady m = Ensures Sound (SoundWith N) m (λ _. SoundWith N)

  pub with_call : {A : Type 0} (ask : W → A × W) → Steady (call ask)
  unfolding call
  with_call ask = ensures (λ s h. h)

  pub with_pure : {A : Type 0} (a : A) → Steady (pure a)
  unfolding pure
  with_pure a = ensures (λ s h. h)

  pub with_check : (b : Bool) → Steady (check b)
  with_check b = check_rule b (λ s h. h.0)

  pub with_bind :
      {A B : Type 0} {m : Action W A} {next : A → Action W B} {R : B → Run W → Type 0}
      → Steady m
      → ((a : A) → Ensures Sound (SoundWith N) (next a) R)
      → Ensures Sound (SoundWith N) (m >>= next) R
  with_bind = bind_rule (λ _. SoundWith N)

  pub ready_call :
      {A : Type 0} (item : ApplyRepository) (ask : W → A × W)
      → Ensures Sound (ReadyWith N item) (call ask) (λ _. ReadyWith N item)
  unfolding call
  ready_call item ask = ensures (λ s h. h)

  pub observed_rule :
      (item : ApplyRepository) (o : Option PublishedRevision) → Steady (emit (observed item o))
  unfolding emit authorized is_allowed undone commits
  observed_rule item o = ensures (λ s h. h)

  passed_rule :
      (item : ApplyRepository)
      → Ensures {W = W} Sound (SoundWith N) (emit (passed item)) (λ _. ReadyWith N item)
  unfolding emit authorized is_allowed is_passed undone commits
  passed_rule item = ensures (λ s ((auth, sum), n). (((auth, sum), ==ᵇ_refl item.planned.name), n))

module _ {W : Type 0} (N : ℕ → Type 0) (env : Environment W) (render_time : ℕ → Bytes)
    (settings : Settings) where
  authorize_effect_rule :
      (item : ApplyRepository)
      → Ensures Sound
          (SoundWith N)
          (authorize_effect env render_time settings item)
          (λ _. SoundWith N)
  unfolding authorize_effect ask_gate
  authorize_effect_rule item = with_bind N (with_call N _) (λ now.
      with_bind N (with_check N _) (λ _.
        if_rule (item.gate ==ᵇ codes "auto") (with_pure N tt)
          (with_bind N (with_check N _) (λ _. with_bind N (with_call N _) (with_check N)))))

  pub authorize_rule :
      (item : ApplyRepository)
      → Ensures Sound
          (SoundWith N)
          (authorize env render_time settings item)
          (λ _. ReadyWith N item)
  unfolding authorize
  authorize_rule item =
      with_bind N
        (if_rule (item.planned.action ==ᵇ codes "noop") (with_pure N tt)
          (authorize_effect_rule item))
        (λ _. passed_rule N item)

module _ {W : Type 0} (env : Environment W) (render_time : ℕ → Bytes) (settings : Settings) where
  pub authorize_step :
      (item : ApplyRepository)
      → Ensures Sound Sound (authorize env render_time settings item) (λ _. Ready item)
  authorize_step item =
      consequence_rule (λ s h. (h, tt)) (authorize_rule (λ _. Unit) env render_time settings item)
        (λ _ s h. h.0)

  pub Keeps-authorize :
      (item : ApplyRepository) → Keeps Sound (authorize env render_time settings item)
  Keeps-authorize item = consequence_rule (λ s h. h) (authorize_step item) (λ _ s h. h.0)
