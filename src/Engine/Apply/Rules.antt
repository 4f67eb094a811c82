-- ===== src/Engine/Apply/Rules.antt =====
-- Rules for what holds after an action, whether it returned or failed.
use snailmail.Base.{
  if◌then◌else◌, Result, ok, err, out_of_fuel, Bool, true, false, Option, none, some, List, [], ◌∷◌,
}
use snailmail.Engine.Apply.Run.{
  ApplyRepository, Run, Action, continue, ◌>>=◌, pure, fail, found, check, modify, read,
}
use snailmail.Engine.Apply.Workspace.{for_each}

-- Of a value that was returned `Q` holds, after an error the invariant.
abbrev pub After :
    {W : Type 0} (I : Run W → Type 0) {A : Type 0}
    → (A → Run W → Type 0)
    → Result A × Run W
    → Type 0
After I Q (ok a, s) = Q a s
After I Q (err, s) = I s
After I Q (out_of_fuel, s) = I s

pub record Ensures {W A : Type 0} (I P : Run W → Type 0) (m : Action W A) (Q : A → Run W → Type 0)
    : Type 0 where
  pub holds : (s : Run W) → P s → After I Q (m s)

pub ensures :
    {W A : Type 0} {I P : Run W → Type 0} {m : Action W A} {Q : A → Run W → Type 0}
    → ((s : Run W) → P s → After I Q (m s))
    → Ensures I P m Q
ensures rule = record { holds = rule }

-- The invariant holds on every outcome.
abbrev pub Keeps : {W A : Type 0} → (Run W → Type 0) → Action W A → Type 0
Keeps I m = Ensures I I m (λ _. I)

module _ {W : Type 0} (I : Run W → Type 0) where
  After-mono :
      {A : Type 0} (Q R : A → Run W → Type 0) (r : Result A × Run W)
      → After I Q r
      → ((a : A) (s : Run W) → Q a s → R a s)
      → After I R r
  After-mono Q R (ok a, s) h weaken = weaken a s h
  After-mono Q R (err, s) h weaken = h
  After-mono Q R (out_of_fuel, s) h weaken = h

module _ {W : Type 0} {I : Run W → Type 0} where
  continue_rule :
      {A B : Type 0} (Q : A → Run W → Type 0) (R : B → Run W → Type 0) (next : A → Action W B)
      (r : Result A × Run W)
      → After I Q r
      → ((a : A) → Ensures I (Q a) (next a) R)
      → After I R (continue next r)
  continue_rule Q R next (ok a, s) h rule = (rule a).holds s h
  continue_rule Q R next (err, s) h rule = h
  continue_rule Q R next (out_of_fuel, s) h rule = h

  pub bind_rule :
      {A B : Type 0} {P : Run W → Type 0} (Q : A → Run W → Type 0) {R : B → Run W → Type 0}
      {m : Action W A} {next : A → Action W B}
      → Ensures I P m Q
      → ((a : A) → Ensures I (Q a) (next a) R)
      → Ensures I P (m >>= next) R
  unfolding ◌>>=◌
  bind_rule Q {R = R} {m = m} {next = next} first rule =
      ensures (λ s h. continue_rule Q R next (m s) (first.holds s h) rule)

  -- A sequence of two that keep the invariant.
  pub Keeps-bind :
      {A B : Type 0} {m : Action W A} {next : A → Action W B}
      → Keeps I m
      → ((a : A) → Keeps I (next a))
      → Keeps I (m >>= next)
  Keeps-bind = bind_rule (λ _. I)

  -- Less is asked of the state before, or of the one after.
  pub consequence_rule :
      {A : Type 0} {P P2 : Run W → Type 0} {Q R : A → Run W → Type 0} {m : Action W A}
      → ((s : Run W) → P2 s → P s)
      → Ensures I P m Q
      → ((a : A) (s : Run W) → Q a s → R a s)
      → Ensures I P2 m R
  consequence_rule {Q = Q} {R = R} {m = m} before rule after =
      ensures (λ s h. After-mono I Q R (m s) (rule.holds s (before s h)) after)

  pub pure_rule :
      {A : Type 0} {P : Run W → Type 0} {Q : A → Run W → Type 0} (a : A)
      → ((s : Run W) → P s → Q a s)
      → Ensures I P (pure a) Q
  unfolding pure
  pure_rule a weaken = ensures weaken

  pub Keeps-pure : {A : Type 0} (a : A) → Keeps I (pure a)
  unfolding pure
  Keeps-pure a = ensures (λ s h. h)

  pub if_rule :
      {A : Type 0} {P : Run W → Type 0} {Q : A → Run W → Type 0} (b : Bool) {m n : Action W A}
      → Ensures I P m Q
      → Ensures I P n Q
      → Ensures I P (if b then m else n) Q
  if_rule true first second = first
  if_rule false first second = second

  -- A test that only a passing run leaves behind.
  pub check_rule :
      {P : Run W → Type 0} (b : Bool) → ((s : Run W) → P s → I s) → Ensures I P (check b) (λ _. P)
  unfolding check
  check_rule true weaken = ensures (λ s h. h)
  check_rule false weaken = ensures weaken

  pub Keeps-check : (b : Bool) → Keeps I (check b)
  Keeps-check b = check_rule b (λ s h. h)

  pub found_rule :
      {A : Type 0} {P : Run W → Type 0} (o : Option A)
      → ((s : Run W) → P s → I s)
      → Ensures I P (found o) (λ _. P)
  unfolding found
  found_rule none weaken = ensures weaken
  found_rule (some a) weaken = ensures (λ s h. h)

  pub Keeps-found : {A : Type 0} (o : Option A) → Keeps I (found o)
  Keeps-found o = found_rule o (λ s h. h)

  pub fail_rule :
      {A : Type 0} {P : Run W → Type 0} {Q : A → Run W → Type 0}
      → ((s : Run W) → P s → I s)
      → Ensures I P fail Q
  unfolding fail
  fail_rule weaken = ensures weaken

  pub Keeps-read : {A : Type 0} (field : Run W → A) → Keeps I (read field)
  unfolding read
  Keeps-read field = ensures (λ s h. h)

  pub modify_rule :
      {P Q : Run W → Type 0} (f : Run W → Run W)
      → ((s : Run W) → P s → Q (f s))
      → Ensures I P (modify f) (λ _. Q)
  unfolding modify
  modify_rule f step = ensures step

  pub Keeps-for_each :
      {body : ApplyRepository → Action W (Unit {0})} (items : List ApplyRepository)
      → ((item : ApplyRepository) → Keeps I (body item))
      → Keeps I (for_each body items)
  unfolding for_each
  Keeps-for_each [] rule = Keeps-pure tt
  Keeps-for_each (item ∷ items) rule = Keeps-bind (rule item) (λ _. Keeps-for_each items rule)
