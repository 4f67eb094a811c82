-- ===== src/Engine/Apply/Trace.antt =====
-- The trace of an apply: whether each call that changes what a host serves was authorized, and how
-- many publications stand.
use snailmail.Base.{
  Bytes, ◌==ᵇ◌, ℕ, suc, ◌+◌, ◌<◌, ◌≡◌, Bool, true, false, ◌&&◌, some, List, [], ◌∷◌,
}
use snailmail.Engine.Apply.Run.{
  ApplyRepository, Event, passed, staged, committed, restored, Run, after_commit,
}

-- Whether the last call was the passing of the checks for the repository of that name.
unfoldable pub is_passed : Bytes → List Event → Bool
unfolding ◌==ᵇ◌
is_passed name (passed item ∷ _) = item.planned.name ==ᵇ name
is_passed name _ = false

-- Whether `e` may follow on the calls `before`.
unfoldable pub is_allowed : Event → List Event → Bool
unfolding is_passed
is_allowed (staged item) before = is_passed item.planned.name before
is_allowed (committed item _) before = is_passed item.planned.name before
is_allowed (restored _ item _) before = is_passed item.planned.name before
is_allowed _ before = true

-- Every staging, commit and restore follows directly on an authorization of its repository.
unfoldable pub authorized : List Event → Bool
unfolding is_allowed
authorized [] = true
authorized (e ∷ before) = is_allowed e before && authorized before

-- The commits that a host has accepted.
unfoldable pub commits : List Event → ℕ
commits [] = 0
commits (committed _ (some _) ∷ before) = suc (commits before)
commits (_ ∷ before) = commits before

-- The commits of this apply that a host has undone.
unfoldable pub undone : List Event → ℕ
undone [] = 0
undone (restored after_commit _ true ∷ before) = suc (undone before)
undone (_ ∷ before) = undone before

module _ {W : Type 0} where
  -- The invariant of an apply.
  abbrev pub Sound : Run W → Type 0
  Sound s = (authorized s.trace ≡ true) × (s.applied + undone s.trace ≡ commits s.trace)

  abbrev pub Ready : ApplyRepository → Run W → Type 0
  Ready item s = Sound s × (is_passed item.planned.name s.trace ≡ true)

  -- A publication of this apply stands.
  abbrev pub Live : Run W → Type 0
  Live s = Sound s × (0 < s.applied)
