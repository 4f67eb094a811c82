-- ===== src/Base/Regex.antt =====
-- Package regexp, for the patterns of the source: all ways to match, the preferred one first, with
-- what each group captured. Patterns are over bytes.
use Prim.Native.Nat.{ℕ, zero, suc, ◌-◌}
use mathlib.Core.Bool.{Bool}
use mathlib.Core.Option.{Option, none, some}
use mathlib.Core.List.{List, [], ◌∷◌, ◌++◌}
use snailmail.Base.Tests.{ltb, ◌==◌, if◌then◌else◌, length, Bytes}

pub data Regex : Type 0 where
  empty : Regex
  char : (ℕ → Bool) → Regex
  seq : Regex → Regex → Regex
  alt : Regex → Regex → Regex
  star : Regex → Regex
  group : ℕ → Regex → Regex

-- The text that is left, and the groups captured, the newest first.
pub record Place : Type 0 where
  pub rest : Bytes
  pub groups : List (ℕ × Bytes)

each {ℓ κ} : {A : Type ℓ} {B : Type κ} → (A → List B) → List A → List B
each f [] = []
each f (x ∷ xs) = f x ++ each f xs

front : ℕ → Bytes → Bytes
front zero s = []
front (suc n) [] = []
front (suc n) (c ∷ s) = c ∷ front n s

take_char : (ℕ → Bool) → Place → Bytes → List Place
take_char test p [] = []
take_char test p (c ∷ s) = if test c then record p { rest = s } ∷ [] else []

-- A greedy repetition: more rounds are preferred, and a round that takes nothing ends it.
repeat : ℕ → (Place → List Place) → Place → List Place
unfolding each
repeat zero step p = p ∷ []
repeat (suc fuel) step p =
    each (λ q. if ltb (length q.rest) (length p.rest) then repeat fuel step q else []) (step p)
    ++ p ∷ []

capture : ℕ → Place → Place → Place
unfolding front
capture n p q = record q { groups = (n, front (length p.rest - length q.rest) p.rest) ∷ q.groups }

run : Regex → Place → List Place
unfolding each take_char repeat capture
run empty p = p ∷ []
run (char test) p = take_char test p p.rest
run (seq a b) p = each (run b) (run a p)
run (alt a b) p = run a p ++ run b p
run (star a) p = repeat (length p.rest) (run a) p
run (group n a) p = each (λ q. capture n p q ∷ []) (run a p)

first_whole : List Place → Option (List (ℕ × Bytes))
first_whole [] = none
first_whole (p ∷ ps) = elim p.rest [ [] ↦ some p.groups | _ ∷ _ ↦ first_whole ps ]

-- `FindStringSubmatch` of a pattern between `^` and `$`.
unfoldable pub find_submatch : Regex → Bytes → Option (List (ℕ × Bytes))
unfolding run first_whole
find_submatch r s = first_whole (run r (record { rest = s; groups = [] }))

-- `matches[n]`: empty where the group took no part.
unfoldable pub submatch : ℕ → List (ℕ × Bytes) → Bytes
submatch n [] = []
submatch n ((m, s) ∷ groups) = if m == n then s else submatch n groups

abbrev pub maybe : Regex → Regex
maybe r = alt r empty

abbrev pub some_of : Regex → Regex
some_of r = seq r (star r)
