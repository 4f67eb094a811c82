-- ===== src/Base/Int.antt =====
-- Signed integers over the native numbers, with the comparison that the source makes of them.
use Prim.Native.Nat.{ℕ, suc, zero, compare, Ordering, lt, gt}
use native.Mathlib.Omega.{arith}
use snailmail.Base.Order.{IsPreorder}

-- `negsuc n` is -(n + 1).
pub data ℤ : Type 0 where
  pos : ℕ → ℤ
  negsuc : ℕ → ℤ

abbrev pub neg_of_ℕ : ℕ → ℤ
neg_of_ℕ zero = pos 0
neg_of_ℕ (suc n) = negsuc n

unfoldable pub compare_int : ℤ → ℤ → Ordering
compare_int (pos a) (pos b) = compare a b
compare_int (pos a) (negsuc b) = gt
compare_int (negsuc a) (pos b) = lt
compare_int (negsuc a) (negsuc b) = compare b a

pub IsPreorder-compare_int : IsPreorder compare_int
unfolding compare_int
IsPreorder-compare_int = record {
  swapped = λ a b. ground arith;
  eq_left = λ a b c h. ground arith;
  lt_trans = λ a b c h k. ground arith;
}
