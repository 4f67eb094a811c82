-- ===== src/Version/Rpm/Loop.antt =====
-- The loop of `CompareSegments` and `compare_tokens`, and the order of `CompareVersions`.
use snailmail.Base.{
  Bool-cases, length, Bytes, ◌==ᵇ◌, ==ᵇ_iff, ◌then_by◌, self_eq, IsPreorder-key, IsPreorder-then,
  IsPreorder-compare, compare_padded, IsPreorder, of_option, IsComparator-of_read, Result,
  IsComparator, ok, ℕ, zero, suc, ◌+◌, ◌≤◌, ◌<◌, compare, Ordering, eq, ◌≡◌, refl, sym, ap, ◌∙◌,
  subst, ◌≢◌, inl, inr, [], ◌∷◌, arith, ◌>>=◌,
}
use snailmail.Version.Rpm.{
  is_separator, trim_separators, Round, returned, again, broke, round, finish, after_round,
  compare_loop, compare_segments, Evr, split_evr, compare_evr, compare_versions,
}
use snailmail.Version.Rpm.Tokens.{
  class_separator, class-ne-separator, compare_tokens, IsPreorder-compare_tokens, a_separator,
  class, class-Tests, tokens, tokens_separator,
}
use snailmail.Version.Rpm.Order.{
  compared, Agrees, nothing-Agrees, left_ended, right_ended, heads-Agrees,
}

-- A string without leading separators: empty, or with a first token.
abbrev Trimmed : Bytes → Type 0
Trimmed [] = Unit
Trimmed (c ∷ _) = class c ≢ a_separator

trim_separators-Trimmed : (s : Bytes) → Trimmed (trim_separators s)
unfolding trim_separators
trim_separators-Trimmed [] = tt
trim_separators-Trimmed (c ∷ s) = elim (Bool-cases (is_separator c)) [
  | inl drop ↦ rw drop (trim_separators-Trimmed s)
  | inr keep ↦ rw keep (class-ne-separator c keep)
]

tokens-trim_separators :
    (s : Bytes) → (tokens (trim_separators s) ≡ tokens s) × (length (trim_separators s) ≤ length s)
unfolding trim_separators
tokens-trim_separators [] = (refl, omega arith)
tokens-trim_separators (c ∷ s) = elim (Bool-cases (is_separator c)) [
  | inl drop ↦
      let (same, shorter) = tokens-trim_separators s in
      rw drop (same ∙ sym (tokens_separator c s (class_separator c drop)), omega arith)
  | inr keep ↦ rw keep (refl, omega arith)
]

round-Agrees : (one two : Bytes) → Trimmed one → Trimmed two → Agrees one two (round one two)
round-Agrees [] [] p q = nothing-Agrees
round-Agrees [] (e ∷ t) p q = left_ended e t q
round-Agrees (c ∷ s) [] p q = right_ended c s p
round-Agrees (c ∷ s) (e ∷ t) p q =
    heads-Agrees c e s t (class c) (class e) refl refl (class-Tests c) (class-Tests e) p q

after_round_lem :
    (next : Bytes → Bytes → Result Ordering) (one two : Bytes) (r : Round)
    → Agrees one two r
    → ((a b : Bytes) → length a + length b < length one + length two → next a b ≡ ok (compared a b))
    → after_round next r ≡ ok (compared one two)
unfolding after_round
after_round_lem next one two (returned o) h ih = ap ok h
after_round_lem next one two (broke a b) h ih = ap ok h
after_round_lem next one two (again a b) (e, l) ih = ih a b l ∙ ap ok e

compared_nil : compared [] [] ≡ finish [] []
unfolding tokens compare_padded finish
compared_nil = refl

loop_step :
    (fuel : ℕ) (one two : Bytes)
    → ((a b : Bytes) → length a + length b ≤ fuel → compare_loop fuel a b ≡ ok (compared a b))
    → length one + length two ≤ suc fuel
    → after_round (compare_loop fuel) (round (trim_separators one) (trim_separators two))
      ≡ ok (compared one two)
loop_step fuel one two ih h =
    let (p, p') = tokens-trim_separators one in
    let (q, q') = tokens-trim_separators two in
    after_round_lem (compare_loop fuel) (trim_separators one) (trim_separators two) _
      (round-Agrees _ _ (trim_separators-Trimmed one) (trim_separators-Trimmed two))
      (λ a b l. ih a b (omega arith))
    ∙ (λ i. ok (compare_tokens (p i) (q i)))

compare_loop_lem :
    (fuel : ℕ) (one two : Bytes)
    → length one + length two ≤ fuel
    → compare_loop fuel one two ≡ ok (compared one two)
unfolding compare_loop
compare_loop_lem zero [] [] h = rw compared_nil
compare_loop_lem zero [] (e ∷ t) h = absurd (omega arith)
compare_loop_lem zero (c ∷ s) two h = absurd (omega arith)
compare_loop_lem (suc fuel) [] [] h = rw compared_nil
compare_loop_lem (suc fuel) [] (e ∷ t) h = loop_step fuel [] (e ∷ t) (compare_loop_lem fuel) h
compare_loop_lem (suc fuel) (c ∷ s) two h = loop_step fuel (c ∷ s) two (compare_loop_lem fuel) h

-- The loop ends within its fuel on any two strings, and answers as the comparison of their tokens
-- does; the shortcut for equal strings changes no answer.
pub compare_segments-tokens :
    (left right : Bytes)
    → compare_segments left right ≡ ok (compare_tokens (tokens left) (tokens right))
unfolding compare_segments
compare_segments-tokens left right = elim (Bool-cases (left ==ᵇ right)) [
  | inl same ↦ rw same (
      ap ok (
        sym (
          subst (λ r. compare_tokens (tokens left) (tokens r) ≡ eq) ((==ᵇ_iff left right).0 same)
            (self_eq IsPreorder-compare_tokens (tokens left)))))
  | inr differ ↦ rw differ (compare_loop_lem (length left + length right) left right (omega arith))
]

abbrev compare_key : Evr → Evr → Ordering
compare_key a b =
    compare a.epoch b.epoch
    then_by compare_tokens (tokens a.version) (tokens b.version)
    then_by compare_tokens (tokens a.release) (tokens b.release)

IsPreorder-compare_key : IsPreorder compare_key
IsPreorder-compare_key =
    IsPreorder-then (IsPreorder-key (λ (v : Evr). v.epoch) IsPreorder-compare) (
      IsPreorder-then (IsPreorder-key (λ (v : Evr). tokens v.version) IsPreorder-compare_tokens)
        (IsPreorder-key (λ (v : Evr). tokens v.release) IsPreorder-compare_tokens))

compare_evr-key : (a b : Evr) → compare_evr a b ≡ ok (compare_key a b)
unfolding compare_evr
compare_evr-key a b = ground (
  arith,
  compare_segments-tokens a.version b.version,
  compare_segments-tokens a.release b.release,
)

compare_versions-read :
    (a b : Bytes)
    → compare_versions a b
      ≡ (do x ← of_option (split_evr a); y ← of_option (split_evr b); ok (compare_key x y))
unfolding compare_versions
compare_versions-read a b =
    (λ i. do x ← of_option (split_evr a); y ← of_option (split_evr b); compare_evr-key x y i)

-- `CompareVersions` ends on every two strings, with an order or an error, and on the versions that
-- it accepts the order is a total preorder.
pub rpm_versions-IsComparator : IsComparator compare_versions
rpm_versions-IsComparator =
    IsComparator-of_read split_evr compare_key IsPreorder-compare_key compare_versions-read
