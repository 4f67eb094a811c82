-- ===== src/Version/Deb/Order.antt =====
-- The loops of `compareVersionPart` and `compare_runs`, and the order of `CompareVersions`.
use snailmail.Base.{
  if◌then◌else◌, Bool-cases, length, Bytes, ◌then_by◌, IsPreorder-key, IsPreorder-then,
  compare_padded, IsPreorder, is_digit, take_while, take_while_shorter, pos, of_option,
  IsComparator-of_read, Result, IsComparator, ok, ℕ, zero, suc, ◌+◌, ◌≤◌, Ordering, lt, eq, gt, ◌≡◌,
  refl, sym, ap, ◌∙◌, inl, inr, true, Option, none, some, [], ◌∷◌, arith, ◌>>=◌,
}
use snailmail.Version.Numeric.{compare_numeric, IsPreorder-compare_numeric}
use snailmail.Version.Deb.{
  version_order, Scan, returned, reached, compare_text, take_digits, compare_digits, after_text,
  compare_loop, compare_version_part, Split, split_version, valid_version, compare_split,
  compare_versions,
}
use snailmail.Version.Deb.Parts.{
  runs, not_digit, text, behind_text, behind_run, compare_texts, compare_runs, compare_runs_step,
  IsPreorder-compare_runs,
}

abbrev scan_of : Ordering → Bytes → Bytes → Scan
scan_of eq left right = reached left right
scan_of lt left right = returned lt
scan_of gt left right = returned gt

version_order_end : version_order 0 ≡ pos 0
unfolding version_order
version_order_end = refl

version_order-is_digit : (c : ℕ) → is_digit c ≡ true → version_order c ≡ pos 0
unfolding version_order
version_order-is_digit c h = ground arith

compare_text_lem :
    (fuel : ℕ) (left right : Bytes)
    → length left + length right ≤ fuel
    → compare_text fuel left right
      ≡ ok (scan_of (compare_texts (text left) (text right)) (behind_text left) (behind_text right))
unfolding compare_text compare_padded take_while
compare_text_lem zero [] [] h = refl
compare_text_lem zero [] (e ∷ t) h = absurd (omega arith)
compare_text_lem zero (c ∷ s) right h = absurd (omega arith)
compare_text_lem (suc fuel) [] [] h = refl
compare_text_lem (suc fuel) [] (e ∷ t) h =
    ground (arith, compare_text_lem fuel [] t, version_order_end)
compare_text_lem (suc fuel) (c ∷ s) [] h =
    ground (arith, compare_text_lem fuel s [], version_order_end)
compare_text_lem (suc fuel) (c ∷ s) (e ∷ t) h = elim (Bool-cases (is_digit c)) [
  | inl c_digit ↦ elim (Bool-cases (is_digit e)) [
    | inl e_digit ↦ ground arith
    | inr e_text ↦ ground (arith, compare_text_lem fuel (c ∷ s) t, version_order-is_digit c c_digit)
  ]
  | inr c_text ↦ elim (Bool-cases (is_digit e)) [
    | inl e_digit ↦
        ground (arith, compare_text_lem fuel s (e ∷ t), version_order-is_digit e e_digit)
    | inr e_text ↦ ground (arith, compare_text_lem fuel s t)
  ]
]

after_text-scan_of :
    (o : Ordering) (next : Bytes → Bytes → Result Ordering) (left right : Bytes) (rest : Ordering)
    → next (take_digits left).1 (take_digits right).1 ≡ ok rest
    → after_text next (ok (scan_of o left right))
      ≡ ok ((o then_by compare_numeric (take_digits left).0 (take_digits right).0) then_by rest)
unfolding after_text compare_digits
after_text-scan_of lt next left right rest h = refl
after_text-scan_of gt next left right rest h = refl
after_text-scan_of eq next left right rest h = ground arith

behind_run-shorter : (c : ℕ) (s : Bytes) → length (behind_run (c ∷ s)) ≤ length s
unfolding take_while
behind_run-shorter c s = ground (
  arith,
  take_while_shorter is_digit s,
  take_while_shorter not_digit s,
  take_while_shorter is_digit (take_while not_digit s).1,
)

behind_run-nil : behind_run [] ≡ []
unfolding take_while
behind_run-nil = refl

-- The outer loop takes one run off each string.
compare_loop_step :
    (next : Bytes → Bytes → Result Ordering) (left right : Bytes)
    → next (behind_run left) (behind_run right)
      ≡ ok (compare_runs (runs (behind_run left)) (runs (behind_run right)))
    → after_text next (compare_text (length left + length right) left right)
      ≡ ok (compare_runs (runs left) (runs right))
compare_loop_step next left right h =
    rw (compare_text_lem (length left + length right) left right (omega arith)) (
      after_text-scan_of (compare_texts (text left) (text right)) next (behind_text left)
        (behind_text right) _ h
      ∙ ap ok (sym (compare_runs_step left right)))

compare_runs_nil : compare_runs (runs []) (runs []) ≡ eq
unfolding runs compare_padded
compare_runs_nil = refl

compare_loop_lem :
    (fuel : ℕ) (left right : Bytes)
    → length left + length right ≤ fuel
    → compare_loop fuel left right ≡ ok (compare_runs (runs left) (runs right))
unfolding compare_loop
compare_loop_lem zero [] [] h = rw compare_runs_nil
compare_loop_lem zero [] (e ∷ t) h = absurd (omega arith)
compare_loop_lem zero (c ∷ s) right h = absurd (omega arith)
compare_loop_lem (suc fuel) [] [] h = rw compare_runs_nil
compare_loop_lem (suc fuel) [] (e ∷ t) h = compare_loop_step (compare_loop fuel) [] (e ∷ t) (
    compare_loop_lem fuel (behind_run []) (behind_run (e ∷ t))
      (omega (arith, behind_run-shorter e t, ap length behind_run-nil)))
compare_loop_lem (suc fuel) (c ∷ s) [] h = compare_loop_step (compare_loop fuel) (c ∷ s) [] (
    compare_loop_lem fuel (behind_run (c ∷ s)) (behind_run [])
      (omega (arith, behind_run-shorter c s, ap length behind_run-nil)))
compare_loop_lem (suc fuel) (c ∷ s) (e ∷ t) h =
    compare_loop_step (compare_loop fuel) (c ∷ s) (e ∷ t) (
      compare_loop_lem fuel (behind_run (c ∷ s)) (behind_run (e ∷ t))
        (omega (arith, behind_run-shorter c s, behind_run-shorter e t)))

-- The two loops end within their fuel on any two strings, and answer as the comparison of the
-- strings' runs does: texts by `versionOrder` with 0 for a missing byte, digits by value.
pub compare_version_part-runs :
    (left right : Bytes)
    → compare_version_part left right ≡ ok (compare_runs (runs left) (runs right))
unfolding compare_version_part
compare_version_part-runs left right =
    compare_loop_lem (length left + length right) left right (omega arith)

abbrev compare_key : Split → Split → Ordering
compare_key a b =
    compare_numeric a.epoch b.epoch
    then_by compare_runs (runs a.upstream) (runs b.upstream)
    then_by compare_runs (runs a.revision) (runs b.revision)

IsPreorder-compare_key : IsPreorder compare_key
IsPreorder-compare_key =
    IsPreorder-then (IsPreorder-key (λ (s : Split). s.epoch) IsPreorder-compare_numeric) (
      IsPreorder-then (IsPreorder-key (λ (s : Split). runs s.upstream) IsPreorder-compare_runs)
        (IsPreorder-key (λ (s : Split). runs s.revision) IsPreorder-compare_runs))

compare_split-key : (a b : Split) → compare_split a b ≡ ok (compare_key a b)
unfolding compare_split
compare_split-key a b = ground (
  arith,
  compare_version_part-runs a.upstream b.upstream,
  compare_version_part-runs a.revision b.revision,
)

abbrev read : Bytes → Option Split
read version = if valid_version version then some (split_version version) else none

compare_versions-read :
    (a b : Bytes)
    → compare_versions a b
      ≡ (do x ← of_option (read a); y ← of_option (read b); ok (compare_key x y))
unfolding compare_versions
compare_versions-read a b = ground (arith, compare_split-key (split_version a) (split_version b))

-- `CompareVersions` ends on every two strings, with an order or an error, and on the versions that
-- it accepts the order is a total preorder.
pub deb_versions-IsComparator : IsComparator compare_versions
deb_versions-IsComparator =
    IsComparator-of_read read compare_key IsPreorder-compare_key compare_versions-read
