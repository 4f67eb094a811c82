-- ===== src/Version/Deb/Parts.antt =====
-- An independent reading of `compareVersionPart`: a version part is a sequence of runs, each of
-- text and then of digits, and two parts compare run by run.
use snailmail.Base.{
  if◌then◌else◌, Bool-cases, Bytes, ◌then_by◌, IsPreorder-key, IsPreorder-then, compare_padded,
  IsPreorder-compare_padded, IsPreorder, is_digit, take_while, compare_int, IsPreorder-compare_int,
  pos, ℕ, Ordering, eq, ◌≡◌, refl, sym, inl, inr, Bool, true, false, not, List, [], ◌∷◌, map, arith,
}
use snailmail.Version.Numeric.{compare_numeric, IsPreorder-compare_numeric}
use snailmail.Version.Deb.{version_order, take_digits}

abbrev pub Run : Type 0
Run = Bytes × Bytes

push_text : ℕ → List Run → List Run
push_text c [] = (c ∷ [], []) ∷ []
push_text c ((text, digits) ∷ runs) = (c ∷ text, digits) ∷ runs

push_digit : ℕ → List Run → List Run
push_digit c [] = ([], c ∷ []) ∷ []
push_digit c (([], digits) ∷ runs) = ([], c ∷ digits) ∷ runs
push_digit c ((t ∷ text, digits) ∷ runs) = ([], c ∷ []) ∷ (t ∷ text, digits) ∷ runs

unfoldable pub runs : Bytes → List Run
unfolding push_text push_digit
runs [] = []
runs (c ∷ s) = let rest = runs s in if is_digit c then push_digit c rest else push_text c rest

abbrev pub not_digit : ℕ → Bool
not_digit c = not (is_digit c)

abbrev pub text : Bytes → Bytes
text s = (take_while not_digit s).0

abbrev pub behind_text : Bytes → Bytes
behind_text s = (take_while not_digit s).1

abbrev pub first_run : Bytes → Run
first_run s = (text s, (take_digits (behind_text s)).0)

abbrev pub behind_run : Bytes → Bytes
behind_run s = (take_digits (behind_text s)).1

-- Bytewise by `versionOrder`, with 0 for a missing byte.
abbrev pub compare_texts : Bytes → Bytes → Ordering
compare_texts a b = compare_padded compare_int (pos 0) (map version_order a) (map version_order b)

abbrev pub compare_run : Run → Run → Ordering
compare_run a b = compare_texts a.0 b.0 then_by compare_numeric a.1 b.1

abbrev pub compare_runs : List Run → List Run → Ordering
compare_runs = compare_padded compare_run ([], [])

pub IsPreorder-compare_run : IsPreorder compare_run
IsPreorder-compare_run =
    IsPreorder-then
      (IsPreorder-key (λ (r : Run). map version_order r.0)
        (IsPreorder-compare_padded IsPreorder-compare_int (pos 0)))
      (IsPreorder-key (λ (r : Run). r.1) IsPreorder-compare_numeric)

pub IsPreorder-compare_runs : IsPreorder compare_runs
IsPreorder-compare_runs = IsPreorder-compare_padded IsPreorder-compare_run ([], [])

-- A string that begins with text yields a first run with text.
runs_of_text :
    (c : ℕ) (s : Bytes)
    → is_digit c ≡ false
    → (d : Bytes) × (t : Bytes) × (rest : List Run) × (runs (c ∷ s) ≡ (c ∷ t, d) ∷ rest)
unfolding runs
runs_of_text c s h = onto (runs s)
  where
    onto :
        (l : List Run)
        → (d : Bytes) × (t : Bytes) × (rest : List Run) × ((if is_digit c
              then push_digit c l
              else push_text c l)
            ≡ (c ∷ t, d) ∷ rest)
    onto [] = ([], [], [], rw h)
    onto ((t, d) ∷ l) = (d, t, l, rw h)

runs_of_digit :
    (c : ℕ) (s : Bytes)
    → is_digit c ≡ true
    → runs (c ∷ s) ≡ ([], c ∷ (take_digits s).0) ∷ runs (take_digits s).1
unfolding runs take_while
runs_of_digit c [] h = rw h
runs_of_digit c (e ∷ s) h = elim (Bool-cases (is_digit e)) [
  | inl yes_digit ↦ ground (arith, runs_of_digit e s yes_digit)
  | inr no_digit ↦ let (d, t, rest, q) = runs_of_text e s no_digit in ground arith
]

runs_step : (c : ℕ) (s : Bytes) → runs (c ∷ s) ≡ first_run (c ∷ s) ∷ runs (behind_run (c ∷ s))
unfolding runs take_while
runs_step c [] = elim (Bool-cases (is_digit c)) [
  | inl yes_digit ↦ ground (arith, runs_of_digit c [] yes_digit)
  | inr no_digit ↦ ground arith
]
runs_step c (e ∷ s) = elim (Bool-cases (is_digit c)) [
  | inl yes_digit ↦ ground (arith, runs_of_digit c (e ∷ s) yes_digit)
  | inr no_digit ↦ ground (arith, runs_step e s)
]

runs_nil : runs [] ≡ []
unfolding runs
runs_nil = refl

no_digits : compare_numeric [] [] then_by eq ≡ eq
unfolding compare_numeric
no_digits = refl

-- A string that may be empty: its first run, and what follows, up to the padding.
pub compare_runs_step :
    (left right : Bytes)
    → compare_runs (runs left) (runs right)
      ≡ compare_run (first_run left) (first_run right)
        then_by compare_runs (runs (behind_run left)) (runs (behind_run right))
unfolding compare_padded take_while
compare_runs_step [] [] = rw runs_nil (sym no_digits)
compare_runs_step [] (c ∷ s) = rw (runs_nil, runs_step c s)
compare_runs_step (c ∷ s) [] = rw (runs_nil, runs_step c s)
compare_runs_step (c ∷ s) (e ∷ t) = rw (runs_step c s, runs_step e t)
