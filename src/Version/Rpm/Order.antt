-- ===== src/Version/Rpm/Order.antt =====
-- The loop of `CompareSegments` and `compare_tokens`: the order of tokens.
use snailmail.Base.{
  length, Bytes, compare_padded, compare_list, is_digit, is_alpha, take_while, take_while_shorter,
  ℕ, ◌+◌, ◌≤◌, ◌<◌, Ordering, lt, eq, gt, ◌≡◌, refl, ◌∙◌, subst, ◌≢◌, Bool, true, false, [], ◌∷◌,
  arith,
}
use snailmail.Version.Rpm.{
  starts, Round, returned, again, broke, on_tilde, on_caret, settle, compare_segment, round, finish,
}
use snailmail.Version.Rpm.Tokens.{
  Token, tilde, caret, letters, number, compare_token, compare_tokens, Class, a_tilde, a_caret,
  a_digit, a_letter, a_separator, class, Tests, class-Tests, tokens, tokens_tilde, tokens_caret,
  tokens_digit, tokens_letter,
}

abbrev pub compared : Bytes → Bytes → Ordering
compared one two = compare_tokens (tokens one) (tokens two)

-- A round that ends the loop gives the answer; one that goes on keeps it and takes bytes off.
abbrev pub Agrees : Bytes → Bytes → Round → Type 0
Agrees one two (returned o) = o ≡ compared one two
Agrees one two (again a b) =
    (compared a b ≡ compared one two) × (length a + length b < length one + length two)
Agrees one two (broke a b) = finish a b ≡ compared one two

tokens_nil : tokens [] ≡ []
unfolding tokens
tokens_nil = refl

pub nothing-Agrees : Agrees [] [] (round [] [])
unfolding round finish tokens compare_padded
nothing-Agrees = refl

-- One side has ended.
pub left_ended : (e : ℕ) (t : Bytes) → class e ≢ a_separator → Agrees [] (e ∷ t) (round [] (e ∷ t))
unfolding round starts on_tilde on_caret finish compare_padded
left_ended e t n = go (class e) refl (class-Tests e)
  where
    go : (l : Class) → class e ≡ l → Tests e l → Agrees [] (e ∷ t) (round [] (e ∷ t))
    go a_tilde h v = ground (arith, tokens_tilde e t h, tokens_nil)
    go a_caret h v = ground (arith, tokens_caret e t h, tokens_nil)
    go a_digit h v = ground (arith, tokens_digit e t v.digit_test, tokens_nil)
    go a_letter h v = ground (arith, tokens_letter e t v.letter_test, tokens_nil)
    go a_separator h v = absurd (n h)

pub right_ended : (c : ℕ) (s : Bytes) → class c ≢ a_separator → Agrees (c ∷ s) [] (round (c ∷ s) [])
unfolding round starts on_tilde on_caret finish compare_padded
right_ended c s n = go (class c) refl (class-Tests c)
  where
    go : (k : Class) → class c ≡ k → Tests c k → Agrees (c ∷ s) [] (round (c ∷ s) [])
    go a_tilde h v = ground (arith, tokens_tilde c s h, tokens_nil)
    go a_caret h v = ground (arith, tokens_caret c s h, tokens_nil)
    go a_digit h v = ground (arith, tokens_digit c s v.digit_test, tokens_nil)
    go a_letter h v = ground (arith, tokens_letter c s v.letter_test, tokens_nil)
    go a_separator h v = absurd (n h)

segment_number :
    (x y a b : Bytes)
    → compare_segment true x y a b ≡ settle (compare_token (number x) (number y)) a b
unfolding compare_segment
segment_number x y a b = ground arith

segment_letters :
    (x y a b : Bytes)
    → compare_segment false x y a b ≡ settle (compare_token (letters x) (letters y)) a b
unfolding compare_segment
segment_letters x y a b = refl

-- First tokens that differ decide; equal ones are dropped.
settle-Agrees :
    (one two a b : Bytes) (x y : Token)
    → tokens one ≡ x ∷ tokens a
    → tokens two ≡ y ∷ tokens b
    → length a < length one
    → length b ≤ length two
    → Agrees one two (settle (compare_token x y) a b)
unfolding compare_padded
settle-Agrees one two a b x y p q h k = go (compare_token x y) refl
  where
    go : (o : Ordering) → compare_token x y ≡ o → Agrees one two (settle o a b)
    go lt e = rw (p, q, e)
    go gt e = rw (p, q, e)
    go eq e = (rw (p, q, e), omega arith)

take_while_behind :
    (accept : ℕ → Bool) (c : ℕ) (s : Bytes)
    → accept c ≡ true
    → length (take_while accept (c ∷ s)).1 < length (c ∷ s)
unfolding take_while
take_while_behind accept c s h = ground (arith, take_while_shorter accept s)

module _ (c e : ℕ) (s t : Bytes) where
  -- Two segments of the same kind.
  round_digits :
      Tests c a_digit
      → Tests e a_digit
      → round (c ∷ s) (e ∷ t)
        ≡ compare_segment true
            (take_while is_digit (c ∷ s)).0
            (take_while is_digit (e ∷ t)).0
            (take_while is_digit (c ∷ s)).1
            (take_while is_digit (e ∷ t)).1
  unfolding round
  round_digits u v = ground arith

  round_letters :
      Tests c a_letter
      → Tests e a_letter
      → round (c ∷ s) (e ∷ t)
        ≡ compare_segment false
            (take_while is_alpha (c ∷ s)).0
            (take_while is_alpha (e ∷ t)).0
            (take_while is_alpha (c ∷ s)).1
            (take_while is_alpha (e ∷ t)).1
  unfolding round
  round_letters u v = ground arith

  abbrev Goal : Type 0
  Goal = Agrees (c ∷ s) (e ∷ t) (round (c ∷ s) (e ∷ t))

  digits-Agrees : Tests c a_digit → Tests e a_digit → Goal
  digits-Agrees u v = rw (round_digits u v ∙ segment_number _ _ _ _) (
      settle-Agrees (c ∷ s) (e ∷ t) _ _ _ _ (tokens_digit c s u.digit_test)
        (tokens_digit e t v.digit_test) (take_while_behind is_digit c s u.digit_test)
        (take_while_shorter is_digit (e ∷ t)))

  letters-Agrees : Tests c a_letter → Tests e a_letter → Goal
  letters-Agrees u v = rw (round_letters u v ∙ segment_letters _ _ _ _) (
      settle-Agrees (c ∷ s) (e ∷ t) _ _ _ _ (tokens_letter c s u.letter_test)
        (tokens_letter e t v.letter_test) (take_while_behind is_alpha c s u.letter_test)
        (take_while_shorter is_alpha (e ∷ t)))

-- A tilde, or a caret, on both sides.
module _ (c e : ℕ) (s t : Bytes) where
  round_tildes : Tests c a_tilde → Tests e a_tilde → round (c ∷ s) (e ∷ t) ≡ again s t
  unfolding round
  round_tildes u v = ground arith

  round_carets : Tests c a_caret → Tests e a_caret → round (c ∷ s) (e ∷ t) ≡ again s t
  unfolding round
  round_carets u v = ground arith

  same-Agrees :
      (x : Token)
      → compare_token x x ≡ eq
      → round (c ∷ s) (e ∷ t) ≡ again s t
      → tokens (c ∷ s) ≡ x ∷ tokens s
      → tokens (e ∷ t) ≡ x ∷ tokens t
      → Agrees (c ∷ s) (e ∷ t) (round (c ∷ s) (e ∷ t))
  same-Agrees x r q h g = rw q (
      subst (λ o. Agrees (c ∷ s) (e ∷ t) (settle o s t)) r
        (settle-Agrees (c ∷ s) (e ∷ t) s t x x h g (omega arith) (omega arith)))

-- The first tokens have different ranks, or are both a tilde or both a caret.
module _ (c e : ℕ) (s t : Bytes) where
  pub heads-Agrees :
      (k l : Class)
      → class c ≡ k
      → class e ≡ l
      → Tests c k
      → Tests e l
      → k ≢ a_separator
      → l ≢ a_separator
      → Agrees (c ∷ s) (e ∷ t) (round (c ∷ s) (e ∷ t))
  unfolding round compare_padded compare_list
  heads-Agrees a_tilde a_tilde h g u v n m =
      same-Agrees c e s t tilde refl (round_tildes c e s t u v) (tokens_tilde c s h)
        (tokens_tilde e t g)
  heads-Agrees a_tilde a_caret h g u v n m = ground (arith, tokens_tilde c s h, tokens_caret e t g)
  heads-Agrees a_tilde a_digit h g u v n m =
      ground (arith, tokens_tilde c s h, tokens_digit e t v.digit_test)
  heads-Agrees a_tilde a_letter h g u v n m =
      ground (arith, tokens_tilde c s h, tokens_letter e t v.letter_test)
  heads-Agrees a_caret a_tilde h g u v n m = ground (arith, tokens_caret c s h, tokens_tilde e t g)
  heads-Agrees a_caret a_caret h g u v n m =
      same-Agrees c e s t caret refl (round_carets c e s t u v) (tokens_caret c s h)
        (tokens_caret e t g)
  heads-Agrees a_caret a_digit h g u v n m =
      ground (arith, tokens_caret c s h, tokens_digit e t v.digit_test)
  heads-Agrees a_caret a_letter h g u v n m =
      ground (arith, tokens_caret c s h, tokens_letter e t v.letter_test)
  heads-Agrees a_digit a_tilde h g u v n m =
      ground (arith, tokens_digit c s u.digit_test, tokens_tilde e t g)
  heads-Agrees a_digit a_caret h g u v n m =
      ground (arith, tokens_digit c s u.digit_test, tokens_caret e t g)
  heads-Agrees a_digit a_digit h g u v n m = digits-Agrees c e s t u v
  heads-Agrees a_digit a_letter h g u v n m =
      ground (arith, tokens_digit c s u.digit_test, tokens_letter e t v.letter_test)
  heads-Agrees a_letter a_tilde h g u v n m =
      ground (arith, tokens_letter c s u.letter_test, tokens_tilde e t g)
  heads-Agrees a_letter a_caret h g u v n m =
      ground (arith, tokens_letter c s u.letter_test, tokens_caret e t g)
  heads-Agrees a_letter a_digit h g u v n m =
      ground (arith, tokens_letter c s u.letter_test, tokens_digit e t v.digit_test)
  heads-Agrees a_letter a_letter h g u v n m = letters-Agrees c e s t u v
  heads-Agrees a_separator l h g u v n m = absurd (n refl)
  heads-Agrees k a_separator h g u v n m = absurd (m refl)
