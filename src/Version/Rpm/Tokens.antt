-- ===== src/Version/Rpm/Tokens.antt =====
-- An independent reading of `CompareSegments`: a string is a sequence of tokens, and two strings
-- compare token by token.
use snailmail.Base.{
  ◌==◌, if◌then◌else◌, Bool-cases, Bytes, ◌then_by◌, IsPreorder-key, IsPreorder-then,
  IsPreorder-compare, compare_padded, IsPreorder-compare_padded, compare_bytes,
  IsPreorder-compare_bytes, IsPreorder, is_digit, is_alpha, take_while, ℕ, compare, Ordering, ◌≡◌,
  ◌≢◌, inl, inr, Bool, true, false, List, [], ◌∷◌, arith,
}
use snailmail.Version.Numeric.{trim_zeros, by_length, IsPreorder-by_length}
use snailmail.Version.Rpm.{is_separator}

pub data Token : Type 0 where
  tilde end caret : Token
  letters : Bytes → Token
  number : Bytes → Token

-- In rising order; `end` stands for the end of a string.
abbrev pub rank : Token → ℕ
rank tilde = 0
rank end = 1
rank caret = 2
rank (letters _) = 3
rank (number _) = 4

abbrev digits_of : Token → Bytes
digits_of (number s) = trim_zeros s
digits_of _ = []

abbrev letters_of : Token → Bytes
letters_of (letters s) = s
letters_of _ = []

-- Numbers compare by value: without leading zeros, by length and then bytewise.
abbrev pub compare_token : Token → Token → Ordering
compare_token a b =
    compare (rank a) (rank b)
    then_by by_length (digits_of a) (digits_of b)
    then_by compare_bytes (letters_of a) (letters_of b)

IsPreorder-compare_token : IsPreorder compare_token
IsPreorder-compare_token = IsPreorder-then (IsPreorder-key rank IsPreorder-compare) (
    IsPreorder-then (IsPreorder-key digits_of IsPreorder-by_length)
      (IsPreorder-key letters_of IsPreorder-compare_bytes))

abbrev pub compare_tokens : List Token → List Token → Ordering
compare_tokens = compare_padded compare_token end

pub IsPreorder-compare_tokens : IsPreorder compare_tokens
IsPreorder-compare_tokens = IsPreorder-compare_padded IsPreorder-compare_token end

-- What the bytes are.
pub data Class : Type 0 where
  a_tilde a_caret a_digit a_letter a_separator : Class

pub class : ℕ → Class
class c =
    if c == b'~'
    then a_tilde
    else if c == b'^'
    then a_caret
    else if is_digit c
    then a_digit
    else if is_alpha c
    then a_letter
    else a_separator

abbrev is_tilde : Class → Bool
is_tilde a_tilde = true
is_tilde _ = false

abbrev is_caret : Class → Bool
is_caret a_caret = true
is_caret _ = false

abbrev of_digit : Class → Bool
of_digit a_digit = true
of_digit _ = false

abbrev of_letter : Class → Bool
of_letter a_letter = true
of_letter _ = false

pub record Tests (c : ℕ) (k : Class) : Type 0 where
  pub tilde_test : (c == b'~') ≡ is_tilde k
  pub caret_test : (c == b'^') ≡ is_caret k
  pub digit_test : is_digit c ≡ of_digit k
  pub letter_test : is_alpha c ≡ of_letter k

pub class-Tests : (c : ℕ) → Tests c (class c)
unfolding class is_digit is_alpha
class-Tests c = ground arith

add_digit : ℕ → List Token → List Token
add_digit c (number s ∷ ts) = number (c ∷ s) ∷ ts
add_digit c ts = number (c ∷ []) ∷ ts

add_letter : ℕ → List Token → List Token
add_letter c (letters s ∷ ts) = letters (c ∷ s) ∷ ts
add_letter c ts = letters (c ∷ []) ∷ ts

begins : (ℕ → Bool) → Bytes → Bool
begins test [] = false
begins test (c ∷ _) = test c

-- Tokens of a string: a run of digits or of letters is one token, separators are none.
unfoldable pub tokens : Bytes → List Token
unfolding class add_digit add_letter begins is_digit is_alpha
tokens [] = []
tokens (c ∷ s) =
    let rest = tokens s in
    elim (class c) [
      | a_tilde ↦ tilde ∷ rest
      | a_caret ↦ caret ∷ rest
      | a_digit ↦ if begins is_digit s then add_digit c rest else number (c ∷ []) ∷ rest
      | a_letter ↦ if begins is_alpha s then add_letter c rest else letters (c ∷ []) ∷ rest
      | a_separator ↦ rest
    ]

module _ (c : ℕ) (s : Bytes) where
  pub tokens_tilde : class c ≡ a_tilde → tokens (c ∷ s) ≡ tilde ∷ tokens s
  unfolding tokens
  tokens_tilde h = rw (h, tokens)

  pub tokens_caret : class c ≡ a_caret → tokens (c ∷ s) ≡ caret ∷ tokens s
  unfolding tokens
  tokens_caret h = rw (h, tokens)

  pub tokens_separator : class c ≡ a_separator → tokens (c ∷ s) ≡ tokens s
  unfolding tokens
  tokens_separator h = rw (h, tokens)

pub class_separator : (c : ℕ) → is_separator c ≡ true → class c ≡ a_separator
unfolding class
class_separator c h = ground arith

pub class-ne-separator : (c : ℕ) → is_separator c ≡ false → class c ≢ a_separator
unfolding class
class-ne-separator c h = ground arith

-- The class behind a test.
class_digit : (c : ℕ) → is_digit c ≡ true → class c ≡ a_digit
unfolding class is_digit
class_digit c h = ground arith

class_letter : (c : ℕ) → is_alpha c ≡ true → class c ≡ a_letter
unfolding class is_digit is_alpha
class_letter c h = ground arith

pub tokens_digit :
    (c : ℕ) (s : Bytes)
    → is_digit c ≡ true
    → tokens (c ∷ s)
      ≡ number (take_while is_digit (c ∷ s)).0 ∷ tokens (take_while is_digit (c ∷ s)).1
unfolding tokens take_while
tokens_digit c [] h = ground (arith, class_digit c h)
tokens_digit c (e ∷ s) h = elim (Bool-cases (is_digit e)) [
  | inl more ↦ ground (arith, class_digit c h, class_digit e more, tokens_digit e s more)
  | inr last ↦ ground (arith, class_digit c h)
]

pub tokens_letter :
    (c : ℕ) (s : Bytes)
    → is_alpha c ≡ true
    → tokens (c ∷ s)
      ≡ letters (take_while is_alpha (c ∷ s)).0 ∷ tokens (take_while is_alpha (c ∷ s)).1
unfolding tokens take_while
tokens_letter c [] h = ground (arith, class_letter c h)
tokens_letter c (e ∷ s) h = elim (Bool-cases (is_alpha e)) [
  | inl more ↦ ground (arith, class_letter c h, class_letter e more, tokens_letter e s more)
  | inr last ↦ ground (arith, class_letter c h)
]
