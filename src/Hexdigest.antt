-- ===== src/Hexdigest.antt =====
-- internal/hexdigest/hexdigest.go: which strings are digests.
use snailmail.Base.{
  leb, ◌==◌, if◌then◌else◌, length, Bytes, ◌==ᵇ◌, all, ℕ, zero, suc, ◌+◌, ◌*◌, ◌≡◌, refl, sym, ap,
  ◌∙◌, Bool, true, false, ◌&&◌, ◌||◌, Option, none, some, [], ◌∷◌, arith,
}

unfoldable pub to_lower_byte : ℕ → ℕ
to_lower_byte c = if leb 65 c && leb c 90 then c + 32 else c

-- `strings.ToLower` on ASCII text; the code asks it of hexadecimal digits only.
unfoldable pub to_lower : Bytes → Bytes
unfolding to_lower_byte
to_lower [] = []
to_lower (c ∷ s) = to_lower_byte c ∷ to_lower s

pub is_hex : ℕ → Bool
is_hex c = leb 48 c && leb c 57 || leb 65 c && leb c 70 || leb 97 c && leb c 102

-- The length of what `hex.DecodeString` decodes: two digits to a byte.
pub decoded_length : Bytes → Option ℕ
unfolding is_hex
decoded_length [] = some zero
decoded_length (_ ∷ []) = none
decoded_length (c ∷ d ∷ s) =
    let rest = decoded_length s in
    if is_hex c && is_hex d then elim rest [ some n ↦ some (suc n) | none ↦ none ] else none

pub decodes_to : Option ℕ → ℕ → Bool
decodes_to none size = false
decodes_to (some n) size = n == size

unfoldable pub valid_lower_hex : Bytes → ℕ → Bool
unfolding decoded_length decodes_to ◌==ᵇ◌ to_lower
valid_lower_hex value size = decodes_to (decoded_length value) size && value ==ᵇ to_lower value

unfoldable pub valid_sha256 : Bytes → Bool
unfolding valid_lower_hex
valid_sha256 value = valid_lower_hex value 32

unfoldable pub valid_fingerprint : Bytes → Bool
unfolding valid_lower_hex
valid_fingerprint value = valid_lower_hex value 20

-- A lowercase hexadecimal digit.
pub is_lower_hex : ℕ → Bool
is_lower_hex c = leb 48 c && leb c 57 || leb 97 c && leb c 102

is_lower_hex_lem : (c : ℕ) → is_lower_hex c ≡ is_hex c && c == to_lower_byte c
unfolding is_lower_hex is_hex to_lower_byte
is_lower_hex_lem c = ground arith

==ᵇ-cons : (c d : ℕ) (s t : Bytes) → ((c ∷ s) ==ᵇ (d ∷ t)) ≡ (c == d && s ==ᵇ t)
unfolding ◌==ᵇ◌
==ᵇ-cons c d s t = ground arith

decodes_to-zero : (c d : ℕ) (s : Bytes) → decodes_to (decoded_length (c ∷ d ∷ s)) zero ≡ false
unfolding decodes_to decoded_length
decodes_to-zero c d s = ground arith

decodes_to-suc :
    (c d : ℕ) (s : Bytes) (size : ℕ)
    → decodes_to (decoded_length (c ∷ d ∷ s)) (suc size)
      ≡ (is_hex c && (is_hex d && decodes_to (decoded_length s) size))
unfolding decodes_to decoded_length
decodes_to-suc c d s size = ground arith

-- Six tests, regrouped.
regroup :
    (h i n x y e : Bool) → ((h && (i && n)) && (x && (y && e))) ≡ (h && x) && ((i && y) && (n && e))
regroup false i n x y e = refl
regroup true false n x y e = ground arith
regroup true true n x y e = ground arith

swap_and : (a b m l : Bool) → (a && (b && (m && l))) ≡ (m && (a && (b && l)))
swap_and a b m l = ground arith

length_two :
    (c d : ℕ) (s : Bytes) (size : ℕ) → (length (c ∷ d ∷ s) == 2 * suc size) ≡ (length s == 2 * size)
length_two c d s size = ground arith

empty_lem : (size : ℕ) → valid_lower_hex [] size ≡ (zero == 2 * size && true)
unfolding valid_lower_hex decoded_length decodes_to to_lower ◌==ᵇ◌
empty_lem zero = refl
empty_lem (suc n) = ground arith

one_lem : (c size : ℕ) → valid_lower_hex (c ∷ []) size ≡ (1 == 2 * size && (is_lower_hex c && true))
unfolding valid_lower_hex decoded_length decodes_to
one_lem c size = ground arith

-- A string passes as a digest of a number of bytes exactly when it has two characters for each
-- byte and all of them are lowercase hexadecimal digits.
pub valid_lower_hex_lem :
    (value : Bytes) (size : ℕ)
    → valid_lower_hex value size ≡ (length value == 2 * size && all is_lower_hex value)
unfolding valid_lower_hex all to_lower
valid_lower_hex_lem [] size = empty_lem size
valid_lower_hex_lem (c ∷ []) size = one_lem c size
valid_lower_hex_lem (c ∷ d ∷ s) zero = ground (arith, decodes_to-zero c d s)
valid_lower_hex_lem (c ∷ d ∷ s) (suc size) =
    let rest = valid_lower_hex_lem s size in
    rw
      (
        decodes_to-suc c d s size,
        ==ᵇ-cons c (to_lower_byte c) (d ∷ s) (to_lower_byte d ∷ to_lower s),
        ==ᵇ-cons d (to_lower_byte d) s (to_lower s),
        regroup (is_hex c) (is_hex d) (decodes_to (decoded_length s) size) (c == to_lower_byte c)
            (d == to_lower_byte d) (s ==ᵇ to_lower s),
        sym (is_lower_hex_lem c),
        sym (is_lower_hex_lem d),
        length_two c d s size,
      )
      (ap (λ b. is_lower_hex c && (is_lower_hex d && b)) rest
        ∙ swap_and (is_lower_hex c) (is_lower_hex d) (length s == 2 * size) (all is_lower_hex s))
