-- ===== src/Base/Outcome.antt =====
-- A Go result with an error, for code whose error texts the callers do not read. `out_of_fuel`
-- belongs to the model only: the theorems on each loop exclude it.
use Prim.Native.Nat.{Ordering, lt, eq}
use mathlib.Core.Path.{◌≡◌, refl, ap, ◌∙◌, fun_ext}
use mathlib.Core.Logic.{◌⊎◌, inl, inr}
use mathlib.Core.Bool.{Bool, true, false}
use mathlib.Core.Option.{Option, none, some}
use native.Mathlib.Omega.{arith}
use snailmail.Base.Order.{swap, IsPreorder, self_eq}

pub data Result {ℓ} (A : Type ℓ) : Type ℓ where
  ok : A → Result A
  err : Result A
  out_of_fuel : Result A

abbrev pub of_option {ℓ} : {A : Type ℓ} → Option A → Result A
of_option (some found) = ok found
of_option none = err

-- `if !test { return error }`
abbrev pub require : Bool → Result (Unit {0})
require test = elim test [ true ↦ ok tt | false ↦ err ]

-- `err == nil`
abbrev pub is_ok : Result (Unit {0}) → Bool
is_ok (ok _) = true
is_ok _ = false

pub is_ok_lem : (r : Result (Unit {0})) → is_ok r ≡ true → r ≡ ok tt
is_ok_lem (ok _) h = refl
is_ok_lem err h = cc
is_ok_lem out_of_fuel h = cc

module _ {ℓ κ} {A : Type ℓ} {B : Type κ} where
  infixl 5 ◌>>=◌
  abbrev pub ◌>>=◌ : Result A → (A → Result B) → Result B
  out_of_fuel >>= next = out_of_fuel
  err >>= next = err
  ok value >>= next = next value

  -- Where a sequence of calls returned, its first call did, and so did the rest on its value.
  pub >>=-eq-ok :
      (call : Result A) (next : A → Result B) {b : B}
      → call >>= next ≡ ok b
      → (value : A) × (call ≡ ok value) × (next value ≡ ok b)
  >>=-eq-ok out_of_fuel next returned = cc
  >>=-eq-ok err next returned = cc
  >>=-eq-ok (ok value) next returned = (value, refl, returned)

module _ {ℓ} {B : Type ℓ} where
  infixl 5 ◌>>◌
  abbrev pub ◌>>◌ : Result (Unit {0}) → Result B → Result B
  check >> rest = check >>= λ _. rest

-- What a version comparator promises to its callers: on the values that it accepts it is a total
-- preorder, and every call ends with an answer or with an error.
pub record IsComparator {ℓ} {V : Type ℓ} (f : V → V → Result Ordering) : Type ℓ where
  pub ends : (a b : V) → (f a b ≡ err) ⊎ ((o : Ordering) × (f a b ≡ ok o))
  pub accepted : (a b : V) (o : Ordering) → f a b ≡ ok o → (f a a ≡ ok eq) × (f b b ≡ ok eq)
  pub comparable : (a b : V) → f a a ≡ ok eq → f b b ≡ ok eq → (o : Ordering) × (f a b ≡ ok o)
  pub swapped : (a b : V) (o : Ordering) → f a b ≡ ok o → f b a ≡ ok (swap o)
  pub eq_left : (a b c : V) (o : Ordering) → f a b ≡ ok eq → f b c ≡ ok o → f a c ≡ ok o
  pub lt_trans : (a b c : V) → f a b ≡ ok lt → f b c ≡ ok lt → f a c ≡ ok lt

pub require-eq-ok : (test : Bool) → require test ≡ ok tt → test ≡ true
require-eq-ok true h = refl
require-eq-ok false h = cc

abbrev or_else {ℓ} : {A : Type ℓ} → A → Result A → A
or_else a (ok b) = b
or_else a err = a
or_else a out_of_fuel = a

pub ok_injective {ℓ} : {A : Type ℓ} {a b : A} → ok a ≡ ok b → a ≡ b
ok_injective {a = a} h = ap (or_else a) h

pub of_option-eq-ok {ℓ} : {A : Type ℓ} (o : Option A) {a : A} → of_option o ≡ ok a → o ≡ some a
of_option-eq-ok none h = cc
of_option-eq-ok (some b) h = ap some (ok_injective h)

module _ {ℓ κ} {V : Type ℓ} {K : Type κ} (parse : V → Option K) (cmp : K → K → Ordering) where
  compare_read : Option K → Option K → Result Ordering
  compare_read none y = err
  compare_read (some x) none = err
  compare_read (some x) (some y) = ok (cmp x y)

  module _ (p : IsPreorder cmp) where
    read-ends :
        (x y : Option K) → (compare_read x y ≡ err) ⊎ ((o : Ordering) × (compare_read x y ≡ ok o))
    unfolding compare_read
    read-ends none y = inl refl
    read-ends (some x) none = inl refl
    read-ends (some x) (some y) = inr (cmp x y, refl)

    read-accepted :
        (x y : Option K) (o : Ordering)
        → compare_read x y ≡ ok o
        → (compare_read x x ≡ ok eq) × (compare_read y y ≡ ok eq)
    unfolding compare_read
    read-accepted none y o h = cc
    read-accepted (some x) none o h = cc
    read-accepted (some x) (some y) o h = (ap ok (self_eq p x), ap ok (self_eq p y))

    read-comparable :
        (x y : Option K)
        → compare_read x x ≡ ok eq
        → compare_read y y ≡ ok eq
        → (o : Ordering) × (compare_read x y ≡ ok o)
    unfolding compare_read
    read-comparable none y h k = cc
    read-comparable (some x) none h k = cc
    read-comparable (some x) (some y) h k = (cmp x y, refl)

    read-swapped :
        (x y : Option K) (o : Ordering) → compare_read x y ≡ ok o → compare_read y x ≡ ok (swap o)
    unfolding compare_read
    read-swapped none y o h = cc
    read-swapped (some x) none o h = cc
    read-swapped (some x) (some y) o h = ground (arith, p.swapped x y)

    read-eq_left :
        (x y z : Option K) (o : Ordering)
        → compare_read x y ≡ ok eq
        → compare_read y z ≡ ok o
        → compare_read x z ≡ ok o
    unfolding compare_read
    read-eq_left none y z o h k = cc
    read-eq_left (some x) none z o h k = cc
    read-eq_left (some x) (some y) none o h k = cc
    read-eq_left (some x) (some y) (some z) o h k = ground (arith, p.eq_left x y z)

    read-lt_trans :
        (x y z : Option K)
        → compare_read x y ≡ ok lt
        → compare_read y z ≡ ok lt
        → compare_read x z ≡ ok lt
    unfolding compare_read
    read-lt_trans none y z h k = cc
    read-lt_trans (some x) none z h k = cc
    read-lt_trans (some x) (some y) none h k = cc
    read-lt_trans (some x) (some y) (some z) h k = ground (arith, p.lt_trans x y z)

    IsComparator-read : IsComparator (λ (a b : V). compare_read (parse a) (parse b))
    IsComparator-read = record {
      ends = λ a b. read-ends (parse a) (parse b);
      accepted = λ a b. read-accepted (parse a) (parse b);
      comparable = λ a b. read-comparable (parse a) (parse b);
      swapped = λ a b. read-swapped (parse a) (parse b);
      eq_left = λ a b c. read-eq_left (parse a) (parse b) (parse c);
      lt_trans = λ a b c. read-lt_trans (parse a) (parse b) (parse c);
    }

    -- A comparator that answers as reading and comparing does keeps the promise.
    pub IsComparator-of_read :
        {f : V → V → Result Ordering}
        → ((a b : V) → f a b ≡ (do x ← of_option (parse a); y ← of_option (parse b); ok (cmp x y)))
        → IsComparator f
    unfolding compare_read
    IsComparator-of_read {f} h =
        rw (fun_ext λ a. fun_ext λ b. h a b ∙ same (parse a) (parse b)) IsComparator-read
      where
        same :
            (x y : Option K)
            → (do a ← of_option x; b ← of_option y; ok (cmp a b)) ≡ compare_read x y
        same none y = refl
        same (some x) none = refl
        same (some x) (some y) = refl
