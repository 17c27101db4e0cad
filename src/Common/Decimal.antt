-- ===== src/Common/Decimal.antt =====
-- `std::to_string` and `operator<<` of a non-negative integer: decimal digits, no leading zero.
use Prim.Native.Nat.{ℕ, zero, suc, ◌+◌, ◌-◌, ◌*◌, ◌/◌, ◌%◌, ◌≤◌, ◌<◌}
use mathlib.Core.Path.{◌≡◌, refl, sym, ap, ◌∙◌}
use mathlib.Core.Logic.{◌≢◌}
use mathlib.Core.List.{[], ◌∷◌, ◌++◌, append-ne-nil_of_right_ne-nil, cons-ne-nil}
use native.Mathlib.Omega.{arith}
use vnelogging.Common.Lists.{length, length-append, All, All-append}
use vnelogging.Common.Tests.{ltb, if◌then◌else◌, Bool-cases}
use mathlib.Core.Logic.{inl, inr}
use vnelogging.Common.Strings.{Text, codes}

-- One digit for each round; a number needs fewer rounds than its successor.
digits : ℕ → ℕ → Text
digits zero n = []
digits (suc rounds) n =
    let rest = digits rounds (n / 10) ++ (48 + n % 10) ∷ [] in
    if ltb n 10 then (48 + n) ∷ [] else rest

unfoldable pub to_string : ℕ → Text
unfolding digits
to_string n = digits (suc n) n

-- The number that digits spell behind `acc`.
unfoldable pub value_from : ℕ → Text → ℕ
value_from acc [] = acc
value_from acc (d ∷ ds) = value_from (acc * 10 + (d - 48)) ds

value_from-snoc :
    (acc d : ℕ) (ds : Text) → value_from acc (ds ++ d ∷ []) ≡ value_from acc ds * 10 + (d - 48)
unfolding value_from
value_from-snoc acc d [] = refl
value_from-snoc acc d (c ∷ ds) = value_from-snoc (acc * 10 + (c - 48)) d ds

value_from-digits : (rounds n : ℕ) → n < rounds → value_from 0 (digits rounds n) ≡ n
unfolding digits
value_from-digits zero n h = elim h [ ]
value_from-digits (suc rounds) n h = elim (Bool-cases (ltb n 10)) [
  | inl small ↦ rw small (unfold value_from in omega arith)
  | inr large ↦ rw large (
      omega (
        arith,
        value_from-snoc 0 (48 + n % 10) (digits rounds (n / 10)),
        value_from-digits rounds (n / 10) (ground arith),
      ))
]

pub value_from-to_string : (n : ℕ) → value_from 0 (to_string n) ≡ n
unfolding to_string
value_from-to_string n = value_from-digits (suc n) n (omega arith)

-- Different numbers print differently.
pub to_string_injective : (m n : ℕ) → to_string m ≡ to_string n → m ≡ n
to_string_injective m n e =
    sym (value_from-to_string m) ∙ ap (value_from 0) e ∙ value_from-to_string n

pub to_string-ne-nil : (n : ℕ) → to_string n ≢ []
unfolding to_string digits
to_string-ne-nil n = elim (Bool-cases (ltb n 10)) [
  | inl small ↦ rw small (cons-ne-nil _ _)
  | inr large ↦ rw large (append-ne-nil_of_right_ne-nil _ (cons-ne-nil _ _))
]

-- The bytes "0" to "9".
abbrev pub IsDigit : ℕ → Type 0
IsDigit c = (48 ≤ c) × (c ≤ 57)

digits-IsDigit : (rounds n : ℕ) → All IsDigit (digits rounds n)
unfolding digits
digits-IsDigit zero n = tt
digits-IsDigit (suc rounds) n = elim (Bool-cases (ltb n 10)) [
  | inl small ↦ rw small ((omega arith, ground arith), tt)
  | inr large ↦ rw large (
      All-append IsDigit (digits rounds (n / 10)) ((48 + n % 10) ∷ [])
        (digits-IsDigit rounds (n / 10)) ((omega arith, omega arith), tt))
]

pub to_string-IsDigit : (n : ℕ) → All IsDigit (to_string n)
unfolding to_string
to_string-IsDigit n = digits-IsDigit (suc n) n

-- A number of `k` digits behind the first.
abbrev pub HasDigits : ℕ → ℕ → Type 0
HasDigits zero n = n < 10
HasDigits (suc k) n = (10 ≤ n) × HasDigits k (n / 10)

length-digits : (k rounds n : ℕ) → HasDigits k n → n < rounds → length (digits rounds n) ≡ suc k
unfolding digits
length-digits k zero n d h = elim h [ ]
length-digits zero (suc rounds) n d h = elim (Bool-cases (ltb n 10)) [
  | inl small ↦ rw small refl
  | inr large ↦ ground arith
]
length-digits (suc k) (suc rounds) n d h = elim (Bool-cases (ltb n 10)) [
  | inl small ↦ ground (arith, d.0)
  | inr large ↦ rw large (
      omega (
        arith,
        length-append (digits rounds (n / 10)) ((48 + n % 10) ∷ []),
        length-digits k rounds (n / 10) d.1 (omega (arith, d.0)),
      ))
]

pub length-to_string : (k n : ℕ) → HasDigits k n → length (to_string n) ≡ suc k
unfolding to_string
length-to_string k n d = length-digits k (suc n) n d (omega arith)

to_string_test : to_string 4207 ≡ codes "4207"
unfolding to_string
to_string_test = refl
