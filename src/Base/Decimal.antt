-- ===== src/Base/Decimal.antt =====
-- `Number.prototype.toString` on a non-negative integer, and `String.prototype.padStart`.
use Prim.Native.Nat.{ℕ, zero, suc, ◌+◌, ◌-◌, ◌*◌, ◌/◌, ◌%◌, ◌≤◌, ◌<◌}
use mathlib.Core.Path.{◌≡◌, refl, ap}
use mathlib.Core.Logic.{inl, inr}
use mathlib.Core.List.{[], ◌∷◌, ◌++◌}
use native.Mathlib.Omega.{arith}
use wknowledge.Base.Tests.{ltb, if◌then◌else◌, Bool-cases, if_both}
use wknowledge.Base.Lists.{length, replicate, All}
use wknowledge.Base.Texts.{Text}

-- The last digit goes in front of those that follow it.
print_digits : ℕ → ℕ → Text → Text
print_digits zero n rest = rest
print_digits (suc fuel) n rest =
    let digit = b'0' + n % 10 in
    let more = print_digits fuel (n / 10) (digit ∷ rest) in if ltb n 10 then digit ∷ rest else more

unfoldable pub to_string : ℕ → Text
unfolding print_digits
to_string n = print_digits (suc n) n []

unfoldable pub pad_start : ℕ → ℕ → Text → Text
pad_start width fill s = replicate (width - length s) fill ++ s

-- The number that a row of digits denotes, after the digits already read.
abbrev pub digits_value : ℕ → Text → ℕ
digits_value seen [] = seen
digits_value seen (c ∷ s) = digits_value (seen * 10 + (c - b'0')) s

print_digits-value :
    (fuel n : ℕ) (rest : Text)
    → n < fuel
    → digits_value 0 (print_digits fuel n rest) ≡ digits_value n rest
unfolding print_digits
print_digits-value zero n rest h = elim h [ ]
print_digits-value (suc fuel) n rest h = elim (Bool-cases (ltb n 10)) [
  | inl one ↦ rw one (
      let e : 0 * 10 + (b'0' + n % 10 - b'0') ≡ n = ground arith in
      ap (λ (k : ℕ). digits_value k rest) e)
  | inr more ↦ rw more (
      rw (print_digits-value fuel (n / 10) ((b'0' + n % 10) ∷ rest) (ground arith)) (
        let e : n / 10 * 10 + (b'0' + n % 10 - b'0') ≡ n = omega arith in
        ap (λ (k : ℕ). digits_value k rest) e))
]

pub to_string-value : (n : ℕ) → digits_value 0 (to_string n) ≡ n
unfolding to_string
to_string-value n = print_digits-value (suc n) n [] (omega arith)

abbrev pub IsDigits : Text → Type 0
IsDigits s = All (λ c. (b'0' ≤ c) × (c ≤ b'9')) s

print_digits-IsDigits :
    (fuel n : ℕ) (rest : Text) → IsDigits rest → IsDigits (print_digits fuel n rest)
unfolding print_digits
print_digits-IsDigits zero n rest h = h
print_digits-IsDigits (suc fuel) n rest h =
    let digit : (b'0' ≤ b'0' + n % 10) × (b'0' + n % 10 ≤ b'9') = (omega arith, omega arith) in
    if_both IsDigits (ltb n 10) ((b'0' + n % 10) ∷ rest) _ (digit, h)
      (print_digits-IsDigits fuel (n / 10) ((b'0' + n % 10) ∷ rest) (digit, h))

pub to_string-IsDigits : (n : ℕ) → IsDigits (to_string n)
unfolding to_string
to_string-IsDigits n = print_digits-IsDigits (suc n) n [] tt

zeros-value : (k : ℕ) (s : Text) → digits_value 0 (replicate k b'0' ++ s) ≡ digits_value 0 s
zeros-value zero s = refl
zeros-value (suc k) s = zeros-value k s

-- Leading zeros do not change the number.
pub pad_start-value : (width n : ℕ) → digits_value 0 (pad_start width b'0' (to_string n)) ≡ n
unfolding pad_start
pad_start-value width n =
    rw (zeros-value (width - length (to_string n)) (to_string n)) (to_string-value n)

abbrev pub power_of_ten : ℕ → ℕ
power_of_ten zero = 1
power_of_ten (suc width) = 10 * power_of_ten width

length-print_digits :
    (width fuel n : ℕ) (rest : Text)
    → n < power_of_ten (suc width)
    → length (print_digits fuel n rest) ≤ suc width + length rest
unfolding print_digits
length-print_digits width zero n rest h = omega arith
length-print_digits zero (suc fuel) n rest h = ground (arith, h)
length-print_digits (suc width) (suc fuel) n rest h =
    let more =
      length-print_digits width fuel (n / 10) ((b'0' + n % 10) ∷ rest) (omega (arith, h)) in
    ground (arith, more)

length-zeros : (k : ℕ) (s : Text) → length (replicate k b'0' ++ s) ≡ k + length s
length-zeros zero s = omega arith
length-zeros (suc k) s = omega (arith, length-zeros k s)

pub length-pad_start : (n : ℕ) → n < power_of_ten 8 → length (pad_start 8 b'0' (to_string n)) ≡ 8
unfolding pad_start to_string
length-pad_start n h =
    let short = length-print_digits 7 (suc n) n [] h in
    omega (
      arith,
      short,
      length-zeros (8 - length (print_digits (suc n) n [])) (print_digits (suc n) n []),
    )

zeros-IsDigits : (k : ℕ) (s : Text) → IsDigits s → IsDigits (replicate k b'0' ++ s)
zeros-IsDigits zero s h = h
zeros-IsDigits (suc k) s h = ((omega arith, omega arith), zeros-IsDigits k s h)

pub pad_start-IsDigits : (width n : ℕ) → IsDigits (pad_start width b'0' (to_string n))
unfolding pad_start
pad_start-IsDigits width n =
    zeros-IsDigits (width - length (to_string n)) (to_string n) (to_string-IsDigits n)

-- Of two rows of digits of the same length, the one after the smaller number is the smaller.
pub digits_value-lt :
    (u v : ℕ) (s t : Text)
    → IsDigits s
    → IsDigits t
    → length s ≡ length t
    → u < v
    → digits_value u s < digits_value v t
digits_value-lt u v [] [] p q e h = h
digits_value-lt u v [] (d ∷ t) p q e h = ground (arith, e)
digits_value-lt u v (c ∷ s) [] p q e h = ground (arith, e)
digits_value-lt u v (c ∷ s) (d ∷ t) ((a, b), p) (_, q) e h =
    digits_value-lt (u * 10 + (c - b'0')) (v * 10 + (d - b'0')) s t p q (omega (arith, e))
      (omega (arith, a, b, h))

to_string_test :
    pad_start 8 b'0' (to_string 1203) ≡ b'0' ∷ b'0' ∷ b'0' ∷ b'0' ∷ b'1' ∷ b'2' ∷ b'0' ∷ b'3' ∷ []
unfolding pad_start to_string
to_string_test = refl
