-- ===== src/ProviderEndpoint/Hex.antt =====
-- Hextets as `toString(16)` writes and `Number.parseInt` reads them.
use wknowledge.Base.{
  ℕ, zero, suc, ◌+◌, ◌*◌, ◌/◌, ◌%◌, ◌≤◌, ◌<◌, ◌≡◌, refl, ap, ◌∙◌, Text, true, ◌⊎◌, some, [], ◌∷◌,
  All, length, ltb, leb, arith, Bool-cases, inl, inr,
}
use wknowledge.ProviderEndpoint.Addresses.{
  hex_digit, hex_value_of, hex_digits, to_hex, hex_value, hextet,
}

-- A digit of `toString(16)`
abbrev pub IsHexDigit : ℕ → Type 0
IsHexDigit c = ((b'0' ≤ c) × (c ≤ b'9')) ⊎ ((b'a' ≤ c) × (c ≤ b'f'))

abbrev pub IsHex : Text → Type 0
IsHex s = All IsHexDigit s

hex_digit-IsHexDigit : (d : ℕ) → d < 16 → IsHexDigit (hex_digit d)
hex_digit-IsHexDigit d h = elim (Bool-cases (ltb d 10)) [
  | inl small ↦ rw small (inl (ground (arith, small), ground (arith, small)))
  | inr large ↦ rw large (inr (ground (arith, large), ground (arith, large, h)))
]

hex_value_of-hex_digit : (d : ℕ) → d < 16 → hex_value_of (hex_digit d) ≡ some d
hex_value_of-hex_digit d h = ground (arith, h)

hex_digits-IsHex : (fuel n : ℕ) (rest : Text) → IsHex rest → IsHex (hex_digits fuel n rest)
unfolding hex_digits
hex_digits-IsHex zero n rest h = h
hex_digits-IsHex (suc fuel) n rest h =
    let digit = hex_digit-IsHexDigit (n % 16) (omega arith) in
    elim (Bool-cases (ltb n 16)) [
      | inl one ↦ rw one (digit, h)
      | inr more ↦ rw more (hex_digits-IsHex fuel (n / 16) (hex_digit (n % 16) ∷ rest) (digit, h))
    ]

hex_value-hex_digit :
    (seen d : ℕ) (rest : Text)
    → d < 16
    → hex_value seen (hex_digit d ∷ rest) ≡ hex_value (seen * 16 + d) rest
unfolding hex_value
hex_value-hex_digit seen d rest h = rw (hex_value, hex_value_of-hex_digit d h) refl

hex_digits-value :
    (fuel n : ℕ) (rest : Text) → n < fuel → hex_value 0 (hex_digits fuel n rest) ≡ hex_value n rest
unfolding hex_digits hex_value
hex_digits-value zero n rest h = ground (arith, h)
hex_digits-value (suc fuel) n rest h = elim (Bool-cases (ltb n 16)) [
  | inl one ↦
      let e : 0 * 16 + n % 16 ≡ n = ground (arith, one) in
      rw one (hex_value-hex_digit 0 (n % 16) rest (omega arith) ∙ ap (λ k. hex_value k rest) e)
  | inr more ↦
      let e : n / 16 * 16 + n % 16 ≡ n = omega arith in
      rw more (
        hex_digits-value fuel (n / 16) (hex_digit (n % 16) ∷ rest) (ground (arith, more, h))
        ∙ hex_value-hex_digit (n / 16) (n % 16) rest (omega arith)
        ∙ ap (λ k. hex_value k rest) e)
]

-- The numbers that suc k hexadecimal digits write are below this.
abbrev bound : ℕ → ℕ
bound zero = 16
bound (suc k) = 16 * bound k

hex_digits-length-le :
    (k fuel n : ℕ) (rest : Text)
    → n < fuel
    → n < bound k
    → length (hex_digits fuel n rest) ≤ suc k + length rest
unfolding hex_digits
hex_digits-length-le k zero n rest h b = ground (arith, h)
hex_digits-length-le zero (suc fuel) n rest h b = ground (arith, b)
hex_digits-length-le (suc k) (suc fuel) n rest h b = elim (Bool-cases (ltb n 16)) [
  | inl one ↦ rw one (omega arith)
  | inr more ↦
      let shorter =
        hex_digits-length-le k fuel (n / 16) (hex_digit (n % 16) ∷ rest) (ground (arith, more, h))
          (omega (arith, b)) in
      rw more (omega (arith, shorter))
]

pub hex_digits-lt-length :
    (fuel n : ℕ) (rest : Text) → n < fuel → length rest < length (hex_digits fuel n rest)
unfolding hex_digits
hex_digits-lt-length zero n rest h = ground (arith, h)
hex_digits-lt-length (suc fuel) n rest h = elim (Bool-cases (ltb n 16)) [
  | inl one ↦ rw one (omega arith)
  | inr more ↦
      let longer =
        hex_digits-lt-length fuel (n / 16) (hex_digit (n % 16) ∷ rest) (ground (arith, more, h)) in
      rw more (omega (arith, longer))
]

pub to_hex-IsHex : (n : ℕ) → IsHex (to_hex n)
unfolding to_hex
to_hex-IsHex n = hex_digits-IsHex (suc n) n [] tt

pub hextet-to_hex : (n : ℕ) → n < 65536 → hextet (to_hex n) ≡ some n
unfolding hextet to_hex hex_value
hextet-to_hex n h =
    let short : leb (length (hex_digits (suc n) n [])) 4 ≡ true =
      ground (arith, hex_digits-length-le 3 (suc n) n [] (omega arith) (omega (arith, h))) in
    let long : leb 1 (length (hex_digits (suc n) n [])) ≡ true =
      ground (arith, hex_digits-lt-length (suc n) n [] (omega arith)) in
    rw (short, long) (hex_digits-value (suc n) n [] (omega arith))
