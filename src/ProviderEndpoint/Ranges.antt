-- ===== src/ProviderEndpoint/Ranges.antt =====
-- The addresses that `publicIp` refuses, as ranges of 32-bit numbers.
use wknowledge.Base.{
  ℕ, ◌+◌, ◌*◌, ◌/◌, ◌%◌, ◌≤◌, ◌<◌, ◌≡◌, refl, ap, ◌∙◌, Text, Bool, true, false, not, ◌||◌, ◌&&◌,
  List, [], ◌∷◌, ◌++◌, any, ltb, leb, ◌==◌, arith,
}
use wknowledge.Base.Decimal.{to_string, to_string-value, IsDigits, to_string-IsDigits}
use wknowledge.ProviderEndpoint.{public_ip, public_mapped, public_ipv4}
use wknowledge.ProviderEndpoint.Mapped.{mapped_text, mapped_ipv4_address-mapped_text}
use wknowledge.ProviderEndpoint.Addresses.{
  split_on, octets_of, dotted, is_reserved, is_public_octets,
}

-- A range in CIDR notation: its first address, and the number of addresses
abbrev ranges : List (ℕ × ℕ)
ranges =
    (0x00000000, 0x1000000)
    ∷ (0x0a000000, 0x1000000)
    ∷ (0x7f000000, 0x1000000)
    ∷ (0xe0000000, 0x20000000)
    ∷ (0x64400000, 0x400000)
    ∷ (0xa9fe0000, 0x10000)
    ∷ (0xac100000, 0x100000)
    ∷ (0xc0a80000, 0x10000)
    ∷ (0xc6120000, 0x20000)
    ∷ []

abbrev pub in_ranges : ℕ → Bool
in_ranges n = any (λ r. leb r.0 n && ltb n (r.0 + r.1)) ranges

abbrev pub number : (a b c d : ℕ) → ℕ
number a b c d = ((a * 256 + b) * 256 + c) * 256 + d

module _ (a b c d : ℕ) (hb : b < 256) (hc : c < 256) (hd : d < 256) where
  -- The first octet is k.
  first_range :
      (k : ℕ)
      → (a == k)
        ≡ (leb (k * 0x1000000) (number a b c d) && ltb (number a b c d) (k * 0x1000000 + 0x1000000))
  first_range k = ground (arith, hb, hc, hd)

  -- The first octet is k, the second one of these.
  second_range :
      (k low high : ℕ)
      → high < 256
      → low ≤ high
      → ((a == k) && (leb low b && leb b high)) ≡ (
          leb (k * 0x1000000 + low * 0x10000) (number a b c d)
          && ltb (number a b c d) (k * 0x1000000 + high * 0x10000 + 0x10000))
  second_range k low high hh hl = ground (arith, hb, hc, hd, hh, hl)

split_on-append :
    (separator : ℕ) (s t : Text)
    → separator < b'0'
    → IsDigits s
    → split_on separator (s ++ (separator ∷ t)) ≡ s ∷ split_on separator t
unfolding split_on
split_on-append separator [] t h g = ground arith
split_on-append separator (c ∷ s) t h (digit, g) =
    let apart : (c == separator) ≡ false = ground (arith, digit, h) in
    rw (apart, split_on-append separator s t h g) refl

split_on-digits :
    (separator : ℕ) (s : Text) → separator < b'0' → IsDigits s → split_on separator s ≡ s ∷ []
unfolding split_on
split_on-digits separator [] h g = refl
split_on-digits separator (c ∷ s) h (digit, g) =
    let apart : (c == separator) ≡ false = ground (arith, digit, h) in
    rw (apart, split_on-digits separator s h g) refl

octets_of-dotted : (a b c d : ℕ) → octets_of (dotted a b c d) ≡ a ∷ b ∷ c ∷ d ∷ []
unfolding octets_of dotted
octets_of-dotted a b c d =
    rw
      (
        split_on-append b'.' (to_string a)
            (to_string b ++ (b'.' ∷ to_string c ++ (b'.' ∷ to_string d))) (omega arith)
            (to_string-IsDigits a),
        split_on-append b'.' (to_string b) (to_string c ++ (b'.' ∷ to_string d)) (omega arith)
            (to_string-IsDigits b),
        split_on-append b'.' (to_string c) (to_string d) (omega arith) (to_string-IsDigits c),
        split_on-digits b'.' (to_string d) (omega arith) (to_string-IsDigits d),
        to_string-value a,
        to_string-value b,
        to_string-value c,
        to_string-value d,
      )
      refl

or_cong : {p q r t : Bool} → p ≡ q → r ≡ t → (p || r) ≡ (q || t)
or_cong e f = rw (e, f) refl

or_false : (b : Bool) → b ≡ (b || false)
or_false true = refl
or_false false = refl

point : (b k : ℕ) → (b == k) ≡ (leb k b && leb b k)
point b k = ground arith

pair_of : (b k : ℕ) → ((b == k) || (b == k + 1)) ≡ (leb k b && leb b (k + 1))
pair_of b k = ground arith

last_range :
    (a b c d : ℕ)
    → a < 256
    → b < 256
    → c < 256
    → d < 256
    → leb 224 a
      ≡ (leb 0xe0000000 (number a b c d) && ltb (number a b c d) (0xe0000000 + 0x20000000))
last_range a b c d ha hb hc hd = ground (arith, ha, hb, hc, hd)

reserved_in_ranges :
    (a b c d : ℕ)
    → a < 256
    → b < 256
    → c < 256
    → d < 256
    → is_reserved a b ≡ in_ranges (number a b c d)
unfolding is_reserved
reserved_in_ranges a b c d ha hb hc hd =
    let first = first_range a b c d hb hc hd in
    let second = second_range a b c d hb hc hd in
    or_cong (first 0) (
      or_cong (first 10) (
        or_cong (first 127) (
          or_cong (last_range a b c d ha hb hc hd) (
            or_cong (second 100 64 127 (omega arith) (omega arith)) (
              or_cong
                (ap (λ t. (a == 169) && t) (point b 254)
                  ∙ second 169 254 254 (omega arith) (omega arith))
                (or_cong (second 172 16 31 (omega arith) (omega arith)) (
                  or_cong
                    (ap (λ t. (a == 192) && t) (point b 168)
                      ∙ second 192 168 168 (omega arith) (omega arith))
                    (ap (λ t. (a == 198) && t) (pair_of b 18)
                      ∙ second 198 18 19 (omega arith) (omega arith)
                      ∙ or_false _))))))))

public_ipv4-dotted :
    (a b c d : ℕ)
    → a < 256
    → b < 256
    → c < 256
    → d < 256
    → public_ipv4 (dotted a b c d) ≡ not (in_ranges (number a b c d))
unfolding public_ipv4 is_public_octets
public_ipv4-dotted a b c d ha hb hc hd =
    ap is_public_octets (octets_of-dotted a b c d) ∙ ap not (reserved_in_ranges a b c d ha hb hc hd)

-- An IPv4 address in dotted notation is public for `publicIp` exactly when its number is in none of the
-- reserved ranges 0/8, 10/8, 127/8, 224/3, 100.64/10, 169.254/16, 172.16/12, 192.168/16 and 198.18/15. `isIP` is
-- taken to say 4 of it.
pub public_ip-dotted :
    (is_ip : Text → ℕ) (a b c d : ℕ)
    → a < 256
    → b < 256
    → c < 256
    → d < 256
    → is_ip (dotted a b c d) ≡ 4
    → public_ip is_ip (dotted a b c d) ≡ not (in_ranges (number a b c d))
unfolding public_ip
public_ip-dotted is_ip a b c d ha hb hc hd e =
    let family : (is_ip (dotted a b c d) == 4) ≡ true = ground (arith, e) in
    rw family (public_ipv4-dotted a b c d ha hb hc hd)

-- An IPv6 address that is written as `::ffff:` and two hextets is public for `publicIp` exactly when the
-- number that these make is in none of the reserved ranges. `isIP` is taken to say 6 of it, and 4 of the
-- dotted address with the same bytes.
pub public_ip-mapped :
    (is_ip : Text → ℕ) (x y : ℕ)
    → x < 65536
    → y < 65536
    → is_ip (mapped_text x y) ≡ 6
    → is_ip (dotted (x / 256) (x % 256) (y / 256) (y % 256)) ≡ 4
    → public_ip is_ip (mapped_text x y) ≡ not (in_ranges (x * 65536 + y))
unfolding public_ip public_mapped
public_ip-mapped is_ip x y hx hy six four =
    let not_four : (is_ip (mapped_text x y) == 4) ≡ false = ground (arith, six) in
    let is_six : (is_ip (mapped_text x y) == 6) ≡ true = ground (arith, six) in
    let same : number (x / 256) (x % 256) (y / 256) (y % 256) ≡ x * 65536 + y = omega arith in
    let is_four : (is_ip (dotted (x / 256) (x % 256) (y / 256) (y % 256)) == 4) ≡ true =
      ground (arith, four) in
    let inner =
      public_ipv4-dotted (x / 256) (x % 256) (y / 256) (y % 256) (omega (arith, hx)) (omega arith)
        (omega (arith, hy)) (omega arith) in
    rw (not_four, is_six)
      (ap (public_mapped is_ip (mapped_text x y)) (mapped_ipv4_address-mapped_text x y hx hy)
        ∙ rw (public_mapped, is_four) (inner ∙ ap (λ n. not (in_ranges n)) same))
