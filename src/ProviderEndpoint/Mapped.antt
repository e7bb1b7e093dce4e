-- ===== src/ProviderEndpoint/Mapped.antt =====
-- What `mappedIpv4Address` reads in an address that is written as `::ffff:` and two hextets.
use wknowledge.Base.{
  ℕ, suc, ◌/◌, ◌%◌, ◌<◌, ◌≡◌, refl, sym, ap, ◌∙◌, subst, Text, units, false, ◌⊎◌, some, List, [],
  ◌∷◌, ◌++◌, append-nil, All, All-append, length, ◌==◌, arith, inl, inr,
}
use wknowledge.ProviderEndpoint.Addresses.{
  to_lower, without_close, normalized_host, split_on, split_sections, to_hex, hex_value, hextet,
  has_unit, groups_of, parse_groups, filled, groups_of_sections, all_hextets, mapped_of, hextets_of,
  mapped_from, dotted, mapped_ipv4_address,
}
use wknowledge.ProviderEndpoint.Hex.{
  IsHexDigit, IsHex, hex_digits-lt-length, to_hex-IsHex, hextet-to_hex,
}

split_on-hex-append : (s t : Text) → IsHex s → split_on b':' (s ++ (b':' ∷ t)) ≡ s ∷ split_on b':' t
unfolding split_on
split_on-hex-append [] t g = refl
split_on-hex-append (c ∷ s) t (digit, g) =
    let apart : (c == b':') ≡ false = ground (arith, digit) in
    rw (apart, split_on-hex-append s t g) refl

split_on-hex : (s : Text) → IsHex s → split_on b':' s ≡ s ∷ []
unfolding split_on
split_on-hex [] g = refl
split_on-hex (c ∷ s) (digit, g) =
    let apart : (c == b':') ≡ false = ground (arith, digit) in rw (apart, split_on-hex s g) refl

no_dot : (s : Text) → IsHex s → has_unit b'.' s ≡ false
no_dot [] g = refl
no_dot (c ∷ s) (digit, g) = ground (arith, digit, no_dot s g)

-- A hexadecimal digit or a colon
abbrev IsPlain : ℕ → Type 0
IsPlain c = IsHexDigit c ⊎ (c ≡ b':')

to_lower-IsPlain : (s : Text) → All IsPlain s → to_lower s ≡ s
unfolding to_lower
to_lower-IsPlain [] g = refl
to_lower-IsPlain (c ∷ s) (plain, g) = ground (arith, plain, to_lower-IsPlain s g)

without_close-IsPlain : (s : Text) → All IsPlain s → without_close s ≡ s
without_close-IsPlain [] g = refl
without_close-IsPlain (c ∷ []) (plain, g) = ground (arith, plain)
without_close-IsPlain (c ∷ d ∷ s) (plain, g) = ap (λ t. c ∷ t) (without_close-IsPlain (d ∷ s) g)

single_section-hex : (s : Text) → IsHex s → split_sections s ≡ s ∷ []
unfolding split_sections
single_section-hex [] g = refl
single_section-hex (c ∷ []) g = refl
single_section-hex (c ∷ d ∷ s) (digit, g) =
    let apart : (c == b':') ≡ false = ground (arith, digit) in
    rw (apart, single_section-hex (d ∷ s) g) refl

single_section-append :
    (s t : Text)
    → IsHex s
    → split_sections (b':' ∷ t) ≡ (b':' ∷ t) ∷ []
    → split_sections (s ++ (b':' ∷ t)) ≡ (s ++ (b':' ∷ t)) ∷ []
unfolding split_sections
single_section-append [] t g h = h
single_section-append (c ∷ []) t (digit, g) h =
    let apart : (c == b':') ≡ false = ground (arith, digit) in rw (apart, split_sections, h) refl
single_section-append (c ∷ d ∷ s) t (digit, g) h =
    let apart : (c == b':') ≡ false = ground (arith, digit) in
    rw (apart, split_sections, single_section-append (d ∷ s) t g h) refl

single_section-colon :
    (s u : Text)
    → 0 < length s
    → IsHex s
    → split_sections (s ++ u) ≡ (s ++ u) ∷ []
    → split_sections (b':' ∷ (s ++ u)) ≡ (b':' ∷ (s ++ u)) ∷ []
unfolding split_sections
single_section-colon [] u n g h = ground (arith, n)
single_section-colon (c ∷ s) u n (digit, g) h =
    let apart : (c == b':') ≡ false = ground (arith, digit) in rw (apart, split_sections, h) refl

to_hex-lt-length : (n : ℕ) → 0 < length (to_hex n)
unfolding to_hex
to_hex-lt-length n = hex_digits-lt-length (suc n) n [] (omega arith)

abbrev mapped_body : ℕ → ℕ → Text
mapped_body x y = units "ffff" ++ (b':' ∷ (to_hex x ++ (b':' ∷ to_hex y)))

-- The text of the mapped address with these two hextets
abbrev pub mapped_text : ℕ → ℕ → Text
mapped_text x y = b':' ∷ b':' ∷ mapped_body x y

ffff-IsHex : IsHex (units "ffff")
ffff-IsHex = let f : IsHexDigit b'f' = inr (omega arith, omega arith) in (f, (f, (f, (f, tt))))

body_single : (x y : ℕ) → split_sections (mapped_body x y) ≡ mapped_body x y ∷ []
body_single x y =
    let last : split_sections (b':' ∷ to_hex y) ≡ (b':' ∷ to_hex y) ∷ [] =
      subst (λ t. split_sections (b':' ∷ t) ≡ (b':' ∷ t) ∷ []) (append-nil (to_hex y))
        (single_section-colon (to_hex y) [] (to_hex-lt-length y) (to_hex-IsHex y) (
          subst (λ t. split_sections t ≡ t ∷ []) (sym (append-nil (to_hex y)))
            (single_section-hex (to_hex y) (to_hex-IsHex y)))) in
    let middle = single_section-append (to_hex x) (to_hex y) (to_hex-IsHex x) last in
    single_section-append (units "ffff") (to_hex x ++ (b':' ∷ to_hex y)) ffff-IsHex (
      single_section-colon (to_hex x) (b':' ∷ to_hex y) (to_hex-lt-length x) (to_hex-IsHex x)
        middle)

hex-IsPlain : (s : Text) → IsHex s → All IsPlain s
hex-IsPlain [] g = tt
hex-IsPlain (c ∷ s) (digit, g) = (inl digit, hex-IsPlain s g)

text-IsPlain : (x y : ℕ) → All IsPlain (mapped_text x y)
text-IsPlain x y =
    let tail =
      All-append IsPlain (to_hex x) (b':' ∷ to_hex y) (hex-IsPlain (to_hex x) (to_hex-IsHex x))
        (inr refl, hex-IsPlain (to_hex y) (to_hex-IsHex y)) in
    (
      inr refl,
      (
        inr refl,
        All-append IsPlain (units "ffff") (b':' ∷ (to_hex x ++ (b':' ∷ to_hex y)))
            (hex-IsPlain (units "ffff") ffff-IsHex) (inr refl, tail),
      ),
    )

normalized_text : (x y : ℕ) → normalized_host (mapped_text x y) ≡ mapped_text x y
unfolding normalized_host
normalized_text x y =
    ap to_lower (without_close-IsPlain (mapped_text x y) (text-IsPlain x y))
    ∙ to_lower-IsPlain (mapped_text x y) (text-IsPlain x y)

body_groups :
    (x y : ℕ) → parse_groups (mapped_body x y) ≡ some (units "ffff" ∷ to_hex x ∷ to_hex y ∷ [])
unfolding parse_groups groups_of
body_groups x y =
    let parts : split_on b':' (mapped_body x y) ≡ units "ffff" ∷ to_hex x ∷ to_hex y ∷ [] =
      split_on-hex-append (units "ffff") (to_hex x ++ (b':' ∷ to_hex y)) ffff-IsHex
      ∙ ap (λ ss. units "ffff" ∷ ss)
          (split_on-hex-append (to_hex x) (to_hex y) (to_hex-IsHex x)
            ∙ ap (λ ss. to_hex x ∷ ss) (split_on-hex (to_hex y) (to_hex-IsHex y))) in
    ap groups_of parts ∙ rw (groups_of, no_dot (to_hex y) (to_hex-IsHex y)) refl

abbrev mapped_groups : ℕ → ℕ → List Text
mapped_groups x y =
    units "0"
    ∷ units "0"
    ∷ units "0"
    ∷ units "0"
    ∷ units "0"
    ∷ units "ffff"
    ∷ to_hex x
    ∷ to_hex y
    ∷ []

sections_groups :
    (x y : ℕ) → groups_of_sections ([] ∷ mapped_body x y ∷ []) ≡ some (mapped_groups x y)
unfolding groups_of_sections parse_groups filled
sections_groups x y = ap (filled (some [])) (body_groups x y)

groups_hextets :
    (x y : ℕ)
    → x < 65536
    → y < 65536
    → hextets_of (some (mapped_groups x y)) ≡ some (0 ∷ 0 ∷ 0 ∷ 0 ∷ 0 ∷ 0xffff ∷ x ∷ y ∷ [])
unfolding hextets_of all_hextets hextet hex_value
groups_hextets x y hx hy = rw (hextet-to_hex x hx, hextet-to_hex y hy) refl

hextets_mapped :
    (x y : ℕ)
    → mapped_from (some (0 ∷ 0 ∷ 0 ∷ 0 ∷ 0 ∷ 0xffff ∷ x ∷ y ∷ []))
      ≡ some (dotted (x / 256) (x % 256) (y / 256) (y % 256))
unfolding mapped_from mapped_of
hextets_mapped x y = refl

-- The address is read back: of `::ffff:` and two hextets, each written in hexadecimal without leading
-- zeros, the result is the dotted address of their four bytes.
pub mapped_ipv4_address-mapped_text :
    (x y : ℕ)
    → x < 65536
    → y < 65536
    → mapped_ipv4_address (mapped_text x y) ≡ some (dotted (x / 256) (x % 256) (y / 256) (y % 256))
unfolding mapped_ipv4_address
mapped_ipv4_address-mapped_text x y hx hy =
    let sections : split_sections (normalized_host (mapped_text x y)) ≡ [] ∷ mapped_body x y ∷ [] =
      ap split_sections (normalized_text x y) ∙ ap (λ ss. [] ∷ ss) (body_single x y) in
    ap (λ ss. mapped_from (hextets_of (groups_of_sections ss))) sections
    ∙ ap (λ gs. mapped_from (hextets_of gs)) (sections_groups x y)
    ∙ ap mapped_from (groups_hextets x y hx hy)
    ∙ hextets_mapped x y
