-- ===== src/ProviderEndpoint/Addresses.antt =====
-- The reading of addresses in `mappedIpv4Address` and `publicIp` of packages/model-gateway/src/index.ts.
use wknowledge.Base.{
  ℕ, zero, suc, ◌+◌, ◌-◌, ◌*◌, ◌/◌, ◌%◌, Text, units, Bool, true, false, not, ◌||◌, ◌&&◌, Option,
  none, some, List, [], ◌∷◌, ◌++◌, map, ltb, leb, ◌==◌, if◌then◌else◌, any, all, length, replicate,
}
use wknowledge.Base.Decimal.{to_string, digits_value}

unfoldable pub to_lower : Text → Text
to_lower = map (λ c. if leb b'A' c && leb c b'Z' then c + 32 else c)

abbrev pub without_open : Text → Text
without_open [] = []
without_open (c ∷ s) = if c == b'[' then s else c ∷ s

abbrev pub without_close : Text → Text
without_close [] = []
without_close (c ∷ []) = if c == b']' then [] else c ∷ []
without_close (c ∷ d ∷ s) = c ∷ without_close (d ∷ s)

-- `value.replace(/^\[|\]$/g, "").toLowerCase()`
unfoldable pub normalized_host : Text → Text
unfolding to_lower
normalized_host value = to_lower (without_close (without_open value))

unfoldable pub starts_with : Text → Text → Bool
starts_with [] s = true
starts_with (c ∷ p) [] = false
starts_with (c ∷ p) (d ∷ s) = (c == d) && starts_with p s

abbrev pub cons_part : ℕ → List Text → List Text
cons_part c [] = (c ∷ []) ∷ []
cons_part c (s ∷ ss) = (c ∷ s) ∷ ss

-- `split` at one character, and at "::"
unfoldable pub split_on : ℕ → Text → List Text
split_on separator [] = [] ∷ []
split_on separator (c ∷ s) =
    let rest = split_on separator s in if c == separator then [] ∷ rest else cons_part c rest

unfoldable pub split_sections : Text → List Text
split_sections [] = [] ∷ []
split_sections (c ∷ []) = (c ∷ []) ∷ []
split_sections (c ∷ d ∷ s) =
    let rest = split_sections s in
    let next = split_sections (d ∷ s) in
    if (c == b':') && (d == b':') then [] ∷ rest else cons_part c next

unfoldable pub octets_of : Text → List ℕ
unfolding split_on
octets_of value = map (digits_value 0) (split_on b'.' value)

-- The test of `publicIp` on the first two octets
unfoldable pub is_reserved : (first second : ℕ) → Bool
is_reserved first second =
    (first == 0)
    || ((first == 10)
        || ((first == 127)
            || (leb 224 first
                || (((first == 100) && (leb 64 second && leb second 127))
                    || (((first == 169) && (second == 254))
                        || (((first == 172) && (leb 16 second && leb second 31))
                            || (((first == 192) && (second == 168))
                                || ((first == 198) && ((second == 18) || (second == 19))))))))))

-- A missing octet reads as -1, which is in none of the ranges.
unfoldable pub is_public_octets : List ℕ → Bool
unfolding is_reserved
is_public_octets [] = true
is_public_octets (first ∷ []) =
    not ((first == 0) || ((first == 10) || ((first == 127) || leb 224 first)))
is_public_octets (first ∷ second ∷ octets) = not (is_reserved first second)

abbrev pub hex_digit : ℕ → ℕ
hex_digit d = if ltb d 10 then b'0' + d else b'a' + (d - 10)

abbrev pub hex_value_of : ℕ → Option ℕ
hex_value_of c =
    if leb b'0' c && leb c b'9'
    then some (c - b'0')
    else if leb b'a' c && leb c b'f'
    then some (c - b'a' + 10)
    else if leb b'A' c && leb c b'F'
    then some (c - b'A' + 10)
    else none

unfoldable pub hex_digits : ℕ → ℕ → Text → Text
hex_digits zero n rest = rest
hex_digits (suc fuel) n rest =
    let more = hex_digits fuel (n / 16) (hex_digit (n % 16) ∷ rest) in
    if ltb n 16 then hex_digit (n % 16) ∷ rest else more

-- `toString(16)`
unfoldable pub to_hex : ℕ → Text
unfolding hex_digits
to_hex n = hex_digits (suc n) n []

unfoldable pub hex_value : ℕ → Text → Option ℕ
hex_value seen [] = some seen
hex_value seen (c ∷ s) = elim (hex_value_of c) [
  | none ↦ none
  | some d ↦ hex_value (seen * 16 + d) s
]

-- `/^[0-9a-f]{1,4}$/i.test(group) ? Number.parseInt(group, 16) : NaN`
unfoldable pub hextet : Text → Option ℕ
unfolding hex_value
hextet group = if leb 1 (length group) && leb (length group) 4 then hex_value 0 group else none

abbrev pub has_unit : ℕ → Text → Bool
has_unit c s = any (λ d. d == c) s

-- The last group of a section, which may be written with dots
unfoldable pub last_group : Text → Option (List Text)
unfolding octets_of to_hex
last_group group = elim (octets_of group) [
  | a ∷ b ∷ c ∷ d ∷ [] ↦
      if any (λ octet. ltb 255 octet) (a ∷ b ∷ c ∷ d ∷ [])
      then none
      else some (to_hex (a * 256 + b) ∷ to_hex (c * 256 + d) ∷ [])
  | _ ↦ none
]

unfoldable pub groups_of : List Text → Option (List Text)
unfolding last_group
groups_of [] = some []
groups_of (g ∷ []) = if has_unit b'.' g then last_group g else some (g ∷ [])
groups_of (g ∷ h ∷ gs) = elim (groups_of (h ∷ gs)) [ none ↦ none | some rest ↦ some (g ∷ rest) ]

-- `parseGroups`
unfoldable pub parse_groups : Text → Option (List Text)
unfolding split_on groups_of
parse_groups [] = some []
parse_groups (c ∷ section) = groups_of (split_on b':' (c ∷ section))

-- `8 - leading.length - trailing.length` groups of "0" between the two sections, at least one of them
unfoldable pub filled : Option (List Text) → Option (List Text) → Option (List Text)
filled none trailing = none
filled (some leading) none = none
filled (some leading) (some trailing) =
    if leb (length leading + length trailing) 7
    then some
        (leading ++ (replicate (8 - (length leading + length trailing)) (units "0") ++ trailing))
    else none

unfoldable pub groups_of_sections : List Text → Option (List Text)
unfolding parse_groups filled
groups_of_sections [] = none
groups_of_sections (whole ∷ []) = elim (parse_groups whole) [
  | none ↦ none
  | some groups ↦ if length groups == 8 then some groups else none
]
groups_of_sections (first ∷ second ∷ []) = filled (parse_groups first) (parse_groups second)
groups_of_sections (first ∷ second ∷ third ∷ rest) = none

abbrev pub add_hextet : Option ℕ → Option (List ℕ) → Option (List ℕ)
add_hextet none rest = none
add_hextet (some h) none = none
add_hextet (some h) (some hs) = some (h ∷ hs)

-- A group that is NaN makes the whole address one that is not mapped.
unfoldable pub all_hextets : List Text → Option (List ℕ)
unfolding hextet
all_hextets [] = some []
all_hextets (g ∷ gs) = add_hextet (hextet g) (all_hextets gs)

unfoldable pub dotted : (a b c d : ℕ) → Text
dotted a b c d = to_string a ++ (b'.' ∷ to_string b ++ (b'.' ∷ to_string c ++ (b'.' ∷ to_string d)))

-- The address in the last two of eight hextets, where five zeros and 0xffff stand before them
unfoldable pub mapped_of : List ℕ → Option Text
unfolding dotted
mapped_of (a ∷ b ∷ c ∷ d ∷ e ∷ f ∷ g ∷ h ∷ []) =
    if all (λ x. x == 0) (a ∷ b ∷ c ∷ d ∷ e ∷ []) && (f == 0xffff)
    then some (dotted (g / 256) (g % 256) (h / 256) (h % 256))
    else none
mapped_of _ = none

unfoldable pub hextets_of : Option (List Text) → Option (List ℕ)
unfolding all_hextets
hextets_of none = none
hextets_of (some groups) = all_hextets groups

unfoldable pub mapped_from : Option (List ℕ) → Option Text
unfolding mapped_of
mapped_from none = none
mapped_from (some hextets) = mapped_of hextets

-- `mappedIpv4Address` of a text of family 6
unfoldable pub mapped_ipv4_address : Text → Option Text
unfolding normalized_host split_sections groups_of_sections hextets_of mapped_from
mapped_ipv4_address value =
    mapped_from (hextets_of (groups_of_sections (split_sections (normalized_host value))))
