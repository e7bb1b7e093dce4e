-- ===== src/Base/Texts.antt =====
-- A JavaScript string is the list of its UTF-16 code units.
use Prim.Native.Char.{code}
use Prim.Native.Nat.{ℕ, zero, suc}
use Prim.Native.String.{String}
use mathlib.Core.Path.{◌≡◌, refl}
use mathlib.Core.Logic.{◌↔◌}
use mathlib.Core.Bool.{Bool, true, false, ◌&&◌, ◌||◌}
use mathlib.Core.List.{List, [], ◌∷◌, reverse}
use native.Mathlib.Omega.{arith}
use wknowledge.Base.Tests.{leb, ◌==◌, if◌then◌else◌}
use wknowledge.Base.Lists.{all}

abbrev pub Text : Type 0
Text = List ℕ

-- The code units of a literal in the basic plane.
abbrev pub units : String → Text
units String.[] = []
units (String.◌∷◌ c s) = code c ∷ units s

infix 50 ◌===◌
unfoldable pub ◌===◌ : Text → Text → Bool
[] === [] = true
[] === (y ∷ ys) = false
(x ∷ xs) === [] = false
(x ∷ xs) === (y ∷ ys) = x == y && xs === ys

pub ===_sound : (s t : Text) → (s === t) ≡ true → s ≡ t
unfolding ◌===◌
===_sound [] [] h = refl
===_sound [] (y ∷ ys) h = cc
===_sound (x ∷ xs) [] h = cc
===_sound (x ∷ xs) (y ∷ ys) h = ground (arith, ===_sound xs ys)

pub ===_refl : (s : Text) → (s === s) ≡ true
unfolding ◌===◌
===_refl [] = refl
===_refl (x ∷ xs) = ground (arith, ===_refl xs)

pub ===_complete : (s t : Text) → s ≡ t → (s === t) ≡ true
===_complete s t e = rw e (===_refl t)

pub ===_iff : (s t : Text) → ((s === t) ≡ true) ↔ (s ≡ t)
===_iff s t = (===_sound s t, ===_complete s t)

-- What `String.prototype.trim` removes: white space and line terminators.
unfoldable pub is_space : ℕ → Bool
is_space c =
    (leb 9 c && leb c 13)
    || c == 32
    || c == 160
    || c == 0x1680
    || (leb 0x2000 c && leb c 0x200a)
    || c == 0x2028
    || c == 0x2029
    || c == 0x202f
    || c == 0x205f
    || c == 0x3000
    || c == 0xfeff

-- `text.trim().length === 0`
unfoldable pub is_blank : Text → Bool
unfolding is_space
is_blank s = all is_space s

unfoldable pub is_lower : ℕ → Bool
is_lower c = leb b'a' c && leb c b'z'

unfoldable pub is_digit : ℕ → Bool
is_digit c = leb b'0' c && leb c b'9'

-- `slice(0, n)`
abbrev pub take : ℕ → Text → Text
take zero s = []
take (suc n) [] = []
take (suc n) (c ∷ s) = c ∷ take n s

-- `trimStart`, and `trim` by way of the reversed text.
unfoldable pub trim_start : Text → Text
trim_start [] = []
trim_start (c ∷ s) = if is_space c then trim_start s else c ∷ s

unfoldable pub trim : Text → Text
unfolding trim_start
trim s = reverse (trim_start (reverse (trim_start s)))
