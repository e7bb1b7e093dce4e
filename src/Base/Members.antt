-- ===== src/Base/Members.antt =====
-- Lists of texts by their members: a list without repetition that is as long as one that holds its members
-- holds the members of that one.
use Prim.Native.Nat.{suc, ◌≤◌}
use mathlib.Core.Path.{◌≡◌, refl}
use mathlib.Core.Logic.{inl, inr}
use mathlib.Core.Bool.{true, false}
use mathlib.Core.List.{List, [], ◌∷◌}
use native.Mathlib.Omega.{arith}
use wknowledge.Base.Tests.{if◌then◌else◌, Bool-cases}
use wknowledge.Base.Lists.{length, All}
use wknowledge.Base.Texts.{Text, ◌===◌, ===_iff}
use wknowledge.Base.Maps.{has}

-- No member stands in the list twice.
abbrev pub IsDistinct : List Text → Type 0
IsDistinct [] = Unit
IsDistinct (x ∷ xs) = (has x xs ≡ false) × IsDistinct xs

-- Every member of the first list is one of the second.
abbrev pub Within : List Text → List Text → Type 0
Within xs ys = All (λ x. has x ys ≡ true) xs

abbrev drop_one : Text → List Text → List Text
drop_one x [] = []
drop_one x (y ∷ ys) = if y === x then ys else y ∷ drop_one x ys

length-drop_one :
    (x : Text) (ys : List Text) → has x ys ≡ true → length ys ≡ suc (length (drop_one x ys))
unfolding has
length-drop_one x [] h = cc h
length-drop_one x (y ∷ ys) h = ground (arith, length-drop_one x ys, h)

has-drop_one :
    (x k : Text) (ys : List Text)
    → (k === x) ≡ false
    → has k ys ≡ true
    → has k (drop_one x ys) ≡ true
unfolding has
has-drop_one x k [] n h = cc h
has-drop_one x k (y ∷ ys) n h =
    ground (arith, has-drop_one x k ys n, h, n, ===_iff y x, ===_iff y k, ===_iff k x)

Within-drop_one :
    (x : Text) (xs ys : List Text) → has x xs ≡ false → Within xs ys → Within xs (drop_one x ys)
unfolding has
Within-drop_one x [] ys n h = tt
Within-drop_one x (k ∷ xs) ys n (here, there) =
    let apart : (k === x) ≡ false = ground (arith, n) in
    let rest : has x xs ≡ false = ground (arith, n) in
    (has-drop_one x k ys apart here, Within-drop_one x xs ys rest there)

pub long_enough :
    (xs ys : List Text) (k : Text)
    → IsDistinct xs
    → Within xs ys
    → length ys ≤ length xs
    → has k ys ≡ true
    → has k xs ≡ true
unfolding has
long_enough [] [] k d w l h = cc h
long_enough [] (y ∷ ys) k d w l h = ground (arith, l)
long_enough (x ∷ xs) ys k (fresh, d) (here, w) l h = elim (Bool-cases (x === k)) [
  | inl same ↦ rw same refl
  | inr other ↦
      let apart : (k === x) ≡ false = ground (arith, other, ===_iff x k, ===_iff k x) in
      let shorter = length-drop_one x ys here in
      rw other (
        long_enough xs (drop_one x ys) k d (Within-drop_one x xs ys fresh w)
          (ground (arith, shorter, l)) (has-drop_one x k ys apart h))
]
