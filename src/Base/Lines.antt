-- ===== src/Base/Lines.antt =====
-- `split("\n")` and `join("\n")`.
use Prim.Native.Nat.{ℕ}
use mathlib.Core.Path.{◌≡◌, refl, ap, ◌∙◌}
use mathlib.Core.Logic.{◌≢◌, inl, inr}
use mathlib.Core.Bool.{Bool, true, false}
use mathlib.Core.List.{List, [], ◌∷◌, ◌++◌}
use native.Mathlib.Omega.{arith}
use wknowledge.Base.Tests.{◌==◌, if◌then◌else◌, Bool-cases}
use wknowledge.Base.Texts.{Text}

abbrev cons_head : ℕ → List Text → List Text
cons_head c [] = (c ∷ []) ∷ []
cons_head c (l ∷ ls) = (c ∷ l) ∷ ls

unfoldable pub split_lines : Text → List Text
split_lines [] = [] ∷ []
split_lines (c ∷ s) = if c == 10 then [] ∷ split_lines s else cons_head c (split_lines s)

unfoldable pub join_lines : List Text → Text
join_lines [] = []
join_lines (l ∷ []) = l
join_lines (l ∷ m ∷ ls) = l ++ (10 ∷ join_lines (m ∷ ls))

join_lines-cons_head : (c : ℕ) (ls : List Text) → join_lines (cons_head c ls) ≡ c ∷ join_lines ls
unfolding join_lines
join_lines-cons_head c [] = refl
join_lines-cons_head c (l ∷ []) = refl
join_lines-cons_head c (l ∷ m ∷ ls) = refl

join_lines-nil : (ls : List Text) → ls ≢ [] → join_lines ([] ∷ ls) ≡ 10 ∷ join_lines ls
unfolding join_lines
join_lines-nil [] h = absurd (h refl)
join_lines-nil (l ∷ ls) h = refl

pub split_lines-ne-nil : (s : Text) → split_lines s ≢ []
unfolding split_lines
split_lines-ne-nil [] = λ e. cc e
split_lines-ne-nil (c ∷ s) = some_head (c == 10) (split_lines s)
  where
    some_head : (b : Bool) (ls : List Text) → (if b then [] ∷ ls else cons_head c ls) ≢ []
    some_head true ls e = cc e
    some_head false [] e = cc e
    some_head false (l ∷ ls) e = cc e

-- Joining the lines of a text gives the text back.
pub join_lines-split_lines : (s : Text) → join_lines (split_lines s) ≡ s
unfolding split_lines
join_lines-split_lines [] = unfold join_lines in refl
join_lines-split_lines (c ∷ s) = elim (Bool-cases (c == 10)) [
  | inl newline ↦ rw newline (
      join_lines-nil (split_lines s) (split_lines-ne-nil s)
      ∙ ground (arith, join_lines-split_lines s, newline))
  | inr other ↦
      rw other (join_lines-cons_head c (split_lines s) ∙ ap (λ r. c ∷ r) (join_lines-split_lines s))
]
