-- ===== src/Wiki/Diff/Table.antt =====
-- The matrix holds the lengths of the longest common subsequences of the lines that are left.
use wknowledge.Base.{
  ℕ, zero, suc, ◌+◌, ◌*◌, ◌≤◌, ◌<◌, ◌≡◌, ◌⊎◌, inl, inr, refl, sym, ◌∙◌, Text, List, [], ◌∷◌, ◌===◌,
  arith, Bool-cases, ltb, length, drop, replicate,
}
use wknowledge.Wiki.Diff.{cell, row, tail, fill_row, fill_matrix}
use wknowledge.Wiki.Diff.Subsequences.{lcs, lcs-nil, lcs_same, lcs_apart, lcs-le-length}

-- One of the two is shorter than a cell can count.
abbrev pub IsSmall : List Text → List Text → Type 0
IsSmall bs cs = (length bs < 65535) ⊎ (length cs < 65535)

lcs-lt : (bs cs : List Text) → IsSmall bs cs → lcs bs cs < 65535
lcs-lt bs cs (inl h) = omega (arith, lcs-le-length bs cs)
lcs-lt bs cs (inr h) = omega (arith, lcs-le-length bs cs)

cell-tail : (below : List ℕ) (q : ℕ) → cell (tail below) q ≡ cell below (suc q)
cell-tail [] q = refl
cell-tail (x ∷ xs) q = refl

fill_row-cell :
    (b : Text) (bs cs : List Text) (below : List ℕ)
    → IsSmall bs cs
    → ((q : ℕ) → cell below q ≡ lcs bs (drop q cs))
    → (q : ℕ) → cell (fill_row b cs below) q ≡ lcs (b ∷ bs) (drop q cs)
unfolding fill_row
fill_row-cell b bs [] below small h zero = sym (lcs-nil (b ∷ bs))
fill_row-cell b bs [] below small h (suc q) = sym (lcs-nil (b ∷ bs))
fill_row-cell b bs (c ∷ cs) below small h zero = elim (Bool-cases (b === c)) [
  | inl e ↦ rw (e, h 1, lcs_same b c bs cs e) (omega (arith, lcs-lt bs cs (fewer small)))
  | inr e ↦ rw (
    e,
    h 0,
    lcs_apart b c bs cs e,
    fill_row-cell b bs cs (tail below) (fewer small) (λ q. cell-tail below q ∙ h (suc q)) 0,
  )
]
  where
    fewer : IsSmall bs (c ∷ cs) → IsSmall bs cs
    fewer (inl s) = inl s
    fewer (inr s) = inr (omega arith)
fill_row-cell b bs (c ∷ cs) below small h (suc q) =
    fill_row-cell b bs cs (tail below) (fewer small) (λ q. cell-tail below q ∙ h (suc q)) q
  where
    fewer : IsSmall bs (c ∷ cs) → IsSmall bs cs
    fewer (inl s) = inl s
    fewer (inr s) = inr (omega arith)

zeros-cell : (n q : ℕ) → cell (replicate n 0) q ≡ 0
zeros-cell zero q = refl
zeros-cell (suc n) zero = refl
zeros-cell (suc n) (suc q) = zeros-cell n q

lcs-nil_left : (cs : List Text) → lcs [] cs ≡ 0
unfolding lcs
lcs-nil_left cs = omega arith

-- Every cell, and those outside the matrix.
pub fill_matrix-cell :
    (bs cs : List Text)
    → IsSmall bs cs
    → (p q : ℕ) → cell (row (fill_matrix bs cs) p) q ≡ lcs (drop p bs) (drop q cs)
unfolding fill_matrix
fill_matrix-cell [] cs small zero q = zeros-cell (length cs + 1) q ∙ sym (lcs-nil_left (drop q cs))
fill_matrix-cell [] cs small (suc p) q = sym (lcs-nil_left (drop q cs))
fill_matrix-cell (b ∷ bs) cs small zero q =
    fill_row-cell b bs cs _ (fewer small) (fill_matrix-cell bs cs (fewer small) 0) q
  where
    fewer : IsSmall (b ∷ bs) cs → IsSmall bs cs
    fewer (inl s) = inl (omega arith)
    fewer (inr s) = inr s
fill_matrix-cell (b ∷ bs) cs small (suc p) q = fill_matrix-cell bs cs (fewer small) p q
  where
    fewer : IsSmall (b ∷ bs) cs → IsSmall bs cs
    fewer (inl s) = inl (omega arith)
    fewer (inr s) = inr s

-- A matrix of admitted size has a small side.
pub admitted-IsSmall :
    (bs cs : List Text) → (length bs + 1) * (length cs + 1) ≤ 500000 → IsSmall bs cs
admitted-IsSmall bs cs h = by_size (length bs) (length cs) h
  where
    by_size : (m n : ℕ) → (m + 1) * (n + 1) ≤ 500000 → (m < 65535) ⊎ (n < 65535)
    by_size m n h = elim (Bool-cases (ltb m 65535)) [
      | inl short ↦ inl (ground arith)
      | inr long ↦ let far : 65535 ≤ m = ground arith in inr (grind (arith, far))
    ]
