-- ===== src/Wiki/Diff/Subsequences.antt =====
-- Common subsequences of two lists of lines: the specification of a smallest diff.
use wknowledge.Base.{
  ℕ, zero, suc, ◌≤◌, ◌≡◌, max, Text, true, false, List, [], ◌∷◌, ◌===◌, ===_refl, arith, Bool-cases,
  inl, inr, length,
}

-- There is a common subsequence of this length.
pub data Common : ℕ → List Text → List Text → Type 0 where
  nothing : {bs cs : List Text} → Common zero bs cs
  both : {n : ℕ} {bs cs : List Text} (t : Text) → Common n bs cs → Common (suc n) (t ∷ bs) (t ∷ cs)
  skip_base : {n : ℕ} {bs cs : List Text} (t : Text) → Common n bs cs → Common n (t ∷ bs) cs
  skip_candidate : {n : ℕ} {bs cs : List Text} (t : Text) → Common n bs cs → Common n bs (t ∷ cs)

-- The greatest such length.
unfoldable pub lcs : List Text → List Text → ℕ
lcs [] cs = 0
lcs (b ∷ bs) [] = 0
lcs (b ∷ bs) (c ∷ cs) = elim (b === c) [
  | true ↦ suc (lcs bs cs)
  | false ↦ max (lcs bs (c ∷ cs)) (lcs (b ∷ bs) cs)
]

pub lcs-nil : (bs : List Text) → lcs bs [] ≡ 0
unfolding lcs
lcs-nil [] = omega arith
lcs-nil (b ∷ bs) = omega arith

pub lcs_same :
    (b c : Text) (bs cs : List Text) → (b === c) ≡ true → lcs (b ∷ bs) (c ∷ cs) ≡ suc (lcs bs cs)
unfolding lcs
lcs_same b c bs cs e = rw (lcs, e)

pub lcs_apart :
    (b c : Text) (bs cs : List Text)
    → (b === c) ≡ false
    → lcs (b ∷ bs) (c ∷ cs) ≡ max (lcs bs (c ∷ cs)) (lcs (b ∷ bs) cs)
unfolding lcs
lcs_apart b c bs cs e = rw (lcs, e)

-- One more line on either side adds at most one, and takes nothing away.
pub record Grows (bs cs : List Text) : Type 0 where
  pub base : (b : Text) → (lcs bs cs ≤ lcs (b ∷ bs) cs) × (lcs (b ∷ bs) cs ≤ suc (lcs bs cs))
  pub candidate : (c : Text) → (lcs bs cs ≤ lcs bs (c ∷ cs)) × (lcs bs (c ∷ cs) ≤ suc (lcs bs cs))

lcs-nil_left : (cs : List Text) → lcs [] cs ≡ 0
unfolding lcs
lcs-nil_left cs = omega arith

base_step :
    (bs cs : List Text) (b c : Text)
    → Grows bs cs
    → (lcs (b ∷ bs) cs ≤ suc (lcs bs cs))
    → (lcs bs (c ∷ cs) ≤ lcs (b ∷ bs) (c ∷ cs)) × (lcs (b ∷ bs) (c ∷ cs) ≤ suc (lcs bs (c ∷ cs)))
base_step bs cs b c g h = elim (Bool-cases (b === c)) [
  | inl e ↦
      let s = lcs_same b c bs cs e in
      let k = g.candidate c in (omega (arith, s, k), omega (arith, s, k))
  | inr e ↦
      let s = lcs_apart b c bs cs e in
      let k = g.candidate c in (omega (arith, s, k), omega (arith, s, k, h))
]

candidate_step :
    (bs cs : List Text) (b c : Text)
    → Grows bs cs
    → (lcs bs (c ∷ cs) ≤ suc (lcs bs cs))
    → (lcs (b ∷ bs) cs ≤ lcs (b ∷ bs) (c ∷ cs)) × (lcs (b ∷ bs) (c ∷ cs) ≤ suc (lcs (b ∷ bs) cs))
candidate_step bs cs b c g h = elim (Bool-cases (b === c)) [
  | inl e ↦
      let s = lcs_same b c bs cs e in let k = g.base b in (omega (arith, s, k), omega (arith, s, k))
  | inr e ↦
      let s = lcs_apart b c bs cs e in
      let k = g.base b in (omega (arith, s, k), omega (arith, s, k, h))
]

pub lcs-Grows : (bs cs : List Text) → Grows bs cs
lcs-Grows [] [] = record {
  base = λ b. (omega (arith, lcs-nil_left [], lcs-nil (b ∷ [])), omega (arith, lcs-nil (b ∷ [])));
  candidate = λ c. (omega (arith, lcs-nil_left []), omega (arith, lcs-nil_left (c ∷ [])));
}
lcs-Grows [] (c ∷ cs) =
    let g = lcs-Grows [] cs in
    record {
      base = λ b. base_step [] cs b c g (g.base b).1;
      candidate =
          λ d. (omega (arith, lcs-nil_left (c ∷ cs)), omega (arith, lcs-nil_left (d ∷ c ∷ cs)));
    }
lcs-Grows (b ∷ bs) [] =
    let g = lcs-Grows bs [] in
    record {
      base = λ d. (omega (arith, lcs-nil (b ∷ bs)), omega (arith, lcs-nil (d ∷ b ∷ bs)));
      candidate = λ c. candidate_step bs [] b c g (g.candidate c).1;
    }
lcs-Grows (b ∷ bs) (c ∷ cs) =
    let shorter = lcs-Grows (b ∷ bs) cs in
    let fewer = lcs-Grows bs (c ∷ cs) in
    record {
      base = λ d. base_step (b ∷ bs) cs d c shorter (shorter.base d).1;
      candidate = λ d. candidate_step bs (c ∷ cs) b d fewer (fewer.candidate d).1;
    }

-- No common subsequence is longer.
pub Common-le-lcs : {n : ℕ} {bs cs : List Text} → Common n bs cs → n ≤ lcs bs cs
Common-le-lcs nothing = omega arith
Common-le-lcs (both {bs = bs} {cs = cs} t w) =
    omega (arith, Common-le-lcs w, lcs_same t t bs cs (===_refl t))
Common-le-lcs (skip_base {bs = bs} {cs = cs} t w) =
    omega (arith, Common-le-lcs w, (lcs-Grows bs cs).base t)
Common-le-lcs (skip_candidate {bs = bs} {cs = cs} t w) =
    omega (arith, Common-le-lcs w, (lcs-Grows bs cs).candidate t)

pub lcs-le-length : (bs cs : List Text) → (lcs bs cs ≤ length bs) × (lcs bs cs ≤ length cs)
lcs-le-length [] cs = (omega (arith, lcs-nil_left cs), omega (arith, lcs-nil_left cs))
lcs-le-length (b ∷ bs) [] = (omega (arith, lcs-nil (b ∷ bs)), omega (arith, lcs-nil (b ∷ bs)))
lcs-le-length (b ∷ bs) (c ∷ cs) =
    let (p, q) = lcs-le-length bs cs in
    let g = lcs-Grows bs cs in
    let h = lcs-Grows (b ∷ bs) cs in
    let k = lcs-Grows bs (c ∷ cs) in
    (
      omega (arith, p, q, (k.base b).1, (lcs-le-length bs (c ∷ cs)).0),
      omega (arith, p, q, (h.candidate c).1, (lcs-le-length (b ∷ bs) cs).1),
    )
