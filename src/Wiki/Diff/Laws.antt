-- ===== src/Wiki/Diff/Laws.antt =====
-- What a diff says of the two texts that it compares.
use wknowledge.Base.{
  ℕ, suc, ◌+◌, ◌*◌, ◌≤◌, ◌≡◌, refl, sym, ap, ◌∙◌, Text, trim, join_lines, join_lines-split_lines,
  true, false, none, some, List, [], ◌∷◌, ◌++◌, ◌===◌, ===_sound, ltb, leb, arith, Bool-cases, inl,
  inr, length, drop,
}
use wknowledge.Wiki.Diff.{
  unchanged, added, removed, DiffLine, cell, row, walk, remove_all, add_all, max_cells,
  content_lines, diff_of, diff_lines, fill_matrix,
}
use wknowledge.Wiki.Diff.Subsequences.{Common, lcs, lcs-nil, lcs_same, lcs_apart, Common-le-lcs}
use wknowledge.Wiki.Diff.Table.{fill_matrix-cell, admitted-IsSmall}

-- The lines that a diff shows of the base, and of the candidate.
abbrev pub base_of : List DiffLine → List Text
base_of [] = []
base_of (d ∷ ds) = elim d.type [ added ↦ base_of ds | _ ↦ d.text ∷ base_of ds ]

abbrev pub candidate_of : List DiffLine → List Text
candidate_of [] = []
candidate_of (d ∷ ds) = elim d.type [ removed ↦ candidate_of ds | _ ↦ d.text ∷ candidate_of ds ]

abbrev pub count_unchanged : List DiffLine → ℕ
count_unchanged [] = 0
count_unchanged (d ∷ ds) = elim d.type [
  | unchanged ↦ suc (count_unchanged ds)
  | _ ↦ count_unchanged ds
]

-- The numbers of the lines run on from `i` and `j`, each on the side that the line is of.
abbrev pub IsNumbered : ℕ → ℕ → List DiffLine → Type 0
IsNumbered i j [] = Unit
IsNumbered i j (d ∷ ds) = elim d.type [
  | unchanged ↦
      (d.base_line ≡ some (i + 1))
      × (d.candidate_line ≡ some (j + 1))
      × IsNumbered (i + 1) (j + 1) ds
  | added ↦ (d.base_line ≡ none) × (d.candidate_line ≡ some (j + 1)) × IsNumbered i (j + 1) ds
  | removed ↦ (d.base_line ≡ some (i + 1)) × (d.candidate_line ≡ none) × IsNumbered (i + 1) j ds
]

-- A diff shows these lines of the base and of the candidate, numbered from `i` and `j`.
pub record Shows (bs cs : List Text) (i j : ℕ) (ds : List DiffLine) : Type 0 where
  pub base : base_of ds ≡ bs
  pub candidate : candidate_of ds ≡ cs
  pub numbers : IsNumbered i j ds

walk-Shows : (m : List (List ℕ)) (bs cs : List Text) (i j : ℕ) → Shows bs cs i j (walk m bs cs i j)
unfolding walk
walk-Shows m [] [] i j = record { base = refl; candidate = refl; numbers = tt }
walk-Shows m [] (c ∷ cs) i j =
    let w = walk-Shows m [] cs i (j + 1) in
    record {
      base = w.base;
      candidate = ap (λ l. c ∷ l) w.candidate;
      numbers = (refl, refl, w.numbers);
    }
walk-Shows m (b ∷ bs) [] i j =
    let w = walk-Shows m bs [] (i + 1) j in
    record {
      base = ap (λ l. b ∷ l) w.base;
      candidate = w.candidate;
      numbers = (refl, refl, w.numbers);
    }
walk-Shows m (b ∷ bs) (c ∷ cs) i j = elim (Bool-cases (b === c)) [
  | inl same ↦
      let w = walk-Shows m bs cs (i + 1) (j + 1) in
      rw (walk, same)
        (record {
          base = ap (λ l. b ∷ l) w.base;
          candidate = λ k. ===_sound b c same k ∷ w.candidate k;
          numbers = (refl, refl, w.numbers);
        })
  | inr apart ↦ elim (Bool-cases (leb (cell (row m (i + 1)) j) (cell (row m i) (j + 1)))) [
    | inl add ↦
        let w = walk-Shows m (b ∷ bs) cs i (j + 1) in
        rw (walk, apart, add)
          (record {
            base = w.base;
            candidate = ap (λ l. c ∷ l) w.candidate;
            numbers = (refl, refl, w.numbers);
          })
    | inr remove ↦
        let w = walk-Shows m bs (c ∷ cs) (i + 1) j in
        rw (walk, apart, remove)
          (record {
            base = ap (λ l. b ∷ l) w.base;
            candidate = w.candidate;
            numbers = (refl, refl, w.numbers);
          })
  ]
]

add_all-Shows : (cs : List Text) (i j : ℕ) → Shows [] cs i j (add_all cs j)
unfolding add_all
add_all-Shows [] i j = record { base = refl; candidate = refl; numbers = tt }
add_all-Shows (c ∷ cs) i j =
    let w = add_all-Shows cs i (j + 1) in
    record {
      base = w.base;
      candidate = ap (λ l. c ∷ l) w.candidate;
      numbers = (refl, refl, w.numbers);
    }

replace_all-Shows :
    (bs cs : List Text) (i j : ℕ) → Shows bs cs i j (remove_all bs i ++ add_all cs j)
unfolding remove_all
replace_all-Shows [] cs i j = add_all-Shows cs i j
replace_all-Shows (b ∷ bs) cs i j =
    let w = replace_all-Shows bs cs (i + 1) j in
    record {
      base = ap (λ l. b ∷ l) w.base;
      candidate = w.candidate;
      numbers = (refl, refl, w.numbers);
    }

diff_of-Shows : (bs cs : List Text) → Shows bs cs 0 0 (diff_of bs cs)
unfolding diff_of
diff_of-Shows bs cs = elim (Bool-cases (ltb max_cells ((length bs + 1) * (length cs + 1)))) [
  | inl large ↦ rw large (replace_all-Shows bs cs 0 0)
  | inr small ↦ rw small (walk-Shows (fill_matrix bs cs) bs cs 0 0)
]

-- A diff can be read back on either side: its lines other than the added ones, joined, are the trimmed
-- base text, and those other than the removed ones the trimmed candidate; each line bears its number in
-- the text that it is of, from 1 on and without a gap.
pub diff_lines_reads_back :
    (base candidate : Text)
    → (join_lines (base_of (diff_lines base candidate)) ≡ trim base)
      × (join_lines (candidate_of (diff_lines base candidate)) ≡ trim candidate)
      × IsNumbered 0 0 (diff_lines base candidate)
unfolding diff_lines
diff_lines_reads_back base candidate =
    let shown = diff_of-Shows (content_lines base) (content_lines candidate) in
    (
      ap join_lines shown.base ∙ join_lines-split_lines (trim base),
      ap join_lines shown.candidate ∙ join_lines-split_lines (trim candidate),
      shown.numbers,
    )

-- The matrix at `i` and `j` and beyond is that of these lines.
abbrev IsTable : List (List ℕ) → List Text → List Text → ℕ → ℕ → Type 0
IsTable m bs cs i j = (p q : ℕ) → cell (row m (i + p)) (j + q) ≡ lcs (drop p bs) (drop q cs)

down :
    (m : List (List ℕ)) (b : Text) (bs cs : List Text) (i j : ℕ)
    → IsTable m (b ∷ bs) cs i j
    → IsTable m bs cs (i + 1) j
down m b bs cs i j t p q =
    let e : i + 1 + p ≡ i + suc p = omega arith in ap (λ n. cell (row m n) (j + q)) e ∙ t (suc p) q

across :
    (m : List (List ℕ)) (c : Text) (bs cs : List Text) (i j : ℕ)
    → IsTable m bs (c ∷ cs) i j
    → IsTable m bs cs i (j + 1)
across m c bs cs i j t p q =
    let e : j + 1 + q ≡ j + suc q = omega arith in ap (λ n. cell (row m (i + p)) n) e ∙ t p (suc q)

walk-lcs :
    (m : List (List ℕ)) (bs cs : List Text) (i j : ℕ)
    → IsTable m bs cs i j
    → count_unchanged (walk m bs cs i j) ≡ lcs bs cs
unfolding walk
walk-lcs m [] [] i j t = sym (lcs-nil [])
walk-lcs m [] (c ∷ cs) i j t =
    walk-lcs m [] cs i (j + 1) (across m c [] cs i j t) ∙ unfold lcs in refl
walk-lcs m (b ∷ bs) [] i j t =
    walk-lcs m bs [] (i + 1) j (down m b bs [] i j t) ∙ lcs-nil bs ∙ sym (lcs-nil (b ∷ bs))
walk-lcs m (b ∷ bs) (c ∷ cs) i j t = elim (Bool-cases (b === c)) [
  | inl same ↦
      rw (walk, same)
        (ap suc (
            walk-lcs m bs cs (i + 1) (j + 1)
              (across m c bs cs (i + 1) j (down m b bs (c ∷ cs) i j t)))
          ∙ sym (lcs_same b c bs cs same))
  | inr apart ↦ elim (Bool-cases (leb (cell (row m (i + 1)) j) (cell (row m i) (j + 1)))) [
    | inl add ↦
        rw (walk, apart, add)
          (walk-lcs m (b ∷ bs) cs i (j + 1) (across m c (b ∷ bs) cs i j t) ∙ larger apart add)
    | inr remove ↦
        rw (walk, apart, remove)
          (walk-lcs m bs (c ∷ cs) (i + 1) j (down m b bs (c ∷ cs) i j t) ∙ other apart remove)
  ]
]
  where
    below : cell (row m (i + 1)) j ≡ lcs bs (c ∷ cs)
    below = let e : j ≡ j + 0 = omega arith in ap (λ n. cell (row m (i + 1)) n) e ∙ t 1 0

    right : cell (row m i) (j + 1) ≡ lcs (b ∷ bs) cs
    right = let e : i ≡ i + 0 = omega arith in ap (λ n. cell (row m n) (j + 1)) e ∙ t 0 1

    larger :
        (b === c) ≡ false
        → leb (cell (row m (i + 1)) j) (cell (row m i) (j + 1)) ≡ true
        → lcs (b ∷ bs) cs ≡ lcs (b ∷ bs) (c ∷ cs)
    larger apart add = ground (arith, below, right, lcs_apart b c bs cs apart)

    other :
        (b === c) ≡ false
        → leb (cell (row m (i + 1)) j) (cell (row m i) (j + 1)) ≡ false
        → lcs bs (c ∷ cs) ≡ lcs (b ∷ bs) (c ∷ cs)
    other apart remove = ground (arith, below, right, lcs_apart b c bs cs apart)

-- Where the matrix is of admitted size, no diff of the two texts leaves more lines unchanged: every
-- common subsequence of their lines is at most as long as the unchanged lines of this one.
pub diff_lines-le :
    (base candidate : Text) (n : ℕ)
    → (length (content_lines base) + 1) * (length (content_lines candidate) + 1) ≤ 500000
    → Common n (content_lines base) (content_lines candidate)
    → n ≤ count_unchanged (diff_lines base candidate)
unfolding diff_lines diff_of
diff_lines-le base candidate n admitted common =
    let bs = content_lines base in
    let cs = content_lines candidate in
    let small : ltb max_cells ((length bs + 1) * (length cs + 1)) ≡ false = ground arith in
    let table = fill_matrix-cell bs cs (admitted-IsSmall bs cs admitted) in
    let t : IsTable (fill_matrix bs cs) bs cs 0 0 = (λ p q.
      let e : 0 + p ≡ p = omega arith in
      let f : 0 + q ≡ q = omega arith in
      (λ k. cell (row (fill_matrix bs cs) (e k)) (f k)) ∙ table p q) in
    rw (small, walk-lcs (fill_matrix bs cs) bs cs 0 0 t) (Common-le-lcs common)
