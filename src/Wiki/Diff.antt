-- ===== src/Wiki/Diff.antt =====
-- `diffLines` of packages/wiki/src/index.ts: the lines that a proposal removes, adds and leaves. The
-- matrix is the list of its rows, and its cells are sixteen bits wide; a read outside it gives 0.
pub mod Subsequences
pub mod Table
pub mod Laws
use wknowledge.Base.{
  ℕ, zero, suc, ◌+◌, ◌*◌, ◌%◌, ◌^◌, max, Text, trim, split_lines, Bool, true, false, Option, none,
  some, List, [], ◌∷◌, ◌++◌, ◌===◌, ltb, leb, if◌then◌else◌, length, replicate,
}

pub data LineType : Type 0 where
  unchanged added removed : LineType

pub record DiffLine : Type 0 where
  pub type : LineType
  pub text : Text
  pub base_line : Option ℕ
  pub candidate_line : Option ℕ

abbrev pub unchanged_line : Text → ℕ → ℕ → DiffLine
unchanged_line text i j = record {
  type = unchanged;
  text = text;
  base_line = some (i + 1);
  candidate_line = some (j + 1);
}

abbrev pub added_line : Text → ℕ → DiffLine
added_line text j = record {
  type = added;
  text = text;
  base_line = none;
  candidate_line = some (j + 1);
}

abbrev pub removed_line : Text → ℕ → DiffLine
removed_line text i = record {
  type = removed;
  text = text;
  base_line = some (i + 1);
  candidate_line = none;
}

-- A cell of a row, and a row of the matrix.
abbrev pub cell : List ℕ → ℕ → ℕ
cell [] j = 0
cell (x ∷ xs) zero = x
cell (x ∷ xs) (suc j) = cell xs j

abbrev pub row : List (List ℕ) → ℕ → List ℕ
row [] i = []
row (r ∷ rs) zero = r
row (r ∷ rs) (suc i) = row rs i

abbrev pub tail : List ℕ → List ℕ
tail [] = []
tail (x ∷ xs) = xs

-- The inner loop, from the last candidate line to the first: the row of a base line over the row
-- below it.
unfoldable pub fill_row : Text → List Text → List ℕ → List ℕ
fill_row line [] below = 0 ∷ []
fill_row line (c ∷ cs) below =
    let rest = fill_row line cs (tail below) in
    (if line === c then (cell below 1 + 1) % 2 ^ 16 else max (cell below 0) (cell rest 0)) ∷ rest

-- The outer loop, from the last base line to the first.
unfoldable pub fill_matrix : List Text → List Text → List (List ℕ)
unfolding fill_row
fill_matrix [] candidate = replicate (length candidate + 1) 0 ∷ []
fill_matrix (b ∷ bs) candidate =
    let below = fill_matrix bs candidate in fill_row b candidate (row below 0) ∷ below

-- The walk from the indices `i` and `j`, with the lines that are left from there on.
unfoldable pub walk : List (List ℕ) → List Text → List Text → (i j : ℕ) → List DiffLine
walk matrix [] [] i j = []
walk matrix [] (c ∷ cs) i j = added_line c j ∷ walk matrix [] cs i (j + 1)
walk matrix (b ∷ bs) [] i j = removed_line b i ∷ walk matrix bs [] (i + 1) j
walk matrix (b ∷ bs) (c ∷ cs) i j = elim (b === c) [
  | true ↦ unchanged_line b i j ∷ walk matrix bs cs (i + 1) (j + 1)
  | false ↦ elim (leb (cell (row matrix (i + 1)) j) (cell (row matrix i) (j + 1))) [
    | true ↦ added_line c j ∷ walk matrix (b ∷ bs) cs i (j + 1)
    | false ↦ removed_line b i ∷ walk matrix bs (c ∷ cs) (i + 1) j
  ]
]

unfoldable pub remove_all : List Text → ℕ → List DiffLine
remove_all [] i = []
remove_all (b ∷ bs) i = removed_line b i ∷ remove_all bs (i + 1)

unfoldable pub add_all : List Text → ℕ → List DiffLine
add_all [] j = []
add_all (c ∷ cs) j = added_line c j ∷ add_all cs (j + 1)

abbrev pub max_cells : ℕ
max_cells = 500000

abbrev pub content_lines : Text → List Text
content_lines content = split_lines (trim content)

unfoldable pub diff_of : List Text → List Text → List DiffLine
unfolding fill_matrix walk remove_all add_all
diff_of base candidate =
    if ltb max_cells ((length base + 1) * (length candidate + 1))
    then remove_all base 0 ++ add_all candidate 0
    else walk (fill_matrix base candidate) base candidate 0 0

unfoldable pub diff_lines : Text → Text → List DiffLine
unfolding diff_of
diff_lines base_content candidate_content =
    diff_of (content_lines base_content) (content_lines candidate_content)
