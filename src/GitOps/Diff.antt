-- ===== src/GitOps/Diff.antt =====
-- `unifiedDiff` of backend/handlers/gitops_engine.go, on texts that are split into lines. The index
-- pair (i, j) of the source is the pair of the suffixes that begin there.
pub mod Script
pub mod Optimal
pub mod Hunks
use commitkube.Base.{
  ℕ, zero, suc, ◌+◌, ◌*◌, ◌-◌, String, Bool, true, false, ◌&&◌, ◌||◌, List, [], ◌∷◌, ◌++◌, map, ltb,
  leb, ◌=s◌, if◌then◌else◌, length,
}

pub data Op : Type 0 where
  same gone added : String → Op

abbrev pub head_or_zero : List ℕ → ℕ
head_or_zero [] = 0
head_or_zero (n ∷ ns) = n

abbrev pub rest_of : List ℕ → List ℕ
rest_of [] = []
rest_of (n ∷ ns) = ns

-- Row i of the table from row i+1, its cells from right to left.
unfoldable pub fill_row : String → List String → List ℕ → List ℕ
fill_row x [] under = 0 ∷ []
fill_row x (y ∷ ys) under =
    let right = fill_row x ys (rest_of under) in
    (if x =s y
      then head_or_zero (rest_of under) + 1
      else if leb (head_or_zero right) (head_or_zero under)
      then head_or_zero under
      else head_or_zero right)
    ∷ right

unfoldable pub zeros : List String → List ℕ
zeros [] = 0 ∷ []
zeros (y ∷ ys) = 0 ∷ zeros ys

-- The row of the table at a suffix of `x`; the last row is all zeros.
unfoldable pub table_row : List String → List String → List ℕ
unfolding fill_row zeros
table_row [] ys = zeros ys
table_row (x ∷ xs) ys = fill_row x ys (table_row xs ys)

-- `lcs[i][j]`
abbrev pub cell : List String → List String → ℕ
cell xs ys = head_or_zero (table_row xs ys)

unfoldable pub all_added : List String → List Op
all_added [] = []
all_added (y ∷ ys) = added y ∷ all_added ys

-- The three loops that walk the table.
unfoldable pub walk : List String → List String → List Op
walk [] ys = all_added ys
walk (x ∷ xs) [] = gone x ∷ walk xs []
walk (x ∷ xs) (y ∷ ys) = elim (x =s y) [
  | true ↦ same x ∷ walk xs ys
  | false ↦ elim (leb (cell (x ∷ xs) ys) (cell xs (y ∷ ys))) [
    | true ↦ gone x ∷ walk xs (y ∷ ys)
    | false ↦ added y ∷ walk (x ∷ xs) ys
  ]
]

abbrev pub is_change : Op → Bool
is_change (same l) = false
is_change _ = true

-- `keep[i] = true` for lo ≤ i ≤ hi, as far as the list goes; `i` is the index of the head.
unfoldable pub set_range : ℕ → ℕ → ℕ → List Bool → List Bool
set_range lo hi i [] = []
set_range lo hi i (b ∷ bs) = (b || leb lo i && leb i hi) ∷ set_range lo hi (suc i) bs

-- The loop that keeps changed lines and their context; `k` is the index of the head.
unfoldable pub mark_from : ℕ → List Op → ℕ → List Bool → List Bool
unfolding set_range
mark_from context [] k keep = keep
mark_from context (o ∷ ops) k keep =
    mark_from context ops (suc k)
      (if is_change o then set_range (k - context) (k + context) 0 keep else keep)

unfoldable pub all_false : List Op → List Bool
all_false [] = []
all_false (o ∷ ops) = false ∷ all_false ops

-- What the diff shows: a line with its mark, or the sign for a skipped run.
pub data Piece : Type 0 where
  gap too_large : Piece
  shown : Op → Piece

-- The last loop; `skipped` is its variable.
unfoldable pub render : Bool → List Op → List Bool → List Piece
render skipped [] keep = []
render skipped (o ∷ ops) [] = []
render skipped (o ∷ ops) (false ∷ keep) = render true ops keep
render skipped (o ∷ ops) (true ∷ keep) =
    let rest = shown o ∷ render false ops keep in if skipped then gap ∷ rest else rest

unfoldable pub hunks : ℕ → List Op → List Piece
unfolding mark_from render all_false
hunks context ops = render false ops (mark_from context ops 0 (all_false ops))

unfoldable pub unified_diff : List String → List String → ℕ → List Piece
unified_diff xs ys context =
    if ltb 4000000 (length xs * length ys) then too_large ∷ [] else hunks context (walk xs ys)
