-- ===== src/GitOps/Diff/Optimal.antt =====
-- The diff of backend/handlers/gitops_engine.go keeps as many lines as any diff can.
use commitkube.Base.{
  ◌∙◌, ap, ℕ, ◌+◌, ◌≤◌, ◌≡◌, refl, String, true, false, List, [], ◌∷◌, leb, ◌=s◌, arith, eq_iff,
}
use commitkube.GitOps.Diff.{
  Op, same, gone, added, cell, head_or_zero, fill_row, zeros, table_row, all_added, walk,
}
use commitkube.GitOps.Diff.Script.{before, after}

-- The length of a longest common subsequence, by its recurrence.
unfoldable pub common : List String → List String → ℕ
common [] ys = 0
common (x ∷ xs) [] = 0
common (x ∷ xs) (y ∷ ys) = elim (x =s y) [
  | true ↦ common xs ys + 1
  | false ↦ elim (leb (common (x ∷ xs) ys) (common xs (y ∷ ys))) [
    | true ↦ common xs (y ∷ ys)
    | false ↦ common (x ∷ xs) ys
  ]
]

-- A row of the table holds the recurrence at every suffix of the second text.
abbrev suffix_values : List String → List String → List ℕ
suffix_values xs [] = common xs [] ∷ []
suffix_values xs (y ∷ ys) = common xs (y ∷ ys) ∷ suffix_values xs ys

head-suffix_values : (xs ys : List String) → head_or_zero (suffix_values xs ys) ≡ common xs ys
head-suffix_values xs [] = refl
head-suffix_values xs (y ∷ ys) = refl

zeros-suffix_values : (ys : List String) → zeros ys ≡ suffix_values [] ys
unfolding zeros common
zeros-suffix_values [] = refl
zeros-suffix_values (y ∷ ys) = ap (◌∷◌ 0) (zeros-suffix_values ys)

fill_row-suffix_values :
    (x : String) (xs ys : List String)
    → fill_row x ys (suffix_values xs ys) ≡ suffix_values (x ∷ xs) ys
unfolding fill_row common
fill_row-suffix_values x xs [] = refl
fill_row-suffix_values x xs (y ∷ ys) =
    rw (fill_row-suffix_values x xs ys)
      (ground (arith, head-suffix_values xs ys, head-suffix_values (x ∷ xs) ys))

table_row-suffix_values : (xs ys : List String) → table_row xs ys ≡ suffix_values xs ys
unfolding table_row
table_row-suffix_values [] ys = zeros-suffix_values ys
table_row-suffix_values (x ∷ xs) ys =
    rw (table_row-suffix_values xs ys) (fill_row-suffix_values x xs ys)

-- The table that the source fills holds the recurrence.
pub cell-common : (xs ys : List String) → cell xs ys ≡ common xs ys
cell-common xs ys = rw (table_row-suffix_values xs ys) (head-suffix_values xs ys)

-- The lines that a diff leaves in place.
unfoldable pub kept_lines : List Op → ℕ
kept_lines [] = 0
kept_lines (same l ∷ ops) = kept_lines ops + 1
kept_lines (gone l ∷ ops) = kept_lines ops
kept_lines (added l ∷ ops) = kept_lines ops

kept_lines-all_added : (ys : List String) → kept_lines (all_added ys) ≡ 0
unfolding kept_lines all_added
kept_lines-all_added [] = refl
kept_lines-all_added (y ∷ ys) = kept_lines-all_added ys

common-nil : (xs : List String) → common xs [] ≡ 0
unfolding common
common-nil [] = refl
common-nil (x ∷ xs) = refl

kept_lines-walk : (xs ys : List String) → kept_lines (walk xs ys) ≡ common xs ys
unfolding kept_lines walk common
kept_lines-walk [] ys = kept_lines-all_added ys
kept_lines-walk (x ∷ xs) [] = kept_lines-walk xs [] ∙ common-nil xs
kept_lines-walk (x ∷ xs) (y ∷ ys) = ground (
  arith,
  cell-common (x ∷ xs) ys,
  cell-common xs (y ∷ ys),
  kept_lines-walk xs ys,
  kept_lines-walk xs (y ∷ ys),
  kept_lines-walk (x ∷ xs) ys,
)

-- One line more on either side adds one at most, and never takes away.
common-cons_right :
    (xs : List String) (y : String) (ys : List String)
    → (common xs ys ≤ common xs (y ∷ ys)) × (common xs (y ∷ ys) ≤ common xs ys + 1)
unfolding common
common-cons_right [] y ys = omega arith
common-cons_right (x ∷ xs) y [] = ground (arith, common-nil xs, common-cons_right xs y [])
common-cons_right (x ∷ xs) y (z ∷ zs) = ground (
  arith,
  common-cons_right xs y (z ∷ zs),
  common-cons_right xs z zs,
  common-cons_right (x ∷ xs) y zs,
  common-cons_right (x ∷ xs) z zs,
)

common-cons_left :
    (x : String) (xs ys : List String)
    → (common xs ys ≤ common (x ∷ xs) ys) × (common (x ∷ xs) ys ≤ common xs ys + 1)
unfolding common
common-cons_left x xs [] = ground (arith, common-nil xs)
common-cons_left x xs (y ∷ ys) = ground (arith, common-cons_right xs y ys, common-cons_left x xs ys)

kept_lines-le-common : (ops : List Op) → kept_lines ops ≤ common (before ops) (after ops)
unfolding kept_lines before after common
kept_lines-le-common [] = omega arith
kept_lines-le-common (same l ∷ ops) = ground (arith, eq_iff l l, kept_lines-le-common ops)
kept_lines-le-common (gone l ∷ ops) =
    omega (arith, kept_lines-le-common ops, common-cons_left l (before ops) (after ops))
kept_lines-le-common (added l ∷ ops) =
    omega (arith, kept_lines-le-common ops, common-cons_right (before ops) l (after ops))

-- No script between the two texts keeps more lines than the diff that the table gives.
pub walk-optimal :
    (xs ys : List String) (ops : List Op)
    → before ops ≡ xs
    → after ops ≡ ys
    → kept_lines ops ≤ kept_lines (walk xs ys)
walk-optimal xs ys ops b a = rw (kept_lines-walk xs ys) (rw (← b, ← a) (kept_lines-le-common ops))
