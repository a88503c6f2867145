-- ===== src/GitOps/Diff/Hunks.antt =====
-- What the shown diff leaves out: backend/handlers/gitops_engine.go.
use commitkube.Base.{
  ℕ, zero, suc, ◌+◌, ◌-◌, ◌*◌, ◌≤◌, ◌<◌, ◌≡◌, refl, ap, ◌∙◌, String, Bool, true, false, List, [],
  ◌∷◌, if◌then◌else◌, arith, length,
}
use commitkube.GitOps.Diff.{
  Op, same, gone, added, is_change, walk, set_range, mark_from, all_false, Piece, gap, too_large,
  shown, render, hunks, unified_diff,
}

-- keep[i], false out of range.
abbrev marked : List Bool → ℕ → Bool
marked [] i = false
marked (b ∷ bs) zero = b
marked (b ∷ bs) (suc i) = marked bs i

length-set_range : (lo hi i : ℕ) (bs : List Bool) → length (set_range lo hi i bs) ≡ length bs
unfolding set_range
length-set_range lo hi i [] = refl
length-set_range lo hi i (b ∷ bs) = ap suc (length-set_range lo hi (suc i) bs)

marked-set_range_keeps :
    (lo hi i : ℕ) (bs : List Bool) (j : ℕ)
    → marked bs j ≡ true
    → marked (set_range lo hi i bs) j ≡ true
unfolding set_range
marked-set_range_keeps lo hi i [] j h = h
marked-set_range_keeps lo hi i (b ∷ bs) zero h = ground arith
marked-set_range_keeps lo hi i (b ∷ bs) (suc j) h = marked-set_range_keeps lo hi (suc i) bs j h

marked-set_range_sets :
    (lo hi i : ℕ) (bs : List Bool) (j : ℕ)
    → lo ≤ i + j
    → i + j ≤ hi
    → j < length bs
    → marked (set_range lo hi i bs) j ≡ true
unfolding set_range
marked-set_range_sets lo hi i [] j a b c = absurd (omega arith)
marked-set_range_sets lo hi i (x ∷ bs) zero a b c = ground arith
marked-set_range_sets lo hi i (x ∷ bs) (suc j) a b c =
    marked-set_range_sets lo hi (suc i) bs j (omega arith) (omega arith) (omega arith)

-- The marks of one round.
abbrev round : ℕ → Op → ℕ → List Bool → List Bool
round context o k keep = if is_change o then set_range (k - context) (k + context) 0 keep else keep

length-round : (c : ℕ) (o : Op) (k : ℕ) (keep : List Bool) → length (round c o k keep) ≡ length keep
length-round c o k keep = ground (arith, length-set_range (k - c) (k + c) 0 keep)

marked-mark_from_keeps :
    (c : ℕ) (ops : List Op) (k : ℕ) (keep : List Bool) (j : ℕ)
    → marked keep j ≡ true
    → marked (mark_from c ops k keep) j ≡ true
unfolding mark_from
marked-mark_from_keeps c [] k keep j h = h
marked-mark_from_keeps c (o ∷ ops) k keep j h =
    marked-mark_from_keeps c ops (suc k) (round c o k keep) j
      (ground (arith, marked-set_range_keeps (k - c) (k + c) 0 keep j))

-- The mark of every changed line, from index `k` of the marks on.
abbrev Covers : List Op → ℕ → List Bool → Type 0
Covers [] k keep = Unit
Covers (o ∷ ops) k keep = (is_change o ≡ true → marked keep k ≡ true) × Covers ops (suc k) keep

mark_from-Covers :
    (c : ℕ) (ops : List Op) (k : ℕ) (keep : List Bool)
    → k + length ops ≤ length keep
    → Covers ops k (mark_from c ops k keep)
unfolding mark_from
mark_from-Covers c [] k keep h = tt
mark_from-Covers c (o ∷ ops) k keep h = (
  λ ch.
      marked-mark_from_keeps c ops (suc k) (round c o k keep) k
        (ground (arith, marked-set_range_sets (k - c) (k + c) 0 keep k)),
  mark_from-Covers c ops (suc k) (round c o k keep) (omega (arith, length-round c o k keep)),
)

Covers-shift :
    (ops : List Op) (k : ℕ) (b : Bool) (keep : List Bool)
    → Covers ops (suc k) (b ∷ keep)
    → Covers ops k keep
Covers-shift [] k b keep h = tt
Covers-shift (o ∷ ops) k b keep h = (h.0, Covers-shift ops (suc k) b keep h.1)

-- The changed lines of a script, and of what is shown.
unfoldable pub changes : List Op → List Op
changes [] = []
changes (same l ∷ ops) = changes ops
changes (gone l ∷ ops) = gone l ∷ changes ops
changes (added l ∷ ops) = added l ∷ changes ops

unfoldable pub shown_changes : List Piece → List Op
shown_changes [] = []
shown_changes (gap ∷ ps) = shown_changes ps
shown_changes (too_large ∷ ps) = shown_changes ps
shown_changes (shown (same l) ∷ ps) = shown_changes ps
shown_changes (shown (gone l) ∷ ps) = gone l ∷ shown_changes ps
shown_changes (shown (added l) ∷ ps) = added l ∷ shown_changes ps

shown_changes-render :
    (s : Bool) (ops : List Op) (keep : List Bool)
    → length ops ≤ length keep
    → Covers ops 0 keep
    → shown_changes (render s ops keep) ≡ changes ops
unfolding shown_changes changes render
shown_changes-render s [] keep n h = refl
shown_changes-render s (o ∷ ops) [] n h = absurd (omega arith)
shown_changes-render s (same l ∷ ops) (false ∷ keep) n h =
    shown_changes-render true ops keep (omega arith) (Covers-shift ops 0 false keep h.1)
shown_changes-render s (gone l ∷ ops) (false ∷ keep) n h = cc (h.0 refl)
shown_changes-render s (added l ∷ ops) (false ∷ keep) n h = cc (h.0 refl)
shown_changes-render true (o ∷ ops) (true ∷ keep) n h =
    ground
      (arith, shown_changes-render false ops keep (omega arith) (Covers-shift ops 0 true keep h.1))
shown_changes-render false (o ∷ ops) (true ∷ keep) n h =
    ground
      (arith, shown_changes-render false ops keep (omega arith) (Covers-shift ops 0 true keep h.1))

length-all_false : (ops : List Op) → length (all_false ops) ≡ length ops
unfolding all_false
length-all_false [] = refl
length-all_false (o ∷ ops) = ap suc (length-all_false ops)

length-mark_from :
    (c : ℕ) (ops : List Op) (k : ℕ) (keep : List Bool)
    → length (mark_from c ops k keep) ≡ length keep
unfolding mark_from
length-mark_from c [] k keep = refl
length-mark_from c (o ∷ ops) k keep =
    length-mark_from c ops (suc k) (round c o k keep) ∙ length-round c o k keep

-- Whatever the context, a diff that is not too large shows every changed line, in order.
pub unified_diff-shows_changes :
    (xs ys : List String) (context : ℕ)
    → length xs * length ys ≤ 4000000
    → shown_changes (unified_diff xs ys context) ≡ changes (walk xs ys)
unfolding unified_diff hunks
unified_diff-shows_changes xs ys context small =
    let ops = walk xs ys in
    let blank = all_false ops in
    ground (
      arith,
      shown_changes-render false ops (mark_from context ops 0 blank)
          (omega (arith, length-mark_from context ops 0 blank, length-all_false ops))
          (mark_from-Covers context ops 0 blank (omega (arith, length-all_false ops))),
    )
