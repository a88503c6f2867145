-- ===== src/GitOps/Diff/Script.antt =====
-- The diff of backend/handlers/gitops_engine.go reads back to both texts.
use commitkube.Base.{◌≡◌, refl, ap, String, List, [], ◌∷◌, arith, eq_iff}
use commitkube.GitOps.Diff.{Op, same, gone, added, all_added, walk}

-- The lines of the text before, and of the text after.
unfoldable pub before : List Op → List String
before [] = []
before (same l ∷ ops) = l ∷ before ops
before (gone l ∷ ops) = l ∷ before ops
before (added l ∷ ops) = before ops

unfoldable pub after : List Op → List String
after [] = []
after (same l ∷ ops) = l ∷ after ops
after (gone l ∷ ops) = after ops
after (added l ∷ ops) = l ∷ after ops

before-all_added : (ys : List String) → before (all_added ys) ≡ []
unfolding before all_added
before-all_added [] = refl
before-all_added (y ∷ ys) = before-all_added ys

after-all_added : (ys : List String) → after (all_added ys) ≡ ys
unfolding after all_added
after-all_added [] = refl
after-all_added (y ∷ ys) = ap (◌∷◌ y) (after-all_added ys)

before-walk : (xs ys : List String) → before (walk xs ys) ≡ xs
unfolding before walk
before-walk [] ys = before-all_added ys
before-walk (x ∷ xs) [] = ap (◌∷◌ x) (before-walk xs [])
before-walk (x ∷ xs) (y ∷ ys) =
    ground (arith, before-walk xs ys, before-walk xs (y ∷ ys), before-walk (x ∷ xs) ys)

after-walk : (xs ys : List String) → after (walk xs ys) ≡ ys
unfolding after walk
after-walk [] ys = after-all_added ys
after-walk (x ∷ xs) [] = after-walk xs []
after-walk (x ∷ xs) (y ∷ ys) =
    ground (arith, eq_iff x y, after-walk xs ys, after-walk xs (y ∷ ys), after-walk (x ∷ xs) ys)

-- The diff loses no line of either text, and invents none: its kept and removed lines are the
-- first text, its kept and added lines the second.
pub walk-texts : (xs ys : List String) → (before (walk xs ys) ≡ xs) × (after (walk xs ys) ≡ ys)
walk-texts xs ys = (before-walk xs ys, after-walk xs ys)
