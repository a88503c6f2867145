-- ===== src/Iam/Resolution.antt =====
-- How grants resolve: backend/handlers/iam.go.
use commitkube.Base.{
  ℕ, ◌≡◌, ◌≢◌, refl, sym, ap, =s_ne, String, Bool, true, false, not, ◌||◌, Option, none, some, List,
  [], ◌∷◌, ◌=s◌, if◌then◌else◌, any_where, select_where, arith,
}
use commitkube.Iam.Policy.{
  Grant, Policy, Held, write, write_all, apply_grants, is_user_row, is_group_row, permissions_for,
  role_permissions, perm_self, perm_iam_manage,
}

-- Whether `p` is one of the words.
abbrev pub listed : String → List String → Bool
listed p = any_where (λ known. known =s p)

-- The decision of the last row that names the permission.
unfoldable pub last_decision : String → List Grant → Option Bool
last_decision q [] = none
last_decision q (g ∷ gs) = elim (last_decision q gs) [
  | some b ↦ some b
  | none ↦ if g.permission =s q then some (not g.denied) else none
]

abbrev pub or_else {ℓ} : {A : Type ℓ} → Option A → A → A
or_else none d = d
or_else (some a) d = a

apply_grants-last_decision :
    (gs : List Grant) (held : Held) (q : String)
    → apply_grants gs held q ≡ or_else (last_decision q gs) (held q)
unfolding apply_grants last_decision
apply_grants-last_decision [] held q = refl
apply_grants-last_decision (g ∷ gs) held q =
    ground (arith, apply_grants-last_decision gs (write g.permission (not g.denied) held) q)

write_all-listed :
    (ps : List String) (held : Held) (q : String) → write_all ps held q ≡ (listed q ps || held q)
unfolding write_all any_where
write_all-listed [] held q = refl
write_all-listed (p ∷ ps) held q = ground (arith, write_all-listed ps (write p true held) q)

-- The rows that decide about a user: his own, and those of his groups.
abbrev pub own_rows : Policy → ℕ → List Grant
own_rows p uid = select_where (λ g. is_user_row uid g.subject_type g.subject_id) p.grants

abbrev pub group_rows : Policy → ℕ → List Grant
group_rows p uid =
    select_where (λ g. is_group_row uid p.members g.subject_type g.subject_id) p.grants

-- Editing the policy is the root role's alone, whatever rows the table holds.
pub permissions_for-iam_manage :
    (p : Policy) (uid : ℕ) (role : String)
    → permissions_for p uid role perm_iam_manage ≡ (role =s "root")
unfolding permissions_for
permissions_for-iam_manage p uid role = refl

-- For any permission but iam.manage the last of the rows of the user himself decides, then the
-- last row of his groups, and where no row names the permission, the bundle of the role and self.
pub permissions_for-resolves :
    (p : Policy) (uid : ℕ) (role q : String)
    → q ≢ perm_iam_manage
    → permissions_for p uid role q
      ≡ or_else (last_decision q (own_rows p uid)) (
          or_else
            (last_decision q (group_rows p uid))
            (listed q (role_permissions role) || perm_self =s q))
unfolding permissions_for
permissions_for-resolves p uid role q n = rw (=s_ne perm_iam_manage q (λ e. n (sym e))) (
    simp (apply_grants-last_decision, write_all-listed)
      (ap
        (λ b.
          or_else (last_decision q (own_rows p uid))
            (or_else (last_decision q (group_rows p uid)) (listed q (role_permissions role) || b)))
        (if_self (perm_self =s q))))
  where
    if_self : (b : Bool) → (if b then true else false) ≡ b
    if_self true = refl
    if_self false = refl
