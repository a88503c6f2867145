-- ===== src/Iam/Decides.antt =====
-- What one grant changes, and what it leaves alone: backend/handlers/iam.go.
use commitkube.Iam.Assigned.{
  IsUnique, assign_or_create-IsUnique, last_decision-assign_or_create,
  last_decision-assign_or_create_ne, group_rows-assign_or_create,
}
use commitkube.Base.{
  ◌∙◌, =s_true, ℕ, ◌≡◌, ◌≢◌, refl, sym, String, Bool, false, not, ◌=s◌, any_where,
  count_where-delete_where-le, arith, eq_iff, ◌⊎◌, ap, Bool-cases, inl, inr,
}
use mathlib.Core.Bool.{false≢true}
use native.Mathlib.Nat.{le_trans}
use commitkube.Iam.Policy.{user, Policy, permissions_for, perm_iam_manage}
use commitkube.Iam.Grants.{
  is_row, valid_permission, GrantRequest, created, subject_of, assign_or_create, grant_permission,
  revoke_permission,
}
use commitkube.Iam.Resolution.{permissions_for-resolves, permissions_for-iam_manage}

-- The unique index over subject and permission.
-- Granting keeps one row at most for each subject and permission.
pub grant_permission-IsUnique :
    (caller : ℕ) (req : GrantRequest) (p : Policy)
    → IsUnique p
    → IsUnique (grant_permission caller req p).0
unfolding grant_permission
grant_permission-IsUnique caller req p u t i q = ground (
  arith,
  u t i q,
  assign_or_create-IsUnique (subject_of req.subject_type) req.subject_id req.permission req.denied
      caller p u t i q,
)

pub revoke_permission-IsUnique :
    (t : String) (i : ℕ) (q : String) (p : Policy)
    → IsUnique p
    → IsUnique (revoke_permission t i q p).0
unfolding revoke_permission
revoke_permission-IsUnique t i q p u t' i' q' =
    le_trans (count_where-delete_where-le (is_row t' i' q') _ p.grants) (u t' i' q')

abbrev pub user_request : ℕ → String → Bool → GrantRequest
user_request uid q d = record {
  subject_type = "user";
  subject_id = uid;
  permission = q;
  denied = d;
}

-- The policy that a request about a user leaves, when it is accepted.
grants-grant_permission :
    (caller uid : ℕ) (q : String) (d : Bool) (p : Policy)
    → (grant_permission caller (user_request uid q d) p).1 ≡ created
    → (grant_permission caller (user_request uid q d) p).0
      ≡ record p { grants = assign_or_create user uid q d caller p.grants }
unfolding grant_permission subject_of
grants-grant_permission caller uid q d p h = ground arith

-- A row about the policy itself is refused: no grant confers it.
valid_permission-iam_manage : valid_permission perm_iam_manage ≡ false
unfolding valid_permission any_where
valid_permission-iam_manage = refl

permission-ne-iam_manage :
    (caller uid : ℕ) (q : String) (d : Bool) (p : Policy)
    → (grant_permission caller (user_request uid q d) p).1 ≡ created
    → q ≢ perm_iam_manage
unfolding grant_permission
permission-ne-iam_manage caller uid q d p h e =
    ground (arith, valid_permission-iam_manage, ap valid_permission e)

grant_permission-cases :
    (caller uid : ℕ) (q : String) (d : Bool) (p : Policy)
    → ((grant_permission caller (user_request uid q d) p).0 ≡ p)
      ⊎ ((grant_permission caller (user_request uid q d) p).0
          ≡ record p { grants = assign_or_create user uid q d caller p.grants })
unfolding grant_permission subject_of
grant_permission-cases caller uid q d p = ground arith

-- In a table with one row for each subject and permission, an accepted grant or denial for a user
-- decides what he holds of that permission.
pub grant_permission-decides :
    (caller uid : ℕ) (role q : String) (d : Bool) (p : Policy)
    → IsUnique p
    → (grant_permission caller (user_request uid q d) p).1 ≡ created
    → permissions_for (grant_permission caller (user_request uid q d) p).0 uid role q ≡ not d
grant_permission-decides caller uid role q d p u h =
    rw (grants-grant_permission caller uid q d p h) (
      rw
        (permissions_for-resolves
          (record p { grants = assign_or_create user uid q d caller p.grants }) uid role q
          (permission-ne-iam_manage caller uid q d p h))
        (rw (last_decision-assign_or_create uid q d caller p.grants (u user uid q))))

-- A grant or denial for a user leaves alone every other user and every other permission.
pub grant_permission-leaves :
    (caller uid uid' : ℕ) (role q q' : String) (d : Bool) (p : Policy)
    → (uid' ≢ uid) ⊎ (q' ≢ q)
    → permissions_for (grant_permission caller (user_request uid q d) p).0 uid' role q'
      ≡ permissions_for p uid' role q'
grant_permission-leaves caller uid uid' role q q' d p ne =
    elim (Bool-cases (q' =s perm_iam_manage)) [
      | inl m ↦ rw (=s_true q' perm_iam_manage m) (
          permissions_for-iam_manage (grant_permission caller (user_request uid q d) p).0 uid' role
          ∙ sym (permissions_for-iam_manage p uid' role))
      | inr m ↦ elim (grant_permission-cases caller uid q d p) [
        | inl same ↦ rw same
        | inr done ↦
            rw done (leaves_row (λ e. false≢true (sym m ∙ (eq_iff q' perm_iam_manage).1 e)))
      ]
    ]
  where
    leaves_row :
        q' ≢ perm_iam_manage
        → permissions_for
            (record p { grants = assign_or_create user uid q d caller p.grants })
            uid'
            role
            q'
          ≡ permissions_for p uid' role q'
    leaves_row n =
        rw
          (permissions_for-resolves
            (record p { grants = assign_or_create user uid q d caller p.grants }) uid' role q' n)
          (rw (permissions_for-resolves p uid' role q' n) (
            rw (last_decision-assign_or_create_ne uid uid' q q' d caller p.grants ne)
              (rw (group_rows-assign_or_create uid uid' p.members q d caller p.grants))))
