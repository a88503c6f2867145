-- ===== src/Iam/Assigned.antt =====
-- What Assign(...).FirstOrCreate makes of the rows of grants: backend/handlers/iam.go.
use commitkube.Base.{
  subst, ℕ, ◌≤◌, ◌≡◌, ◌≢◌, refl, String, Bool, true, false, not, none, some, List, [], ◌∷◌,
  select_where, count_where, arith, eq_iff, =s_self, ◌⊎◌, Bool-cases, inl, inr,
}
use commitkube.Iam.Policy.{
  SubjectType, user, group, Grant, Member, Policy, is_user_row, is_group_row,
}
use commitkube.Iam.Grants.{same_subject, is_row, assign_or_create}
use commitkube.Iam.Resolution.{last_decision}

abbrev pub IsUnique : Policy → Type 0
IsUnique p = (t : SubjectType) (i : ℕ) (q : String) → count_where (is_row t i q) p.grants ≤ 1

pub same_subject-eq : (a b : SubjectType) → same_subject a b ≡ true → a ≡ b
same_subject-eq user user h = refl
same_subject-eq user group h = cc
same_subject-eq group user h = cc
same_subject-eq group group h = refl

abbrev new_row : SubjectType → ℕ → String → Bool → ℕ → Grant
new_row t i q d by = record {
  subject_type = t;
  subject_id = i;
  permission = q;
  denied = d;
  granted_by = by;
}

count_where-assign_or_create_ne :
    (t t' : SubjectType) (i i' : ℕ) (q q' : String) (d : Bool) (by : ℕ) (gs : List Grant)
    → is_row t' i' q' (new_row t i q d by) ≡ false
    → count_where (is_row t' i' q') (assign_or_create t i q d by gs)
      ≡ count_where (is_row t' i' q') gs
unfolding count_where assign_or_create
count_where-assign_or_create_ne t t' i i' q q' d by [] h = ground arith
count_where-assign_or_create_ne t t' i i' q q' d by (g ∷ gs) h =
    ground (arith, count_where-assign_or_create_ne t t' i i' q q' d by gs)

count_where-assign_or_create_self :
    (t : SubjectType) (i : ℕ) (q : String) (d : Bool) (by : ℕ) (gs : List Grant)
    → count_where (is_row t i q) gs ≤ 1
    → count_where (is_row t i q) (assign_or_create t i q d by gs) ≤ 1
unfolding count_where assign_or_create
count_where-assign_or_create_self t i q d by [] h = ground arith
count_where-assign_or_create_self t i q d by (g ∷ gs) h =
    ground (arith, count_where-assign_or_create_self t i q d by gs)

-- A row that already stands is rewritten in place; a row is added only where none stood.
pub assign_or_create-IsUnique :
    (t : SubjectType) (i : ℕ) (q : String) (d : Bool) (by : ℕ) (p : Policy)
    → IsUnique p
    → IsUnique (record p { grants = assign_or_create t i q d by p.grants })
assign_or_create-IsUnique t i q d by p u t' i' q' =
    elim (Bool-cases (is_row t' i' q' (new_row t i q d by))) [
      | inr e ↦ rw (count_where-assign_or_create_ne t t' i i' q q' d by p.grants e) (u t' i' q')
      | inl e ↦
          let same : t ≡ t' = same_subject-eq t t' (ground arith) in
          let id : i ≡ i' = ground arith in
          let word : q ≡ q' = ground (arith, eq_iff q q') in
          subst (λ x. count_where (is_row x i' q') (assign_or_create t i q d by p.grants) ≤ 1) same
            (subst (λ x. count_where (is_row t x q') (assign_or_create t i q d by p.grants) ≤ 1) id
              (subst (λ x. count_where (is_row t i x) (assign_or_create t i q d by p.grants) ≤ 1)
                word (count_where-assign_or_create_self t i q d by p.grants (u t i q))))
    ]

no_decision :
    (uid : ℕ) (q : String) (gs : List Grant)
    → count_where (is_row user uid q) gs ≡ 0
    → last_decision q (select_where (λ g. is_user_row uid g.subject_type g.subject_id) gs) ≡ none
unfolding count_where last_decision select_where
no_decision uid q [] h = refl
no_decision uid q (g ∷ gs) h = ground (arith, no_decision uid q gs)

pub last_decision-assign_or_create :
    (uid : ℕ) (q : String) (d : Bool) (by : ℕ) (gs : List Grant)
    → count_where (is_row user uid q) gs ≤ 1
    → last_decision q (
        select_where
          (λ g. is_user_row uid g.subject_type g.subject_id)
          (assign_or_create user uid q d by gs))
      ≡ some (not d)
unfolding count_where last_decision select_where assign_or_create
last_decision-assign_or_create uid q d by [] h = ground (arith, =s_self q)
last_decision-assign_or_create uid q d by (g ∷ gs) h =
    ground (arith, last_decision-assign_or_create uid q d by gs, no_decision uid q gs)

-- Another permission, or another user, keeps its decision.
pub last_decision-assign_or_create_ne :
    (uid uid' : ℕ) (q q' : String) (d : Bool) (by : ℕ) (gs : List Grant)
    → (uid' ≢ uid) ⊎ (q' ≢ q)
    → last_decision q' (
        select_where
          (λ g. is_user_row uid' g.subject_type g.subject_id)
          (assign_or_create user uid q d by gs))
      ≡ last_decision q' (select_where (λ g. is_user_row uid' g.subject_type g.subject_id) gs)
unfolding last_decision select_where assign_or_create
last_decision-assign_or_create_ne uid uid' q q' d by [] h = ground (arith, eq_iff q q')
last_decision-assign_or_create_ne uid uid' q q' d by (g ∷ gs) h = ground (
  arith,
  eq_iff q q',
  eq_iff g.permission q,
  eq_iff g.permission q',
  last_decision-assign_or_create_ne uid uid' q q' d by gs,
)

pub group_rows-assign_or_create :
    (uid uid' : ℕ) (members : List Member) (q : String) (d : Bool) (by : ℕ) (gs : List Grant)
    → select_where
        (λ g. is_group_row uid' members g.subject_type g.subject_id)
        (assign_or_create user uid q d by gs)
      ≡ select_where (λ g. is_group_row uid' members g.subject_type g.subject_id) gs
unfolding select_where assign_or_create
group_rows-assign_or_create uid uid' members q d by [] = refl
group_rows-assign_or_create uid uid' members q d by (g ∷ gs) =
    ground (arith, group_rows-assign_or_create uid uid' members q d by gs)
