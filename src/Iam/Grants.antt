-- ===== src/Iam/Grants.antt =====
-- `GrantPermission` and `RevokePermission` of backend/handlers/iam.go, and what they change.
use commitkube.Base.{
  ℕ, String, Bool, true, false, not, ◌&&◌, ◌||◌, List, [], ◌∷◌, ◌==◌, ◌=s◌, if◌then◌else◌,
  any_where, delete_where,
}
use commitkube.Iam.Policy.{all_permissions, SubjectType, user, group, Grant, Policy}

abbrev pub same_subject : SubjectType → SubjectType → Bool
same_subject user user = true
same_subject group group = true
same_subject _ _ = false

-- `WHERE subject_type = ? AND subject_id = ? AND permission = ?`
abbrev pub is_row : SubjectType → ℕ → String → Grant → Bool
is_row t i p g = same_subject g.subject_type t && g.subject_id == i && g.permission =s p

-- `validPermission`
unfoldable pub valid_permission : String → Bool
unfolding any_where
valid_permission p = any_where (λ known. known =s p) all_permissions

-- What the request body holds; `subject_type` is text there.
pub record GrantRequest : Type 0 where
  pub subject_type : String
  pub subject_id : ℕ
  pub permission : String
  pub denied : Bool

pub data Answer : Type 0 where
  bad_request created done : Answer

-- `subject_type` is one of two words.
unfoldable pub subject_of : String → SubjectType
subject_of t = if t =s "group" then group else user

-- `Assign(denied, granted_by).FirstOrCreate`
unfoldable pub assign_or_create : SubjectType → ℕ → String → Bool → ℕ → List Grant → List Grant
assign_or_create t i p denied by [] =
    record { subject_type = t; subject_id = i; permission = p; denied = denied; granted_by = by }
    ∷ []
assign_or_create t i p denied by (g ∷ gs) =
    let rest = g ∷ assign_or_create t i p denied by gs in
    if is_row t i p g then record g { denied = denied; granted_by = by } ∷ gs else rest

unfoldable pub grant_permission : ℕ → GrantRequest → Policy → Policy × Answer
grant_permission caller req p =
    if req.subject_id == 0
    then (p, bad_request)
    else if not (req.subject_type =s "user") && not (req.subject_type =s "group")
    then (p, bad_request)
    else if not (valid_permission req.permission)
    then (p, bad_request)
    else (
      record p {
        grants =
            assign_or_create (subject_of req.subject_type) req.subject_id req.permission req.denied
              caller p.grants;
      },
      created,
    )

-- `RevokePermission`; a subject type that is neither word matches no row.
unfoldable pub revoke_permission : String → ℕ → String → Policy → Policy × Answer
revoke_permission t i perm p =
    let known = t =s "user" || t =s "group" in
    (
      record p { grants = delete_where (λ g. known && is_row (subject_of t) i perm g) p.grants },
      done,
    )
