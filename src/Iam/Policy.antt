-- ===== src/Iam/Policy.antt =====
-- The vocabulary of backend/handlers/iam.go, and what a user holds.
use commitkube.Base.{
  ℕ, String, Bool, true, false, not, ◌&&◌, List, [], ◌∷◌, ◌++◌, ◌==◌, ◌=s◌, if◌then◌else◌,
  any_where, select_where,
}

-- The constants `Perm…`, in the order of `AllPermissions`.
abbrev pub all_permissions : List String
all_permissions =
    "k8s.read" ∷ "k8s.logs.read" ∷ "k8s.secrets.read" ∷ "k8s.secrets.show" ∷ "k8s.secrets.write"
    ∷ "k8s.pod.delete" ∷ "k8s.scale" ∷ "k8s.workload.delete" ∷ "cluster.manage" ∷ "scm.read"
    ∷ "scm.write" ∷ "scm.approve" ∷ "template.read" ∷ "template.write" ∷ "gitops.sync"
    ∷ "gitops.manage" ∷ "security.read" ∷ "security.scan" ∷ "security.triage" ∷ "cloudflare.read"
    ∷ "cloudflare.manage" ∷ "vault.read" ∷ "vault.create" ∷ "vault.write" ∷ "vault.share"
    ∷ "settings.read" ∷ "settings.write" ∷ "notify.write" ∷ "user.manage" ∷ "audit.read" ∷ []

abbrev pub perm_self : String
perm_self = "self"

abbrev pub perm_iam_manage : String
perm_iam_manage = "iam.manage"

abbrev pub perm_cluster_write : String
perm_cluster_write = "cluster.manage"

-- The bundle of the role "user".
abbrev pub user_permissions : List String
user_permissions =
    "k8s.read" ∷ "scm.read" ∷ "template.read" ∷ "security.read" ∷ "vault.read" ∷ "vault.create"
    ∷ "vault.write" ∷ "settings.read" ∷ []

-- `rolePermissions[role]`; a role that is not in the map has no bundle.
unfoldable pub role_permissions : String → List String
role_permissions role =
    if role =s "root"
    then all_permissions ++ perm_iam_manage ∷ []
    else if role =s "admin"
    then all_permissions
    else if role =s "user"
    then user_permissions
    else []

pub data SubjectType : Type 0 where
  user group : SubjectType

-- models.PermissionGrant
pub record Grant : Type 0 where
  pub subject_type : SubjectType
  pub subject_id : ℕ
  pub permission : String
  pub denied : Bool
  pub granted_by : ℕ

-- models.UserGroupMember
pub record Member : Type 0 where
  pub user_id : ℕ
  pub group_id : ℕ

pub record Policy : Type 0 where
  pub members : List Member
  pub grants : List Grant

-- `map[string]bool`: a key that is not written reads false.
abbrev pub Held : Type 0
Held = String → Bool

abbrev pub write : String → Bool → Held → Held
write p v held q = if p =s q then v else held q

unfoldable pub write_all : List String → Held → Held
write_all [] held = held
write_all (p ∷ ps) held = write_all ps (write p true held)

-- `held[g.Permission] = !g.Denied`, row after row.
unfoldable pub apply_grants : List Grant → Held → Held
apply_grants [] held = held
apply_grants (g ∷ gs) held = apply_grants gs (write g.permission (not g.denied) held)

abbrev pub is_user_row : ℕ → SubjectType → ℕ → Bool
is_user_row uid user i = i == uid
is_user_row uid group i = false

-- `subject_id IN groupIDs` for a group's row.
abbrev pub is_group_row : ℕ → List Member → SubjectType → ℕ → Bool
is_group_row uid members user i = false
is_group_row uid members group i = any_where (λ m. m.user_id == uid && m.group_id == i) members

unfoldable pub permissions_for : Policy → ℕ → String → Held
permissions_for p uid role =
    let by_role = write_all (role_permissions role) (write perm_self true (λ _. false)) in
    let group_grants =
      select_where (λ g. is_group_row uid p.members g.subject_type g.subject_id) p.grants in
    let user_grants = select_where (λ g. is_user_row uid g.subject_type g.subject_id) p.grants in
    write perm_iam_manage (role =s "root")
      (apply_grants user_grants (apply_grants group_grants by_role))
