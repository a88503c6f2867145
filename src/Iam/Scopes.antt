-- ===== src/Iam/Scopes.antt =====
-- Which namespaces a request may see, and the guard of a route: backend/handlers/iam.go.
use commitkube.Base.{
  ℕ, String, Bool, true, false, not, ◌&&◌, ◌||◌, Option, none, some, List, [], ◌∷◌, ◌++◌, ◌==◌,
  ◌=s◌, if◌then◌else◌, any_where, select_where, delete_where, sort_stable,
}
use commitkube.Iam.Policy.{
  SubjectType, Policy, is_user_row, is_group_row, permissions_for, perm_self, perm_cluster_write,
}
use commitkube.Iam.Grants.{same_subject, subject_of}

-- `Requires`: whether the route's handler runs.
unfoldable pub requires : Policy → String → ℕ → String → Bool
requires p permission uid role =
    if permission =s perm_self then true else permissions_for p uid role permission

-- models.NamespaceScope
pub record Scope : Type 0 where
  pub id : ℕ
  pub subject_type : SubjectType
  pub subject_id : ℕ
  pub cluster_id : ℕ
  pub namespace : String
  pub granted_by : ℕ

-- The rows of the query: those of the user and of his groups in one cluster.
abbrev pub is_scope_of : Policy → ℕ → ℕ → Scope → Bool
is_scope_of p uid cluster s =
    s.cluster_id == cluster
    && (is_user_row uid s.subject_type s.subject_id
        || is_group_row uid p.members s.subject_type s.subject_id)

-- `Distinct().Pluck("namespace")`
unfoldable pub distinct : List String → List String
distinct [] = []
distinct (n ∷ ns) = let rest = distinct ns in if any_where (λ m. m =s n) ns then rest else n ∷ rest

unfoldable pub namespaces_of : List Scope → List String
namespaces_of [] = []
namespaces_of (s ∷ ss) = s.namespace ∷ namespaces_of ss

-- `nil` for no rows.
unfoldable pub sorted_or_nil : (String → String → Bool) → List String → Option (List String)
sorted_or_nil less [] = none
sorted_or_nil less (n ∷ ns) = some (sort_stable less (n ∷ ns))

-- The loop of `namespaceAllowed`; with no list it is not restricted.
unfoldable pub sees : Option (List String) → String → Bool
sees none ns = true
sees (some allowed) ns = any_where (λ n. n =s ns) allowed

module _ (less : String → String → Bool) where
  -- `allowedNamespaces`; `none` is the `nil` that means all of them.
  unfoldable pub allowed_namespaces : Policy → List Scope → ℕ → String → ℕ → Option (List String)
  allowed_namespaces p scopes uid role cluster =
      if permissions_for p uid role perm_cluster_write
      then none
      else sorted_or_nil less
          (distinct (namespaces_of (select_where (is_scope_of p uid cluster) scopes)))

  -- `requestNamespaces` and `namespaceAllowed`; an unknown cluster is `none`.
  unfoldable pub namespace_allowed : Policy → List Scope → ℕ → String → Option ℕ → String → Bool
  namespace_allowed p scopes uid role none ns = false
  namespace_allowed p scopes uid role (some cluster) ns =
      sees (allowed_namespaces p scopes uid role cluster) ns

pub record ScopeRequest : Type 0 where
  pub subject_type : String
  pub subject_id : ℕ
  pub cluster_id : ℕ
  pub namespace : String

pub data ScopeAnswer : Type 0 where
  bad_request created not_found removed : ScopeAnswer

abbrev pub is_scope : SubjectType → ℕ → ℕ → String → Scope → Bool
is_scope t i c ns s =
    same_subject s.subject_type t && s.subject_id == i && s.cluster_id == c && s.namespace =s ns

abbrev pub new_scope : ℕ → ℕ → ScopeRequest → Scope
new_scope caller next req = record {
  id = next;
  subject_type = subject_of req.subject_type;
  subject_id = req.subject_id;
  cluster_id = req.cluster_id;
  namespace = req.namespace;
  granted_by = caller;
}

-- `AddNamespaceScope`, up to a failed write; `next` is the key of a new row.
unfoldable pub add_namespace_scope : ℕ → ℕ → ScopeRequest → List Scope → List Scope × ScopeAnswer
add_namespace_scope caller next req scopes =
    if req.subject_id == 0 || req.namespace =s "" || req.cluster_id == 0
    then (scopes, bad_request)
    else if not (req.subject_type =s "user") && not (req.subject_type =s "group")
    then (scopes, bad_request)
    else if any_where
        (is_scope (subject_of req.subject_type) req.subject_id req.cluster_id req.namespace) scopes
    then (scopes, created)
    else (
      scopes
          ++ record {
            id = next;
            subject_type = subject_of req.subject_type;
            subject_id = req.subject_id;
            cluster_id = req.cluster_id;
            namespace = req.namespace;
            granted_by = caller;
          }
            ∷ [],
      created,
    )

-- `RemoveNamespaceScope`
unfoldable pub remove_namespace_scope : ℕ → List Scope → List Scope × ScopeAnswer
remove_namespace_scope i scopes =
    if any_where (λ s. s.id == i) scopes
    then (delete_where (λ s. s.id == i) scopes, removed)
    else (scopes, not_found)
