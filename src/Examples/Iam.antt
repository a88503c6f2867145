-- ===== src/Examples/Iam.antt =====
-- Grants of backend/handlers/iam.go on a small policy.
use commitkube.Base.{
  ◌&&◌, not, some, List, ℕ, ◌≡◌, ◌≢◌, refl, String, true, false, [], ◌∷◌, arith, eq_iff,
  select_where, any_where, count_where,
}
use commitkube.Iam.Policy.{
  perm_cluster_write, group, Grant, Policy, permissions_for, perm_iam_manage, perm_self, write_all,
  apply_grants, role_permissions,
}
use commitkube.GitOps.Order.{text_less}
use commitkube.Iam.Scopes.{
  Scope, ScopeRequest, is_scope_of, namespace_allowed, add_namespace_scope,
  created as scope_created,
}
use commitkube.Iam.Visible.{namespace_allowed-decides}
use commitkube.Iam.Grants.{subject_of, grant_permission, created, valid_permission}
use commitkube.Iam.Resolution.{
  permissions_for-resolves, permissions_for-iam_manage, or_else, last_decision, own_rows,
  group_rows, listed,
}
use commitkube.Iam.Assigned.{IsUnique}
use commitkube.Iam.Decides.{user_request, grant_permission-decides}
use commitkube.Base.{◌||◌, ◌=s◌}

abbrev team_rule : Grant
team_rule = record {
  subject_type = group;
  subject_id = 3;
  permission = "k8s.scale";
  denied = false;
  granted_by = 1;
}

abbrev small : Policy
small = record { members = record { user_id = 7; group_id = 3 } ∷ []; grants = team_rule ∷ [] }

-- A grant to a group reaches its member, and no one else.
group_grant :
    (permissions_for small 7 "user" "k8s.scale" ≡ true)
    × (permissions_for small 8 "user" "k8s.scale" ≡ false)
unfolding permissions_for write_all apply_grants role_permissions select_where any_where
group_grant = (refl, refl)

small-IsUnique : IsUnique small
unfolding count_where
small-IsUnique t i q = ground arith

accepts_denial : (grant_permission 1 (user_request 7 "k8s.scale" true) small).1 ≡ created
unfolding grant_permission valid_permission any_where
accepts_denial = refl

-- A denial for one person wins over the grant of his group.
grant_permission-decides_example :
    permissions_for
      (grant_permission 1 (user_request 7 "k8s.scale" true) small).0
      7
      "user"
      "k8s.scale"
    ≡ false
grant_permission-decides_example =
    grant_permission-decides 1 7 "user" "k8s.scale" true small small-IsUnique accepts_denial

eight_not_seven : ◌≢◌ {A = ℕ} 8 7
eight_not_seven = omega arith

scale_not_iam : ◌≢◌ {A = String} "k8s.scale" perm_iam_manage
scale_not_iam = ground (arith, eq_iff "k8s.scale" "iam.manage")

permissions_for-resolves_example :
    permissions_for small 7 "user" "k8s.scale"
    ≡ or_else (last_decision "k8s.scale" (own_rows small 7)) (
        or_else
          (last_decision "k8s.scale" (group_rows small 7))
          (listed "k8s.scale" (role_permissions "user") || perm_self =s "k8s.scale"))
permissions_for-resolves_example = permissions_for-resolves small 7 "user" "k8s.scale" scale_not_iam

permissions_for-iam_manage_example : permissions_for small 7 "admin" perm_iam_manage ≡ false
permissions_for-iam_manage_example = permissions_for-iam_manage small 7 "admin"

abbrev shop_scope : ScopeRequest
shop_scope = record { subject_type = "user"; subject_id = 7; cluster_id = 1; namespace = "shop" }

abbrev team_scopes : List Scope
team_scopes =
    record {
      id = 1;
      subject_type = group;
      subject_id = 3;
      cluster_id = 1;
      namespace = "team";
      granted_by = 1;
    }
    ∷ []

namespace_allowed-decides_example :
    namespace_allowed text_less small team_scopes 7 "user" (some 1) "shop" ≡ (
      permissions_for small 7 "user" perm_cluster_write
      || not (any_where (is_scope_of small 7 1) team_scopes)
      || any_where (λ s. is_scope_of small 7 1 s && s.namespace =s "shop") team_scopes)
namespace_allowed-decides_example =
    namespace_allowed-decides text_less small team_scopes 7 "user" 1 "shop"

shop_scope_created : (add_namespace_scope 1 2 shop_scope team_scopes).1 ≡ scope_created
unfolding add_namespace_scope any_where subject_of
shop_scope_created = refl
