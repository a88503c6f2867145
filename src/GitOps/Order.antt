-- ===== src/GitOps/Order.antt =====
-- The order in which kinds are applied: backend/handlers/gitops_engine.go.
use Prim.Native.Nat.{Ordering}
use Prim.Native.String.{compare}
use commitkube.Base.{
  ℕ, suc, String, Bool, true, false, List, [], ◌∷◌, ◌==◌, ltb, ◌=s◌, if◌then◌else◌,
}

-- The list of `gitopsKindOrder`.
abbrev pub kinds : List String
kinds =
    "Namespace" ∷ "NetworkPolicy" ∷ "ResourceQuota" ∷ "LimitRange" ∷ "PodSecurityPolicy"
    ∷ "PodDisruptionBudget" ∷ "ServiceAccount" ∷ "Secret" ∷ "SecretList" ∷ "ConfigMap"
    ∷ "StorageClass" ∷ "PersistentVolume" ∷ "PersistentVolumeClaim" ∷ "CustomResourceDefinition"
    ∷ "ClusterRole" ∷ "ClusterRoleList" ∷ "ClusterRoleBinding" ∷ "ClusterRoleBindingList" ∷ "Role"
    ∷ "RoleList" ∷ "RoleBinding" ∷ "RoleBindingList" ∷ "Service" ∷ "DaemonSet" ∷ "Pod"
    ∷ "ReplicationController" ∷ "ReplicaSet" ∷ "Deployment" ∷ "HorizontalPodAutoscaler"
    ∷ "StatefulSet" ∷ "Job" ∷ "CronJob" ∷ "IngressClass" ∷ "Ingress" ∷ "APIService" ∷ []

-- The position of a kind; a kind that is not listed comes after all. The source counts from minus
-- the length of the list, which orders the same.
unfoldable pub rank_from : List String → String → ℕ
rank_from [] k = 0
rank_from (j ∷ js) k = let rest = suc (rank_from js k) in if j =s k then 0 else rest

unfoldable pub kind_rank : String → ℕ
unfolding rank_from
kind_rank = rank_from kinds

-- Go compares texts byte by byte, which orders as the code points do.
abbrev pub text_less : String → String → Bool
text_less a b = elim (compare a b) [ Ordering.lt ↦ true | _ ↦ false ]

unfoldable pub less_by_kind_order : String → String → String → String → Bool
less_by_kind_order kind_a name_a kind_b name_b =
    if kind_rank kind_a == kind_rank kind_b
    then text_less name_a name_b
    else ltb (kind_rank kind_a) (kind_rank kind_b)
