-- ===== src/ReplicaSets/Role.antt =====
-- How backend/handlers/replicaset_actions.go classifies a ReplicaSet, and the cluster calls that
-- it makes.
use commitkube.Base.{
  ℕ, ◌≡◌, String, Bool, false, not, ◌&&◌, Option, none, some, List, [], ◌∷◌, ◌=s◌, if◌then◌else◌,
  ltb, arith,
}

-- An int32, which the code compares and prints but never computes with.
pub data ℤ : Type 0 where
  pos : ℕ → ℤ
  negsuc : ℕ → ℤ

unfoldable pub is_positive : ℤ → Bool
is_positive (pos n) = ltb 0 n
is_positive (negsuc n) = false

unfoldable pub is_zero : ℤ → Bool
is_zero (pos n) = not (ltb 0 n)
is_zero (negsuc n) = false

pub record Owner : Type 0 where
  pub kind : String
  pub name : String

-- appsv1.ReplicaSet, as far as it is read; `revision` is its annotation, "" when it has none.
pub record ReplicaSet : Type 0 where
  pub owners : List Owner
  pub replicas : Option ℤ
  pub revision : String

-- appsv1.Deployment
pub record Deployment : Type 0 where
  pub name : String
  pub revision : String

pub data Answer {ℓ} (A : Type ℓ) : Type ℓ where
  ok : A → Answer A
  failed : String → Answer A

-- The calls of the typed client, by namespace and name. A call that may write returns the cluster
-- that it leaves.
pub record Client : Type 1 where
  pub World : Type 0
  pub get_set : World → String → String → Answer ReplicaSet
  pub get_deployment : World → String → String → Answer Deployment
  pub delete_set : World → String → String → Option String × World
  pub set_scale : World → String → String → Answer ℤ
  pub deployment_scale : World → String → String → Answer ℤ
  pub scale_set : World → String → String → ℤ → Option String × World
  pub scale_deployment : World → String → String → ℤ → Option String × World

pub data Kind : Type 0 where
  retired current standalone : Kind

-- replicaSetRole; `deployment` is "" for a set that no Deployment owns.
pub record Role : Type 0 where
  pub kind : Kind
  pub deployment : String
  pub replicas : ℤ

unfoldable pub owning_deployment : List Owner → String
owning_deployment [] = ""
owning_deployment (o ∷ os) = if o.kind =s "Deployment" then o.name else owning_deployment os

unfoldable pub replicas_of : Option ℤ → ℤ
replicas_of none = pos 0
replicas_of (some n) = n

unfoldable pub role_of : ReplicaSet → Option Deployment → Role
role_of rs none = record { kind = standalone; deployment = ""; replicas = replicas_of rs.replicas }
role_of rs (some d) = record {
  kind =
      if not (rs.revision =s "") && rs.revision =s d.revision
      then current
      else if is_positive (replicas_of rs.replicas)
      then current
      else retired;
  deployment = d.name;
  replicas = replicas_of rs.replicas;
}

unfoldable pub found : Answer Deployment → Option Deployment
found (ok d) = some d
found (failed e) = none

-- A Deployment that cannot be read counts as none.
unfoldable pub classify : (client : Client) → client.World → String → ReplicaSet → Role
classify client w ns rs =
    if owning_deployment rs.owners =s ""
    then role_of rs none
    else role_of rs (found (client.get_deployment w ns (owning_deployment rs.owners)))

-- A set that the page calls retired runs no pods, and is not the revision that its Deployment runs.
pub role_of-retired :
    (rs : ReplicaSet) (d : Option Deployment)
    → (role_of rs d).kind ≡ retired
    → is_positive (role_of rs d).replicas ≡ false
unfolding role_of
role_of-retired rs none h = absurd (ground arith)
role_of-retired rs (some d) h = ground arith
