-- ===== src/GitOps/Health.antt =====
-- backend/handlers/gitops_health.go: the health of one live object. Replica counts and generations
-- are not negative in the API, so they are natural numbers; `Replicas - Partition` is only compared
-- with a count, and a difference below zero compares as zero does.
pub mod Rules
pub mod Assess
use commitkube.Base.{ℕ, String, Bool, Option, List, ltb, if◌then◌else◌}

pub data Health : Type 0 where
  healthy suspended progressing absent degraded unknown : Health

-- gitopsHealthOrder
abbrev pub health_order : Health → ℕ
health_order healthy = 0
health_order suspended = 1
health_order progressing = 2
health_order absent = 3
health_order degraded = 4
health_order unknown = 5

unfoldable pub worse_health : Health → Health → Health
worse_health a b = if ltb (health_order a) (health_order b) then b else a

-- What the second result says; the text is fixed but for these parts.
pub data Note : Type 0 where
  quiet not_in_cluster pending_deletion paused spec_not_observed : Note
  no_load_balancer not_bound volume_lost not_ready running : Note
  old_replicas not_ready_pods new_revision : ℕ → Note
  updated available partitioned : ℕ → ℕ → Note
  deadline_exceeded said : String → Note

pub record Condition : Type 0 where
  pub type : String
  pub is_true : Bool
  pub reason : String
  pub message : String

pub record Deployment : Type 0 where
  pub name : String
  pub paused : Bool
  pub generation : ℕ
  pub observed_generation : ℕ
  pub conditions : List Condition
  pub spec_replicas : Option ℕ
  pub replicas : ℕ
  pub updated_replicas : ℕ
  pub available_replicas : ℕ

pub data UpdateStrategy : Type 0 where
  rolling_update on_delete other_strategy : UpdateStrategy

pub record StatefulSet : Type 0 where
  pub generation : ℕ
  pub observed_generation : ℕ
  pub spec_replicas : Option ℕ
  pub ready_replicas : ℕ
  pub strategy : UpdateStrategy
  pub partition : Option ℕ  -- RollingUpdate.Partition, none also where RollingUpdate is nil
  pub updated_replicas : ℕ
  pub update_revision : String
  pub current_revision : String

pub record DaemonSet : Type 0 where
  pub generation : ℕ
  pub observed_generation : ℕ
  pub strategy : UpdateStrategy
  pub desired : ℕ
  pub updated : ℕ
  pub available : ℕ

pub record ReplicaSet : Type 0 where
  pub generation : ℕ
  pub observed_generation : ℕ
  pub conditions : List Condition
  pub spec_replicas : Option ℕ
  pub available_replicas : ℕ

pub data Phase : Type 0 where
  pod_pending pod_running pod_succeeded pod_failed other_phase : Phase

pub record Pod : Type 0 where
  pub phase : Phase
  pub message : String
  pub waiting : List String  -- the reasons of the containers that wait
  pub conditions : List Condition

pub data Claim : Type 0 where
  bound pending lost other_claim : Claim

-- The object behind its group and kind, as far as the assessment reads it.
pub data Kinded : Type 0 where
  deployment : Deployment → Kinded
  stateful_set : StatefulSet → Kinded
  daemon_set : DaemonSet → Kinded
  replica_set : ReplicaSet → Kinded
  service : Bool → ℕ → Kinded  -- is a load balancer; how many addresses it has
  claim : Claim → Kinded
  pod : Pod → Kinded
  job : List Condition → Kinded
  ingress : Kinded
  no_rule : Kinded
  unreadable : String → Kinded  -- the conversion failed

pub record Live : Type 0 where
  pub deleting : Bool
  pub kinded : Kinded
