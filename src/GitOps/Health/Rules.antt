-- ===== src/GitOps/Health/Rules.antt =====
-- The rules of backend/handlers/gitops_health.go, one function for each kind.
use commitkube.Base.{
  ℕ, ◌-◌, String, Bool, true, false, not, ◌&&◌, ◌||◌, Option, none, some, List, [], ◌∷◌, ltb, ◌==◌,
  ◌=s◌, if◌then◌else◌,
}
use commitkube.GitOps.Health.{
  Health, Note, Condition, Deployment, UpdateStrategy, StatefulSet, DaemonSet, ReplicaSet, Phase,
  Pod, Claim, Kinded, Live, healthy, suspended, progressing, absent, degraded, unknown, quiet,
  not_in_cluster, pending_deletion, paused, spec_not_observed, no_load_balancer, not_bound,
  volume_lost, not_ready, running, old_replicas, not_ready_pods, new_revision, updated, available,
  partitioned, deadline_exceeded, said, rolling_update, on_delete, pod_pending, pod_running,
  pod_succeeded, pod_failed, other_phase, bound, pending, lost, other_claim, deployment,
  stateful_set, daemon_set, replica_set, service, claim, pod, job, ingress, no_rule, unreadable,
}

abbrev pub below : ℕ → Option ℕ → Bool
below n none = false
below n (some want) = ltb n want

abbrev pub wanted : Option ℕ → ℕ
wanted none = 0
wanted (some want) = want

abbrev pub deadline_passed : Condition → Bool
deadline_passed c = c.type =s "Progressing" && c.reason =s "ProgressDeadlineExceeded"

unfoldable pub any_condition : (Condition → Bool) → List Condition → Bool
any_condition p [] = false
any_condition p (c ∷ cs) = if p c then true else any_condition p cs

unfoldable pub deployment_health : Deployment → Health × Note
unfolding any_condition
deployment_health d =
    if d.paused
    then (suspended, paused)
    else if ltb d.observed_generation d.generation
    then (progressing, spec_not_observed)
    else if any_condition deadline_passed d.conditions
    then (degraded, deadline_exceeded d.name)
    else if below d.updated_replicas d.spec_replicas
    then (progressing, updated d.updated_replicas (wanted d.spec_replicas))
    else if ltb d.updated_replicas d.replicas
    then (progressing, old_replicas (d.replicas - d.updated_replicas))
    else if ltb d.available_replicas d.updated_replicas
    then (progressing, available d.available_replicas d.updated_replicas)
    else (healthy, quiet)

abbrev pub is_rolling : UpdateStrategy → Bool
is_rolling rolling_update = true
is_rolling _ = false

abbrev pub is_on_delete : UpdateStrategy → Bool
is_on_delete on_delete = true
is_on_delete _ = false

-- The pods that a partitioned rollout updates; `none` where it is not one.
unfoldable pub partition_target : StatefulSet → Option ℕ
partition_target s = if is_rolling s.strategy then both s.spec_replicas s.partition else none
  where
    both : Option ℕ → Option ℕ → Option ℕ
    both (some replicas) (some partition) = some (replicas - partition)
    both _ _ = none

unfoldable pub rollout_health : StatefulSet → Option ℕ → Health × Note
rollout_health s (some want) =
    if ltb s.updated_replicas want
    then (progressing, partitioned s.updated_replicas want)
    else (healthy, quiet)
rollout_health s none =
    if is_on_delete s.strategy
    then (healthy, quiet)
    else if not (s.update_revision =s "") && not (s.update_revision =s s.current_revision)
    then (progressing, new_revision s.updated_replicas)
    else (healthy, quiet)

unfoldable pub stateful_set_health : StatefulSet → Health × Note
unfolding partition_target rollout_health
stateful_set_health s =
    if s.observed_generation == 0 || ltb s.observed_generation s.generation
    then (progressing, spec_not_observed)
    else if below s.ready_replicas s.spec_replicas
    then (progressing, not_ready_pods (wanted s.spec_replicas - s.ready_replicas))
    else rollout_health s (partition_target s)

unfoldable pub daemon_set_health : DaemonSet → Health × Note
daemon_set_health d =
    if ltb d.observed_generation d.generation
    then (progressing, spec_not_observed)
    else if is_on_delete d.strategy
    then (healthy, quiet)
    else if ltb d.updated d.desired
    then (progressing, updated d.updated d.desired)
    else if ltb d.available d.desired
    then (progressing, available d.available d.desired)
    else (healthy, quiet)

-- The first condition that says a replica could not be made.
unfoldable pub replica_failure : List Condition → Option String
replica_failure [] = none
replica_failure (c ∷ cs) =
    if c.type =s "ReplicaFailure" && c.is_true then some c.message else replica_failure cs

unfoldable pub replica_set_health : ReplicaSet → Health × Note
unfolding replica_failure
replica_set_health r =
    if ltb r.observed_generation r.generation
    then (progressing, spec_not_observed)
    else elim (replica_failure r.conditions) [
      | some m ↦ (degraded, said m)
      | none ↦
          if below r.available_replicas r.spec_replicas
          then (progressing, available r.available_replicas (wanted r.spec_replicas))
          else (healthy, quiet)
    ]

abbrev pub stuck_reason : String → Bool
stuck_reason r = r =s "CrashLoopBackOff" || r =s "ImagePullBackOff" || r =s "ErrImagePull"

unfoldable pub stuck_container : List String → Option String
stuck_container [] = none
stuck_container (r ∷ rs) = if stuck_reason r then some r else stuck_container rs

abbrev pub pod_ready : Condition → Bool
pod_ready c = c.type =s "Ready" && c.is_true

unfoldable pub running_health : Pod → Health × Note
running_health p = elim (stuck_container p.waiting) [
  | some r ↦ (degraded, said r)
  | none ↦
      if any_condition pod_ready p.conditions then (healthy, quiet) else (progressing, not_ready)
]

unfoldable pub phase_health : Phase → Pod → Health × Note
phase_health pod_succeeded p = (healthy, said p.message)
phase_health pod_failed p = (degraded, said p.message)
phase_health pod_pending p = (progressing, said p.message)
phase_health pod_running p = running_health p
phase_health other_phase p = (unknown, said p.message)

unfoldable pub pod_health : Pod → Health × Note
unfolding phase_health running_health
pod_health p = phase_health p.phase p

unfoldable pub job_health : List Condition → Health × Note
job_health [] = (progressing, running)
job_health (c ∷ cs) =
    if not c.is_true
    then job_health cs
    else if c.type =s "Failed"
    then (degraded, said c.message)
    else if c.type =s "Complete"
    then (healthy, said c.message)
    else if c.type =s "Suspended"
    then (suspended, said c.message)
    else job_health cs

unfoldable pub claim_health : Claim → Health × Note
claim_health bound = (healthy, quiet)
claim_health pending = (progressing, not_bound)
claim_health lost = (degraded, volume_lost)
claim_health other_claim = (unknown, quiet)

unfoldable pub kinded_health : Kinded → Health × Note
kinded_health (deployment d) = deployment_health d
kinded_health (stateful_set s) = stateful_set_health s
kinded_health (daemon_set d) = daemon_set_health d
kinded_health (replica_set r) = replica_set_health r
kinded_health (service balanced addresses) =
    if balanced && addresses == 0 then (progressing, no_load_balancer) else (healthy, quiet)
kinded_health (claim c) = claim_health c
kinded_health (pod p) = pod_health p
kinded_health (job conditions) = job_health conditions
kinded_health ingress = (healthy, quiet)
kinded_health no_rule = (healthy, quiet)
kinded_health (unreadable e) = (unknown, said e)

-- gitopsObjectHealth
unfoldable pub object_health : Option Live → Health × Note
unfolding kinded_health
object_health none = (absent, not_in_cluster)
object_health (some o) =
    if o.deleting then (progressing, pending_deletion) else kinded_health o.kinded
