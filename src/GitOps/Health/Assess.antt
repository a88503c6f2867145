-- ===== src/GitOps/Health/Assess.antt =====
-- What the kinds need to be healthy: backend/handlers/gitops_health.go.
use commitkube.Base.{
  subst, sym, ℕ, ◌≤◌, ◌≡◌, ◌↔◌, refl, true, false, Option, none, some, arith, inl, inr,
  Option-cases,
}
use commitkube.GitOps.Health.{
  Deployment, Pod, Phase, healthy, pod_running, pod_succeeded, pod_failed, pod_pending, other_phase,
}
use commitkube.GitOps.Health.Rules.{
  deployment_health, any_condition, deadline_passed, wanted, below, pod_health, phase_health,
  running_health, stuck_container, pod_ready,
}

-- A rollout that its controller has seen and finished.
pub record HasRolledOut (d : Deployment) : Type 0 where
  pub active : d.paused ≡ false
  pub observed : d.generation ≤ d.observed_generation
  pub in_time : any_condition deadline_passed d.conditions ≡ false
  pub enough : wanted d.spec_replicas ≤ d.updated_replicas
  pub no_old : d.replicas ≤ d.updated_replicas
  pub up : d.updated_replicas ≤ d.available_replicas

below-wanted : (n : ℕ) (o : Option ℕ) → (below n o ≡ false) ↔ (wanted o ≤ n)
below-wanted n none = (λ h. omega arith, λ h. refl)
below-wanted n (some want) = (λ h. ground arith, λ h. ground arith)

-- A Deployment is healthy exactly when it is not paused, its controller has seen its latest
-- generation, its deadline has not passed, the replicas wanted are updated, no old ones are left,
-- and the updated ones are available.
pub deployment_health-healthy :
    (d : Deployment) → ((deployment_health d).0 ≡ healthy) ↔ HasRolledOut d
unfolding deployment_health
deployment_health-healthy d = (
  λ h. record {
    active = ground arith;
    observed = ground arith;
    in_time = ground arith;
    enough = (below-wanted d.updated_replicas d.spec_replicas).0 (ground arith);
    no_old = ground arith;
    up = ground arith;
  },
  λ r. ground (
    arith,
    r.active,
    r.observed,
    r.in_time,
    (below-wanted d.updated_replicas d.spec_replicas).1 r.enough,
    r.no_old,
    r.up,
  ),
)

-- A pod that has ended well, or that runs, is ready, and has no container stuck.
pub data IsWell (p : Pod) : Type 0 where
  ended : p.phase ≡ pod_succeeded → IsWell p
  serving :
      p.phase ≡ pod_running
      → stuck_container p.waiting ≡ none
      → any_condition pod_ready p.conditions ≡ true
      → IsWell p

running_health-healthy :
    (p : Pod)
    → (running_health p).0 ≡ healthy
    → (stuck_container p.waiting ≡ none) × (any_condition pod_ready p.conditions ≡ true)
unfolding running_health
running_health-healthy p h = elim (Option-cases (stuck_container p.waiting)) [
  | inl e ↦ (e, ground arith)
  | inr (r, e) ↦ absurd (ground arith)
]

IsWell-phase_health :
    (p : Pod) (ph : Phase) → p.phase ≡ ph → (phase_health ph p).0 ≡ healthy → IsWell p
unfolding phase_health
IsWell-phase_health p pod_pending e h = absurd (ground arith)
IsWell-phase_health p pod_running e h =
    let (free, ready) = running_health-healthy p h in serving e free ready
IsWell-phase_health p pod_succeeded e h = ended e
IsWell-phase_health p pod_failed e h = absurd (ground arith)
IsWell-phase_health p other_phase e h = absurd (ground arith)

serving-healthy :
    (p : Pod)
    → stuck_container p.waiting ≡ none
    → any_condition pod_ready p.conditions ≡ true
    → (phase_health pod_running p).0 ≡ healthy
unfolding phase_health running_health
serving-healthy p free ready = ground arith

ended-healthy : (p : Pod) → (phase_health pod_succeeded p).0 ≡ healthy
unfolding phase_health
ended-healthy p = refl

healthy-IsWell : (p : Pod) → IsWell p → (pod_health p).0 ≡ healthy
unfolding pod_health
healthy-IsWell p (ended e) = subst (λ ph. (phase_health ph p).0 ≡ healthy) (sym e) (ended-healthy p)
healthy-IsWell p (serving e free ready) =
    subst (λ ph. (phase_health ph p).0 ≡ healthy) (sym e) (serving-healthy p free ready)

-- A pod is healthy exactly when it has succeeded, or runs, is ready, and has no container that
-- waits in a crash loop or for its image.
pub pod_health-healthy : (p : Pod) → ((pod_health p).0 ≡ healthy) ↔ IsWell p
unfolding pod_health
pod_health-healthy p = (IsWell-phase_health p p.phase refl, healthy-IsWell p)
