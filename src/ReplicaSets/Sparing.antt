-- ===== src/ReplicaSets/Sparing.antt =====
-- Which sets a batch spares, said of owners and pods: the tests of DeleteReplicaSets of
-- backend/handlers/replicaset_actions.go.
use commitkube.ReplicaSets.Ownership.{pods, at_zero, IsCurrent}
use commitkube.Base.{
  ◌∙◌, sym, ◌≡◌, refl, ◌⊎◌, inl, inr, Bool, true, false, not, Option, none, some, arith, ap, ap₂,
  =s_self, ◌&&◌, ◌=s◌,
}
use commitkube.ReplicaSets.Role.{
  ReplicaSet, Role, ℤ, pos, negsuc, Deployment, is_positive, is_zero, replicas_of, role_of, current,
}
use commitkube.ReplicaSets.Delete.{runs, is_idle, spared}

-- Nothing spares the set.
pub spared-none :
    (allow : Bool) (role : Role)
    → spared allow role ≡ none
    → ((allow ≡ true) ⊎ (runs role ≡ false)) × (is_idle role ≡ false)
unfolding spared
spared-none true role h = (inl refl, ground arith)
spared-none false role h = (inr (ground arith), ground arith)

-- No pods would go along, and the set is not the revision that its Deployment runs.
abbrev pub IsQuiet : ReplicaSet → Option Deployment → Type 0
IsQuiet rs d = (pods rs.replicas ≡ 0) × (IsCurrent rs d → ⊥)

-- The Deployment would make the set again at once.
abbrev pub IsRecreated : ReplicaSet → Option Deployment → Type 0
IsRecreated rs d = IsCurrent rs d × (at_zero rs.replicas ≡ true)

pods-positive : (o : Option ℤ) → is_positive (replicas_of o) ≡ false → pods o ≡ 0
unfolding is_positive replicas_of
pods-positive none h = refl
pods-positive (some (pos n)) h = ground arith
pods-positive (some (negsuc n)) h = refl

zero-at_zero : (o : Option ℤ) → at_zero o ≡ is_zero (replicas_of o)
unfolding is_zero replicas_of
zero-at_zero none = refl
zero-at_zero (some (pos n)) = ground arith
zero-at_zero (some (negsuc n)) = refl

current-kind :
    (rs : ReplicaSet) (d : Deployment)
    → IsCurrent rs (some d)
    → role_of rs (some d)
      ≡ record { kind = current; deployment = d.name; replicas = replicas_of rs.replicas }
unfolding role_of
current-kind rs d c =
    rw (ap₂ (λ a b. not a && b) c.0 (ap (λ r. rs.revision =s r) (sym c.1) ∙ =s_self rs.revision))
      refl

pub runs-IsQuiet :
    (rs : ReplicaSet) (d : Option Deployment) → runs (role_of rs d) ≡ false → IsQuiet rs d
unfolding runs role_of
runs-IsQuiet rs none h = (pods-positive rs.replicas h, λ c. c)
runs-IsQuiet rs (some d) h = (
  pods-positive rs.replicas (ground arith),
  λ c. absurd (ground (arith, ap runs (current-kind rs d c))),
)

pub is_idle-IsRecreated :
    (rs : ReplicaSet) (d : Option Deployment)
    → is_idle (role_of rs d) ≡ false
    → IsRecreated rs d
    → ⊥
unfolding is_idle
is_idle-IsRecreated rs none h c = c.0
is_idle-IsRecreated rs (some d) h c =
    absurd (ground (arith, ap is_idle (current-kind rs d c.0), zero-at_zero rs.replicas))
