-- ===== src/ReplicaSets/Ownership.antt =====
-- The Deployment that stands behind a ReplicaSet, apart from how classifyReplicaSet of
-- backend/handlers/replicaset_actions.go looks for it.
use commitkube.Base.{
  true, ℕ, Bool, ◌≡◌, refl, String, false, Option, none, some, List, [], ◌∷◌, ◌=s◌, find_first, ap,
  sym, ◌∙◌, arith, Bool-cases, inl, inr, =s_true, ◌==◌,
}
use commitkube.ReplicaSets.Role.{
  negsuc, pos, ℤ, Owner, ReplicaSet, Deployment, Answer, ok, failed, Client, owning_deployment,
  found, role_of, classify,
}

-- The first owner that is a Deployment.
abbrev pub deployment_owner : ReplicaSet → Option Owner
deployment_owner rs = find_first (λ (o : Owner). o.kind =s "Deployment") rs.owners

-- The Deployment that was read for a set; none, where no Deployment owns the set, where the owner has
-- no name, or where the Deployment could not be read.
pub data Behind (client : Client) (w : client.World) (ns : String) (rs : ReplicaSet)
    : Option Deployment → Type 0 where
  unowned : deployment_owner rs ≡ none → Behind client w ns rs none
  unnamed : (o : Owner) → deployment_owner rs ≡ some o → o.name ≡ "" → Behind client w ns rs none
  unread :
      (o : Owner) (e : String)
      → deployment_owner rs ≡ some o
      → client.get_deployment w ns o.name ≡ failed e
      → Behind client w ns rs none
  owned :
      (o : Owner) (d : Deployment)
      → deployment_owner rs ≡ some o
      → client.get_deployment w ns o.name ≡ ok d
      → Behind client w ns rs (some d)

owner_name : Option Owner → String
owner_name none = ""
owner_name (some o) = o.name

named-owner :
    (os : List Owner)
    → owning_deployment os ≡ owner_name (find_first (λ (o : Owner). o.kind =s "Deployment") os)
unfolding owning_deployment find_first owner_name
named-owner [] = refl
named-owner (o ∷ os) = elim (Bool-cases (o.kind =s "Deployment")) [
  | inl e ↦ rw e refl
  | inr e ↦ rw e (named-owner os)
]

module _ (client : Client) (w : client.World) (ns : String) (rs : ReplicaSet) where
  -- How the code came to the role of a set.
  abbrev Found : Type 0
  Found =
      (d : Option Deployment) × (Behind client w ns rs d × (classify client w ns rs ≡ role_of rs d))

  nameless :
      (o : Option Owner) → deployment_owner rs ≡ o → owner_name o ≡ "" → Behind client w ns rs none
  unfolding owner_name
  nameless none e h = unowned e
  nameless (some o) e h = unnamed o e h

  asked :
      (o : Option Owner) (a : Answer Deployment)
      → deployment_owner rs ≡ o
      → (owner_name o =s "") ≡ false
      → client.get_deployment w ns (owner_name o) ≡ a
      → Behind client w ns rs (found a)
  unfolding owner_name found
  asked none a e h g = absurd (ground arith)
  asked (some o) (ok d) e h g = owned o d e g
  asked (some o) (failed m) e h g = unread o m e g

  pub classify-Behind : Found
  unfolding classify
  classify-Behind = elim (Bool-cases (owning_deployment rs.owners =s "")) [
    | inl e ↦ (
      none,
      (
        nameless (deployment_owner rs) refl
            (sym (named-owner rs.owners) ∙ =s_true (owning_deployment rs.owners) "" e),
        rw e refl,
      ),
    )
    | inr e ↦ (
      found (client.get_deployment w ns (owning_deployment rs.owners)),
      (
        asked (deployment_owner rs) (client.get_deployment w ns (owning_deployment rs.owners)) refl
            (ap (λ n. n =s "") (sym (named-owner rs.owners)) ∙ e)
            (ap (client.get_deployment w ns) (sym (named-owner rs.owners))),
        rw e refl,
      ),
    )
  ]

-- The pods that a set asks for.
abbrev pub pods : Option ℤ → ℕ
pods none = 0
pods (some (pos n)) = n
pods (some (negsuc n)) = 0

abbrev pub at_zero : Option ℤ → Bool
at_zero none = true
at_zero (some (pos n)) = n == 0
at_zero (some (negsuc n)) = false

-- The revision that the Deployment runs.
abbrev pub IsCurrent : ReplicaSet → Option Deployment → Type 0
IsCurrent rs none = ⊥
IsCurrent rs (some d) = ((rs.revision =s "") ≡ false) × (rs.revision ≡ d.revision)
