-- ===== src/ReplicaSets/Scale.antt =====
-- `ScaleReplicaSet` of backend/handlers/replicaset_actions.go, and what it writes.
use commitkube.ReplicaSets.Ownership.{Behind, classify-Behind}
use commitkube.Base.{
  sym, subst, ◌≡◌, refl, String, Bool, true, false, not, ◌||◌, Option, none, some, ◌=s◌,
  if◌then◌else◌, ltb, arith, =s_true, ℕ, ◌≤◌, ◌∙◌, ap, eq_iff, ◌≢◌,
}
use commitkube.ReplicaSets.Role.{
  ℤ, pos, negsuc, ReplicaSet, Answer, ok, failed, Client, Role, classify, Deployment, role_of,
}

pub record Request : Type 0 where
  pub namespace : String
  pub name : String
  pub replicas : Option ℤ

pub data Response : Type 0 where
  bad_request out_of_range forbidden : Response
  api_error : String → Response
  scaled_set scaled_deployment : String → ℤ → ℤ → Response

unfoldable pub in_range : ℤ → Bool
in_range (pos n) = not (ltb 100 n)
in_range (negsuc n) = false

-- "" where there is no Deployment.
abbrev pub name_of : Option Deployment → String
name_of none = ""
name_of (some d) = d.name

unfoldable pub finish : {W : Type 0} → Response → Option String × W → W × Response
finish done (some e, w) = (w, api_error e)
finish done (none, w) = (w, done)

module _ (client : Client) where
  open client use {World, get_set, set_scale, deployment_scale, scale_set, scale_deployment}

  unfoldable pub scale_owner : String → String → ℤ → Answer ℤ → World → World × Response
  scale_owner ns d n (failed e) w = (w, api_error e)
  scale_owner ns d n (ok previous) w =
      finish (scaled_deployment d previous n) (scale_deployment w ns d n)

  unfoldable pub scale_alone : String → String → ℤ → Answer ℤ → World → World × Response
  scale_alone ns name n (failed e) w = (w, api_error e)
  scale_alone ns name n (ok previous) w =
      finish (scaled_set name previous n) (scale_set w ns name n)

  -- A set that a Deployment owns is scaled through the Deployment.
  unfoldable pub scale_by_role : String → String → ℤ → Role → World → World × Response
  scale_by_role ns name n role w =
      if role.deployment =s ""
      then scale_alone ns name n (set_scale w ns name) w
      else scale_owner ns role.deployment n (deployment_scale w ns role.deployment) w

  unfoldable pub scale_found : String → String → ℤ → Answer ReplicaSet → World → World × Response
  scale_found ns name n (failed e) w = (w, api_error e)
  scale_found ns name n (ok rs) w = scale_by_role ns name n (classify client w ns rs) w

  module _ (namespace_allowed : String → Bool) where
    unfoldable pub scale_checked : String → String → Option ℤ → World → World × Response
    scale_checked ns name none w = (w, bad_request)
    scale_checked ns name (some n) w =
        if not (in_range n)
        then (w, out_of_range)
        else if not (namespace_allowed ns)
        then (w, forbidden)
        else scale_found ns name n (get_set w ns name) w

    -- `ScaleReplicaSet`, with a client at hand.
    unfoldable pub scale_replica_set : Request → World → World × Response
    scale_replica_set req w =
        if req.namespace =s "" || req.name =s ""
        then (w, bad_request)
        else scale_checked req.namespace req.name req.replicas w

    -- How a request to scale leaves the cluster.
    pub data Effect (req : Request) (w : World) : World → Type 0 where
      untouched : Effect req w w
      set_alone :
          (rs : ReplicaSet) (k : ℕ) (d : Option Deployment)
          → req.replicas ≡ some (pos k)
          → k ≤ 100
          → namespace_allowed req.namespace ≡ true
          → get_set w req.namespace req.name ≡ ok rs
          → Behind client w req.namespace rs d
          → name_of d ≡ ""
          → Effect req w (scale_set w req.namespace req.name (pos k)).1
      through_owner :
          (rs : ReplicaSet) (k : ℕ) (d : Deployment)
          → req.replicas ≡ some (pos k)
          → k ≤ 100
          → namespace_allowed req.namespace ≡ true
          → get_set w req.namespace req.name ≡ ok rs
          → Behind client w req.namespace rs (some d)
          → d.name ≢ ""
          → Effect req w (scale_deployment w req.namespace d.name (pos k)).1

    world-finish : (done : Response) (p : Option String × World) → (finish done p).0 ≡ p.1
    unfolding finish
    world-finish done (some e, w) = refl
    world-finish done (none, w) = refl

    Effect-scale_alone :
        (req : Request) (n : ℤ) (a : Answer ℤ) (w : World)
        → Effect req w (scale_set w req.namespace req.name n).1
        → Effect req w (scale_alone req.namespace req.name n a w).0
    unfolding scale_alone
    Effect-scale_alone req n (failed e) w h = untouched
    Effect-scale_alone req n (ok previous) w h =
        subst (Effect req w) (sym (world-finish _ (scale_set w req.namespace req.name n))) h

    Effect-scale_owner :
        (req : Request) (d : String) (n : ℤ) (a : Answer ℤ) (w : World)
        → Effect req w (scale_deployment w req.namespace d n).1
        → Effect req w (scale_owner req.namespace d n a w).0
    unfolding scale_owner
    Effect-scale_owner req d n (failed e) w h = untouched
    Effect-scale_owner req d n (ok previous) w h =
        subst (Effect req w) (sym (world-finish _ (scale_deployment w req.namespace d n))) h

    Effect-scale_by_role :
        (req : Request) (k : ℕ) (rs : ReplicaSet) (d : Option Deployment) (w : World)
        → req.replicas ≡ some (pos k)
        → k ≤ 100
        → namespace_allowed req.namespace ≡ true
        → get_set w req.namespace req.name ≡ ok rs
        → Behind client w req.namespace rs d
        → Effect req w (scale_by_role req.namespace req.name (pos k) (role_of rs d) w).0
    unfolding scale_by_role role_of
    Effect-scale_by_role req k rs none w r i a g behind =
        Effect-scale_alone req (pos k) (set_scale w req.namespace req.name) w
          (set_alone rs k none r i a g behind refl)
    Effect-scale_by_role req k rs (some d) w r i a g behind = at_head (d.name =s "") refl
      where
        at_head :
            (b : Bool)
            → (d.name =s "") ≡ b
            → Effect req w
                (if◌then◌else◌ {A = World × Response} b
                  (scale_alone req.namespace req.name
                    (pos k)
                    (set_scale w req.namespace req.name)
                    w)
                  (scale_owner req.namespace d.name
                    (pos k)
                    (deployment_scale w req.namespace d.name)
                    w)).0
        at_head true e =
            Effect-scale_alone req (pos k) (set_scale w req.namespace req.name) w
              (set_alone rs k (some d) r i a g behind (=s_true d.name "" e))
        at_head false e =
            Effect-scale_owner req d.name (pos k) (deployment_scale w req.namespace d.name) w
              (through_owner rs k d r i a g behind (λ o. ground (arith, eq_iff d.name "")))

    Effect-scale_found :
        (req : Request) (k : ℕ) (a : Answer ReplicaSet) (w : World)
        → req.replicas ≡ some (pos k)
        → k ≤ 100
        → namespace_allowed req.namespace ≡ true
        → get_set w req.namespace req.name ≡ a
        → Effect req w (scale_found req.namespace req.name (pos k) a w).0
    unfolding scale_found
    Effect-scale_found req k (failed e) w r i a g = untouched
    Effect-scale_found req k (ok rs) w r i a g =
        let (d, (behind, role)) = classify-Behind client w req.namespace rs in
        subst (λ x. Effect req w (scale_by_role req.namespace req.name (pos k) x w).0) (sym role)
          (Effect-scale_by_role req k rs d w r i a g behind)

    range-lem : (n : ℤ) → in_range n ≡ true → (k : ℕ) × ((n ≡ pos k) × (k ≤ 100))
    unfolding in_range
    range-lem (pos k) h = (k, (refl, ground arith))
    range-lem (negsuc k) h = absurd (ground arith)

    Effect-scale_checked :
        (req : Request) (o : Option ℤ) (w : World)
        → req.replicas ≡ o
        → Effect req w (scale_checked req.namespace req.name o w).0
    unfolding scale_checked
    Effect-scale_checked req none w r = untouched
    Effect-scale_checked req (some n) w r =
        at_head (in_range n) (namespace_allowed req.namespace) refl refl
      where
        at_head :
            (b c : Bool)
            → in_range n ≡ b
            → namespace_allowed req.namespace ≡ c
            → Effect req w
                (if◌then◌else◌ {A = World × Response}
                  (not b)
                  (w, out_of_range)
                  (if not c
                    then (w, forbidden)
                    else scale_found req.namespace req.name n
                        (get_set w req.namespace req.name)
                        w)).0
        at_head false c e f = untouched
        at_head true false e f = untouched
        at_head true true e f =
            let (k, (same, within)) = range-lem n e in
            subst
              (λ x.
                Effect req w
                  (scale_found req.namespace req.name x (get_set w req.namespace req.name) w).0)
              (sym same)
              (Effect-scale_found req k (get_set w req.namespace req.name) w (r ∙ ap some same)
                within f refl)

    -- A request to scale leaves the cluster alone, or writes one count from 0 to 100 in a
    -- namespace that the caller may see: of the Deployment that owns the set, where one was read,
    -- and else of the set, also where its Deployment could not be read.
    pub scale_replica_set-Effect :
        (req : Request) (w : World) → Effect req w (scale_replica_set req w).0
    unfolding scale_replica_set
    scale_replica_set-Effect req w = at_head (req.namespace =s "" || req.name =s "")
      where
        at_head :
            (b : Bool)
            → Effect req w
                (if◌then◌else◌ {A = World × Response} b
                  (w, bad_request)
                  (scale_checked req.namespace req.name req.replicas w)).0
        at_head true = untouched
        at_head false = Effect-scale_checked req req.replicas w refl
