-- ===== src/GitOps/Prepare/Accepted.antt =====
-- The manifests that a sync accepts, said of the manifests themselves, and that each of them has its
-- target: prepareTargets of backend/handlers/gitops_engine.go.
use commitkube.Base.{
  ◌≡◌, refl, sym, ap, ◌∙◌, String, Bool, true, false, not, ◌||◌, List, [], ◌∷◌, ◌++◌, ◌=s◌,
  any_where, All, arith, =s_self, Bool-cases, inl, inr, if◌then◌else◌, ◌&&◌,
}
use commitkube.GitOps.Types.{
  Obj, Manifest, App, Resource, Reason, Answer, ok, failed, Mapping, Kube, object_key,
  other_namespace,
}
use commitkube.GitOps.Prepare.{
  Prepared, refuse, Placing, placed, misplaced, place, key_of, target_of, mem, admit, settle_place,
  settle_mapping, prepare, prepare_all, prepare_targets, start,
}
use commitkube.GitOps.Prepare.Stamped.{has_key, mem-put}

-- The namespace that an object comes to stand in, by whether its kind is namespaced and the
-- namespace that its manifest writes.
pub data StandsIn (app : App) : Bool → String → String → Type 0 where
  cluster_wide : {written : String} → app.cluster_scope ≡ true → StandsIn app false written ""
  by_default : StandsIn app true "" app.namespace
  as_written :
      {written : String}
      → (written =s "") ≡ false
      → (written =s app.namespace || app.cluster_scope) ≡ true
      → StandsIn app true written written

module _ (kube : Kube) where
  open kube use {World, mapping}

  -- A manifest that names an object of a kind that the cluster serves, where the application may
  -- have it, and the object is that of the row.
  pub record IsAccepted (app : App) (w : World) (r : Resource) (m : Manifest) : Type 0 where
    pub named : (m.obj.name =s "") ≡ false
    pub kind_of : Mapping
    pub served : mapping w m.obj.gvk ≡ ok kind_of
    pub stands : StandsIn app kind_of.namespaced m.obj.namespace r.namespace
    pub same_group : m.obj.gvk.group ≡ r.gvk.group
    pub same_kind : m.obj.gvk.kind ≡ r.gvk.kind
    pub same_name : m.obj.name ≡ r.name

place-StandsIn :
    (app : App) (n : Bool) (written ns : String)
    → StandsIn app n written ns
    → place app n written ≡ placed ns
unfolding place
place-StandsIn app false written ns (cluster_wide c) = rw c refl
place-StandsIn app true written ns by_default = refl
place-StandsIn app true written ns (as_written w c) =
    rw w (at_test (written =s app.namespace) app.cluster_scope c)
  where
    at_test :
        (a b : Bool)
        → (a || b) ≡ true
        → (if not a && not b then misplaced (other_namespace written) else placed written)
          ≡ placed written
    at_test true b h = refl
    at_test false true h = refl
    at_test false false h = absurd (ground arith)

any_where-append {ℓ} :
    {A : Type ℓ} (p : A → Bool) (xs ys : List A)
    → any_where p (xs ++ ys) ≡ (any_where p xs || any_where p ys)
unfolding any_where
any_where-append p [] ys = refl
any_where-append p (x ∷ xs) ys = ground (arith, any_where-append p xs ys)

module _ (k : String) where
  abbrev has : Prepared → Bool
  has p = any_where (has_key k) p.targets

  -- What was seen has a target.
  abbrev IsKnown : Prepared → Type 0
  IsKnown p = mem k p.seen ≡ true → has p ≡ true

  record Grows (p q : Prepared) : Type 0 where
    known : IsKnown p → IsKnown q
    more : has p ≡ true → has q ≡ true

  same-Grows : (o : Obj) (ns : String) (r : Reason) (p : Prepared) → Grows p (refuse o ns r p)
  same-Grows o ns r p = record { known = λ h. h; more = λ h. h }

  admit-Grows :
      (app : App) (m : Manifest) (ns res : String) (p : Prepared) → Grows p (admit app m ns res p)
  unfolding admit any_where
  admit-Grows app m ns res p = elim (Bool-cases (mem (key_of m.obj ns) p.seen)) [
    | inl dup ↦ rw dup (same-Grows m.obj ns _ p)
    | inr new ↦ rw new (record {
      known = λ h seen. ground (
        arith,
        h,
        rw (mem-put (key_of m.obj ns) k m.file p.seen) at seen,
        any_where-append (has_key k) p.targets (target_of app m ns res ∷ []),
      );
      more = λ h.
          ground (arith, h, any_where-append (has_key k) p.targets (target_of app m ns res ∷ []));
    })
  ]

  settle_place-Grows :
      (app : App) (m : Manifest) (res : String) (o : Placing) (p : Prepared)
      → Grows p (settle_place app m res o p)
  unfolding settle_place
  settle_place-Grows app m res (misplaced r) p = same-Grows m.obj m.obj.namespace r p
  settle_place-Grows app m res (placed ns) p = admit-Grows app m ns res p

  settle_mapping-Grows :
      (app : App) (m : Manifest) (a : Answer Mapping) (p : Prepared)
      → Grows p (settle_mapping app m a p)
  unfolding settle_mapping
  settle_mapping-Grows app m (failed e) p = same-Grows m.obj m.obj.namespace _ p
  settle_mapping-Grows app m (ok r) p =
      settle_place-Grows app m r.resource (place app r.namespaced m.obj.namespace) p

  -- An admitted object has its target.
  admit-has :
      (app : App) (m : Manifest) (ns res : String) (p : Prepared)
      → key_of m.obj ns ≡ k
      → IsKnown p
      → has (admit app m ns res p) ≡ true
  unfolding admit any_where
  admit-has app m ns res p same known = elim (Bool-cases (mem (key_of m.obj ns) p.seen)) [
    | inl dup ↦ rw dup (known (ap (λ j. mem j p.seen) (sym same) ∙ dup))
    | inr new ↦ rw new (
        any_where-append (has_key k) p.targets (target_of app m ns res ∷ [])
        ∙ ground (arith, ap (λ j. j =s k) same ∙ =s_self k))
  ]

module _ (kube : Kube) (app : App) (w : kube.World) (r : Resource) where
  abbrev row : String
  row = object_key r.gvk.group r.gvk.kind r.namespace r.name

  prepare-Grows : (m : Manifest) (p : Prepared) → Grows row p (prepare kube app w m p)
  unfolding prepare
  prepare-Grows m p = elim (Bool-cases (m.obj.name =s "")) [
    | inl e ↦ rw e (same-Grows row m.obj m.obj.namespace _ p)
    | inr e ↦ rw e (settle_mapping-Grows row app m (kube.mapping w m.obj.gvk) p)
  ]

  prepare-has :
      (m : Manifest) (p : Prepared)
      → IsAccepted kube app w r m
      → IsKnown row p
      → has row (prepare kube app w m p) ≡ true
  unfolding prepare settle_mapping settle_place
  prepare-has m p a known =
      let same : key_of m.obj r.namespace ≡ row = cc (a.same_group, a.same_kind, a.same_name) in
      rw a.named (
        rw a.served (
          rw (place-StandsIn app a.kind_of.namespaced m.obj.namespace r.namespace a.stands)
            (admit-has row app m r.namespace a.kind_of.resource p same known)))

  prepare_all-more :
      (ms : List Manifest) (p : Prepared)
      → has row p ≡ true
      → has row (prepare_all kube app w ms p) ≡ true
  unfolding prepare_all
  prepare_all-more [] p h = h
  prepare_all-more (m ∷ ms) p h =
      prepare_all-more ms (prepare kube app w m p) ((prepare-Grows m p).more h)

  prepare_all-none :
      (ms : List Manifest) (p : Prepared)
      → IsKnown row p
      → has row (prepare_all kube app w ms p) ≡ false
      → All (λ m. IsAccepted kube app w r m → ⊥) ms
  unfolding prepare_all
  prepare_all-none [] p known h = tt
  prepare_all-none (m ∷ ms) p known h = (
    λ a.
        absurd (
          ground
            (arith, h, prepare_all-more ms (prepare kube app w m p) (prepare-has m p a known))),
    prepare_all-none ms (prepare kube app w m p) ((prepare-Grows m p).known known) h,
  )

  -- An object that no target is, no accepted manifest declares.
  pub prepare_targets-none :
      (ms : List Manifest)
      → any_where (has_key row) (prepare_targets kube app w ms).targets ≡ false
      → All (λ m. IsAccepted kube app w r m → ⊥) ms
  unfolding prepare_targets mem
  prepare_targets-none ms h = prepare_all-none ms start (λ seen. absurd (ground (arith, seen))) h
