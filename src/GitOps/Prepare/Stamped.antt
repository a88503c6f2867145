-- ===== src/GitOps/Prepare/Stamped.antt =====
-- What a prepared target is: backend/handlers/gitops_engine.go.
use commitkube.Base.{
  subst, ℕ, suc, ◌+◌, ◌≤◌, ◌≡◌, refl, String, Bool, true, false, List, [], ◌∷◌, ◌++◌, ◌=s◌,
  if◌then◌else◌, arith, eq_iff, Bool-cases, inl, inr, All, All-append, count_where,
  count_where-append, length, length-append,
}
use commitkube.GitOps.Types.{
  Labels, get, put, Obj, Manifest, App, tracking_label, tracking_annotation, Answer, ok, failed,
  Mapping, Kube, Reason,
}
use commitkube.GitOps.Prepare.{
  Target, Prepared, start, refusal, refuse, Placing, placed, misplaced, place, key_of, stamp_id,
  target_of, mem, admit, settle_place, settle_mapping, prepare, prepare_all, prepare_targets,
}

get-put : (k j v : String) (m : Labels) → get j (put k v m) ≡ (if k =s j then v else get j m)
unfolding get put
get-put k j v [] = refl
get-put k j v ((i, w) ∷ m) = ground (arith, eq_iff k j, eq_iff i k, eq_iff i j, get-put k j v m)

pub mem-put : (k j v : String) (m : Labels) → mem j (put k v m) ≡ (if k =s j then true else mem j m)
unfolding mem put
mem-put k j v [] = refl
mem-put k j v ((i, w) ∷ m) = ground (arith, eq_iff k j, eq_iff i k, eq_iff i j, mem-put k j v m)

-- A target carries the application's label and id, a name, and, unless the application has
-- cluster scope, the application's namespace.
pub record IsStamped (app : App) (t : Target) : Type 0 where
  pub tracked : get tracking_annotation t.obj.annotations ≡ t.tracking
  pub id : t.tracking ≡ stamp_id app t.obj
  pub labelled : get tracking_label t.obj.labels ≡ app.name
  pub confined : app.cluster_scope ≡ false → t.obj.namespace ≡ app.namespace

abbrev pub has_key : String → Target → Bool
has_key k t = key_of t.obj t.obj.namespace =s k

pub record IsPrepared (app : App) (handled : ℕ) (p : Prepared) : Type 0 where
  pub stamped : All (IsStamped app) p.targets
  pub distinct : (k : String) → count_where (has_key k) p.targets ≤ (if mem k p.seen then 1 else 0)
  pub complete : length p.targets + length p.invalids ≡ handled

confined-place :
    (app : App) (namespaced : Bool) (ns own : String)
    → place app namespaced ns ≡ placed own
    → app.cluster_scope ≡ false
    → own ≡ app.namespace
unfolding place
confined-place app namespaced ns own h c = ground (arith, eq_iff ns "", eq_iff ns app.namespace)

refuse-IsPrepared :
    (app : App) (n : ℕ) (o : Obj) (ns : String) (r : Reason) (p : Prepared)
    → IsPrepared app n p
    → IsPrepared app (suc n) (refuse o ns r p)
refuse-IsPrepared app n o ns r p i = record {
  stamped = i.stamped;
  distinct = i.distinct;
  complete = omega (arith, i.complete, length-append p.invalids (refusal o ns r ∷ []));
}

IsStamped-target_of :
    (app : App) (m : Manifest) (ns res : String)
    → (app.cluster_scope ≡ false → ns ≡ app.namespace)
    → IsStamped app (target_of app m ns res)
IsStamped-target_of app m ns res c = record {
  tracked =
      rw (get-put tracking_annotation tracking_annotation (stamp_id app m.obj) m.obj.annotations);
  id = refl;
  labelled = rw (get-put tracking_label tracking_label app.name m.obj.labels);
  confined = c;
}

admit-IsPrepared :
    (app : App) (n : ℕ) (m : Manifest) (ns res : String) (p : Prepared)
    → (app.cluster_scope ≡ false → ns ≡ app.namespace)
    → IsPrepared app n p
    → IsPrepared app (suc n) (admit app m ns res p)
unfolding admit count_where
admit-IsPrepared app n m ns res p c i = elim (Bool-cases (mem (key_of m.obj ns) p.seen)) [
  | inl dup ↦ rw dup (refuse-IsPrepared app n m.obj ns _ p i)
  | inr new ↦ rw new (record {
    stamped =
        All-append (IsStamped app) p.targets _ i.stamped (IsStamped-target_of app m ns res c, tt);
    distinct = λ k. distinct_with new k;
    complete = omega (arith, i.complete, length-append p.targets (target_of app m ns res ∷ []));
  })
]
  where
    distinct_with :
        mem (key_of m.obj ns) p.seen ≡ false
        → (k : String)
        → count_where (has_key k) (p.targets ++ target_of app m ns res ∷ [])
          ≤ (if mem k (put (key_of m.obj ns) m.file p.seen) then 1 else 0)
    distinct_with new k = rw (mem-put (key_of m.obj ns) k m.file p.seen) (
        ground (
          arith,
          i.distinct k,
          eq_iff (key_of m.obj ns) k,
          count_where-append (has_key k) p.targets (target_of app m ns res ∷ []),
        ))

settle_place-IsPrepared :
    (app : App) (n : ℕ) (m : Manifest) (res : String) (o : Placing) (p : Prepared)
    → ((own : String) → o ≡ placed own → app.cluster_scope ≡ false → own ≡ app.namespace)
    → IsPrepared app n p
    → IsPrepared app (suc n) (settle_place app m res o p)
unfolding settle_place
settle_place-IsPrepared app n m res (misplaced r) p c i =
    refuse-IsPrepared app n m.obj m.obj.namespace r p i
settle_place-IsPrepared app n m res (placed ns) p c i =
    admit-IsPrepared app n m ns res p (c ns refl) i

settle_mapping-IsPrepared :
    (app : App) (n : ℕ) (m : Manifest) (a : Answer Mapping) (p : Prepared)
    → IsPrepared app n p
    → IsPrepared app (suc n) (settle_mapping app m a p)
unfolding settle_mapping
settle_mapping-IsPrepared app n m (failed e) p i =
    refuse-IsPrepared app n m.obj m.obj.namespace _ p i
settle_mapping-IsPrepared app n m (ok r) p i =
    settle_place-IsPrepared app n m r.resource (place app r.namespaced m.obj.namespace) p
      (λ own h. confined-place app r.namespaced m.obj.namespace own h) i

module _ (kube : Kube) where
  open kube use {World, mapping}

  prepare-IsPrepared :
      (app : App) (n : ℕ) (w : World) (m : Manifest) (p : Prepared)
      → IsPrepared app n p
      → IsPrepared app (suc n) (prepare kube app w m p)
  unfolding prepare
  prepare-IsPrepared app n w m p i = elim (Bool-cases (m.obj.name =s "")) [
    | inl e ↦ rw e (refuse-IsPrepared app n m.obj m.obj.namespace _ p i)
    | inr e ↦ rw e (settle_mapping-IsPrepared app n m (mapping w m.obj.gvk) p i)
  ]

  prepare_all-IsPrepared :
      (app : App) (n : ℕ) (w : World) (ms : List Manifest) (p : Prepared)
      → IsPrepared app n p
      → IsPrepared app (length ms + n) (prepare_all kube app w ms p)
  unfolding prepare_all
  prepare_all-IsPrepared app n w [] p i = subst (λ k. IsPrepared app k p) (omega arith) i
  prepare_all-IsPrepared app n w (m ∷ ms) p i =
      subst (λ k. IsPrepared app k (prepare_all kube app w ms (prepare kube app w m p)))
        (omega arith)
        (prepare_all-IsPrepared app (suc n) w ms (prepare kube app w m p)
          (prepare-IsPrepared app n w m p i))

  -- Every manifest becomes a target or an invalid result; a target carries the label and tracking
  -- id of the application and, without cluster scope, its namespace; no two targets are one
  -- object.
  pub prepare_targets-IsPrepared :
      (app : App) (w : World) (ms : List Manifest)
      → IsPrepared app (length ms) (prepare_targets kube app w ms)
  unfolding prepare_targets count_where
  prepare_targets-IsPrepared app w ms =
      subst (λ k. IsPrepared app k (prepare_targets kube app w ms)) (omega arith)
        (prepare_all-IsPrepared app 0 w ms start
          (record { stamped = tt; distinct = λ k. omega arith; complete = omega arith }))
