-- ===== src/GitOps/Sync/Pruning.antt =====
-- What a sync may delete: backend/handlers/gitops_engine.go.
use commitkube.Base.{
  ◌∙◌, ap, sym, [], ◌∷◌, ◌≢◌, ◌≡◌, refl, String, true, false, not, ◌||◌, Option, none, some, List,
  arith, eq_iff, Bool-cases, inl, inr, All, any_where, =s_self, ◌=s◌,
}
use mathlib.Core.Bool.{false≢true}
use commitkube.GitOps.Types.{
  tracking_id_namespace, get, Obj, App, Resource, tracking_annotation, Answer, ok, failed, Mapping,
  Kube,
}
use commitkube.GitOps.Prepare.{Target, stamp_id}
use commitkube.GitOps.Sync.{
  Fate, remove, row_key, row_id, is_declared, pass, forget, leave, keep, meet, prune_all, Report,
  live_fate, mapped_fate, fate, target_key,
}

module _ (kube : Kube) where
  open kube use {World, mapping, get_object, delete}

  -- A target is the object of a row.
  pub record IsObject (r : Resource) (t : Target) : Type 0 where
    pub group : t.obj.gvk.group ≡ r.gvk.group
    pub kind : t.obj.gvk.kind ≡ r.gvk.kind
    pub namespace : t.obj.namespace ≡ r.namespace
    pub name : t.obj.name ≡ r.name

  pub no-IsObject :
      (r : Resource) (ts : List Target)
      → is_declared ts (row_key r) ≡ false
      → All (λ t. IsObject r t → ⊥) ts
  unfolding is_declared any_where
  no-IsObject r [] h = tt
  no-IsObject r (t ∷ ts) h = (
    λ o.
        let same : target_key t ≡ row_key r = cc (o.group, o.kind, o.namespace, o.name) in
        absurd (ground (arith, h, =s_self (row_key r), ap (λ k. k =s row_key r) same)),
    no-IsObject r ts (ground (arith, h)),
  )

  -- What the engine knows of an object at the moment that it deletes it.
  pub record Justified (app : App) (Undeclared : Resource → Type 0) (w : World) (r : Resource)
      (res : String) (live : Obj) : Type 0 where
    pub prunes : app.prune ≡ true
    pub applied : r.applied ≡ true
    pub undeclared : Undeclared r
    pub found : get_object w res r.namespace r.name ≡ ok (some live)
    pub owned : get tracking_annotation live.annotations ≡ row_id app r

  Justified-live_fate :
      (app : App) (U : Resource → Type 0) (w : World) (r : Resource) (res res' : String)
      (a : Answer (Option Obj))
      → r.applied ≡ true
      → U r
      → get_object w res r.namespace r.name ≡ a
      → live_fate app r res a ≡ remove res'
      → (live : Obj) × Justified app U w r res' live
  unfolding live_fate
  Justified-live_fate app U w r res res' (failed e) ap un g h = absurd (ground arith)
  Justified-live_fate app U w r res res' (ok none) ap un g h = absurd (ground arith)
  Justified-live_fate app U w r res res' (ok (some live)) ap un g h = (
    live,
    record {
      prunes = ground arith;
      applied = ap;
      undeclared = un;
      found = ground arith;
      owned = ground (arith, eq_iff (get tracking_annotation live.annotations) (row_id app r));
    },
  )

  Justified-mapped_fate :
      (app : App) (U : Resource → Type 0) (w : World) (r : Resource) (res : String)
      (a : Answer Mapping)
      → r.applied ≡ true
      → U r
      → mapped_fate kube app w r a ≡ remove res
      → (live : Obj) × Justified app U w r res live
  unfolding mapped_fate
  Justified-mapped_fate app U w r res (failed e) ap un h = absurd (ground arith)
  Justified-mapped_fate app U w r res (ok m) ap un h =
      Justified-live_fate app U w r m.resource res (get_object w m.resource r.namespace r.name) ap
        un refl h

  pub Justified-fate :
      (app : App) (ts : List Target) (U : Resource → Type 0) (w : World) (r : Resource)
      (res : String)
      → (is_declared ts (row_key r) ≡ false → U r)
      → fate kube app ts w r ≡ remove res
      → (live : Obj) × Justified app U w r res live
  unfolding fate
  Justified-fate app ts U w r res free h =
      elim (Bool-cases (not r.applied || is_declared ts (row_key r))) [
        | inl e ↦ absurd (ground arith)
        | inr e ↦
            Justified-mapped_fate app U w r res (mapping w r.gvk) (ground arith)
              (free (ground arith)) (rw e at h)
      ]

  -- A walk over the rows of the inventory, from the cluster before to the cluster after: a row is
  -- passed over, or its object is deleted for cause.
  pub data Deletions (app : App) (U : Resource → Type 0)
      : List Resource → World → World → Type 0 where
    done : {w : World} → Deletions app U [] w w
    sparing :
        {w w' : World} {r : Resource} {rs : List Resource}
        → Deletions app U rs w w'
        → Deletions app U (r ∷ rs) w w'
    deleting :
        {w w' : World} {r : Resource} {rs : List Resource} (res : String) (live : Obj)
        → Justified app U w r res live
        → Deletions app U rs (delete w res r.namespace r.name).1 w'
        → Deletions app U (r ∷ rs) w w'

  Deletions-step :
      (app : App) (ts : List Target) (U : Resource → Type 0) (r : Resource) (rs : List Resource)
      (w w' : World) (out : Report) (f : Fate)
      → (is_declared ts (row_key r) ≡ false → U r)
      → fate kube app ts w r ≡ f
      → Deletions app U rs (meet kube r f w out).0 w'
      → Deletions app U (r ∷ rs) w w'
  unfolding meet
  Deletions-step app ts U r rs w w' out pass free e d = sparing d
  Deletions-step app ts U r rs w w' out forget free e d = sparing d
  Deletions-step app ts U r rs w w' out leave free e d = sparing d
  Deletions-step app ts U r rs w w' out keep free e d = sparing d
  Deletions-step app ts U r rs w w' out (remove res) free e d =
      let (live, j) = Justified-fate app ts U w r res free e in deleting res live j d

  -- Pruning changes the cluster by deletions alone, in the order of the inventory, and only of an
  -- object that pruning is on for, that the engine applied, that no manifest declares now, and that
  -- still carries the id of this application.
  pub prune_all-Deletions :
      (app : App) (ts : List Target) (U : Resource → Type 0)
      → ((r : Resource) → is_declared ts (row_key r) ≡ false → U r)
      → (rs : List Resource) (w : World) (out : Report)
      → Deletions app U rs w (prune_all kube app ts rs w out).0
  unfolding prune_all
  prune_all-Deletions app ts U free [] w out = done
  prune_all-Deletions app ts U free (r ∷ rs) w out =
      Deletions-step app ts U r rs w _ out (fate kube app ts w r) (free r) refl (
        prune_all-Deletions app ts U free rs (meet kube r (fate kube app ts w r) w out).0
          (meet kube r (fate kube app ts w r) w out).1)

  -- With pruning off no deletion is possible.
  pub no-Deletions :
      {app : App} {U : Resource → Type 0} {rs : List Resource} {w w' : World}
      → app.prune ≡ false
      → Deletions app U rs w w'
      → w' ≡ w
  no-Deletions off done = refl
  no-Deletions off (sparing d) = no-Deletions off d
  no-Deletions off (deleting res live j d) = absurd (false≢true (sym off ∙ j.prunes))

  -- An object that the engine stamped for an application, and that lives outside the own namespace
  -- of the application, is never deleted: a row names the namespace of the object in its id, and
  -- the stamp names that of the application.
  pub stamped_elsewhere-kept :
      (app : App) (ts : List Target) (w : World) (r : Resource) (o : Obj) (live : Obj)
      (res : String)
      → o.gvk ≡ r.gvk
      → o.name ≡ r.name
      → r.namespace ≢ app.namespace
      → get_object w res r.namespace r.name ≡ ok (some live)
      → get tracking_annotation live.annotations ≡ stamp_id app o
      → fate kube app ts w r ≢ remove res
  stamped_elsewhere-kept app ts w r o live res same named away found stamped h =
      let (live', j) =
        Justified-fate app ts (λ x. is_declared ts (row_key x) ≡ false) w r res (λ e. e) h in
      let one : live' ≡ live = cc (j.found, found) in
      away (
        tracking_id_namespace app.name r.gvk.group r.gvk.kind r.namespace app.namespace r.name (
          sym j.owned
          ∙ ap (λ (x : Obj). get tracking_annotation x.annotations) one
          ∙ stamped
          ∙ cc (same, named)))
