-- ===== src/GitOps/Compare/Verdict.antt =====
-- What a comparison says of an application: backend/handlers/gitops_engine.go.
use commitkube.Base.{
  suc, ◌≤◌, ◌≡◌, ◌≢◌, ◌↔◌, refl, ◌∙◌, String, Bool, true, false, Option, none, some, List, [], ◌∷◌,
  if◌then◌else◌, arith, eq_iff, Bool-cases, inl, inr, All,
}
use commitkube.GitOps.Health.{healthy, health_order, worse_health}
use commitkube.GitOps.Types.{
  Obj, Manifest, App, Resource, synced, Outcome, Answer, ok, failed, Kube,
}
use commitkube.GitOps.Prepare.{Target, prepare_targets}
use commitkube.GitOps.Compare.{
  same_lines, compare_live, compare_answers, compare_read, compare_target, compare_targets,
  compare_app, word_synced, word_out_of_sync, is_invalid, drifts, Tally, tally, summarize,
}

same_lines-eq : (xs ys : List String) → same_lines xs ys ≡ true → xs ≡ ys
same_lines-eq [] [] h = refl
same_lines-eq [] (y ∷ ys) h = cc
same_lines-eq (x ∷ xs) [] h = cc
same_lines-eq (x ∷ xs) (y ∷ ys) h = ground (arith, eq_iff x y, same_lines-eq xs ys)

abbrev AllSynced : List Outcome → Type 0
AllSynced = All (λ o. o.status ≡ synced)

tally-synced :
    (os : List Outcome) (t : Tally)
    → ((tally os t).sync ≡ word_synced) × ((tally os t).invalids ≡ 0)
    → (t.sync ≡ word_synced) × (t.invalids ≡ 0) × AllSynced os
unfolding tally
tally-synced [] t h = (h.0, h.1, tt)
tally-synced (o ∷ os) t h =
    let r = tally-synced os _ h in
    (ground (arith, r.0), ground (arith, r.1), (ground (arith, r.0, r.1), r.2))

synced-tally :
    (os : List Outcome) (t : Tally)
    → t.sync ≡ word_synced
    → t.invalids ≡ 0
    → AllSynced os
    → ((tally os t).sync ≡ word_synced) × ((tally os t).invalids ≡ 0)
unfolding tally
synced-tally [] t s i a = (s, i)
synced-tally (o ∷ os) t s i a = synced-tally os _ (ground (arith, a.0)) (ground (arith, a.0)) a.1

abbrev begun : Tally
begun = record { sync = word_synced; health = healthy; invalids = 0 }

-- An application is in sync exactly when it has objects and each of them is in sync.
pub summarize-synced :
    (os : List Outcome) → ((summarize os).sync ≡ word_synced) ↔ (os ≢ []) × AllSynced os
unfolding summarize
summarize-synced [] = (λ h. cc, λ h. absurd (h.0 refl))
summarize-synced (o ∷ os) = (
  λ h. (λ e. cc, (tally-synced (o ∷ os) begun (ground arith)).2),
  λ h. ground (arith, synced-tally (o ∷ os) begun refl refl h.1),
)

tally-worse :
    (os : List Outcome) (t : Tally)
    → (health_order t.health ≤ health_order (tally os t).health)
      × All
          (λ o.
            is_invalid o.status ≡ false → health_order o.health ≤ health_order (tally os t).health)
          os
unfolding tally worse_health
tally-worse [] t = (omega arith, tt)
tally-worse (o ∷ os) t =
    let r = tally-worse os (record {
      sync = if drifts o.status then word_out_of_sync else t.sync;
      health = if is_invalid o.status then t.health else worse_health t.health o.health;
      invalids = if is_invalid o.status then suc t.invalids else t.invalids;
    }) in
    (
      ground (arith, r.0, health_order t.health, health_order o.health),
      (λ v. ground (arith, r.0, v), r.1),
    )

-- Of the objects that can be applied none is in worse health than the application.
pub summarize-worst :
    (os : List Outcome)
    → All
        (λ o.
          is_invalid o.status ≡ false → health_order o.health ≤ health_order (summarize os).health)
        os
unfolding summarize
summarize-worst [] = tt
summarize-worst (o ∷ os) = (tally-worse (o ∷ os) _).1

module _ (yaml : Obj → List String) where
  -- An object is reported in sync only if it is live and applying it again would change no line of
  -- it.
  pub compare_answers-synced :
      (o : Obj) (done : Bool) (live : Answer (Option Obj)) (predicted : Answer Obj)
      → (compare_answers yaml o done live predicted).status ≡ synced
      → (l : Obj) × (p : Obj) × (live ≡ ok (some l)) × (predicted ≡ ok p) × (yaml l ≡ yaml p)
  unfolding compare_answers compare_live
  compare_answers-synced o done (failed e) p h = cc
  compare_answers-synced o done (ok live) (failed e) h = cc
  compare_answers-synced o done (ok none) (ok p) h = cc
  compare_answers-synced o done (ok (some l)) (ok p) h =
      elim (Bool-cases (same_lines (yaml l) (yaml p))) [
        | inl e ↦ (l, p, refl, refl, same_lines-eq (yaml l) (yaml p) e)
        | inr e ↦ cc (rw e at h)
      ]

  module _ (kube : Kube) where
    open kube use {World, get_object, apply}

    -- A dry run writes nothing.
    abbrev pub DryRunsAreDry : Type 0
    DryRunsAreDry = (w : World) (res ns : String) (o : Obj) → (apply w res ns o true).1 ≡ w

    world-compare_target :
        (inventory : List Resource) (w : World) (t : Target)
        → DryRunsAreDry
        → (compare_target yaml kube inventory w t).1 ≡ w
    unfolding compare_target
    world-compare_target inventory w t dry =
        at_read (get_object w t.resource t.obj.namespace t.obj.name)
      where
        at_read : (a : Answer (Option Obj)) → (compare_read yaml kube inventory w t a).1 ≡ w
        at_read (failed e) = refl
        at_read (ok live) = dry w t.resource t.obj.namespace t.obj

    world-compare_targets :
        (inventory : List Resource) (w : World) (ts : List Target)
        → DryRunsAreDry
        → (compare_targets yaml kube inventory w ts).1 ≡ w
    unfolding compare_targets
    world-compare_targets inventory w [] dry = refl
    world-compare_targets inventory w (t ∷ ts) dry =
        world-compare_targets inventory (compare_target yaml kube inventory w t).1 ts dry
        ∙ world-compare_target inventory w t dry

    -- Where a dry run writes nothing, a refresh leaves the cluster as it was.
    pub compare_app-reads_only :
        (app : App) (w : World) (ms : List Manifest) (inventory : List Resource)
        → DryRunsAreDry
        → (compare_app yaml kube app w ms inventory).1 ≡ w
    unfolding compare_app
    compare_app-reads_only app w ms inventory dry =
        world-compare_targets inventory w (prepare_targets kube app w ms).targets dry
