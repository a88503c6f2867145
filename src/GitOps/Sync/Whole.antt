-- ===== src/GitOps/Sync/Whole.antt =====
-- `syncApp` as a whole: backend/handlers/gitops_engine.go.
use commitkube.GitOps.Prepare.Accepted.{IsAccepted, prepare_targets-none}
use commitkube.Base.{
  ◌≡◌, refl, false, List, arith, count_where, any_where, length, length-sort_stable, sort_stable,
  Bool, [], ◌∷◌, All, any_where-none, sym, ◌∙◌, count_where-sort_stable,
}
use commitkube.GitOps.Types.{Manifest, App, Resource, Kube}
use commitkube.GitOps.Prepare.{Target, prepare_targets}
use commitkube.GitOps.Prepare.Stamped.{has_key, prepare_targets-IsPrepared}
use commitkube.GitOps.Sync.{
  is_declared, row_key, nothing_done, less_target, report_invalid, apply_all, sync_app,
}
use commitkube.GitOps.Sync.Pruning.{
  IsObject, no-IsObject, Deletions, prune_all-Deletions, no-Deletions,
}
use commitkube.GitOps.Sync.Applying.{
  is_manifest_line, IsHonest, report_invalid-accounted, report_invalid-IsHonest,
  apply_all-accounted, apply_all-IsHonest, prune_all-accounted, prune_all-IsHonest,
}

none-counted {ℓ} :
    {A : Type ℓ} (p : A → Bool) (xs : List A) → any_where p xs ≡ false → count_where p xs ≡ 0
unfolding any_where count_where
none-counted p [] h = refl
none-counted p (x ∷ xs) h = ground (arith, none-counted p xs)

module _ (kube : Kube) where
  open kube use {World}

  -- The objects that a sync applies, in the order of its loop.
  abbrev pub sync_targets : App → World → List Manifest → List Target
  sync_targets app w ms = sort_stable less_target (prepare_targets kube app w ms).targets

  -- The cluster once everything that Git declares is applied.
  abbrev pub applied_world : App → World → List Manifest → World
  applied_world app w ms =
      (apply_all kube (sync_targets app w ms) w
        (report_invalid (prepare_targets kube app w ms).invalids nothing_done)).0

  -- Each manifest has one line of the report, and the sync counts as failed exactly when a line
  -- reports a failure.
  pub sync_app-reports :
      (app : App) (w : World) (ms : List Manifest) (inventory : List Resource)
      → (count_where is_manifest_line (sync_app kube app w ms inventory).1.lines ≡ length ms)
        × IsHonest (sync_app kube app w ms inventory).1
  unfolding sync_app count_where any_where
  sync_app-reports app w ms inventory =
      let p = prepare_targets kube app w ms in
      let ts = sync_targets app w ms in
      let r = report_invalid p.invalids nothing_done in
      let (w', out) = apply_all kube ts w r in
      (
        omega (
          arith,
          prune_all-accounted kube app ts inventory w' out,
          apply_all-accounted kube ts w r,
          report_invalid-accounted p.invalids nothing_done,
          length-sort_stable less_target p.targets,
          (prepare_targets-IsPrepared kube app w ms).complete,
        ),
        prune_all-IsHonest kube app ts inventory w' out
            (apply_all-IsHonest kube ts w r (report_invalid-IsHonest p.invalids nothing_done refl)),
      )

  undeclared-manifests :
      (app : App) (w : World) (ms : List Manifest) (r : Resource)
      → is_declared (sync_targets app w ms) (row_key r) ≡ false
      → All (λ m. IsAccepted kube app w r m → ⊥) ms
  unfolding is_declared
  undeclared-manifests app w ms r h = prepare_targets-none kube app w r ms (
      any_where-none (has_key (row_key r)) (prepare_targets kube app w ms).targets (
        sym (
          count_where-sort_stable less_target (has_key (row_key r))
            (prepare_targets kube app w ms).targets)
        ∙ none-counted (has_key (row_key r)) (sync_targets app w ms) h))

  -- The object of a row is none that the sync applies, and none that a manifest declares which the
  -- engine accepts.
  pub record IsUndeclared (app : App) (w : World) (ms : List Manifest) (r : Resource) : Type 0 where
    pub no_target : All (λ t. IsObject kube r t → ⊥) (sync_targets app w ms)
    pub no_manifest : All (λ m. IsAccepted kube app w r m → ⊥) ms

  -- After the objects that Git declares are applied, a sync changes the cluster by justified
  -- deletions alone: for a row of the inventory, in its order, with pruning on, an object that the
  -- engine applied, that is none of the targets of this sync and that no manifest declares which
  -- it accepts, and that carries the id of this application. It accepts a manifest that names an
  -- object of a kind that the cluster serves, where the application may have it.
  pub sync_app-Deletions :
      (app : App) (w : World) (ms : List Manifest) (inventory : List Resource)
      → Deletions kube app
          (IsUndeclared app w ms)
          inventory
          (applied_world app w ms)
          (sync_app kube app w ms inventory).0
  unfolding sync_app
  sync_app-Deletions app w ms inventory =
      prune_all-Deletions kube app (sync_targets app w ms) (IsUndeclared app w ms)
        (λ r h. record {
          no_target = no-IsObject kube r (sync_targets app w ms) h;
          no_manifest = undeclared-manifests app w ms r h;
        })
        inventory _ _

  -- With pruning off a sync leaves the cluster as applying the declared objects leaves it.
  pub sync_app-prune_off :
      (app : App) (w : World) (ms : List Manifest) (inventory : List Resource)
      → app.prune ≡ false
      → (sync_app kube app w ms inventory).0 ≡ applied_world app w ms
  sync_app-prune_off app w ms inventory off =
      no-Deletions kube off (sync_app-Deletions app w ms inventory)
