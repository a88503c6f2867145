-- ===== src/GitOps/Compare.antt =====
-- `compareApp` and `summarize` of backend/handlers/gitops_engine.go. `yaml` is the YAML, in lines, of
-- an object less its bookkeeping fields and status: `gitopsYAML(normalizeForDiff(obj))`.
pub mod Verdict
use commitkube.Base.{
  ℕ, suc, String, Bool, true, false, not, ◌&&◌, ◌||◌, Option, none, some, List, [], ◌∷◌, ◌++◌, ltb,
  ◌=s◌, if◌then◌else◌, any_where, sort_stable,
}
use commitkube.GitOps.Health.{Health, healthy, absent, unknown, worse_health}
use commitkube.GitOps.Health.Rules.{object_health}
use commitkube.GitOps.Types.{
  get, Obj, Manifest, App, Resource, Status, synced, out_of_sync, missing, extraneous, invalid,
  Reason, not_in_cluster, removed_from_git, noted, told, Outcome, tracking_annotation, Answer, ok,
  failed, api_message, Mapping, Kube,
}
use commitkube.GitOps.Diff.{Piece, unified_diff}
use commitkube.GitOps.Prepare.{Target, prepare_targets}
use commitkube.GitOps.Sync.{target_key, is_declared, row_key, row_id}
use commitkube.GitOps.Order.{less_by_kind_order}

abbrev pub same_lines : List String → List String → Bool
same_lines [] [] = true
same_lines (x ∷ xs) (y ∷ ys) = x =s y && same_lines xs ys
same_lines _ _ = false

-- `applied[res.key()]`
unfoldable pub was_applied : List Resource → String → Bool
was_applied rows k = any_where (λ r. r.applied && row_key r =s k) rows

abbrev pub outcome : Obj → Bool → Status → Health → Reason → List Piece → Outcome
outcome o done status health message diff = record {
  gvk = o.gvk;
  namespace = o.namespace;
  name = o.name;
  status = status;
  health = health;
  message = message;
  diff = diff;
  applied = done;
}

module _ (yaml : Obj → List String) where
  -- A declared object that is live, against what applying it would give.
  unfoldable pub compare_live : Obj → Bool → Obj → Obj → Outcome
  compare_live o done live predicted =
      let (h, note) = object_health (some live.live) in
      if same_lines (yaml live) (yaml predicted)
      then outcome o done synced h (noted note) []
      else outcome o done out_of_sync h (noted note) (unified_diff (yaml live) (yaml predicted) 3)

  -- The three early `continue`s, then the comparison.
  unfoldable pub compare_answers : Obj → Bool → Answer (Option Obj) → Answer Obj → Outcome
  compare_answers o done (failed e) predicted =
      outcome o done invalid unknown (told (api_message e)) []
  compare_answers o done (ok live) (failed e) =
      outcome o done invalid unknown (told (api_message e)) []
  compare_answers o done (ok none) (ok predicted) = outcome o done missing absent not_in_cluster []
  compare_answers o done (ok (some live)) (ok predicted) = compare_live o done live predicted

  abbrev pub lost : App → Resource → Answer (Option Obj) → List Outcome
  lost app r (failed e) = []
  lost app r (ok none) = []
  lost app r (ok (some live)) =
      if not (get tracking_annotation live.annotations =s row_id app r)
      then []
      else record {
        gvk = r.gvk;
        namespace = r.namespace;
        name = r.name;
        status = extraneous;
        health = (object_health (some live.live)).0;
        message = removed_from_git;
        diff = [];
        applied = true;
      }
        ∷ []

  module _ (kube : Kube) where
    open kube use {World, mapping, get_object, apply}

    -- The dry run and the comparison. Where the read fails there is no dry run.
    unfoldable pub compare_read :
        List Resource → World → Target → Answer (Option Obj) → Outcome × World
    compare_read inventory w t (failed e) =
        (compare_answers t.obj (was_applied inventory (target_key t)) (failed e) (failed e), w)
    compare_read inventory w t (ok live) =
        let (predicted, w') = apply w t.resource t.obj.namespace t.obj true in
        (compare_answers t.obj (was_applied inventory (target_key t)) (ok live) predicted, w')

    -- One round of the first loop.
    unfoldable pub compare_target : List Resource → World → Target → Outcome × World
    unfolding compare_read
    compare_target inventory w t =
        compare_read inventory w t (get_object w t.resource t.obj.namespace t.obj.name)

    unfoldable pub compare_targets : List Resource → World → List Target → List Outcome × World
    compare_targets inventory w [] = ([], w)
    compare_targets inventory w (t ∷ ts) =
        let (o, w') = compare_target inventory w t in
        let (os, w'') = compare_targets inventory w' ts in (o ∷ os, w'')

    abbrev mapped_extra : App → World → Resource → Answer Mapping → List Outcome
    mapped_extra app w r (failed e) = []
    mapped_extra app w r (ok m) = lost app r (get_object w m.resource r.namespace r.name)

    -- The second loop: what the engine applied and Git no longer declares.
    unfoldable pub extras : App → List Target → World → List Resource → List Outcome
    extras app ts w [] = []
    extras app ts w (r ∷ rs) =
        (if not r.applied || is_declared ts (row_key r)
          then []
          else mapped_extra app w r (mapping w r.gvk))
        ++ extras app ts w rs

    abbrev pub less_outcome : Outcome → Outcome → Bool
    less_outcome a b = less_by_kind_order a.gvk.kind a.name b.gvk.kind b.name

    unfoldable pub compare_app : App → World → List Manifest → List Resource → List Outcome × World
    compare_app app w ms inventory =
        let p = prepare_targets kube app w ms in
        let (os, w') = compare_targets inventory w p.targets in
        (sort_stable less_outcome (p.invalids ++ os ++ extras app p.targets w' inventory), w')

-- `summarize`: the status word, the health, and how many objects cannot be applied.
pub data SyncWord : Type 0 where
  word_synced word_out_of_sync word_unknown : SyncWord

abbrev pub is_invalid : Status → Bool
is_invalid invalid = true
is_invalid _ = false

abbrev pub drifts : Status → Bool
drifts out_of_sync = true
drifts missing = true
drifts extraneous = true
drifts _ = false

-- The loop's variables.
pub record Tally : Type 0 where
  pub sync : SyncWord
  pub health : Health
  pub invalids : ℕ

unfoldable pub tally : List Outcome → Tally → Tally
tally [] t = t
tally (o ∷ os) t = tally os (record {
  sync = if drifts o.status then word_out_of_sync else t.sync;
  health = if is_invalid o.status then t.health else worse_health t.health o.health;
  invalids = if is_invalid o.status then suc t.invalids else t.invalids;
})

unfoldable pub summarize : List Outcome → Tally
unfolding tally
summarize [] = record { sync = word_unknown; health = unknown; invalids = 0 }
summarize (o ∷ os) =
    let t = tally (o ∷ os) (record { sync = word_synced; health = healthy; invalids = 0 }) in
    record t { sync = if ltb 0 t.invalids then word_unknown else t.sync }
