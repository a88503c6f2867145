-- ===== src/GitOps/Sync.antt =====
-- `syncApp` of backend/handlers/gitops_engine.go.
pub mod Whole
pub mod Pruning
pub mod Applying
use commitkube.Base.{
  String, Bool, true, false, not, ◌||◌, Option, none, some, List, [], ◌∷◌, ◌++◌, ◌=s◌,
  if◌then◌else◌, any_where, sort_stable,
}
use commitkube.GitOps.Health.{healthy}
use commitkube.GitOps.Types.{
  get, Gvk, Obj, Manifest, App, Resource, synced, Reason, nothing, Outcome, object_key, tracking_id,
  tracking_annotation, ApiError, not_found, refused, Answer, ok, failed, api_message, Mapping, Kube,
}
use commitkube.GitOps.Prepare.{Target, prepare_targets, key_of}
use commitkube.GitOps.Order.{less_by_kind_order}

-- A line of the report: kind, name and, where there is one, the reason.
pub data Line : Type 0 where
  skipped : String → String → Reason → Line
  apply_failed prune_failed : String → String → String → Line
  applied left kept pruned : String → String → Line

-- The fields of a gitopsResult that a sync sets.
pub record Entry : Type 0 where
  pub gvk : Gvk
  pub namespace : String
  pub name : String
  pub applied : Bool

-- gitopsSyncOutcome
pub record Report : Type 0 where
  pub lines : List Line
  pub failing : Bool
  pub applied : List Entry
  pub pruned : List Entry

abbrev pub nothing_done : Report
nothing_done = record { lines = []; failing = false; applied = []; pruned = [] }

abbrev pub less_target : Target → Target → Bool
less_target a b = less_by_kind_order a.obj.gvk.kind a.obj.name b.obj.gvk.kind b.obj.name

abbrev pub target_key : Target → String
target_key t = key_of t.obj t.obj.namespace

-- `declared[k]` once the loop over the targets is done.
unfoldable pub is_declared : List Target → String → Bool
is_declared ts k = any_where (λ t. target_key t =s k) ts

abbrev pub say : Line → Report → Report
say l r = record r { lines = r.lines ++ l ∷ [] }

abbrev pub bare : Gvk → String → String → Bool → Entry
bare gvk ns name done = record { gvk = gvk; namespace = ns; name = name; applied = done }

-- The loop over the invalid results.
unfoldable pub report_invalid : List Outcome → Report → Report
report_invalid [] r = r
report_invalid (o ∷ os) r =
    report_invalid os (record (say (skipped o.gvk.kind o.name o.message) r) { failing = true })

unfoldable pub record_apply : Target → Answer Obj → Report → Report
record_apply t (failed e) r =
    record (say (apply_failed t.obj.gvk.kind t.obj.name (api_message e)) r) { failing = true }
record_apply t (ok o) r = record (say (applied t.obj.gvk.kind t.obj.name) r) {
  applied = r.applied ++ bare t.obj.gvk t.obj.namespace t.obj.name true ∷ [];
}

-- What becomes of a row of the inventory. `remove` carries the resource to delete from.
pub data Fate : Type 0 where
  pass forget leave keep : Fate
  remove : String → Fate

abbrev pub row_key : Resource → String
row_key r = object_key r.gvk.group r.gvk.kind r.namespace r.name

-- The id that a row's object must still carry.
abbrev pub row_id : App → Resource → String
row_id app r = tracking_id app.name r.gvk.group r.gvk.kind r.namespace r.name

unfoldable pub live_fate : App → Resource → String → Answer (Option Obj) → Fate
live_fate app r res (failed e) = forget
live_fate app r res (ok none) = forget
live_fate app r res (ok (some live)) =
    if not (get tracking_annotation live.annotations =s row_id app r)
    then leave
    else if not app.prune
    then keep
    else remove res

module _ (kube : Kube) where
  open kube use {World, mapping, get_object, apply, delete}

  unfoldable pub mapped_fate : App → World → Resource → Answer Mapping → Fate
  mapped_fate app w r (failed e) = pass
  mapped_fate app w r (ok m) =
      live_fate app r m.resource (get_object w m.resource r.namespace r.name)

  unfoldable pub fate : App → List Target → World → Resource → Fate
  fate app ts w r =
      if not r.applied || is_declared ts (row_key r)
      then pass
      else mapped_fate app w r (mapping w r.gvk)

  unfoldable pub apply_all : List Target → World → Report → World × Report
  apply_all [] w r = (w, r)
  apply_all (t ∷ ts) w r =
      let (answer, w') = apply w t.resource t.obj.namespace t.obj false in
      apply_all ts w' (record_apply t answer r)

  abbrev pub forgotten : Resource → Report → Report
  forgotten r out = record out { pruned = out.pruned ++ bare r.gvk r.namespace r.name false ∷ [] }

  -- After `kube.Delete`: an object that is not found is as good as deleted.
  unfoldable pub record_delete : Resource → Option ApiError → Report → Report
  record_delete r (some (refused e)) out = record (say (prune_failed r.gvk.kind r.name e) out) {
    failing = true;
  }
  record_delete r (some (not_found e)) out = say (pruned r.gvk.kind r.name) (forgotten r out)
  record_delete r none out = say (pruned r.gvk.kind r.name) (forgotten r out)

  unfoldable pub meet : Resource → Fate → World → Report → World × Report
  meet r pass w out = (w, out)
  meet r forget w out = (w, forgotten r out)
  meet r leave w out = (w, forgotten r (say (left r.gvk.kind r.name) out))
  meet r keep w out = (w, say (kept r.gvk.kind r.name) out)
  meet r (remove res) w out =
      let (answer, w') = delete w res r.namespace r.name in (w', record_delete r answer out)

  unfoldable pub prune_all : App → List Target → List Resource → World → Report → World × Report
  prune_all app ts [] w out = (w, out)
  prune_all app ts (r ∷ rs) w out =
      let (w', out') = meet r (fate app ts w r) w out in prune_all app ts rs w' out'

  unfoldable pub sync_app : App → World → List Manifest → List Resource → World × Report
  sync_app app w ms inventory =
      let p = prepare_targets kube app w ms in
      let ts = sort_stable less_target p.targets in
      let (w', out) = apply_all ts w (report_invalid p.invalids nothing_done) in
      prune_all app ts inventory w' out
