-- ===== src/Examples/GitOps.antt =====
-- The engine of backend/handlers/gitops_engine.go on a toy cluster, a list of objects.
use commitkube.GitOps.Health.{Deployment, Pod, pod_running, healthy}
use commitkube.Base.{◌↔◌}
use commitkube.Base.{
  ℕ, ◌+◌, ◌*◌, ◌≤◌, ◌≡◌, ◌≢◌, refl, String, Bool, true, false, not, ◌&&◌, Option, none, some, List,
  [], ◌∷◌, ◌++◌, arith, eq_iff, length, ◌=s◌, if◌then◌else◌, any_where, count_where, find_first,
  delete_where, sort_stable,
}
use commitkube.Base.{◌↔◌, All}
use commitkube.GitOps.Types.{Outcome, synced, out_of_sync, told}
use commitkube.GitOps.Compare.{outcome}
use commitkube.GitOps.Health.{healthy, degraded}
use commitkube.GitOps.Health.{no_rule}
use commitkube.GitOps.Types.{
  Obj, Manifest, App, Resource, Answer, ok, Kube, object_key, tracking_id, get, put,
}
use commitkube.GitOps.Prepare.{prepare_targets, key_of, stamp_id, stamp}
use commitkube.GitOps.Prepare.Stamped.{IsPrepared, prepare_targets-IsPrepared}
use commitkube.GitOps.Sync.{Fate, remove, leave, fate, sync_app}
use commitkube.GitOps.Sync.Pruning.{Deletions, stamped_elsewhere-kept}
use commitkube.GitOps.Sync.Whole.{IsUndeclared, applied_world, sync_app-Deletions}
use commitkube.GitOps.Diff.{Op, same, gone, added, walk, unified_diff, Piece}
use commitkube.GitOps.Diff.Script.{before, after, walk-texts}
use commitkube.GitOps.Diff.Optimal.{kept_lines, walk-optimal}
use commitkube.GitOps.Diff.Hunks.{shown_changes, changes, unified_diff-shows_changes}

abbrev is_object : String → String → Obj → Bool
is_object ns name o = o.namespace =s ns && o.name =s name

abbrev toy_apply : List Obj → Obj → Bool → Answer Obj × List Obj
toy_apply w o true = (ok o, w)
toy_apply w o false = (ok o, o ∷ delete_where (is_object o.namespace o.name) w)

-- Every kind is served, and only a namespace is not namespaced.
abbrev toy : Kube
toy = record {
  World = List Obj;
  mapping = λ w k. ok (record { resource = k.kind; namespaced = not (k.kind =s "Namespace") });
  get_object = λ w res ns name. ok (find_first (is_object ns name) w);
  apply = λ w res ns o dry. toy_apply w o dry;
  delete = λ w res ns name. (none, delete_where (is_object ns name) w);
}

abbrev config : String → String → Obj
config ns name = record {
  gvk = record { group = ""; version = "v1"; kind = "ConfigMap" };
  namespace = ns;
  name = name;
  generate_name = "";
  labels = [];
  annotations = [];
  live = record { deleting = false; kinded = no_rule };
}

abbrev shop : App
shop = record { name = "shop"; namespace = "prod"; cluster_scope = false; prune = true }

abbrev wide : App
wide = record shop { cluster_scope = true }

abbrev manifests : List Manifest
manifests = record { obj = config "" "a"; file = "a.yaml" } ∷ []

-- An object of the application that Git no longer declares.
abbrev old : Obj
old = stamp shop "prod" (config "prod" "old")

abbrev old_row : Resource
old_row = record { gvk = old.gvk; namespace = "prod"; name = "old"; applied = true }

prunes_old :
    (sync_app toy shop (old ∷ []) manifests (old_row ∷ [])).0
    ≡ stamp shop "prod" (config "" "a") ∷ []
unfolding sync_app prepare_targets commitkube.GitOps.Prepare.prepare_all
    commitkube.GitOps.Prepare.prepare commitkube.GitOps.Prepare.settle_mapping
    commitkube.GitOps.Prepare.settle_place commitkube.GitOps.Prepare.place
    commitkube.GitOps.Prepare.admit commitkube.GitOps.Prepare.mem commitkube.GitOps.Sync.apply_all
    commitkube.GitOps.Sync.prune_all commitkube.GitOps.Sync.meet fate
    commitkube.GitOps.Sync.mapped_fate commitkube.GitOps.Sync.live_fate
    commitkube.GitOps.Sync.is_declared any_where sort_stable commitkube.Base.insert_sorted
    find_first delete_where get put tracking_id object_key
prunes_old = refl

prepare_targets-IsPrepared_example : IsPrepared shop 1 (prepare_targets toy shop [] manifests)
prepare_targets-IsPrepared_example = prepare_targets-IsPrepared toy shop [] manifests

sync_app-Deletions_example :
    Deletions toy shop
      (IsUndeclared toy shop (old ∷ []) manifests)
      (old_row ∷ [])
      (applied_world toy shop (old ∷ []) manifests)
      (sync_app toy shop (old ∷ []) manifests (old_row ∷ [])).0
sync_app-Deletions_example = sync_app-Deletions toy shop (old ∷ []) manifests (old_row ∷ [])

-- The same with an object in another namespace, which cluster scope allows.
abbrev far : Obj
far = stamp wide "tools" (config "tools" "old")

abbrev far_row : Resource
far_row = record old_row { namespace = "tools" }

tools_not_prod : ◌≢◌ {A = String} "tools" "prod"
tools_not_prod = ground (arith, eq_iff "tools" "prod")

stamped_elsewhere-kept_example : fate toy wide [] (far ∷ []) far_row ≢ remove "ConfigMap"
unfolding find_first get put
stamped_elsewhere-kept_example =
    stamped_elsewhere-kept toy wide [] (far ∷ []) far_row far far "ConfigMap" refl refl
      tools_not_prod refl refl

abbrev left_text : List String
left_text = "a" ∷ "b" ∷ "c" ∷ []

abbrev right_text : List String
right_text = "b" ∷ "c" ∷ "d" ∷ []

walks : walk left_text right_text ≡ gone "a" ∷ same "b" ∷ same "c" ∷ added "d" ∷ []
unfolding walk commitkube.GitOps.Diff.table_row commitkube.GitOps.Diff.all_added
walks = refl

walk-texts_example :
    (before (walk left_text right_text) ≡ left_text)
    × (after (walk left_text right_text) ≡ right_text)
walk-texts_example = walk-texts left_text right_text

abbrev rewrite : List Op
rewrite = gone "a" ∷ gone "b" ∷ same "c" ∷ []

walk-optimal_example : kept_lines rewrite ≤ kept_lines (walk left_text ("c" ∷ []))
unfolding before after
walk-optimal_example = walk-optimal left_text ("c" ∷ []) rewrite refl refl

unified_diff-shows_changes_example :
    shown_changes (unified_diff left_text right_text 0) ≡ changes (walk left_text right_text)
unified_diff-shows_changes_example = unified_diff-shows_changes left_text right_text 0 (omega arith)

abbrev results : List Outcome
results =
    outcome old true synced healthy (told "") []
    ∷ outcome far true out_of_sync degraded (told "") []
    ∷ []

abbrev rolled_out : Deployment
rolled_out = record {
  name = "web";
  paused = false;
  generation = 2;
  observed_generation = 2;
  conditions = [];
  spec_replicas = some 3;
  replicas = 3;
  updated_replicas = 3;
  available_replicas = 3;
}

abbrev crashing : Pod
crashing = record {
  phase = pod_running;
  message = "";
  waiting = "CrashLoopBackOff" ∷ [];
  conditions = [];
}
