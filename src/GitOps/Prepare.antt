-- ===== src/GitOps/Prepare.antt =====
-- `prepareTargets` of backend/handlers/gitops_engine.go.
pub mod Stamped
pub mod Accepted
use commitkube.Base.{String, Bool, true, false, not, ◌&&◌, List, [], ◌∷◌, ◌++◌, ◌=s◌, if◌then◌else◌}
use commitkube.GitOps.Health.{unknown}
use commitkube.GitOps.Types.{
  Labels, get, put, Obj, Manifest, App, invalid, Reason, no_name, generated_name, cluster_scoped,
  unknown_kind, other_namespace, duplicate, Outcome, object_key, tracking_id, tracking_label,
  tracking_annotation, Answer, ok, failed, Mapping, Kube,
}

-- gitopsTarget
pub record Target : Type 0 where
  pub obj : Obj
  pub resource : String
  pub file : String
  pub tracking : String

-- The loop's variables: the lists that it returns, and `seen`.
pub record Prepared : Type 0 where
  pub targets : List Target
  pub invalids : List Outcome
  pub seen : Labels

abbrev pub start : Prepared
start = record { targets = []; invalids = []; seen = [] }

-- `fail`: the result as it stands, with the reason. The file's name, which begins every message, is
-- kept beside it.
abbrev pub refusal : Obj → String → Reason → Outcome
refusal o ns r = record {
  gvk = o.gvk;
  namespace = ns;
  name = o.name;
  status = invalid;
  health = unknown;
  message = r;
  diff = [];
  applied = false;
}

abbrev pub refuse : Obj → String → Reason → Prepared → Prepared
refuse o ns r p = record p { invalids = p.invalids ++ refusal o ns r ∷ [] }

-- The `switch` on scope: the namespace that the object gets, or the refusal.
pub data Placing : Type 0 where
  placed : String → Placing
  misplaced : Reason → Placing

unfoldable pub place : App → Bool → String → Placing
place app namespaced ns =
    if not namespaced && not app.cluster_scope
    then misplaced cluster_scoped
    else if not namespaced
    then placed ""
    else if ns =s ""
    then placed app.namespace
    else if not (ns =s app.namespace) && not app.cluster_scope
    then misplaced (other_namespace ns)
    else placed ns

abbrev pub key_of : Obj → String → String
key_of o ns = object_key o.gvk.group o.gvk.kind ns o.name

-- The id that a prepared object carries: the application's namespace stands in it.
abbrev pub stamp_id : App → Obj → String
stamp_id app o = tracking_id app.name o.gvk.group o.gvk.kind app.namespace o.name

abbrev pub stamp : App → String → Obj → Obj
stamp app ns o = record o {
  namespace = ns;
  labels = put tracking_label app.name o.labels;
  annotations = put tracking_annotation (stamp_id app o) o.annotations;
}

abbrev pub target_of : App → Manifest → String → String → Target
target_of app m ns resource = record {
  obj = stamp app ns m.obj;
  resource = resource;
  file = m.file;
  tracking = stamp_id app m.obj;
}

unfoldable pub mem : String → Labels → Bool
mem k [] = false
mem k ((j, v) ∷ m) = if j =s k then true else mem k m

-- From the check for a duplicate on.
unfoldable pub admit : App → Manifest → String → String → Prepared → Prepared
admit app m ns resource p =
    if mem (key_of m.obj ns) p.seen
    then refuse m.obj ns (duplicate (get (key_of m.obj ns) p.seen)) p
    else record p {
      targets = p.targets ++ target_of app m ns resource ∷ [];
      seen = put (key_of m.obj ns) m.file p.seen;
    }

unfoldable pub settle_place : App → Manifest → String → Placing → Prepared → Prepared
settle_place app m resource (misplaced r) p = refuse m.obj m.obj.namespace r p
settle_place app m resource (placed ns) p = admit app m ns resource p

unfoldable pub settle_mapping : App → Manifest → Answer Mapping → Prepared → Prepared
settle_mapping app m (failed e) p = refuse m.obj m.obj.namespace (unknown_kind m.obj.gvk.kind) p
settle_mapping app m (ok r) p =
    settle_place app m r.resource (place app r.namespaced m.obj.namespace) p

module _ (kube : Kube) where
  open kube use {World, mapping}

  -- One round of the loop.
  unfoldable pub prepare : App → World → Manifest → Prepared → Prepared
  prepare app w m p =
      if m.obj.name =s ""
      then refuse m.obj m.obj.namespace
          (if m.obj.generate_name =s "" then no_name else generated_name) p
      else settle_mapping app m (mapping w m.obj.gvk) p

  unfoldable pub prepare_all : App → World → List Manifest → Prepared → Prepared
  prepare_all app w [] p = p
  prepare_all app w (m ∷ ms) p = prepare_all app w ms (prepare app w m p)

  unfoldable pub prepare_targets : App → World → List Manifest → Prepared
  prepare_targets app w ms = prepare_all app w ms start
