-- ===== src/GitOps/Types.antt =====
-- The objects, results and cluster interface of backend/handlers/gitops_engine.go.
use Prim.Native.String.{◌++◌}
use text.Mathlib.TextLemmas.{append_cancel_left, append_cancel_right}
use commitkube.Base.{◌≡◌, String, Bool, Option, List, [], ◌∷◌, ◌=s◌, if◌then◌else◌}
use commitkube.GitOps.Health.{Live, Health, Note}
use commitkube.GitOps.Diff.{Piece}

abbrev pub Labels : Type 0
Labels = List (String × String)

-- `m[k]`, which is "" for a key that is not there.
unfoldable pub get : String → Labels → String
get k [] = ""
get k ((j, v) ∷ m) = if j =s k then v else get k m

-- `m[k] = v`
unfoldable pub put : String → String → Labels → Labels
put k v [] = (k, v) ∷ []
put k v ((j, w) ∷ m) = if j =s k then (k, v) ∷ m else (j, w) ∷ put k v m

pub record Gvk : Type 0 where
  pub group : String
  pub version : String
  pub kind : String

-- The part of an unstructured object that the engine reads or writes. `live` is the object as the
-- typed structs of gitops_health.go see it.
pub record Obj : Type 0 where
  pub gvk : Gvk
  pub namespace : String
  pub name : String
  pub generate_name : String
  pub labels : Labels
  pub annotations : Labels
  pub live : Live

-- gitopsManifest
pub record Manifest : Type 0 where
  pub obj : Obj
  pub file : String

-- The fields of models.GitOpsApp that the engine reads.
pub record App : Type 0 where
  pub name : String
  pub namespace : String
  pub cluster_scope : Bool
  pub prune : Bool

-- models.GitOpsResource, a row of the inventory.
pub record Resource : Type 0 where
  pub gvk : Gvk
  pub namespace : String
  pub name : String
  pub applied : Bool

pub data Status : Type 0 where
  synced out_of_sync missing extraneous invalid : Status

-- What a result's message says. `told` carries a message of the API server.
pub data Reason : Type 0 where
  nothing no_name generated_name cluster_scoped not_in_cluster removed_from_git : Reason
  unknown_kind : String → Reason
  other_namespace : String → Reason
  duplicate : String → Reason
  told : String → Reason
  noted : Note → Reason

-- gitopsResult
pub record Outcome : Type 0 where
  pub gvk : Gvk
  pub namespace : String
  pub name : String
  pub status : Status
  pub health : Health
  pub message : Reason
  pub diff : List Piece
  pub applied : Bool

-- `Group + "/" + Kind + "/" + Namespace + "/" + Name`
unfoldable pub object_key : String → String → String → String → String
object_key group kind ns name = group ++ ("/" ++ (kind ++ ("/" ++ (ns ++ ("/" ++ name)))))

unfoldable pub tracking_id : String → String → String → String → String → String
tracking_id app group kind ns name =
    app ++ (":" ++ (group ++ ("/" ++ (kind ++ (":" ++ (ns ++ ("/" ++ name)))))))

abbrev pub tracking_label : String
tracking_label = "commitkube.io/app"

abbrev pub tracking_annotation : String
tracking_annotation = "commitkube.io/tracking-id"

pub data ApiError : Type 0 where
  not_found : String → ApiError
  refused : String → ApiError

-- `apiMessage`
abbrev pub api_message : ApiError → String
api_message (not_found m) = m
api_message (refused m) = m

pub data Answer {ℓ} (A : Type ℓ) : Type ℓ where
  ok : A → Answer A
  failed : ApiError → Answer A

pub record Mapping : Type 0 where
  pub resource : String
  pub namespaced : Bool

-- gitopsKube. `World` is the cluster; a call that may write returns the cluster that it leaves.
pub record Kube : Type 1 where
  pub World : Type 0
  pub mapping : World → Gvk → Answer Mapping
  pub get_object : World → String → String → String → Answer (Option Obj)
  pub apply : World → String → String → Obj → Bool → Answer Obj × World
  pub delete : World → String → String → String → Option ApiError × World

-- Two ids that differ in the namespace alone are different.
pub tracking_id_namespace :
    (app group kind ns ns' name : String)
    → tracking_id app group kind ns name ≡ tracking_id app group kind ns' name
    → ns ≡ ns'
unfolding tracking_id
tracking_id_namespace app group kind ns ns' name h =
    let h₁ = append_cancel_left app _ _ h in
    let h₂ = append_cancel_left ":" _ _ h₁ in
    let h₃ = append_cancel_left group _ _ h₂ in
    let h₄ = append_cancel_left "/" _ _ h₃ in
    let h₅ = append_cancel_left kind _ _ h₄ in
    let h₆ = append_cancel_left ":" _ _ h₅ in append_cancel_right ns ns' ("/" ++ name) h₆
