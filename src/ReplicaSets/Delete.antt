-- ===== src/ReplicaSets/Delete.antt =====
-- `DeleteReplicaSets` of backend/handlers/replicaset_actions.go.
use commitkube.Base.{
  ℕ, ◌+◌, String, Bool, true, false, not, ◌&&◌, Option, none, some, List, [], ◌∷◌, ◌++◌,
  if◌then◌else◌, ltb, length,
}
use commitkube.ReplicaSets.Role.{
  ℤ, is_positive, is_zero, ReplicaSet, Answer, ok, failed, Client, retired, current, standalone,
  Role, classify,
}

pub record Item : Type 0 where
  pub namespace : String
  pub name : String

pub data Message : Type 0 where
  outside : Message
  told : String → Message  -- an error of the client
  recreated : String → Message
  kills_current : String → ℤ → Message
  kills_pods : ℤ → Message
  removed_from_history : String → Message
  recreating : String → Message
  with_its_pods : Message

pub data Outcome : Type 0 where
  deleted skipped failed_to : Outcome

pub record Result : Type 0 where
  pub item : Item
  pub outcome : Outcome
  pub message : Message

-- An entry of the audit log.
pub record Entry : Type 0 where
  pub item : Item
  pub role : Role

pub record Batch : Type 0 where
  pub results : List Result
  pub deleted : ℕ
  pub audit : List Entry

abbrev pub answer : Item → Outcome → Message → Batch → Batch
answer it o m b = record b {
  results = b.results ++ record { item = it; outcome = o; message = m } ∷ [];
}

-- Whether a deletion would take pods along.
unfoldable pub runs : Role → Bool
runs role = elim role.kind [
  | retired ↦ false
  | current ↦ true
  | standalone ↦ is_positive role.replicas
]

-- The current revision of a Deployment that is scaled to zero.
unfoldable pub is_idle : Role → Bool
is_idle role = elim role.kind [ current ↦ is_zero role.replicas | _ ↦ false ]

-- Why an item is left alone, if it is.
unfoldable pub spared : Bool → Role → Option Message
spared allow_running role =
    if is_idle role
    then some (recreated role.deployment)
    else if runs role && not allow_running
    then some (elim role.kind [
      | current ↦ kills_current role.deployment role.replicas
      | _ ↦ kills_pods role.replicas
    ])
    else none

unfoldable pub parting : Role → Message
parting role = elim role.kind [
  | retired ↦ removed_from_history role.deployment
  | current ↦ recreating role.deployment
  | standalone ↦ with_its_pods
]

-- After the call to delete.
unfoldable pub record_deletion : Item → Role → Option String → Batch → Batch
record_deletion it role (some e) b = answer it failed_to (told e) b
record_deletion it role none b = answer it deleted (parting role) (record b {
  deleted = b.deleted + 1;
  audit = b.audit ++ record { item = it; role = role } ∷ [];
})

module _ (client : Client) where
  open client use {World, get_set, delete_set}

  unfoldable pub carry_out : Item → Role → Option Message → World → Batch → World × Batch
  carry_out it role (some m) w b = (w, answer it skipped m b)
  carry_out it role none w b =
      let (e, w') = delete_set w it.namespace it.name in (w', record_deletion it role e b)

  unfoldable pub consider : Bool → Item → Answer ReplicaSet → World → Batch → World × Batch
  consider allow it (failed e) w b = (w, answer it failed_to (told e) b)
  consider allow it (ok rs) w b =
      let role = classify client w it.namespace rs in carry_out it role (spared allow role) w b

  module _ (namespace_allowed : String → Bool) where
    -- One round of the loop.
    unfoldable pub delete_one : Bool → Item → World → Batch → World × Batch
    delete_one allow it w b =
        if not (namespace_allowed it.namespace)
        then (w, answer it failed_to outside b)
        else consider allow it (get_set w it.namespace it.name) w b

    unfoldable pub delete_each : Bool → List Item → World → Batch → World × Batch
    delete_each allow [] w b = (w, b)
    delete_each allow (it ∷ its) w b =
        let (w', b') = delete_one allow it w b in delete_each allow its w' b'

    -- `DeleteReplicaSets`, with a client at hand; `none` is a request that is refused whole.
    unfoldable pub delete_replica_sets : Bool → List Item → World → World × Option Batch
    delete_replica_sets allow [] w = (w, none)
    delete_replica_sets allow (it ∷ its) w =
        if ltb 200 (length (it ∷ its))
        then (w, none)
        else (let (w', b) =
              delete_each allow (it ∷ its) w (record { results = []; deleted = 0; audit = [] }) in
            (w', some b))
