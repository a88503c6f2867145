-- ===== src/Examples/ReplicaSets.antt =====
-- backend/handlers/replicaset_actions.go on a small cluster.
use commitkube.Base.{
  ◌≡◌, refl, String, Bool, true, false, none, some, List, [], ◌∷◌, ◌=s◌, if◌then◌else◌,
}
use commitkube.ReplicaSets.Role.{
  is_positive, is_zero, found, replicas_of, role_of, retired, owning_deployment, classify, Role,
  pos, ReplicaSet, Answer, ok, Client,
}
use commitkube.ReplicaSets.Delete.{
  kills_current, skipped, removed_from_history, deleted, Item, Batch, delete_replica_sets,
  delete_each, delete_one, consider, carry_out, record_deletion, spared, runs, is_idle, parting,
}
use commitkube.ReplicaSets.Deleting.{
  Removals, IsTold, delete_replica_sets-Removals, delete_replica_sets-IsTold,
}
use commitkube.ReplicaSets.Scale.{
  in_range, finish, scale_owner, scale_by_role, scale_found, scale_checked, Effect, Request,
  scale_replica_set, scale_replica_set-Effect,
}

-- The cluster is the list of the sets that are gone; "web-1" is retired and "web-2" runs.
abbrev sets : List String → String → Answer ReplicaSet
sets gone name =
    if name =s "web-1"
    then ok (record {
      owners = record { kind = "Deployment"; name = "web" } ∷ [];
      replicas = some (pos 0);
      revision = "1";
    })
    else ok (record {
      owners = record { kind = "Deployment"; name = "web" } ∷ [];
      replicas = some (pos 3);
      revision = "2";
    })

abbrev small : Client
small = record {
  World = List String;
  get_set = λ w ns name. sets w name;
  get_deployment = λ w ns name. ok (record { name = "web"; revision = "2" });
  delete_set = λ w ns name. (none, name ∷ w);
  set_scale = λ w ns name. ok (pos 3);
  deployment_scale = λ w ns name. ok (pos 3);
  scale_set = λ w ns name n. (none, w);
  scale_deployment = λ w ns name n. (none, name ∷ w);
}

abbrev everywhere : String → Bool
everywhere ns = true

abbrev both : List Item
both =
    record { namespace = "shop"; name = "web-1" }
    ∷ record { namespace = "shop"; name = "web-2" }
    ∷ []

delete_replica_sets_run : (delete_replica_sets small everywhere false both []).0 ≡ "web-1" ∷ []
unfolding delete_replica_sets delete_each delete_one consider carry_out spared runs is_idle classify
    owning_deployment role_of found is_zero replicas_of is_positive
delete_replica_sets_run = refl

delete_replica_sets-Removals_example :
    Removals small everywhere false both [] (delete_replica_sets small everywhere false both []).0
delete_replica_sets-Removals_example = delete_replica_sets-Removals small everywhere false both []

abbrev role_1 : Role
role_1 = record { kind = retired; deployment = "web"; replicas = pos 0 }

abbrev told_both : Batch
told_both = record {
  results =
      record {
        item = record { namespace = "shop"; name = "web-1" };
        outcome = deleted;
        message = removed_from_history "web";
      }
      ∷ record {
        item = record { namespace = "shop"; name = "web-2" };
        outcome = skipped;
        message = kills_current "web" (pos 3);
      }
      ∷ [];
  deleted = 1;
  audit = record { item = record { namespace = "shop"; name = "web-1" }; role = role_1 } ∷ [];
}

delete_replica_sets_answers :
    (delete_replica_sets small everywhere false both []).1 ≡ some told_both
unfolding delete_replica_sets delete_each delete_one consider carry_out spared runs is_idle classify
    owning_deployment role_of replicas_of found is_positive is_zero record_deletion parting
delete_replica_sets_answers = refl

delete_replica_sets-IsTold_example : IsTold both told_both
delete_replica_sets-IsTold_example =
    delete_replica_sets-IsTold small everywhere false both [] told_both delete_replica_sets_answers

abbrev five : Request
five = record { namespace = "shop"; name = "web-2"; replicas = some (pos 5) }

scale_replica_set_run : (scale_replica_set small everywhere five []).0 ≡ "web" ∷ []
unfolding scale_replica_set scale_checked scale_found scale_by_role scale_owner finish in_range
    classify owning_deployment role_of replicas_of found
scale_replica_set_run = refl

scale_replica_set-Effect_example :
    Effect small everywhere five [] (scale_replica_set small everywhere five []).0
scale_replica_set-Effect_example = scale_replica_set-Effect small everywhere five []
