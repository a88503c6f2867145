-- ===== src/Examples/Vaults.antt =====
-- The vaults of backend/handlers/vault.go on a small team.
use commitkube.Vaults.Listing.{list_vaults, listing}
use commitkube.Vaults.Listed.{kept, tidied, list_vaults-sweeps}
use commitkube.Base.{
  ℕ, ◌≡◌, refl, true, false, none, some, List, [], ◌∷◌, find_first, count_where, arith, Bool,
  delete_where,
}
use commitkube.Vaults.Store.{Vault, Member, Keyring, Item, Store, Env, refused, stale, made}
use commitkube.Vaults.Door.{is_vault, is_member, still_entitled}
use commitkube.Vaults.Items.{Sealed, write_item}
use commitkube.Vaults.Request.{list_members, delete, create_item, run}
use commitkube.Vaults.Confined.{Confined}
use commitkube.Vaults.Roles.{run-Confined}
use commitkube.Vaults.Versions.{Write, write, write_all, write_item-once}
use commitkube.Vaults.Owned.{IsOwned}
use commitkube.Vaults.Owning.{
  list, list_pending, Step, ask, revoke, regroup, take_steps, take_steps-IsOwned,
}
use commitkube.Vaults.Identity.{
  IsKeyed, identity_of, rekeying, identity_of-apply_steps, apply_steps,
}
use commitkube.Vaults.Keyring.{Rekeying}

abbrev server : Env
server = record {
  now = 100;
  decoded = λ s. some 32;
  is_uuid = λ s. true;
  parse_kdf = λ s. some (record { alg = "argon2id"; m = 65536; t = 3; p = 1 });
  bytes = λ s. 64;
  lower = λ s. s;
  seal = λ s. s;
  unseal = λ s. s;
  may_share = true;
  newest_first = λ is. is;
}

abbrev ops : Vault
ops = record {
  id = 1;
  uuid = "ops";
  name = "Operations";
  description = "";
  kind = "team";
  owner_id = 7;
  deleted = false;
}

abbrev owner : Member
owner = record {
  id = 2;
  vault_id = 1;
  user_id = 7;
  wrapped_key = "k7";
  role = "owner";
  added_by = 7;
  via_group = none;
}

-- Eight reads through group 5, which he has left.
abbrev guest : Member
guest = record owner {
  id = 3;
  user_id = 8;
  wrapped_key = "k8";
  role = "reader";
  via_group = some 5;
}

abbrev reader : Member
reader = record guest { id = 4; user_id = 9; via_group = none }

abbrev password : Item
password = record {
  id = 6;
  uuid = "db";
  vault_id = 1;
  overview_enc = "o";
  secret_enc = "s";
  version = 3;
  created_by = 7;
  updated_by = 7;
  deleted = false;
}

abbrev ring : Keyring
ring = record {
  id = 5;
  user_id = 7;
  public_key = "pk";
  fingerprint = "fp";
  private_key_enc = "sk";
  kdf_salt = "salt";
  kdf_params = "{}";
  recovery_key_enc = "rk";
  recovery_salt = "rs";
  recovery_used_at = none;
}

abbrev team : Store
team = record {
  vaults = ops ∷ [];
  members = owner ∷ guest ∷ reader ∷ [];
  grants = record { id = 10; vault_id = 1; group_id = 5; role = "reader"; added_by = 7 } ∷ [];
  groups = 5 ∷ [];
  group_members = [];
  keyrings = ring ∷ [];
  items = password ∷ [];
  audit = [];
  next_id = 20;
}

ops_found : find_first (is_vault "ops") team.vaults ≡ some ops
unfolding find_first
ops_found = refl

reader_found : find_first (is_member 1 9) team.members ≡ some reader
unfolding find_first
reader_found = refl

-- A reader who lists the members deletes the row of the one who has left the group.
run-Confined_example : Confined ops "reader" team (run server "ops" 9 list_members team).1
run-Confined_example =
    run-Confined server "ops" 9 list_members ops reader team refl ops_found reader_found refl
      ((refl, (refl, tt)), ((refl, tt), (tt, tt)))

abbrev edit : Sealed
edit = record { uuid = "db"; overview_enc = "o2"; secret_enc = "s2"; base_version = 3 }

abbrev first_edit : Write
first_edit = record { env = server; by = 7; request = edit; loaded = password; fair = omega arith }

edit_went_through : (write_item server 7 edit password team).0 ≡ made "db" 4
unfolding write_item count_where
edit_went_through = refl

write_item-once_example :
    (n : ℕ) × (write_item server 9 edit password (write_all [] (write first_edit team))
      ≡ (refused (stale n), write_all [] (write first_edit team)))
write_item-once_example =
    write_item-once first_edit [] server 9 edit password team (tt, tt) edit_went_through refl refl

team-IsOwned : IsOwned team
unfolding find_first
team-IsOwned = record {
  distinct = ((refl, (refl, tt)), ((refl, tt), (tt, tt)));
  below =
      ((omega arith, omega arith), ((omega arith, omega arith), ((omega arith, omega arith), tt)));
  fresh = (omega arith, tt);
  owned = ((λ live. (owner, (refl, (refl, refl)))), tt);
}

abbrev by_name : Vault → Vault → Bool
by_name v w = false

-- Eight's row goes with his listing; the vault is no longer shown.
guest_tidied : tidied 8 team ≡ record team { members = owner ∷ reader ∷ [] }
unfolding delete_where still_entitled count_where
guest_tidied = refl

list_vaults-sweeps_example :
    list_vaults server by_name 8 team
    ≡ (listing server by_name 8 (kept 8 team, tidied 8 team), tidied 8 team)
list_vaults-sweeps_example =
    list_vaults-sweeps server by_name 8 team ((refl, (refl, tt)), ((refl, tt), (tt, tt)))

abbrev busy : List Step
busy =
    ask server "ops" 7 (create_item edit)
    ∷ regroup (5 ∷ []) (record { group_id = 5; user_id = 8 } ∷ [])
    ∷ list server by_name 8
    ∷ ask server "ops" 9 list_members
    ∷ list_pending 7
    ∷ revoke 5 none
    ∷ ask server "ops" 7 delete
    ∷ []

take_steps-IsOwned_example : IsOwned (take_steps busy team)
take_steps-IsOwned_example = take_steps-IsOwned busy team team-IsOwned

abbrev new_passphrase : Rekeying
new_passphrase = record {
  private_key_enc = "sk2";
  kdf_salt = "salt2";
  kdf_params = "{}";
  recovery_key_enc = "rk2";
  recovery_salt = "rs2";
  via_recovery = true;
}

team-IsKeyed : IsKeyed team
team-IsKeyed = record { distinct = (tt, tt); below = (omega arith, tt) }

enrolled : identity_of 7 team ≡ some ("pk", "fp")
unfolding find_first
enrolled = refl

identity_of-apply_steps_example :
    identity_of 7 (apply_steps (rekeying server 7 (some new_passphrase) ∷ []) team)
    ≡ some ("pk", "fp")
identity_of-apply_steps_example =
    identity_of-apply_steps (rekeying server 7 (some new_passphrase) ∷ []) 7 ("pk", "fp") team
      team-IsKeyed enrolled
