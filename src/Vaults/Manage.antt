-- ===== src/Vaults/Manage.antt =====
-- Making and deleting vaults: CreateVault, CreatePersonalVault, createVault and DeleteVault of
-- backend/handlers/vault.go.
use commitkube.Base.{
  ℕ, ◌+◌, String, Bool, true, false, not, Option, none, some, [], ◌∷◌, ◌++◌, ◌&&◌, ◌||◌, ◌==◌, ◌=s◌,
  ltb, if◌then◌else◌, update_where, delete_where, any_where, count_where, trim_left, trim_right,
}
use commitkube.Vaults.Store.{
  Vault, Member, Access, Item, Store, Env, Problem, Answer, refused, done, made, invalid_body,
  malformed, invalid_id, bad_name, bad_kind, may_not_share, has_personal, taken, no_passphrase,
  only_personal, valid_blob, max_wrapped_key_bytes, max_vault_name_len, max_vault_desc_len, log,
}
use commitkube.Vaults.Door.{Handler, enter, owner_only}
use commitkube.Vaults.Keyring.{is_of}

pub record NewVault : Type 0 where
  pub uuid : String
  pub name : String
  pub description : String
  pub kind : String
  pub wrapped_key : String

abbrev pub trim : String → String
trim s = trim_right (trim_left s)

-- The kind as it is read: none is personal, and an old client says group for team.
unfoldable pub kind_of : String → String
kind_of kind = if kind =s "" then "personal" else if kind =s "group" then "team" else kind

unfoldable pub new_vault_problem : Env → ℕ → NewVault → Store → Option Problem
new_vault_problem e uid q s =
    if q.name =s ""
      || ltb max_vault_name_len (e.bytes q.name)
      || ltb max_vault_desc_len (e.bytes q.description)
    then some bad_name
    else if not (e.is_uuid q.uuid)
    then some invalid_id
    else if not (valid_blob e q.wrapped_key max_wrapped_key_bytes)
    then some malformed
    else if not (any_where (is_of uid) s.keyrings)
    then some no_passphrase
    else if any_where (λ (v : Vault). v.uuid =s q.uuid) s.vaults
    then some taken
    else none

unfoldable pub vault_row : ℕ → ℕ → NewVault → Vault
vault_row i uid q = record {
  id = i;
  uuid = q.uuid;
  name = q.name;
  description = q.description;
  kind = q.kind;
  owner_id = uid;
  deleted = false;
}

unfoldable pub owner_row : Env → ℕ → ℕ → ℕ → NewVault → Member
owner_row e i vid uid q = record {
  id = i;
  vault_id = vid;
  user_id = uid;
  wrapped_key = e.seal q.wrapped_key;
  role = "owner";
  added_by = uid;
  via_group = none;
}

unfoldable pub insert_vault : Env → ℕ → NewVault → Store → Store
insert_vault e uid q s = record s {
  vaults = s.vaults ++ vault_row s.next_id uid q ∷ [];
  members = s.members ++ owner_row e (s.next_id + 1) s.next_id uid q ∷ [];
  next_id = s.next_id + 2;
}

unfoldable pub settle_new : Env → ℕ → NewVault → Option Problem → Store → Answer × Store
settle_new e uid q (some p) s = (refused p, s)
settle_new e uid q none s = (made q.uuid 0, log uid "vault_create" q.name (insert_vault e uid q s))

-- createVault; a vault that was deleted keeps its uuid taken.
unfoldable pub create_row : Env → ℕ → NewVault → Store → Answer × Store
create_row e uid q s =
    let r = record q { name = trim q.name } in settle_new e uid r (new_vault_problem e uid r s) s

unfoldable pub create_of_kind : Env → ℕ → NewVault → Store → Answer × Store
create_of_kind e uid q s =
    if not (q.kind =s "personal") && not (q.kind =s "team")
    then (refused bad_kind, s)
    else if q.kind =s "team" && not e.may_share
    then (refused may_not_share, s)
    else create_row e uid q s

-- CreateVault; `e.may_share` is the permission vault.share of the caller.
unfoldable pub create_vault : Env → ℕ → Option NewVault → Store → Answer × Store
create_vault e uid none s = (refused invalid_body, s)
create_vault e uid (some q) s = create_of_kind e uid (record q { kind = kind_of q.kind }) s

abbrev pub is_personal_of : ℕ → Vault → Bool
is_personal_of uid v = v.owner_id == uid && v.kind =s "personal" && not v.deleted

unfoldable pub personal_body : Env → ℕ → Option NewVault → Store → Answer × Store
personal_body e uid none s = (refused invalid_body, s)
personal_body e uid (some q) s =
    create_row e uid (record q { name = "Personal"; description = ""; kind = "personal" }) s

-- CreatePersonalVault
unfoldable pub create_personal_vault : Env → ℕ → Option NewVault → Store → Answer × Store
create_personal_vault e uid q s =
    if ltb 0 (count_where (is_personal_of uid) s.vaults)
    then (refused has_personal, s)
    else personal_body e uid q s

-- The rows that go with a vault; vaults and items are only marked as deleted.
unfoldable pub erase_vault : Vault → Store → Store
erase_vault v s = record s {
  items =
      update_where (λ (i : Item). i.vault_id == v.id) (λ i. record i { deleted = true }) s.items;
  members = delete_where (λ (m : Member). m.vault_id == v.id) s.members;
  grants = delete_where (λ (a : Access). a.vault_id == v.id) s.grants;
  vaults = update_where (λ (w : Vault). w.id == v.id) (λ w. record w { deleted = true }) s.vaults;
}

unfoldable pub erase : ℕ → Handler
erase uid v m s =
    if v.kind =s "personal"
      && count_where (λ (w : Vault). is_personal_of uid w && not (w.id == v.id)) s.vaults == 0
    then (refused only_personal, s)
    else (done, log uid "vault_delete" v.name (erase_vault v s))

-- DeleteVault
unfoldable pub delete_vault : Env → String → ℕ → Store → Answer × Store
delete_vault e ref uid s = enter e ref uid (owner_only (erase uid)) s
