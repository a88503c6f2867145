-- ===== src/Vaults/Items.antt =====
-- What a vault holds: CreateVaultItem, UpdateVaultItem, DeleteVaultItem, RevealVaultItem and
-- ListVaultItems of backend/handlers/vault.go.
use commitkube.Base.{
  ℕ, ◌+◌, String, Bool, true, false, not, Option, none, some, List, [], ◌∷◌, ◌++◌, ◌&&◌, ◌==◌, ◌=s◌,
  if◌then◌else◌, find_first, update_where, any_where, count_where, select_where, map,
}
use commitkube.Vaults.Store.{
  Vault, Item, Store, Env, Overview, items_shown, Problem, Answer, refused, done, made, secret,
  malformed, missing, invalid_id, taken, stale, valid_blob, max_overview_bytes, max_secret_bytes,
  log,
}
use commitkube.Vaults.Door.{Handler, enter, writer_only}

pub record Sealed : Type 0 where
  pub uuid : String
  pub overview_enc : String
  pub secret_enc : String
  pub base_version : ℕ

abbrev pub is_item : ℕ → String → Item → Bool
is_item vid ref i = i.vault_id == vid && i.uuid =s ref && not i.deleted

abbrev pub are_blobs : Env → Sealed → Bool
are_blobs e q =
    valid_blob e q.overview_enc max_overview_bytes && valid_blob e q.secret_enc max_secret_bytes

unfoldable pub new_item_problem : Env → Sealed → Store → Option Problem
new_item_problem e q s =
    if not (e.is_uuid q.uuid)
    then some invalid_id
    else if not (are_blobs e q)
    then some malformed
    else if any_where (λ (i : Item). i.uuid =s q.uuid) s.items
    then some taken
    else none

unfoldable pub item_row : Env → ℕ → ℕ → ℕ → Sealed → Item
item_row e i vid uid q = record {
  id = i;
  uuid = q.uuid;
  vault_id = vid;
  overview_enc = e.seal q.overview_enc;
  secret_enc = e.seal q.secret_enc;
  version = 1;
  created_by = uid;
  updated_by = uid;
  deleted = false;
}

unfoldable pub settle_item : Env → ℕ → Sealed → Vault → Option Problem → Store → Answer × Store
settle_item e uid q v (some p) s = (refused p, s)
settle_item e uid q v none s = (
  made q.uuid 1,
  log uid "vault_item_create" q.uuid (record s {
    items = s.items ++ item_row e s.next_id v.id uid q ∷ [];
    next_id = s.next_id + 1;
  }),
)

unfoldable pub add_item : Env → ℕ → Sealed → Handler
add_item e uid q v m s = settle_item e uid q v (new_item_problem e q s) s

-- CreateVaultItem
unfoldable pub create_vault_item : Env → String → ℕ → Sealed → Store → Answer × Store
create_vault_item e ref uid q s = enter e ref uid (writer_only (add_item e uid q)) s

-- `Where("id = ? AND version = ?")`, of the rows that are not deleted
abbrev pub is_at : ℕ → ℕ → Item → Bool
is_at i version x = x.id == i && x.version == version && not x.deleted

unfoldable pub rewritten : Env → ℕ → Sealed → Item → Item → Item
rewritten e uid q loaded x = record x {
  overview_enc = e.seal q.overview_enc;
  secret_enc = e.seal q.secret_enc;
  version = loaded.version + 1;
  updated_by = uid;
}

abbrev pub version_at : ℕ → List Item → ℕ
version_at i items = elim (find_first (λ (x : Item). x.id == i && not x.deleted) items) [
  | none ↦ 0
  | some x ↦ x.version
]

-- The guarded update and what follows it; `loaded` is the copy of the row that the request read,
-- maybe before other requests wrote.
unfoldable pub write_item : Env → ℕ → Sealed → Item → Store → Answer × Store
write_item e uid q loaded s =
    if count_where (is_at loaded.id q.base_version) s.items == 0
    then (refused (stale (version_at loaded.id s.items)), s)
    else (
      made loaded.uuid (loaded.version + 1),
      log uid "vault_item_update" loaded.uuid (record s {
        items = update_where (is_at loaded.id q.base_version) (rewritten e uid q loaded) s.items;
      }),
    )

unfoldable pub write_row : Env → ℕ → Sealed → Option Item → Store → Answer × Store
write_row e uid q none s = (refused missing, s)
write_row e uid q (some it) s =
    if are_blobs e q then write_item e uid q it s else (refused malformed, s)

unfoldable pub change_item : Env → ℕ → String → Sealed → Handler
change_item e uid ref q v m s = write_row e uid q (find_first (is_item v.id ref) s.items) s

-- UpdateVaultItem
unfoldable pub update_vault_item : Env → String → ℕ → String → Sealed → Store → Answer × Store
update_vault_item e ref uid item q s = enter e ref uid (writer_only (change_item e uid item q)) s

unfoldable pub delete_row : ℕ → Option Item → Store → Answer × Store
delete_row uid none s = (refused missing, s)
delete_row uid (some it) s = (
  done,
  log uid "vault_item_delete" it.uuid (record s {
    items = update_where (λ (x : Item). x.id == it.id) (λ x. record x { deleted = true }) s.items;
  }),
)

unfoldable pub drop_item : ℕ → String → Handler
drop_item uid ref v m s = delete_row uid (find_first (is_item v.id ref) s.items) s

-- DeleteVaultItem
unfoldable pub delete_vault_item : Env → String → ℕ → String → Store → Answer × Store
delete_vault_item e ref uid item s = enter e ref uid (writer_only (drop_item uid item)) s

unfoldable pub reveal_row : Env → ℕ → Option Item → Store → Answer × Store
reveal_row e uid none s = (refused missing, s)
reveal_row e uid (some it) s =
    (secret (e.unseal it.secret_enc) it.version, log uid "vault_item_reveal" it.uuid s)

unfoldable pub reveal : Env → ℕ → String → Handler
reveal e uid ref v m s = reveal_row e uid (find_first (is_item v.id ref) s.items) s

-- RevealVaultItem
unfoldable pub reveal_vault_item : Env → String → ℕ → String → Store → Answer × Store
reveal_vault_item e ref uid item s = enter e ref uid (reveal e uid item) s

abbrev pub overview_of : Env → Item → Overview
overview_of e i = record {
  uuid = i.uuid;
  overview_enc = e.unseal i.overview_enc;
  version = i.version;
  updated_by = i.updated_by;
}

unfoldable pub show_items : Env → Handler
show_items e v m s = (
  items_shown (
      map (overview_of e) (
        e.newest_first (select_where (λ (i : Item). i.vault_id == v.id && not i.deleted) s.items))),
  s,
)

-- ListVaultItems
unfoldable pub list_vault_items : Env → String → ℕ → Store → Answer × Store
list_vault_items e ref uid s = enter e ref uid (show_items e) s
