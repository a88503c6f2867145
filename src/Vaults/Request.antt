-- ===== src/Vaults/Request.antt =====
-- The routes of a vault, one request each: backend/handlers/vault.go.
use commitkube.Base.{ℕ, String}
use commitkube.Vaults.Store.{Store, Env, Answer}
use commitkube.Vaults.Door.{Handler, enter, owner_only, writer_only}
use commitkube.Vaults.Manage.{erase}
use commitkube.Vaults.Share.{Invite, invite, change_role, remove}
use commitkube.Vaults.Groups.{give_group, take_group}
use commitkube.Vaults.Listing.{show_members, show_groups}
use commitkube.Vaults.Items.{show_items, Sealed, add_item, change_item, drop_item, reveal}

pub data Request : Type 0 where
  delete : Request
  add_member : Invite → Request
  set_role : ℕ → String → Request
  remove_member : ℕ → Request
  set_group : ℕ → String → Request
  remove_group : ℕ → Request
  create_item : Sealed → Request
  update_item : String → Sealed → Request
  delete_item : String → Request
  reveal_item : String → Request
  list_members list_groups list_items : Request

-- What the handler of a route does behind the door.
abbrev pub handler : Env → ℕ → Request → Handler
handler e uid delete = owner_only (erase uid)
handler e uid (add_member q) = invite e uid q
handler e uid (set_role target role) = owner_only (change_role uid target role)
handler e uid (remove_member target) = owner_only (remove uid target)
handler e uid (set_group gid role) = owner_only (give_group uid gid role)
handler e uid (remove_group gid) = owner_only (take_group uid gid)
handler e uid (create_item q) = writer_only (add_item e uid q)
handler e uid (update_item ref q) = writer_only (change_item e uid ref q)
handler e uid (delete_item ref) = writer_only (drop_item uid ref)
handler e uid (reveal_item ref) = reveal e uid ref
handler e uid list_members = show_members
handler e uid list_groups = show_groups
handler e uid list_items = show_items e

abbrev pub run : Env → String → ℕ → Request → Store → Answer × Store
run e ref uid x s = enter e ref uid (handler e uid x) s
