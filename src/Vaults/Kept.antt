-- ===== src/Vaults/Kept.antt =====
-- Every vault keeps its owner, whatever is asked: the handlers of backend/handlers/vault.go in any
-- order, with changes of the groups in between.
use commitkube.Vaults.Owned.{IsOwned, Spares-IsOwned}
use commitkube.Vaults.Listing.{show_members, show_groups}
use commitkube.Vaults.Swept.{sweep_where-IsOwned}
use commitkube.Base.{
  ℕ, ◌<◌, ◌≡◌, refl, Bool, true, false, not, List, [], ◌∷◌, ◌==◌, ◌=s◌, ◌&&◌, if◌then◌else◌,
  find_first, find_first-survives, find_first-holds, count_where, update_where, delete_where, All,
  arith, Bool-cases, inl, inr, All-update_where, All-delete_where, DistinctKeys-delete_where,
}
use commitkube.Vaults.Store.{Vault, Member, Store, Env, log, is_writer}
use commitkube.Vaults.Door.{Handler, is_member, owner_only, writer_only}
use commitkube.Vaults.Manage.{erase_vault, erase, is_personal_of}
use commitkube.Vaults.Share.{invite, change_role, remove}
use commitkube.Vaults.Groups.{give_group, take_group}
use commitkube.Vaults.Items.{
  show_items, add_item, new_item_problem, change_item, is_item, drop_item, reveal,
}
use commitkube.Vaults.Request.{
  Request, delete, add_member, set_role, remove_member, set_group, remove_group, create_item,
  update_item, delete_item, reveal_item, list_members, list_groups, list_items, handler,
}
use commitkube.Vaults.Owners.{Owned}
use commitkube.Vaults.Sharing.{invite-Spares, change_role-Spares, remove-Spares}
use commitkube.Vaults.Granting.{
  give_group-Spares, take_group-Spares, settle_item-Spares, write_row-Spares, delete_row-Spares,
  reveal_row-Spares,
}

owner_only-IsOwned :
    (k : Handler) (v : Vault) (m : Member) (s : Store)
    → IsOwned s
    → IsOwned (k v m s).1
    → IsOwned (owner_only k v m s).1
unfolding owner_only
owner_only-IsOwned k v m s o h = elim (Bool-cases (m.role =s "owner")) [
  | inl e ↦ rw e h
  | inr e ↦ rw e o
]

writer_only-IsOwned :
    (k : Handler) (v : Vault) (m : Member) (s : Store)
    → IsOwned s
    → IsOwned (k v m s).1
    → IsOwned (writer_only k v m s).1
unfolding writer_only
writer_only-IsOwned k v m s o h = elim (Bool-cases (is_writer m.role)) [
  | inl e ↦ rw e h
  | inr e ↦ rw e o
]

-- A member of another vault outlives the deletion of one.
erase-owned :
    (i : ℕ) (ms : List Member) (vs : List Vault)
    → All (λ (v : Vault). v.deleted ≡ false → Owned v.id v.owner_id ms) vs
    → All
        (λ (v : Vault).
          v.deleted ≡ false
          → Owned v.id v.owner_id (delete_where (λ (m : Member). m.vault_id == i) ms))
        (update_where (λ (w : Vault). w.id == i) (λ w. record w { deleted = true }) vs)
unfolding update_where
erase-owned i ms [] h = tt
erase-owned i ms (v ∷ vs) h = (at_head (v.id == i) refl, erase-owned i ms vs h.1)
  where
    at_head :
        (c : Bool)
        → (v.id == i) ≡ c
        → (if c then record v { deleted = true } else v).deleted ≡ false
        → Owned
            (if c then record v { deleted = true } else v).id
            (if c then record v { deleted = true } else v).owner_id
            (delete_where (λ (m : Member). m.vault_id == i) ms)
    at_head true e live = absurd (ground (arith, live))
    at_head false e live =
        let o : Owned v.id v.owner_id ms = h.0 live in
        (
          o.0,
          (
            find_first-survives (is_member v.id v.owner_id) (λ (m : Member). m.vault_id == i) ms o.0
                o.1.0 (ground (arith, e, find_first-holds (is_member v.id v.owner_id) ms o.1.0)),
            o.1.1,
          ),
        )

erase-fresh :
    (i n : ℕ) (vs : List Vault)
    → All (λ (v : Vault). v.id < n) vs
    → All
        (λ (v : Vault). v.id < n)
        (update_where (λ (w : Vault). w.id == i) (λ w. record w { deleted = true }) vs)
erase-fresh i n vs h =
    All-update_where (λ (v : Vault). v.id < n) (λ (w : Vault). w.id == i)
      (λ w. record w { deleted = true }) vs (λ w lt. lt) h

erase-IsOwned :
    (uid : ℕ) (v : Vault) (m : Member) (s : Store) → IsOwned s → IsOwned (erase uid v m s).1
unfolding erase erase_vault log
erase-IsOwned uid v m s o =
    elim (Bool-cases (
      v.kind =s "personal"
      && count_where (λ (w : Vault). is_personal_of uid w && not (w.id == v.id)) s.vaults == 0)) [
        | inl e ↦ rw e o
        | inr e ↦ rw e (record {
          distinct =
              DistinctKeys-delete_where (λ (x : Member). x.id) (λ (x : Member). x.vault_id == v.id)
                s.members o.distinct;
          below =
              All-delete_where (λ (x : Member). (x.id < s.next_id) × (x.vault_id < s.next_id))
                (λ (x : Member). x.vault_id == v.id) s.members o.below;
          fresh = erase-fresh v.id s.next_id s.vaults o.fresh;
          owned = erase-owned v.id s.members s.vaults o.owned;
        })
      ]

pub handler-IsOwned :
    (e : Env) (uid : ℕ) (x : Request) (v : Vault) (m : Member) (s : Store)
    → v.id < s.next_id
    → IsOwned s
    → IsOwned (handler e uid x v m s).1
unfolding add_item change_item drop_item reveal show_members show_groups show_items
handler-IsOwned e uid delete v m s lt o =
    owner_only-IsOwned (erase uid) v m s o (erase-IsOwned uid v m s o)
handler-IsOwned e uid (add_member q) v m s lt o =
    Spares-IsOwned s (invite e uid q v m s).1 (invite-Spares s o.distinct o.below e uid q v m lt) o
handler-IsOwned e uid (set_role target role) v m s lt o =
    owner_only-IsOwned (change_role uid target role) v m s o (
      Spares-IsOwned s (change_role uid target role v m s).1
        (change_role-Spares s o.distinct o.below uid target role v m) o)
handler-IsOwned e uid (remove_member target) v m s lt o =
    owner_only-IsOwned (remove uid target) v m s o (
      Spares-IsOwned s (remove uid target v m s).1
        (remove-Spares s o.distinct o.below uid target v m) o)
handler-IsOwned e uid (set_group gid role) v m s lt o =
    owner_only-IsOwned (give_group uid gid role) v m s o (
      Spares-IsOwned s (give_group uid gid role v m s).1
        (give_group-Spares s o.distinct o.below uid gid role v m) o)
handler-IsOwned e uid (remove_group gid) v m s lt o =
    owner_only-IsOwned (take_group uid gid) v m s o (
      Spares-IsOwned s (take_group uid gid v m s).1
        (take_group-Spares s o.distinct o.below uid gid v m) o)
handler-IsOwned e uid (create_item q) v m s lt o = writer_only-IsOwned (add_item e uid q) v m s o (
    Spares-IsOwned s (add_item e uid q v m s).1
      (settle_item-Spares s o.distinct o.below e uid q v (new_item_problem e q s)) o)
handler-IsOwned e uid (update_item ref q) v m s lt o =
    writer_only-IsOwned (change_item e uid ref q) v m s o (
      Spares-IsOwned s (change_item e uid ref q v m s).1
        (write_row-Spares s o.distinct o.below e uid q (find_first (is_item v.id ref) s.items)) o)
handler-IsOwned e uid (delete_item ref) v m s lt o =
    writer_only-IsOwned (drop_item uid ref) v m s o (
      Spares-IsOwned s (drop_item uid ref v m s).1
        (delete_row-Spares s o.distinct o.below uid (find_first (is_item v.id ref) s.items)) o)
handler-IsOwned e uid (reveal_item ref) v m s lt o =
    Spares-IsOwned s (reveal e uid ref v m s).1
      (reveal_row-Spares s o.distinct o.below e uid (find_first (is_item v.id ref) s.items)) o
handler-IsOwned e uid list_members v m s lt o =
    sweep_where-IsOwned (λ (x : Member). x.vault_id == v.id) s o
handler-IsOwned e uid list_groups v m s lt o = o
handler-IsOwned e uid list_items v m s lt o = o
