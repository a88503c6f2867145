-- ===== src/Vaults/Roles.antt =====
-- What a role may change: the checks on roles in backend/handlers/vault.go, for every route.
use commitkube.Vaults.Entitled.{entitled, still_entitled-entitled}
use commitkube.Vaults.Listing.{show_groups}
use commitkube.Vaults.Confined.{
  Confined, same-Confined, show_members-Confined, owner_only-Confined, writer_only-Confined,
  settle_item-Keeps, write_row-Keeps, delete_row-Keeps, reveal_row-Confined, deliver_granted-Keeps,
}
use commitkube.Vaults.Groups.{give_group, take_group}
use commitkube.Vaults.Manage.{erase}
use commitkube.Base.{
  ℕ, ◌≡◌, refl, String, Bool, true, false, Option, none, some, ◌=s◌, if◌then◌else◌, find_first,
  arith, Bool-cases, inl, inr, DistinctKeys, ◌∙◌,
}
use commitkube.Vaults.Store.{
  Vault, Member, Store, Env, Problem, Answer, refused, is_writer, read_only,
}
use commitkube.Vaults.Door.{
  vault_for, settle_vault, settle_member, settle_holds, group_membership_holds, answer_door, enter,
  is_vault, is_member, is_grant,
}
use commitkube.Vaults.Share.{
  Invite, invite, settle_invite, invite_by, hand_key, deliver_granted, name_person, invite_problem,
  change_role, remove,
}
use commitkube.Vaults.Items.{
  show_items, add_item, new_item_problem, change_item, is_item, drop_item, reveal,
}
use commitkube.Vaults.Request.{
  Request, delete, add_member, set_role, remove_member, set_group, remove_group, create_item,
  update_item, delete_item, reveal_item, list_members, list_groups, list_items, handler, run,
}

name_person-Confined :
    (e : Env) (uid : ℕ) (q : Invite) (v : Vault) (m : Member) (s : Store)
    → Confined v m.role s (name_person e uid q v m s).1
unfolding name_person
name_person-Confined e uid q v m s = elim (Bool-cases (m.role =s "owner")) [
  | inl h ↦ record {
    by_owner = λ off. absurd (ground (arith, h, off));
    by_writer = λ off _. absurd (ground (arith, h, off));
  }
  | inr h ↦ rw h (same-Confined v m.role s)
]

-- Handing out a key is the one write of a writer to the members.
hand_key-Confined :
    (e : Env) (uid : ℕ) (q : Invite) (gid : ℕ) (v : Vault) (m : Member) (s : Store)
    → Confined v m.role s (hand_key e uid q gid v m s).1
unfolding hand_key
hand_key-Confined e uid q gid v m s = at_test (is_writer m.role) refl
  where
    at_test :
        (b : Bool)
        → is_writer m.role ≡ b
        → Confined v m.role s (
            (if◌then◌else◌ {A = Answer × Store} b
              (deliver_granted e uid v q gid (find_first (is_grant v.id gid) s.grants) s)
              (refused read_only, s)).1)
    at_test true h = record {
      by_owner =
          λ _. deliver_granted-Keeps e uid v q gid (find_first (is_grant v.id gid) s.grants) s;
      by_writer = λ off out. absurd (ground (arith, h, off, out));
    }
    at_test false h = same-Confined v m.role s

invite_by-Confined :
    (e : Env) (uid : ℕ) (q : Invite) (o : Option ℕ) (v : Vault) (m : Member) (s : Store)
    → Confined v m.role s (invite_by e uid q o v m s).1
unfolding invite_by
invite_by-Confined e uid q none v m s = name_person-Confined e uid q v m s
invite_by-Confined e uid q (some gid) v m s = hand_key-Confined e uid q gid v m s

settle_invite-Confined :
    (e : Env) (uid : ℕ) (q : Invite) (o : Option Problem) (v : Vault) (m : Member) (s : Store)
    → Confined v m.role s (settle_invite e uid q o v m s).1
unfolding settle_invite
settle_invite-Confined e uid q none v m s = invite_by-Confined e uid q q.via_group v m s
settle_invite-Confined e uid q (some p) v m s = same-Confined v m.role s

invite-Confined :
    (e : Env) (uid : ℕ) (q : Invite) (v : Vault) (m : Member) (s : Store)
    → Confined v m.role s (invite e uid q v m s).1
unfolding invite
invite-Confined e uid q v m s = elim (Bool-cases (v.kind =s "team")) [
  | inl h ↦ rw h (settle_invite-Confined e uid q (invite_problem e q s) v m s)
  | inr h ↦ rw h (same-Confined v m.role s)
]

handler-Confined :
    (e : Env) (uid : ℕ) (x : Request) (v : Vault) (m : Member) (s : Store)
    → DistinctKeys (λ (x : Member). x.id) s.members
    → Confined v m.role s (handler e uid x v m s).1
unfolding add_item change_item drop_item reveal show_groups show_items
handler-Confined e uid delete v m s d = owner_only-Confined (erase uid) v m s
handler-Confined e uid (add_member q) v m s d = invite-Confined e uid q v m s
handler-Confined e uid (set_role target role) v m s d =
    owner_only-Confined (change_role uid target role) v m s
handler-Confined e uid (remove_member target) v m s d =
    owner_only-Confined (remove uid target) v m s
handler-Confined e uid (set_group gid role) v m s d =
    owner_only-Confined (give_group uid gid role) v m s
handler-Confined e uid (remove_group gid) v m s d = owner_only-Confined (take_group uid gid) v m s
handler-Confined e uid (create_item q) v m s d =
    writer_only-Confined (add_item e uid q) v m s
      (settle_item-Keeps e uid q v (new_item_problem e q s) s)
handler-Confined e uid (update_item ref q) v m s d =
    writer_only-Confined (change_item e uid ref q) v m s
      (write_row-Keeps e uid q (find_first (is_item v.id ref) s.items) s)
handler-Confined e uid (delete_item ref) v m s d =
    writer_only-Confined (drop_item uid ref) v m s
      (delete_row-Keeps uid (find_first (is_item v.id ref) s.items) s)
handler-Confined e uid (reveal_item ref) v m s d =
    reveal_row-Confined e uid v m.role (find_first (is_item v.id ref) s.items) s
handler-Confined e uid list_members v m s d = show_members-Confined v m s d
handler-Confined e uid list_groups v m s d = same-Confined v m.role s
handler-Confined e uid list_items v m s d = same-Confined v m.role s

-- Whatever the route, who is let in without owning the vault changes no vault and no access of a
-- group; who is neither owner nor writer changes no item either, and of the members at most
-- deletes the rows of the vault that no longer entitle anybody, as the listing of the members
-- does. The keys of the rows are distinct.
pub run-Confined :
    (e : Env) (ref : String) (uid : ℕ) (x : Request) (v : Vault) (m : Member) (s : Store)
    → e.is_uuid ref ≡ true
    → find_first (is_vault ref) s.vaults ≡ some v
    → find_first (is_member v.id uid) s.members ≡ some m
    → entitled s m ≡ true
    → DistinctKeys (λ (x : Member). x.id) s.members
    → Confined v m.role s (run e ref uid x s).1
unfolding enter vault_for settle_vault settle_member settle_holds group_membership_holds answer_door
run-Confined e ref uid x v m s good found mine on d =
    rw good (
      rw found (rw mine (rw (still_entitled-entitled m s ∙ on) (handler-Confined e uid x v m s d))))
