-- ===== src/Vaults/Groups.antt =====
-- The groups that a vault is given to: SetVaultGroupAccess and RemoveVaultGroupAccess of
-- backend/handlers/vault.go.
use commitkube.Base.{
  ℕ, ◌+◌, String, not, Option, none, some, [], ◌∷◌, ◌++◌, ◌&&◌, ◌==◌, ◌=s◌, if◌then◌else◌,
  find_first, update_where, delete_where, any_where, count_where,
}
use commitkube.Vaults.Store.{
  Vault, Member, Access, Store, Env, Answer, refused, done, removed, not_team, missing, bad_role,
  unknown_group, no_group_access, log,
}
use commitkube.Vaults.Door.{Handler, enter, owner_only, is_grant, is_via}
use commitkube.Vaults.Share.{is_given_role}

unfoldable pub assign_grant : ℕ → ℕ → ℕ → String → Option Access → Store → Store
assign_grant uid vid gid role (some a) s = record s {
  grants =
      update_where (λ (x : Access). x.id == a.id) (λ x. record x { role = role; added_by = uid })
        s.grants;
}
assign_grant uid vid gid role none s = record s {
  grants =
      s.grants
      ++ record { id = s.next_id; vault_id = vid; group_id = gid; role = role; added_by = uid }
        ∷ [];
  next_id = s.next_id + 1;
}

-- The role reaches everyone who is in through the group.
unfoldable pub spread_role : ℕ → ℕ → String → Store → Store
spread_role vid gid role s = record s {
  members =
      update_where (λ (m : Member). m.vault_id == vid && is_via gid m)
        (λ m. record m { role = role }) s.members;
}

unfoldable pub give_group : ℕ → ℕ → String → Handler
give_group uid gid role v m s =
    if not (v.kind =s "team")
    then (refused not_team, s)
    else if gid == 0
    then (refused missing, s)
    else if not (is_given_role role)
    then (refused bad_role, s)
    else if not (any_where (λ g. g == gid) s.groups)
    then (refused unknown_group, s)
    else (
      done,
      log uid "vault_share" v.name (
          spread_role v.id gid role
            (assign_grant uid v.id gid role (find_first (is_grant v.id gid) s.grants) s)),
    )

-- SetVaultGroupAccess
unfoldable pub set_vault_group_access : Env → String → ℕ → ℕ → String → Store → Answer × Store
set_vault_group_access e ref uid gid role s =
    enter e ref uid (owner_only (give_group uid gid role)) s

unfoldable pub drop_grant : ℕ → ℕ → ℕ → Store → Store
drop_grant i vid gid s = record s {
  grants = delete_where (λ (a : Access). a.id == i) s.grants;
  members = delete_where (λ (m : Member). m.vault_id == vid && is_via gid m) s.members;
}

unfoldable pub take_grant : ℕ → Vault → Option Access → Store → Answer × Store
take_grant uid v none s = (refused no_group_access, s)
take_grant uid v (some a) s = (
  removed (count_where (λ (m : Member). m.vault_id == v.id && is_via a.group_id m) s.members),
  log uid "vault_unshare" v.name (drop_grant a.id v.id a.group_id s),
)

unfoldable pub take_group : ℕ → ℕ → Handler
take_group uid gid v m s = take_grant uid v (find_first (is_grant v.id gid) s.grants) s

-- RemoveVaultGroupAccess
unfoldable pub remove_vault_group_access : Env → String → ℕ → ℕ → Store → Answer × Store
remove_vault_group_access e ref uid gid s = enter e ref uid (owner_only (take_group uid gid)) s
