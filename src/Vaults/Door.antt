-- ===== src/Vaults/Door.antt =====
-- Who is let at a vault: vaultFor, groupMembershipHolds and RevokeGroupVaultKeys of
-- backend/handlers/vault.go.
use commitkube.Base.{
  ℕ, String, Bool, true, false, not, Option, none, some, ◌&&◌, ◌==◌, ◌=s◌, ltb, if◌then◌else◌,
  find_first, count_where, delete_where,
}
use commitkube.Vaults.Store.{
  Vault, Member, Access, GroupMember, Store, Env, Answer, refused, invalid_id, missing, not_owner,
  read_only, is_writer,
}

abbrev pub is_vault : String → Vault → Bool
is_vault ref v = v.uuid =s ref && not v.deleted

abbrev pub is_member : ℕ → ℕ → Member → Bool
is_member vid uid m = m.vault_id == vid && m.user_id == uid

abbrev pub is_grant : ℕ → ℕ → Access → Bool
is_grant vid gid a = a.vault_id == vid && a.group_id == gid

abbrev pub is_in_group : ℕ → ℕ → GroupMember → Bool
is_in_group gid uid g = g.group_id == gid && g.user_id == uid

abbrev pub drop_member : ℕ → Store → Store
drop_member i s = record s { members = delete_where (λ (m : Member). m.id == i) s.members }

-- Whether the group that a member came through still has the vault, and still has him.
unfoldable pub still_entitled : Option ℕ → ℕ → ℕ → Store → Bool
still_entitled none vid uid s = true
still_entitled (some gid) vid uid s =
    ltb 0 (count_where (is_grant vid gid) s.grants)
    && ltb 0 (count_where (is_in_group gid uid) s.group_members)

-- groupMembershipHolds
unfoldable pub group_membership_holds : Member → Store → Bool × Store
group_membership_holds m s =
    if still_entitled m.via_group m.vault_id m.user_id s
    then (true, s)
    else (false, drop_member m.id s)

pub data Door : Type 0 where
  bad_id shut : Door
  inside : Vault → Member → Door

unfoldable pub settle_holds : Vault → Member → Bool × Store → Door × Store
settle_holds v m (true, s) = (inside v m, s)
settle_holds v m (false, s) = (shut, s)

unfoldable pub settle_member : Vault → Option Member → Store → Door × Store
settle_member v none s = (shut, s)
settle_member v (some m) s = settle_holds v m (group_membership_holds m s)

unfoldable pub settle_vault : ℕ → Option Vault → Store → Door × Store
settle_vault uid none s = (shut, s)
settle_vault uid (some v) s = settle_member v (find_first (is_member v.id uid) s.members) s

-- vaultFor
unfoldable pub vault_for : Env → String → ℕ → Store → Door × Store
vault_for e ref uid s =
    if e.is_uuid ref then settle_vault uid (find_first (is_vault ref) s.vaults) s else (bad_id, s)

-- What a handler does from there on, where the caller is let in.
abbrev pub Handler : Type 0
Handler = Vault → Member → Store → Answer × Store

unfoldable pub answer_door : Handler → Door × Store → Answer × Store
answer_door k (bad_id, s) = (refused invalid_id, s)
answer_door k (shut, s) = (refused missing, s)
answer_door k (inside v m, s) = k v m s

unfoldable pub enter : Env → String → ℕ → Handler → Store → Answer × Store
enter e ref uid k s = answer_door k (vault_for e ref uid s)

-- `m.Role != "owner"`
unfoldable pub owner_only : Handler → Handler
owner_only k v m s = if m.role =s "owner" then k v m s else (refused not_owner, s)

-- `!vaultWriterRoles[m.Role]`
unfoldable pub writer_only : Handler → Handler
writer_only k v m s = if is_writer m.role then k v m s else (refused read_only, s)

abbrev pub is_via : ℕ → Member → Bool
is_via gid m = elim m.via_group [ none ↦ false | some g ↦ g == gid ]

-- RevokeGroupVaultKeys
unfoldable pub revoke_group_vault_keys : ℕ → Option ℕ → Store → Store
revoke_group_vault_keys gid none s = record s {
  members = delete_where (is_via gid) s.members;
  grants = delete_where (λ (a : Access). a.group_id == gid) s.grants;
}
revoke_group_vault_keys gid (some uid) s = record s {
  members = delete_where (λ (m : Member). is_via gid m && m.user_id == uid) s.members;
}
