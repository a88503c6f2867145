-- ===== src/Vaults/Share.antt =====
-- Who else holds a key: AddVaultMember, UpdateVaultMemberRole and RemoveVaultMember of
-- backend/handlers/vault.go.
use commitkube.Base.{
  ℕ, ◌+◌, String, Bool, false, not, Option, none, some, [], ◌∷◌, ◌++◌, ◌||◌, ◌==◌, ◌=s◌,
  if◌then◌else◌, find_first, update_where, any_where,
}
use commitkube.Vaults.Store.{
  Vault, Member, Access, Store, Env, Problem, Answer, refused, done, already_member, malformed,
  not_team, missing, not_enrolled, not_owner, read_only, not_a_member, is_owner, through_group,
  bad_role, no_group_access, not_in_group, valid_blob, max_wrapped_key_bytes, is_writer, log,
}
use commitkube.Vaults.Door.{
  Handler, enter, owner_only, is_member, is_grant, is_in_group, drop_member,
}
use commitkube.Vaults.Keyring.{is_of}

-- A request without a person does not parse.
pub record Invite : Type 0 where
  pub user_id : ℕ
  pub role : String
  pub wrapped_key : String
  pub via_group : Option ℕ

abbrev pub is_given_role : String → Bool
is_given_role r = r =s "writer" || r =s "reader"

unfoldable pub invite_problem : Env → Invite → Store → Option Problem
invite_problem e q s =
    if q.user_id == 0
    then some missing
    else if not (valid_blob e q.wrapped_key max_wrapped_key_bytes)
    then some malformed
    else if not (any_where (is_of q.user_id) s.keyrings)
    then some not_enrolled
    else none

unfoldable pub invited : Env → ℕ → ℕ → ℕ → Invite → String → Member
invited e i vid uid q role = record {
  id = i;
  vault_id = vid;
  user_id = q.user_id;
  wrapped_key = e.seal q.wrapped_key;
  role = role;
  added_by = uid;
  via_group = q.via_group;
}

unfoldable pub insert_member : Member → Store → Store
insert_member m s = record s { members = s.members ++ m ∷ []; next_id = s.next_id + 1 }

-- A key for someone whom a group entitles; who has one keeps it.
unfoldable pub deliver : Env → ℕ → Vault → Invite → String → Option Member → Store → Answer × Store
deliver e uid v q role (some m) s = (already_member, s)
deliver e uid v q role none s =
    (done, log uid "vault_share" v.name (insert_member (invited e s.next_id v.id uid q role) s))

unfoldable pub deliver_granted :
    Env → ℕ → Vault → Invite → ℕ → Option Access → Store → Answer × Store
deliver_granted e uid v q gid none s = (refused no_group_access, s)
deliver_granted e uid v q gid (some a) s =
    if any_where (is_in_group gid q.user_id) s.group_members
    then deliver e uid v q a.role (find_first (is_member v.id q.user_id) s.members) s
    else (refused not_in_group, s)

unfoldable pub hand_key : Env → ℕ → Invite → ℕ → Handler
hand_key e uid q gid v m s =
    if is_writer m.role
    then deliver_granted e uid v q gid (find_first (is_grant v.id gid) s.grants) s
    else (refused read_only, s)

unfoldable pub renamed : Env → ℕ → Invite → Member → Member
renamed e uid q m = record m {
  role = q.role;
  wrapped_key = e.seal q.wrapped_key;
  added_by = uid;
  via_group = none;
}

-- `Assign(…).FirstOrCreate`: the row that is found is written under its key.
unfoldable pub assign_member : Env → ℕ → Vault → Invite → Option Member → Store → Store
assign_member e uid v q (some m) s = record s {
  members = update_where (λ (x : Member). x.id == m.id) (renamed e uid q) s.members;
}
assign_member e uid v q none s =
    insert_member (invited e s.next_id v.id uid (record q { via_group = none }) q.role) s

abbrev pub owns : Option Member → Bool
owns none = false
owns (some m) = m.role =s "owner"

unfoldable pub name_person : Env → ℕ → Invite → Handler
name_person e uid q v m s =
    let existing = find_first (is_member v.id q.user_id) s.members in
    if not (m.role =s "owner")
    then (refused not_owner, s)
    else if not (is_given_role q.role)
    then (refused bad_role, s)
    else if owns existing
    then (refused is_owner, s)
    else (done, log uid "vault_share" v.name (assign_member e uid v q existing s))

unfoldable pub invite_by : Env → ℕ → Invite → Option ℕ → Handler
invite_by e uid q (some gid) v m s = hand_key e uid q gid v m s
invite_by e uid q none v m s = name_person e uid q v m s

unfoldable pub settle_invite : Env → ℕ → Invite → Option Problem → Handler
settle_invite e uid q (some p) v m s = (refused p, s)
settle_invite e uid q none v m s = invite_by e uid q q.via_group v m s

unfoldable pub invite : Env → ℕ → Invite → Handler
invite e uid q v m s =
    if v.kind =s "team"
    then settle_invite e uid q (invite_problem e q s) v m s
    else (refused not_team, s)

-- AddVaultMember
unfoldable pub add_vault_member : Env → String → ℕ → Invite → Store → Answer × Store
add_vault_member e ref uid q s = enter e ref uid (invite e uid q) s

-- The rules on the row that a change of sharing is about.
unfoldable pub target_problem : Member → Option Problem
target_problem t =
    if t.role =s "owner"
    then some is_owner
    else elim t.via_group [ none ↦ none | some g ↦ some through_group ]

unfoldable pub settle_role : ℕ → String → Vault → Member → Option Problem → Store → Answer × Store
settle_role uid role v t (some p) s = (refused p, s)
settle_role uid role v t none s = (
  done,
  log uid "vault_share" v.name (record s {
    members = update_where (λ (x : Member). x.id == t.id) (λ x. record x { role = role }) s.members;
  }),
)

unfoldable pub role_of : ℕ → String → Vault → Option Member → Store → Answer × Store
role_of uid role v none s = (refused not_a_member, s)
role_of uid role v (some t) s = settle_role uid role v t (target_problem t) s

unfoldable pub change_role : ℕ → ℕ → String → Handler
change_role uid target role v m s =
    if is_given_role role
    then role_of uid role v (find_first (is_member v.id target) s.members) s
    else (refused bad_role, s)

-- UpdateVaultMemberRole
unfoldable pub update_vault_member_role : Env → String → ℕ → ℕ → String → Store → Answer × Store
update_vault_member_role e ref uid target role s =
    enter e ref uid (owner_only (change_role uid target role)) s

unfoldable pub settle_removal : ℕ → Vault → Member → Option Problem → Store → Answer × Store
settle_removal uid v t (some p) s = (refused p, s)
settle_removal uid v t none s = (done, log uid "vault_unshare" v.name (drop_member t.id s))

unfoldable pub remove_row : ℕ → Vault → Option Member → Store → Answer × Store
remove_row uid v none s = (refused not_a_member, s)
remove_row uid v (some t) s = settle_removal uid v t (target_problem t) s

unfoldable pub remove : ℕ → ℕ → Handler
remove uid target v m s = remove_row uid v (find_first (is_member v.id target) s.members) s

-- RemoveVaultMember
unfoldable pub remove_vault_member : Env → String → ℕ → ℕ → Store → Answer × Store
remove_vault_member e ref uid target s = enter e ref uid (owner_only (remove uid target)) s
