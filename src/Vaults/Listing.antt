-- ===== src/Vaults/Listing.antt =====
-- The listings that also delete the rows of those whom a group no longer entitles: ListVaults,
-- ListVaultMembers and ListPendingVaultKeys of backend/handlers/vault.go. Addresses, names of groups
-- and times stand in other tables; a person is his key.
use commitkube.Base.{
  ℕ, String, Bool, true, false, not, Option, none, some, List, [], ◌∷◌, ◌++◌, ◌&&◌, ◌==◌,
  if◌then◌else◌, find_first, any_where, select_where, count_where, sort_stable, map, length,
}
use commitkube.Vaults.Store.{
  Vault, Member, Access, Keyring, Item, Store, Env, GroupMember, MemberEntry, GroupEntry, Answer,
  members_shown, groups_shown,
}
use commitkube.Vaults.Door.{group_membership_holds, is_in_group, is_member, Handler, enter}
use commitkube.Vaults.Keyring.{is_of}

-- The rows that hold, of those that were read; the others are deleted on the way.
unfoldable pub sweep : List Member → Store → List Member × Store
sweep [] s = ([], s)
sweep (m ∷ ms) s =
    let held = group_membership_holds m s in
    let rest = sweep ms held.1 in (if held.0 then m ∷ rest.0 else rest.0, rest.1)

pub record Listed : Type 0 where
  pub uuid : String
  pub name : String
  pub description : String
  pub kind : String
  pub role : String
  pub wrapped_key : String
  pub item_count : ℕ
  pub member_count : ℕ
  pub owner_id : ℕ
  pub pending : Bool

-- `byVault`: a later row of a vault stands over an earlier one.
unfoldable pub row_in : ℕ → List Member → Option Member
row_in vid [] = none
row_in vid (m ∷ ms) = elim (row_in vid ms) [
  | some x ↦ some x
  | none ↦ if m.vault_id == vid then some m else none
]

unfoldable pub held_entry : Env → Store → Vault → Option Member → List Listed
held_entry e s v none = []
held_entry e s v (some m) =
    record {
      uuid = v.uuid;
      name = v.name;
      description = v.description;
      kind = v.kind;
      role = m.role;
      wrapped_key = e.unseal m.wrapped_key;
      item_count = count_where (λ (i : Item). i.vault_id == v.id && not i.deleted) s.items;
      member_count = count_where (λ (x : Member). x.vault_id == v.id) s.members;
      owner_id = v.owner_id;
      pending = false;
    }
    ∷ []

unfoldable pub held_entries : Env → Store → List Member → List Vault → List Listed
held_entries e s rows [] = []
held_entries e s rows (v ∷ vs) = held_entry e s v (row_in v.id rows) ++ held_entries e s rows vs

abbrev pub is_vault_at : ℕ → Vault → Bool
is_vault_at i v = v.id == i && not v.deleted

unfoldable pub waiting_entry : Access → Option Vault → List Listed
waiting_entry a none = []
waiting_entry a (some v) =
    record {
      uuid = v.uuid;
      name = v.name;
      description = v.description;
      kind = v.kind;
      role = a.role;
      wrapped_key = "";
      item_count = 0;
      member_count = 0;
      owner_id = v.owner_id;
      pending = true;
    }
    ∷ []

-- The vaults that the person's groups were given, each once; `known` are those held or met before.
unfoldable pub waiting_entries : List Vault → List ℕ → List Access → List Listed
waiting_entries vs known [] = []
waiting_entries vs known (a ∷ rest) = elim (any_where (λ i. i == a.vault_id) known) [
  | true ↦ waiting_entries vs known rest
  | false ↦
      waiting_entry a (find_first (is_vault_at a.vault_id) vs)
      ++ waiting_entries vs (a.vault_id ∷ known) rest
]

abbrev pub vault_ids : List Member → List ℕ
vault_ids rows = map (λ (m : Member). m.vault_id) rows

unfoldable pub listing : Env → (Vault → Vault → Bool) → ℕ → List Member × Store → List Listed
listing e before uid (rows, s) =
    held_entries e s rows (
      sort_stable before (
        select_where (λ (v : Vault). any_where (λ i. i == v.id) (vault_ids rows) && not v.deleted)
          s.vaults))
    ++ waiting_entries s.vaults (vault_ids rows) (
        select_where (λ (a : Access). any_where (is_in_group a.group_id uid) s.group_members)
          s.grants)

-- ListVaults; `before` is the database's order of kinds and names.
unfoldable pub list_vaults : Env → (Vault → Vault → Bool) → ℕ → Store → List Listed × Store
list_vaults e before uid s =
    let swept = sweep (select_where (λ (m : Member). m.user_id == uid) s.members) s in
    (listing e before uid swept, swept.1)

abbrev pub fingerprint_of : Option Keyring → String
fingerprint_of none = ""
fingerprint_of (some k) = k.fingerprint

abbrev pub person_of : List Keyring → Member → MemberEntry
person_of ks m = record {
  user_id = m.user_id;
  role = m.role;
  fingerprint = fingerprint_of (find_first (is_of m.user_id) ks);
  via_group = m.via_group;
}

abbrev pub people_of : List Member × Store → Answer × Store
people_of (rows, s) = (members_shown (map (person_of s.keyrings) rows), s)

unfoldable pub show_members : Handler
show_members v m s =
    people_of (sweep (select_where (λ (x : Member). x.vault_id == v.id) s.members) s)

-- ListVaultMembers
unfoldable pub list_vault_members : Env → String → ℕ → Store → Answer × Store
list_vault_members e ref uid s = enter e ref uid show_members s

abbrev pub holds_key : ℕ → Store → ℕ → Bool
holds_key vid s uid = any_where (is_member vid uid) s.members

abbrev pub has_enrolled : Store → ℕ → Bool
has_enrolled s uid = any_where (is_of uid) s.keyrings

unfoldable pub group_entry : ℕ → Store → Access → List ℕ → GroupEntry
group_entry vid s a people = record {
  group_id = a.group_id;
  role = a.role;
  members = length people;
  with_key = count_where (holds_key vid s) people;
  awaiting_key = select_where (λ uid. not (holds_key vid s uid) && has_enrolled s uid) people;
  unenrolled = select_where (λ uid. not (holds_key vid s uid) && not (has_enrolled s uid)) people;
}

abbrev pub people_in : ℕ → Store → List ℕ
people_in gid s =
    map (λ (g : GroupMember). g.user_id)
      (select_where (λ (g : GroupMember). g.group_id == gid) s.group_members)

-- Groups that are gone are left out.
unfoldable pub group_entries : ℕ → Store → List GroupEntry
group_entries vid s =
    map (λ (a : Access). group_entry vid s a (people_in a.group_id s))
      (select_where (λ (a : Access). a.vault_id == vid && any_where (λ g. g == a.group_id) s.groups)
        s.grants)

unfoldable pub show_groups : Handler
show_groups v m s = (groups_shown (group_entries v.id s), s)

-- ListVaultGroupAccess
unfoldable pub list_vault_group_access : Env → String → ℕ → Store → Answer × Store
list_vault_group_access e ref uid s = enter e ref uid show_groups s

pub record PublicKey : Type 0 where
  pub user_id : ℕ
  pub public_key : String
  pub fingerprint : String

-- ListVaultPublicKeys
unfoldable pub list_vault_public_keys : Store → List PublicKey
list_vault_public_keys s =
    map
      (λ (k : Keyring). record {
        user_id = k.user_id;
        public_key = k.public_key;
        fingerprint = k.fingerprint;
      })
      s.keyrings
