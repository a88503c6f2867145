-- ===== src/Vaults/Pending.antt =====
-- Who waits for a key: ListPendingVaultKeys of backend/handlers/vault.go.
use commitkube.Base.{
  ◌&&◌, ℕ, String, Option, none, some, List, [], ◌∷◌, ◌++◌, ◌||◌, ◌==◌, ◌=s◌, if◌then◌else◌,
  find_first, any_where, select_where,
}
use commitkube.Vaults.Store.{Vault, Member, Access, GroupMember, Keyring, Store, is_writer}
use commitkube.Vaults.Door.{is_member, group_membership_holds}
use commitkube.Vaults.Keyring.{is_of}
use commitkube.Vaults.Listing.{is_vault_at}

pub record Waiting : Type 0 where
  pub vault_uuid : String
  pub user_id : ℕ
  pub public_key : String
  pub fingerprint : String
  pub group_id : ℕ
  pub vault_name : String
  pub role : String

unfoldable pub waiting_row : Vault → Access → ℕ → Keyring → Waiting
waiting_row v a uid k = record {
  vault_uuid = v.uuid;
  user_id = uid;
  public_key = k.public_key;
  fingerprint = k.fingerprint;
  group_id = a.group_id;
  vault_name = v.name;
  role = a.role;
}

-- The people queued for a vault so far.
unfoldable pub queue_enrolled : Vault → Access → ℕ → Option Keyring → List Waiting → List Waiting
queue_enrolled v a uid none queue = queue
queue_enrolled v a uid (some k) queue = queue ++ waiting_row v a uid k ∷ []

unfoldable pub queue_person : Vault → Access → Store → ℕ → List Waiting → List Waiting
queue_person v a s uid queue =
    if any_where (λ (w : Waiting). w.user_id == uid) queue
      || any_where (is_member v.id uid) s.members
    then queue
    else queue_enrolled v a uid (find_first (is_of uid) s.keyrings) queue

unfoldable pub queue_people :
    Vault → Access → Store → List GroupMember → List Waiting → List Waiting
queue_people v a s [] queue = queue
queue_people v a s (g ∷ gs) queue = queue_people v a s gs (queue_person v a s g.user_id queue)

unfoldable pub queue_groups : Vault → Store → List Access → List Waiting → List Waiting
queue_groups v s [] queue = queue
queue_groups v s (a ∷ rest) queue = queue_groups v s rest (
    queue_people v a s
      (select_where (λ (g : GroupMember). g.group_id == a.group_id) s.group_members) queue)

unfoldable pub queue_of : Store → Option Vault → List Waiting
queue_of s none = []
queue_of s (some v) =
    if v.kind =s "team"
    then queue_groups v s (select_where (λ (a : Access). a.vault_id == v.id) s.grants) []
    else []

-- The rows one after the other: a row that no longer holds is deleted before the next is read.
unfoldable pub pending_rows : List Member → Store → List Waiting × Store
pending_rows [] s = ([], s)
pending_rows (m ∷ ms) s =
    let held = group_membership_holds m s in
    let rest = pending_rows ms held.1 in
    (
      if held.0
          then queue_of held.1 (find_first (is_vault_at m.vault_id) s.vaults) ++ rest.0
          else rest.0,
      rest.1,
    )

-- ListPendingVaultKeys
unfoldable pub list_pending_vault_keys : ℕ → Store → List Waiting × Store
list_pending_vault_keys uid s =
    pending_rows (select_where (λ (m : Member). m.user_id == uid && is_writer m.role) s.members) s
