-- ===== src/Vaults/Store.antt =====
-- The rows of the vaults (models.Vault, VaultMember, VaultGroupAccess, VaultKeyring, VaultItem) and
-- the limits of backend/handlers/vault.go. Blobs come sealed from the browser; `decoded` is the
-- length of what base64 makes of a text, `is_uuid` the parser of github.com/google/uuid, `seal` and
-- `unseal` crypto.EncryptField and crypto.DecryptField under the server's key, `newest_first` the
-- database's order by `updated_at`.
use commitkube.Base.{
  ℕ, String, Bool, false, Option, none, some, List, [], ◌∷◌, ◌++◌, ◌&&◌, ◌||◌, ◌=s◌, ltb, leb,
}

pub record Vault : Type 0 where
  pub id : ℕ
  pub uuid : String
  pub name : String
  pub description : String
  pub kind : String
  pub owner_id : ℕ
  pub deleted : Bool

pub record Member : Type 0 where
  pub id : ℕ
  pub vault_id : ℕ
  pub user_id : ℕ
  pub wrapped_key : String
  pub role : String
  pub added_by : ℕ
  pub via_group : Option ℕ

pub record Access : Type 0 where
  pub id : ℕ
  pub vault_id : ℕ
  pub group_id : ℕ
  pub role : String
  pub added_by : ℕ

pub record GroupMember : Type 0 where
  pub group_id : ℕ
  pub user_id : ℕ

pub record Keyring : Type 0 where
  pub id : ℕ
  pub user_id : ℕ
  pub public_key : String
  pub fingerprint : String
  pub private_key_enc : String
  pub kdf_salt : String
  pub kdf_params : String
  pub recovery_key_enc : String
  pub recovery_salt : String
  pub recovery_used_at : Option ℕ

pub record Item : Type 0 where
  pub id : ℕ
  pub uuid : String
  pub vault_id : ℕ
  pub overview_enc : String
  pub secret_enc : String
  pub version : ℕ
  pub created_by : ℕ
  pub updated_by : ℕ
  pub deleted : Bool

pub record Entry : Type 0 where
  pub user_id : ℕ
  pub action : String
  pub detail : String

-- The tables; one counter gives the keys of all of them.
pub record Store : Type 0 where
  pub vaults : List Vault
  pub members : List Member
  pub grants : List Access
  pub groups : List ℕ
  pub group_members : List GroupMember
  pub keyrings : List Keyring
  pub items : List Item
  pub audit : List Entry
  pub next_id : ℕ

pub record Kdf : Type 0 where
  pub alg : String
  pub m : ℕ
  pub t : ℕ
  pub p : ℕ

pub record Env : Type 0 where
  pub now : ℕ
  pub decoded : String → Option ℕ
  pub is_uuid : String → Bool
  pub parse_kdf : String → Option Kdf
  pub bytes : String → ℕ
  pub lower : String → String
  pub seal : String → String
  pub unseal : String → String
  pub may_share : Bool
  pub newest_first : List Item → List Item

abbrev pub max_wrapped_key_bytes : ℕ
max_wrapped_key_bytes = 512

abbrev pub max_public_key_bytes : ℕ
max_public_key_bytes = 256

abbrev pub max_private_key_bytes : ℕ
max_private_key_bytes = 4096

abbrev pub max_overview_bytes : ℕ
max_overview_bytes = 8192

abbrev pub max_secret_bytes : ℕ
max_secret_bytes = 65536

abbrev pub max_vault_name_len : ℕ
max_vault_name_len = 120

abbrev pub max_vault_desc_len : ℕ
max_vault_desc_len = 500

-- validVaultBlob
unfoldable pub is_blob : Option ℕ → ℕ → Bool
is_blob none max = false
is_blob (some n) max = ltb 0 n && leb n max

abbrev pub valid_blob : Env → String → ℕ → Bool
valid_blob e text max = is_blob (e.decoded text) max

-- vaultWriterRoles
abbrev pub is_writer : String → Bool
is_writer role = role =s "owner" || role =s "writer"

pub data Problem : Type 0 where
  invalid_id invalid_body malformed missing : Problem
  not_enrolled already_enrolled weak_kdf bad_fingerprint no_new_recovery_code : Problem
  bad_name bad_kind may_not_share has_personal taken no_passphrase : Problem
  not_owner read_only only_personal not_team not_a_member is_owner through_group bad_role : Problem
  no_group_access not_in_group unknown_group : Problem
  stale : ℕ → Problem

-- What a listing shows of an item.
pub record Overview : Type 0 where
  pub uuid : String
  pub overview_enc : String
  pub version : ℕ
  pub updated_by : ℕ

pub record MemberEntry : Type 0 where
  pub user_id : ℕ
  pub role : String
  pub fingerprint : String
  pub via_group : Option ℕ

pub record GroupEntry : Type 0 where
  pub group_id : ℕ
  pub role : String
  pub members : ℕ
  pub with_key : ℕ
  pub awaiting_key : List ℕ
  pub unenrolled : List ℕ

pub data Answer : Type 0 where
  refused : Problem → Answer
  done already_member : Answer
  made : String → ℕ → Answer
  removed : ℕ → Answer
  secret : String → ℕ → Answer
  items_shown : List Overview → Answer
  members_shown : List MemberEntry → Answer
  groups_shown : List GroupEntry → Answer

unfoldable pub log : ℕ → String → String → Store → Store
log uid action detail s = record s {
  audit = s.audit ++ record { user_id = uid; action = action; detail = detail } ∷ [];
}
