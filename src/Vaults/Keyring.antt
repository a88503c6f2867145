-- ===== src/Vaults/Keyring.antt =====
-- The sealed identity of a person: GetVaultKeyring, EnrollVaultKeyring, RekeyVaultKeyring and
-- validKDFParams of backend/handlers/vault.go.
use commitkube.Base.{
  ℕ, ◌+◌, String, Bool, false, not, Option, none, some, [], ◌∷◌, ◌++◌, ◌&&◌, ◌==◌, ◌=s◌, leb,
  if◌then◌else◌, find_first, update_where,
}
use commitkube.Vaults.Store.{
  Keyring, Store, Env, Kdf, Problem, Answer, refused, done, made, invalid_body, malformed,
  not_enrolled, already_enrolled, weak_kdf, bad_fingerprint, no_new_recovery_code, valid_blob,
  max_public_key_bytes, max_private_key_bytes, log,
}

pub record Enrolment : Type 0 where
  pub public_key : String
  pub fingerprint : String
  pub private_key_enc : String
  pub kdf_salt : String
  pub kdf_params : String
  pub recovery_key_enc : String
  pub recovery_salt : String

pub record Rekeying : Type 0 where
  pub private_key_enc : String
  pub kdf_salt : String
  pub kdf_params : String
  pub recovery_key_enc : String
  pub recovery_salt : String
  pub via_recovery : Bool

abbrev pub is_of : ℕ → Keyring → Bool
is_of uid k = k.user_id == uid

-- validKDFParams
unfoldable pub is_strong : Option Kdf → Bool
is_strong none = false
is_strong (some k) = k.alg =s "argon2id" && leb 65536 k.m && leb 3 k.t && leb 1 k.p

unfoldable pub enrolment_problem : Env → Enrolment → Option Problem
enrolment_problem e q =
    if not (
      valid_blob e q.public_key max_public_key_bytes
      && valid_blob e q.private_key_enc max_private_key_bytes
      && valid_blob e q.recovery_key_enc max_private_key_bytes
      && valid_blob e q.kdf_salt 64
      && valid_blob e q.recovery_salt 64)
    then some malformed
    else if not (is_strong (e.parse_kdf q.kdf_params))
    then some weak_kdf
    else if not (e.bytes q.fingerprint == 64)
    then some bad_fingerprint
    else none

unfoldable pub new_keyring : Env → ℕ → ℕ → Enrolment → Keyring
new_keyring e uid i q = record {
  id = i;
  user_id = uid;
  public_key = q.public_key;
  fingerprint = e.lower q.fingerprint;
  private_key_enc = e.seal q.private_key_enc;
  kdf_salt = q.kdf_salt;
  kdf_params = q.kdf_params;
  recovery_key_enc = e.seal q.recovery_key_enc;
  recovery_salt = q.recovery_salt;
  recovery_used_at = none;
}

unfoldable pub settle_enrolment : Env → ℕ → Enrolment → Option Problem → Store → Answer × Store
settle_enrolment e uid q (some p) s = (refused p, s)
settle_enrolment e uid q none s =
    let kr = new_keyring e uid s.next_id q in
    (
      made kr.fingerprint 0,
      log uid "vault_enroll" kr.fingerprint
          (record s { keyrings = s.keyrings ++ kr ∷ []; next_id = s.next_id + 1 }),
    )

unfoldable pub enrol : Env → ℕ → Option Enrolment → Store → Answer × Store
enrol e uid none s = (refused invalid_body, s)
enrol e uid (some q) s = settle_enrolment e uid q (enrolment_problem e q) s

unfoldable pub enrol_row : Env → ℕ → Option Enrolment → Option Keyring → Store → Answer × Store
enrol_row e uid q (some k) s = (refused already_enrolled, s)
enrol_row e uid q none s = enrol e uid q s

-- EnrollVaultKeyring
unfoldable pub enroll_vault_keyring : Env → ℕ → Option Enrolment → Store → Answer × Store
enroll_vault_keyring e uid q s = enrol_row e uid q (find_first (is_of uid) s.keyrings) s

abbrev pub has_new_code : Env → Rekeying → Bool
has_new_code e q =
    valid_blob e q.recovery_key_enc max_private_key_bytes && valid_blob e q.recovery_salt 64

unfoldable pub rekeying_problem : Env → Rekeying → Option Problem
rekeying_problem e q =
    if not (valid_blob e q.private_key_enc max_private_key_bytes && valid_blob e q.kdf_salt 64)
    then some malformed
    else if not (is_strong (e.parse_kdf q.kdf_params))
    then some weak_kdf
    else if q.via_recovery && not (has_new_code e q)
    then some no_new_recovery_code
    else none

unfoldable pub rekeyed : Env → Rekeying → Keyring → Keyring
rekeyed e q k = record k {
  private_key_enc = e.seal q.private_key_enc;
  kdf_salt = q.kdf_salt;
  kdf_params = q.kdf_params;
  recovery_used_at = if q.via_recovery then some e.now else k.recovery_used_at;
  recovery_key_enc = if has_new_code e q then e.seal q.recovery_key_enc else k.recovery_key_enc;
  recovery_salt = if has_new_code e q then q.recovery_salt else k.recovery_salt;
}

-- `Save` writes the whole row under its key.
unfoldable pub settle_rekeying :
    Env → ℕ → Rekeying → Keyring → Option Problem → Store → Answer × Store
settle_rekeying e uid q k (some p) s = (refused p, s)
settle_rekeying e uid q k none s = (
  done,
  log uid (if q.via_recovery then "vault_recovery_used" else "vault_rekey") "" (record s {
    keyrings = update_where (λ (r : Keyring). r.id == k.id) (λ _. rekeyed e q k) s.keyrings;
  }),
)

unfoldable pub rekey_body : Env → ℕ → Option Rekeying → Keyring → Store → Answer × Store
rekey_body e uid none k s = (refused invalid_body, s)
rekey_body e uid (some q) k s = settle_rekeying e uid q k (rekeying_problem e q) s

unfoldable pub rekey_row : Env → ℕ → Option Rekeying → Option Keyring → Store → Answer × Store
rekey_row e uid q none s = (refused not_enrolled, s)
rekey_row e uid q (some k) s = rekey_body e uid q k s

-- RekeyVaultKeyring
unfoldable pub rekey_vault_keyring : Env → ℕ → Option Rekeying → Store → Answer × Store
rekey_vault_keyring e uid q s = rekey_row e uid q (find_first (is_of uid) s.keyrings) s

-- What GetVaultKeyring hands out; the recovery wrapping where it was asked for.
pub record Handed : Type 0 where
  pub public_key : String
  pub fingerprint : String
  pub private_key_enc : String
  pub recovery : Option (String × String)

unfoldable pub hand_out : Env → ℕ → Bool → Option Keyring → Store → Option Handed × Store
hand_out e uid recovery none s = (none, s)
hand_out e uid recovery (some k) s = (
  some (record {
    public_key = k.public_key;
    fingerprint = k.fingerprint;
    private_key_enc = e.unseal k.private_key_enc;
    recovery = if recovery then some (e.unseal k.recovery_key_enc, k.recovery_salt) else none;
  }),
  if recovery then log uid "vault_recovery_fetch" "recovery wrapping requested" s else s,
)

-- GetVaultKeyring
unfoldable pub get_vault_keyring : Env → ℕ → Bool → Store → Option Handed × Store
get_vault_keyring e uid recovery s = hand_out e uid recovery (find_first (is_of uid) s.keyrings) s
