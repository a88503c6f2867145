-- ===== src/Vault/Factor.antt =====
-- The rows of the vault's second factor and the check of a code: backend/handlers/vault_mfa.go.
-- Times are counts of nanoseconds; `decrypt` is `crypto.DecryptField` under the master key and
-- `totp` the code of a seed in a window of thirty seconds.
use Prim.Native.String.{len}
use commitkube.Tokens.{second}
use commitkube.Base.{
  ℕ, ◌+◌, ◌-◌, ◌/◌, String, Bool, false, not, ◌&&◌, ◌||◌, Option, none, some, List, [], ◌∷◌, ◌++◌,
  ltb, leb, ◌==◌, ◌=s◌, if◌then◌else◌, update_where, count_where, clean,
}

-- models.VaultMFA
pub record Factor : Type 0 where
  pub id : ℕ
  pub user_id : ℕ
  pub secret_enc : String
  pub enabled_at : Option ℕ
  pub last_step : ℕ
  pub failures : ℕ
  pub locked_until : Option ℕ
  pub generation : ℕ

pub record Entry : Type 0 where
  pub user_id : ℕ
  pub action : String

pub record Table : Type 0 where
  pub factors : List Factor
  pub next_id : ℕ
  pub audit : List Entry

-- The clock, and which writes and signatures work.
pub record Env : Type 0 where
  pub now : ℕ
  pub update_ok : Bool
  pub sign_ok : Bool

abbrev pub max_failures : ℕ
max_failures = 5

abbrev pub lockout : ℕ
lockout = 300000000000

abbrev pub period : ℕ
period = 30

pub data Verdict : Type 0 where
  accepted locked already_used wrong : Verdict

unfoldable pub is_locked : ℕ → Option ℕ → Bool
is_locked now none = false
is_locked now (some until) = ltb now until

unfoldable pub log : ℕ → String → Table → Table
log uid action v = record v { audit = v.audit ++ record { user_id = uid; action = action } ∷ [] }

-- `db.DB.Model(&models.VaultMFA{}).Where("id = ?", id).Updates`
unfoldable pub update_factor : Env → ℕ → (Factor → Factor) → Table → Table
update_factor e i change v =
    if e.update_ok then record v { factors = update_where (λ r. r.id == i) change v.factors } else v

abbrev pub locks : ℕ → Factor → Factor
locks now r = record r { failures = 0; locked_until = some (now + lockout) }

abbrev pub counts : ℕ → Factor → Factor
counts n r = record r { failures = n }

-- `failVaultCode`, with the copy of the row that the request loaded. The error of the write is not
-- looked at.
unfoldable pub fail_vault_code : Env → Factor → Table → Verdict × Table
fail_vault_code e f v =
    if leb max_failures (f.failures + 1)
    then (wrong, update_factor e f.id (locks e.now) (log f.user_id "vault_mfa_lockout" v))
    else (wrong, update_factor e f.id (counts (f.failures + 1)) v)

-- `Where("id = ? AND last_step < ?")`
abbrev pub is_fresh : ℕ → ℕ → Factor → Bool
is_fresh i step r = r.id == i && ltb r.last_step step

abbrev pub spends : ℕ → Factor → Factor
spends step r = record r { last_step = step; failures = 0; locked_until = none }

unfoldable pub spend_step : Env → Factor → ℕ → Table → Verdict × Table
spend_step e f step v =
    if leb step f.last_step
    then (already_used, v)
    else if not e.update_ok || count_where (is_fresh f.id step) v.factors == 0
    then (already_used, v)
    else (
      accepted,
      record v { factors = update_where (is_fresh f.id step) (spends step) v.factors },
    )

unfoldable pub settle_step : Env → Factor → Option ℕ → Table → Verdict × Table
settle_step e f none v = fail_vault_code e f v
settle_step e f (some step) v = spend_step e f step v

-- The windows tried; the clock stands after 1970, so the first is not below 0.
unfoldable pub steps : ℕ → List ℕ
steps now = let current = now / second / period in (current - 1) ∷ current ∷ (current + 1) ∷ []

module _ (decrypt : String → String) (totp : String → ℕ → Option String) where
  unfoldable pub matches : Option String → String → Bool
  matches none code = false
  matches (some want) code = want =s code

  -- The first window whose code is the one given.
  unfoldable pub find_step : String → String → List ℕ → Option ℕ
  find_step secret code [] = none
  find_step secret code (s ∷ ss) =
      let rest = find_step secret code ss in if matches (totp secret s) code then some s else rest

  -- `checkVaultCode`, with the copy `f` of the row that the request loaded.
  unfoldable pub check_vault_code : Env → Factor → String → Table → Verdict × Table
  check_vault_code e f code v =
      if is_locked e.now f.locked_until
      then (locked, v)
      else if not (len (clean code) == 6) || decrypt f.secret_enc =s ""
      then fail_vault_code e f v
      else settle_step e f (find_step (decrypt f.secret_enc) (clean code) (steps e.now)) v
