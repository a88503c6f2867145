-- ===== src/Vault/Access.antt =====
-- The handlers of backend/handlers/vault_mfa.go: setting a code up, confirming it, trading it for a
-- vault session, resetting it, and the guard of the vault's routes.
use commitkube.Tokens.{Claims, Jwt, vault_session_key, second}
use commitkube.Base.{
  ℕ, ◌+◌, ◌*◌, ◌/◌, String, Bool, true, false, not, ◌&&◌, ◌||◌, Option, none, some, List, [], ◌∷◌,
  ◌++◌, ltb, ◌==◌, ◌=s◌, if◌then◌else◌, update_where, find_first,
}
use commitkube.Vault.Factor.{
  Factor, Table, Env, Verdict, accepted, log, update_factor, check_vault_code,
}

abbrev pub session_ttl : ℕ
session_ttl = 900000000000

abbrev pub renew_below : ℕ
renew_below = 600000000000

pub data Response : Type 0 where
  forbidden not_found conflict set_up_first nothing_to_reset was_reset server_error : Response
  refused : Verdict → Response
  seeded : String → Response
  session : String → Response

-- The fields of models.User that are read.
pub record Person : Type 0 where
  pub id : ℕ
  pub role : String
  pub mfa_secret : String

-- `Where("user_id = ?").First`
abbrev pub factor_of : ℕ → Table → Option Factor
factor_of uid v = find_first (λ (f : Factor). f.user_id == uid) v.factors

-- `db.DB.Save`: by primary key, and a new row where there is none yet.
unfoldable pub save : Factor → Table → Table
save f v =
    if f.id == 0
    then record v {
      factors = v.factors ++ record f { id = v.next_id } ∷ [];
      next_id = v.next_id + 1;
    }
    else record v { factors = update_where (λ (r : Factor). r.id == f.id) (λ r. f) v.factors }

abbrev pub is_enabled : Option ℕ → Bool
is_enabled none = false
is_enabled (some _) = true

-- The loop that draws seeds until one is not the sign-in's; `none` is a draw that fails, and a list
-- that ends stands for a draw that has not come.
unfoldable pub draw_seed : String → List (Option String) → Option String
draw_seed sign_in [] = none
draw_seed sign_in (none ∷ draws) = none
draw_seed sign_in (some k ∷ draws) =
    let rest = draw_seed sign_in draws in if k =s sign_in then rest else some k

-- A row that a person has none of is one of zero values.
abbrev pub blank : Factor
blank = record {
  id = 0;
  user_id = 0;
  secret_enc = "";
  enabled_at = none;
  last_step = 0;
  failures = 0;
  locked_until = none;
  generation = 0;
}

abbrev pub or_blank : Option Factor → Factor
or_blank none = blank
or_blank (some f) = f

abbrev pub seeded_row : ℕ → String → Factor → Factor
seeded_row uid sealed f = record f {
  user_id = uid;
  secret_enc = sealed;
  enabled_at = none;
  last_step = 0;
  failures = 0;
  locked_until = none;
  generation = if f.generation == 0 then 1 else f.generation;
}

-- The update of `ResetUserVaultMFA`
abbrev pub cleared : ℕ → Factor → Factor
cleared generation r = record r {
  secret_enc = "";
  enabled_at = none;
  failures = 0;
  locked_until = none;
  generation = generation + 1;
}

module _ (encrypt : String → String) where
  unfoldable pub settle_setup : Env → ℕ → Factor → Option String → Table → Table × Response
  settle_setup e uid f none v = (v, server_error)
  settle_setup e uid f (some key) v =
      if e.update_ok
      then (save (seeded_row uid (encrypt key) f) v, seeded key)
      else (v, server_error)

  unfoldable pub setup_row :
      Env → ℕ → Option Person → List (Option String) → Factor → Table → Table × Response
  setup_row e uid person draws f v =
      if is_enabled f.enabled_at then (v, conflict) else elim person [
        | none ↦ (v, not_found)
        | some p ↦ settle_setup e uid f (draw_seed p.mfa_secret draws) v
      ]

  -- `SetupVaultMFA`
  unfoldable pub setup_vault_mfa :
      Env → ℕ → Option Person → List (Option String) → Table → Table × Response
  setup_vault_mfa e uid person draws v = setup_row e uid person draws (or_blank (factor_of uid v)) v

-- `ResetUserVaultMFA`; `caller` is the person signed in and `target` the account named.
unfoldable pub reset_row : Env → Person → Option Factor → Table → Table × Response
reset_row e caller none v = (v, nothing_to_reset)
reset_row e caller (some f) v =
    (log caller.id "vault_mfa_reset" (update_factor e f.id (cleared f.generation) v), was_reset)

unfoldable pub reset_user_vault_mfa : Env → Option Person → Option Person → Table → Table × Response
reset_user_vault_mfa e none target v = (v, forbidden)
reset_user_vault_mfa e (some caller) none v = (v, not_found)
reset_user_vault_mfa e (some caller) (some target) v =
    if target.role =s "root" && not (caller.role =s "root")
    then (v, forbidden)
    else reset_row e caller (factor_of target.id v) v

module _ (jwt : Jwt) (secret : String) where
  abbrev pub session_claims : ℕ → ℕ → ℕ → Claims
  session_claims now uid generation = record {
    typ = "vault_session";
    user_id = 0;
    role = "";
    sid = "";
    uid = uid;
    gen = generation;
    exp = some ((now + session_ttl) / second);
  }

  unfoldable pub issue_vault_session : Env → ℕ → ℕ → Option String
  issue_vault_session e uid generation =
      if e.sign_ok
      then jwt.sign (vault_session_key jwt secret) (session_claims e.now uid generation)
      else none

  unfoldable pub answer : Option String → Response
  answer none = server_error
  answer (some token) = session token

  module _ (decrypt : String → String) (totp : String → ℕ → Option String) where
    unfoldable pub settle_confirm : Env → ℕ → Factor → Verdict × Table → Table × Response
    settle_confirm e uid f (accepted, v) = (
      log uid "vault_mfa_enable"
          (update_factor e f.id (λ r. record r { enabled_at = some e.now }) v),
      answer (issue_vault_session e uid f.generation),
    )
    settle_confirm e uid f (r, v) = (v, refused r)

    unfoldable pub confirm_row : Env → ℕ → String → Option Factor → Table → Table × Response
    confirm_row e uid code none v = (v, set_up_first)
    confirm_row e uid code (some f) v =
        if f.secret_enc =s ""
        then (v, set_up_first)
        else if is_enabled f.enabled_at
        then (v, conflict)
        else settle_confirm e uid f (check_vault_code decrypt totp e f code v)

    -- `ConfirmVaultMFA`
    unfoldable pub confirm_vault_mfa : Env → ℕ → String → Table → Table × Response
    confirm_vault_mfa e uid code v = confirm_row e uid code (factor_of uid v) v

    -- The entry is written once the session is issued.
    unfoldable pub hand_over : ℕ → Option String → Table → Table × Response
    hand_over uid none v = (v, server_error)
    hand_over uid (some token) v = (log uid "vault_unlock" v, session token)

    unfoldable pub settle_verify : Env → ℕ → Factor → Verdict × Table → Table × Response
    settle_verify e uid f (accepted, v) = hand_over uid (issue_vault_session e uid f.generation) v
    settle_verify e uid f (r, v) = (log uid "vault_mfa_failed" v, refused r)

    unfoldable pub verify_row : Env → ℕ → String → Option Factor → Table → Table × Response
    verify_row e uid code none v = (v, set_up_first)
    verify_row e uid code (some f) v =
        if not (is_enabled f.enabled_at)
        then (v, set_up_first)
        else settle_verify e uid f (check_vault_code decrypt totp e f code v)

    -- `VerifyVaultMFA`
    unfoldable pub verify_vault_mfa : Env → ℕ → String → Table → Table × Response
    verify_vault_mfa e uid code v = verify_row e uid code (factor_of uid v) v

  -- Whether the row still backs the claims.
  unfoldable pub backs : Claims → Option Factor → Bool
  backs c none = false
  backs c (some f) = is_enabled f.enabled_at && f.generation == c.gen

  unfoldable pub close_to_end : ℕ → Option ℕ → Bool
  close_to_end now none = false
  close_to_end now (some exp) = ltb (exp * second) (now + renew_below)

  -- What the guard lets through: the header that it sets, if it renews the session.
  pub data Pass : Type 0 where
    no_code ended other_kind other_account reset : Pass
    passed : Option String → Pass

  unfoldable pub guard_claims : Env → ℕ → Option Claims → Table → Pass
  guard_claims e caller none v = ended
  guard_claims e caller (some c) v =
      if not (c.typ =s "vault_session")
      then other_kind
      else if caller == 0 || not (c.uid == caller)
      then other_account
      else if not (backs c (factor_of caller v))
      then reset
      else passed (if close_to_end e.now c.exp then issue_vault_session e caller c.gen else none)

  -- `VaultSessionRequired`
  unfoldable pub vault_session_required : Env → ℕ → String → Table → Pass
  vault_session_required e caller header v =
      if header =s ""
      then no_code
      else guard_claims e caller (jwt.parse (vault_session_key jwt secret) e.now header) v
