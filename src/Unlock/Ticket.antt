-- ===== src/Unlock/Ticket.antt =====
-- A password and a code are traded for a ticket, and the ticket is checked:
-- backend/handlers/secrets_unlock.go. `totp` is the code of a seed in a window of thirty seconds,
-- `password_matches` is bcrypt's comparison.
use Prim.Native.String.{len}
use commitkube.Base.{
  ℕ, ◌+◌, ◌/◌, String, Bool, true, false, not, ◌||◌, Option, none, some, List, [], ◌∷◌, ◌++◌, leb,
  ◌==◌, ◌=s◌, if◌then◌else◌, clean,
}
use commitkube.Tokens.{Claims, Jwt, Locals, second, secrets_ticket_key}
use commitkube.Vault.Factor.{find_step, steps}

-- The fields of models.User that are read.
pub record Person : Type 0 where
  pub id : ℕ
  pub password_hash : String
  pub mfa_secret : String

pub record Entry : Type 0 where
  pub user_id : ℕ
  pub action : String
  pub details : String

-- `usedSteps` and the audit log.
pub record State : Type 0 where
  pub used_steps : List (ℕ × ℕ)
  pub audit : List Entry

-- `usedSteps[uid]`, 0 for a key that is not there.
unfoldable pub last_used : ℕ → List (ℕ × ℕ) → ℕ
last_used uid [] = 0
last_used uid ((i, s) ∷ m) = if i == uid then s else last_used uid m

-- `usedSteps[uid] = step`
unfoldable pub mark_used : ℕ → ℕ → List (ℕ × ℕ) → List (ℕ × ℕ)
mark_used uid step [] = (uid, step) ∷ []
mark_used uid step ((i, s) ∷ m) =
    let rest = (i, s) ∷ mark_used uid step m in if i == uid then (uid, step) ∷ m else rest

unfoldable pub log : ℕ → String → String → State → State
log uid action details s = record s {
  audit = s.audit ++ record { user_id = uid; action = action; details = details } ∷ [];
}

-- Under `usedStepsMu`: a window is good once, and none before it after it.
unfoldable pub use_step : ℕ → Option ℕ → State → Bool × State
use_step uid none s = (false, s)
use_step uid (some step) s =
    if leb step (last_used uid s.used_steps)
    then (false, s)
    else (true, record s { used_steps = mark_used uid step s.used_steps })

pub data Response : Type 0 where
  bad_request no_account wrong_password_or_code server_error : Response
  ticket : String → Response

-- The clock and whether a signature works.
pub record Env : Type 0 where
  pub now : ℕ
  pub sign_ok : Bool

abbrev pub ticket_ttl : ℕ
ticket_ttl = 900000000000

module _ (totp : String → ℕ → Option String) where
  -- `checkSignInCode`
  unfoldable pub check_sign_in_code : ℕ → Person → String → State → Bool × State
  check_sign_in_code now p code s =
      if not (len (clean code) == 6) || p.mfa_secret =s ""
      then (false, s)
      else use_step p.id (find_step (λ x. x) totp p.mfa_secret (clean code) (steps now)) s

  module _ (password_matches : String → String → Bool) (jwt : Jwt) (secret : String) where
    abbrev pub ticket_claims : ℕ → ℕ → String → Claims
    ticket_claims now uid sid = record {
      typ = "secrets_unlock";
      user_id = 0;
      role = "";
      sid = sid;
      uid = uid;
      gen = 0;
      exp = some ((now + ticket_ttl) / second);
    }

    unfoldable pub hand_over : ℕ → Option String → State → State × Response
    hand_over uid none s = (s, server_error)
    hand_over uid (some t) s = (log uid "secrets_unlock" "" s, ticket t)

    unfoldable pub settle_code : Env → Locals → Person → Bool × State → State × Response
    settle_code e caller p (false, s) =
        (log p.id "secrets_unlock_failed" "code" s, wrong_password_or_code)
    settle_code e caller p (true, s) =
        hand_over p.id
          (if e.sign_ok
            then jwt.sign (secrets_ticket_key jwt secret)
                (ticket_claims e.now p.id caller.session_id)
            else none)
          s

    -- `UnlockSecrets`; `person` is the row of the caller.
    unfoldable pub unlock_secrets :
        Env → Locals → Option Person → String → String → State → State × Response
    unlock_secrets e caller person password code s =
        if password =s "" || code =s "" then (s, bad_request) else elim person [
          | none ↦ (s, no_account)
          | some p ↦
              if not (password_matches p.password_hash password)
              then (log p.id "secrets_unlock_failed" "password" s, wrong_password_or_code)
              else settle_code e caller p (check_sign_in_code e.now p code s)
        ]

-- Why a ticket is refused; `good` is the empty text.
pub data Problem : Type 0 where
  good missing expired other_kind other_account earlier_sign_in : Problem

module _ (jwt : Jwt) (secret : String) where
  unfoldable pub claims_problem : Locals → Option Claims → Problem
  claims_problem caller none = expired
  claims_problem caller (some c) =
      if not (c.typ =s "secrets_unlock")
      then other_kind
      else if not (c.uid == caller.user_id)
      then other_account
      else if c.sid =s "" || not (c.sid =s caller.session_id)
      then earlier_sign_in
      else good

  -- `secretsTicketProblem`
  unfoldable pub secrets_ticket_problem : ℕ → Locals → String → Problem
  secrets_ticket_problem now caller header =
      if header =s ""
      then missing
      else claims_problem caller (jwt.parse (secrets_ticket_key jwt secret) now header)
