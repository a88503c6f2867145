-- ===== src/Session/Store.antt =====
-- The refresh-token table of backend/handlers/session.go, and the operations that start, end and
-- prune sessions. Times and durations are counts of nanoseconds. `hash` is SHA-256 in hexadecimal.
use commitkube.Base.{
  ℕ, ◌+◌, ◌-◌, String, Bool, true, false, not, ◌&&◌, ◌||◌, Option, none, some, List, [], ◌∷◌, ◌++◌,
  ltb, ◌==◌, ◌=s◌, if◌then◌else◌, find_first, update_where, delete_where, any_where,
}

-- models.RefreshToken
pub record Token : Type 0 where
  pub id : ℕ
  pub user_id : ℕ
  pub token : String  -- the hash
  pub session_id : String
  pub started_at : ℕ
  pub expires_at : ℕ
  pub last_used_at : ℕ
  pub revoked : Bool
  pub rotated_at : Option ℕ

-- The fields of models.User that a session looks at.
pub record Account : Type 0 where
  pub id : ℕ
  pub role : String
  pub is_active : Bool
  pub force_password_change : Bool
  pub mfa_enabled : Bool

pub record Audit : Type 0 where
  pub user_id : ℕ
  pub action : String
  pub session_id : String

pub record Store : Type 0 where
  pub tokens : List Token
  pub next_id : ℕ
  pub accounts : List Account
  pub audit : List Audit

-- What a request meets outside the table: the clock, the two configured limits, the random token and
-- session id that it draws (`none` when the generator fails), and which writes and signatures work.
pub record Env : Type 0 where
  pub now : ℕ
  pub idle : ℕ  -- SESSION_IDLE_TIMEOUT
  pub max_age : ℕ  -- SESSION_MAX_AGE
  pub drawn : Option String
  pub new_session_id : String
  pub update_ok : Bool
  pub create_ok : Bool
  pub sign_ok : Bool

abbrev pub reuse_grace : ℕ
reuse_grace = 30000000000

-- `PruneRefreshTokens` keeps spent rows this long past their deadline.
abbrev pub prune_after : ℕ
prune_after = 86400000000000

unfoldable pub idle_deadline : Env → ℕ → ℕ
idle_deadline e started_at =
    let idle = e.now + e.idle in
    let hard = started_at + e.max_age in if ltb hard idle then hard else idle

abbrev pub in_session : String → Token → Bool
in_session sid t = t.session_id =s sid

-- A row that a refresh may still spend.
abbrev pub is_live : String → Token → Bool
is_live sid t = in_session sid t && not t.revoked

abbrev pub revoke : Token → Token
revoke t = record t { revoked = true }

-- `db.Create`: refused when the write fails or the unique index has the token already.
unfoldable pub create_token : Env → Token → Store → Option Store
create_token e t s =
    if not e.create_ok || any_where (λ r. r.token =s t.token) s.tokens
    then none
    else some (record s { tokens = s.tokens ++ t ∷ []; next_id = s.next_id + 1 })

-- `Update("revoked", true)` over the rows of one session.
unfoldable pub revoke_session : String → Store → Store
revoke_session sid s = record s { tokens = update_where (in_session sid) revoke s.tokens }

-- `revokeUserSessions`
unfoldable pub revoke_user_sessions : ℕ → Store → Store
revoke_user_sessions uid s = record s {
  tokens = update_where (λ t. t.user_id == uid && not t.revoked) revoke s.tokens;
}

-- `PruneRefreshTokens`; `now.Add(-24h)` does not go below the zero of the clock.
unfoldable pub prune : Env → Store → Store
prune e s = record s {
  tokens = delete_where (λ t. ltb t.expires_at (e.now - prune_after)) s.tokens;
}

unfoldable pub log_audit : ℕ → String → String → Store → Store
log_audit uid action sid s = record s {
  audit = s.audit ++ record { user_id = uid; action = action; session_id = sid } ∷ [];
}

-- `loadSessionUser`
unfoldable pub may_hold_session : Account → Bool
may_hold_session u =
    u.is_active && not u.force_password_change && u.mfa_enabled && not (u.role =s "bootstrap")

unfoldable pub load_session_user : ℕ → Store → Option Account
load_session_user uid s = elim (find_first (λ (u : Account). u.id == uid) s.accounts) [
  | none ↦ none
  | some u ↦ if may_hold_session u then some u else none
]

-- The body that carries an access token; the cookie is the raw refresh token, when one is set.
pub data Response : Type 0 where
  no_session : Response
  session_gone : Response  -- 401, and the cookie is cleared
  server_error : Response
  signed_in : Account → String → Option String → Response
  signed_out : Response

-- The answer once the row is written, or was refused.
unfoldable pub issued : Env → Account → String → Store → Option Store → Store × Response
issued e u raw s none = (s, server_error)
issued e u raw s (some s') =
    (s', if e.sign_ok then signed_in u e.new_session_id (some raw) else server_error)

-- The cookie's row, when there is one, ends its whole session.
unfoldable pub end_row_session : Option Token → Store → Store
unfolding revoke_session log_audit
end_row_session none s = s
end_row_session (some t) s =
    log_audit t.user_id "logout" t.session_id (revoke_session t.session_id s)

module _ (hash : String → String) where
  -- The row that `issueTokens` writes for a new sign-in.
  abbrev pub first_token : Env → Account → String → Store → Token
  first_token e u raw s = record {
    id = s.next_id;
    user_id = u.id;
    token = hash raw;
    session_id = e.new_session_id;
    started_at = e.now;
    expires_at = idle_deadline e e.now;
    last_used_at = e.now;
    revoked = false;
    rotated_at = none;
  }

  unfoldable pub issue_tokens : Env → Account → Option String → Store → Store × Response
  unfolding create_token issued
  issue_tokens e u none s = (s, server_error)
  issue_tokens e u (some raw) s = issued e u raw s (create_token e (first_token e u raw s) s)

  -- `issueTokens` and `signedIn`. A signature that fails leaves the row behind.
  unfoldable pub sign_in : Env → Account → Store → Store × Response
  unfolding issue_tokens
  sign_in e u s = issue_tokens e u e.drawn s

  abbrev pub find_token : String → Store → Option Token
  find_token raw s = find_first (λ (t : Token). t.token =s hash raw) s.tokens

  -- `Logout`
  unfoldable pub logout : String → Store → Store × Response
  unfolding end_row_session
  logout raw s =
      if raw =s "" then (s, signed_out) else (end_row_session (find_token raw s) s, signed_out)
