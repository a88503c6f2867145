-- ===== src/Session/Refresh.antt =====
-- `RefreshTokenHandler` of backend/handlers/session.go: the transaction, what it leaves for after
-- the transaction, and the answer.
use commitkube.Base.{
  ℕ, ◌+◌, ◌-◌, String, Bool, true, false, not, ◌&&◌, ◌||◌, Option, none, some, ltb, leb, ◌==◌, ◌=s◌,
  if◌then◌else◌, update_where, count_where,
}
use commitkube.Session.Store.{
  Token, Account, Store, Env, reuse_grace, idle_deadline, is_live, create_token, revoke_session,
  log_audit, load_session_user, Response, no_session, session_gone, server_error, signed_in,
  find_token,
}

-- How the transaction ends. `refused` rolls back; it carries `endSession` and `reused`.
pub data Outcome : Type 0 where
  refused : String → Option Token → Outcome
  passed : Account → String → Outcome
  rotated : Account → String → String → Store → Outcome

-- A live row of the session whose deadline has not come.
abbrev pub is_current : ℕ → String → Token → Bool
is_current now sid t = is_live sid t && ltb now t.expires_at

unfoldable pub in_grace : ℕ → Option ℕ → Bool
in_grace now none = false
in_grace now (some at) = leb (now - at) reuse_grace

abbrev pub is_spent : Option ℕ → Bool
is_spent none = false
is_spent (some _) = true

-- The branch for a revoked row.
unfoldable pub late : Env → Token → Store → Outcome
late e t s =
    if in_grace e.now t.rotated_at
    then (if count_where (is_current e.now t.session_id) s.tokens == 0
        then refused "" none
        else elim (load_session_user t.user_id s) [
          | none ↦ refused "" none
          | some u ↦ passed u t.session_id
        ])
    else (if is_spent t.rotated_at then refused t.session_id (some t) else refused "" none)

abbrev pub spend : ℕ → Token → Token
spend now t = record t { revoked = true; rotated_at = some now }

-- The rows after `tx.Model(&rt).Updates`, which goes by primary key.
abbrev pub spent : Env → Token → Store → Store
spent e t s = record s { tokens = update_where (λ r. r.id == t.id) (spend e.now) s.tokens }

module _ (hash : String → String) where
  -- The row that takes over from `t`.
  abbrev pub successor : Env → Token → String → Store → Token
  successor e t raw s = record {
    id = s.next_id;
    user_id = t.user_id;
    token = hash raw;
    session_id = t.session_id;
    started_at = t.started_at;
    expires_at = idle_deadline e t.started_at;
    last_used_at = e.now;
    revoked = false;
    rotated_at = none;
  }

  unfoldable pub rotate : Env → Token → Account → Store → Outcome
  rotate e t u s = elim e.drawn [
    | none ↦ refused "" none
    | some raw ↦
        if e.update_ok
        then elim (create_token e (successor e t raw s) (spent e t s)) [
          | none ↦ refused "" none
          | some s' ↦ rotated u t.session_id raw s'
        ]
        else refused "" none
  ]

  -- The deadlines, the account, and the rotation.
  unfoldable pub spend_current : Env → Token → Store → Outcome
  spend_current e t s =
      if not (ltb e.now t.expires_at) || not (ltb e.now (t.started_at + e.max_age))
      then refused t.session_id none
      else elim (load_session_user t.user_id s) [
        | none ↦ refused t.session_id none
        | some u ↦ rotate e t u s
      ]

  unfoldable pub refresh_tx : Env → String → Store → Outcome
  refresh_tx e raw s = elim (find_token hash raw s) [
    | none ↦ refused "" none
    | some t ↦ if t.revoked then late e t s else spend_current e t s
  ]

-- After the transaction: `endSession`, then the audit entry for `reused`.
unfoldable pub end_session : String → Store → Store
end_session sid s = if sid =s "" then s else revoke_session sid s

unfoldable pub log_reuse : Option Token → Store → Store
log_reuse none s = s
log_reuse (some t) s = log_audit t.user_id "session_token_reuse" t.session_id s

abbrev pub answer : Env → Account → String → Option String → Response
answer e u sid cookie = if e.sign_ok then signed_in u sid cookie else server_error

unfoldable pub settle : Env → Store → Outcome → Store × Response
settle e s (refused ended reused) = (log_reuse reused (end_session ended s), session_gone)
settle e s (passed u sid) = (s, answer e u sid none)
settle e s (rotated u sid raw s') = (s', answer e u sid (some raw))

unfoldable pub refresh : (String → String) → Env → String → Store → Store × Response
refresh hash e raw s = if raw =s "" then (s, no_session) else settle e s (refresh_tx hash e raw s)
