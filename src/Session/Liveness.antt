-- ===== src/Session/Liveness.antt =====
-- Which rows can still be spent: backend/handlers/session.go.
use commitkube.Base.{
  ◌++◌, ℕ, ◌+◌, ◌≡◌, ◌≤◌, refl, String, true, false, Option, none, some, [], ◌∷◌, ◌==◌, ◌=s◌,
  if◌then◌else◌, count_where, count_where-append, count_where-update_where-le,
  count_where-update_where-lt, count_where-update_where-zero, arith,
}
use commitkube.Session.Store.{
  Token, Store, Env, in_session, is_live, revoke, create_token, revoke_session, log_audit,
  find_token,
}
use commitkube.Session.Refresh.{spend, spent, end_session, log_reuse}

-- The number of rows of a session that a refresh may still spend.
abbrev pub live_rows : String → Store → ℕ
live_rows sid s = count_where (is_live sid) s.tokens

revoke-not_live : (sid : String) (t : Token) → is_live sid (revoke t) ≡ false
revoke-not_live sid t = ground arith

spend-not_live : (sid : String) (now : ℕ) (t : Token) → is_live sid (spend now t) ≡ false
spend-not_live sid now t = ground arith

pub live_rows-revoke_session-le :
    (sid ended : String) (s : Store) → live_rows sid (revoke_session ended s) ≤ live_rows sid s
unfolding revoke_session
live_rows-revoke_session-le sid ended s =
    count_where-update_where-le (is_live sid) (in_session ended) revoke s.tokens
      (λ t h. cc (revoke-not_live sid t))

pub live_rows-revoke_session : (sid : String) (s : Store) → live_rows sid (revoke_session sid s) ≡ 0
unfolding revoke_session
live_rows-revoke_session sid s =
    count_where-update_where-zero (is_live sid) (in_session sid) revoke s.tokens
      (λ t h. ground arith) (revoke-not_live sid)

pub live_rows-end_session-le :
    (sid ended : String) (s : Store) → live_rows sid (end_session ended s) ≤ live_rows sid s
unfolding end_session
live_rows-end_session-le sid ended s = ground (arith, live_rows-revoke_session-le sid ended s)

pub tokens-log_reuse : (r : Option Token) (s : Store) → (log_reuse r s).tokens ≡ s.tokens
unfolding log_reuse log_audit
tokens-log_reuse none s = refl
tokens-log_reuse (some t) s = refl

pub live_rows-spent-le :
    (sid : String) (e : Env) (t : Token) (s : Store) → live_rows sid (spent e t s) ≤ live_rows sid s
live_rows-spent-le sid e t s =
    count_where-update_where-le (is_live sid) (λ r. r.id == t.id) (spend e.now) s.tokens
      (λ r h. cc (spend-not_live sid e.now r))

pub tokens-create_token :
    (e : Env) (t : Token) (s : Store) {s' : Store}
    → create_token e t s ≡ some s'
    → s'.tokens ≡ s.tokens ++ t ∷ []
unfolding create_token
tokens-create_token e t s h = ground arith

module _ (hash : String → String) where
  pub live_rows-spent-lt :
      (sid raw : String) (e : Env) (t : Token) (s : Store)
      → find_token hash raw s ≡ some t
      → is_live sid t ≡ true
      → live_rows sid (spent e t s) + 1 ≤ live_rows sid s
  live_rows-spent-lt sid raw e t s found live =
      count_where-update_where-lt (is_live sid) (λ r. r.id == t.id) (λ r. r.token =s hash raw)
        (spend e.now) s.tokens t (spend-not_live sid e.now) found live (ground arith)

  pub live_rows-create :
      (sid : String) (e : Env) (t : Token) (s : Store) {s' : Store}
      → create_token e t s ≡ some s'
      → live_rows sid s' ≡ live_rows sid s + (if is_live sid t then 1 else 0)
  unfolding create_token count_where
  live_rows-create sid e t s h = ground (arith, count_where-append (is_live sid) s.tokens (t ∷ []))
