-- ===== src/Session/Outcome.antt =====
-- What each way out of the refresh transaction shows: backend/handlers/session.go.
use commitkube.Base.{
  ◌+◌, ◌≡◌, ◌≢◌, ◌<◌, String, true, false, some, count_where, arith, Option-cases, Bool-cases, inl,
  inr,
}
use commitkube.Session.Store.{
  Token, Account, Store, Env, find_token, create_token, load_session_user,
}
use commitkube.Session.Refresh.{
  passed, rotated, late, is_current, in_grace, spent, successor, rotate, spend_current, refresh_tx,
}

module _ (hash : String → String) (e : Env) (raw : String) (s : Store) where
  -- A spent token was let through: moments ago, with a current row left in its session.
  pub record Passed (u : Account) (sid : String) (t : Token) : Type 0 where
    pub found : find_token hash raw s ≡ some t
    pub spent_before : t.revoked ≡ true
    pub grace : in_grace e.now t.rotated_at ≡ true
    pub current : count_where (is_current e.now t.session_id) s.tokens ≢ 0
    pub account : load_session_user t.user_id s ≡ some u
    pub session : t.session_id ≡ sid

  -- A current token was spent for its successor.
  pub record Rotated (u : Account) (sid next : String) (s' : Store) (t : Token) : Type 0 where
    pub found : find_token hash raw s ≡ some t
    pub unspent : t.revoked ≡ false
    pub idle : e.now < t.expires_at
    pub hard : e.now < t.started_at + e.max_age
    pub account : load_session_user t.user_id s ≡ some u
    pub session : t.session_id ≡ sid
    pub drawn : e.drawn ≡ some next
    pub created : create_token e (successor hash e t next s) (spent e t s) ≡ some s'

  passed-late :
      (u : Account) (sid : String) (t : Token)
      → find_token hash raw s ≡ some t
      → t.revoked ≡ true
      → late e t s ≡ passed u sid
      → Passed u sid t
  unfolding late
  passed-late u sid t found rev h = ground arith

  not-rotated-late :
      (u : Account) (sid next : String) (s' : Store) (t : Token)
      → late e t s ≢ rotated u sid next s'
  unfolding late
  not-rotated-late u sid next s' t h = ground arith

  not-passed-spend_current :
      (u : Account) (sid : String) (t : Token) → spend_current hash e t s ≢ passed u sid
  unfolding spend_current rotate
  not-passed-spend_current u sid t h = ground arith

  rotated-spend_current :
      (u : Account) (sid next : String) (s' : Store) (t : Token)
      → find_token hash raw s ≡ some t
      → t.revoked ≡ false
      → spend_current hash e t s ≡ rotated u sid next s'
      → Rotated u sid next s' t
  unfolding spend_current rotate
  rotated-spend_current u sid next s' t found rev h = ground arith

  pub passed_cases :
      (u : Account) (sid : String)
      → refresh_tx hash e raw s ≡ passed u sid
      → (t : Token) × Passed u sid t
  unfolding refresh_tx
  passed_cases u sid h = elim (Option-cases (find_token hash raw s)) [
    | inl f ↦ absurd (ground arith)
    | inr (t, f) ↦ elim (Bool-cases t.revoked) [
      | inl r ↦ (t, passed-late u sid t f r (ground arith))
      | inr r ↦ absurd (not-passed-spend_current u sid t (ground arith))
    ]
  ]

  pub rotated_cases :
      (u : Account) (sid next : String) (s' : Store)
      → refresh_tx hash e raw s ≡ rotated u sid next s'
      → (t : Token) × Rotated u sid next s' t
  unfolding refresh_tx
  rotated_cases u sid next s' h = elim (Option-cases (find_token hash raw s)) [
    | inl f ↦ absurd (ground arith)
    | inr (t, f) ↦ elim (Bool-cases t.revoked) [
      | inl r ↦ absurd (not-rotated-late u sid next s' t (ground arith))
      | inr r ↦ (t, rotated-spend_current u sid next s' t f r (ground arith))
    ]
  ]
