-- ===== src/Session/Rotation.antt =====
-- One live refresh token to a session, and replays: backend/handlers/session.go.
use commitkube.Base.{
  ℕ, zero, suc, ◌≡◌, ◌≢◌, ◌≤◌, refl, String, Bool, true, false, Option, some, ◌=s◌, if◌then◌else◌,
  count_where, arith, =s_self, count_where-ne-zero, Bool-cases, inl, inr,
}
use commitkube.Session.Store.{
  Token, Account, Store, Env, is_live, signed_in, find_token, load_session_user, may_hold_session,
}
use commitkube.Session.Refresh.{
  Outcome, refused, passed, rotated, spent, successor, is_current, refresh_tx, settle, end_session,
  refresh,
}
use commitkube.Session.Outcome.{Rotated, Passed, passed_cases, rotated_cases}
use commitkube.Session.Liveness.{
  live_rows, live_rows-spent-le, live_rows-spent-lt, live_rows-create, live_rows-end_session-le,
  tokens-log_reuse,
}

module _ (hash : String → String) where
  -- The successor takes the place of the row that was spent.
  live_rows-Rotated :
      (sid : String) (e : Env) (raw : String) (s : Store) (u : Account) (own next : String)
      (s' : Store) (t : Token)
      → Rotated hash e raw s u own next s' t
      → live_rows sid s' ≤ live_rows sid s
  live_rows-Rotated sid e raw s u own next s' t r = elim (Bool-cases (is_live sid t)) [
    | inl l ↦ omega (
      arith,
      live_rows-create hash sid e (successor hash e t next s) (spent e t s) r.created,
      live_rows-spent-lt hash sid raw e t s r.found l,
      one_at_most (is_live sid (successor hash e t next s)),
    )
    | inr l ↦ omega (
      arith,
      live_rows-create hash sid e (successor hash e t next s) (spent e t s) r.created,
      live_rows-spent-le sid e t s,
      not_live l,
    )
  ]
    where
      one_at_most : (b : Bool) → (if b then 1 else 0) ≤ suc zero
      one_at_most b = ground arith

      not_live :
          is_live sid t ≡ false → (if is_live sid (successor hash e t next s) then 1 else 0) ≡ zero
      not_live l = ground (arith, r.unspent)

  live_rows-settle-le :
      (sid : String) (e : Env) (raw : String) (s : Store) (o : Outcome)
      → refresh_tx hash e raw s ≡ o
      → live_rows sid (settle e s o).0 ≤ live_rows sid s
  unfolding settle
  live_rows-settle-le sid e raw s (refused ended reused) h =
      rw (tokens-log_reuse reused (end_session ended s)) (live_rows-end_session-le sid ended s)
  live_rows-settle-le sid e raw s (passed u own) h = omega arith
  live_rows-settle-le sid e raw s (rotated u own next s') h =
      let (t, r) = rotated_cases hash e raw s u own next s' h in
      live_rows-Rotated sid e raw s u own next s' t r

  -- A refresh never adds to the rows of a session that can still be spent, whatever its outcome.
  pub live_rows-refresh-le :
      (sid : String) (e : Env) (raw : String) (s : Store)
      → live_rows sid (refresh hash e raw s).0 ≤ live_rows sid s
  unfolding refresh
  live_rows-refresh-le sid e raw s =
      ground (arith, live_rows-settle-le sid e raw s (refresh_tx hash e raw s) refl)

  -- What an access token rests on.
  pub record Vouched (e : Env) (raw : String) (s : Store) (u : Account) (sid : String) (t : Token)
      : Type 0 where
    pub found : find_token hash raw s ≡ some t
    pub session : t.session_id ≡ sid
    pub account : load_session_user t.user_id s ≡ some u
    pub standing : may_hold_session u ≡ true
    pub current : count_where (is_current e.now sid) s.tokens ≢ 0

  standing-load_session_user :
      (uid : ℕ) (s : Store) {u : Account}
      → load_session_user uid s ≡ some u
      → may_hold_session u ≡ true
  unfolding load_session_user
  standing-load_session_user uid s h = ground arith

  Vouched-Passed :
      (e : Env) (raw : String) (s : Store) (u : Account) (sid : String) (t : Token)
      → Passed hash e raw s u sid t
      → Vouched e raw s u sid t
  Vouched-Passed e raw s u sid t p = record {
    found = p.found;
    session = p.session;
    account = p.account;
    standing = standing-load_session_user t.user_id s p.account;
    current = rw p.session at p.current;
  }

  Vouched-Rotated :
      (e : Env) (raw : String) (s : Store) (u : Account) (sid next : String) (s' : Store)
      (t : Token)
      → Rotated hash e raw s u sid next s' t
      → Vouched e raw s u sid t
  Vouched-Rotated e raw s u sid next s' t r = record {
    found = r.found;
    session = r.session;
    account = r.account;
    standing = standing-load_session_user t.user_id s r.account;
    current =
        count_where-ne-zero (is_current e.now sid) (λ x. x.token =s hash raw) s.tokens t r.found
          (ground (arith, r.unspent, r.idle, r.session, =s_self sid));
  }

  Vouched-settle :
      (e : Env) (raw : String) (s : Store) (u : Account) (sid : String) (cookie : Option String)
      (o : Outcome)
      → refresh_tx hash e raw s ≡ o
      → (settle e s o).1 ≡ signed_in u sid cookie
      → (t : Token) × Vouched e raw s u sid t
  unfolding settle
  Vouched-settle e raw s u sid cookie (refused ended reused) h k = absurd (ground arith)
  Vouched-settle e raw s u sid cookie (passed v own) h k =
      let (t, p) = passed_cases hash e raw s u sid (ground arith) in
      (t, Vouched-Passed e raw s u sid t p)
  Vouched-settle e raw s u sid cookie (rotated v own next s') h k =
      let (t, p) = rotated_cases hash e raw s u sid next s' (ground arith) in
      (t, Vouched-Rotated e raw s u sid next s' t p)

  -- A refresh that signs someone in found a row of that session for the presented token, a row of
  -- the session that is not revoked and not past its deadline, and an account in good standing.
  pub refresh-Vouched :
      (e : Env) (raw : String) (s : Store) (u : Account) (sid : String) (cookie : Option String)
      → (refresh hash e raw s).1 ≡ signed_in u sid cookie
      → (t : Token) × Vouched e raw s u sid t
  unfolding refresh
  refresh-Vouched e raw s u sid cookie h = elim (Bool-cases (raw =s "")) [
    | inl b ↦ absurd (ground arith)
    | inr b ↦ Vouched-settle e raw s u sid cookie (refresh_tx hash e raw s) refl (rw b at h)
  ]
