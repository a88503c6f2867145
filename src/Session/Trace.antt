-- ===== src/Session/Trace.antt =====
-- Every run of the session operations of backend/handlers/session.go, and what holds along it.
use commitkube.Base.{
  none, ℕ, ◌+◌, ◌-◌, ◌≡◌, ◌≢◌, ◌≤◌, ◌<◌, refl, String, Bool, true, false, not, ◌&&◌, Option, some,
  List, [], ◌∷◌, ◌==◌, ◌=s◌, if◌then◌else◌, update_where, count_where, All, All-append,
  All-update_where, All-delete_where, arith, eq_iff, count_where-delete_where-le,
  count_where-update_where-le, Bool-cases, inl, inr, ltb,
}
use native.Mathlib.Nat.{le_trans}
use commitkube.Session.Store.{
  Token, Account, Store, Env, is_live, in_session, revoke, idle_deadline, first_token, create_token,
  revoke_session, revoke_user_sessions, prune, prune_after, sign_in, find_token, logout, no_session,
  Response, signed_in, issued, issue_tokens, signed_out, end_row_session,
}
use commitkube.Session.Refresh.{
  Outcome, refused, passed, rotated, spent, spend, successor, is_current, refresh_tx, settle,
  end_session, refresh,
}
use commitkube.Session.Outcome.{rotated_cases}
use commitkube.Session.Liveness.{live_rows, tokens-log_reuse, tokens-create_token, live_rows-create}
use commitkube.Session.Rotation.{live_rows-refresh-le, refresh-Vouched}

module _ (hash : String → String) (limit : ℕ) where
  -- One request or one run of the pruning job. A new session id is one that no row has; the
  -- configured limit on a session's age does not change.
  pub data Step : Store → Store → Type 0 where
    signing_in :
        {s : Store} (e : Env) (u : Account)
        → e.max_age ≡ limit
        → count_where (in_session e.new_session_id) s.tokens ≡ 0
        → Step s (sign_in hash e u s).0
    refreshing :
        {s : Store} (e : Env) (raw : String) → e.max_age ≡ limit → Step s (refresh hash e raw s).0
    signing_out : {s : Store} (raw : String) → Step s (logout hash raw s).0
    revoking : {s : Store} (uid : ℕ) → Step s (revoke_user_sessions uid s)
    pruning : {s : Store} (e : Env) → Step s (prune e s)

  pub data Reach (s : Store) : Store → Type 0 where
    here : Reach s s
    next : {t u : Store} → Reach s t → Step t u → Reach s u

  abbrev pub Capped : Token → Type 0
  Capped t = t.expires_at ≤ t.started_at + limit

  -- A session has one live row at most, and no row outlasts the limit counted from the sign-in.
  pub record IsSound (s : Store) : Type 0 where
    pub single : (sid : String) → live_rows sid s ≤ 1
    pub capped : All Capped s.tokens

  idle_deadline-le :
      (e : Env) (started : ℕ) → e.max_age ≡ limit → idle_deadline e started ≤ started + limit
  unfolding idle_deadline
  idle_deadline-le e started m = ground arith

  count-live-le :
      (sid : String) (xs : List Token)
      → count_where (is_live sid) xs ≤ count_where (in_session sid) xs
  unfolding count_where
  count-live-le sid [] = omega arith
  count-live-le sid (x ∷ xs) = ground (arith, count-live-le sid xs)

  create_token-Capped :
      (e : Env) (t : Token) (s : Store) {s' : Store}
      → create_token e t s ≡ some s'
      → Capped t
      → All Capped s.tokens
      → All Capped s'.tokens
  create_token-Capped e t s h c all =
      rw (tokens-create_token e t s h) (All-append Capped s.tokens (t ∷ []) all (c, tt))

  sign_in-IsSound :
      (e : Env) (u : Account) (s : Store)
      → e.max_age ≡ limit
      → count_where (in_session e.new_session_id) s.tokens ≡ 0
      → IsSound s
      → IsSound (sign_in hash e u s).0
  unfolding sign_in
  sign_in-IsSound e u s m new i = at_drawn e.drawn
    where
      added :
          (raw : String) (s' : Store)
          → create_token e (first_token hash e u raw s) s ≡ some s'
          → IsSound s'
      added raw s' c = record {
        single = λ sid. ground (
          arith,
          live_rows-create hash sid e (first_token hash e u raw s) s c,
          i.single sid,
          count-live-le sid s.tokens,
          eq_iff e.new_session_id sid,
        );
        capped = create_token-Capped e _ s c (idle_deadline-le e e.now m) i.capped;
      }

      at_store :
          (raw : String) (o : Option Store)
          → create_token e (first_token hash e u raw s) s ≡ o
          → IsSound (issued e u raw s o).0
      at_store raw none c = i
      at_store raw (some s') c = added raw s' c

      at_drawn : (d : Option String) → IsSound (issue_tokens hash e u d s).0
      at_drawn none = i
      at_drawn (some raw) = at_store raw (create_token e (first_token hash e u raw s) s) refl

  settle-Capped :
      (e : Env) (raw : String) (s : Store) (o : Outcome)
      → e.max_age ≡ limit
      → refresh_tx hash e raw s ≡ o
      → All Capped s.tokens
      → All Capped (settle e s o).0.tokens
  unfolding settle end_session revoke_session
  settle-Capped e raw s (refused ended reused) m h all =
      rw (tokens-log_reuse reused (end_session ended s)) (ended_capped (ended =s ""))
    where
      ended_capped :
          (b : Bool)
          → All Capped
              (if b
                then s
                else record s { tokens = update_where (in_session ended) revoke s.tokens }).tokens
      ended_capped true = all
      ended_capped false = All-update_where Capped (in_session ended) revoke s.tokens (λ x c. c) all
  settle-Capped e raw s (passed u sid) m h all = all
  settle-Capped e raw s (rotated u sid fresh s') m h all =
      let (t, r) = rotated_cases hash e raw s u sid fresh s' h in
      create_token-Capped e (successor hash e t fresh s) (spent e t s) r.created
        (idle_deadline-le e t.started_at m)
        (All-update_where Capped (λ x. x.id == t.id) (spend e.now) s.tokens (λ x c. c) all)

  refresh-IsSound :
      (e : Env) (raw : String) (s : Store)
      → e.max_age ≡ limit
      → IsSound s
      → IsSound (refresh hash e raw s).0
  refresh-IsSound e raw s m i = record {
    single = λ sid. omega (arith, live_rows-refresh-le hash sid e raw s, i.single sid);
    capped = unfold refresh in at_head (raw =s "");
  }
    where
      at_head :
          (b : Bool)
          → All Capped
              (if b then (s, no_session) else settle e s (refresh_tx hash e raw s)).0.tokens
      at_head true = i.capped
      at_head false = settle-Capped e raw s (refresh_tx hash e raw s) m refl i.capped

  revoke-IsSound :
      (q : Token → Bool) (s s' : Store)
      → s'.tokens ≡ update_where q revoke s.tokens
      → IsSound s
      → IsSound s'
  revoke-IsSound q s s' rows i = record {
    single = λ sid. rw rows (
        le_trans (count_where-update_where-le (is_live sid) q revoke s.tokens (λ x h. ground arith))
          (i.single sid));
    capped = rw rows (All-update_where Capped q revoke s.tokens (λ x c. c) i.capped);
  }

  end_row_session-IsSound :
      (r : Option Token) (s : Store) → IsSound s → IsSound (end_row_session r s)
  unfolding end_row_session
  end_row_session-IsSound none s i = i
  end_row_session-IsSound (some t) s i = revoke-IsSound (in_session t.session_id) s _ refl i

  logout-IsSound : (raw : String) (s : Store) → IsSound s → IsSound (logout hash raw s).0
  unfolding logout
  logout-IsSound raw s i = at_head (raw =s "")
    where
      at_head :
          (b : Bool)
          → IsSound
              (if◌then◌else◌ {A = Store × Response} b
                (s, signed_out)
                (end_row_session (find_token hash raw s) s, signed_out)).0
      at_head true = i
      at_head false = end_row_session-IsSound (find_token hash raw s) s i

  prune-IsSound : (e : Env) (s : Store) → IsSound s → IsSound (prune e s)
  unfolding prune
  prune-IsSound e s i = record {
    single = λ sid.
        le_trans
          (count_where-delete_where-le (is_live sid) (λ t. ltb t.expires_at (e.now - prune_after))
            s.tokens)
          (i.single sid);
    capped = All-delete_where Capped _ s.tokens i.capped;
  }

  Step-IsSound : {s t : Store} → Step s t → IsSound s → IsSound t
  unfolding revoke_user_sessions
  Step-IsSound {s} (signing_in e u m new) i = sign_in-IsSound e u s m new i
  Step-IsSound {s} (refreshing e raw m) i = refresh-IsSound e raw s m i
  Step-IsSound {s} (signing_out raw) i = logout-IsSound raw s i
  Step-IsSound {s} (revoking uid) i =
      revoke-IsSound (λ t. t.user_id == uid && not t.revoked) s _ refl i
  Step-IsSound {s} (pruning e) i = prune-IsSound e s i

  -- From a sound table, whatever the order of sign-ins, refreshes, sign-outs, revocations and
  -- prunings, a session keeps at most one row that can be spent, and no row outlasts the limit
  -- counted from its sign-in.
  pub Reach-IsSound : {s t : Store} → IsSound s → Reach s t → IsSound t
  Reach-IsSound i here = i
  Reach-IsSound i (next r st) = Step-IsSound st (Reach-IsSound i r)

  current-Capped :
      (now : ℕ) (sid : String) (xs : List Token)
      → All Capped xs
      → count_where (is_current now sid) xs ≢ 0
      → (t : Token) × (t.session_id ≡ sid) × (now < t.started_at + limit)
  unfolding count_where
  current-Capped now sid [] all c = absurd (c refl)
  current-Capped now sid (x ∷ xs) all c = elim (Bool-cases (is_current now sid x)) [
    | inl b ↦ (x, ground (arith, eq_iff x.session_id sid), ground (arith, all.0))
    | inr b ↦ current-Capped now sid xs all.1 (λ z. c (rw (b, z)))
  ]

  -- From any table reached from a sound one, a refresh that signs someone in does so before the
  -- hard limit of a row of that session.
  pub refresh-hard_limit :
      {s t : Store} (e : Env) (raw : String) (u : Account) (sid : String) (cookie : Option String)
      → IsSound s
      → Reach s t
      → (refresh hash e raw t).1 ≡ signed_in u sid cookie
      → (r : Token) × (r.session_id ≡ sid) × (e.now < r.started_at + limit)
  refresh-hard_limit {t = t} e raw u sid cookie i reach h =
      let (_, v) = refresh-Vouched hash e raw t u sid cookie h in
      current-Capped e.now sid t.tokens (Reach-IsSound i reach).capped v.current
