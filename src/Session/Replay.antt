-- ===== src/Session/Replay.antt =====
-- How a session ends: replays, sign-outs and revocations in backend/handlers/session.go.
use commitkube.Base.{
  ℕ, ◌-◌, ◌≡◌, ◌≢◌, ◌≤◌, ◌<◌, refl, String, Bool, true, none, some, List, [], ◌∷◌, ◌==◌, ◌=s◌,
  find_first, update_where, count_where, All, arith, eq_iff, =s_self, =s_ne, count_where-ne-zero,
  Option-cases, Bool-cases, inl, inr,
}
use mathlib.Core.Option.{some-injective}
use mathlib.Core.Bool.{not, ◌&&◌}
use commitkube.Session.Store.{
  Token, Store, Env, reuse_grace, is_live, in_session, revoke, revoke_session, revoke_user_sessions,
  log_audit, session_gone, find_token, logout,
}
use commitkube.Session.Refresh.{
  late, in_grace, is_current, refresh_tx, settle, end_session, log_reuse, refresh,
}
use commitkube.Session.Liveness.{live_rows, live_rows-revoke_session}

-- A row that is current is live.
count-current-le :
    (now : ℕ) (sid : String) (xs : List Token)
    → count_where (is_current now sid) xs ≤ count_where (is_live sid) xs
unfolding count_where
count-current-le now sid [] = omega arith
count-current-le now sid (x ∷ xs) = ground (arith, count-current-le now sid xs)

module _ (hash : String → String) where
  -- The audit entry and the store that a detected replay leaves.
  abbrev pub replayed : Token → Store → Store
  replayed t s =
      log_audit t.user_id "session_token_reuse" t.session_id (revoke_session t.session_id s)

  -- A token spent longer ago than the grace period, presented again, is refused; every row of its
  -- session is revoked and the replay is on record.
  pub refresh-replay :
      (e : Env) (raw : String) (s : Store) (t : Token) (at : ℕ)
      → raw ≢ ""
      → t.session_id ≢ ""
      → find_token hash raw s ≡ some t
      → t.revoked ≡ true
      → t.rotated_at ≡ some at
      → reuse_grace < e.now - at
      → (refresh hash e raw s ≡ (replayed t s, session_gone))
        × (live_rows t.session_id (replayed t s) ≡ 0)
  unfolding refresh refresh_tx late in_grace settle end_session log_reuse
  refresh-replay e raw s t at r n found rev rot far = (
    ground (arith, eq_iff raw "", eq_iff t.session_id ""),
    unfold log_audit in live_rows-revoke_session t.session_id s,
  )

  -- Once no row of its session can be spent, a token is refused.
  pub refresh-dead :
      (e : Env) (raw : String) (s : Store) (t : Token)
      → raw ≢ ""
      → find_token hash raw s ≡ some t
      → live_rows t.session_id s ≡ 0
      → (refresh hash e raw s).1 ≡ session_gone
  unfolding refresh refresh_tx late settle
  refresh-dead e raw s t r found dead = elim (Bool-cases t.revoked) [
    | inl rev ↦ ground (arith, eq_iff raw "", count-current-le e.now t.session_id s.tokens)
    | inr live ↦ absurd (
        count_where-ne-zero (is_live t.session_id) (λ x. x.token =s hash raw) s.tokens t found
          (ground (arith, =s_self t.session_id)) dead)
  ]

  refresh-unknown :
      (e : Env) (raw : String) (s : Store)
      → raw ≢ ""
      → find_token hash raw s ≡ none
      → (refresh hash e raw s).1 ≡ session_gone
  unfolding refresh refresh_tx settle
  refresh-unknown e raw s r found = ground (arith, eq_iff raw "")

  find_token-revoke :
      (q : Token → Bool) (h : String) (xs : List Token) (t' : Token)
      → find_first (λ (x : Token). x.token =s h) (update_where q revoke xs) ≡ some t'
      → (t : Token) × (find_first (λ (x : Token). x.token =s h) xs ≡ some t)
        × (t'.session_id ≡ t.session_id)
        × (t'.user_id ≡ t.user_id)
  unfolding find_first update_where
  find_token-revoke q h [] t' f = absurd (ground arith)
  find_token-revoke q h (x ∷ xs) t' f = elim (Bool-cases (x.token =s h)) [
    | inl e ↦ (x, ground arith, ground arith, ground arith)
    | inr e ↦
        let (t, g, same, owner) = find_token-revoke q h xs t' (ground arith) in
        (t, ground arith, same, owner)
  ]

  -- The presented token's session has no live row in `s'`, which only revoked rows of `s`.
  refresh-dead_after :
      (e : Env) (raw : String) (s s' : Store) (q : Token → Bool) (t : Token)
      → raw ≢ ""
      → find_token hash raw s ≡ some t
      → s'.tokens ≡ update_where q revoke s.tokens
      → live_rows t.session_id s' ≡ 0
      → (refresh hash e raw s').1 ≡ session_gone
  refresh-dead_after e raw s s' q t r found rows dead =
      elim (Option-cases (find_token hash raw s')) [
        | inl f ↦ refresh-unknown e raw s' r f
        | inr (t', f) ↦
            let (t₀, g, same, owner) = find_token-revoke q (hash raw) s.tokens t' (rw rows at f) in
            let one : t₀ ≡ t = some-injective t₀ t (cc) in
            refresh-dead e raw s' t' r f (rw (same, one) dead)
      ]

  -- After a sign-out the same cookie is refused, whenever it is presented again.
  pub refresh-logout :
      (e : Env) (raw : String) (s : Store)
      → raw ≢ ""
      → (refresh hash e raw (logout hash raw s).0).1 ≡ session_gone
  unfolding logout log_audit revoke_session
  refresh-logout e raw s r = elim (Option-cases (find_token hash raw s)) [
    | inl f ↦ rw (=s_ne raw "" r) (rw f (refresh-unknown e raw s r f))
    | inr (t, f) ↦ rw (=s_ne raw "" r) (
        rw f (
          refresh-dead_after e raw s _ (in_session t.session_id) t r f refl
            (live_rows-revoke_session t.session_id s)))
  ]

  -- Every row of the session belongs to the account.
  abbrev pub OwnedBy : ℕ → String → List Token → Type 0
  OwnedBy uid sid = All (λ t. t.session_id ≡ sid → t.user_id ≡ uid)

  count-revoke_user :
      (uid : ℕ) (sid : String) (xs : List Token)
      → OwnedBy uid sid xs
      → count_where (is_live sid) (update_where (λ t. t.user_id == uid && not t.revoked) revoke xs)
        ≡ 0
  unfolding count_where update_where
  count-revoke_user uid sid [] owned = refl
  count-revoke_user uid sid (x ∷ xs) (own, owned) =
      ground (arith, own, eq_iff x.session_id sid, count-revoke_user uid sid xs owned)

  -- After the sessions of an account are revoked, a token of the account is refused, where every
  -- row of its session belongs to the account.
  pub refresh-revoke_user_sessions :
      (e : Env) (raw : String) (s : Store) (t : Token)
      → raw ≢ ""
      → find_token hash raw s ≡ some t
      → OwnedBy t.user_id t.session_id s.tokens
      → (refresh hash e raw (revoke_user_sessions t.user_id s)).1 ≡ session_gone
  unfolding revoke_user_sessions
  refresh-revoke_user_sessions e raw s t r found owned =
      refresh-dead_after e raw s _ (λ x. x.user_id == t.user_id && not x.revoked) t r found refl
        (count-revoke_user t.user_id t.session_id s.tokens owned)
