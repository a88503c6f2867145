-- ===== src/Examples/Session.antt =====
-- A sign-in, a refresh and a replay of backend/handlers/session.go, run on a small table.
use commitkube.Base.{
  ℕ, ◌+◌, ◌≡◌, ◌≢◌, refl, String, true, false, some, none, [], ◌∷◌, arith, eq_iff, find_first,
  update_where, count_where, any_where,
}
use commitkube.Session.Store.{
  Token, Account, Store, Env, signed_in, session_gone, sign_in, create_token, idle_deadline,
  load_session_user, may_hold_session, revoke_user_sessions,
}
use commitkube.Session.Refresh.{
  refresh, refresh_tx, late, spend_current, rotate, settle, end_session, log_reuse, in_grace,
}
use commitkube.Session.Liveness.{live_rows}
use commitkube.Session.Rotation.{Vouched, refresh-Vouched}
use commitkube.Session.Replay.{replayed, refresh-replay, refresh-revoke_user_sessions}
use commitkube.Session.Trace.{Reach, here, next, signing_in, refreshing, IsSound, Reach-IsSound}

abbrev plain : String → String
plain raw = raw

abbrev ana : Account
ana = record {
  id = 7;
  role = "user";
  is_active = true;
  force_password_change = false;
  mfa_enabled = true;
}

abbrev at : ℕ → String → Env
at now raw = record {
  now = now;
  idle = 1000;
  max_age = 5000;
  drawn = some raw;
  new_session_id = "s1";
  update_ok = true;
  create_ok = true;
  sign_ok = true;
}

abbrev nobody : Store
nobody = record { tokens = []; next_id = 1; accounts = ana ∷ []; audit = [] }

abbrev row : ℕ → String → ℕ → Token
row i raw used = record {
  id = i;
  user_id = 7;
  token = raw;
  session_id = "s1";
  started_at = 100;
  expires_at = used + 1000;
  last_used_at = used;
  revoked = false;
  rotated_at = none;
}

abbrev spent_row : Token
spent_row = record (row 1 "t1" 100) { revoked = true; rotated_at = some 600 }

abbrev signed : Store
signed = record nobody { tokens = row 1 "t1" 100 ∷ []; next_id = 2 }

abbrev refreshed : Store
refreshed = record nobody { tokens = spent_row ∷ row 2 "t2" 600 ∷ []; next_id = 3 }

signs_in : sign_in plain (at 100 "t1") ana nobody ≡ (signed, signed_in ana "s1" (some "t1"))
unfolding sign_in create_token any_where idle_deadline
signs_in = refl

refreshes : refresh plain (at 600 "t2") "t1" signed ≡ (refreshed, signed_in ana "s1" (some "t2"))
unfolding refresh refresh_tx spend_current rotate settle create_token any_where idle_deadline
    find_first update_where load_session_user may_hold_session
refreshes = refl

-- Late by less than the grace period: let through without a new cookie.
races : refresh plain (at 700 "t3") "t1" refreshed ≡ (refreshed, signed_in ana "s1" none)
unfolding refresh refresh_tx late settle in_grace find_first count_where load_session_user
    may_hold_session
races = refl

-- A write that fails rolls back.
rolls_back :
    refresh plain (record (at 600 "t2") { create_ok = false }) "t1" signed ≡ (signed, session_gone)
unfolding refresh refresh_tx spend_current rotate settle end_session log_reuse create_token
    find_first load_session_user may_hold_session
rolls_back = refl

refresh-Vouched_example : (t : Token) × Vouched plain (at 600 "t2") "t1" signed ana "s1" t
unfolding refresh refresh_tx spend_current rotate settle create_token any_where idle_deadline
    find_first update_where load_session_user may_hold_session
refresh-Vouched_example = refresh-Vouched plain (at 600 "t2") "t1" signed ana "s1" (some "t2") refl

a_not_empty : ◌≢◌ {A = String} "t1" ""
a_not_empty = ground (arith, eq_iff "t1" "")

s_not_empty : ◌≢◌ {A = String} "s1" ""
s_not_empty = ground (arith, eq_iff "s1" "")

refresh-replay_example :
    (refresh plain (at 40000000000 "t3") "t1" refreshed
      ≡ (replayed plain spent_row refreshed, session_gone))
    × (live_rows "s1" (replayed plain spent_row refreshed) ≡ 0)
unfolding find_first
refresh-replay_example =
    refresh-replay plain (at 40000000000 "t3") "t1" refreshed spent_row 600 a_not_empty s_not_empty
      refl refl refl (omega arith)

refresh-revoke_user_sessions_example :
    (refresh plain (at 600 "t2") "t1" (revoke_user_sessions 7 signed)).1 ≡ session_gone
unfolding find_first
refresh-revoke_user_sessions_example =
    refresh-revoke_user_sessions plain (at 600 "t2") "t1" signed (row 1 "t1" 100) a_not_empty refl
      ((λ _. refl), tt)

nobody-IsSound : IsSound plain 5000 nobody
unfolding count_where
nobody-IsSound = record { single = λ sid. omega arith; capped = tt }

abbrev history :
    Reach plain 5000 nobody
      (refresh plain (at 600 "t2") "t1" (sign_in plain (at 100 "t1") ana nobody).0).0
unfolding count_where
history =
    next (next here (signing_in (at 100 "t1") ana refl refl)) (refreshing (at 600 "t2") "t1" refl)

Reach-IsSound_example :
    IsSound plain 5000
      (refresh plain (at 600 "t2") "t1" (sign_in plain (at 100 "t1") ana nobody).0).0
unfolding count_where
Reach-IsSound_example = Reach-IsSound plain 5000 nobody-IsSound history

abbrev first_step : Reach plain 5000 nobody (sign_in plain (at 100 "t1") ana nobody).0
unfolding count_where
first_step = next here (signing_in (at 100 "t1") ana refl refl)
