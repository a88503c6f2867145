-- ===== src/Vault/Replay.antt =====
-- A code is good for one use: backend/handlers/vault_mfa.go.
use Prim.Native.String.{len}
use commitkube.Base.{
  ◌-◌, ap₂, sym, ◌∙◌, ℕ, ◌+◌, ◌/◌, ◌≡◌, ◌≢◌, refl, sym, subst, ◌∙◌, String, Bool, true, false, not,
  ◌||◌, Option, none, some, List, [], ◌∷◌, leb, ◌==◌, ◌=s◌, if◌then◌else◌, update_where,
  count_where, arith, count_where-update_where-found, count_where-update_where-zero, clean,
}
use commitkube.Tokens.{second}
use commitkube.Vault.Factor.{
  max_failures, Factor, Table, Env, Verdict, accepted, locked, already_used, wrong, log,
  update_factor, locks, counts, fail_vault_code, is_fresh, spends, spend_step, settle_step, steps,
  find_step, check_vault_code, is_locked, period,
}

-- No row of that id can still take the window.
abbrev pub Spent : ℕ → ℕ → Table → Type 0
Spent i step v = count_where (is_fresh i step) v.factors ≡ 0

Spent-update_factor :
    (e : Env) (i j step : ℕ) (change : Factor → Factor) (v : Table)
    → ((r : Factor) → is_fresh i step (change r) ≡ is_fresh i step r)
    → Spent i step v
    → Spent i step (update_factor e j change v)
unfolding update_factor
Spent-update_factor e i j step change v keep h = ground (
  arith,
  h,
  count_where-update_where-found (is_fresh i step) (λ (r : Factor). r.id == j) change v.factors
      (λ r q p. sym (keep r) ∙ p),
)

Spent-fail_vault_code :
    (e : Env) (f : Factor) (i step : ℕ) (v : Table)
    → Spent i step v
    → Spent i step (fail_vault_code e f v).1
unfolding fail_vault_code log
Spent-fail_vault_code e f i step v h = at_head (leb max_failures (f.failures + 1))
  where
    at_head :
        (b : Bool)
        → Spent i step
            (if◌then◌else◌ {A = Verdict × Table} b
              (wrong, update_factor e f.id (locks e.now) (log f.user_id "vault_mfa_lockout" v))
              (wrong, update_factor e f.id (counts (f.failures + 1)) v)).1
    at_head true =
        Spent-update_factor e i f.id step (locks e.now) (log f.user_id "vault_mfa_lockout" v)
          (λ r. refl) h
    at_head false = Spent-update_factor e i f.id step (counts (f.failures + 1)) v (λ r. refl) h

-- A window that is spent stays spent, whichever window is taken next.
Spent-spends :
    (i j step taken : ℕ) (fs : List Factor)
    → count_where (is_fresh i step) fs ≡ 0
    → count_where (is_fresh i step) (update_where (is_fresh j taken) (spends taken) fs) ≡ 0
Spent-spends i j step taken fs h = ground (
  arith,
  count_where-update_where-found (is_fresh i step) (is_fresh j taken) (spends taken) fs
      (λ r q p. ground arith),
)

-- Taking a window spends it.
spends-Spent :
    (i step : ℕ) (fs : List Factor)
    → count_where (is_fresh i step) (update_where (is_fresh i step) (spends step) fs) ≡ 0
spends-Spent i step fs =
    count_where-update_where-zero (is_fresh i step) (is_fresh i step) (spends step) fs (λ r h. h)
      (λ r. ground arith)

Spent-settle_step :
    (e : Env) (f : Factor) (i step : ℕ) (o : Option ℕ) (v : Table)
    → Spent i step v
    → Spent i step (settle_step e f o v).1
unfolding settle_step spend_step
Spent-settle_step e f i step none v h = Spent-fail_vault_code e f i step v h
Spent-settle_step e f i step (some taken) v h =
    at_head (leb taken f.last_step)
      (not e.update_ok || count_where (is_fresh f.id taken) v.factors == 0)
  where
    at_head :
        (b c : Bool)
        → Spent i step
            (if◌then◌else◌ {A = Verdict × Table} b
              (already_used, v)
              (if c then (already_used, v) else (
                accepted,
                record v { factors = update_where (is_fresh f.id taken) (spends taken) v.factors },
              ))).1
    at_head true c = h
    at_head false true = h
    at_head false false = Spent-spends i f.id step taken v.factors h

module _ (decrypt : String → String) (totp : String → ℕ → Option String) where
  Spent-check_vault_code :
      (e : Env) (f : Factor) (i step : ℕ) (code : String) (v : Table)
      → Spent i step v
      → Spent i step (check_vault_code decrypt totp e f code v).1
  unfolding check_vault_code
  Spent-check_vault_code e f i step code v h =
      at_head (is_locked e.now f.locked_until)
        (not (len (clean code) == 6) || decrypt f.secret_enc =s "")
    where
      window : Option ℕ
      window = find_step decrypt totp (decrypt f.secret_enc) (clean code) (steps e.now)

      at_head :
          (b c : Bool)
          → Spent i step
              (if◌then◌else◌ {A = Verdict × Table} b
                (locked, v)
                (if c then fail_vault_code e f v else settle_step e f window v)).1
      at_head true c = h
      at_head false true = Spent-fail_vault_code e f i step v h
      at_head false false = Spent-settle_step e f i step window v h

  -- The window that a code is found in.
  abbrev pub window_of : Env → Factor → String → Option ℕ
  window_of e f code = find_step decrypt totp (decrypt f.secret_enc) (clean code) (steps e.now)

  fail-not-accepted : (e : Env) (f : Factor) (v : Table) → (fail_vault_code e f v).0 ≡ wrong
  unfolding fail_vault_code
  fail-not-accepted e f v = ground arith

  accepted-settle_step :
      (e : Env) (f : Factor) (o : Option ℕ) (v : Table)
      → (settle_step e f o v).0 ≡ accepted
      → (step : ℕ) × ((o ≡ some step) × Spent f.id step (settle_step e f o v).1)
  unfolding settle_step spend_step
  accepted-settle_step e f none v h = absurd (ground (arith, fail-not-accepted e f v))
  accepted-settle_step e f (some step) v h =
      (step, (refl, ground (arith, spends-Spent f.id step v.factors)))

  accepted-check_vault_code :
      (e : Env) (f : Factor) (code : String) (v : Table)
      → (check_vault_code decrypt totp e f code v).0 ≡ accepted
      → (step : ℕ) × ((window_of e f code ≡ some step)
          × Spent f.id step (check_vault_code decrypt totp e f code v).1)
  unfolding check_vault_code
  accepted-check_vault_code e f code v h =
      at_head (is_locked e.now f.locked_until)
        (not (len (clean code) == 6) || decrypt f.secret_enc =s "") h
    where
      verdict : Bool → Bool → Verdict × Table
      verdict b c =
          if◌then◌else◌ {A = Verdict × Table} b (locked, v)
            (if c then fail_vault_code e f v else settle_step e f (window_of e f code) v)

      at_head :
          (b c : Bool)
          → (verdict b c).0 ≡ accepted
          → (step : ℕ) × ((window_of e f code ≡ some step) × Spent f.id step (verdict b c).1)
      at_head true c k = absurd (ground arith)
      at_head false true k = absurd (ground (arith, fail-not-accepted e f v))
      at_head false false k = accepted-settle_step e f (window_of e f code) v k

  refused-settle_step :
      (e : Env) (f : Factor) (step : ℕ) (v : Table)
      → Spent f.id step v
      → (settle_step e f (some step) v).0 ≢ accepted
  unfolding settle_step spend_step
  refused-settle_step e f step v h k = ground arith

  refused-check_vault_code :
      (e : Env) (f : Factor) (step : ℕ) (code : String) (v : Table)
      → window_of e f code ≡ some step
      → Spent f.id step v
      → (check_vault_code decrypt totp e f code v).0 ≢ accepted
  unfolding check_vault_code
  refused-check_vault_code e f step code v found h k =
      ground (arith, fail-not-accepted e f v, refused-settle_step e f step v h)

  -- Any checks of any codes, each with any copy of any row.
  pub data Checks : Table → Table → Type 0 where
    done : {v : Table} → Checks v v
    check :
        {v v' : Table} (e : Env) (f : Factor) (code : String)
        → Checks (check_vault_code decrypt totp e f code v).1 v'
        → Checks v v'

  Spent-Checks : {v v' : Table} (i step : ℕ) → Spent i step v → Checks v v' → Spent i step v'
  Spent-Checks i step h done = h
  Spent-Checks {v} i step h (check e f code rest) =
      Spent-Checks i step (Spent-check_vault_code e f i step code v h) rest

  same_window :
      (e e' : Env) (f f' : Factor) (code : String)
      → f'.secret_enc ≡ f.secret_enc
      → e'.now / second / period ≡ e.now / second / period
      → window_of e' f' code ≡ window_of e f code
  unfolding steps
  same_window e e' f f' code same_seed same_time =
      ap₂
        (λ (seed : String) (t : ℕ).
          find_step decrypt totp (decrypt seed) (clean code) ((t - 1) ∷ t ∷ (t + 1) ∷ []))
        same_seed same_time

  -- A vault code that was accepted is not accepted again in the same half minute, though other
  -- checks come between and though the second request loaded its copy of the row before the first
  -- one wrote.
  pub check_vault_code-once :
      (e e' : Env) (f f' : Factor) (code : String) (v v' : Table)
      → f'.id ≡ f.id
      → f'.secret_enc ≡ f.secret_enc
      → e'.now / second / period ≡ e.now / second / period
      → (check_vault_code decrypt totp e f code v).0 ≡ accepted
      → Checks (check_vault_code decrypt totp e f code v).1 v'
      → (check_vault_code decrypt totp e' f' code v').0 ≢ accepted
  check_vault_code-once e e' f f' code v v' same_row same_seed same_time took between =
      let (step, (found, spent)) = accepted-check_vault_code e f code v took in
      refused-check_vault_code e' f' step code v'
        (same_window e e' f f' code same_seed same_time ∙ found)
        (subst (λ i. Spent i step v') (sym same_row) (Spent-Checks f.id step spent between))
