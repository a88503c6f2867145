-- ===== src/Vault/Lockout.antt =====
-- Five wrong codes close the vault's second factor for five minutes: backend/handlers/vault_mfa.go.
use Prim.Native.String.{len}
use commitkube.Base.{
  ◌≢◌, ap, ℕ, suc, ◌+◌, ◌<◌, ◌≡◌, refl, subst, sym, ◌∙◌, String, Bool, true, false, not, ◌||◌,
  Option, none, some, leb, ◌==◌, ◌=s◌, if◌then◌else◌, find_first-update_where, arith, clean,
}
use commitkube.Tokens.{Jwt}
use commitkube.Vault.Factor.{
  Factor, Table, Env, Verdict, accepted, locked, already_used, wrong, log, update_factor, locks,
  counts, fail_vault_code, check_vault_code, is_locked, max_failures, lockout, settle_step,
  spend_step, steps, find_step,
}
use commitkube.Vault.Access.{
  set_up_first, factor_of, verify_vault_mfa, verify_row, settle_verify, refused, hand_over,
  is_enabled, Response,
}

-- What a wrong code leaves of the row.
abbrev pub after_wrong : ℕ → Factor → Factor
after_wrong now f =
    if leb max_failures (f.failures + 1) then locks now f else counts (f.failures + 1) f

after_wrong-enabled :
    (now : ℕ) (f : Factor)
    → is_enabled f.enabled_at ≡ true
    → is_enabled (after_wrong now f).enabled_at ≡ true
after_wrong-enabled now f h = ground arith

-- The fifth wrong code locks.
after_wrong-locked :
    (now later : ℕ) (f : Factor)
    → f.failures ≡ 4
    → later < now + lockout
    → is_locked later (after_wrong now f).locked_until ≡ true
unfolding is_locked
after_wrong-locked now later f h l = ground arith

factor_of-update_factor :
    (e : Env) (uid : ℕ) (f : Factor) (change : Factor → Factor) (v : Table)
    → e.update_ok ≡ true
    → ((r : Factor) → (change r).user_id ≡ r.user_id)
    → factor_of uid v ≡ some f
    → factor_of uid (update_factor e f.id change v) ≡ some (change f)
unfolding update_factor
factor_of-update_factor e uid f change v works keep h = ground (
  arith,
  find_first-update_where (λ (r : Factor). r.user_id == uid) (λ (r : Factor). r.id == f.id) change
      v.factors (λ r. ap (λ i. i == uid) (keep r)) h,
)

factor_of-fail_vault_code :
    (e : Env) (uid : ℕ) (f : Factor) (v : Table)
    → e.update_ok ≡ true
    → factor_of uid v ≡ some f
    → factor_of uid (fail_vault_code e f v).1 ≡ some (after_wrong e.now f)
unfolding fail_vault_code log
factor_of-fail_vault_code e uid f v works h = at_head (leb max_failures (f.failures + 1))
  where
    at_head :
        (b : Bool)
        → factor_of uid
            (if◌then◌else◌ {A = Verdict × Table} b
              (wrong, update_factor e f.id (locks e.now) (log f.user_id "vault_mfa_lockout" v))
              (wrong, update_factor e f.id (counts (f.failures + 1)) v)).1
          ≡ some (if b then locks e.now f else counts (f.failures + 1) f)
    at_head true =
        factor_of-update_factor e uid f (locks e.now) (log f.user_id "vault_mfa_lockout" v) works
          (λ r. refl) h
    at_head false = factor_of-update_factor e uid f (counts (f.failures + 1)) v works (λ r. refl) h

settle_step-wrong :
    (e : Env) (f : Factor) (o : Option ℕ) (v : Table)
    → (settle_step e f o v).0 ≡ wrong
    → settle_step e f o v ≡ fail_vault_code e f v
unfolding settle_step spend_step
settle_step-wrong e f none v h = refl
settle_step-wrong e f (some step) v h = absurd (ground arith)

log_keeps :
    (uid who : ℕ) (action : String) (v : Table) → factor_of uid (log who action v) ≡ factor_of uid v
unfolding log
log_keeps uid who action v = refl

module _ (decrypt : String → String) (totp : String → ℕ → Option String) where
  -- A wrong verdict comes from `failVaultCode` alone.
  wrong-check_vault_code :
      (e : Env) (f : Factor) (code : String) (v : Table)
      → (check_vault_code decrypt totp e f code v).0 ≡ wrong
      → check_vault_code decrypt totp e f code v ≡ fail_vault_code e f v
  unfolding check_vault_code
  wrong-check_vault_code e f code v h =
      at_head (is_locked e.now f.locked_until)
        (not (len (clean code) == 6) || decrypt f.secret_enc =s "")
        (find_step decrypt totp (decrypt f.secret_enc) (clean code) (steps e.now)) h
    where
      verdict : Bool → Bool → Option ℕ → Verdict × Table
      verdict b c o =
          if◌then◌else◌ {A = Verdict × Table} b (locked, v)
            (if c then fail_vault_code e f v else settle_step e f o v)

      at_head :
          (b c : Bool) (o : Option ℕ)
          → (verdict b c o).0 ≡ wrong
          → verdict b c o ≡ fail_vault_code e f v
      at_head true c o k = absurd (ground arith)
      at_head false true o k = refl
      at_head false false o k = settle_step-wrong e f o v k

  module _ (jwt : Jwt) (secret : String) (uid : ℕ) where
    -- A request that types a code for a vault session.
    abbrev pub verify : Env → String → Table → Table × Response
    verify e code v = verify_vault_mfa jwt secret decrypt totp e uid code v

    hand_over-not_wrong :
        (o : Option String) (v : Table)
        → (hand_over jwt secret decrypt totp uid o v).1 ≢ refused wrong
    unfolding hand_over
    hand_over-not_wrong none v h = ground arith
    hand_over-not_wrong (some token) v h = ground arith

    settle_verify-wrong :
        (e : Env) (f : Factor) (p : Verdict × Table)
        → (settle_verify jwt secret decrypt totp e uid f p).1 ≡ refused wrong
        → (p.0 ≡ wrong)
          × ((settle_verify jwt secret decrypt totp e uid f p).0 ≡ log uid "vault_mfa_failed" p.1)
    unfolding settle_verify
    settle_verify-wrong e f (accepted, v) h = absurd (hand_over-not_wrong _ v h)
    settle_verify-wrong e f (locked, v) h = absurd (ground arith)
    settle_verify-wrong e f (already_used, v) h = absurd (ground arith)
    settle_verify-wrong e f (wrong, v) h = (refl, refl)

    settle_verify-locked :
        (e : Env) (f : Factor) (v : Table)
        → settle_verify jwt secret decrypt totp e uid f (locked, v)
          ≡ (log uid "vault_mfa_failed" v, refused locked)
    unfolding settle_verify
    settle_verify-locked e f v = refl

    factor_of-verify_row :
        (e : Env) (f : Factor) (code : String) (v : Table)
        → e.update_ok ≡ true
        → factor_of uid v ≡ some f
        → (verify_row jwt secret decrypt totp e uid code (some f) v).1 ≡ refused wrong
        → (factor_of uid (verify_row jwt secret decrypt totp e uid code (some f) v).0
            ≡ some (after_wrong e.now f))
          × (is_enabled f.enabled_at ≡ true)
    unfolding verify_row
    factor_of-verify_row e f code v works h k = at_head (is_enabled f.enabled_at) k
      where
        checked : Verdict × Table
        checked = check_vault_code decrypt totp e f code v

        at_head :
            (b : Bool)
            → (if◌then◌else◌ {A = Table × Response}
                (not b)
                (v, set_up_first)
                (settle_verify jwt secret decrypt totp e uid f checked)).1
              ≡ refused wrong
            → (factor_of uid
                  (if◌then◌else◌ {A = Table × Response}
                    (not b)
                    (v, set_up_first)
                    (settle_verify jwt secret decrypt totp e uid f checked)).0
                ≡ some (after_wrong e.now f))
              × (b ≡ true)
        at_head false q = absurd (ground arith)
        at_head true q =
            let (bad, left) = settle_verify-wrong e f checked q in
            (
              ap (factor_of uid) left
                  ∙ log_keeps uid uid _ checked.1
                  ∙ ap (λ (p : Verdict × Table). factor_of uid p.1)
                      (wrong-check_vault_code e f code v bad)
                  ∙ factor_of-fail_vault_code e uid f v works h,
              refl,
            )

    factor_of-verify :
        (e : Env) (f : Factor) (code : String) (v : Table)
        → e.update_ok ≡ true
        → factor_of uid v ≡ some f
        → (verify e code v).1 ≡ refused wrong
        → (factor_of uid (verify e code v).0 ≡ some (after_wrong e.now f))
          × (is_enabled f.enabled_at ≡ true)
    unfolding verify_vault_mfa
    factor_of-verify e f code v works h k =
        subst
          (λ o.
            (verify_row jwt secret decrypt totp e uid code o v).1 ≡ refused wrong
            → (factor_of uid (verify_row jwt secret decrypt totp e uid code o v).0
                ≡ some (after_wrong e.now f))
              × (is_enabled f.enabled_at ≡ true))
          (sym h) (factor_of-verify_row e f code v works h) k

    -- Wrong codes in a row, counted, from the table before to the table after.
    pub data WrongRun : ℕ → Table → Table → Type 0 where
      no_wrong : {v : Table} → WrongRun 0 v v
      one_more :
          {n : ℕ} {v v' : Table} (e : Env) (code : String)
          → WrongRun n v v'
          → e.update_ok ≡ true
          → (verify e code v').1 ≡ refused wrong
          → WrongRun (suc n) v (verify e code v').0

    -- A row that starts with no failures counts the wrong codes up to the fourth.
    factor_of-WrongRun :
        {n : ℕ} {v v' : Table} (f : Factor)
        → factor_of uid v ≡ some f
        → f.failures ≡ 0
        → n < max_failures
        → WrongRun n v v'
        → (f' : Factor) × ((factor_of uid v' ≡ some f') × (f'.failures ≡ n))
    factor_of-WrongRun f h z n no_wrong = (f, (h, z))
    factor_of-WrongRun f h z n (one_more {n = m} {v' = v'} e code run works k) =
        let (g, (there, count)) = factor_of-WrongRun f h z (omega arith) run in
        let (left, _) = factor_of-verify e g code v' works there k in
        (after_wrong e.now g, (left, ground arith))

    locked-verify_row :
        (e : Env) (f : Factor) (code : String) (v : Table)
        → is_enabled f.enabled_at ≡ true
        → is_locked e.now f.locked_until ≡ true
        → verify_row jwt secret decrypt totp e uid code (some f) v
          ≡ (log uid "vault_mfa_failed" v, refused locked)
    unfolding verify_row check_vault_code
    locked-verify_row e f code v on shut = rw on (rw shut (settle_verify-locked e f v))

    locked-verify :
        (e : Env) (f : Factor) (code : String) (v : Table)
        → factor_of uid v ≡ some f
        → is_enabled f.enabled_at ≡ true
        → is_locked e.now f.locked_until ≡ true
        → verify e code v ≡ (log uid "vault_mfa_failed" v, refused locked)
    unfolding verify_vault_mfa
    locked-verify e f code v h on shut =
        ap (λ o. verify_row jwt secret decrypt totp e uid code o v) h
        ∙ locked-verify_row e f code v on shut

    -- After five wrong vault codes in a row, from a row with no failures, any code is refused for
    -- five minutes from the last, and the rows stay as they are; the writes of the failures have
    -- worked.
    pub verify_vault_mfa-locked :
        (f : Factor) (v v' : Table) (e e' : Env) (code code' : String)
        → factor_of uid v ≡ some f
        → f.failures ≡ 0
        → WrongRun 4 v v'
        → e.update_ok ≡ true
        → (verify e code v').1 ≡ refused wrong
        → e'.now < e.now + lockout
        → verify e' code' (verify e code v').0
          ≡ (log uid "vault_mfa_failed" (verify e code v').0, refused locked)
    verify_vault_mfa-locked f v v' e e' code code' h z run works k soon =
        let (g, (there, count)) = factor_of-WrongRun f h z (omega arith) run in
        let (left, on) = factor_of-verify e g code v' works there k in
        locked-verify e' (after_wrong e.now g) code' (verify e code v').0 left
          (after_wrong-enabled e.now g on) (after_wrong-locked e.now e'.now g count soon)
