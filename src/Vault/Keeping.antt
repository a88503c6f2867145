-- ===== src/Vault/Keeping.antt =====
-- What a check of a code leaves of a person's row: backend/handlers/vault_mfa.go.
use Prim.Native.String.{len}
use commitkube.Base.{
  ℕ, ◌+◌, ◌≡◌, refl, ap, String, Bool, true, false, not, ◌||◌, Option, none, some, leb, ◌==◌, ◌=s◌,
  if◌then◌else◌, find_first-update_where, update_where, count_where, arith, clean,
}
use commitkube.Vault.Factor.{
  Factor, Table, Env, Verdict, accepted, locked, already_used, wrong, log, update_factor, locks,
  counts, fail_vault_code, check_vault_code, is_locked, max_failures, settle_step, spend_step,
  steps, find_step, is_fresh, spends,
}
use commitkube.Vault.Access.{factor_of}

-- A person's row is there, as enabled as `f` and of its generation.
pub record Keeps (uid : ℕ) (f : Factor) (v : Table) : Type 0 where
  pub row : Factor
  pub found : factor_of uid v ≡ some row
  pub same_on : row.enabled_at ≡ f.enabled_at
  pub same_generation : row.generation ≡ f.generation

-- A change of a row that leaves the owner, the start and the generation.
pub record IsMild (change : Factor → Factor) : Type 0 where
  pub owner : (r : Factor) → (change r).user_id ≡ r.user_id
  pub start : (r : Factor) → (change r).enabled_at ≡ r.enabled_at
  pub generation : (r : Factor) → (change r).generation ≡ r.generation

pub Keeps-update_where :
    (uid : ℕ) (f : Factor) (q : Factor → Bool) (change : Factor → Factor) (v : Table)
    → IsMild change
    → Keeps uid f v
    → Keeps uid f (record v { factors = update_where q change v.factors })
Keeps-update_where uid f q change v mild k = record {
  row = if q k.row then change k.row else k.row;
  found =
      find_first-update_where (λ (r : Factor). r.user_id == uid) q change v.factors
        (λ r. ap (λ i. i == uid) (mild.owner r)) k.found;
  same_on = ground (arith, mild.start k.row, k.same_on);
  same_generation = ground (arith, mild.generation k.row, k.same_generation);
}

pub Keeps-update_factor :
    (e : Env) (uid i : ℕ) (f : Factor) (change : Factor → Factor) (v : Table)
    → IsMild change
    → Keeps uid f v
    → Keeps uid f (update_factor e i change v)
unfolding update_factor
Keeps-update_factor e uid i f change v mild k = at_head e.update_ok
  where
    at_head :
        (b : Bool)
        → Keeps uid f (
            if b
            then record v { factors = update_where (λ (r : Factor). r.id == i) change v.factors }
            else v)
    at_head true = Keeps-update_where uid f (λ r. r.id == i) change v mild k
    at_head false = k

pub Keeps-log :
    (uid who : ℕ) (action : String) (f : Factor) (v : Table)
    → Keeps uid f v
    → Keeps uid f (log who action v)
unfolding log
Keeps-log uid who action f v k = record {
  row = k.row;
  found = k.found;
  same_on = k.same_on;
  same_generation = k.same_generation;
}

Keeps-fail_vault_code :
    (e : Env) (uid : ℕ) (f g : Factor) (v : Table)
    → Keeps uid f v
    → Keeps uid f (fail_vault_code e g v).1
unfolding fail_vault_code
Keeps-fail_vault_code e uid f g v k = at_head (leb max_failures (g.failures + 1))
  where
    at_head :
        (b : Bool)
        → Keeps uid f
            (if◌then◌else◌ {A = Verdict × Table} b
              (wrong, update_factor e g.id (locks e.now) (log g.user_id "vault_mfa_lockout" v))
              (wrong, update_factor e g.id (counts (g.failures + 1)) v)).1
    at_head true =
        Keeps-update_factor e uid g.id f (locks e.now) (log g.user_id "vault_mfa_lockout" v)
          (record { owner = λ r. refl; start = λ r. refl; generation = λ r. refl })
          (Keeps-log uid g.user_id "vault_mfa_lockout" f v k)
    at_head false =
        Keeps-update_factor e uid g.id f (counts (g.failures + 1)) v
          (record { owner = λ r. refl; start = λ r. refl; generation = λ r. refl }) k

Keeps-settle_step :
    (e : Env) (uid : ℕ) (f g : Factor) (o : Option ℕ) (v : Table)
    → Keeps uid f v
    → Keeps uid f (settle_step e g o v).1
unfolding settle_step spend_step
Keeps-settle_step e uid f g none v k = Keeps-fail_vault_code e uid f g v k
Keeps-settle_step e uid f g (some step) v k =
    at_head (leb step g.last_step)
      (not e.update_ok || count_where (is_fresh g.id step) v.factors == 0)
  where
    at_head :
        (b c : Bool)
        → Keeps uid f
            (if◌then◌else◌ {A = Verdict × Table} b
              (already_used, v)
              (if c then (already_used, v) else (
                accepted,
                record v { factors = update_where (is_fresh g.id step) (spends step) v.factors },
              ))).1
    at_head true c = k
    at_head false true = k
    at_head false false =
        Keeps-update_where uid f (is_fresh g.id step) (spends step) v
          (record { owner = λ r. refl; start = λ r. refl; generation = λ r. refl }) k

module _ (decrypt : String → String) (totp : String → ℕ → Option String) where
  pub Keeps-check_vault_code :
      (e : Env) (uid : ℕ) (f g : Factor) (code : String) (v : Table)
      → Keeps uid f v
      → Keeps uid f (check_vault_code decrypt totp e g code v).1
  unfolding check_vault_code
  Keeps-check_vault_code e uid f g code v k =
      at_head (is_locked e.now g.locked_until)
        (not (len (clean code) == 6) || decrypt g.secret_enc =s "")
    where
      window : Option ℕ
      window = find_step decrypt totp (decrypt g.secret_enc) (clean code) (steps e.now)

      at_head :
          (b c : Bool)
          → Keeps uid f
              (if◌then◌else◌ {A = Verdict × Table} b
                (locked, v)
                (if c then fail_vault_code e g v else settle_step e g window v)).1
      at_head true c = k
      at_head false true = Keeps-fail_vault_code e uid f g v k
      at_head false false = Keeps-settle_step e uid f g window v k
