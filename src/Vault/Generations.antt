-- ===== src/Vault/Generations.antt =====
-- The generation of a person's second factor along any run of the handlers:
-- backend/handlers/vault_mfa.go.
use commitkube.Base.{
  ℕ, ◌+◌, ◌≤◌, ◌≡◌, refl, sym, ap, subst, String, Bool, true, false, not, ◌||◌, Option, none, some,
  ◌==◌, leb, if◌then◌else◌, update_where, count_where, All, All-find_first, arith, All-any,
  find_first-revised, only_keyed,
}
use commitkube.Vault.Factor.{
  Factor, Table, Env, Verdict, accepted, already_used, wrong, log, update_factor, locks, counts,
  fail_vault_code, max_failures, settle_step, spend_step, is_fresh, spends,
}
use commitkube.Vault.Access.{factor_of, cleared}
use commitkube.Vault.Keys.{IsKeyed, IsKeyed-update_where, key_of}

-- The table has its keys, and the person a row of that generation or a later one.
pub record IsPast (uid n : ℕ) (v : Table) : Type 0 where
  pub keyed : IsKeyed v
  pub row : Factor
  pub found : factor_of uid v ≡ some row
  pub enough : n ≤ row.generation

-- A change of a row that leaves its key, its owner and its generation.
pub record IsGentle (change : Factor → Factor) : Type 0 where
  pub key : (r : Factor) → (change r).id ≡ r.id
  pub owner : (r : Factor) → (change r).user_id ≡ r.user_id
  pub generation : (r : Factor) → (change r).generation ≡ r.generation

-- A change of the rows that `q` finds, which leaves each its key and owner and does not take a
-- found row back.
pub IsPast-update_where :
    (uid n : ℕ) (q : Factor → Bool) (change : Factor → Factor) (v : Table)
    → ((r : Factor) → q r ≡ true → (change r).id ≡ r.id)
    → All (λ (r : Factor). q r ≡ true → ((change r).user_id == uid) ≡ (r.user_id == uid)) v.factors
    → (i : IsPast uid n v) → (q i.row ≡ true → n ≤ (change i.row).generation)
    → IsPast uid n (record v { factors = update_where q change v.factors })
IsPast-update_where uid n q change v key owner i forward = record {
  keyed = IsKeyed-update_where q change v key i.keyed;
  row = if q i.row then change i.row else i.row;
  found =
      find_first-revised (λ (r : Factor). r.user_id == uid) q change v.factors i.row owner i.found;
  enough = ground (arith, forward, i.enough);
}

IsPast-gentle :
    (uid n : ℕ) (q : Factor → Bool) (change : Factor → Factor) (v : Table)
    → IsGentle change
    → IsPast uid n v
    → IsPast uid n (record v { factors = update_where q change v.factors })
IsPast-gentle uid n q change v g i =
    IsPast-update_where uid n q change v (λ r _. g.key r)
      (All-any (λ r _. ap (λ o. o == uid) (g.owner r)) v.factors) i
      (λ _. subst (λ m. n ≤ m) (sym (g.generation i.row)) i.enough)

pub IsPast-update_factor :
    (e : Env) (uid n i : ℕ) (change : Factor → Factor) (v : Table)
    → IsGentle change
    → IsPast uid n v
    → IsPast uid n (update_factor e i change v)
unfolding update_factor
IsPast-update_factor e uid n i change v g p = at_head e.update_ok
  where
    at_head :
        (b : Bool)
        → IsPast uid n (
            if b
            then record v { factors = update_where (λ (r : Factor). r.id == i) change v.factors }
            else v)
    at_head true = IsPast-gentle uid n (λ r. r.id == i) change v g p
    at_head false = p

pub IsPast-log :
    (uid n who : ℕ) (action : String) (v : Table) → IsPast uid n v → IsPast uid n (log who action v)
unfolding log
IsPast-log uid n who action v p = record {
  keyed = record { distinct = p.keyed.distinct; below = p.keyed.below; next = p.keyed.next };
  row = p.row;
  found = p.found;
  enough = p.enough;
}

pub IsPast-fail_vault_code :
    (e : Env) (uid n : ℕ) (g : Factor) (v : Table)
    → IsPast uid n v
    → IsPast uid n (fail_vault_code e g v).1
unfolding fail_vault_code
IsPast-fail_vault_code e uid n g v p = at_head (leb max_failures (g.failures + 1))
  where
    at_head :
        (b : Bool)
        → IsPast uid n
            (if◌then◌else◌ {A = Verdict × Table} b
              (wrong, update_factor e g.id (locks e.now) (log g.user_id "vault_mfa_lockout" v))
              (wrong, update_factor e g.id (counts (g.failures + 1)) v)).1
    at_head true =
        IsPast-update_factor e uid n g.id (locks e.now) (log g.user_id "vault_mfa_lockout" v)
          (record { key = λ r. refl; owner = λ r. refl; generation = λ r. refl })
          (IsPast-log uid n g.user_id "vault_mfa_lockout" v p)
    at_head false =
        IsPast-update_factor e uid n g.id (counts (g.failures + 1)) v
          (record { key = λ r. refl; owner = λ r. refl; generation = λ r. refl }) p

pub IsPast-settle_step :
    (e : Env) (uid n : ℕ) (g : Factor) (o : Option ℕ) (v : Table)
    → IsPast uid n v
    → IsPast uid n (settle_step e g o v).1
unfolding settle_step spend_step
IsPast-settle_step e uid n g none v p = IsPast-fail_vault_code e uid n g v p
IsPast-settle_step e uid n g (some step) v p =
    at_head (leb step g.last_step)
      (not e.update_ok || count_where (is_fresh g.id step) v.factors == 0)
  where
    at_head :
        (b c : Bool)
        → IsPast uid n
            (if◌then◌else◌ {A = Verdict × Table} b
              (already_used, v)
              (if c then (already_used, v) else (
                accepted,
                record v { factors = update_where (is_fresh g.id step) (spends step) v.factors },
              ))).1
    at_head true c = p
    at_head false true = p
    at_head false false =
        IsPast-gentle uid n (is_fresh g.id step) (spends step) v
          (record { key = λ r. refl; owner = λ r. refl; generation = λ r. refl }) p

-- A reset moves the generation of the one row that it finds.
pub IsPast-cleared :
    (e : Env) (uid n target : ℕ) (f : Factor) (v : Table)
    → factor_of target v ≡ some f
    → IsPast uid n v
    → IsPast uid n (update_factor e f.id (cleared f.generation) v)
unfolding update_factor
IsPast-cleared e uid n target f v at p = at_head e.update_ok
  where
    forward : (p.row.id == f.id) ≡ true → n ≤ f.generation + 1
    forward same =
        let one : p.row ≡ f =
          All-find_first (λ (r : Factor). (r.id == f.id) ≡ true → r ≡ f)
            (λ (r : Factor). r.user_id == uid) v.factors
            (only_keyed key_of (λ (r : Factor). r.user_id == target) v.factors f p.keyed.distinct
              at)
            p.found same in
        omega (arith, p.enough, ap (λ (r : Factor). r.generation) one)

    at_head :
        (b : Bool)
        → IsPast uid n (
            if b
            then record v {
              factors =
                  update_where (λ (r : Factor). r.id == f.id) (cleared f.generation) v.factors;
            }
            else v)
    at_head true =
        IsPast-update_where uid n (λ r. r.id == f.id) (cleared f.generation) v (λ r _. refl)
          (All-any (λ r _. refl) v.factors) p forward
    at_head false = p
