-- ===== src/Vault/Resets.antt =====
-- A reset of the second factor ends every vault session issued before it:
-- backend/handlers/vault_mfa.go.
use commitkube.Base.{
  ℕ, ◌+◌, ◌≤◌, ◌≡◌, ◌≢◌, refl, sym, ap, ◌∙◌, String, true, false, not, ◌&&◌, Option, some, List,
  ◌==◌, ◌=s◌, if◌then◌else◌, find_first-update_where, update_where, arith,
}
use mathlib.Core.Option.{some-injective}
use commitkube.Tokens.{Jwt, Claims, vault_session_key}
use commitkube.Vault.Factor.{Factor, Table, Env, update_factor}
use commitkube.Vault.Access.{
  factor_of, Person, cleared, setup_vault_mfa, reset_user_vault_mfa, reset_row, confirm_vault_mfa,
  verify_vault_mfa, passed, vault_session_required,
}
use commitkube.Vault.Keys.{IsKeyed, IsKeyed-update_where}
use commitkube.Vault.Generations.{IsPast, IsPast-log}
use commitkube.Vault.Seeds.{IsPast-setup_vault_mfa}
use commitkube.Vault.Handlers.{IsPast-verify_row, IsPast-confirm_row, IsPast-reset}
use commitkube.Unlock.Guards.{vault_session_required-Backed}

-- A reset that is not refused moves the generation on.
IsPast-after_reset :
    (e : Env) (caller target : Person) (f : Factor) (v : Table)
    → IsKeyed v
    → factor_of target.id v ≡ some f
    → e.update_ok ≡ true
    → (target.role =s "root" && not (caller.role =s "root")) ≡ false
    → IsPast target.id (f.generation + 1) (reset_user_vault_mfa e (some caller) (some target) v).0
unfolding reset_user_vault_mfa reset_row update_factor
IsPast-after_reset e caller target f v keyed at works may = rw may (
    rw at (
      rw works (
        IsPast-log target.id (f.generation + 1) caller.id "vault_mfa_reset"
          (record v {
            factors = update_where (λ (r : Factor). r.id == f.id) (cleared f.generation) v.factors;
          })
          moved)))
  where
    moved : IsPast target.id (f.generation + 1) (record v {
      factors = update_where (λ (r : Factor). r.id == f.id) (cleared f.generation) v.factors;
    })
    moved = record {
      keyed = IsKeyed-update_where (λ r. r.id == f.id) (cleared f.generation) v (λ r _. refl) keyed;
      row = if f.id == f.id then cleared f.generation f else f;
      found =
          find_first-update_where (λ (r : Factor). r.user_id == target.id) (λ r. r.id == f.id)
            (cleared f.generation) v.factors (λ r. refl) at;
      enough = ground arith;
    }

module _ (encrypt decrypt : String → String) (totp : String → ℕ → Option String) (jwt : Jwt)
    (secret : String) where
  -- A request to one of the handlers that write, by anyone.
  pub data Step (v : Table) : Table → Type 0 where
    setting_up :
        (e : Env) (who : ℕ) (person : Option Person) (draws : List (Option String))
        → Step v (setup_vault_mfa encrypt e who person draws v).0
    confirming :
        (e : Env) (who : ℕ) (code : String)
        → Step v (confirm_vault_mfa jwt secret decrypt totp e who code v).0
    verifying :
        (e : Env) (who : ℕ) (code : String)
        → Step v (verify_vault_mfa jwt secret decrypt totp e who code v).0
    resetting :
        (e : Env) (caller target : Option Person)
        → Step v (reset_user_vault_mfa e caller target v).0

  pub data Reach (v : Table) : Table → Type 0 where
    here : Reach v v
    next : {u w : Table} → Reach v u → Step u w → Reach v w

  IsPast-Step : {v w : Table} (uid n : ℕ) → Step v w → IsPast uid n v → IsPast uid n w
  unfolding confirm_vault_mfa verify_vault_mfa
  IsPast-Step {v} uid n (setting_up e who person draws) p =
      IsPast-setup_vault_mfa encrypt e uid n who person draws v p
  IsPast-Step {v} uid n (confirming e who code) p =
      IsPast-confirm_row decrypt totp jwt secret e uid n who code (factor_of who v) v p
  IsPast-Step {v} uid n (verifying e who code) p =
      IsPast-verify_row decrypt totp jwt secret e uid n who code (factor_of who v) v p
  IsPast-Step {v} uid n (resetting e caller target) p = IsPast-reset e uid n caller target v p

  IsPast-Reach : {v w : Table} (uid n : ℕ) → Reach v w → IsPast uid n v → IsPast uid n w
  IsPast-Reach uid n here p = p
  IsPast-Reach uid n (next run step) p = IsPast-Step uid n step (IsPast-Reach uid n run p)

  -- After the second factor of a person is reset, a vault session of his of the generation before
  -- the reset, or of an older one, never passes the guard of the vault, whatever is set up,
  -- confirmed, verified or reset since, by anyone; the keys of the rows are distinct, the write
  -- has worked, and the one who resets may.
  pub reset_user_vault_mfa-ends_sessions :
      (e e' : Env) (caller target : Person) (f : Factor) (v v' : Table) (header : String)
      (c : Claims) (fresh : Option String)
      → IsKeyed v
      → factor_of target.id v ≡ some f
      → e.update_ok ≡ true
      → (target.role =s "root" && not (caller.role =s "root")) ≡ false
      → Reach (reset_user_vault_mfa e (some caller) (some target) v).0 v'
      → jwt.parse (vault_session_key jwt secret) e'.now header ≡ some c
      → c.gen ≤ f.generation
      → vault_session_required jwt secret e' target.id header v' ≢ passed fresh
  reset_user_vault_mfa-ends_sessions e e' caller target f v v' header c fresh keyed at works may run
        signed old h =
      let p : IsPast target.id (f.generation + 1) v' =
        IsPast-Reach target.id (f.generation + 1) run
          (IsPast-after_reset e caller target f v keyed at works may) in
      let (c', (g, b)) = vault_session_required-Backed jwt secret e' target.id header v' fresh h in
      let one : c ≡ c' = some-injective c c' (sym signed ∙ b.signed) in
      let row : p.row ≡ g = some-injective p.row g (sym p.found ∙ b.row) in
      omega (
        arith,
        p.enough,
        ap (λ (r : Factor). r.generation) row,
        b.same_generation,
        ap (λ (d : Claims). d.gen) one,
        old,
      )
