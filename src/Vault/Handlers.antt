-- ===== src/Vault/Handlers.antt =====
-- No handler takes the generation of a second factor back:
-- backend/handlers/vault_mfa.go.
use commitkube.Base.{
  ℕ, ◌≡◌, refl, String, Bool, true, false, not, ◌||◌, ◌&&◌, Option, none, some, ◌==◌, ◌=s◌,
  if◌then◌else◌, clean,
}
use Prim.Native.String.{len}
use commitkube.Tokens.{Jwt}
use commitkube.Vault.Factor.{
  Factor, Table, Env, Verdict, accepted, locked, already_used, wrong, update_factor,
  fail_vault_code, check_vault_code, is_locked, settle_step, steps, find_step,
}
use commitkube.Vault.Access.{
  factor_of, Person, Response, cleared, is_enabled, conflict, reset_user_vault_mfa, reset_row,
  confirm_row, settle_confirm, verify_row, settle_verify, hand_over, set_up_first, forbidden,
  issue_vault_session,
}
use commitkube.Vault.Generations.{
  IsPast, IsPast-update_factor, IsPast-log, IsPast-settle_step, IsPast-fail_vault_code,
  IsPast-cleared,
}

module _ (decrypt : String → String) (totp : String → ℕ → Option String) where
  IsPast-check_vault_code :
      (e : Env) (uid n : ℕ) (g : Factor) (code : String) (v : Table)
      → IsPast uid n v
      → IsPast uid n (check_vault_code decrypt totp e g code v).1
  unfolding check_vault_code
  IsPast-check_vault_code e uid n g code v p =
      at_head (is_locked e.now g.locked_until)
        (not (len (clean code) == 6) || decrypt g.secret_enc =s "")
    where
      window : Option ℕ
      window = find_step decrypt totp (decrypt g.secret_enc) (clean code) (steps e.now)

      at_head :
          (b c : Bool)
          → IsPast uid n
              (if◌then◌else◌ {A = Verdict × Table} b
                (locked, v)
                (if c then fail_vault_code e g v else settle_step e g window v)).1
      at_head true c = p
      at_head false true = IsPast-fail_vault_code e uid n g v p
      at_head false false = IsPast-settle_step e uid n g window v p

  module _ (jwt : Jwt) (secret : String) where
    IsPast-hand_over :
        (uid n who : ℕ) (o : Option String) (v : Table)
        → IsPast uid n v
        → IsPast uid n (hand_over jwt secret decrypt totp who o v).0
    unfolding hand_over
    IsPast-hand_over uid n who none v p = p
    IsPast-hand_over uid n who (some t) v p = IsPast-log uid n who "vault_unlock" v p

    IsPast-settle_verify :
        (e : Env) (uid n who : ℕ) (f : Factor) (c : Verdict × Table)
        → IsPast uid n c.1
        → IsPast uid n (settle_verify jwt secret decrypt totp e who f c).0
    unfolding settle_verify
    IsPast-settle_verify e uid n who f (accepted, v) p =
        IsPast-hand_over uid n who (issue_vault_session jwt secret e who f.generation) v p
    IsPast-settle_verify e uid n who f (locked, v) p = IsPast-log uid n who "vault_mfa_failed" v p
    IsPast-settle_verify e uid n who f (already_used, v) p =
        IsPast-log uid n who "vault_mfa_failed" v p
    IsPast-settle_verify e uid n who f (wrong, v) p = IsPast-log uid n who "vault_mfa_failed" v p

    pub IsPast-verify_row :
        (e : Env) (uid n who : ℕ) (code : String) (o : Option Factor) (v : Table)
        → IsPast uid n v
        → IsPast uid n (verify_row jwt secret decrypt totp e who code o v).0
    unfolding verify_row
    IsPast-verify_row e uid n who code none v p = p
    IsPast-verify_row e uid n who code (some f) v p = at_head (not (is_enabled f.enabled_at))
      where
        at_head :
            (b : Bool)
            → IsPast uid n
                (if◌then◌else◌ {A = Table × Response} b
                  (v, set_up_first)
                  (settle_verify jwt secret decrypt totp e who f
                    (check_vault_code decrypt totp e f code v))).0
        at_head true = p
        at_head false =
            IsPast-settle_verify e uid n who f (check_vault_code decrypt totp e f code v)
              (IsPast-check_vault_code e uid n f code v p)

    IsPast-settle_confirm :
        (e : Env) (uid n who : ℕ) (f : Factor) (c : Verdict × Table)
        → IsPast uid n c.1
        → IsPast uid n (settle_confirm jwt secret decrypt totp e who f c).0
    unfolding settle_confirm
    IsPast-settle_confirm e uid n who f (accepted, v) p =
        IsPast-log uid n who "vault_mfa_enable"
          (update_factor e f.id (λ r. record r { enabled_at = some e.now }) v)
          (IsPast-update_factor e uid n f.id (λ r. record r { enabled_at = some e.now }) v
            (record { key = λ r. refl; owner = λ r. refl; generation = λ r. refl }) p)
    IsPast-settle_confirm e uid n who f (locked, v) p = p
    IsPast-settle_confirm e uid n who f (already_used, v) p = p
    IsPast-settle_confirm e uid n who f (wrong, v) p = p

    pub IsPast-confirm_row :
        (e : Env) (uid n who : ℕ) (code : String) (o : Option Factor) (v : Table)
        → IsPast uid n v
        → IsPast uid n (confirm_row jwt secret decrypt totp e who code o v).0
    unfolding confirm_row
    IsPast-confirm_row e uid n who code none v p = p
    IsPast-confirm_row e uid n who code (some f) v p =
        at_head (f.secret_enc =s "") (is_enabled f.enabled_at)
      where
        at_head :
            (b c : Bool)
            → IsPast uid n
                (if◌then◌else◌ {A = Table × Response} b
                  (v, set_up_first)
                  (if c
                    then (v, conflict)
                    else settle_confirm jwt secret decrypt totp e who f
                        (check_vault_code decrypt totp e f code v))).0
        at_head true c = p
        at_head false true = p
        at_head false false =
            IsPast-settle_confirm e uid n who f (check_vault_code decrypt totp e f code v)
              (IsPast-check_vault_code e uid n f code v p)

IsPast-reset_row :
    (e : Env) (uid n who : ℕ) (caller : Person) (o : Option Factor) (v : Table)
    → factor_of who v ≡ o
    → IsPast uid n v
    → IsPast uid n (reset_row e caller o v).0
unfolding reset_row
IsPast-reset_row e uid n who caller none v at p = p
IsPast-reset_row e uid n who caller (some f) v at p =
    IsPast-log uid n caller.id "vault_mfa_reset" (update_factor e f.id (cleared f.generation) v)
      (IsPast-cleared e uid n who f v at p)

pub IsPast-reset :
    (e : Env) (uid n : ℕ) (caller target : Option Person) (v : Table)
    → IsPast uid n v
    → IsPast uid n (reset_user_vault_mfa e caller target v).0
unfolding reset_user_vault_mfa
IsPast-reset e uid n none target v p = p
IsPast-reset e uid n (some caller) none v p = p
IsPast-reset e uid n (some caller) (some target) v p =
    at_head (target.role =s "root" && not (caller.role =s "root"))
  where
    at_head :
        (b : Bool)
        → IsPast uid n
            (if◌then◌else◌ {A = Table × Response} b
              (v, forbidden)
              (reset_row e caller (factor_of target.id v) v)).0
    at_head true = p
    at_head false = IsPast-reset_row e uid n target.id caller (factor_of target.id v) v refl p
