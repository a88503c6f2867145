-- ===== src/Examples/Resets.antt =====
-- A reset of backend/handlers/vault_mfa.go, and a new code set up after it.
use commitkube.Base.{
  count_where, is_space, without_blanks, trim_right, trim_left, clean, update_where, if◌then◌else◌,
  ℕ, ◌≡◌, ◌≢◌, ◌≤◌, refl, String, true, Option, none, some, [], ◌∷◌, ◌==◌, arith, find_first,
}
use commitkube.Tokens.{Jwt, Claims}
use commitkube.Vault.Factor.{
  steps, matches, find_step, spend_step, settle_step, fail_vault_code, is_locked, check_vault_code,
  log, update_factor, Factor, Table, Env,
}
use commitkube.Vault.Access.{
  settle_confirm, confirm_row, draw_seed, save, settle_setup, setup_row, reset_row, factor_of,
  Person, setup_vault_mfa, confirm_vault_mfa, reset_user_vault_mfa, passed, vault_session_required,
}
use commitkube.Vault.Keys.{IsKeyed}
use commitkube.Vault.Resets.{
  Reach, here, next, setting_up, confirming, reset_user_vault_mfa-ends_sessions,
}

abbrev codes : String → ℕ → Option String
codes seed step = if step == 33 then some "333333" else some "000000"

abbrev plain : String → String
plain s = s

abbrev row : Factor
row = record {
  id = 1;
  user_id = 7;
  secret_enc = "seed";
  enabled_at = some 0;
  last_step = 0;
  failures = 0;
  locked_until = none;
  generation = 1;
}

abbrev one_row : Table
one_row = record { factors = row ∷ []; next_id = 2; audit = [] }

one_row-IsKeyed : IsKeyed one_row
one_row-IsKeyed = record { distinct = (tt, tt); below = ((refl, omega arith), tt); next = refl }

abbrev root : Person
root = record { id = 1; role = "root"; mfa_secret = "" }

abbrev ann : Person
ann = record { id = 7; role = "user"; mfa_secret = "sign-in" }

-- A session of the first generation.
abbrev old : Claims
old = record {
  typ = "vault_session";
  user_id = 0;
  role = "";
  sid = "";
  uid = 7;
  gen = 1;
  exp = none;
}

abbrev reads_old : Jwt
reads_old = record { derive = λ s l. l; sign = λ k c. some "new"; parse = λ k now t. some old }

abbrev morning : Env
morning = record { now = 1000000000000; update_ok = true; sign_ok = true }

abbrev after_reset : Table
after_reset = (reset_user_vault_mfa morning (some root) (some ann) one_row).0

abbrev seeded_again : Table
seeded_again = (setup_vault_mfa plain morning 7 (some ann) (some "new seed" ∷ []) after_reset).0

abbrev confirmed_again : Table
confirmed_again =
    (confirm_vault_mfa reads_old "secret" plain codes morning 7 "333333" seeded_again).0

run : Reach plain plain codes reads_old "secret" after_reset confirmed_again
run =
    next (next here (setting_up morning 7 (some ann) (some "new seed" ∷ [])))
      (confirming morning 7 "333333")

row_of_ann : factor_of 7 one_row ≡ some row
unfolding find_first
row_of_ann = refl

-- The new code is on, in the second generation.
confirmed_run :
    factor_of 7 confirmed_again
    ≡ some (record row {
      secret_enc = "new seed";
      enabled_at = some 1000000000000;
      last_step = 33;
      generation = 2;
    })
unfolding find_first reset_user_vault_mfa reset_row update_factor update_where log setup_vault_mfa
    setup_row settle_setup save draw_seed confirm_vault_mfa confirm_row settle_confirm
    check_vault_code is_locked fail_vault_code settle_step spend_step find_step matches steps clean
    trim_left trim_right without_blanks is_space count_where
confirmed_run = refl

one_le_one : 1 ≤ 1
one_le_one = omega arith

reset_user_vault_mfa-ends_sessions_example :
    vault_session_required reads_old "secret" morning 7 "old" confirmed_again ≢ passed none
reset_user_vault_mfa-ends_sessions_example =
    reset_user_vault_mfa-ends_sessions plain plain codes reads_old "secret" morning morning root ann
      row one_row confirmed_again "old" old none one_row-IsKeyed row_of_ann refl refl run refl
      one_le_one
