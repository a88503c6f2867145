-- ===== src/Examples/Vault.antt =====
-- The vault's second factor of backend/handlers/vault_mfa.go on one row.
use mathlib.Core.Option.{some-injective}
use commitkube.Base.{◌∙◌}
use commitkube.Tokens.{Jwt, IsLawful, Claims}
use commitkube.Vault.Access.{
  issue_vault_session, hand_over, session_claims, session, passed, vault_session_required,
  verify_vault_mfa,
}
use commitkube.Vault.Sessions.{verify_vault_mfa-passes}
use commitkube.Base.{false, ◌=s◌, Bool, sym, ap, ◌&&◌, eq_iff}
use commitkube.Base.{
  update_where, count_where, is_space, without_blanks, trim_right, trim_left, clean, find_first, ℕ,
  ◌≡◌, ◌≢◌, refl, String, true, Option, none, some, [], ◌∷◌, ◌==◌, if◌then◌else◌, arith,
}
use commitkube.Vault.Factor.{
  steps, matches, find_step, spend_step, update_factor, settle_step, fail_vault_code, is_locked,
  Factor, Table, Env, accepted, wrong, locked, check_vault_code, log,
}
use commitkube.Vault.Access.{settle_verify, verify_row, verify_vault_mfa, refused, factor_of}
use commitkube.Vault.Replay.{done, check_vault_code-once}
use commitkube.Vault.Lockout.{WrongRun, no_wrong, one_more, verify, verify_vault_mfa-locked}

-- Every window has one code.
abbrev codes : String → ℕ → Option String
codes seed step = if step == 33 then some "333333" else some "000000"

abbrev plain : String → String
plain s = s

-- Signing is the identity of the account's kind, and parses nothing.
abbrev mute : Jwt
mute = record { derive = λ s l. l; sign = λ k c. some "session"; parse = λ k now t. none }

abbrev row : Factor
row = record {
  id = 1;
  user_id = 7;
  secret_enc = "seed";
  enabled_at = some 0;
  last_step = 0;
  failures = 0;
  locked_until = none;
  generation = 1;
}

abbrev one_row : Table
one_row = record { factors = row ∷ []; next_id = 2; audit = [] }

-- A thousand seconds after the epoch, which is in window 33.
abbrev morning : Env
morning = record { now = 1000000000000; update_ok = true; sign_ok = true }

abbrev later : Env
later = record { now = 1001000000000; update_ok = true; sign_ok = true }

first_is_accepted : (check_vault_code plain codes morning row " 333 333" one_row).0 ≡ accepted
unfolding check_vault_code is_locked fail_vault_code settle_step spend_step find_step matches steps
    clean trim_left trim_right without_blanks is_space count_where
first_is_accepted = refl

check_vault_code-once_example :
    (check_vault_code plain codes later row " 333 333"
      (check_vault_code plain codes morning row " 333 333" one_row).1).0
    ≢ accepted
check_vault_code-once_example =
    check_vault_code-once plain codes morning later row row " 333 333" one_row
      (check_vault_code plain codes morning row " 333 333" one_row).1 refl refl refl
      first_is_accepted done

-- The answer to a wrong code, whatever the count of failures.
abbrev try_wrong : Table → Table
try_wrong v = (verify plain codes mute "secret" 7 morning "111111" v).0

abbrev four_tries : Table
four_tries = try_wrong (try_wrong (try_wrong (try_wrong one_row)))

wrong_run : WrongRun plain codes mute "secret" 7 4 one_row four_tries
unfolding verify_vault_mfa verify_row settle_verify log check_vault_code is_locked fail_vault_code
    update_factor settle_step spend_step find_step matches steps clean trim_left trim_right
    without_blanks is_space count_where find_first update_where
wrong_run =
    one_more morning "111111"
      (one_more morning "111111"
        (one_more morning "111111" (one_more morning "111111" no_wrong refl refl) refl refl) refl
        refl)
      refl refl

fifth_is_wrong : (verify plain codes mute "secret" 7 morning "111111" four_tries).1 ≡ refused wrong
unfolding verify_vault_mfa verify_row settle_verify log check_vault_code is_locked fail_vault_code
    update_factor settle_step spend_step find_step matches steps clean trim_left trim_right
    without_blanks is_space count_where find_first update_where
fifth_is_wrong = refl

row_of_seven : factor_of 7 one_row ≡ some row
unfolding find_first
row_of_seven = refl

verify_vault_mfa-locked_example :
    verify plain codes mute "secret" 7 later "333333"
      (verify plain codes mute "secret" 7 morning "111111" four_tries).0
    ≡ (
      log 7 "vault_mfa_failed" (verify plain codes mute "secret" 7 morning "111111" four_tries).0,
      refused locked,
    )
verify_vault_mfa-locked_example =
    verify_vault_mfa-locked plain codes mute "secret" 7 row one_row four_tries morning later
      "111111" "333333" row_of_seven refl wrong_run refl fifth_is_wrong (omega arith)

-- A signer of one session's claims.
abbrev the_claims : Claims
the_claims = session_claims mute "secret" 1000000000000 7 1

abbrev is_end : Option ℕ → Bool
is_end none = false
is_end (some t) = t == 1900

abbrev are_the_claims : Claims → Bool
are_the_claims c =
    c.typ =s "vault_session"
    && c.user_id == 0
    && c.role =s ""
    && c.sid =s ""
    && c.uid == 7
    && c.gen == 1
    && is_end c.exp

abbrev one_session : Jwt
one_session = record {
  derive = λ s l. l;
  sign = λ k c. if are_the_claims c then some "session" else none;
  parse = λ k now t. some the_claims;
}

is_end-some : (o : Option ℕ) → is_end o ≡ true → o ≡ some 1900
is_end-some none h = absurd (ground arith)
is_end-some (some t) h = ground arith

the_claims-only : (c : Claims) → are_the_claims c ≡ true → the_claims ≡ c
the_claims-only c h = sym (λ i. record {
  typ = typ_same i;
  user_id = user_id_same i;
  role = role_same i;
  sid = sid_same i;
  uid = uid_same i;
  gen = gen_same i;
  exp = exp_same i;
})
  where
    typ_same : c.typ ≡ "vault_session"
    typ_same = ground (arith, eq_iff c.typ "vault_session")

    user_id_same : c.user_id ≡ 0
    user_id_same = ground arith

    role_same : c.role ≡ ""
    role_same = ground (arith, eq_iff c.role "")

    sid_same : c.sid ≡ ""
    sid_same = ground (arith, eq_iff c.sid "")

    uid_same : c.uid ≡ 7
    uid_same = ground arith

    gen_same : c.gen ≡ 1
    gen_same = ground arith

    exp_same : c.exp ≡ some 1900
    exp_same = is_end-some c.exp (ground arith)

one_session-IsLawful : IsLawful one_session
one_session-IsLawful = record {
  not_empty = λ k t c h e. not_blank (are_the_claims c) t h e;
  parses = λ k t now exp c e early h. ap some (the_claims-only c (signed_once t c h));
}
  where
    session_text : ◌≢◌ {A = String} "session" ""
    session_text = ground (arith, eq_iff "session" "")

    not_blank : (b : Bool) (t : String) → (if b then some "session" else none) ≡ some t → t ≢ ""
    not_blank true t h e = session_text (some-injective "session" t h ∙ e)
    not_blank false t h e = absurd (ground arith)

    signed_once :
        (t : String) (c : Claims)
        → (if are_the_claims c then some "session" else none) ≡ some t
        → are_the_claims c ≡ true
    signed_once t c h = ground arith

traded :
    (verify_vault_mfa one_session "secret" plain codes morning 7 "333333" one_row).1
    ≡ session "session"
unfolding verify_vault_mfa verify_row settle_verify hand_over issue_vault_session log
    check_vault_code is_locked fail_vault_code settle_step spend_step find_step matches steps clean
    trim_left trim_right without_blanks is_space count_where find_first update_where
traded = refl

someone : ◌≢◌ {A = ℕ} 7 0
someone = omega arith

verify_vault_mfa-passes_example :
    (fresh : Option String) × (vault_session_required one_session "secret" later 7 "session"
        (verify_vault_mfa one_session "secret" plain codes morning 7 "333333" one_row).0
      ≡ passed fresh)
verify_vault_mfa-passes_example =
    verify_vault_mfa-passes plain codes one_session "secret" morning later 7 "333333" "session"
      one_row one_session-IsLawful someone (omega arith) traded
