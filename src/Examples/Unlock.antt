-- ===== src/Examples/Unlock.antt =====
-- Tickets and guards of backend/handlers/secrets_unlock.go at concrete tokens.
use commitkube.Base.{
  is_space, without_blanks, trim_right, trim_left, clean, find_first, ℕ, ◌≡◌, refl, sym, ◌∙◌,
  String, true, false, Option, none, some, [], ◌∷◌, ◌==◌, if◌then◌else◌,
}
use mathlib.Core.Option.{some-injective}
use commitkube.Tokens.{Jwt, Claims, ReadsPayload}
use commitkube.Vault.Factor.{steps, matches, find_step, Factor, Table, Env}
use commitkube.Vault.Access.{close_to_end, backs, guard_claims, vault_session_required, passed}
use commitkube.Unlock.Ticket.{last_used, use_step, Person, State, check_sign_in_code}
use commitkube.Unlock.Once.{done, check_sign_in_code-once}
use commitkube.Unlock.Guards.{
  guards-apart, IsAccess, IsVaultSession, IsTicket, Backed, vault_session_required-Backed,
}

abbrev codes : String → ℕ → Option String
codes seed step = if step == 33 then some "333333" else some "000000"

abbrev ann : Person
ann = record { id = 7; password_hash = "hash"; mfa_secret = "seed" }

abbrev nothing_used : State
nothing_used = record { used_steps = []; audit = [] }

first_unlocks : (check_sign_in_code codes 1000000000000 ann "333333" nothing_used).0 ≡ true
unfolding check_sign_in_code use_step last_used find_step matches steps clean trim_left trim_right
    without_blanks is_space
first_unlocks = refl

check_sign_in_code-once_example :
    (check_sign_in_code codes 1001000000000 ann "333333"
      (check_sign_in_code codes 1000000000000 ann "333333" nothing_used).1).0
    ≡ false
check_sign_in_code-once_example =
    check_sign_in_code-once codes 1000000000000 1001000000000 ann "333333" nothing_used
      (check_sign_in_code codes 1000000000000 ann "333333" nothing_used).1 refl first_unlocks done

-- The claims of every token: a vault session of account 7.
abbrev claims : Claims
claims = record {
  typ = "vault_session";
  user_id = 0;
  role = "";
  sid = "";
  uid = 7;
  gen = 1;
  exp = none;
}

abbrev one_kind : Jwt
one_kind = record { derive = λ s l. l; sign = λ k c. some "token"; parse = λ k now t. some claims }

one_kind-ReadsPayload : ReadsPayload one_kind
one_kind-ReadsPayload k k' t now now' c c' h h' =
    sym (some-injective claims c h) ∙ some-injective claims c' h'

guards-apart_example :
    (¬ (IsAccess one_kind "secret" "token" × IsVaultSession one_kind "secret" "token"))
    × ((¬ (IsAccess one_kind "secret" "token" × IsTicket one_kind "secret" "token"))
        × (¬ (IsVaultSession one_kind "secret" "token" × IsTicket one_kind "secret" "token")))
guards-apart_example = guards-apart one_kind "secret" one_kind-ReadsPayload "token"

abbrev row : Factor
row = record {
  id = 1;
  user_id = 7;
  secret_enc = "seed";
  enabled_at = some 0;
  last_step = 0;
  failures = 0;
  locked_until = none;
  generation = 1;
}

abbrev one_row : Table
one_row = record { factors = row ∷ []; next_id = 2; audit = [] }

abbrev noon : Env
noon = record { now = 0; update_ok = true; sign_ok = true }

passes : vault_session_required one_kind "secret" noon 7 "token" one_row ≡ passed none
unfolding vault_session_required guard_claims backs close_to_end find_first
passes = refl

vault_session_required-Backed_example :
    (c : Claims) × ((f : Factor) × Backed one_kind "secret" noon 7 "token" one_row c f)
vault_session_required-Backed_example =
    vault_session_required-Backed one_kind "secret" noon 7 "token" one_row none passes
