-- ===== src/Vault/Sessions.antt =====
-- A code traded for a vault session opens the vault: backend/handlers/vault_mfa.go.
use commitkube.Vault.Keeping.{Keeps, Keeps-log, Keeps-check_vault_code}
use commitkube.Tokens.{Jwt, IsLawful, Claims, second, vault_session_key}
use commitkube.Vault.Access.{
  close_to_end, verify_vault_mfa, verify_row, settle_verify, session, hand_over, is_enabled,
  Response, session_ttl, session_claims, issue_vault_session, vault_session_required, guard_claims,
  backs, passed, set_up_first,
}
use commitkube.Base.{=s_ne, ◌∙◌, subst, sym, ◌≢◌, ◌<◌, ◌*◌, ◌/◌}
use commitkube.Base.{
  ℕ, ◌+◌, ◌≡◌, refl, ap, String, Bool, true, false, not, Option, none, some, ◌==◌, ◌=s◌,
  if◌then◌else◌, arith,
}
use commitkube.Vault.Factor.{
  Factor, Table, Env, Verdict, accepted, locked, already_used, wrong, log, check_vault_code,
}
use commitkube.Vault.Access.{factor_of}

module _ (decrypt : String → String) (totp : String → ℕ → Option String) where
  module _ (jwt : Jwt) (secret : String) where
    -- What a session is issued on.
    pub record Issued (e : Env) (uid : ℕ) (t : String) (f : Factor) : Type 0 where
      pub on : is_enabled f.enabled_at ≡ true
      pub signed :
          jwt.sign (vault_session_key jwt secret) (session_claims jwt secret e.now uid f.generation)
          ≡ some t

    Issued-issue :
        (e : Env) (uid generation : ℕ) (t : String)
        → issue_vault_session jwt secret e uid generation ≡ some t
        → jwt.sign (vault_session_key jwt secret) (session_claims jwt secret e.now uid generation)
          ≡ some t
    unfolding issue_vault_session
    Issued-issue e uid generation t h = ground arith

    hand_over-session :
        (uid : ℕ) (o : Option String) (v : Table) (t : String)
        → (hand_over jwt secret decrypt totp uid o v).1 ≡ session t
        → (o ≡ some t) × ((hand_over jwt secret decrypt totp uid o v).0 ≡ log uid "vault_unlock" v)
    unfolding hand_over
    hand_over-session uid none v t h = absurd (ground arith)
    hand_over-session uid (some s) v t h = (ground arith, refl)

    settle_verify-session :
        (e : Env) (uid : ℕ) (f : Factor) (p : Verdict × Table) (t : String)
        → (settle_verify jwt secret decrypt totp e uid f p).1 ≡ session t
        → (issue_vault_session jwt secret e uid f.generation ≡ some t)
          × ((settle_verify jwt secret decrypt totp e uid f p).0 ≡ log uid "vault_unlock" p.1)
    unfolding settle_verify
    settle_verify-session e uid f (accepted, v) t h = hand_over-session uid _ v t h
    settle_verify-session e uid f (locked, v) t h = absurd (ground arith)
    settle_verify-session e uid f (already_used, v) t h = absurd (ground arith)
    settle_verify-session e uid f (wrong, v) t h = absurd (ground arith)

    verify_row-session :
        (e : Env) (uid : ℕ) (code : String) (o : Option Factor) (v : Table) (t : String)
        → factor_of uid v ≡ o
        → (verify_row jwt secret decrypt totp e uid code o v).1 ≡ session t
        → (f : Factor) × (Issued e uid t f
            × Keeps uid f (verify_row jwt secret decrypt totp e uid code o v).0)
    unfolding verify_row
    verify_row-session e uid code none v t at h = absurd (ground arith)
    verify_row-session e uid code (some f) v t at h = at_head (is_enabled f.enabled_at) refl h
      where
        checked : Verdict × Table
        checked = check_vault_code decrypt totp e f code v

        settled : Table × Response
        settled = settle_verify jwt secret decrypt totp e uid f checked

        at_head :
            (b : Bool)
            → is_enabled f.enabled_at ≡ b
            → (if◌then◌else◌ {A = Table × Response} (not b) (v, set_up_first) settled).1 ≡ session t
            → (g : Factor) × (Issued e uid t g
                × Keeps uid g
                    (if◌then◌else◌ {A = Table × Response} (not b) (v, set_up_first) settled).0)
        at_head false i k = absurd (ground arith)
        at_head true i k =
            let (issue, left) = settle_verify-session e uid f checked t k in
            (
              f,
              (
                record { on = i; signed = Issued-issue e uid f.generation t issue },
                subst (Keeps uid f) (sym left) (
                    Keeps-log uid uid "vault_unlock" f checked.1 (
                      Keeps-check_vault_code decrypt totp e uid f f code v
                        (record { row = f; found = at; same_on = refl; same_generation = refl }))),
              ),
            )

    -- The guard lets the claims of a session through where the row backs them.
    guard_claims-passed :
        (e : Env) (uid : ℕ) (c : Claims) (v : Table) (row : Factor)
        → (c.typ =s "vault_session") ≡ true
        → uid ≢ 0
        → (c.uid == uid) ≡ true
        → factor_of uid v ≡ some row
        → is_enabled row.enabled_at ≡ true
        → (row.generation == c.gen) ≡ true
        → (fresh : Option String) × (guard_claims jwt secret e uid (some c) v ≡ passed fresh)
    unfolding guard_claims backs
    guard_claims-passed e uid c v row kind someone own there on same = (
      if close_to_end jwt secret e.now c.exp
          then issue_vault_session jwt secret e uid c.gen
          else none,
      ground arith,
    )

    passes-guard :
        (e e' : Env) (uid : ℕ) (t : String) (f : Factor) (v : Table)
        → IsLawful jwt
        → uid ≢ 0
        → e'.now < (e.now + session_ttl) / second * second
        → Issued e uid t f
        → Keeps uid f v
        → (fresh : Option String) × (vault_session_required jwt secret e' uid t v ≡ passed fresh)
    unfolding vault_session_required
    passes-guard e e' uid t f v lawful someone in_time i k =
        let c : Claims = session_claims jwt secret e.now uid f.generation in
        let parsed : jwt.parse (vault_session_key jwt secret) e'.now t ≡ some c =
          lawful.parses _ t e'.now ((e.now + session_ttl) / second) c refl in_time i.signed in
        let (fresh, h) =
          guard_claims-passed e' uid c v k.row refl someone (ground arith) k.found
            (ap is_enabled k.same_on ∙ i.on) (ground (arith, k.same_generation)) in
        (fresh, rw (=s_ne t "" (lawful.not_empty _ t c i.signed)) (rw parsed h))

    -- A vault session that a code was traded for is let through by the guard of the vault for the
    -- one who typed it, until the whole second at which it ends; signed tokens are texts and parse
    -- under their key until they expire, and the account has a number.
    pub verify_vault_mfa-passes :
        (e e' : Env) (uid : ℕ) (code t : String) (v : Table)
        → IsLawful jwt
        → uid ≢ 0
        → e'.now < (e.now + session_ttl) / second * second
        → (verify_vault_mfa jwt secret decrypt totp e uid code v).1 ≡ session t
        → (fresh : Option String) × (vault_session_required jwt secret e' uid t
              (verify_vault_mfa jwt secret decrypt totp e uid code v).0
            ≡ passed fresh)
    unfolding verify_vault_mfa
    verify_vault_mfa-passes e e' uid code t v lawful someone in_time h =
        let (f, (i, k)) = verify_row-session e uid code (factor_of uid v) v t refl h in
        passes-guard e e' uid t f _ lawful someone in_time i k
