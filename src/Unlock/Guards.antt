-- ===== src/Unlock/Guards.antt =====
-- What each of the three guards lets through, and that no token passes two of them:
-- backend/middleware/auth.go, backend/handlers/vault_mfa.go and backend/handlers/secrets_unlock.go.
use commitkube.Base.{
  ◌∙◌, sym, ap, ℕ, ◌≡◌, ◌≢◌, refl, String, true, Option, none, some, arith, eq_iff, Option-cases,
  inl, inr,
}
use commitkube.Tokens.{
  ReadsPayload, Claims, Jwt, Locals, admit, auth_required, bearer, vault_session_key,
  secrets_ticket_key,
}
use commitkube.Vault.Factor.{Table, Factor, Env}
use commitkube.Vault.Access.{
  factor_of, is_enabled, guard_claims, vault_session_required, passed, backs,
}
use commitkube.Unlock.Ticket.{good, claims_problem, secrets_ticket_problem}

module _ (jwt : Jwt) (secret : String) where
  open jwt use {parse}

  admitted-claims :
      (o : Option Claims) (l : Locals)
      → admit jwt secret o ≡ some l
      → (c : Claims) × ((o ≡ some c) × (c.typ ≡ "access"))
  unfolding admit
  admitted-claims none l h = absurd (ground arith)
  admitted-claims (some c) l h = (c, (refl, ground (arith, eq_iff c.typ "access")))

  auth_required-claims :
      (now : ℕ) (header : String) (l : Locals)
      → auth_required jwt secret now header ≡ some l
      → (c : Claims) × ((parse secret now (bearer jwt secret header) ≡ some c) × (c.typ ≡ "access"))
  unfolding auth_required
  auth_required-claims now header l h =
      admitted-claims (parse secret now (bearer jwt secret header)) l (ground arith)

  -- What the vault's guard knows of a request that it lets through.
  pub record Backed (e : Env) (caller : ℕ) (header : String) (v : Table) (c : Claims) (f : Factor)
      : Type 0 where
    pub signed : parse (vault_session_key jwt secret) e.now header ≡ some c
    pub kind : c.typ ≡ "vault_session"
    pub own : c.uid ≡ caller
    pub known : caller ≢ 0
    pub row : factor_of caller v ≡ some f
    pub on : is_enabled f.enabled_at ≡ true
    pub same_generation : f.generation ≡ c.gen

  Backed-guard_claims :
      (e : Env) (caller : ℕ) (header : String) (v : Table) (o : Option Claims)
      (fresh : Option String)
      → parse (vault_session_key jwt secret) e.now header ≡ o
      → guard_claims jwt secret e caller o v ≡ passed fresh
      → (c : Claims) × ((f : Factor) × Backed e caller header v c f)
  unfolding guard_claims backs
  Backed-guard_claims e caller header v none fresh p h = absurd (ground arith)
  Backed-guard_claims e caller header v (some c) fresh p h =
      elim (Option-cases (factor_of caller v)) [
        | inl e ↦ absurd (ground arith)
        | inr (f, e) ↦ (
          c,
          (
            f,
            record {
              signed = p;
              kind = ground (arith, eq_iff c.typ "vault_session");
              own = ground arith;
              known = λ z. ground arith;
              row = e;
              on = ground arith;
              same_generation = ground arith;
            },
          ),
        )
      ]

  -- A request passes the vault guard only with a vault session that is signed for the caller and
  -- of the generation that his confirmed second factor has now.
  pub vault_session_required-Backed :
      (e : Env) (caller : ℕ) (header : String) (v : Table) (fresh : Option String)
      → vault_session_required jwt secret e caller header v ≡ passed fresh
      → (c : Claims) × ((f : Factor) × Backed e caller header v c f)
  unfolding vault_session_required
  vault_session_required-Backed e caller header v fresh h =
      Backed-guard_claims e caller header v (parse (vault_session_key jwt secret) e.now header)
        fresh refl (ground arith)

  secrets_ticket-claims :
      (now : ℕ) (l : Locals) (header : String)
      → secrets_ticket_problem jwt secret now l header ≡ good
      → (c : Claims) × ((parse (secrets_ticket_key jwt secret) now header ≡ some c)
          × ((c.typ ≡ "secrets_unlock")
              × ((c.uid ≡ l.user_id) × ((c.sid ≡ l.session_id) × (c.sid ≢ "")))))
  unfolding secrets_ticket_problem claims_problem
  secrets_ticket-claims now l header h =
      elim (Option-cases (parse (secrets_ticket_key jwt secret) now header)) [
        | inl e ↦ absurd (ground arith)
        | inr (c, e) ↦ (
          c,
          (
            e,
            (
              ground (arith, eq_iff c.typ "secrets_unlock"),
              (
                ground arith,
                (ground (arith, eq_iff c.sid l.session_id), λ z. ground (arith, eq_iff c.sid "")),
              ),
            ),
          ),
        )
      ]

  -- A token that opens a session, a vault, a cluster's secrets.
  pub IsAccess : String → Type 0
  IsAccess t =
      (now : ℕ) × ((header : String) × ((l : Locals) × ((bearer jwt secret header ≡ t)
            × (auth_required jwt secret now header ≡ some l))))

  pub IsVaultSession : String → Type 0
  IsVaultSession t =
      (e : Env) × ((caller : ℕ) × ((v : Table) × ((fresh : Option String) × (vault_session_required
                jwt secret e caller t v
              ≡ passed fresh))))

  pub IsTicket : String → Type 0
  IsTicket t = (now : ℕ) × ((l : Locals) × (secrets_ticket_problem jwt secret now l t ≡ good))

  -- What a token says it is, under some key, and nothing else.
  abbrev Says : String → String → Type 0
  Says t typ =
      (k : String) × ((now : ℕ) × ((c : Claims) × ((parse k now t ≡ some c) × (c.typ ≡ typ))))

  one_kind : ReadsPayload jwt → (t a b : String) → a ≢ b → Says t a → Says t b → ⊥
  one_kind reads t a b differ (k, (now, (c, (p, x)))) (k', (now', (c', (p', x')))) =
      differ (sym x ∙ ap (λ (d : Claims). d.typ) (reads k k' t now now' c c' p p') ∙ x')

  Says-IsAccess : (t : String) → IsAccess t → Says t "access"
  unfolding IsAccess
  Says-IsAccess t (now, (header, (l, (b, h)))) =
      let (c, (p, x)) = auth_required-claims now header l h in
      (secret, (now, (c, (ap (λ s. parse secret now s) (sym b) ∙ p, x))))

  Says-IsVaultSession : (t : String) → IsVaultSession t → Says t "vault_session"
  unfolding IsVaultSession
  Says-IsVaultSession t (e, (caller, (v, (fresh, h)))) =
      let (c, (f, k)) = vault_session_required-Backed e caller t v fresh h in
      (vault_session_key jwt secret, (e.now, (c, (k.signed, k.kind))))

  Says-IsTicket : (t : String) → IsTicket t → Says t "secrets_unlock"
  unfolding IsTicket
  Says-IsTicket t (now, (l, h)) =
      let (c, (p, (x, _))) = secrets_ticket-claims now l t h in
      (secrets_ticket_key jwt secret, (now, (c, (p, x))))

  -- Where the claims of a token stand in it whatever key it is checked with, no token opens two of
  -- the three: the API, the vault, and the secrets of a cluster.
  pub guards-apart :
      ReadsPayload jwt
      → (t : String)
      → (¬ (IsAccess t × IsVaultSession t))
        × ((¬ (IsAccess t × IsTicket t)) × (¬ (IsVaultSession t × IsTicket t)))
  guards-apart reads t = (
    λ (a, b).
        one_kind reads t "access" "vault_session" access_not_vault (Says-IsAccess t a)
          (Says-IsVaultSession t b),
    (
      λ (a, b).
          one_kind reads t "access" "secrets_unlock" access_not_ticket (Says-IsAccess t a)
            (Says-IsTicket t b),
      λ (a, b).
          one_kind reads t "vault_session" "secrets_unlock" vault_not_ticket
            (Says-IsVaultSession t a) (Says-IsTicket t b),
    ),
  )
    where
      access_not_vault : ◌≢◌ {A = String} "access" "vault_session"
      access_not_vault = ground (arith, eq_iff "access" "vault_session")

      access_not_ticket : ◌≢◌ {A = String} "access" "secrets_unlock"
      access_not_ticket = ground (arith, eq_iff "access" "secrets_unlock")

      vault_not_ticket : ◌≢◌ {A = String} "vault_session" "secrets_unlock"
      vault_not_ticket = ground (arith, eq_iff "vault_session" "secrets_unlock")
