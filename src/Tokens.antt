-- ===== src/Tokens.antt =====
-- The signed tokens: backend/middleware/auth.go, and the keys of backend/handlers/vault_mfa.go and
-- backend/handlers/secrets_unlock.go. Signing is golang-jwt's and HMAC's, a parameter here.
use commitkube.Base.{
  ◌≢◌, ◌<◌, ◌*◌, ◌*◌, ◌<◌, ℕ, String, Option, none, some, ◌=s◌, if◌then◌else◌, ◌≡◌, before_blank,
  after_blank,
}

abbrev pub second : ℕ
second = 1000000000

-- The claims that the code reads or writes; a claim that a token does not carry reads as the zero
-- value, as a failed type assertion leaves it. Account numbers are below 2 ^ 53, where float64 is
-- exact.
pub record Claims : Type 0 where
  pub typ : String
  pub user_id : ℕ
  pub role : String
  pub sid : String
  pub uid : ℕ
  pub gen : ℕ
  pub exp : Option ℕ  -- in seconds

-- golang-jwt with an HMAC method. `parse` is given the clock in nanoseconds, and answers only for a
-- token of that key whose `exp` has not come.
pub record Jwt : Type 0 where
  pub derive : String → String → String  -- HMAC of a label
  pub sign : String → Claims → Option String
  pub parse : String → ℕ → String → Option Claims

-- The claims stand in the token, whatever key it is checked with.
abbrev pub ReadsPayload : Jwt → Type 0
ReadsPayload jwt =
    (k k' t : String) (now now' : ℕ) (c c' : Claims)
    → jwt.parse k now t ≡ some c
    → jwt.parse k' now' t ≡ some c'
    → c ≡ c'

-- A signed token is a text, and parses under its key until it expires.
pub record IsLawful (jwt : Jwt) : Type 0 where
  pub not_empty : (k t : String) (c : Claims) → jwt.sign k c ≡ some t → t ≢ ""
  pub parses :
      (k t : String) (now exp : ℕ) (c : Claims)
      → c.exp ≡ some exp
      → now < exp * second
      → jwt.sign k c ≡ some t
      → jwt.parse k now t ≡ some c

-- What `AuthRequired` leaves in the request's locals.
pub record Locals : Type 0 where
  pub user_id : ℕ
  pub role : String
  pub session_id : String

module _ (jwt : Jwt) (secret : String) where
  open jwt use {derive, parse}

  abbrev pub vault_session_key : String
  vault_session_key = derive secret "commitkube-vault-session-v1"

  abbrev pub secrets_ticket_key : String
  secrets_ticket_key = derive secret "commitkube-secrets-unlock-v1"

  -- The token of the `Authorization` header; "" for none.
  unfoldable pub bearer : String → String
  bearer header = elim (after_blank header) [
    | none ↦ ""
    | some t ↦ elim (after_blank t) [
      | none ↦ if before_blank header =s "Bearer" then t else ""
      | some _ ↦ ""
    ]
  ]

  unfoldable pub admit : Option Claims → Option Locals
  admit none = none
  admit (some c) =
      if c.typ =s "access"
      then some (record { user_id = c.user_id; role = c.role; session_id = c.sid })
      else none

  -- `AuthRequired`: the locals, or `none` for a 401.
  unfoldable pub auth_required : ℕ → String → Option Locals
  auth_required now header =
      if bearer header =s "" then none else admit (parse secret now (bearer header))
