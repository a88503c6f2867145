-- ===== src/Findings/Finding.antt =====
-- The findings of backend/handlers/scan_findings.go and their identity.
use commitkube.Base.{
  ap₂, =s_self, ℕ, String, Bool, true, Option, ◌≡◌, ◌&&◌, ◌==◌, ◌=s◌, if◌then◌else◌, arith, =s_true,
}

-- models.ScanSuppression, without who made it and when
pub record Suppression : Type 0 where
  pub id : ℕ
  pub repo_name : String
  pub vuln_id : String
  pub pkg : String
  pub reason : String
  pub note : String
  pub created_by : ℕ
  pub expires_at : Option ℕ

-- finding; `suppression` is set exactly where `suppressed` is
pub record Finding : Type 0 where
  pub domain : String
  pub kind : String
  pub target : String
  pub vuln_id : String
  pub pkg : String
  pub line : ℕ
  pub version : String
  pub fixed : String
  pub severity : String
  pub title : String
  pub cwe : String
  pub suppressed : Bool
  pub suppression : Option Suppression

pub record Identity : Type 0 where
  pub domain : String
  pub kind : String
  pub target : String
  pub vuln_id : String
  pub pkg : String
  pub line : ℕ

abbrev pub domain_code : String
domain_code = "code"

abbrev pub domain_image : String
domain_image = "image"

abbrev pub vulnerability : String
vulnerability = "vulnerability"

abbrev pub misconfiguration : String
misconfiguration = "misconfiguration"

abbrev pub secret : String
secret = "secret"

abbrev pub weakness : String
weakness = "weakness"

-- A weakness is placed by the fingerprint in `pkg`; its line moves.
unfoldable pub placed_line : String → ℕ → ℕ
placed_line kind line = if kind =s weakness then 0 else line

unfoldable pub identity : Finding → Identity
identity f = record {
  domain = f.domain;
  kind = f.kind;
  target = f.target;
  vuln_id = f.vuln_id;
  pkg = f.pkg;
  line = placed_line f.kind f.line;
}

-- `==` on the keys of the maps
abbrev pub same_identity : Identity → Identity → Bool
same_identity a b =
    a.domain =s b.domain
    && a.kind =s b.kind
    && a.target =s b.target
    && a.vuln_id =s b.vuln_id
    && a.pkg =s b.pkg
    && a.line == b.line

pub same_identity-true : (a b : Identity) → same_identity a b ≡ true → a ≡ b
same_identity-true a b e =
    ap₂
      (λ (x : (String × String) × String) (y : (String × String) × ℕ). record {
        domain = x.0.0;
        kind = x.0.1;
        target = x.1;
        vuln_id = y.0.0;
        pkg = y.0.1;
        line = y.1;
      })
      (ap₂ (λ u v. (u, v))
        (ap₂ (λ u v. (u, v)) (ground (arith, =s_true a.domain b.domain))
          (ground (arith, =s_true a.kind b.kind)))
        (ground (arith, =s_true a.target b.target)))
      (ap₂ (λ u v. (u, v))
        (ap₂ (λ u v. (u, v)) (ground (arith, =s_true a.vuln_id b.vuln_id))
          (ground (arith, =s_true a.pkg b.pkg)))
        (ground arith))

pub same_identity_self : (a : Identity) → same_identity a a ≡ true
same_identity_self a =
    rw (=s_self a.domain)
      (rw (=s_self a.kind) (ground (arith, =s_self a.target, =s_self a.vuln_id, =s_self a.pkg)))
