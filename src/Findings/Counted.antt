-- ===== src/Findings/Counted.antt =====
-- The numbers of a result, counted in the rows: recounted and tally of recountRepo in
-- backend/handlers/scan_findings.go.
use commitkube.Findings.Table.{Row, finding_from_row}
use commitkube.Findings.Suppress.{count_findings, count_kind, marked}
use commitkube.Findings.Standing.{unwaived, waived, count-unwaived, count-waived}
use commitkube.Base.{ℕ, ◌≡◌, refl, ap₂, String, Option, none, some, ◌=s◌, ◌&&◌, arith, not, ◌+◌}
use commitkube.Findings.Finding.{Suppression, Finding}
use commitkube.Findings.Store.{Store, Counts, Result, open_findings, tally, recounted}

-- The four counts are those of the rows that stand and that no decision in force is about.
pub record IsTally (now : ℕ) (repo : String) (s : Store) (domain : String) (c : Counts)
    : Type 0 where
  pub critical : c.critical ≡ unwaived now repo s domain (λ (r : Row). r.severity =s "CRITICAL")
  pub high : c.high ≡ unwaived now repo s domain (λ (r : Row). r.severity =s "HIGH")
  pub medium : c.medium ≡ unwaived now repo s domain (λ (r : Row). r.severity =s "MEDIUM")
  pub low : c.low ≡ unwaived now repo s domain (λ (r : Row). r.severity =s "LOW")

-- The numbers of a result, counted in the rows; its other columns are those of the old one.
pub record IsCounted (now : ℕ) (repo : String) (s : Store) (r u : Result) : Type 0 where
  pub code : IsTally now repo s "code" u.code
  pub image : IsTally now repo s "image" u.image
  pub secrets : u.secrets ≡ unwaived now repo s "code" (λ (x : Row). x.kind =s "secret")
  pub weaknesses : u.weaknesses ≡ unwaived now repo s "code" (λ (x : Row). x.kind =s "weakness")
  pub suppressed : u.suppressed ≡ waived now repo s "code" + waived now repo s "image"
  pub rest : u ≡ record r {
    code = u.code;
    image = u.image;
    secrets = u.secrets;
    weaknesses = u.weaknesses;
    suppressed = u.suppressed;
  }

module _ (now : ℕ) (repo : String) (s : Store) where
  count-severity :
      (domain severity : String)
      → count_findings severity (open_findings now repo domain s)
        ≡ unwaived now repo s domain (λ (r : Row). r.severity =s severity)
  unfolding marked finding_from_row
  count-severity domain severity =
      count-unwaived now repo s domain (λ (f : Finding). not f.suppressed && f.severity =s severity)
        (λ (r : Row). r.severity =s severity) (λ o r. at_mark o r)
    where
      at_mark :
          (o : Option Suppression) (r : Row)
          → (not (marked o (finding_from_row r)).suppressed
              && (marked o (finding_from_row r)).severity =s severity)
            ≡ (not (marked o (finding_from_row r)).suppressed && r.severity =s severity)
      at_mark none r = refl
      at_mark (some d) r = refl

  count_kind-unwaived :
      (domain kind : String)
      → count_kind kind (open_findings now repo domain s)
        ≡ unwaived now repo s domain (λ (r : Row). r.kind =s kind)
  unfolding marked finding_from_row
  count_kind-unwaived domain kind =
      count-unwaived now repo s domain (λ (f : Finding). f.kind =s kind && not f.suppressed)
        (λ (r : Row). r.kind =s kind) (λ o r. at_mark o r)
    where
      at_mark :
          (o : Option Suppression) (r : Row)
          → ((marked o (finding_from_row r)).kind =s kind
              && not (marked o (finding_from_row r)).suppressed)
            ≡ (not (marked o (finding_from_row r)).suppressed && r.kind =s kind)
      at_mark none r = ground arith
      at_mark (some d) r = ground arith

  tally-IsTally :
      (domain : String) → IsTally now repo s domain (tally (open_findings now repo domain s))
  unfolding tally
  tally-IsTally domain = record {
    critical = count-severity domain "CRITICAL";
    high = count-severity domain "HIGH";
    medium = count-severity domain "MEDIUM";
    low = count-severity domain "LOW";
  }

  pub recounted-IsCounted :
      (r : Result)
      → IsCounted now repo s r
          (recounted (open_findings now repo "code" s) (open_findings now repo "image" s) r)
  unfolding recounted
  recounted-IsCounted r = record {
    code = tally-IsTally "code";
    image = tally-IsTally "image";
    secrets = count_kind-unwaived "code" "secret";
    weaknesses = count_kind-unwaived "code" "weakness";
    suppressed =
        ap₂ (λ a b. a + b) (count-waived now repo s "code") (count-waived now repo s "image");
    rest = refl;
  }
