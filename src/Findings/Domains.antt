-- ===== src/Findings/Domains.antt =====
-- The domain of the findings that a pass of backend/handlers/scan.go writes.
use commitkube.Base.{ℕ, ◌≡◌, String, Option, none, some, List, [], ◌∷◌, ◌++◌, All-append, map}
use commitkube.Findings.Finding.{Suppression, Finding, identity, domain_code, domain_image}
use commitkube.Findings.Walk.{InDomain}
use commitkube.Findings.Report.{findings_from_report, findings_from_report-InDomain}
use commitkube.Findings.Suppress.{
  apply_suppressions, active_suppressions, decide, marked, best_from, about_vuln,
}
use commitkube.Findings.Store.{Store}
use commitkube.Findings.Scan.{ImageScan, scanned, failed, Scan, sast_rows, code_rows, image_rows}

marked-InDomain :
    (domain : String) (o : Option Suppression) (f : Finding)
    → (identity f).domain ≡ domain
    → (identity (marked o f)).domain ≡ domain
unfolding marked identity
marked-InDomain domain none f d = d
marked-InDomain domain (some s) f d = d

decide-InDomain :
    (domain : String) (sups : List Suppression) (rows : List Finding)
    → InDomain domain rows
    → InDomain domain (map (decide sups) rows)
unfolding decide
decide-InDomain domain sups [] ds = tt
decide-InDomain domain sups (f ∷ rows) ds = (
  marked-InDomain domain (best_from f none (about_vuln f.vuln_id sups)) f ds.0,
  decide-InDomain domain sups rows ds.1,
)

apply_suppressions-InDomain :
    (domain : String) (sups : List Suppression) (rows : List Finding)
    → InDomain domain rows
    → InDomain domain (apply_suppressions rows sups)
unfolding apply_suppressions
apply_suppressions-InDomain domain [] rows ds = ds
apply_suppressions-InDomain domain (s ∷ sups) rows ds = decide-InDomain domain (s ∷ sups) rows ds

pub code_rows-InDomain :
    (now : ℕ) (repo : String) (x : Scan) (s : Store)
    → InDomain domain_code (sast_rows x.analysis)
    → InDomain domain_code (code_rows now repo x s)
unfolding code_rows
code_rows-InDomain now repo x s ds =
    apply_suppressions-InDomain domain_code (active_suppressions now repo s.suppressions)
      (findings_from_report x.report domain_code ++ sast_rows x.analysis)
      (All-append (λ (f : Finding). (identity f).domain ≡ domain_code)
        (findings_from_report x.report domain_code) (sast_rows x.analysis)
        (findings_from_report-InDomain x.report domain_code) ds)

pub image_rows-InDomain :
    (now : ℕ) (repo : String) (x : ImageScan) (s : Store)
    → InDomain domain_image (image_rows now repo x s)
unfolding image_rows
image_rows-InDomain now repo (failed e) s = tt
image_rows-InDomain now repo (scanned r image source) s =
    apply_suppressions-InDomain domain_image (active_suppressions now repo s.suppressions)
      (findings_from_report r domain_image) (findings_from_report-InDomain r domain_image)
