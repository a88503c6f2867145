-- ===== src/Findings/Store.antt =====
-- What the scans store and how it is read: openFindings, sortFindings, detailFindings and recountRepo
-- of backend/handlers/scan_findings.go, recordScanHistory of backend/handlers/scan_history.go.
use commitkube.Base.{
  ℕ, ◌+◌, String, Bool, true, false, not, Option, none, some, List, [], ◌∷◌, ◌++◌, ◌&&◌, ◌||◌, ◌==◌,
  ◌=s◌, ltb, if◌then◌else◌, find_first, any_where, select_where, update_where, sort_stable, map,
}
use commitkube.GitOps.Order.{text_less}
use commitkube.Findings.Finding.{
  Suppression, Finding, identity, domain_code, domain_image, secret, weakness,
}
use commitkube.Findings.Table.{Row, Table, is_of, is_resolved, finding_from_row, by_identity}
use commitkube.Findings.Report.{Report}
use commitkube.Findings.Suppress.{
  active_suppressions, apply_suppressions, count_findings, count_kind, count_suppressed,
}

-- The numbers of models.ScanResult and models.ScanHistory.
pub record Counts : Type 0 where
  pub critical : ℕ
  pub high : ℕ
  pub medium : ℕ
  pub low : ℕ

-- models.ScanResult; the reports are kept as they were read.
pub record Result : Type 0 where
  pub id : ℕ
  pub repo_name : String
  pub updated_at : ℕ
  pub code : Counts
  pub image : Counts
  pub secrets : ℕ
  pub weaknesses : ℕ
  pub suppressed : ℕ
  pub sast_scanned_at : Option ℕ
  pub sast_error : String
  pub code_scanned_at : Option ℕ
  pub report : Report
  pub scanned_image : String
  pub image_source : String
  pub image_report : Report
  pub image_error : String

-- models.ScanHistory; `sast` are the numbers of the static analysis, where it has run.
pub record Point : Type 0 where
  pub repo_name : String
  pub code : Counts
  pub image : Counts
  pub sast : Option Counts

pub record Audit : Type 0 where
  pub user_id : ℕ
  pub action : String
  pub resource : String
  pub vuln_id : String

pub record Store : Type 0 where
  pub repositories : List String
  pub findings : Table
  pub suppressions : List Suppression
  pub next_suppression : ℕ
  pub results : List Result
  pub history : List Point
  pub audit : List Audit

-- `repo_name = ? AND domain = ? AND resolved_at IS NULL`
unfoldable pub open_rows : String → String → Table → List Row
open_rows repo domain t =
    select_where (λ (r : Row). is_of repo domain r && not (is_resolved r)) t.rows

-- `rank`
unfoldable pub rank : String → ℕ
rank s =
    if s =s "CRITICAL"
    then 0
    else if s =s "HIGH"
    then 1
    else if s =s "MEDIUM"
    then 2
    else if s =s "LOW"
    then 3
    else 4

-- The order in which a person should read them.
unfoldable pub comes_before : Finding → Finding → Bool
comes_before a b =
    if not (a.suppressed && b.suppressed) && (a.suppressed || b.suppressed)
    then not a.suppressed
    else if not (rank a.severity == rank b.severity)
    then ltb (rank a.severity) (rank b.severity)
    else if not (a.kind =s b.kind)
    then text_less a.kind b.kind
    else if not (a.pkg =s b.pkg)
    then text_less a.pkg b.pkg
    else text_less a.vuln_id b.vuln_id

-- sortFindings
abbrev pub sort_findings : List Finding → List Finding
sort_findings = sort_stable comes_before

-- openFindings
unfoldable pub open_findings : ℕ → String → String → Store → List Finding
open_findings now repo domain s = sort_findings (
    apply_suppressions (map finding_from_row (open_rows repo domain s.findings))
      (active_suppressions now repo s.suppressions))

-- detailFinding, without what its finding says
pub record Detail : Type 0 where
  pub shown : Finding
  pub first_seen : ℕ
  pub last_seen : ℕ
  pub is_new : Bool

-- The row of an identity in the map; a missing one would read as a row without dates.
unfoldable pub detail_of : Finding → Option Row → Detail
detail_of f none = record { shown = f; first_seen = 0; last_seen = 0; is_new = true }
detail_of f (some r) = record {
  shown = f;
  first_seen = r.first_seen;
  last_seen = r.last_seen;
  is_new = r.first_seen == r.last_seen;
}

-- detailFindings
unfoldable pub detail_findings : ℕ → String → String → Store → List Detail
detail_findings now repo domain s =
    map (λ (f : Finding). detail_of f (by_identity (identity f) (open_rows repo domain s.findings)))
      (open_findings now repo domain s)

-- The four counts of countFindings that the columns take.
unfoldable pub tally : List Finding → Counts
tally rows = record {
  critical = count_findings "CRITICAL" rows;
  high = count_findings "HIGH" rows;
  medium = count_findings "MEDIUM" rows;
  low = count_findings "LOW" rows;
}

abbrev pub result_of : String → Store → Option Result
result_of repo s = find_first (λ (r : Result). r.repo_name =s repo) s.results

abbrev pub has_sast : String → Result → Bool
has_sast repo r = r.repo_name =s repo && elim r.sast_scanned_at [ none ↦ false | some t ↦ true ]

-- recordScanHistory
unfoldable pub record_scan_history : ℕ → String → Counts → Counts → Store → Store
record_scan_history now repo code image s =
    let weak =
      select_where (λ (f : Finding). f.kind =s weakness) (open_findings now repo domain_code s) in
    record s {
      history =
          s.history
          ++ record {
            repo_name = repo;
            code = code;
            image = image;
            sast = if any_where (has_sast repo) s.results then some (tally weak) else none;
          }
            ∷ [];
    }

unfoldable pub same_counts : Counts → Counts → Bool
same_counts a b =
    a.critical == b.critical && a.high == b.high && a.medium == b.medium && a.low == b.low

-- The columns of the `updates` map.
unfoldable pub recounted : List Finding → List Finding → Result → Result
recounted code image r = record r {
  code = tally code;
  image = tally image;
  secrets = count_kind secret code;
  weaknesses = count_kind weakness code;
  suppressed = count_suppressed code + count_suppressed image;
}

abbrev pub put_result : ℕ → (Result → Result) → Store → Store
put_result i change s = record s {
  results = update_where (λ (r : Result). r.id == i) change s.results;
}

-- A point of the history, where the numbers moved.
unfoldable pub note_change : ℕ → Result → Counts → Counts → Store → Store
note_change now r code image s =
    if same_counts r.code code && same_counts r.image image
    then s
    else record_scan_history now r.repo_name code image s

unfoldable pub recount_result : ℕ → String → Option Result → Store → Store
recount_result now repo none s = s
recount_result now repo (some r) s =
    let code = open_findings now repo domain_code s in
    let image = open_findings now repo domain_image s in
    note_change now (record r { repo_name = repo }) (tally code) (tally image)
      (put_result r.id (recounted code image) s)

-- recountRepo
unfoldable pub recount_repo : ℕ → String → Store → Store
recount_repo now repo s = recount_result now repo (result_of repo s) s
