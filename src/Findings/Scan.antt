-- ===== src/Findings/Scan.antt =====
-- What a pass of the scanner writes: the end of runScan, from its findings on, of
-- backend/handlers/scan.go. The clone, the scanners and the mail server are not under src/: what
-- they gave is the argument, and what the pass would send is its answer.
use commitkube.Base.{
  ℕ, ◌+◌, String, Bool, true, not, Option, none, some, List, [], ◌∷◌, ◌++◌, ◌&&◌, ◌||◌, ◌=s◌, ltb,
  select_where,
}
use commitkube.Findings.Finding.{
  Finding, domain_code, domain_image, secret, weakness, vulnerability,
}
use commitkube.Findings.Table.{Table, reconcile}
use commitkube.Findings.Report.{Report, findings_from_report}
use commitkube.Findings.Suppress.{
  active_suppressions, apply_suppressions, count_findings, count_kind, count_suppressed,
}
use commitkube.Findings.Store.{
  Store, Result, Counts, open_findings, tally, result_of, put_result, record_scan_history,
}

-- Static analysis that ran, or why not.
pub data Analysis : Type 0 where
  ran : List Finding → Analysis
  skipped : String → Analysis

-- resolveImageScan: the report, the image and where its name is from; or why there is none.
pub data ImageScan : Type 0 where
  scanned : Report → String → String → ImageScan
  failed : String → ImageScan

pub record Scan : Type 0 where
  pub report : Report
  pub analysis : Analysis
  pub image : ImageScan
  pub manual : Bool

-- What the pass would tell: whether to mail, and the notices.
pub record Told : Type 0 where
  pub mail : Bool
  pub secret_notice : Bool
  pub critical_notice : Bool
  pub critical_found : List Finding
  pub new_findings : ℕ

abbrev pub sast_rows : Analysis → List Finding
sast_rows (ran rows) = rows
sast_rows (skipped e) = []

abbrev pub not_scanned : Analysis → List String
not_scanned (ran rows) = []
not_scanned (skipped e) = weakness ∷ []

abbrev pub sast_error : Analysis → String
sast_error (ran rows) = ""
sast_error (skipped e) = e

abbrev pub sast_scanned : ℕ → Analysis → Option ℕ → Option ℕ
sast_scanned now (ran rows) before = some now
sast_scanned now (skipped e) before = before

abbrev pub put_findings : Table → Store → Store
put_findings t s = record s { findings = t }

-- The findings of the code, and the table after them.
unfoldable pub code_rows : ℕ → String → Scan → Store → List Finding
code_rows now repo x s =
    apply_suppressions (findings_from_report x.report domain_code ++ sast_rows x.analysis)
      (active_suppressions now repo s.suppressions)

unfoldable pub code_pass : ℕ → String → Scan → Store → Table × ℕ
code_pass now repo x s =
    reconcile repo domain_code (code_rows now repo x s) now (not_scanned x.analysis) s.findings

-- Weaknesses that are still open are still counted.
unfoldable pub still_open : ℕ → String → Analysis → Store → List Finding
still_open now repo (ran rows) s = []
still_open now repo (skipped e) s =
    select_where (λ (f : Finding). f.kind =s weakness) (open_findings now repo domain_code s)

unfoldable pub image_rows : ℕ → String → ImageScan → Store → List Finding
image_rows now repo (failed e) s = []
image_rows now repo (scanned r image source) s =
    apply_suppressions (findings_from_report r domain_image)
      (active_suppressions now repo s.suppressions)

unfoldable pub image_pass : ℕ → String → ImageScan → Store → Table × ℕ
image_pass now repo (failed e) s = (s.findings, 0)
image_pass now repo (scanned r image source) s =
    reconcile repo domain_image (image_rows now repo (scanned r image source) s) now [] s.findings

abbrev pub image_report : ImageScan → Report
image_report (failed e) = []
image_report (scanned r image source) = r

abbrev pub image_name : ImageScan → String
image_name (failed e) = ""
image_name (scanned r image source) = image

abbrev pub image_source : ImageScan → String
image_source (failed e) = ""
image_source (scanned r image source) = source

abbrev pub image_error : ImageScan → String
image_error (failed e) = e
image_error (scanned r image source) = ""

-- The row that the pass saves, over the one that was there.
unfoldable pub saved : ℕ → Scan → List Finding → List Finding → Result → Result
saved now x rows images r = record r {
  updated_at = now;
  code_scanned_at = some now;
  code = tally rows;
  report = x.report;
  scanned_image = image_name x.image;
  image_source = image_source x.image;
  image = tally images;
  image_report = image_report x.image;
  image_error = image_error x.image;
  secrets = count_kind secret rows;
  weaknesses = count_kind weakness rows;
  sast_error = sast_error x.analysis;
  sast_scanned_at = sast_scanned now x.analysis r.sast_scanned_at;
  suppressed = count_suppressed rows + count_suppressed images;
}

abbrev pub no_counts : Counts
no_counts = record { critical = 0; high = 0; medium = 0; low = 0 }

-- A row that is not there yet; the insert gives it a key that no row has.
unfoldable pub blank : ℕ → String → Result
blank i repo = record {
  id = i;
  repo_name = repo;
  updated_at = 0;
  code = no_counts;
  image = no_counts;
  secrets = 0;
  weaknesses = 0;
  suppressed = 0;
  sast_scanned_at = none;
  sast_error = "";
  code_scanned_at = none;
  report = [];
  scanned_image = "";
  image_source = "";
  image_report = [];
  image_error = "";
}

-- `Save`; `fresh` is the key that an insert takes.
unfoldable pub save_result : ℕ → String → (Result → Result) → Option Result → Store → Store
save_result fresh repo change none s = record s {
  results = s.results ++ change (blank fresh repo) ∷ [];
}
save_result fresh repo change (some r) s = put_result r.id (λ _. change r) s

-- shouldNotify
unfoldable pub should_notify : Bool → Option Result → Counts → Counts → Bool
should_notify manual none code image = true
should_notify manual (some r) code image =
    manual
    || ltb r.code.critical code.critical
    || ltb r.code.high code.high
    || ltb r.image.critical image.critical
    || ltb r.image.high image.high

-- The first static analysis of a repository is no news.
unfoldable pub notify_counts : List Finding → Option Result → Counts
notify_counts rows none = tally rows
notify_counts rows (some r) = elim r.sast_scanned_at [
  | none ↦ tally (select_where (λ (f : Finding). not (f.kind =s weakness)) rows)
  | some t ↦ tally rows
]

abbrev pub secrets_before : Option Result → ℕ
secrets_before none = 0
secrets_before (some r) = r.secrets

unfoldable pub told : Scan → List Finding → List Finding → Option Result → ℕ → Told
told x rows images before new = record {
  mail = should_notify x.manual before (notify_counts rows before) (tally images);
  secret_notice =
      ltb 0 (count_kind secret rows) && ltb (secrets_before before) (count_kind secret rows);
  critical_notice = ltb 0 (count_findings "CRITICAL" rows);
  critical_found =
      select_where
        (λ (f : Finding). f.kind =s vulnerability && f.severity =s "CRITICAL" && not f.suppressed)
        rows;
  new_findings = new;
}

-- runScan, from its findings on
unfoldable pub record_scan : ℕ → ℕ → String → Scan → Store → Told × Store
record_scan now fresh repo x s =
    let code = code_pass now repo x s in
    let s1 = put_findings code.0 s in
    let rows = code_rows now repo x s ++ still_open now repo x.analysis s1 in
    let image = image_pass now repo x.image s1 in
    let images = image_rows now repo x.image s1 in
    let s2 = put_findings image.0 s1 in
    let before = result_of repo s2 in
    let s3 = save_result fresh repo (saved now x rows images) before s2 in
    (
      told x rows images before (code.1 + image.1),
      record_scan_history now repo (tally rows) (tally images) s3,
    )
