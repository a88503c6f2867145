-- ===== src/Findings/ImageOnly.antt =====
-- A pass of the scanner over the image alone: runImageOnlyScan of backend/handlers/scan.go.
use commitkube.Base.{ℕ, ◌+◌, String, Bool, Option, none, some, List, ◌||◌, ltb, if◌then◌else◌}
use commitkube.Findings.Finding.{Finding, domain_code}
use commitkube.Findings.Report.{Report}
use commitkube.Findings.Suppress.{count_suppressed}
use commitkube.Findings.Store.{
  Store, Result, Counts, open_findings, tally, result_of, put_result, record_scan_history,
}
use commitkube.Findings.Scan.{ImageScan, scanned, failed, image_rows, image_pass, put_findings}

-- The row that the image pass saves.
unfoldable pub image_saved :
    ℕ → Report → String → String → List Finding → List Finding → Result → Result
image_saved now report image source code images r = record r {
  updated_at = now;
  scanned_image = image;
  image_source = source;
  image = tally images;
  image_report = report;
  image_error = "";
  suppressed = count_suppressed code + count_suppressed images;
}

pub data ImagePass : Type 0 where
  no_repository full_scan_instead : ImagePass
  scan_failed : String → ImagePass
  recorded : Bool → ImagePass

abbrev pub got_worse : Counts → Counts → Bool
got_worse before after = ltb before.critical after.critical || ltb before.high after.high

unfoldable pub record_image : ℕ → String → ImageScan → Result → Store → ImagePass × Store
record_image now repo (failed e) r s =
    (scan_failed e, put_result r.id (λ _. record r { image_error = e; updated_at = now }) s)
record_image now repo (scanned report image source) r s =
    let images = image_rows now repo (scanned report image source) s in
    let s1 = put_findings (image_pass now repo (scanned report image source) s).0 s in
    let code = open_findings now repo domain_code s1 in
    let s2 = put_result r.id (λ _. image_saved now report image source code images r) s1 in
    (
      recorded (got_worse r.image (tally images)),
      record_scan_history now repo r.code (tally images) s2,
    )

unfoldable pub image_only : ℕ → String → ImageScan → Option Result → Store → ImagePass × Store
image_only now repo x none s = (full_scan_instead, s)
image_only now repo x (some r) s = record_image now repo x r s

-- runImageOnlyScan; `known` says whether the repository is in the table.
unfoldable pub run_image_only_scan : ℕ → String → Bool → ImageScan → Store → ImagePass × Store
run_image_only_scan now repo known x s =
    if known then image_only now repo x (result_of repo s) s else (no_repository, s)
