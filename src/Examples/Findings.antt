-- ===== src/Examples/Findings.antt =====
-- The findings of backend/handlers/scan_findings.go on a few scans.
use commitkube.Findings.Counted.{IsCounted}
use commitkube.Findings.Report.{findings_from_report}
use commitkube.Base.{
  ◌≡◌, refl, false, none, some, [], ◌∷◌, ◌=s◌, if◌then◌else◌, All, arith, ◌&&◌, find_first,
  count_where, any_where, ℕ, Option, select_where, update_where, sort_stable, insert_sorted, ◌||◌,
}
use commitkube.Findings.Finding.{
  Suppression, Finding, Identity, identity, domain_image, placed_line,
}
use commitkube.Findings.Table.{
  Table, reconcile, chunk_ids, mem_text, finish, visit_all, visit, by_identity, latest, place,
  new_row, update_chunks, chunk_loop, create_all, finding_from_row, drop, take,
}
use commitkube.Findings.Chunks.{concat, IsChunk, chunk_ids-chunks}
use commitkube.Findings.Spec.{IsSound, open_since, is_reported}
use commitkube.Findings.Revised.{revised}
use commitkube.Findings.Reconcile.{reconcile-revises}
use commitkube.Findings.Sound.{reconcile-IsSound}
use commitkube.Findings.Suppress.{apply_suppressions, active_suppressions}
use commitkube.Findings.Deliberate.{Decided, apply_suppressions-Decided}
use commitkube.Findings.Store.{
  Store, Result, result_of, recounted, open_findings, recount_repo, tally, record_scan_history,
  recount_result, note_change, same_counts, open_rows,
}
use commitkube.Findings.Recount.{recount_repo-settles}
use commitkube.Findings.Triaged.{IsTriaged}
use commitkube.Findings.Decisions.{Env, Request, create_scan_suppression}
use commitkube.Findings.Decided.{Decides, create_scan_suppression-Decides}
use commitkube.Findings.Scan.{
  Scan, skipped, failed, record_scan, code_rows, no_counts, blank, ran, code_pass, still_open,
  image_pass, image_rows, save_result, saved,
}
use commitkube.Findings.Named.{names, analysis_names}
use commitkube.Findings.Walk.{opened}
use commitkube.Findings.Passes.{not_looked_for, record_scan-code, record_scan-image_failed}

abbrev cve : Finding
cve = record {
  domain = "code";
  kind = "vulnerability";
  target = "go.sum";
  vuln_id = "CVE-1";
  pkg = "net";
  line = 0;
  version = "1";
  fixed = "2";
  severity = "HIGH";
  title = "overflow";
  cwe = "";
  suppressed = false;
  suppression = none;
}

abbrev flaw : Finding
flaw = record cve { kind = "weakness"; vuln_id = "sql"; pkg = "f00d"; line = 12 }

abbrev empty : Table
empty = record { rows = []; next_id = 1 }

empty-IsSound : IsSound empty
unfolding count_where
empty-IsSound = record { distinct = tt; below = tt; unique = λ w i. omega arith }

abbrev monday : Table
monday = (reconcile "api" "code" (cve ∷ flaw ∷ cve ∷ []) 10 [] empty).0

reconcile-IsSound_example : IsSound monday
unfolding identity
reconcile-IsSound_example =
    reconcile-IsSound "api" "code" (cve ∷ flaw ∷ cve ∷ []) 10 [] empty (refl, (refl, (refl, tt)))
      empty-IsSound

-- On Tuesday the weakness is not looked for, and the CVE is gone.
abbrev tuesday : Table
tuesday = (reconcile "api" "code" [] 20 ("weakness" ∷ []) monday).0

reconcile-revises_example : open_since "api" (identity cve) tuesday ≡ (
    if "api" =s "api" && (identity cve).domain =s "code"
    then revised 20
        (is_reported (identity cve) [])
        (mem_text (identity cve).kind ("weakness" ∷ []))
        (open_since "api" (identity cve) monday)
    else open_since "api" (identity cve) monday)
reconcile-revises_example =
    reconcile-revises "api" "code" [] 20 ("weakness" ∷ []) monday "api" (identity cve)
      reconcile-IsSound_example tt

closed_on_tuesday : open_since "api" (identity cve) tuesday ≡ none
unfolding identity revised any_where
closed_on_tuesday = reconcile-revises_example

chunk_ids-chunks_example :
    (concat (chunk_ids (1 ∷ 2 ∷ 3 ∷ []) 2) ≡ 1 ∷ 2 ∷ 3 ∷ [])
    × All (IsChunk 2) (chunk_ids (1 ∷ 2 ∷ 3 ∷ []) 2)
chunk_ids-chunks_example = chunk_ids-chunks (1 ∷ 2 ∷ 3 ∷ []) 2 (omega arith)

abbrev everywhere : Suppression
everywhere = record {
  id = 1;
  repo_name = "";
  vuln_id = "CVE-1";
  pkg = "";
  reason = "accepted_risk";
  note = "until the upgrade";
  created_by = 7;
  expires_at = none;
}

abbrev here : Suppression
here = record everywhere { id = 2; repo_name = "api"; reason = "false_positive"; note = "" }

apply_suppressions-Decided_example :
    Decided
      (everywhere ∷ here ∷ [])
      (cve ∷ flaw ∷ [])
      (apply_suppressions (cve ∷ flaw ∷ []) (everywhere ∷ here ∷ []))
apply_suppressions-Decided_example =
    apply_suppressions-Decided (cve ∷ flaw ∷ []) (everywhere ∷ here ∷ [])

abbrev api_result : Result
unfolding blank
api_result = blank 1 "api"

abbrev shop : Store
shop = record {
  repositories = "api" ∷ [];
  findings = monday;
  suppressions = everywhere ∷ [];
  next_suppression = 2;
  results = api_result ∷ [];
  history = [];
  audit = [];
}

shop_result : result_of "api" shop ≡ some api_result
unfolding find_first blank
shop_result = refl

recount_repo-settles_example :
    ((u : Result) × ((result_of "api" (recount_repo 30 "api" shop) ≡ some u)
        × IsCounted 30 "api" shop api_result u))
    × (recount_repo 30 "api" (recount_repo 30 "api" shop) ≡ recount_repo 30 "api" shop)
recount_repo-settles_example = recount_repo-settles 30 "api" shop api_result shop_result

shop-IsTriaged : IsTriaged shop.suppressions shop.next_suppression
unfolding count_where
shop-IsTriaged = record {
  distinct = (tt, tt);
  below = (omega arith, tt);
  unique = λ r v p. ground arith;
}

abbrev clock : Env
clock = record { now = 30; parse_time = λ s. none; parse_date = λ s. none }

abbrev ask : Request
ask = record {
  repo_name = "api";
  vuln_id = " CVE-1 ";
  pkg = "";
  reason = "false_positive";
  note = "";
  expires_at = "";
}

create_scan_suppression-Decides_example :
    Decides clock 7 (some ask) (create_scan_suppression clock 7 (some ask) shop) shop
create_scan_suppression-Decides_example =
    create_scan_suppression-Decides clock 7 (some ask) shop shop-IsTriaged

-- A scan whose static analysis and whose image pass both failed.
abbrev broken : Scan
broken = record {
  report = [];
  analysis = skipped "no rules";
  image = failed "no image";
  manual = false;
}

record_scan-code_example :
    open_since "api" (identity flaw) (record_scan 40 2 "api" broken shop).1.findings ≡ (
      if any_where (names (identity flaw)) broken.report
        || analysis_names (identity flaw) broken.analysis
      then some (opened 40 (open_since "api" (identity flaw) shop.findings))
      else not_looked_for broken.analysis
          (identity flaw)
          (open_since "api" (identity flaw) shop.findings))
unfolding identity
record_scan-code_example =
    record_scan-code 40 2 "api" broken shop reconcile-IsSound_example tt (identity flaw) refl

record_scan-image_failed_example :
    ((i : Identity)
      → i.domain ≡ domain_image
      → open_since "api" i (record_scan 40 2 "api" broken shop).1.findings
        ≡ open_since "api" i shop.findings)
    × ((u : Result) × ((result_of "api" (record_scan 40 2 "api" broken shop).1 ≡ some u)
          × (u.image ≡ no_counts)))
record_scan-image_failed_example =
    record_scan-image_failed 40 2 "api" broken shop reconcile-IsSound_example tt "no image" refl
      (tt, tt)

-- One finding that a report names twice is one row, and is counted twice until a recount.
abbrev twice : Scan
twice = record { report = []; analysis = ran (cve ∷ cve ∷ []); image = failed ""; manual = false }

abbrev plain_shop : Store
plain_shop = record shop { findings = empty; suppressions = [] }

abbrev high_of : Option Result → ℕ
high_of none = 0
high_of (some r) = r.code.high

counted_twice : high_of (result_of "api" (record_scan 40 2 "api" twice plain_shop).1) ≡ 2
unfolding record_scan code_pass code_rows findings_from_report active_suppressions select_where
    apply_suppressions reconcile finish visit_all visit identity placed_line any_where by_identity
    latest find_first place new_row update_chunks chunk_ids chunk_loop create_all still_open
    image_pass image_rows save_result saved blank tally count_where update_where record_scan_history
counted_twice = refl

counted_once :
    high_of (result_of "api" (recount_repo 40 "api" (record_scan 40 2 "api" twice plain_shop).1))
    ≡ 1
unfolding record_scan code_pass code_rows findings_from_report active_suppressions select_where
    apply_suppressions reconcile finish visit_all visit identity placed_line any_where by_identity
    latest find_first place new_row update_chunks chunk_ids chunk_loop create_all still_open
    image_pass image_rows save_result saved blank tally count_where update_where record_scan_history
    recount_repo recount_result note_change recounted same_counts open_findings open_rows
    finding_from_row sort_stable insert_sorted drop take
counted_once = refl
