-- ===== src/Findings/Decisions.antt =====
-- The handlers of the decisions about findings: ListScanSuppressions, CreateScanSuppression,
-- DeleteScanSuppression and recountAffected of backend/handlers/scan_findings.go. `parse_time` and
-- `parse_date` are Go's time.Parse in RFC 3339 and as a day.
use commitkube.Base.{
  ℕ, ◌+◌, String, Bool, not, Option, none, some, List, [], ◌∷◌, ◌++◌, ◌&&◌, ◌||◌, ◌==◌, ◌=s◌, ltb,
  if◌then◌else◌, find_first, any_where, select_where, delete_where, trim_left, trim_right,
}
use commitkube.Findings.Finding.{Suppression}
use commitkube.Findings.Table.{Row, is_resolved}
use commitkube.Findings.Store.{Store, recount_repo}

-- Times are in seconds.
pub record Env : Type 0 where
  pub now : ℕ
  pub parse_time : String → Option ℕ
  pub parse_date : String → Option ℕ

pub record Request : Type 0 where
  pub repo_name : String
  pub vuln_id : String
  pub pkg : String
  pub reason : String
  pub note : String
  pub expires_at : String

pub data Problem : Type 0 where
  invalid_body vuln_id_required unknown_reason note_required repository_not_found : Problem
  not_a_date date_in_the_past not_found : Problem

pub data Answer : Type 0 where
  refused : Problem → Answer
  created : Suppression → Answer
  removed : Answer

-- suppressionReasons
abbrev pub is_reason : String → Bool
is_reason r =
    r =s "false_positive" || r =s "not_affected" || r =s "accepted_risk" || r =s "fix_planned"

abbrev pub trim : String → String
trim s = trim_right (trim_left s)

-- The request after `TrimSpace`.
unfoldable pub trimmed : Request → Request
trimmed q = record q {
  vuln_id = trim q.vuln_id;
  pkg = trim q.pkg;
  repo_name = trim q.repo_name;
  note = trim q.note;
}

-- The checks in front of the date.
unfoldable pub request_problem : Request → Store → Option Problem
request_problem q s =
    if q.vuln_id =s ""
    then some vuln_id_required
    else if not (is_reason q.reason)
    then some unknown_reason
    else if not (q.reason =s "false_positive") && q.note =s ""
    then some note_required
    else if not (q.repo_name =s "") && not (any_where (λ n. n =s q.repo_name) s.repositories)
    then some repository_not_found
    else none

-- A day lasts to its end.
unfoldable pub day_end : Option ℕ → Option ℕ
day_end none = none
day_end (some t) = some (t + 86399)

unfoldable pub parsed : Env → String → Option ℕ → Option ℕ
parsed e text none = day_end (e.parse_date text)
parsed e text (some t) = some t

unfoldable pub date_problem : ℕ → Option ℕ → Option Problem
date_problem now none = some not_a_date
date_problem now (some t) = if ltb t now then some date_in_the_past else none

-- The date of the request, and what is wrong with it.
unfoldable pub expiry : Env → String → Option ℕ
expiry e text = if text =s "" then none else parsed e text (e.parse_time text)

unfoldable pub expiry_problem : Env → String → Option Problem
expiry_problem e text =
    if text =s "" then none else date_problem e.now (parsed e text (e.parse_time text))

unfoldable pub first_problem : Option Problem → Option Problem → Option Problem
first_problem none b = b
first_problem (some p) b = some p

-- The decision of a repository about a weakness of a package.
unfoldable pub is_about : String → String → String → Suppression → Bool
is_about repo vuln pkg s = s.repo_name =s repo && s.vuln_id =s vuln && s.pkg =s pkg

abbrev pub drop_decision : ℕ → Store → Store
drop_decision i s = record s {
  suppressions = delete_where (λ (x : Suppression). x.id == i) s.suppressions;
}

-- The decision that the new one replaces, if there is one, is deleted.
unfoldable pub replace : Option Suppression → Store → Store
replace none s = s
replace (some old) s = drop_decision old.id s

unfoldable pub insert_decision : Suppression → Store → Store
insert_decision sup s = record s {
  suppressions = s.suppressions ++ sup ∷ [];
  next_suppression = s.next_suppression + 1;
}

abbrev pub log_decision : ℕ → String → Suppression → Store → Store
log_decision uid action sup s = record s {
  audit =
      s.audit
      ++ record { user_id = uid; action = action; resource = sup.repo_name; vuln_id = sup.vuln_id }
        ∷ [];
}

-- `Distinct().Pluck("repo_name")`
unfoldable pub distinct_repos : List Row → List String
distinct_repos [] = []
distinct_repos (r ∷ rs) =
    let rest = distinct_repos rs in
    if any_where (λ n. n =s r.repo_name) rest then rest else r.repo_name ∷ rest

unfoldable pub recount_all : ℕ → List String → Store → Store
recount_all now [] s = s
recount_all now (r ∷ rs) s = recount_all now rs (recount_repo now r s)

-- recountAffected
unfoldable pub recount_affected : ℕ → Suppression → Store → Store
recount_affected now sup s =
    if not (sup.repo_name =s "")
    then recount_repo now sup.repo_name s
    else recount_all now
        (distinct_repos (
          select_where (λ (r : Row). r.vuln_id =s sup.vuln_id && not (is_resolved r))
            s.findings.rows))
        s

unfoldable pub decision_of : Env → ℕ → Request → Store → Suppression
decision_of e uid q s = record {
  id = s.next_suppression;
  repo_name = q.repo_name;
  vuln_id = q.vuln_id;
  pkg = q.pkg;
  reason = q.reason;
  note = q.note;
  created_by = uid;
  expires_at = expiry e q.expires_at;
}

unfoldable pub create_decision : Env → ℕ → Request → Option Problem → Store → Answer × Store
create_decision e uid q (some p) s = (refused p, s)
create_decision e uid q none s =
    let sup = decision_of e uid q s in
    let kept = replace (find_first (is_about q.repo_name q.vuln_id q.pkg) s.suppressions) s in
    (
      created sup,
      recount_affected e.now sup
          (log_decision uid "suppress_finding" sup (insert_decision sup kept)),
    )

-- CreateScanSuppression; `none` is a body that does not parse.
unfoldable pub create_scan_suppression : Env → ℕ → Option Request → Store → Answer × Store
create_scan_suppression e uid none s = (refused invalid_body, s)
create_scan_suppression e uid (some q) s =
    let r = trimmed q in
    create_decision e uid r (first_problem (request_problem r s) (expiry_problem e r.expires_at)) s

unfoldable pub delete_decision : ℕ → ℕ → Option Suppression → Store → Answer × Store
delete_decision now uid none s = (refused not_found, s)
delete_decision now uid (some sup) s = (
  removed,
  recount_affected now sup (log_decision uid "unsuppress_finding" sup (drop_decision sup.id s)),
)

-- DeleteScanSuppression
unfoldable pub delete_scan_suppression : ℕ → ℕ → ℕ → Store → Answer × Store
delete_scan_suppression now uid i s =
    delete_decision now uid (find_first (λ (x : Suppression). x.id == i) s.suppressions) s

-- ListScanSuppressions, but for the order of the dates.
unfoldable pub list_scan_suppressions : String → Store → List Suppression
list_scan_suppressions repo s =
    if repo =s ""
    then s.suppressions
    else select_where (λ (x : Suppression). x.repo_name =s repo || x.repo_name =s "") s.suppressions
