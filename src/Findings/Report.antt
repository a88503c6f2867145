-- ===== src/Findings/Report.antt =====
-- Trivy's report (backend/handlers/scan.go) as a list of findings: findingsFromReport of
-- backend/handlers/scan_findings.go.
use Prim.Native.Char.{Char, code}
use Prim.Native.String.{[] as nil, ◌∷◌ as cons}
use commitkube.Base.{
  ℕ, ◌≡◌, refl, String, false, none, List, [], ◌∷◌, ◌++◌, ◌==◌, ◌=s◌, if◌then◌else◌, All-append,
  trim_left, trim_right, map, inl, inr, Bool-cases,
}
use commitkube.Findings.Finding.{
  Finding, identity, domain_code, vulnerability, misconfiguration, secret,
}
use commitkube.Findings.Walk.{InDomain}

pub record TrivyVuln : Type 0 where
  pub vulnerability_id : String
  pub pkg_name : String
  pub installed_version : String
  pub fixed_version : String
  pub severity : String
  pub title : String

pub record TrivyMisconf : Type 0 where
  pub id : String
  pub kind : String
  pub title : String
  pub severity : String
  pub status : String

pub record TrivySecret : Type 0 where
  pub rule_id : String
  pub category : String
  pub severity : String
  pub title : String
  pub start_line : ℕ

pub record TrivyTarget : Type 0 where
  pub target : String
  pub vulnerabilities : List TrivyVuln
  pub misconfigurations : List TrivyMisconf
  pub secrets : List TrivySecret

-- TrivyReport
abbrev pub Report : Type 0
Report = List TrivyTarget

-- `unicode.ToUpper` on the letters that severities are written in; others stay.
abbrev upper_from : String → String → Char → Char
upper_from nil upper c = c
upper_from (cons l lower) nil c = c
upper_from (cons l lower) (cons u upper) c =
    let rest = upper_from lower upper c in if code c == code l then u else rest

abbrev pub to_upper : String → String
to_upper nil = nil
to_upper (cons c s) =
    cons (upper_from "abcdefghijklmnopqrstuvwxyz" "ABCDEFGHIJKLMNOPQRSTUVWXYZ" c) (to_upper s)

unfoldable pub normalize_severity : String → String
normalize_severity s =
    let upper = to_upper (trim_right (trim_left s)) in if upper =s "" then "UNKNOWN" else upper

unfoldable pub from_vuln : String → String → TrivyVuln → Finding
from_vuln domain target v = record {
  domain = domain;
  kind = vulnerability;
  target = target;
  vuln_id = v.vulnerability_id;
  pkg = v.pkg_name;
  line = 0;
  version = v.installed_version;
  fixed = v.fixed_version;
  severity = normalize_severity v.severity;
  title = v.title;
  cwe = "";
  suppressed = false;
  suppression = none;
}

unfoldable pub from_misconf : String → String → TrivyMisconf → Finding
from_misconf domain target m = record {
  domain = domain;
  kind = misconfiguration;
  target = target;
  vuln_id = m.id;
  pkg = m.kind;
  line = 0;
  version = "";
  fixed = "";
  severity = normalize_severity m.severity;
  title = m.title;
  cwe = "";
  suppressed = false;
  suppression = none;
}

unfoldable pub from_secret : String → String → TrivySecret → Finding
from_secret domain target s = record {
  domain = domain;
  kind = secret;
  target = target;
  vuln_id = s.rule_id;
  pkg = s.category;
  line = s.start_line;
  version = "";
  fixed = "";
  severity = normalize_severity s.severity;
  title = s.title;
  cwe = "";
  suppressed = false;
  suppression = none;
}

-- The misconfigurations that did not pass.
unfoldable pub from_misconfs : String → String → List TrivyMisconf → List Finding
from_misconfs domain target [] = []
from_misconfs domain target (m ∷ ms) =
    let rest = from_misconfs domain target ms in
    if m.status =s "PASS" then rest else from_misconf domain target m ∷ rest

-- What one target adds.
unfoldable pub from_target : String → TrivyTarget → List Finding
from_target domain t =
    let vulns = map (from_vuln domain t.target) t.vulnerabilities in
    if domain =s domain_code
    then vulns
      ++ (from_misconfs domain t.target t.misconfigurations
          ++ map (from_secret domain t.target) t.secrets)
    else vulns

unfoldable pub findings_from_report : Report → String → List Finding
findings_from_report [] domain = []
findings_from_report (t ∷ ts) domain = from_target domain t ++ findings_from_report ts domain

map-InDomain :
    {A : Type 0} (domain : String) (make : A → Finding)
    → ((a : A) → (identity (make a)).domain ≡ domain)
    → (xs : List A) → InDomain domain (map make xs)
map-InDomain domain make h [] = tt
map-InDomain domain make h (x ∷ xs) = (h x, map-InDomain domain make h xs)

from_misconfs-InDomain :
    (domain target : String) (ms : List TrivyMisconf)
    → InDomain domain (from_misconfs domain target ms)
unfolding from_misconfs from_misconf identity
from_misconfs-InDomain domain target [] = tt
from_misconfs-InDomain domain target (m ∷ ms) = elim (Bool-cases (m.status =s "PASS")) [
  | inl e ↦ rw e (from_misconfs-InDomain domain target ms)
  | inr e ↦ rw e (refl, from_misconfs-InDomain domain target ms)
]

vulns-InDomain :
    (domain target : String) (vs : List TrivyVuln)
    → InDomain domain (map (from_vuln domain target) vs)
unfolding from_vuln identity
vulns-InDomain domain target vs = map-InDomain domain (from_vuln domain target) (λ v. refl) vs

secrets-InDomain :
    (domain target : String) (ss : List TrivySecret)
    → InDomain domain (map (from_secret domain target) ss)
unfolding from_secret identity
secrets-InDomain domain target ss = map-InDomain domain (from_secret domain target) (λ s. refl) ss

from_target-InDomain : (domain : String) (t : TrivyTarget) → InDomain domain (from_target domain t)
unfolding from_target
from_target-InDomain domain t = elim (Bool-cases (domain =s domain_code)) [
  | inr e ↦ rw e (vulns-InDomain domain t.target t.vulnerabilities)
  | inl e ↦ rw e (
      All-append (λ (f : Finding). (identity f).domain ≡ domain)
        (map (from_vuln domain t.target) t.vulnerabilities)
        (from_misconfs domain t.target t.misconfigurations
          ++ map (from_secret domain t.target) t.secrets)
        (vulns-InDomain domain t.target t.vulnerabilities)
        (All-append (λ (f : Finding). (identity f).domain ≡ domain)
          (from_misconfs domain t.target t.misconfigurations)
          (map (from_secret domain t.target) t.secrets)
          (from_misconfs-InDomain domain t.target t.misconfigurations)
          (secrets-InDomain domain t.target t.secrets)))
]

-- A report is flattened for its domain alone.
pub findings_from_report-InDomain :
    (report : Report) (domain : String) → InDomain domain (findings_from_report report domain)
unfolding findings_from_report
findings_from_report-InDomain [] domain = tt
findings_from_report-InDomain (t ∷ ts) domain =
    All-append (λ (f : Finding). (identity f).domain ≡ domain) (from_target domain t)
      (findings_from_report ts domain) (from_target-InDomain domain t)
      (findings_from_report-InDomain ts domain)
