-- ===== src/Findings/Named.antt =====
-- What the scanners of a full scan name, said of their reports themselves: runScan of
-- backend/handlers/scan.go, the structs TrivyReport and the rest.
use commitkube.Base.{
  ℕ, ◌≡◌, refl, ap, ap₂, ◌∙◌, String, Bool, true, false, not, Option, none, some, List, [], ◌∷◌,
  ◌++◌, ◌&&◌, ◌||◌, ◌=s◌, if◌then◌else◌, any_where, map, arith, Bool-cases, inl, inr,
}
use commitkube.Findings.Finding.{
  Suppression, Finding, Identity, identity, placed_line, same_identity,
}
use commitkube.Findings.Spec.{is_reported}
use commitkube.Findings.Report.{
  TrivyVuln, TrivyMisconf, TrivySecret, TrivyTarget, Report, from_vuln, from_misconf, from_secret,
  from_misconfs, from_target, findings_from_report,
}
use commitkube.Findings.Suppress.{
  active_suppressions, apply_suppressions, decide, marked, best_from, about_vuln,
}
use commitkube.Findings.Store.{Store}
use commitkube.Findings.Scan.{Analysis, ran, skipped, Scan, code_rows, sast_rows}

-- A vulnerability, a misconfiguration that did not pass, or a secret, each at its place.
abbrev pub names_vuln : String → Identity → TrivyVuln → Bool
names_vuln target i v =
    same_identity
      (record {
        domain = "code";
        kind = "vulnerability";
        target = target;
        vuln_id = v.vulnerability_id;
        pkg = v.pkg_name;
        line = 0;
      })
      i

abbrev pub names_misconf : String → Identity → TrivyMisconf → Bool
names_misconf target i m =
    not (m.status =s "PASS")
    && same_identity
        (record {
          domain = "code";
          kind = "misconfiguration";
          target = target;
          vuln_id = m.id;
          pkg = m.kind;
          line = 0;
        })
        i

abbrev pub names_secret : String → Identity → TrivySecret → Bool
names_secret target i s =
    same_identity
      (record {
        domain = "code";
        kind = "secret";
        target = target;
        vuln_id = s.rule_id;
        pkg = s.category;
        line = s.start_line;
      })
      i

abbrev pub names : Identity → TrivyTarget → Bool
names i t =
    any_where (names_vuln t.target i) t.vulnerabilities
    || (any_where (names_misconf t.target i) t.misconfigurations
        || any_where (names_secret t.target i) t.secrets)

-- What the static analysis names, where it ran.
abbrev pub analysis_names : Identity → Analysis → Bool
analysis_names i (ran rows) = is_reported i rows
analysis_names i (skipped e) = false

or_if : (a b : Bool) → (a || b) ≡ (if a then true else b)
or_if true b = refl
or_if false b = refl

module _ (i : Identity) where
  reported-append :
      (xs ys : List Finding) → is_reported i (xs ++ ys) ≡ (is_reported i xs || is_reported i ys)
  unfolding any_where
  reported-append [] ys = refl
  reported-append (x ∷ xs) ys = ground (arith, reported-append xs ys)

  reported-map :
      {A : Type 0} (make : A → Finding) (p : A → Bool)
      → ((a : A) → same_identity (identity (make a)) i ≡ p a)
      → (xs : List A) → is_reported i (map make xs) ≡ any_where p xs
  unfolding any_where
  reported-map make p h [] = refl
  reported-map make p h (x ∷ xs) =
      ap₂ (λ a b. if a then true else b) (h x) (reported-map make p h xs)

  reported-misconfs :
      (target : String) (ms : List TrivyMisconf)
      → is_reported i (from_misconfs "code" target ms) ≡ any_where (names_misconf target i) ms
  unfolding any_where from_misconfs from_misconf identity placed_line
  reported-misconfs target [] = refl
  reported-misconfs target (m ∷ ms) = elim (Bool-cases (m.status =s "PASS")) [
    | inl e ↦ rw e (reported-misconfs target ms)
    | inr e ↦ rw e (
        ap (λ b. if names_misconf target i (record m { status = "" }) then true else b)
          (reported-misconfs target ms))
  ]

  reported-target : (t : TrivyTarget) → is_reported i (from_target "code" t) ≡ names i t
  unfolding from_target from_vuln from_secret identity placed_line
  reported-target t =
      reported-append (map (from_vuln "code" t.target) t.vulnerabilities) (
        from_misconfs "code" t.target t.misconfigurations
        ++ map (from_secret "code" t.target) t.secrets)
      ∙ ap₂ (λ a b. a || b)
          (reported-map (from_vuln "code" t.target) (names_vuln t.target i) (λ v. refl)
            t.vulnerabilities)
          (reported-append (from_misconfs "code" t.target t.misconfigurations)
              (map (from_secret "code" t.target) t.secrets)
            ∙ ap₂ (λ a b. a || b) (reported-misconfs t.target t.misconfigurations)
                (reported-map (from_secret "code" t.target) (names_secret t.target i) (λ s. refl)
                  t.secrets))

  reported-report :
      (ts : Report) → is_reported i (findings_from_report ts "code") ≡ any_where (names i) ts
  unfolding any_where findings_from_report
  reported-report [] = refl
  reported-report (t ∷ ts) =
      reported-append (from_target "code" t) (findings_from_report ts "code")
      ∙ ap₂ (λ a b. a || b) (reported-target t) (reported-report ts)
      ∙ or_if (names i t) (any_where (names i) ts)

  marked-identity : (o : Option Suppression) (f : Finding) → identity (marked o f) ≡ identity f
  unfolding marked identity
  marked-identity none f = refl
  marked-identity (some d) f = refl

  reported-decided :
      (sups : List Suppression) (rows : List Finding)
      → is_reported i (map (decide sups) rows) ≡ is_reported i rows
  unfolding decide
  reported-decided sups rows =
      reported-map (decide sups) (λ f. same_identity (identity f) i)
        (λ f.
          ap (λ j. same_identity j i)
            (marked-identity (best_from f none (about_vuln f.vuln_id sups)) f))
        rows

  reported-applied :
      (sups : List Suppression) (rows : List Finding)
      → is_reported i (apply_suppressions rows sups) ≡ is_reported i rows
  unfolding apply_suppressions
  reported-applied [] rows = refl
  reported-applied (d ∷ sups) rows = reported-decided (d ∷ sups) rows

  reported-analysis : (a : Analysis) → is_reported i (sast_rows a) ≡ analysis_names i a
  unfolding any_where
  reported-analysis (ran rows) = refl
  reported-analysis (skipped e) = refl

  -- The rows of a pass over the code are what its report and its static analysis name.
  pub reported-code_rows :
      (now : ℕ) (repo : String) (x : Scan) (s : Store)
      → is_reported i (code_rows now repo x s)
        ≡ (any_where (names i) x.report || analysis_names i x.analysis)
  unfolding code_rows
  reported-code_rows now repo x s =
      reported-applied (active_suppressions now repo s.suppressions)
        (findings_from_report x.report "code" ++ sast_rows x.analysis)
      ∙ reported-append (findings_from_report x.report "code") (sast_rows x.analysis)
      ∙ ap₂ (λ a b. a || b) (reported-report x.report) (reported-analysis x.analysis)
