-- ===== src/Findings/Passes.antt =====
-- What the passes of backend/handlers/scan.go leave open.
use commitkube.Findings.Named.{names, analysis_names, reported-code_rows}
use commitkube.Findings.Domains.{code_rows-InDomain, image_rows-InDomain}
use commitkube.Base.{
  ℕ, ◌≡◌, refl, sym, ap, ◌∙◌, String, Bool, true, false, Option, none, some, [], ◌∷◌, ◌++◌, ◌==◌,
  ◌=s◌, ◌&&◌, arith, inl, inr, Option-cases, =s_self, find_first, find_first-back,
  find_first-revised, All-weaken, only_keyed, DistinctKeys, count_where, =s_sym, any_where,
  if◌then◌else◌, ◌||◌,
}
use commitkube.Findings.Finding.{Identity, domain_code, domain_image}
use commitkube.Findings.Table.{Table, mem_text}
use commitkube.Findings.Spec.{IsSound, open_since, is_reported}
use commitkube.Findings.Walk.{opened, InDomain}
use commitkube.Findings.Revised.{revised}
use commitkube.Findings.Reconcile.{reconcile-revises}
use commitkube.Findings.Sound.{reconcile-IsSound}
use commitkube.Findings.Store.{Store, Result, tally, result_of, record_scan_history}
use commitkube.Findings.Scan.{
  Analysis, ran, skipped, ImageScan, scanned, failed, Scan, sast_rows, not_scanned, put_findings,
  code_rows, code_pass, image_rows, image_pass, save_result, saved, still_open, record_scan,
  no_counts, blank,
}

save_result-findings :
    (fresh : ℕ) (repo : String) (change : Result → Result) (o : Option Result) (s : Store)
    → (save_result fresh repo change o s).findings ≡ s.findings
unfolding save_result
save_result-findings fresh repo change none s = refl
save_result-findings fresh repo change (some r) s = refl

-- The image pass leaves the findings of the code.
image_pass-code :
    (now : ℕ) (repo : String) (x : ImageScan) (s : Store) (w : String) (i : Identity)
    → IsSound s.findings
    → (w =s repo && i.domain =s domain_image) ≡ false
    → open_since w i (image_pass now repo x s).0 ≡ open_since w i s.findings
unfolding image_pass
image_pass-code now repo (failed e) s w i sound apart = refl
image_pass-code now repo (scanned r image source) s w i sound apart =
    reconcile-revises repo domain_image (image_rows now repo (scanned r image source) s) now []
      s.findings w i sound (image_rows-InDomain now repo (scanned r image source) s)
    ∙ rw apart refl

and_false : (b : Bool) → (b && false) ≡ false
and_false true = refl
and_false false = refl

and_true : (b : Bool) → b ≡ true → (b && true) ≡ true
and_true b e = ground (arith, e)

-- The row that a pass saves over the one that was found.
save_result-found :
    (fresh : ℕ) (repo : String) (change : Result → Result) (s : Store) (r : Result)
    → DistinctKeys (λ (y : Result). y.id) s.results
    → (change r).repo_name ≡ r.repo_name
    → result_of repo s ≡ some r
    → result_of repo (save_result fresh repo change (some r) s) ≡ some (change r)
unfolding save_result
save_result-found fresh repo change s r d keep e =
    find_first-revised (λ (y : Result). y.repo_name =s repo) (λ (y : Result). y.id == r.id)
      (λ _. change r) s.results r
      (All-weaken (λ (y : Result). (y.id == r.id) ≡ true → y ≡ r)
        (λ (y : Result).
          (y.id == r.id) ≡ true → ((change r).repo_name =s repo) ≡ (y.repo_name =s repo))
        s.results
        (λ y h on. ap (λ t. t =s repo) (keep ∙ ap (λ (z : Result). z.repo_name) (sym (h on))))
        (only_keyed (λ (y : Result). y.id) (λ (y : Result). y.repo_name =s repo) s.results r d e))
      e
    ∙ ground arith

save_result-new :
    (fresh : ℕ) (repo : String) (change : Result → Result) (s : Store)
    → (change (blank fresh repo)).repo_name ≡ repo
    → result_of repo s ≡ none
    → result_of repo (save_result fresh repo change none s) ≡ some (change (blank fresh repo))
unfolding save_result find_first
save_result-new fresh repo change s keep e =
    find_first-back (λ (y : Result). y.repo_name =s repo) s.results (change (blank fresh repo) ∷ [])
      e
    ∙ rw (ap (λ t. t =s repo) keep ∙ =s_self repo) refl

-- Weaknesses stay as they were where the static analysis did not run; whatever else is not named is
-- closed.
abbrev pub not_looked_for : Analysis → Identity → Option ℕ → Option ℕ
not_looked_for (ran rows) i before = none
not_looked_for (skipped e) i before = if i.kind =s "weakness" then before else none

revised-cases :
    (now : ℕ) (told : Bool) (a : Analysis) (i : Identity) (before : Option ℕ)
    → revised now told (mem_text i.kind (not_scanned a)) before
      ≡ (if told then some (opened now before) else not_looked_for a i before)
unfolding revised any_where
revised-cases now true a i before = refl
revised-cases now false (ran rows) i before = refl
revised-cases now false (skipped e) i before =
    ground (arith, =s_sym "weakness" i.kind, =s_sym i.kind "weakness")

module _ (now fresh : ℕ) (repo : String) (x : Scan) (s : Store) (sound : IsSound s.findings)
    (ds : InDomain domain_code (sast_rows x.analysis)) where
  abbrev after : Table
  after = (record_scan now fresh repo x s).1.findings

  abbrev between : Store
  between = put_findings (code_pass now repo x s).0 s

  after-findings : after ≡ (image_pass now repo x.image between).0
  unfolding record_scan record_scan_history
  after-findings = save_result-findings fresh repo _ _ _

  between-IsSound : IsSound between.findings
  unfolding code_pass
  between-IsSound =
      reconcile-IsSound repo domain_code (code_rows now repo x s) now (not_scanned x.analysis)
        s.findings (code_rows-InDomain now repo x s ds) sound

  code-revised :
      (i : Identity)
      → i.domain ≡ domain_code
      → open_since repo i after
        ≡ revised now
            (is_reported i (code_rows now repo x s))
            (mem_text i.kind (not_scanned x.analysis))
            (open_since repo i s.findings)
  unfolding code_pass
  code-revised i d =
      ap (open_since repo i) after-findings
      ∙ image_pass-code now repo x.image between repo i between-IsSound
          (ap (λ t. repo =s repo && t =s domain_image) d ∙ and_false (repo =s repo))
      ∙ reconcile-revises repo domain_code (code_rows now repo x s) now (not_scanned x.analysis)
          s.findings repo i sound (code_rows-InDomain now repo x s ds)
      ∙ rw (ap (λ t. repo =s repo && t =s domain_code) d ∙ and_true (repo =s repo) (=s_self repo))
          refl

  -- A full scan leaves open, of the code, what its report or its static analysis names, each since
  -- it was open or else since now, and of the rest only the weaknesses that were open, where the
  -- static analysis did not run; the image pass changes none of that. The table is sound, and the
  -- static analysis reports findings of the code.
  pub record_scan-code :
      (i : Identity)
      → i.domain ≡ "code"
      → open_since repo i after ≡ (
          if any_where (names i) x.report || analysis_names i x.analysis
          then some (opened now (open_since repo i s.findings))
          else not_looked_for x.analysis i (open_since repo i s.findings))
  record_scan-code i d =
      code-revised i d
      ∙ ap
          (λ b.
            revised now b (mem_text i.kind (not_scanned x.analysis)) (open_since repo i s.findings))
          (reported-code_rows i now repo x s)
      ∙ revised-cases now (any_where (names i) x.report || analysis_names i x.analysis) x.analysis i
          (open_since repo i s.findings)

  -- The image findings, where the image could not be scanned.
  image_failed-open :
      (e : String) (i : Identity)
      → x.image ≡ failed e
      → i.domain ≡ domain_image
      → open_since repo i after ≡ open_since repo i s.findings
  unfolding image_pass code_pass
  image_failed-open e i f d =
      ap (open_since repo i) after-findings
      ∙ ap (λ o. open_since repo i (image_pass now repo o between).0) f
      ∙ reconcile-revises repo domain_code (code_rows now repo x s) now (not_scanned x.analysis)
          s.findings repo i sound (code_rows-InDomain now repo x s ds)
      ∙ rw (ap (λ t. repo =s repo && t =s domain_code) d ∙ and_false (repo =s repo)) refl

  abbrev change : Result → Result
  change =
      saved now x (code_rows now repo x s ++ still_open now repo x.analysis between)
        (image_rows now repo x.image between)

  abbrev written : Store
  written = put_findings (image_pass now repo x.image between).0 between

  change-image : (e : String) (r : Result) → x.image ≡ failed e → (change r).image ≡ no_counts
  unfolding saved image_rows tally count_where
  change-image e r f = ap (λ o. tally (image_rows now repo o between)) f

  change-repo : (r : Result) → (change r).repo_name ≡ r.repo_name
  unfolding saved
  change-repo r = refl

  blank-repo : (change (blank fresh repo)).repo_name ≡ repo
  unfolding saved blank
  blank-repo = refl

  image_failed-stored :
      (e : String)
      → x.image ≡ failed e
      → DistinctKeys (λ (y : Result). y.id) s.results
      → (u : Result) × ((result_of repo (record_scan now fresh repo x s).1 ≡ some u)
          × (u.image ≡ no_counts))
  unfolding record_scan record_scan_history
  image_failed-stored e f d = elim (Option-cases (result_of repo s)) [
    | inl h ↦ (
      change (blank fresh repo),
      (
        ap (λ o. result_of repo (save_result fresh repo change o written)) h
            ∙ save_result-new fresh repo change written blank-repo h,
        change-image e (blank fresh repo) f,
      ),
    )
    | inr (r, h) ↦ (
      change r,
      (
        ap (λ o. result_of repo (save_result fresh repo change o written)) h
            ∙ save_result-found fresh repo change written r d (change-repo r) h,
        change-image e r f,
      ),
    )
  ]

  -- A full scan that could not scan the image leaves the findings of the image open or closed as
  -- they were, and stores zeros as their counts; the table is sound, and the static analysis
  -- reports findings of the code.
  pub record_scan-image_failed :
      (e : String)
      → x.image ≡ failed e
      → DistinctKeys (λ (y : Result). y.id) s.results
      → ((i : Identity)
          → i.domain ≡ domain_image
          → open_since repo i after ≡ open_since repo i s.findings)
        × ((u : Result) × ((result_of repo (record_scan now fresh repo x s).1 ≡ some u)
              × (u.image ≡ no_counts)))
  record_scan-image_failed e f d = (λ i own. image_failed-open e i f own, image_failed-stored e f d)
