-- ===== src/Findings/Recount.antt =====
-- A recount of a repository: recountRepo of backend/handlers/scan_findings.go.
use commitkube.Findings.Counted.{IsCounted, recounted-IsCounted}
use commitkube.Base.{
  ℕ, ◌≡◌, refl, sym, ap, ap₂, ◌∙◌, String, Bool, true, false, Option, none, some, List, [], ◌∷◌,
  ◌==◌, ◌=s◌, ◌&&◌, if◌then◌else◌, find_first, find_first-update_where, update_where, arith,
}
use commitkube.Findings.Finding.{Finding, domain_code, domain_image}
use commitkube.Findings.Store.{
  Store, Counts, Result, open_findings, tally, same_counts, recounted, put_result, note_change,
  recount_result, recount_repo, result_of, record_scan_history,
}

-- What a recount leaves alone.
pub record Untouched (s u : Store) : Type 0 where
  pub findings : u.findings ≡ s.findings
  pub suppressions : u.suppressions ≡ s.suppressions
  pub next_suppression : u.next_suppression ≡ s.next_suppression
  pub repositories : u.repositories ≡ s.repositories
  pub audit : u.audit ≡ s.audit

note_change-Untouched :
    (now : ℕ) (r : Result) (code image : Counts) (s : Store)
    → Untouched s (note_change now r code image s)
unfolding note_change record_scan_history
note_change-Untouched now r code image s =
    at_test (same_counts r.code code && same_counts r.image image)
  where
    at_test :
        (b : Bool) → Untouched s (if b then s else record_scan_history now r.repo_name code image s)
    at_test true = record {
      findings = refl;
      suppressions = refl;
      next_suppression = refl;
      repositories = refl;
      audit = refl;
    }
    at_test false = record {
      findings = refl;
      suppressions = refl;
      next_suppression = refl;
      repositories = refl;
      audit = refl;
    }

note_change-results :
    (now : ℕ) (r : Result) (code image : Counts) (s : Store)
    → (note_change now r code image s).results ≡ s.results
unfolding note_change record_scan_history
note_change-results now r code image s =
    at_test (same_counts r.code code && same_counts r.image image)
  where
    at_test :
        (b : Bool)
        → (if b then s else record_scan_history now r.repo_name code image s).results ≡ s.results
    at_test true = refl
    at_test false = refl

recount_result-Untouched :
    (now : ℕ) (repo : String) (o : Option Result) (s : Store)
    → Untouched s (recount_result now repo o s)
unfolding recount_result
recount_result-Untouched now repo none s = record {
  findings = refl;
  suppressions = refl;
  next_suppression = refl;
  repositories = refl;
  audit = refl;
}
recount_result-Untouched now repo (some r) s =
    let code = open_findings now repo domain_code s in
    let image = open_findings now repo domain_image s in
    let noted : Untouched (put_result r.id (recounted code image) s) (
        note_change now (record r { repo_name = repo }) (tally code) (tally image)
          (put_result r.id (recounted code image) s)) =
      note_change-Untouched now (record r { repo_name = repo }) (tally code) (tally image)
        (put_result r.id (recounted code image) s) in
    record {
      findings = noted.findings;
      suppressions = noted.suppressions;
      next_suppression = noted.next_suppression;
      repositories = noted.repositories;
      audit = noted.audit;
    }

pub recount_repo-Untouched :
    (now : ℕ) (repo : String) (s : Store) → Untouched s (recount_repo now repo s)
unfolding recount_repo
recount_repo-Untouched now repo s = recount_result-Untouched now repo (result_of repo s) s

open_findings-same :
    (now : ℕ) (repo domain : String) (s u : Store)
    → Untouched s u
    → open_findings now repo domain u ≡ open_findings now repo domain s
unfolding open_findings
open_findings-same now repo domain s u h =
    ap
      (λ t.
        open_findings now repo domain (record s { findings = t; suppressions = u.suppressions }))
      h.findings
    ∙ ap (λ d. open_findings now repo domain (record s { suppressions = d })) h.suppressions

same_counts_self : (a : Counts) → same_counts a a ≡ true
unfolding same_counts
same_counts_self a = ground arith

update-again :
    (i : ℕ) (code image : List Finding) (rs : List Result)
    → update_where
        (λ (r : Result). r.id == i)
        (recounted code image)
        (update_where (λ (r : Result). r.id == i) (recounted code image) rs)
      ≡ update_where (λ (r : Result). r.id == i) (recounted code image) rs
unfolding update_where recounted
update-again i code image [] = refl
update-again i code image (r ∷ rs) =
    ap₂ (λ x xs. x ∷ xs) (at_head (r.id == i) refl) (update-again i code image rs)
  where
    at_head :
        (b : Bool)
        → (r.id == i) ≡ b
        → (if (if b then recounted code image r else r).id == i
            then recounted code image (if b then recounted code image r else r)
            else (if b then recounted code image r else r))
          ≡ (if b then recounted code image r else r)
    at_head true e = rw e refl
    at_head false e = rw e refl

-- A recount that finds the numbers as they are.
quiet :
    (now : ℕ) (repo : String) (u : Store) (x : Result)
    → result_of repo u ≡ some x
    → x.code ≡ tally (open_findings now repo domain_code u)
    → x.image ≡ tally (open_findings now repo domain_image u)
    → recount_repo now repo u
      ≡ put_result x.id
          (recounted (open_findings now repo domain_code u) (open_findings now repo domain_image u))
          u
unfolding recount_repo recount_result note_change
quiet now repo u x found c i = rw found (
    rw
      (ap₂
          (λ a b.
            same_counts a (tally (open_findings now repo domain_code u))
            && same_counts b (tally (open_findings now repo domain_image u)))
          c i
        ∙ ap₂ (λ a b. a && b) (same_counts_self (tally (open_findings now repo domain_code u)))
            (same_counts_self (tally (open_findings now repo domain_image u))))
      refl)

module _ (now : ℕ) (repo : String) (s : Store) (r : Result)
    (found : result_of repo s ≡ some r) where
  abbrev code : List Finding
  code = open_findings now repo domain_code s

  abbrev image : List Finding
  image = open_findings now repo domain_image s

  abbrev after : Store
  after = recount_repo now repo s

  after-results : after.results ≡ (put_result r.id (recounted code image) s).results
  unfolding recount_repo recount_result
  after-results = rw found (
      note_change-results now (record r { repo_name = repo }) (tally code) (tally image)
        (put_result r.id (recounted code image) s))

  after-result : result_of repo after ≡ some (recounted code image r)
  unfolding recounted
  after-result =
      ap (find_first (λ (x : Result). x.repo_name =s repo)) after-results
      ∙ find_first-update_where (λ (x : Result). x.repo_name =s repo) (λ (x : Result). x.id == r.id)
          (recounted code image) s.results (λ x. refl) found
      ∙ ground arith

  after-open :
      (domain : String) → open_findings now repo domain after ≡ open_findings now repo domain s
  after-open domain = open_findings-same now repo domain s after (recount_repo-Untouched now repo s)

  again : recount_repo now repo after ≡ after
  unfolding recounted
  again =
      quiet now repo after (recounted code image r) after-result
        (ap tally (sym (after-open domain_code))) (ap tally (sym (after-open domain_image)))
      ∙ ap₂ (λ c i. put_result r.id (recounted c i) after) (after-open domain_code)
          (after-open domain_image)
      ∙ ap (λ (rs : List Result). record after { results = rs })
          (ap (update_where (λ (x : Result). x.id == r.id) (recounted code image)) after-results
            ∙ update-again r.id code image s.results
            ∙ sym after-results)

  -- A recount of a repository that has a result stores the numbers, by severity and kind, of the
  -- rows that are not resolved and that no decision in force is about, and how many rows such a
  -- decision is about, and leaves the other columns; a second recount at the same moment changes
  -- nothing and adds no point to the history.
  pub recount_repo-settles :
      ((u : Result) × ((result_of repo after ≡ some u) × IsCounted now repo s r u))
      × (recount_repo now repo after ≡ after)
  recount_repo-settles =
      ((recounted code image r, (after-result, recounted-IsCounted now repo s r)), again)
