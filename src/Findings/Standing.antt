-- ===== src/Findings/Standing.antt =====
-- The numbers of a repository, said of the rows and the decisions themselves: what openFindings and
-- the counts of backend/handlers/scan_findings.go come to.
use commitkube.Base.{
  count_where-map, count_where-sort_stable, count_where, ℕ, ◌≡◌, refl, sym, ap, ◌∙◌, String, Bool,
  true, false, not, Option, none, some, List, [], ◌∷◌, ◌&&◌, ◌||◌, ◌=s◌, ltb, any_where,
  select_where, All, map, arith, inl, inr,
}
use commitkube.Findings.Finding.{Suppression, Finding}
use commitkube.Findings.Table.{is_resolved, is_of, finding_from_row, Row}
use commitkube.Findings.Suppress.{
  about_vuln, active_suppressions, is_expired, apply_suppressions, best_from, decide, marked,
}
use commitkube.Findings.Deliberate.{decide-Best, Among, Best, applies}
use commitkube.Findings.Store.{comes_before, open_rows, open_findings, Store}

-- The rows of a repository and domain that are not resolved.
abbrev pub standing : String → String → Store → List Row
standing repo domain s =
    select_where
      (λ (r : Row).
        r.repo_name =s repo
        && r.domain =s domain
        && elim r.resolved_at [ none ↦ true | some t ↦ false ])
      s.findings.rows

-- A decision for the repository or for all that has not expired.
abbrev pub is_in_force : ℕ → String → Suppression → Bool
is_in_force now repo d =
    (d.repo_name =s repo || d.repo_name =s "")
    && elim d.expires_at [ none ↦ true | some t ↦ not (ltb t now) ]

-- Some decision in force is about the row.
abbrev pub is_waived : ℕ → String → Store → Row → Bool
is_waived now repo s r =
    any_where
      (λ (d : Suppression).
        is_in_force now repo d && (d.vuln_id =s r.vuln_id && (d.pkg =s "" || d.pkg =s r.pkg)))
      s.suppressions

any_where-select_where {ℓ} :
    {A : Type ℓ} (p q : A → Bool) (xs : List A)
    → any_where p (select_where q xs) ≡ any_where (λ x. q x && p x) xs
unfolding any_where select_where
any_where-select_where p q [] = refl
any_where-select_where p q (x ∷ xs) = ground (arith, any_where-select_where p q xs)

any_where-same {ℓ} :
    {A : Type ℓ} (p q : A → Bool) (xs : List A)
    → ((x : A) → p x ≡ q x)
    → any_where p xs ≡ any_where q xs
unfolding any_where
any_where-same p q [] h = refl
any_where-same p q (x ∷ xs) h = ground (arith, h x, any_where-same p q xs h)

none-applies :
    (f : Finding) (sups : List Suppression)
    → All (λ (d : Suppression). applies f d ≡ false) sups
    → any_where (applies f) sups ≡ false
unfolding any_where
none-applies f [] h = refl
none-applies f (d ∷ sups) h = ground (arith, h.0, none-applies f sups h.1)

some-applies :
    (f : Finding) (b : Suppression) (sups : List Suppression)
    → Among b sups
    → applies f b ≡ true
    → any_where (applies f) sups ≡ true
unfolding any_where
some-applies f b [] m on = absurd m
some-applies f b (d ∷ sups) m on = elim m [
  | inl e ↦ ground (arith, ap (applies f) e ∙ on)
  | inr h ↦ ground (arith, some-applies f b sups h on)
]

marked-suppressed :
    (f : Finding) (sups : List Suppression) (o : Option Suppression)
    → f.suppressed ≡ false
    → Best f sups o
    → (marked o f).suppressed ≡ any_where (applies f) sups
unfolding marked
marked-suppressed f sups none e h = e ∙ sym (none-applies f sups h)
marked-suppressed f sups (some b) e h = sym (some-applies f b sups h.0 h.1.0)

marked-rest :
    (f : Finding) (o : Option Suppression)
    → ((marked o f).severity ≡ f.severity) × ((marked o f).kind ≡ f.kind)
unfolding marked
marked-rest f none = (refl, refl)
marked-rest f (some b) = (refl, refl)

apply-decide :
    (rows : List Finding) (sups : List Suppression)
    → apply_suppressions rows sups ≡ map (decide sups) rows
unfolding apply_suppressions decide best_from marked select_where
apply-decide rows (d ∷ sups) = refl
apply-decide rows [] = sym (map-self rows)
  where
    map-self : (xs : List Finding) → map (λ f. f) xs ≡ xs
    map-self [] = refl
    map-self (x ∷ xs) = ap (λ ys. x ∷ ys) (map-self xs)

select_where-same {ℓ} :
    {A : Type ℓ} (p q : A → Bool) (xs : List A)
    → ((x : A) → p x ≡ q x)
    → select_where p xs ≡ select_where q xs
unfolding select_where
select_where-same p q [] h = refl
select_where-same p q (x ∷ xs) h = ground (arith, h x, select_where-same p q xs h)

count_where-pointwise {ℓ} :
    {A : Type ℓ} (p q : A → Bool) (xs : List A)
    → ((x : A) → p x ≡ q x)
    → count_where p xs ≡ count_where q xs
unfolding count_where
count_where-pointwise p q [] h = refl
count_where-pointwise p q (x ∷ xs) h = ground (arith, h x, count_where-pointwise p q xs h)

module _ (now : ℕ) (repo : String) (s : Store) where
  abbrev active : List Suppression
  active = active_suppressions now repo s.suppressions

  in_force-lem :
      (d : Suppression)
      → ((d.repo_name =s repo || d.repo_name =s "") && not (is_expired now d.expires_at))
        ≡ is_in_force now repo d
  unfolding is_expired
  in_force-lem d = at_date d.expires_at
    where
      at_date :
          (o : Option ℕ)
          → ((d.repo_name =s repo || d.repo_name =s "") && not (is_expired now o)) ≡ (
              (d.repo_name =s repo || d.repo_name =s "")
              && elim o [ none ↦ true | some t ↦ not (ltb t now) ])
      at_date none = refl
      at_date (some t) = refl

  -- A finding is shown as suppressed where some decision in force is about its row.
  decide-is_waived :
      (r : Row) → (decide active (finding_from_row r)).suppressed ≡ is_waived now repo s r
  unfolding decide active_suppressions finding_from_row
  decide-is_waived r =
      let f : Finding = finding_from_row r in
      marked-suppressed f active (best_from f none (about_vuln f.vuln_id active)) refl
        (decide-Best f active)
      ∙ any_where-select_where (applies f) (λ (d : Suppression). not (is_expired now d.expires_at))
          (select_where (λ (d : Suppression). d.repo_name =s repo || d.repo_name =s "")
            s.suppressions)
      ∙ any_where-select_where
          (λ (d : Suppression). not (is_expired now d.expires_at) && applies f d)
          (λ (d : Suppression). d.repo_name =s repo || d.repo_name =s "") s.suppressions
      ∙ any_where-same
          (λ (d : Suppression).
            (d.repo_name =s repo || d.repo_name =s "")
            && (not (is_expired now d.expires_at) && applies f d))
          (λ (d : Suppression). is_in_force now repo d && applies f d) s.suppressions
          (λ d. ground (arith, in_force-lem d))

  standing-open_rows : (domain : String) → open_rows repo domain s.findings ≡ standing repo domain s
  unfolding open_rows
  standing-open_rows domain =
      select_where-same (λ (r : Row). is_of repo domain r && not (is_resolved r))
        (λ (r : Row).
          r.repo_name =s repo
          && r.domain =s domain
          && elim r.resolved_at [ none ↦ true | some t ↦ false ])
        s.findings.rows (λ r. at_date r r.resolved_at)
    where
      at_date :
          (r : Row) (o : Option ℕ)
          → (is_of repo domain r && not (is_resolved (record r { resolved_at = o })))
            ≡ (r.repo_name =s repo && r.domain =s domain && elim o [ none ↦ true | some t ↦ false ])
      at_date r none = refl
      at_date r (some t) = refl

  -- A count of the findings that a person is shown is a count of rows.
  pub count-open :
      (domain : String) (p : Finding → Bool) (q : Row → Bool)
      → ((r : Row) → p (decide active (finding_from_row r)) ≡ q r)
      → count_where p (open_findings now repo domain s) ≡ count_where q (standing repo domain s)
  unfolding open_findings
  count-open domain p q h =
      let rows : List Row = open_rows repo domain s.findings in
      count_where-sort_stable comes_before p (apply_suppressions (map finding_from_row rows) active)
      ∙ ap (count_where p) (apply-decide (map finding_from_row rows) active)
      ∙ count_where-map (decide active) p (map finding_from_row rows)
      ∙ count_where-map finding_from_row (λ f. p (decide active f)) rows
      ∙ count_where-pointwise (λ r. p (decide active (finding_from_row r))) q rows h
      ∙ ap (count_where q) (standing-open_rows domain)

  -- The numbers of the rows that stand and that no decision in force is about.
  abbrev pub unwaived : String → (Row → Bool) → ℕ
  unwaived domain p =
      count_where (λ (r : Row). not (is_waived now repo s r) && p r) (standing repo domain s)

  abbrev pub waived : String → ℕ
  waived domain = count_where (is_waived now repo s) (standing repo domain s)

  pub count-unwaived :
      (domain : String) (p : Finding → Bool) (q : Row → Bool)
      → ((o : Option Suppression) (r : Row)
          → p (marked o (finding_from_row r))
            ≡ (not (marked o (finding_from_row r)).suppressed && q r))
      → count_where p (open_findings now repo domain s) ≡ unwaived domain q
  unfolding decide
  count-unwaived domain p q h =
      count-open domain p (λ (r : Row). not (is_waived now repo s r) && q r)
        (λ r.
          h (best_from (finding_from_row r) none (about_vuln (finding_from_row r).vuln_id active)) r
          ∙ ap (λ b. not b && q r) (decide-is_waived r))

  pub count-waived :
      (domain : String)
      → count_where (λ (f : Finding). f.suppressed) (open_findings now repo domain s)
        ≡ waived domain
  count-waived domain =
      count-open domain (λ (f : Finding). f.suppressed) (is_waived now repo s) decide-is_waived
