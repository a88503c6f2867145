-- ===== src/Findings/Triaged.antt =====
-- No two decisions are about the same, and what a write of one leaves: the suppressions of
-- backend/handlers/scan_findings.go.
use commitkube.Findings.Table.{Row, is_resolved}
use commitkube.Base.{
  ℕ, ◌≤◌, ◌<◌, ◌≡◌, refl, ap, ◌∙◌, String, Bool, true, false, Option, none, some, List, [], ◌∷◌,
  ◌==◌, ◌=s◌, ◌&&◌, if◌then◌else◌, find_first, find_first-holds, count_where, All, All-delete_where,
  All-weaken, DistinctKeys, DistinctKeys-delete_where, only_keyed, find_first-delete_where,
  find_first-none, count_where-delete_where-zero, count_where-delete_where-le, arith, Bool-cases,
  inl, inr, =s_true, not, select_where,
}
use commitkube.Findings.Finding.{Suppression}
use commitkube.Findings.Store.{Store, recount_repo}
use commitkube.Findings.Recount.{recount_repo-Untouched}
use commitkube.Findings.Decisions.{
  is_about, drop_decision, replace, recount_all, recount_affected, distinct_repos,
}

-- The keys are distinct and below the next one, and no two decisions are about the same.
pub record IsTriaged (sups : List Suppression) (next : ℕ) : Type 0 where
  pub distinct : DistinctKeys (λ (x : Suppression). x.id) sups
  pub below : All (λ (x : Suppression). x.id < next) sups
  pub unique : (repo vuln pkg : String) → count_where (is_about repo vuln pkg) sups ≤ 1

recount_all-suppressions :
    (now : ℕ) (rs : List String) (s : Store) → (recount_all now rs s).suppressions ≡ s.suppressions
unfolding recount_all
recount_all-suppressions now [] s = refl
recount_all-suppressions now (r ∷ rs) s =
    recount_all-suppressions now rs (recount_repo now r s)
    ∙ (recount_repo-Untouched now r s).suppressions

pub recount_affected-suppressions :
    (now : ℕ) (sup : Suppression) (s : Store)
    → (recount_affected now sup s).suppressions ≡ s.suppressions
unfolding recount_affected
recount_affected-suppressions now sup s = at_repo (sup.repo_name =s "")
  where
    at_repo :
        (b : Bool)
        → (if not b
            then recount_repo now sup.repo_name s
            else recount_all now
                (distinct_repos (
                  select_where
                    (λ (r : Row). r.vuln_id =s sup.vuln_id && not (is_resolved r))
                    s.findings.rows))
                s).suppressions
          ≡ s.suppressions
    at_repo true =
        recount_all-suppressions now
          (distinct_repos (
            select_where (λ (r : Row). r.vuln_id =s sup.vuln_id && not (is_resolved r))
              s.findings.rows))
          s
    at_repo false = (recount_repo-Untouched now sup.repo_name s).suppressions

pub drop-IsTriaged :
    (i : ℕ) (s : Store) (next : ℕ)
    → IsTriaged s.suppressions next
    → IsTriaged (drop_decision i s).suppressions next
drop-IsTriaged i s next t = record {
  distinct =
      DistinctKeys-delete_where (λ (x : Suppression). x.id) (λ (x : Suppression). x.id == i)
        s.suppressions t.distinct;
  below =
      All-delete_where (λ (x : Suppression). x.id < next) (λ (x : Suppression). x.id == i)
        s.suppressions t.below;
  unique = λ r v p. omega (
    arith,
    t.unique r v p,
    count_where-delete_where-le (is_about r v p) (λ (x : Suppression). x.id == i) s.suppressions,
  );
}

recount_all-next :
    (now : ℕ) (rs : List String) (s : Store)
    → (recount_all now rs s).next_suppression ≡ s.next_suppression
unfolding recount_all
recount_all-next now [] s = refl
recount_all-next now (r ∷ rs) s =
    recount_all-next now rs (recount_repo now r s)
    ∙ (recount_repo-Untouched now r s).next_suppression

pub recount_affected-next :
    (now : ℕ) (sup : Suppression) (s : Store)
    → (recount_affected now sup s).next_suppression ≡ s.next_suppression
unfolding recount_affected
recount_affected-next now sup s = elim (Bool-cases (sup.repo_name =s "")) [
  | inl e ↦ rw e (
      recount_all-next now
        (distinct_repos (
          select_where (λ (r : Row). r.vuln_id =s sup.vuln_id && not (is_resolved r))
            s.findings.rows))
        s)
  | inr e ↦ rw e ((recount_repo-Untouched now sup.repo_name s).next_suppression)
]

pub replace-next :
    (o : Option Suppression) (s : Store) → (replace o s).next_suppression ≡ s.next_suppression
unfolding replace
replace-next none s = refl
replace-next (some old) s = refl

-- The store after an accepted request, without the recount.
pub replaced :
    (repo vuln pkg : String) (o : Option Suppression) (s : Store) (next : ℕ)
    → find_first (is_about repo vuln pkg) s.suppressions ≡ o
    → IsTriaged s.suppressions next
    → (count_where (is_about repo vuln pkg) (replace o s).suppressions ≡ 0)
      × IsTriaged (replace o s).suppressions next
unfolding replace
replaced repo vuln pkg none s next e t =
    (find_first-none (is_about repo vuln pkg) s.suppressions e, t)
replaced repo vuln pkg (some old) s next e t = (
  count_where-delete_where-zero (is_about repo vuln pkg) (λ (x : Suppression). x.id == old.id)
      s.suppressions old (t.unique repo vuln pkg) e (ground arith),
  drop-IsTriaged old.id s next t,
)

pub is_about-fields :
    (repo vuln pkg r v p : String) (x : Suppression)
    → is_about repo vuln pkg x ≡ true
    → is_about r v p x ≡ (repo =s r && vuln =s v && pkg =s p)
unfolding is_about
is_about-fields repo vuln pkg r v p x h =
    ap (λ a. a =s r && x.vuln_id =s v && x.pkg =s p) (=s_true x.repo_name repo (ground (arith, h)))
    ∙ ap (λ a. repo =s r && a =s v && x.pkg =s p) (=s_true x.vuln_id vuln (ground (arith, h)))
    ∙ ap (λ a. repo =s r && vuln =s v && a =s p) (=s_true x.pkg pkg (ground (arith, h)))

-- What is about something else stays.
pub replaced-other :
    (repo vuln pkg r v p : String) (o : Option Suppression) (s : Store) (next : ℕ)
    → find_first (is_about repo vuln pkg) s.suppressions ≡ o
    → IsTriaged s.suppressions next
    → (repo =s r && vuln =s v && pkg =s p) ≡ false
    → find_first (is_about r v p) (replace o s).suppressions
      ≡ find_first (is_about r v p) s.suppressions
unfolding replace
replaced-other repo vuln pkg r v p none s next e t apart = refl
replaced-other repo vuln pkg r v p (some old) s next e t apart =
    find_first-delete_where (is_about r v p) (λ (x : Suppression). x.id == old.id) s.suppressions
      (All-weaken (λ (x : Suppression). (x.id == old.id) ≡ true → x ≡ old)
        (λ (x : Suppression). (x.id == old.id) ≡ true → is_about r v p x ≡ false) s.suppressions
        (λ x h on.
          ap (is_about r v p) (h on)
          ∙ is_about-fields repo vuln pkg r v p old
              (find_first-holds (is_about repo vuln pkg) s.suppressions e)
          ∙ apart)
        (only_keyed (λ (x : Suppression). x.id) (is_about repo vuln pkg) s.suppressions old
          t.distinct e))
