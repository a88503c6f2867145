-- ===== src/Findings/Decided.antt =====
-- The decisions as a map from a repository, a weakness and a package: what CreateScanSuppression and
-- DeleteScanSuppression of backend/handlers/scan_findings.go make of it.
use mathlib.Core.Option.{some-injective}
use commitkube.Findings.Asked.{
  IsFit, IsFor, no_problem-IsFit, IsFit-no_problem, decision_of-IsFor, none-parts,
}
use commitkube.Findings.Triaged.{
  IsTriaged, drop-IsTriaged, recount_affected-suppressions, recount_affected-next, replace-next,
  replaced, replaced-other,
}
use commitkube.Base.{
  ℕ, ◌+◌, ◌≤◌, ◌<◌, ◌≡◌, refl, sym, ap, ◌∙◌, subst, String, true, Option, none, some, List, [], ◌∷◌,
  ◌++◌, ◌==◌, ◌=s◌, ◌&&◌, if◌then◌else◌, find_first, find_first-back, count_where,
  count_where-append, All-append, All-weaken, DistinctKeys-snoc, count-zero-none, arith, Bool-cases,
  inl, inr, =s_true, find_first-snoc, Bool,
}
use commitkube.Findings.Finding.{Suppression}
use commitkube.Findings.Store.{Store}
use commitkube.Findings.Decisions.{
  Env, Request, Problem, Answer, refused, created, removed, is_about, drop_decision, replace,
  insert_decision, log_decision, recount_affected, decision_of, create_decision,
  create_scan_suppression, delete_decision, delete_scan_suppression, trimmed, request_problem,
  expiry_problem, first_problem,
}

module _ (e : Env) (uid : ℕ) (q : Request) (s : Store)
    (t : IsTriaged s.suppressions s.next_suppression) where
  abbrev old : Option Suppression
  old = find_first (is_about q.repo_name q.vuln_id q.pkg) s.suppressions

  abbrev sup : Suppression
  sup = decision_of e uid q s

  after-create :
      (create_decision e uid q none s).1.suppressions ≡ (replace old s).suppressions ++ sup ∷ []
  unfolding create_decision insert_decision
  after-create =
      recount_affected-suppressions e.now sup
        (log_decision uid "suppress_finding" sup (insert_decision sup (replace old s)))

  kept :
      (count_where (is_about q.repo_name q.vuln_id q.pkg) (replace old s).suppressions ≡ 0)
      × IsTriaged (replace old s).suppressions s.next_suppression
  kept = replaced q.repo_name q.vuln_id q.pkg old s s.next_suppression refl t

  sup-about :
      (r v p : String) → is_about r v p sup ≡ (q.repo_name =s r && q.vuln_id =s v && q.pkg =s p)
  unfolding decision_of is_about
  sup-about r v p = refl

  zero-about :
      (r v p : String)
      → (q.repo_name =s r && q.vuln_id =s v && q.pkg =s p) ≡ true
      → count_where (is_about r v p) (replace old s).suppressions ≡ 0
  zero-about r v p h =
      ap (λ a. count_where (is_about a v p) (replace old s).suppressions)
        (sym (=s_true q.repo_name r (ground (arith, h))))
      ∙ ap (λ a. count_where (is_about q.repo_name a p) (replace old s).suppressions)
          (sym (=s_true q.vuln_id v (ground (arith, h))))
      ∙ ap (λ a. count_where (is_about q.repo_name q.vuln_id a) (replace old s).suppressions)
          (sym (=s_true q.pkg p (ground (arith, h))))
      ∙ kept.0

  found_alone :
      (r v p : String)
      → is_about r v p sup ≡ true
      → find_first (is_about r v p) (sup ∷ []) ≡ some sup
  unfolding find_first
  found_alone r v p h = rw h refl

  single-created :
      (r v p : String) → count_where (is_about r v p) ((replace old s).suppressions ++ sup ∷ []) ≤ 1
  unfolding count_where
  single-created r v p = elim (Bool-cases (q.repo_name =s r && q.vuln_id =s v && q.pkg =s p)) [
    | inl h ↦ ground (
      arith,
      zero-about r v p h,
      count_where-append (is_about r v p) (replace old s).suppressions (sup ∷ []),
    )
    | inr h ↦ ground (
      arith,
      sup-about r v p ∙ h,
      kept.1.unique r v p,
      count_where-append (is_about r v p) (replace old s).suppressions (sup ∷ []),
    )
  ]

  pub created-found :
      (r v p : String)
      → find_first (is_about r v p) (create_decision e uid q none s).1.suppressions ≡ (
          if q.repo_name =s r && q.vuln_id =s v && q.pkg =s p
          then some sup
          else find_first (is_about r v p) s.suppressions)
  created-found r v p = elim (Bool-cases (q.repo_name =s r && q.vuln_id =s v && q.pkg =s p)) [
    | inl h ↦ rw h (
        ap (find_first (is_about r v p)) after-create
        ∙ find_first-back (is_about r v p) (replace old s).suppressions (sup ∷ [])
            (count-zero-none (is_about r v p) (replace old s).suppressions (zero-about r v p h))
        ∙ found_alone r v p (sup-about r v p ∙ h))
    | inr h ↦ rw h (
        ap (find_first (is_about r v p)) after-create
        ∙ find_first-snoc (is_about r v p) (replace old s).suppressions sup (sup-about r v p ∙ h)
        ∙ replaced-other q.repo_name q.vuln_id q.pkg r v p old s s.next_suppression refl t h)
  ]

  pub created-IsTriaged :
      IsTriaged (create_decision e uid q none s).1.suppressions (s.next_suppression + 1)
  unfolding decision_of
  created-IsTriaged =
      subst (λ l. IsTriaged l (s.next_suppression + 1)) (sym after-create)
        (record {
          distinct =
              DistinctKeys-snoc (λ (x : Suppression). x.id) (replace old s).suppressions sup
                kept.1.below kept.1.distinct;
          below =
              All-append (λ (x : Suppression). x.id < s.next_suppression + 1)
                (replace old s).suppressions (sup ∷ [])
                (All-weaken (λ (x : Suppression). x.id < s.next_suppression)
                  (λ (x : Suppression). x.id < s.next_suppression + 1) (replace old s).suppressions
                  (λ x b. omega (arith, b)) kept.1.below)
                (omega arith, tt);
          unique = single-created;
        })

-- A decision of a repository about a weakness of a package.
abbrev pub about : String → String → String → Suppression → Bool
about r v p x = x.repo_name =s r && x.vuln_id =s v && x.pkg =s p

-- An unfit request is refused and changes nothing. For a fit one the decision about its repository,
-- weakness and package is the new one, which says what was asked, and every other is what it was.
abbrev pub Decides : Env → ℕ → Option Request → Answer × Store → Store → Type 0
Decides e uid q (refused p, u) s = (u ≡ s) × ((r : Request) → q ≡ some r → IsFit e r s → ⊥)
Decides e uid q (created sup, u) s =
    ((r : Request) × ((q ≡ some r) × (IsFit e r s × IsFor e uid r sup)))
    × ((r v p : String)
        → find_first (about r v p) u.suppressions
          ≡ (if about r v p sup then some sup else find_first (about r v p) s.suppressions))
Decides e uid q (removed, u) s = ⊥

create_decision-Decides :
    (e : Env) (uid : ℕ) (q : Request) (o : Option Problem) (s : Store)
    → first_problem (request_problem (trimmed q) s) (expiry_problem e (trimmed q).expires_at) ≡ o
    → IsTriaged s.suppressions s.next_suppression
    → Decides e uid (some q) (create_decision e uid (trimmed q) o s) s
unfolding create_decision is_about decision_of
create_decision-Decides e uid q none s h t = (
  (
    q,
    (
      refl,
      (
        no_problem-IsFit e q s h,
        decision_of-IsFor e uid q s
            (none-parts (request_problem (trimmed q) s) (expiry_problem e (trimmed q).expires_at)
              h).1,
      ),
    ),
  ),
  created-found e uid (trimmed q) s t,
)
create_decision-Decides e uid q (some p) s h t = (
  refl,
  λ r same fit. absurd (
      ground (
        arith,
        IsFit-no_problem e q s (subst (λ x. IsFit e x s) (some-injective r q (sym same)) fit),
        h,
      )),
)

-- A request to decide is refused, and changes nothing, exactly where it is unfit. For a fit one
-- the decision about its repository, weakness and package becomes one that says what the request
-- asks for, and every other stays. Fit is a request with a weakness, one of the four reasons, a
-- note unless the reason is a false positive, a known repository where one is named, and a date
-- that has not passed where one is given; before it no two decisions are about the same.
pub create_scan_suppression-Decides :
    (e : Env) (uid : ℕ) (q : Option Request) (s : Store)
    → IsTriaged s.suppressions s.next_suppression
    → Decides e uid q (create_scan_suppression e uid q s) s
unfolding create_scan_suppression
create_scan_suppression-Decides e uid none s t = (refl, λ r same fit. absurd (ground (arith, same)))
create_scan_suppression-Decides e uid (some q) s t =
    create_decision-Decides e uid q
      (first_problem (request_problem (trimmed q) s) (expiry_problem e (trimmed q).expires_at)) s
      refl t

create_decision-IsTriaged :
    (e : Env) (uid : ℕ) (q : Request) (o : Option Problem) (s : Store)
    → IsTriaged s.suppressions s.next_suppression
    → IsTriaged
        (create_decision e uid q o s).1.suppressions
        (create_decision e uid q o s).1.next_suppression
unfolding create_decision insert_decision
create_decision-IsTriaged e uid q none s t =
    subst (IsTriaged (create_decision e uid q none s).1.suppressions)
      (sym (
        recount_affected-next e.now (decision_of e uid q s) (
          log_decision uid "suppress_finding" (decision_of e uid q s) (
            insert_decision (decision_of e uid q s)
              (replace (find_first (is_about q.repo_name q.vuln_id q.pkg) s.suppressions) s)))
        ∙ ap (λ n. n + 1)
            (replace-next (find_first (is_about q.repo_name q.vuln_id q.pkg) s.suppressions) s)))
      (created-IsTriaged e uid q s t)
create_decision-IsTriaged e uid q (some p) s t = t

delete_decision-IsTriaged :
    (now uid : ℕ) (o : Option Suppression) (s : Store)
    → IsTriaged s.suppressions s.next_suppression
    → IsTriaged
        (delete_decision now uid o s).1.suppressions
        (delete_decision now uid o s).1.next_suppression
unfolding delete_decision
delete_decision-IsTriaged now uid none s t = t
delete_decision-IsTriaged now uid (some sup) s t =
    let dropped = log_decision uid "unsuppress_finding" sup (drop_decision sup.id s) in
    subst (λ l. IsTriaged l (recount_affected now sup dropped).next_suppression)
      (sym (recount_affected-suppressions now sup dropped))
      (subst (IsTriaged dropped.suppressions) (sym (recount_affected-next now sup dropped))
        (drop-IsTriaged sup.id s s.next_suppression t))

-- A request of the handlers on the decisions.
pub data Step : Type 0 where
  create : Env → ℕ → Option Request → Step
  delete : ℕ → ℕ → ℕ → Step

abbrev pub run : Step → Store → Store
run (create e uid q) s = (create_scan_suppression e uid q s).1
run (delete now uid i) s = (delete_scan_suppression now uid i s).1

abbrev pub run_all : List Step → Store → Store
run_all [] s = s
run_all (x ∷ xs) s = run_all xs (run x s)

run-IsTriaged :
    (x : Step) (s : Store)
    → IsTriaged s.suppressions s.next_suppression
    → IsTriaged (run x s).suppressions (run x s).next_suppression
unfolding create_scan_suppression delete_scan_suppression
run-IsTriaged (create e uid none) s t = t
run-IsTriaged (create e uid (some q)) s t =
    create_decision-IsTriaged e uid (trimmed q)
      (first_problem (request_problem (trimmed q) s) (expiry_problem e (trimmed q).expires_at)) s t
run-IsTriaged (delete now uid i) s t =
    delete_decision-IsTriaged now uid (find_first (λ (x : Suppression). x.id == i) s.suppressions) s
      t

-- Whatever is decided and taken back in whatever order, no two decisions are about the same
-- weakness and package of a repository, and their keys stay distinct.
pub run_all-IsTriaged :
    (xs : List Step) (s : Store)
    → IsTriaged s.suppressions s.next_suppression
    → IsTriaged (run_all xs s).suppressions (run_all xs s).next_suppression
run_all-IsTriaged [] s t = t
run_all-IsTriaged (x ∷ xs) s t = run_all-IsTriaged xs (run x s) (run-IsTriaged x s t)
