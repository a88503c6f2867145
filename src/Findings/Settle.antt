-- ===== src/Findings/Settle.antt =====
-- The finding that a report names, at the table: the loop of reconcileFindings in
-- backend/handlers/scan_findings.go opens it, and an open one keeps its date.
use commitkube.Base.{
  ℕ, ◌≤◌, ◌≡◌, refl, ap, ◌∙◌, subst, String, true, false, Option, none, some, List, [], ◌∷◌,
  find_first, count_where, any_where, select_where, DistinctKeys, arith, find_first-back, =s_self,
  map, inl, inr, Bool-cases,
}
use commitkube.Findings.Finding.{
  Finding, Identity, identity, same_identity, same_identity-true, same_identity_self,
}
use commitkube.Findings.Table.{
  Row, Pass, is_of, is_resolved, refreshed, reopened, differs, new_row, is_seen, place, visit,
  visit_all,
}
use commitkube.Findings.Spec.{
  at_place, since, is_reported, part, refreshed-part, reopened-part, by_identity-existing,
}
use commitkube.Findings.Visit.{write-same, new_row-at}
use commitkube.Findings.Walk.{
  InDomain, opened, Views, visit-seen, visit-part, visit-other, visit_all-quiet,
}

-- A finding of the report after the loop: a new row of today, or the row that it had, open.
abbrev pub Settled : String → ℕ → Option Row → Identity → Pass → Type 0
Settled repo at none i p =
    (find_first (at_place repo i) p.rows ≡ none)
    × (since (find_first (at_place repo i) p.created) ≡ some at)
Settled repo at (some a) i p =
    (b : Row) × ((find_first (at_place repo i) p.rows ≡ some b)
      × (since (some b) ≡ some (opened at (since (some a)))))

find_first-new_row :
    (repo : String) (at : ℕ) (f : Finding)
    → find_first (at_place repo (identity f)) (new_row repo at f ∷ []) ≡ some (new_row repo at f)
unfolding find_first
find_first-new_row repo at f =
    ground
      (arith, new_row-at repo at f repo (identity f), =s_self repo, same_identity_self (identity f))

since-new_row : (repo : String) (at : ℕ) (f : Finding) → since (some (new_row repo at f)) ≡ some at
unfolding since new_row
since-new_row repo at f = refl

since-reopened :
    (at : ℕ) (f : Finding) (r : Row)
    → is_resolved r ≡ true
    → since (some (reopened at f r)) ≡ some (opened at (since (some r)))
unfolding since reopened refreshed
since-reopened at f r e = rw e refl

since-kept :
    (at : ℕ) (r : Row) → is_resolved r ≡ false → since (some r) ≡ some (opened at (since (some r)))
unfolding since
since-kept at r e = rw e refl

since-refreshed :
    (at : ℕ) (f : Finding) (r : Row)
    → is_resolved r ≡ false
    → since (some (refreshed at f r)) ≡ some (opened at (since (some r)))
unfolding since refreshed
since-refreshed at f r e = rw e refl

module _ (repo domain : String) (at : ℕ) (start : List Row)
    (distinct : DistinctKeys (λ (r : Row). r.id) start)
    (one : (i : Identity) → count_where (at_place repo i) start ≤ 1) where
  Settled-Views :
      (o : Option Row) (i : Identity) (p q : Pass)
      → Views repo domain at start distinct one repo i q p
      → Settled repo at o i p
      → Settled repo at o i q
  Settled-Views none i p q v s = (v.0 ∙ s.0, ap since v.1 ∙ s.1)
  Settled-Views (some a) i p q v s = (s.0, (v.0 ∙ s.1.0, s.1.1))

  place-Settled :
      (f : Finding) (o : Option Row) (p : Pass)
      → find_first (at_place repo (identity f)) start ≡ o
      → find_first (at_place repo (identity f)) p.rows ≡ o
      → find_first (at_place repo (identity f)) p.created ≡ none
      → map part start ≡ map part p.rows
      → Settled repo at o (identity f) (place repo at f o p)
  unfolding place
  place-Settled f none p e now none_yet same = (
    now,
    ap since (
          find_first-back (at_place repo (identity f)) p.created (new_row repo at f ∷ []) none_yet
          ∙ find_first-new_row repo at f)
        ∙ since-new_row repo at f,
  )
  place-Settled f (some cur) p e now none_yet same = elim (Bool-cases (is_resolved cur)) [
    | inl a ↦ rw a (
      reopened at f cur,
      (
        write-same repo domain at start distinct one f cur (reopened at f) (reopened-part at f) e
            p.rows same now,
        since-reopened at f cur a,
      ),
    )
    | inr a ↦ elim (Bool-cases (differs cur f)) [
      | inl b ↦ rw a (
          rw b (
            refreshed at f cur,
            (
              write-same repo domain at start distinct one f cur (refreshed at f)
                  (refreshed-part at f) e p.rows same now,
              since-refreshed at f cur a,
            ),
          ))
      | inr b ↦ rw a (rw b (cur, (now, since-kept at cur a)))
    ]
  ]

  visit-Settled :
      (f : Finding) (o : Option Row) (p : Pass)
      → (identity f).domain ≡ domain
      → find_first (at_place repo (identity f)) start ≡ o
      → find_first (at_place repo (identity f)) p.rows ≡ o
      → find_first (at_place repo (identity f)) p.created ≡ none
      → map part start ≡ map part p.rows
      → is_seen (identity f) p.seen ≡ false
      → Settled repo at o (identity f) (visit repo at (select_where (is_of repo domain) start) f p)
  unfolding visit
  visit-Settled f o p d e now none_yet same unseen = rw unseen (
      rw (by_identity-existing repo domain (identity f) start one d ∙ e)
        (place-Settled f o (record p { seen = identity f ∷ p.seen }) e now none_yet same))

  first-Settled :
      (f : Finding) (fs : List Finding) (o : Option Row) (p : Pass)
      → InDomain domain (f ∷ fs)
      → find_first (at_place repo (identity f)) start ≡ o
      → find_first (at_place repo (identity f)) p.rows ≡ o
      → find_first (at_place repo (identity f)) p.created ≡ none
      → map part start ≡ map part p.rows
      → is_seen (identity f) p.seen ≡ false
      → Settled repo at o (identity f) (
          visit_all repo at
            (select_where (is_of repo domain) start)
            fs
            (visit repo at (select_where (is_of repo domain) start) f p))
  first-Settled f fs o p ds e now none_yet same unseen =
      let after = visit repo at (select_where (is_of repo domain) start) f p in
      Settled-Views o (identity f) after
        (visit_all repo at (select_where (is_of repo domain) start) fs after)
        (visit_all-quiet repo domain at start distinct one fs after repo (identity f) ds.1
          (visit-part repo domain at start distinct one f p ds.0 same)
          (ground (
            arith,
            same_identity_self (identity f),
            visit-seen repo at (select_where (is_of repo domain) start) f p (identity f),
          )))
        (visit-Settled f o p ds.0 e now none_yet same unseen)

  pub visit_all-Settled :
      (fs : List Finding) (o : Option Row) (i : Identity) (p : Pass)
      → InDomain domain fs
      → i.domain ≡ domain
      → find_first (at_place repo i) start ≡ o
      → find_first (at_place repo i) p.rows ≡ o
      → find_first (at_place repo i) p.created ≡ none
      → map part start ≡ map part p.rows
      → is_seen i p.seen ≡ false
      → is_reported i fs ≡ true
      → Settled repo at o i (visit_all repo at (select_where (is_of repo domain) start) fs p)
  unfolding visit_all any_where
  visit_all-Settled [] o i p ds d e now none_yet same unseen told = absurd (ground arith)
  visit_all-Settled (f ∷ fs) o i p ds d e now none_yet same unseen told =
      elim (Bool-cases (same_identity (identity f) i)) [
        | inl a ↦
            subst
              (λ j.
                find_first (at_place repo j) start ≡ o
                → find_first (at_place repo j) p.rows ≡ o
                → find_first (at_place repo j) p.created ≡ none
                → is_seen j p.seen ≡ false
                → Settled repo at o j (
                    visit_all repo at (select_where (is_of repo domain) start) fs
                      (visit repo at (select_where (is_of repo domain) start) f p)))
              (same_identity-true (identity f) i a)
              (λ e' now' none' unseen'. first-Settled f fs o p ds e' now' none' same unseen') e now
              none_yet unseen
        | inr a ↦
            let v : Views repo domain at start distinct one repo i
                (visit repo at (select_where (is_of repo domain) start) f p) p =
              visit-other repo domain at start distinct one f p repo i ds.0 same
                (ground (arith, a)) in
            visit_all-Settled fs o i (visit repo at (select_where (is_of repo domain) start) f p)
              ds.1 d e (v.0 ∙ now) (v.1 ∙ none_yet)
              (visit-part repo domain at start distinct one f p ds.0 same)
              (ground (arith, a, visit-seen repo at (select_where (is_of repo domain) start) f p i))
              (ground arith)
      ]
