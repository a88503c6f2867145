-- ===== src/Findings/Visit.antt =====
-- One finding of a report at the table: the loop of reconcileFindings in
-- backend/handlers/scan_findings.go, a finding at a time.
use commitkube.Base.{
  =s_true, find_first-snoc, ap₂, All-find_first, if◌then◌else◌, Bool, inr, find_first-still_none,
  inl, Option-cases, Bool-cases, false, ◌&&◌, Option, none, true, false, find_first-revised, ◌=s◌,
  ℕ, ◌≤◌, ◌≡◌, sym, ap, ◌∙◌, String, true, some, List, ◌==◌, find_first, count_where, update_where,
  All, All-same, All-weaken, DistinctKeys, only_keyed, map-update_where, find_first-holds, arith,
  map, refl,
}
use commitkube.Findings.Finding.{same_identity, Finding, Identity, identity, same_identity-true}
use commitkube.Findings.Table.{
  finding_from_row, new_row, refreshed, differs, reopened, is_resolved, Pass, place, Row,
  row_identity, has_id,
}
use commitkube.Findings.Spec.{refreshed-part, reopened-part, at_place, Part, part, part_at}

pub new_row-at :
    (repo : String) (at : ℕ) (f : Finding) (where_ : String) (i : Identity)
    → at_place where_ i (new_row repo at f) ≡ (repo =s where_ && same_identity (identity f) i)
unfolding new_row identity finding_from_row
new_row-at repo at f where_ i = refl

-- A scan of one repository and domain, from a table without two rows of one identity.
module _ (repo domain : String) (at : ℕ) (start : List Row)
    (distinct : DistinctKeys (λ (r : Row). r.id) start)
    (one : (i : Identity) → count_where (at_place repo i) start ≤ 1) where
  -- The rows that a key of the index finds stand for the identity that it was found by.
  keyed :
      (i : Identity) (cur : Row) (rows : List Row)
      → find_first (at_place repo i) start ≡ some cur
      → map part start ≡ map part rows
      → All (λ (r : Row). has_id cur.id r ≡ true → part r ≡ part cur) rows
  keyed i cur rows found same =
      All-same part (λ (k : Part). (k.0 == cur.id) ≡ true → k ≡ part cur) start rows same
        (All-weaken (λ (r : Row). has_id cur.id r ≡ true → r ≡ cur)
          (λ (r : Row). has_id cur.id r ≡ true → part r ≡ part cur) start
          (λ (r : Row) (h : has_id cur.id r ≡ true → r ≡ cur) (e : has_id cur.id r ≡ true).
            ap part (h e))
          (only_keyed (λ (r : Row). r.id) (at_place repo i) start cur distinct found))

  module _ (f : Finding) (cur : Row) (change : Row → Row)
      (keeps : (r : Row) → row_identity r ≡ identity f → part (change r) ≡ part r)
      (found : find_first (at_place repo (identity f)) start ≡ some cur) (rows : List Row)
      (same : map part start ≡ map part rows) where
    cur-identity : row_identity cur ≡ identity f
    cur-identity =
        same_identity-true (row_identity cur) (identity f)
          (ground (arith, find_first-holds (at_place repo (identity f)) start found))

    cur-part : part cur ≡ (cur.id, (repo, identity f))
    cur-part =
        ap₂ (λ (s : String) (i : Identity). (cur.id, (s, i)))
          (=s_true cur.repo_name repo
            (ground (arith, find_first-holds (at_place repo (identity f)) start found)))
          cur-identity

    write-keeps : All (λ (r : Row). has_id cur.id r ≡ true → part (change r) ≡ part r) rows
    write-keeps =
        All-weaken (λ (r : Row). has_id cur.id r ≡ true → part r ≡ part cur)
          (λ (r : Row). has_id cur.id r ≡ true → part (change r) ≡ part r) rows
          (λ (r : Row) (h : has_id cur.id r ≡ true → part r ≡ part cur)
              (e : has_id cur.id r ≡ true).
            keeps r (ap (λ (k : Part). k.1.1) (h e) ∙ cur-identity))
          (keyed (identity f) cur rows found same)

    write-part : map part start ≡ map part (update_where (has_id cur.id) change rows)
    write-part = same ∙ sym (map-update_where part (has_id cur.id) change rows write-keeps)

    write-at :
        (where_ : String) (i : Identity)
        → All
            (λ (r : Row).
              has_id cur.id r ≡ true → at_place where_ i (change r) ≡ at_place where_ i r)
            rows
    write-at where_ i =
        All-weaken (λ (r : Row). has_id cur.id r ≡ true → part (change r) ≡ part r)
          (λ (r : Row). has_id cur.id r ≡ true → at_place where_ i (change r) ≡ at_place where_ i r)
          rows
          (λ (r : Row) (h : has_id cur.id r ≡ true → part (change r) ≡ part r)
              (e : has_id cur.id r ≡ true).
            ap (part_at where_ i) (h e))
          write-keeps

    apart-id :
        (where_ : String) (i : Identity)
        → (repo =s where_ && same_identity (identity f) i) ≡ false
        → (b : Row) → find_first (at_place where_ i) rows ≡ some b
        → has_id cur.id b ≡ false
    apart-id where_ i apart b e = elim (Bool-cases (has_id cur.id b)) [
      | inl h ↦ absurd (
          ground (
            arith,
            apart,
            find_first-holds (at_place where_ i) rows e,
            ap (part_at where_ i) (
                All-find_first (λ (r : Row). has_id cur.id r ≡ true → part r ≡ part cur)
                  (at_place where_ i) rows (keyed (identity f) cur rows found same) e h
                ∙ cur-part),
          ))
      | inr h ↦ h
    ]

    write-other :
        (where_ : String) (i : Identity)
        → (repo =s where_ && same_identity (identity f) i) ≡ false
        → find_first (at_place where_ i) (update_where (has_id cur.id) change rows)
          ≡ find_first (at_place where_ i) rows
    write-other where_ i apart = elim (Option-cases (find_first (at_place where_ i) rows)) [
      | inl e ↦
          find_first-still_none (at_place where_ i) (has_id cur.id) change rows (write-at where_ i)
            e
          ∙ sym e
      | inr (b, e) ↦
          find_first-revised (at_place where_ i) (has_id cur.id) change rows b (write-at where_ i) e
          ∙ ap some (ap (λ (c : Bool). if c then change b else b) (apart-id where_ i apart b e))
          ∙ sym e
    ]

    pub write-same :
        find_first (at_place repo (identity f)) rows ≡ some cur
        → find_first (at_place repo (identity f)) (update_where (has_id cur.id) change rows)
          ≡ some (change cur)
    write-same e =
        find_first-revised (at_place repo (identity f)) (has_id cur.id) change rows cur
          (write-at repo (identity f)) e
        ∙ ground arith

  module _ (f : Finding) (d : (identity f).domain ≡ domain) where
    pub place-part :
        (o : Option Row) (p : Pass)
        → find_first (at_place repo (identity f)) start ≡ o
        → map part start ≡ map part p.rows
        → map part start ≡ map part (place repo at f o p).rows
    unfolding place
    place-part none p e same = same
    place-part (some cur) p e same = elim (Bool-cases (is_resolved cur)) [
      | inl a ↦ rw a (write-part f cur (reopened at f) (reopened-part at f) e p.rows same)
      | inr a ↦ elim (Bool-cases (differs cur f)) [
        | inl b ↦
            rw a (rw b (write-part f cur (refreshed at f) (refreshed-part at f) e p.rows same))
        | inr b ↦ rw a (rw b same)
      ]
    ]

    pub place-other :
        (o : Option Row) (p : Pass) (where_ : String) (i : Identity)
        → find_first (at_place repo (identity f)) start ≡ o
        → map part start ≡ map part p.rows
        → (repo =s where_ && same_identity (identity f) i) ≡ false
        → (find_first (at_place where_ i) (place repo at f o p).rows
            ≡ find_first (at_place where_ i) p.rows)
          × (find_first (at_place where_ i) (place repo at f o p).created
              ≡ find_first (at_place where_ i) p.created)
    unfolding place
    place-other none p where_ i e same apart = (
      refl,
      find_first-snoc (at_place where_ i) p.created (new_row repo at f)
          (new_row-at repo at f where_ i ∙ apart),
    )
    place-other (some cur) p where_ i e same apart = elim (Bool-cases (is_resolved cur)) [
      | inl a ↦ rw a (
        write-other f cur (reopened at f) (reopened-part at f) e p.rows same where_ i apart,
        refl,
      )
      | inr a ↦ elim (Bool-cases (differs cur f)) [
        | inl b ↦ rw a (
            rw b (
              write-other f cur (refreshed at f) (refreshed-part at f) e p.rows same where_ i apart,
              refl,
            ))
        | inr b ↦ rw a (rw b (refl, refl))
      ]
    ]
