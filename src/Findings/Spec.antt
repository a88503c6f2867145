-- ===== src/Findings/Spec.antt =====
-- The table of findings as a reader of it thinks of it: since when a finding of a repository has
-- been open, if it is. backend/handlers/scan_findings.go keeps one row for each identity.
use commitkube.Base.{
  any_where-none, ℕ, ◌≤◌, ◌<◌, ◌≡◌, refl, sym, ap, ◌∙◌, String, Bool, true, Option, none, some,
  List, [], ◌∷◌, ◌&&◌, ◌=s◌, if◌then◌else◌, find_first, count_where, any_where, select_where, All,
  DistinctKeys, arith,
}
use commitkube.Findings.Finding.{
  Finding, Identity, identity, same_identity, same_identity-true, same_identity_self, placed_line,
}
use commitkube.Findings.Table.{
  by_identity, Row, Table, row_identity, has_identity, is_of, is_resolved, latest, refreshed,
  reopened, finding_from_row,
}

abbrev pub at_place : String → Identity → Row → Bool
at_place repo i r = r.repo_name =s repo && has_identity i r

-- The keys are distinct and below the next one, and no repository has two rows of one identity.
pub record IsSound (t : Table) : Type 0 where
  pub distinct : DistinctKeys (λ (r : Row). r.id) t.rows
  pub below : All (λ (r : Row). r.id < t.next_id) t.rows
  pub unique : (repo : String) (i : Identity) → count_where (at_place repo i) t.rows ≤ 1

unfoldable pub since : Option Row → Option ℕ
since none = none
since (some r) = if is_resolved r then none else some r.first_seen

-- Since when the finding has been open.
unfoldable pub open_since : String → Identity → Table → Option ℕ
open_since repo i t = since (find_first (at_place repo i) t.rows)

-- Whether a report names an identity.
abbrev pub is_reported : Identity → List Finding → Bool
is_reported i = any_where (λ f. same_identity (identity f) i)

-- What no write to a row changes.
abbrev pub Part : Type 0
Part = ℕ × (String × Identity)

abbrev pub part : Row → Part
part r = (r.id, (r.repo_name, row_identity r))

abbrev pub part_at : String → Identity → Part → Bool
part_at repo i k = k.1.0 =s repo && same_identity k.1.1 i

pub refreshed-part :
    (at : ℕ) (f : Finding) (r : Row)
    → row_identity r ≡ identity f
    → part (refreshed at f r) ≡ part r
unfolding identity finding_from_row refreshed
refreshed-part at f r h =
    ap
      (λ (l : ℕ). (
        r.id,
        (
          r.repo_name,
          record {
            domain = r.domain;
            kind = r.kind;
            target = r.target;
            vuln_id = r.vuln_id;
            pkg = r.pkg;
            line = l;
          },
        ),
      ))
      (ap (λ k. placed_line k f.line) (ap (λ (i : Identity). i.kind) h)
        ∙ sym (ap (λ (i : Identity). i.line) h))

pub reopened-part :
    (at : ℕ) (f : Finding) (r : Row) → row_identity r ≡ identity f → part (reopened at f r) ≡ part r
unfolding identity finding_from_row refreshed reopened
reopened-part at f r h = refreshed-part at f r h

-- The index of rows where no identity comes twice.
latest_unique :
    (rows : List Row)
    → ((i : Identity) → count_where (has_identity i) rows ≤ 1)
    → latest rows ≡ rows
unfolding latest count_where
latest_unique [] one = refl
latest_unique (r ∷ rows) one =
    rw
      (any_where-none (has_identity (row_identity r)) rows
        (ground (arith, one (row_identity r), same_identity_self (row_identity r))))
      (ap (λ rs. r ∷ rs) (latest_unique rows (λ i. ground (arith, one i))))

at_place-split :
    (repo domain : String) (i : Identity) (r : Row)
    → i.domain ≡ domain
    → at_place repo i r ≡ true
    → (is_of repo domain r ≡ true) × (has_identity i r ≡ true)
unfolding identity finding_from_row
at_place-split repo domain i r d h = (
  ground (arith, h, same_identity-true (row_identity r) i, ap (λ s. r.domain =s s) d),
  ground arith,
)

module _ (repo domain : String) where
  count-existing :
      (i : Identity) (rows : List Row)
      → count_where (has_identity i) (select_where (is_of repo domain) rows)
        ≤ count_where (at_place repo i) rows
  unfolding count_where select_where
  count-existing i [] = omega arith
  count-existing i (r ∷ rows) = ground (arith, count-existing i rows)

  find_first-existing :
      (i : Identity) (rows : List Row)
      → i.domain ≡ domain
      → find_first (has_identity i) (select_where (is_of repo domain) rows)
        ≡ find_first (at_place repo i) rows
  unfolding find_first select_where
  find_first-existing i [] d = refl
  find_first-existing i (r ∷ rows) d =
      ground (arith, at_place-split repo domain i r d, find_first-existing i rows d)

  -- The index that a scan reads first holds the rows of its repository and domain.
  pub latest-existing :
      (rows : List Row)
      → ((i : Identity) → count_where (at_place repo i) rows ≤ 1)
      → latest (select_where (is_of repo domain) rows) ≡ select_where (is_of repo domain) rows
  latest-existing rows one =
      latest_unique (select_where (is_of repo domain) rows)
        (λ i. omega (arith, one i, count-existing i rows))

  pub by_identity-existing :
      (i : Identity) (rows : List Row)
      → ((j : Identity) → count_where (at_place repo j) rows ≤ 1)
      → i.domain ≡ domain
      → by_identity i (select_where (is_of repo domain) rows) ≡ find_first (at_place repo i) rows
  unfolding by_identity
  by_identity-existing i rows one d =
      ap (find_first (has_identity i)) (latest-existing rows one) ∙ find_first-existing i rows d
