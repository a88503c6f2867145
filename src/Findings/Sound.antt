-- ===== src/Findings/Sound.antt =====
-- A scan keeps one row for each identity: reconcileFindings of backend/handlers/scan_findings.go,
-- whose inserts meet no row of the unique index.
use commitkube.Findings.Fresh.{begun-Fresh, visit_all-Fresh}
use commitkube.Findings.Finish.{chunked}
use commitkube.Base.{
  ℕ, ◌+◌, ◌≤◌, ◌<◌, ◌≡◌, sym, ◌∙◌, subst, String, List, [], ◌∷◌, ◌++◌, count_where,
  count_where-append, select_where, All-append, All-weaken, DistinctKeys-snoc, arith, refl, ap,
  count_where-same, All-same, DistinctKeys-same, map-update_where, map, All-any,
}
use commitkube.Findings.Finding.{Finding, Identity, identity}
use commitkube.Findings.Table.{
  Row, Table, Pass, is_of, visit_all, create_all, finding_from_row, latest, is_gone, row_ids, touch,
  close, is_among, update_chunks, chunk_ids, chunk_size, finish, reconcile,
}
use commitkube.Findings.Spec.{IsSound, at_place, Part, part, part_at}
use commitkube.Findings.Walk.{InDomain, visit_all-part}

moved :
    (r : Row) (t : Table) (rs : List Row) (w : String) (i : Identity)
    → count_where (at_place w i) (t.rows ++ record r { id = t.next_id } ∷ [])
        + count_where (at_place w i) rs
      ≡ count_where (at_place w i) t.rows + count_where (at_place w i) (r ∷ rs)
unfolding count_where identity finding_from_row
moved r t rs w i =
    omega (arith, count_where-append (at_place w i) t.rows (record r { id = t.next_id } ∷ []))

-- Rows that have no like in the table and none among themselves are inserted under new keys.
create_all-IsSound :
    (rs : List Row) (t : Table)
    → IsSound t
    → ((w : String) (i : Identity)
        → count_where (at_place w i) t.rows + count_where (at_place w i) rs ≤ 1)
    → IsSound (create_all rs t)
unfolding create_all
create_all-IsSound [] t s h = s
create_all-IsSound (r ∷ rs) t s h =
    create_all-IsSound rs
      (record { rows = t.rows ++ record r { id = t.next_id } ∷ []; next_id = t.next_id + 1 })
      (record {
        distinct =
            DistinctKeys-snoc (λ (x : Row). x.id) t.rows (record r { id = t.next_id }) s.below
              s.distinct;
        below =
            All-append (λ (x : Row). x.id < t.next_id + 1) t.rows (record r { id = t.next_id } ∷ [])
              (All-weaken (λ (x : Row). x.id < t.next_id) (λ (x : Row). x.id < t.next_id + 1) t.rows
                (λ x b. omega (arith, b)) s.below)
              (omega arith, tt);
        unique = λ w i. omega (arith, h w i, moved r t rs w i);
      })
      (λ w i. omega (arith, h w i, moved r t rs w i))

-- Rows with the same parts as those of a sound table are sound with its next key.
same-IsSound :
    (t : Table) (rows : List Row)
    → map part t.rows ≡ map part rows
    → IsSound t
    → IsSound (record t { rows = rows })
same-IsSound t rows e s = record {
  distinct = DistinctKeys-same part (λ (k : Part). k.0) t.rows rows e s.distinct;
  below = All-same part (λ (k : Part). k.0 < t.next_id) t.rows rows e s.below;
  unique =
      λ w i. subst (λ n. n ≤ 1) (count_where-same part (part_at w i) t.rows rows e) (s.unique w i);
}

-- Closing and touching keep the parts.
chunked-part :
    (change : Row → Row)
    → ((r : Row) → (change r).id ≡ r.id)
    → ((r : Row) → change (change r) ≡ change r)
    → ((r : Row) → part (change r) ≡ part r)
    → (ids : List ℕ) (rows : List Row)
    → map part rows ≡ map part (update_chunks change (chunk_ids ids chunk_size) rows)
chunked-part change same_id once keep ids rows = sym (
    ap (map part) (chunked change same_id once ids rows)
    ∙ map-update_where part (is_among ids) change rows (All-any (λ r _. keep r) rows))

-- A scan keeps the keys of the rows distinct and one row at most for each identity of a
-- repository, where the findings of the report carry the domain of the scan.
pub reconcile-IsSound :
    (repo domain : String) (report : List Finding) (at : ℕ) (skip : List String) (t : Table)
    → InDomain domain report
    → IsSound t
    → IsSound (reconcile repo domain report at skip t).0
unfolding reconcile finish identity finding_from_row
reconcile-IsSound repo domain report at skip t ds s =
    let index = select_where (is_of repo domain) t.rows in
    let begun : Pass = record {
      rows = t.rows;
      seen = [];
      touched = [];
      created = [];
      new_count = 0;
    } in
    let walked : Pass = visit_all repo at index report begun in
    let gone = row_ids (select_where (is_gone walked.seen skip) (latest index)) in
    let touched = update_chunks (touch at) (chunk_ids walked.touched chunk_size) walked.rows in
    let closed = update_chunks (close at) (chunk_ids gone chunk_size) touched in
    let same : map part t.rows ≡ map part closed =
      visit_all-part repo domain at t.rows s.distinct (s.unique repo) report begun ds refl
      ∙ chunked-part (touch at) (λ r. refl) (λ r. refl) (λ r. refl) walked.touched walked.rows
      ∙ chunked-part (close at) (λ r. refl) (λ r. refl) (λ r. refl) gone touched in
    create_all-IsSound walked.created (record t { rows = closed }) (same-IsSound t closed same s)
      (λ w i.
        subst (λ n. n + count_where (at_place w i) walked.created ≤ 1)
          (count_where-same part (part_at w i) t.rows closed same)
          ((visit_all-Fresh repo domain at t.rows s.distinct s.unique report begun ds
              (begun-Fresh repo domain at t.rows s.distinct s.unique)).single
            w i))
