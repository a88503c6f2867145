-- ===== src/Findings/Finish.antt =====
-- The end of reconcileFindings in backend/handlers/scan_findings.go: what is gone is closed, and
-- what is new is inserted.
use commitkube.Base.{
  ℕ, ◌+◌, ◌≡◌, refl, ap, ◌∙◌, String, Bool, true, false, none, some, List, [], ◌∷◌, ◌++◌,
  if◌then◌else◌, find_first, select_where, update_where, arith, find_first-front, find_first-back,
  find_first-revised, find_first-still_none, inl, inr, Bool-cases, All-any,
}
use commitkube.Findings.Finding.{identity, Identity}
use commitkube.Findings.Table.{
  finding_from_row, Row, Table, Pass, latest, is_gone, row_ids, mem_id, is_among, update_chunks,
  chunk_ids, chunk_size, touch, close, create_all, finish,
}
use commitkube.Findings.Chunks.{chunk_ids-chunks, update_chunks-concat}
use commitkube.Findings.Spec.{at_place, since, open_since}

-- The chunks together write what one query would.
pub chunked :
    (change : Row → Row)
    → ((r : Row) → (change r).id ≡ r.id)
    → ((r : Row) → change (change r) ≡ change r)
    → (ids : List ℕ) (rows : List Row)
    → update_chunks change (chunk_ids ids chunk_size) rows ≡ update_where (is_among ids) change rows
chunked change same_id once ids rows =
    update_chunks-concat change same_id once (chunk_ids ids chunk_size) rows
    ∙ ap (λ is. update_where (is_among is) change rows)
        (chunk_ids-chunks ids chunk_size (omega arith)).0

module _ (where_ : String) (i : Identity) where
  create_all-found :
      (rs : List Row) (t : Table) (b : Row)
      → find_first (at_place where_ i) t.rows ≡ some b
      → find_first (at_place where_ i) (create_all rs t).rows ≡ some b
  unfolding create_all
  create_all-found [] t b e = e
  create_all-found (r ∷ rs) t b e =
      create_all-found rs
        (record { rows = t.rows ++ record r { id = t.next_id } ∷ []; next_id = t.next_id + 1 }) b
        (find_first-front (at_place where_ i) t.rows (record r { id = t.next_id } ∷ []) b e)

  with_id : (r : Row) (k : ℕ) → since (some (record r { id = k })) ≡ since (some r)
  unfolding since
  with_id r k = refl

  create_all-new :
      (rs : List Row) (t : Table)
      → find_first (at_place where_ i) t.rows ≡ none
      → since (find_first (at_place where_ i) (create_all rs t).rows)
        ≡ since (find_first (at_place where_ i) rs)
  unfolding create_all find_first identity finding_from_row
  create_all-new [] t e = ap since e
  create_all-new (r ∷ rs) t e =
      let s : Table = record {
        rows = t.rows ++ record r { id = t.next_id } ∷ [];
        next_id = t.next_id + 1;
      } in
      let found : find_first (at_place where_ i) s.rows
          ≡ find_first (at_place where_ i) (record r { id = t.next_id } ∷ []) =
        find_first-back (at_place where_ i) t.rows (record r { id = t.next_id } ∷ []) e in
      elim (Bool-cases (at_place where_ i r)) [
        | inl a ↦ rw a (
            ap since (create_all-found rs s (record r { id = t.next_id }) (rw a at found))
            ∙ with_id r t.next_id)
        | inr a ↦ rw a (create_all-new rs s (rw a at found))
      ]

  module _ (at : ℕ) (skip : List String) (ex : List Row) (p : Pass) (next : ℕ) where
    abbrev pub gone : List ℕ
    gone = row_ids (select_where (is_gone p.seen skip) (latest ex))

    abbrev touched : List Row
    touched = update_where (is_among p.touched) (touch at) p.rows

    finish-rows :
        open_since where_ i (finish at skip ex p next).0
        ≡ since (
            find_first
              (at_place where_ i)
              (create_all p.created (record {
                rows = update_where (is_among gone) (close at) touched;
                next_id = next;
              })).rows)
    unfolding finish open_since
    finish-rows =
        ap
          (λ rows. since (
            find_first (at_place where_ i)
              (create_all p.created (record { rows = rows; next_id = next })).rows))
          (chunked (close at) (λ r. refl) (λ r. refl) gone
              (update_chunks (touch at) (chunk_ids p.touched chunk_size) p.rows)
            ∙ ap (update_where (is_among gone) (close at))
                (chunked (touch at) (λ r. refl) (λ r. refl) p.touched p.rows))

    pub finish-none :
        find_first (at_place where_ i) p.rows ≡ none
        → open_since where_ i (finish at skip ex p next).0
          ≡ since (find_first (at_place where_ i) p.created)
    unfolding identity finding_from_row
    finish-none e =
        finish-rows
        ∙ create_all-new p.created
            (record { rows = update_where (is_among gone) (close at) touched; next_id = next })
            (find_first-still_none (at_place where_ i) (is_among gone) (close at) touched
              (All-any (λ r _. refl) touched)
              (find_first-still_none (at_place where_ i) (is_among p.touched) (touch at) p.rows
                (All-any (λ r _. refl) p.rows) e))

    seen_at : Bool → Row → Row
    seen_at d b = if d then touch at b else b

    seen_at-id : (d : Bool) (b : Row) → (seen_at d b).id ≡ b.id
    unfolding seen_at
    seen_at-id true b = refl
    seen_at-id false b = refl

    closed-found :
        (b : Row)
        → find_first (at_place where_ i) p.rows ≡ some b
        → find_first (at_place where_ i) (update_where (is_among gone) (close at) touched)
          ≡ some (
              if mem_id b.id gone
              then close at (seen_at (mem_id b.id p.touched) b)
              else seen_at (mem_id b.id p.touched) b)
    unfolding identity finding_from_row seen_at
    closed-found b e =
        let c = seen_at (mem_id b.id p.touched) b in
        find_first-revised (at_place where_ i) (is_among gone) (close at) touched c
          (All-any (λ r _. refl) touched)
          (find_first-revised (at_place where_ i) (is_among p.touched) (touch at) p.rows b
            (All-any (λ r _. refl) p.rows) e)
        ∙ ap some (
            ap (λ k. if mem_id k gone then close at c else c)
              (seen_at-id (mem_id b.id p.touched) b))

    closed-since :
        (c d : Bool) (b : Row)
        → since (some (if c then close at (seen_at d b) else (seen_at d b)))
          ≡ (if c then none else since (some b))
    unfolding since seen_at
    closed-since c d b = ground arith

    pub finish-some :
        (b : Row)
        → find_first (at_place where_ i) p.rows ≡ some b
        → open_since where_ i (finish at skip ex p next).0
          ≡ (if mem_id b.id gone then none else since (some b))
    unfolding identity finding_from_row
    finish-some b e =
        finish-rows
        ∙ ap since (
            create_all-found p.created
              (record { rows = update_where (is_among gone) (close at) touched; next_id = next })
              (if mem_id b.id gone
                then close at (seen_at (mem_id b.id p.touched) b)
                else (seen_at (mem_id b.id p.touched) b))
              (closed-found b e))
        ∙ closed-since (mem_id b.id gone) (mem_id b.id p.touched) b
