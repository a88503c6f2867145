-- ===== src/Findings/Gone.antt =====
-- Which keys the end of a scan closes, and what a query finds by the parts of the rows: the queries
-- of reconcileFindings in backend/handlers/scan_findings.go.
use commitkube.Base.{
  refl, String, Bool, true, Option, none, some, List, [], ◌∷◌, ◌==◌, ◌≡◌, find_first, subst,
  any_where, select_where, All, arith, map, inl, inr, Bool-cases,
}
use mathlib.Core.Option.{some-injective}
use commitkube.Findings.Finding.{Identity}
use commitkube.Findings.Table.{Row, has_id, row_ids, mem_id}
use commitkube.Findings.Spec.{Part, part, part_at, at_place}

-- The keys of selected rows hold the key of a row of the table exactly where it is selected.
pub mem-selected :
    (w q : Row → Bool) (rows : List Row) (a : Row)
    → All (λ (r : Row). has_id a.id r ≡ true → r ≡ a) rows
    → mem_id a.id (row_ids (select_where q (select_where w rows))) ≡ true
    → (w a ≡ true) × (q a ≡ true)
unfolding select_where any_where
mem-selected w q [] a only m = absurd (ground arith)
mem-selected w q (r ∷ rows) a only m = elim (Bool-cases (w r)) [
  | inr wr ↦ mem-selected w q rows a only.1 (rw wr at m)
  | inl wr ↦ elim (Bool-cases (q r)) [
    | inr qr ↦ mem-selected w q rows a only.1 (rw qr at (rw wr at m))
    | inl qr ↦ elim (Bool-cases (r.id == a.id)) [
      | inl h ↦ subst (λ (b : Row). (w b ≡ true) × (q b ≡ true)) (only.0 h) (wr, qr)
      | inr h ↦ mem-selected w q rows a only.1 (rw h at (rw qr at (rw wr at m)))
    ]
  ]
]

pub selected-mem :
    (p w q : Row → Bool) (rows : List Row) (a : Row)
    → find_first p rows ≡ some a
    → w a ≡ true
    → q a ≡ true
    → mem_id a.id (row_ids (select_where q (select_where w rows))) ≡ true
unfolding select_where any_where find_first
selected-mem p w q [] a e on chosen = absurd (ground arith)
selected-mem p w q (r ∷ rows) a e on chosen = elim (Bool-cases (p r)) [
  | inl h ↦
      subst
        (λ (b : Row).
          w b ≡ true
          → q b ≡ true
          → mem_id b.id (row_ids (select_where q (select_where w (r ∷ rows)))) ≡ true)
        (some-injective r a (rw h at e)) (λ wr qr. rw wr (rw qr (ground arith))) on chosen
  | inr h ↦ elim (Bool-cases (w r)) [
    | inr wr ↦ rw wr (selected-mem p w q rows a (rw h at e) on chosen)
    | inl wr ↦ rw wr (elim (Bool-cases (q r)) [
      | inr qr ↦ rw qr (selected-mem p w q rows a (rw h at e) on chosen)
      | inl qr ↦ rw qr (ground (arith, selected-mem p w q rows a (rw h at e) on chosen))
    ])
  ]
]

abbrev pub omap : Option Row → Option Part
omap none = none
omap (some r) = some (part r)

pub find_first-map :
    (where_ : String) (i : Identity) (rows : List Row)
    → omap (find_first (at_place where_ i) rows) ≡ find_first (part_at where_ i) (map part rows)
unfolding find_first
find_first-map where_ i [] = refl
find_first-map where_ i (r ∷ rows) = elim (Bool-cases (at_place where_ i r)) [
  | inl h ↦ rw h refl
  | inr h ↦ rw h (find_first-map where_ i rows)
]
