-- ===== src/Findings/Fresh.antt =====
-- The new rows of one run of the loop of reconcileFindings, backend/handlers/scan_findings.go.
use commitkube.Base.{
  ℕ, ◌+◌, ◌≤◌, ◌≡◌, sym, ◌∙◌, subst, String, true, false, Option, none, some, List, [], ◌∷◌, ◌++◌,
  ◌&&◌, ◌=s◌, find_first, find_first-none, count_where, count_where-append, any_where, select_where,
  DistinctKeys, arith, =s_true, inl, inr, Bool-cases, refl,
}
use commitkube.Findings.Finding.{Finding, Identity, identity, same_identity, same_identity-true}
use commitkube.Findings.Table.{
  Row, Pass, is_of, is_resolved, is_seen, differs, new_row, place, visit, visit_all, by_identity,
}
use commitkube.Findings.Spec.{at_place, by_identity-existing}
use commitkube.Findings.Visit.{new_row-at}
use commitkube.Findings.Walk.{InDomain}

module _ (repo domain : String) (at : ℕ) (start : List Row)
    (distinct : DistinctKeys (λ (r : Row). r.id) start)
    (one : (w : String) (i : Identity) → count_where (at_place w i) start ≤ 1) where
  -- No identity has a row in the table and a new one, or two new ones; only what was met has one.
  pub record Fresh (p : Pass) : Type 0 where
    pub single :
        (w : String) (i : Identity)
        → count_where (at_place w i) start + count_where (at_place w i) p.created ≤ 1
    pub met :
        (w : String) (i : Identity)
        → is_seen i p.seen ≡ false
        → count_where (at_place w i) p.created ≡ 0

  met-place :
      (f : Finding) (o : Option Row) (p : Pass) (w : String) (i : Identity)
      → Fresh p
      → is_seen i (identity f ∷ p.seen) ≡ false
      → count_where (at_place w i) p.created ≡ 0
  unfolding any_where
  met-place f o p w i h unseen = h.met w i (ground arith)

  absent :
      (f : Finding) (p : Pass) (w : String) (i : Identity)
      → find_first (at_place repo (identity f)) start ≡ none
      → is_seen (identity f) p.seen ≡ false
      → Fresh p
      → at_place w i (new_row repo at f) ≡ true
      → (count_where (at_place w i) start ≡ 0) × (count_where (at_place w i) p.created ≡ 0)
  absent f p w i e unseen h on =
      let both : (repo =s w && same_identity (identity f) i) ≡ true =
        sym (new_row-at repo at f w i) ∙ on in
      subst
        (λ v. (count_where (at_place v i) start ≡ 0) × (count_where (at_place v i) p.created ≡ 0))
        (=s_true repo w (ground (arith, both)))
        (subst
          (λ j.
            (count_where (at_place repo j) start ≡ 0)
            × (count_where (at_place repo j) p.created ≡ 0))
          (same_identity-true (identity f) i (ground (arith, both)))
          (find_first-none (at_place repo (identity f)) start e, h.met repo (identity f) unseen))

  met-new :
      (f : Finding) (p : Pass) (w : String) (i : Identity)
      → Fresh p
      → is_seen i (identity f ∷ p.seen) ≡ false
      → count_where (at_place w i) (p.created ++ new_row repo at f ∷ []) ≡ 0
  unfolding any_where count_where
  met-new f p w i h unseen = ground (
    arith,
    h.met w i,
    new_row-at repo at f w i,
    count_where-append (at_place w i) p.created (new_row repo at f ∷ []),
  )

  single-new :
      (f : Finding) (p : Pass) (w : String) (i : Identity)
      → find_first (at_place repo (identity f)) start ≡ none
      → is_seen (identity f) p.seen ≡ false
      → Fresh p
      → count_where (at_place w i) start
          + count_where (at_place w i) (p.created ++ new_row repo at f ∷ [])
        ≤ 1
  unfolding count_where
  single-new f p w i e unseen h = elim (Bool-cases (at_place w i (new_row repo at f))) [
    | inl on ↦ ground (
      arith,
      on,
      absent f p w i e unseen h on,
      count_where-append (at_place w i) p.created (new_row repo at f ∷ []),
    )
    | inr off ↦ ground (
      arith,
      off,
      h.single w i,
      count_where-append (at_place w i) p.created (new_row repo at f ∷ []),
    )
  ]

  pub begun-Fresh :
      Fresh (record { rows = start; seen = []; touched = []; created = []; new_count = 0 })
  unfolding count_where
  begun-Fresh = record { single = λ w i. omega (arith, one w i); met = λ w i e. refl }

  place-Fresh :
      (f : Finding) (o : Option Row) (p : Pass)
      → find_first (at_place repo (identity f)) start ≡ o
      → is_seen (identity f) p.seen ≡ false
      → Fresh p
      → Fresh (place repo at f o (record p { seen = identity f ∷ p.seen }))
  unfolding place any_where
  place-Fresh f none p e unseen h = record {
    single = λ w i. single-new f p w i e unseen h;
    met = λ w i. met-new f p w i h;
  }
  place-Fresh f (some cur) p e unseen h = elim (Bool-cases (is_resolved cur)) [
    | inl a ↦ rw a (record { single = h.single; met = λ w i. met-place f none p w i h })
    | inr a ↦ elim (Bool-cases (differs cur f)) [
      | inl b ↦ rw a (rw b (record { single = h.single; met = λ w i. met-place f none p w i h }))
      | inr b ↦ rw a (rw b (record { single = h.single; met = λ w i. met-place f none p w i h }))
    ]
  ]

  pub visit_all-Fresh :
      (fs : List Finding) (p : Pass)
      → InDomain domain fs
      → Fresh p
      → Fresh (visit_all repo at (select_where (is_of repo domain) start) fs p)
  unfolding visit_all visit
  visit_all-Fresh [] p ds h = h
  visit_all-Fresh (f ∷ fs) p ds h = elim (Bool-cases (is_seen (identity f) p.seen)) [
    | inl a ↦ rw a (visit_all-Fresh fs p ds.1 h)
    | inr a ↦ rw a (
        visit_all-Fresh fs
          (place repo at f (by_identity (identity f) (select_where (is_of repo domain) start))
            (record p { seen = identity f ∷ p.seen }))
          ds.1
          (place-Fresh f (by_identity (identity f) (select_where (is_of repo domain) start)) p
            (sym (by_identity-existing repo domain (identity f) start (one repo) ds.0)) a h))
  ]
