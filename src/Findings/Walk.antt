-- ===== src/Findings/Walk.antt =====
-- A report at the table: the loop of reconcileFindings in backend/handlers/scan_findings.go, from
-- its first finding to its last.
use commitkube.Base.{
  ℕ, ◌≤◌, ◌≡◌, refl, sym, ap, ◌∙◌, String, true, false, Option, none, some, List, [], ◌∷◌, ◌&&◌,
  ◌||◌, ◌=s◌, find_first, count_where, any_where, select_where, All, DistinctKeys, arith, map, inl,
  inr, Bool-cases, not,
}
use commitkube.Findings.Finding.{Finding, Identity, identity, same_identity, same_identity-true}
use commitkube.Findings.Table.{
  Row, Pass, is_of, is_resolved, by_identity, differs, is_seen, place, visit, visit_all,
}
use commitkube.Findings.Spec.{at_place, is_reported, part, by_identity-existing}
use commitkube.Findings.Visit.{place-part, place-other}

abbrev pub InDomain : String → List Finding → Type 0
InDomain domain = All (λ (f : Finding). (identity f).domain ≡ domain)

-- The date that an open row keeps, and otherwise that of the scan.
abbrev pub opened : ℕ → Option ℕ → ℕ
opened at none = at
opened at (some t) = t

place-seen :
    (repo : String) (at : ℕ) (f : Finding) (o : Option Row) (p : Pass)
    → (place repo at f o p).seen ≡ p.seen
unfolding place
place-seen repo at f none p = refl
place-seen repo at f (some cur) p = elim (Bool-cases (is_resolved cur)) [
  | inl a ↦ rw a refl
  | inr a ↦ elim (Bool-cases (differs cur f)) [
    | inl b ↦ rw a (rw b refl)
    | inr b ↦ rw a (rw b refl)
  ]
]

seen_by :
    (f : Finding) (i : Identity) (js : List Identity)
    → is_seen (identity f) js ≡ true
    → same_identity (identity f) i ≡ true
    → is_seen i js ≡ true
seen_by f i js a e = ap (λ k. is_seen k js) (sym (same_identity-true (identity f) i e)) ∙ a

pub visit-seen :
    (repo : String) (at : ℕ) (rows : List Row) (f : Finding) (p : Pass) (i : Identity)
    → is_seen i (visit repo at rows f p).seen ≡ (same_identity (identity f) i || is_seen i p.seen)
unfolding visit any_where
visit-seen repo at rows f p i = elim (Bool-cases (is_seen (identity f) p.seen)) [
  | inl a ↦ rw a (ground (arith, seen_by f i p.seen a))
  | inr a ↦ rw a (
      ap (is_seen i) (
        place-seen repo at f (by_identity (identity f) rows)
          (record p { seen = identity f ∷ p.seen }))
      ∙ ground arith)
]

pub visit_all-seen :
    (repo : String) (at : ℕ) (rows : List Row) (fs : List Finding) (p : Pass) (i : Identity)
    → is_seen i (visit_all repo at rows fs p).seen ≡ (is_reported i fs || is_seen i p.seen)
unfolding visit_all any_where
visit_all-seen repo at rows [] p i = refl
visit_all-seen repo at rows (f ∷ fs) p i = ground (
  arith,
  visit-seen repo at rows f p i,
  visit_all-seen repo at rows fs (visit repo at rows f p) i,
)

module _ (repo domain : String) (at : ℕ) (start : List Row)
    (distinct : DistinctKeys (λ (r : Row). r.id) start)
    (one : (i : Identity) → count_where (at_place repo i) start ≤ 1) where
  abbrev index : List Row
  index = select_where (is_of repo domain) start

  pub visit-part :
      (f : Finding) (p : Pass)
      → (identity f).domain ≡ domain
      → map part start ≡ map part p.rows
      → map part start ≡ map part (visit repo at index f p).rows
  unfolding visit
  visit-part f p d same = elim (Bool-cases (is_seen (identity f) p.seen)) [
    | inl a ↦ rw a same
    | inr a ↦ rw a (
        place-part repo domain at start distinct one f d (by_identity (identity f) index)
          (record p { seen = identity f ∷ p.seen })
          (sym (by_identity-existing repo domain (identity f) start one d)) same)
  ]

  -- What the table and the list of new rows say of an identity.
  abbrev pub Views : String → Identity → Pass → Pass → Type 0
  Views where_ i p q =
      (find_first (at_place where_ i) p.rows ≡ find_first (at_place where_ i) q.rows)
      × (find_first (at_place where_ i) p.created ≡ find_first (at_place where_ i) q.created)

  pub visit-other :
      (f : Finding) (p : Pass) (where_ : String) (i : Identity)
      → (identity f).domain ≡ domain
      → map part start ≡ map part p.rows
      → (repo =s where_ && (not (is_seen i p.seen) && same_identity (identity f) i)) ≡ false
      → Views where_ i (visit repo at index f p) p
  unfolding visit
  visit-other f p where_ i d same apart = elim (Bool-cases (is_seen (identity f) p.seen)) [
    | inl a ↦ rw a (refl, refl)
    | inr a ↦ rw a (
        place-other repo domain at start distinct one f d (by_identity (identity f) index)
          (record p { seen = identity f ∷ p.seen }) where_ i
          (sym (by_identity-existing repo domain (identity f) start one d)) same
          (ground (arith, apart, unseen f i p.seen a)))
  ]
    where
      unseen :
          (f : Finding) (i : Identity) (js : List Identity)
          → is_seen (identity f) js ≡ false
          → same_identity (identity f) i ≡ true
          → is_seen i js ≡ false
      unseen f i js a e = ap (λ k. is_seen k js) (sym (same_identity-true (identity f) i e)) ∙ a

  pub visit_all-part :
      (fs : List Finding) (p : Pass)
      → InDomain domain fs
      → map part start ≡ map part p.rows
      → map part start ≡ map part (visit_all repo at index fs p).rows
  unfolding visit_all
  visit_all-part [] p ds same = same
  visit_all-part (f ∷ fs) p ds same =
      visit_all-part fs (visit repo at index f p) ds.1 (visit-part f p ds.0 same)

  pub visit_all-quiet :
      (fs : List Finding) (p : Pass) (where_ : String) (i : Identity)
      → InDomain domain fs
      → map part start ≡ map part p.rows
      → (repo =s where_ && (not (is_seen i p.seen) && is_reported i fs)) ≡ false
      → Views where_ i (visit_all repo at index fs p) p
  unfolding visit_all any_where
  visit_all-quiet [] p where_ i ds same apart = (refl, refl)
  visit_all-quiet (f ∷ fs) p where_ i ds same apart =
      let first : Views where_ i (visit repo at index f p) p =
        visit-other f p where_ i ds.0 same (ground (arith, apart)) in
      let rest : Views where_ i (visit_all repo at index fs (visit repo at index f p))
          (visit repo at index f p) =
        visit_all-quiet fs (visit repo at index f p) where_ i ds.1 (visit-part f p ds.0 same)
          (ground (arith, apart, visit-seen repo at index f p i)) in
      (rest.0 ∙ first.0, rest.1 ∙ first.1)
