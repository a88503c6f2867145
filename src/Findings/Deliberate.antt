-- ===== src/Findings/Deliberate.antt =====
-- Which decision a finding shows: applySuppressions of backend/handlers/scan_findings.go.
use commitkube.Base.{
  ℕ, ◌≤◌, ◌≡◌, ◌⊎◌, refl, true, false, Option, none, some, List, [], ◌∷◌, ◌&&◌, ◌=s◌, select_where,
  All, arith, map, inl, inr, Bool-cases, subst, Bool, ◌||◌, not, All-weaken,
}
use mathlib.Core.Option.{some-injective}
use commitkube.Findings.Finding.{Suppression, Finding}
use commitkube.Findings.Suppress.{
  covers_pkg, score, beats, best_from, about_vuln, decide, marked, apply_suppressions,
}

abbrev pub Among : Suppression → List Suppression → Type 0
Among b [] = ⊥
Among b (s ∷ sups) = (s ≡ b) ⊎ Among b sups

-- A decision that is about a finding: about its weakness, and about its package or any.
abbrev pub applies : Finding → Suppression → Bool
applies f s = s.vuln_id =s f.vuln_id && (s.pkg =s "" || s.pkg =s f.pkg)

abbrev pub names_repo : Suppression → Bool
names_repo s = not (s.repo_name =s "")

abbrev pub names_pkg : Suppression → Bool
names_pkg s = not (s.pkg =s "")

-- The first is as deliberate as the second, or more: one about the repository comes before one for
-- all, and of two that are alike in that, one about the package before one for any.
pub record IsAbove (b s : Suppression) : Type 0 where
  pub repo : names_repo s ≡ true → names_repo b ≡ true
  pub pkg : names_repo s ≡ names_repo b → names_pkg s ≡ true → names_pkg b ≡ true

-- The decision that is shown applies, and none that applies is more deliberate.
abbrev pub Best : Finding → List Suppression → Option Suppression → Type 0
Best f sups none = All (λ (s : Suppression). applies f s ≡ false) sups
Best f sups (some b) =
    Among b sups
    × ((applies f b ≡ true) × All (λ (s : Suppression). applies f s ≡ true → IsAbove b s) sups)

score-IsAbove : (b s : Suppression) → score s ≤ score b → IsAbove b s
unfolding score
score-IsAbove b s h = record {
  repo = λ r. ground (arith, h, r);
  pkg = λ r p. ground (arith, h, r, p);
}

-- What the loop knows of the decisions that it has passed.
abbrev Judged : Finding → Option Suppression → List Suppression → Option Suppression → Type 0
Judged f best sups none = (best ≡ none) × All (λ (s : Suppression). covers_pkg s f ≡ false) sups
Judged f best sups (some c) =
    ((best ≡ some c) ⊎ (Among c sups × (covers_pkg c f ≡ true)))
    × (((b : Suppression) → best ≡ some b → score b ≤ score c)
        × All (λ (s : Suppression). covers_pkg s f ≡ true → score s ≤ score c) sups)

later :
    (f : Finding) (best : Option Suppression) (s : Suppression) (sups : List Suppression)
    (c : Suppression)
    → (best ≡ some c) ⊎ (Among c sups × (covers_pkg c f ≡ true))
    → (best ≡ some c) ⊎ (Among c (s ∷ sups) × (covers_pkg c f ≡ true))
later f best s sups c (inl h) = inl h
later f best s sups c (inr h) = inr (inr h.0, h.1)

-- One decision more at the front of those that the loop passes.
Judged-skip :
    (f : Finding) (best : Option Suppression) (s : Suppression) (sups : List Suppression)
    (r : Option Suppression)
    → (covers_pkg s f && beats s best) ≡ false
    → Judged f best sups r
    → Judged f best (s ∷ sups) r
unfolding beats
Judged-skip f none s sups none e j = (j.0, (ground (arith, e), j.1))
Judged-skip f (some b) s sups none e j = absurd (ground (arith, j.0))
Judged-skip f none s sups (some c) e j =
    (later f none s sups c j.0, (j.1.0, (λ on. absurd (ground (arith, e, on)), j.1.1)))
Judged-skip f (some b) s sups (some c) e j =
    (later f (some b) s sups c j.0, (j.1.0, (λ on. ground (arith, e, on, j.1.0 b refl), j.1.1)))

Judged-take :
    (f : Finding) (best : Option Suppression) (s : Suppression) (sups : List Suppression)
    (r : Option Suppression)
    → (covers_pkg s f && beats s best) ≡ true
    → Judged f (some s) sups r
    → Judged f best (s ∷ sups) r
unfolding beats
Judged-take f best s sups none e j = absurd (ground (arith, j.0))
Judged-take f best s sups (some c) e j = (
  elim j.0 [
    | inl h ↦ inr (
      inl (some-injective s c h),
      subst (λ d. covers_pkg d f ≡ true) (some-injective s c h) (ground (arith, e)),
    )
    | inr h ↦ inr (inr h.0, h.1)
  ],
  (better best e, (λ _. j.1.0 s refl, j.1.1)),
)
  where
    better :
        (o : Option Suppression)
        → (covers_pkg s f && beats s o) ≡ true
        → (b : Suppression) → o ≡ some b
        → score b ≤ score c
    better none h b same = absurd (ground (arith, same))
    better (some d) h b same =
        subst (λ x. score x ≤ score c) (some-injective d b same) (ground (arith, h, j.1.0 s refl))

best_from-Judged :
    (f : Finding) (best : Option Suppression) (sups : List Suppression)
    → Judged f best sups (best_from f best sups)
unfolding best_from
best_from-Judged f none [] = (refl, tt)
best_from-Judged f (some b) [] =
    (inl refl, (λ c e. subst (λ x. score x ≤ score b) (some-injective b c e) (omega arith), tt))
best_from-Judged f best (s ∷ sups) = elim (Bool-cases (covers_pkg s f && beats s best)) [
  | inl e ↦
      rw e
        (Judged-take f best s sups (best_from f (some s) sups) e (best_from-Judged f (some s) sups))
  | inr e ↦
      rw e (Judged-skip f best s sups (best_from f best sups) e (best_from-Judged f best sups))
]

module _ (f : Finding) where
  all-about :
      (sups : List Suppression)
      → All (λ (s : Suppression). covers_pkg s f ≡ false) (about_vuln f.vuln_id sups)
      → All (λ (s : Suppression). applies f s ≡ false) sups
  unfolding select_where covers_pkg
  all-about [] a = tt
  all-about (s ∷ sups) a = elim (Bool-cases (s.vuln_id =s f.vuln_id)) [
    | inl e ↦ rw e (let b = rw e at a in (b.0, all-about sups b.1))
    | inr e ↦ rw e (refl, all-about sups (rw e at a))
  ]

  score-about :
      (n : ℕ) (sups : List Suppression)
      → All (λ (s : Suppression). covers_pkg s f ≡ true → score s ≤ n) (about_vuln f.vuln_id sups)
      → All (λ (s : Suppression). applies f s ≡ true → score s ≤ n) sups
  unfolding select_where covers_pkg
  score-about n [] a = tt
  score-about n (s ∷ sups) a = elim (Bool-cases (s.vuln_id =s f.vuln_id)) [
    | inl e ↦ rw e (let b = rw e at a in (b.0, score-about n sups b.1))
    | inr e ↦ rw e (λ h. absurd (ground (arith, h)), score-about n sups (rw e at a))
  ]

  Among-about :
      (b : Suppression) (sups : List Suppression)
      → Among b (about_vuln f.vuln_id sups)
      → Among b sups × ((b.vuln_id =s f.vuln_id) ≡ true)
  unfolding select_where
  Among-about b [] a = absurd a
  Among-about b (s ∷ sups) a = elim (Bool-cases (s.vuln_id =s f.vuln_id)) [
    | inr e ↦ let r = Among-about b sups (rw e at a) in (inr r.0, r.1)
    | inl e ↦ elim (the_rest (rw e at a)) [
      | inl h ↦ (inl h, subst (λ (d : Suppression). (d.vuln_id =s f.vuln_id) ≡ true) h e)
      | inr h ↦ let r = Among-about b sups h in (inr r.0, r.1)
    ]
  ]
    where
      the_rest :
          Among b (s ∷ about_vuln f.vuln_id sups) → (s ≡ b) ⊎ Among b (about_vuln f.vuln_id sups)
      the_rest m = m

  Judged-Best :
      (sups : List Suppression) (r : Option Suppression)
      → Judged f none (about_vuln f.vuln_id sups) r
      → Best f sups r
  unfolding covers_pkg
  Judged-Best sups none j = all-about sups j.1
  Judged-Best sups (some c) j = elim j.0 [
    | inl h ↦ absurd (ground (arith, h))
    | inr h ↦
        let m = Among-about c sups h.0 in
        (
          m.0,
          (
            ground (arith, m.1, h.1),
            All-weaken (λ (s : Suppression). applies f s ≡ true → score s ≤ score c)
                (λ (s : Suppression). applies f s ≡ true → IsAbove c s) sups
                (λ s below on. score-IsAbove c s (below on)) (score-about (score c) sups j.1.1),
          ),
        )
  ]

-- What a finding is marked with.
pub decide-Best :
    (f : Finding) (sups : List Suppression)
    → Best f sups (best_from f none (about_vuln f.vuln_id sups))
decide-Best f sups =
    Judged-Best f sups (best_from f none (about_vuln f.vuln_id sups))
      (best_from-Judged f none (about_vuln f.vuln_id sups))

-- A finding shows its decision, and is otherwise what it was.
abbrev pub Shows : Option Suppression → Finding → Finding → Type 0
Shows none f g = g ≡ f
Shows (some b) f g = g ≡ record f { suppressed = true; suppression = some b }

marked-Shows : (r : Option Suppression) (f : Finding) → Shows r f (marked r f)
unfolding marked
marked-Shows none f = refl
marked-Shows (some b) f = refl

-- The findings before and after, one by one.
abbrev pub Decided : List Suppression → List Finding → List Finding → Type 0
Decided sups [] [] = Unit
Decided sups [] (g ∷ gs) = ⊥
Decided sups (f ∷ fs) [] = ⊥
Decided sups (f ∷ fs) (g ∷ gs) =
    ((r : Option Suppression) × (Best f sups r × Shows r f g)) × Decided sups fs gs

none-Decided : (rows : List Finding) → Decided [] rows rows
none-Decided [] = tt
none-Decided (f ∷ rows) = ((none, (tt, refl)), none-Decided rows)

some-Decided :
    (sups : List Suppression) (rows : List Finding) → Decided sups rows (map (decide sups) rows)
unfolding decide
some-Decided sups [] = tt
some-Decided sups (f ∷ rows) = (
  (
    best_from f none (about_vuln f.vuln_id sups),
    (decide-Best f sups, marked-Shows (best_from f none (about_vuln f.vuln_id sups)) f),
  ),
  some-Decided sups rows,
)

-- Each finding is marked with a decision that applies to it and that none of those that apply
-- beats, a decision about the repository counting before one for all and one about the package
-- before one for any, and is otherwise what it was; where none applies the finding is left alone.
pub apply_suppressions-Decided :
    (rows : List Finding) (sups : List Suppression)
    → Decided sups rows (apply_suppressions rows sups)
unfolding apply_suppressions
apply_suppressions-Decided rows [] = none-Decided rows
apply_suppressions-Decided rows (s ∷ sups) = some-Decided (s ∷ sups) rows
