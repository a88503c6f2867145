-- ===== src/Findings/Revised.antt =====
-- What one scan makes of one finding: backend/handlers/scan_findings.go, as a reader sees it.
use commitkube.Base.{
  if◌then◌else◌, ℕ, ◌≡◌, refl, sym, ap, ◌∙◌, String, Bool, true, false, Option, none, some, List,
  [], ◌∷◌, ◌&&◌, any_where, arith, inl, inr, Bool-cases, not, ◌=s◌, =s_self, ◌||◌,
}
use commitkube.Findings.Finding.{Finding, Identity, identity, same_identity-true, same_identity}
use commitkube.Findings.Table.{is_resolved, Row}
use commitkube.Findings.Spec.{is_reported, since}
use commitkube.Findings.Walk.{InDomain, opened}

-- What a scan makes of an identity of its repository and domain: reported or not, of a kind that
-- was not looked for or not, and since when open before.
unfoldable pub revised : ℕ → Bool → Bool → Option ℕ → Option ℕ
revised at true skipped before = some (opened at before)
revised at false true before = before
revised at false false before = none

reported-domain :
    (domain : String) (fs : List Finding) (i : Identity)
    → InDomain domain fs
    → is_reported i fs ≡ true
    → i.domain ≡ domain
unfolding any_where
reported-domain domain [] i ds told = absurd (ground arith)
reported-domain domain (f ∷ fs) i ds told = elim (Bool-cases (same_identity (identity f) i)) [
  | inl e ↦ ap (λ (j : Identity). j.domain) (sym (same_identity-true (identity f) i e)) ∙ ds.0
  | inr e ↦ reported-domain domain fs i ds.1 (rw e at told)
]

pub reported-test :
    (domain : String) (fs : List Finding) (i : Identity)
    → InDomain domain fs
    → is_reported i fs ≡ true
    → (i.domain =s domain) ≡ true
reported-test domain fs i ds told =
    ap (λ s. s =s domain) (reported-domain domain fs i ds told) ∙ =s_self domain

pub revised-none : (at : ℕ) (m : Bool) → since none ≡ revised at false m (since none)
unfolding since revised
revised-none at true = refl
revised-none at false = refl

pub revised-some :
    (at : ℕ) (a : Row) (c m : Bool)
    → c ≡ (not (is_resolved a) && not m)
    → (if c then none else since (some a)) ≡ revised at false m (since (some a))
unfolding since revised
revised-some at a c true e = ground arith
revised-some at a c false e = ground arith

pub or_false : (b : Bool) → (b || false) ≡ b
or_false true = refl
or_false false = refl
