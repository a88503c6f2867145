-- ===== src/Findings/Asked.antt =====
-- What a request to decide asks for and when it is fit, said of the request itself:
-- CreateScanSuppression of backend/handlers/scan_findings.go.
use commitkube.Base.{
  ℕ, ◌+◌, ◌≤◌, ◌≡◌, refl, sym, ap, ◌∙◌, String, true, false, Option, none, some, ◌||◌, ◌=s◌,
  any_where, trim_left, trim_right, arith, Bool-cases, inl, inr, =s_true, subst,
}
use mathlib.Core.Option.{some-injective}
use commitkube.Findings.Finding.{Suppression}
use commitkube.Findings.Store.{Store}
use commitkube.Findings.Decisions.{
  Env, Request, Problem, trimmed, request_problem, expiry, expiry_problem, parsed, day_end,
  date_problem, first_problem, decision_of,
}

-- `strings.TrimSpace`
abbrev pub clean : String → String
clean t = trim_right (trim_left t)

-- The moment that a date stands for: itself in RFC 3339, or the last second of a day.
pub data Means (e : Env) (text : String) : ℕ → Type 0 where
  moment : {t : ℕ} → e.parse_time text ≡ some t → Means e text t
  day : {d : ℕ} → e.parse_time text ≡ none → e.parse_date text ≡ some d → Means e text (d + 86399)

-- A date that is not in the past, or no date.
abbrev pub Expires : Env → String → Option ℕ → Type 0
Expires e text none = text ≡ ""
Expires e text (some t) = ((text =s "") ≡ false) × (Means e text t × (e.now ≤ t))

-- A weakness and one of the four reasons are given, with a note unless the reason is a false
-- positive; the repository is known, where one is named, and the date is one that has not passed.
pub record IsFit (e : Env) (q : Request) (s : Store) : Type 0 where
  pub weakness : (clean q.vuln_id =s "") ≡ false
  pub reason :
      (q.reason =s "false_positive"
        || q.reason =s "not_affected"
        || q.reason =s "accepted_risk"
        || q.reason =s "fix_planned")
      ≡ true
  pub note : (q.reason =s "false_positive") ≡ false → (clean q.note =s "") ≡ false
  pub repo :
      (clean q.repo_name =s "") ≡ false
      → any_where (λ n. n =s clean q.repo_name) s.repositories ≡ true
  pub date : (o : Option ℕ) × Expires e q.expires_at o

-- The decision says what the request asks for.
pub record IsFor (e : Env) (uid : ℕ) (q : Request) (sup : Suppression) : Type 0 where
  pub repo_name : sup.repo_name ≡ clean q.repo_name
  pub vuln_id : sup.vuln_id ≡ clean q.vuln_id
  pub pkg : sup.pkg ≡ clean q.pkg
  pub reason : sup.reason ≡ q.reason
  pub note : sup.note ≡ clean q.note
  pub created_by : sup.created_by ≡ uid
  pub expires : Expires e q.expires_at sup.expires_at

not_past :
    (e : Env) (o : Option ℕ) → date_problem e.now o ≡ none → (t : ℕ) × ((o ≡ some t) × (e.now ≤ t))
unfolding date_problem
not_past e none h = absurd (ground arith)
not_past e (some t) h = (t, (refl, ground arith))

parsed-Means :
    (e : Env) (text : String) (a b : Option ℕ) (t : ℕ)
    → e.parse_time text ≡ a
    → e.parse_date text ≡ b
    → parsed e text a ≡ some t
    → Means e text t
unfolding parsed day_end
parsed-Means e text (some u) b t p d h = moment (p ∙ h)
parsed-Means e text none none t p d h = absurd (ground (arith, d))
parsed-Means e text none (some u) t p d h = at_day (some-injective (u + 86399) t (day_of ∙ h))
  where
    day_of : some (u + 86399) ≡ parsed e text none
    day_of = sym (ap day_end d)

    at_day : u + 86399 ≡ t → Means e text t
    at_day same = subst (Means e text) same (day p d)

expiry-Expires :
    (e : Env) (text : String) → expiry_problem e text ≡ none → Expires e text (expiry e text)
unfolding expiry_problem expiry
expiry-Expires e text h = elim (Bool-cases (text =s "")) [
  | inl on ↦ rw on (=s_true text "" on)
  | inr off ↦
      let (t, (same, later)) = not_past e (parsed e text (e.parse_time text)) (rw off at h) in
      rw off (
        subst (Expires e text) (sym same) (
          off,
          (parsed-Means e text (e.parse_time text) (e.parse_date text) t refl refl same, later),
        ))
]

Means-parsed :
    (e : Env) (text : String) (t : ℕ) → Means e text t → parsed e text (e.parse_time text) ≡ some t
unfolding parsed day_end
Means-parsed e text t (moment p) = rw p refl
Means-parsed e text t (day p d) = rw p (rw d refl)

Expires-problem :
    (e : Env) (text : String) (o : Option ℕ) → Expires e text o → expiry_problem e text ≡ none
unfolding expiry_problem date_problem
Expires-problem e text none h = rw (ap (λ t. t =s "") h) refl
Expires-problem e text (some t) h =
    rw h.0 (rw (Means-parsed e text t h.1.0) (ground (arith, h.1.1)))

pub none-parts : (a b : Option Problem) → first_problem a b ≡ none → (a ≡ none) × (b ≡ none)
unfolding first_problem
none-parts none b h = (refl, h)
none-parts (some p) b h = absurd (ground arith)

-- A request with no problem is fit.
pub no_problem-IsFit :
    (e : Env) (q : Request) (s : Store)
    → first_problem (request_problem (trimmed q) s) (expiry_problem e (trimmed q).expires_at) ≡ none
    → IsFit e q s
unfolding trimmed request_problem
no_problem-IsFit e q s h =
    let (a, b) =
      none-parts (request_problem (trimmed q) s) (expiry_problem e (trimmed q).expires_at) h in
    record {
      weakness = ground (arith, a);
      reason = ground (arith, a);
      note = λ other. ground (arith, a, other);
      repo = λ named. ground (arith, a, named);
      date = (expiry e q.expires_at, expiry-Expires e q.expires_at b);
    }

-- A fit request has no problem.
pub IsFit-no_problem :
    (e : Env) (q : Request) (s : Store)
    → IsFit e q s
    → first_problem (request_problem (trimmed q) s) (expiry_problem e (trimmed q).expires_at) ≡ none
unfolding trimmed request_problem first_problem
IsFit-no_problem e q s f =
    ground (
      arith,
      f.weakness,
      f.reason,
      f.note,
      f.repo,
      Expires-problem e q.expires_at f.date.0 f.date.1,
    )

pub decision_of-IsFor :
    (e : Env) (uid : ℕ) (q : Request) (s : Store)
    → expiry_problem e (trimmed q).expires_at ≡ none
    → IsFor e uid q (decision_of e uid (trimmed q) s)
unfolding trimmed decision_of
decision_of-IsFor e uid q s h = record {
  repo_name = refl;
  vuln_id = refl;
  pkg = refl;
  reason = refl;
  note = refl;
  created_by = refl;
  expires = expiry-Expires e q.expires_at h;
}
