-- ===== src/Findings/Suppress.antt =====
-- The decisions that apply to findings, and what counts after them: activeSuppressions,
-- applySuppressions and the counts of backend/handlers/scan_findings.go.
use commitkube.Base.{
  ℕ, ◌+◌, String, Bool, true, false, not, Option, none, some, List, [], ◌∷◌, ◌&&◌, ◌||◌, ◌=s◌,
  if◌then◌else◌, count_where, select_where, map, ltb,
}
use commitkube.Findings.Finding.{Suppression, Finding}

-- `ExpiresAt.Before(now)`; a decision without a date has not expired.
unfoldable pub is_expired : ℕ → Option ℕ → Bool
is_expired now none = false
is_expired now (some t) = ltb t now

-- activeSuppressions
unfoldable pub active_suppressions : ℕ → String → List Suppression → List Suppression
active_suppressions now repo all =
    select_where (λ (s : Suppression). not (is_expired now s.expires_at))
      (select_where (λ (s : Suppression). s.repo_name =s repo || s.repo_name =s "") all)

-- The `Pkg` of a decision and of a finding.
unfoldable pub covers_pkg : Suppression → Finding → Bool
covers_pkg s f = s.pkg =s "" || s.pkg =s f.pkg

unfoldable pub score : Suppression → ℕ
score s = (if s.repo_name =s "" then 0 else 2) + (if s.pkg =s "" then 0 else 1)

-- `score > bestScore`, which is -1 before the first.
unfoldable pub beats : Suppression → Option Suppression → Bool
beats s none = true
beats s (some best) = ltb (score best) (score s)

-- The loop over the decisions about one weakness; the best so far goes along.
unfoldable pub best_from : Finding → Option Suppression → List Suppression → Option Suppression
best_from f best [] = best
best_from f best (s ∷ sups) =
    best_from f (if covers_pkg s f && beats s best then some s else best) sups

unfoldable pub marked : Option Suppression → Finding → Finding
marked none f = f
marked (some s) f = record f { suppressed = true; suppression = some s }

-- `byVuln[v]`
abbrev pub about_vuln : String → List Suppression → List Suppression
about_vuln v = select_where (λ (s : Suppression). s.vuln_id =s v)

unfoldable pub decide : List Suppression → Finding → Finding
decide sups f = marked (best_from f none (about_vuln f.vuln_id sups)) f

-- applySuppressions
unfoldable pub apply_suppressions : List Finding → List Suppression → List Finding
apply_suppressions rows [] = rows
apply_suppressions rows (s ∷ sups) = map (decide (s ∷ sups)) rows

-- `countFindings(rows)[severity]`
abbrev pub count_findings : String → List Finding → ℕ
count_findings severity = count_where (λ (f : Finding). not f.suppressed && f.severity =s severity)

abbrev pub count_kind : String → List Finding → ℕ
count_kind kind = count_where (λ (f : Finding). f.kind =s kind && not f.suppressed)

abbrev pub count_suppressed : List Finding → ℕ
count_suppressed = count_where (λ (f : Finding). f.suppressed)
