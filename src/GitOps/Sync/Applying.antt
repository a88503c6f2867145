-- ===== src/GitOps/Sync/Applying.antt =====
-- What the report of a sync says: backend/handlers/gitops_engine.go.
use commitkube.Base.{
  ℕ, ◌+◌, ◌≡◌, refl, ◌∙◌, Bool, true, false, ◌||◌, Option, none, some, List, [], ◌∷◌, ◌++◌, arith,
  count_where, count_where-append, any_where, length,
}
use commitkube.GitOps.Types.{
  Obj, App, Resource, Outcome, ApiError, not_found, refused, Answer, ok, failed, Kube,
}
use commitkube.GitOps.Prepare.{Target}
use commitkube.GitOps.Sync.{
  Line, skipped, apply_failed, prune_failed, applied, left, kept, pruned, Report, report_invalid,
  record_apply, record_delete, Fate, pass, forget, leave, keep, remove, fate, meet, apply_all,
  prune_all,
}

-- The lines that speak of a manifest.
abbrev pub is_manifest_line : Line → Bool
is_manifest_line (skipped _ _ _) = true
is_manifest_line (apply_failed _ _ _) = true
is_manifest_line (applied _ _) = true
is_manifest_line _ = false

-- The lines that report a failure.
abbrev pub is_failure : Line → Bool
is_failure (skipped _ _ _) = true
is_failure (apply_failed _ _ _) = true
is_failure (prune_failed _ _ _) = true
is_failure _ = false

any_where-snoc :
    (ls : List Line) (l : Line)
    → any_where is_failure (ls ++ l ∷ []) ≡ (any_where is_failure ls || is_failure l)
unfolding any_where
any_where-snoc [] l = ground arith
any_where-snoc (k ∷ ls) l = ground (arith, any_where-snoc ls l)

-- How many manifests a report accounts for, and whether it fails exactly when a line says so.
abbrev pub accounted : Report → ℕ
accounted r = count_where is_manifest_line r.lines

abbrev pub IsHonest : Report → Type 0
IsHonest r = r.failing ≡ any_where is_failure r.lines

pub report_invalid-accounted :
    (os : List Outcome) (r : Report) → accounted (report_invalid os r) ≡ accounted r + length os
unfolding report_invalid count_where
report_invalid-accounted [] r = omega arith
report_invalid-accounted (o ∷ os) r = omega (
  arith,
  report_invalid-accounted os _,
  count_where-append is_manifest_line r.lines (skipped o.gvk.kind o.name o.message ∷ []),
)

pub report_invalid-IsHonest :
    (os : List Outcome) (r : Report) → IsHonest r → IsHonest (report_invalid os r)
unfolding report_invalid
report_invalid-IsHonest [] r h = h
report_invalid-IsHonest (o ∷ os) r h =
    report_invalid-IsHonest os _
      (ground (arith, any_where-snoc r.lines (skipped o.gvk.kind o.name o.message)))

record_apply-accounted :
    (t : Target) (a : Answer Obj) (r : Report) → accounted (record_apply t a r) ≡ accounted r + 1
unfolding record_apply count_where
record_apply-accounted t (failed e) r = count_where-append is_manifest_line r.lines _
record_apply-accounted t (ok o) r = count_where-append is_manifest_line r.lines _

record_apply-IsHonest :
    (t : Target) (a : Answer Obj) (r : Report) → IsHonest r → IsHonest (record_apply t a r)
unfolding record_apply
record_apply-IsHonest t (failed e) r h = ground (
  arith,
  any_where-snoc r.lines
      (apply_failed t.obj.gvk.kind t.obj.name (elim e [ not_found m ↦ m | refused m ↦ m ])),
)
record_apply-IsHonest t (ok o) r h =
    ground (arith, any_where-snoc r.lines (applied t.obj.gvk.kind t.obj.name))

module _ (kube : Kube) where
  open kube use {World, apply, delete}

  pub apply_all-accounted :
      (ts : List Target) (w : World) (r : Report)
      → accounted (apply_all kube ts w r).1 ≡ accounted r + length ts
  unfolding apply_all
  apply_all-accounted [] w r = omega arith
  apply_all-accounted (t ∷ ts) w r =
      let (a, w') = apply w t.resource t.obj.namespace t.obj false in
      omega (arith, apply_all-accounted ts w' (record_apply t a r), record_apply-accounted t a r)

  pub apply_all-IsHonest :
      (ts : List Target) (w : World) (r : Report) → IsHonest r → IsHonest (apply_all kube ts w r).1
  unfolding apply_all
  apply_all-IsHonest [] w r h = h
  apply_all-IsHonest (t ∷ ts) w r h =
      let (a, w') = apply w t.resource t.obj.namespace t.obj false in
      apply_all-IsHonest ts w' (record_apply t a r) (record_apply-IsHonest t a r h)

  record_delete-accounted :
      (r : Resource) (e : Option ApiError) (out : Report)
      → accounted (record_delete kube r e out) ≡ accounted out
  unfolding record_delete count_where
  record_delete-accounted r (some (refused e)) out =
      count_where-append is_manifest_line out.lines _ ∙ omega arith
  record_delete-accounted r (some (not_found e)) out =
      count_where-append is_manifest_line out.lines _ ∙ omega arith
  record_delete-accounted r none out = count_where-append is_manifest_line out.lines _ ∙ omega arith

  record_delete-IsHonest :
      (r : Resource) (e : Option ApiError) (out : Report)
      → IsHonest out
      → IsHonest (record_delete kube r e out)
  unfolding record_delete
  record_delete-IsHonest r (some (refused e)) out h =
      ground (arith, any_where-snoc out.lines (prune_failed r.gvk.kind r.name e))
  record_delete-IsHonest r (some (not_found e)) out h =
      ground (arith, any_where-snoc out.lines (pruned r.gvk.kind r.name))
  record_delete-IsHonest r none out h =
      ground (arith, any_where-snoc out.lines (pruned r.gvk.kind r.name))

  meet-accounted :
      (r : Resource) (f : Fate) (w : World) (out : Report)
      → accounted (meet kube r f w out).1 ≡ accounted out
  unfolding meet count_where
  meet-accounted r pass w out = refl
  meet-accounted r forget w out = refl
  meet-accounted r leave w out = count_where-append is_manifest_line out.lines _ ∙ omega arith
  meet-accounted r keep w out = count_where-append is_manifest_line out.lines _ ∙ omega arith
  meet-accounted r (remove res) w out =
      record_delete-accounted r (delete w res r.namespace r.name).0 out

  meet-IsHonest :
      (r : Resource) (f : Fate) (w : World) (out : Report)
      → IsHonest out
      → IsHonest (meet kube r f w out).1
  unfolding meet
  meet-IsHonest r pass w out h = h
  meet-IsHonest r forget w out h = h
  meet-IsHonest r leave w out h = ground (arith, any_where-snoc out.lines (left r.gvk.kind r.name))
  meet-IsHonest r keep w out h = ground (arith, any_where-snoc out.lines (kept r.gvk.kind r.name))
  meet-IsHonest r (remove res) w out h =
      record_delete-IsHonest r (delete w res r.namespace r.name).0 out h

  pub prune_all-accounted :
      (app : App) (ts : List Target) (rs : List Resource) (w : World) (out : Report)
      → accounted (prune_all kube app ts rs w out).1 ≡ accounted out
  unfolding prune_all
  prune_all-accounted app ts [] w out = refl
  prune_all-accounted app ts (r ∷ rs) w out =
      prune_all-accounted app ts rs _ _ ∙ meet-accounted r (fate kube app ts w r) w out

  pub prune_all-IsHonest :
      (app : App) (ts : List Target) (rs : List Resource) (w : World) (out : Report)
      → IsHonest out
      → IsHonest (prune_all kube app ts rs w out).1
  unfolding prune_all
  prune_all-IsHonest app ts [] w out h = h
  prune_all-IsHonest app ts (r ∷ rs) w out h =
      prune_all-IsHonest app ts rs _ _ (meet-IsHonest r (fate kube app ts w r) w out h)
