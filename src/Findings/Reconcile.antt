-- ===== src/Findings/Reconcile.antt =====
-- What a scan leaves open: reconcileFindings of backend/handlers/scan_findings.go against the view
-- of a reader, who sees since when each finding has been open.
use commitkube.Findings.Revised.{revised, reported-test, revised-none, revised-some, or_false}
use commitkube.Findings.Gone.{mem-selected, selected-mem, omap, find_first-map}
use commitkube.Findings.Finish.{finish-none, finish-some}
use commitkube.Findings.Settle.{Settled, visit_all-Settled}
use commitkube.Base.{
  if◌then◌else◌, ℕ, ◌≤◌, ◌≡◌, refl, sym, ap, ◌∙◌, subst, String, Bool, true, false, none, some,
  List, [], ◌&&◌, find_first, count_where, any_where, select_where, arith, only_keyed, map, inl,
  inr, Bool-cases, Option-cases, not, ◌=s◌, ap₂, find_first-holds, =s_true, =s_self, =s_sym,
}
use mathlib.Core.Option.{some-injective}
use commitkube.Findings.Finding.{Finding, Identity, identity, same_identity-true}
use commitkube.Findings.Table.{
  mem_text, is_resolved, Row, Table, Pass, is_of, latest, is_gone, row_ids, mem_id, visit_all,
  reconcile, row_identity, is_seen, finding_from_row,
}
use commitkube.Findings.Spec.{
  Part, part, part_at, at_place, latest-existing, IsSound, open_since, is_reported, since,
}
use commitkube.Findings.Walk.{
  InDomain, opened, visit_all-part, Views, visit_all-seen, visit_all-quiet,
}

module _ (repo domain : String) (report : List Finding) (at : ℕ) (skip : List String) (t : Table)
    (sound : IsSound t) (ds : InDomain domain report) where
  abbrev index : List Row
  index = select_where (is_of repo domain) t.rows

  abbrev begun : Pass
  begun = record { rows = t.rows; seen = []; touched = []; created = []; new_count = 0 }

  abbrev walked : Pass
  walked = visit_all repo at index report begun

  one : (i : Identity) → count_where (at_place repo i) t.rows ≤ 1
  one i = sound.unique repo i

  same : map part t.rows ≡ map part walked.rows
  same = visit_all-part repo domain at t.rows sound.distinct one report begun ds refl

  -- The row of an identity is the same row after the loop, if in other words.
  same-row :
      (where_ : String) (i : Identity)
      → omap (find_first (at_place where_ i) t.rows)
        ≡ omap (find_first (at_place where_ i) walked.rows)
  same-row where_ i =
      find_first-map where_ i t.rows
      ∙ ap (find_first (part_at where_ i)) same
      ∙ sym (find_first-map where_ i walked.rows)

  is_closed : Row → Bool
  is_closed a = is_of repo domain a && is_gone walked.seen skip a

  -- The gone rows are the open ones of the repository and domain that no finding and no kind spared.
  gone-mem :
      (where_ : String) (i : Identity) (a : Row)
      → find_first (at_place where_ i) t.rows ≡ some a
      → mem_id a.id (row_ids (select_where (is_gone walked.seen skip) (latest index))) ≡ is_closed a
  unfolding is_closed
  gone-mem where_ i a e = rw (latest-existing repo domain t.rows one) (
      ground (
        arith,
        mem-selected (is_of repo domain) (is_gone walked.seen skip) t.rows a
            (only_keyed (λ (r : Row). r.id) (at_place where_ i) t.rows a sound.distinct e),
        selected-mem (at_place where_ i) (is_of repo domain) (is_gone walked.seen skip) t.rows a e,
      ))

  after-none :
      (where_ : String) (i : Identity)
      → find_first (at_place where_ i) walked.rows ≡ none
      → open_since where_ i (reconcile repo domain report at skip t).0
        ≡ since (find_first (at_place where_ i) walked.created)
  unfolding reconcile
  after-none where_ i e = finish-none where_ i at skip index walked t.next_id e

  after-some :
      (where_ : String) (i : Identity) (a b : Row)
      → find_first (at_place where_ i) t.rows ≡ some a
      → find_first (at_place where_ i) walked.rows ≡ some b
      → open_since where_ i (reconcile repo domain report at skip t).0
        ≡ (if is_closed a then none else since (some b))
  unfolding reconcile
  after-some where_ i a b ea eb =
      let parts : part b ≡ part a =
        some-injective (part b) (part a)
          (ap omap (sym eb) ∙ sym (same-row where_ i) ∙ ap omap ea) in
      finish-some where_ i at skip index walked t.next_id b eb
      ∙ ap (λ (c : Bool). if c then none else since (some b))
          (ap
              (λ (k : Part).
                mem_id k.0 (row_ids (select_where (is_gone walked.seen skip) (latest index))))
              parts
            ∙ gone-mem where_ i a ea)

  closed-at :
      (where_ : String) (i : Identity) (a : Row)
      → find_first (at_place where_ i) t.rows ≡ some a
      → is_closed a ≡ (
          ((where_ =s repo) && (i.domain =s domain))
          && (not (is_resolved a) && (not (is_reported i report) && not (mem_text i.kind skip))))
  unfolding is_closed is_gone any_where identity finding_from_row
  closed-at where_ i a e =
      let here : is_closed a ≡ (
          ((a.repo_name =s repo) && (a.domain =s domain))
          && (not (is_resolved a)
              && (not (is_seen (row_identity a) walked.seen) && not (mem_text a.kind skip)))) =
        ground arith in
      here
      ∙ ap₂
          (λ (s : String) (j : Identity).
            ((s =s repo) && (j.domain =s domain))
            && (not (is_resolved a) && (not (is_seen j walked.seen) && not (mem_text j.kind skip))))
          (=s_true a.repo_name where_
            (ground (arith, find_first-holds (at_place where_ i) t.rows e)))
          (same_identity-true (row_identity a) i
            (ground (arith, find_first-holds (at_place where_ i) t.rows e)))
      ∙ ap
          (λ (b : Bool).
            ((where_ =s repo) && (i.domain =s domain))
            && (not (is_resolved a) && (not b && not (mem_text i.kind skip))))
          (visit_all-seen repo at index report begun i ∙ or_false (is_reported i report))

  -- The rows of another repository or domain stay as they are.
  elsewhere :
      (where_ : String) (i : Identity)
      → (where_ =s repo && i.domain =s domain) ≡ false
      → open_since where_ i (reconcile repo domain report at skip t).0 ≡ open_since where_ i t
  unfolding open_since any_where find_first
  elsewhere where_ i apart =
      let v : Views repo domain at t.rows sound.distinct one where_ i walked begun =
        visit_all-quiet repo domain at t.rows sound.distinct one report begun where_ i ds refl
          (ground (arith, apart, =s_sym repo where_, reported-test domain report i ds)) in
      elim (Option-cases (find_first (at_place where_ i) t.rows)) [
        | inl e ↦ after-none where_ i (v.0 ∙ e) ∙ ap since (v.1 ∙ sym e)
        | inr (a, e) ↦
            after-some where_ i a a e (v.0 ∙ e)
            ∙ (let off : is_closed a ≡ false = ground (arith, apart, closed-at where_ i a e) in
                rw off (ap since (sym e)))
      ]

  named :
      (i : Identity)
      → i.domain ≡ domain
      → is_reported i report ≡ true
      → open_since repo i (reconcile repo domain report at skip t).0
        ≡ some (opened at (open_since repo i t))
  unfolding open_since any_where find_first since
  named i d told = elim (Option-cases (find_first (at_place repo i) t.rows)) [
    | inl e ↦
        let s : Settled repo at none i walked =
          visit_all-Settled repo domain at t.rows sound.distinct one report none i begun ds d e e
            refl refl refl told in
        after-none repo i s.0 ∙ s.1 ∙ ap (λ o. some (opened at (since o))) (sym e)
    | inr (a, e) ↦
        let s : Settled repo at (some a) i walked =
          visit_all-Settled repo domain at t.rows sound.distinct one report (some a) i begun ds d e
            e refl refl refl told in
        after-some repo i a s.0 e s.1.0
        ∙ (let off : is_closed a ≡ false = ground (arith, told, closed-at repo i a e) in
            rw off (s.1.1 ∙ ap (λ o. some (opened at (since o))) (sym e)))
  ]

  unnamed :
      (i : Identity)
      → i.domain ≡ domain
      → is_reported i report ≡ false
      → open_since repo i (reconcile repo domain report at skip t).0
        ≡ revised at false (mem_text i.kind skip) (open_since repo i t)
  unfolding open_since any_where find_first revised
  unnamed i d untold =
      let v : Views repo domain at t.rows sound.distinct one repo i walked begun =
        visit_all-quiet repo domain at t.rows sound.distinct one report begun repo i ds refl
          (ground (arith, untold)) in
      elim (Option-cases (find_first (at_place repo i) t.rows)) [
        | inl e ↦
            after-none repo i (v.0 ∙ e)
            ∙ ap since v.1
            ∙ revised-none at (mem_text i.kind skip)
            ∙ ap (λ o. revised at false (mem_text i.kind skip) (since o)) (sym e)
        | inr (a, e) ↦
            after-some repo i a a e (v.0 ∙ e)
            ∙ revised-some at a (is_closed a) (mem_text i.kind skip) (
                ground (
                  arith,
                  untold,
                  d,
                  =s_self repo,
                  =s_self domain,
                  ap (λ s. s =s domain) d,
                  closed-at repo i a e,
                ))
            ∙ ap (λ o. revised at false (mem_text i.kind skip) (since o)) (sym e)
      ]

-- From a table with one row for each identity, a scan leaves open what its report names, each
-- since the date that it was already open or else since the scan, and of the rest only the kinds
-- that it did not look for; what belongs to another repository or domain is open since when it
-- was. The findings of the report carry the domain of the scan.
pub reconcile-revises :
    (repo domain : String) (report : List Finding) (at : ℕ) (skip : List String) (t : Table)
    (where_ : String) (i : Identity)
    → IsSound t
    → InDomain domain report
    → open_since where_ i (reconcile repo domain report at skip t).0 ≡ (
        if where_ =s repo && i.domain =s domain
        then revised at (is_reported i report) (mem_text i.kind skip) (open_since where_ i t)
        else open_since where_ i t)
unfolding revised
reconcile-revises repo domain report at skip t where_ i sound ds =
    elim (Bool-cases (where_ =s repo && i.domain =s domain)) [
      | inr apart ↦ rw apart (elsewhere repo domain report at skip t sound ds where_ i apart)
      | inl mine ↦ rw mine (
          subst
            (λ w.
              open_since w i (reconcile repo domain report at skip t).0
              ≡ revised at (is_reported i report) (mem_text i.kind skip) (open_since w i t))
            (sym (=s_true where_ repo (ground (arith, mine))))
            (elim (Bool-cases (is_reported i report)) [
              | inl told ↦ rw told (
                  named repo domain report at skip t sound ds i
                    (=s_true i.domain domain (ground (arith, mine))) told)
              | inr untold ↦ rw untold (
                  unnamed repo domain report at skip t sound ds i
                    (=s_true i.domain domain (ground (arith, mine))) untold)
            ]))
    ]
