-- ===== src/ReplicaSets/Deleting.antt =====
-- What a batch of deletions does to the cluster, and what it answers:
-- backend/handlers/replicaset_actions.go.
use commitkube.ReplicaSets.Sparing.{
  spared-none, IsQuiet, IsRecreated, runs-IsQuiet, is_idle-IsRecreated,
}
use commitkube.ReplicaSets.Ownership.{Behind, classify-Behind}
use mathlib.Core.List.{append-nil, append_assoc}
use mathlib.Core.Option.{some-injective}
use commitkube.Base.{
  count_where-append, ◌∙◌, sym, ◌++◌, ◌≡◌, refl, ◌⊎◌, inl, inr, String, Bool, true, false, not,
  Option, none, some, List, [], ◌∷◌, arith, if◌then◌else◌, length, length-append, ap, subst, ltb,
  count_where, map,
}
use commitkube.ReplicaSets.Role.{
  ReplicaSet, Answer, ok, failed, Client, Role, classify, Deployment, role_of,
}
use commitkube.ReplicaSets.Delete.{
  parting, told, skipped, record_deletion, Outcome, delete_replica_sets, Item, Message, deleted,
  failed_to, Result, Batch, answer, spared, carry_out, consider, delete_one, delete_each, outside,
}

abbrev is_deletion : Result → Bool
is_deletion r = elim r.outcome [ deleted ↦ true | _ ↦ false ]

-- The answers keep to the items, and the counts to the answers.
pub record IsTold (its : List Item) (b : Batch) : Type 0 where
  pub each : map (λ (r : Result). r.item) b.results ≡ its
  pub counted : b.deleted ≡ count_where is_deletion b.results
  pub logged : length b.audit ≡ b.deleted

abbrev begun : Batch
begun = record { results = []; deleted = 0; audit = [] }

map-snoc {ℓ κ} :
    {A : Type ℓ} {B : Type κ} (f : A → B) (xs : List A) (x : A)
    → map f (xs ++ x ∷ []) ≡ map f xs ++ f x ∷ []
map-snoc f [] x = refl
map-snoc f (y ∷ xs) x = ap (λ rest. f y ∷ rest) (map-snoc f xs x)

module _ (client : Client) (namespace_allowed : String → Bool) (allow : Bool) where
  open client use {World, get_set, delete_set}

  -- From the cluster before a batch to the cluster after: item by item, either nothing, or the
  -- deletion of a set that may go.
  pub data Removals : List Item → World → World → Type 0 where
    done : {w : World} → Removals [] w w
    keeping :
        {w w' : World} {it : Item} {its : List Item} → Removals its w w' → Removals (it ∷ its) w w'
    removing :
        {w w' : World} {it : Item} {its : List Item} (rs : ReplicaSet)
        → namespace_allowed it.namespace ≡ true
        → get_set w it.namespace it.name ≡ ok rs
        → (d : Option Deployment) → Behind client w it.namespace rs d
        → (allow ≡ true) ⊎ IsQuiet rs d
        → (IsRecreated rs d → ⊥)
        → Removals its (delete_set w it.namespace it.name).1 w'
        → Removals (it ∷ its) w w'

  Removals-carry_out :
      (it : Item) (its : List Item) (rs : ReplicaSet) (w w' : World) (b : Batch)
      (m : Option Message)
      → namespace_allowed it.namespace ≡ true
      → get_set w it.namespace it.name ≡ ok rs
      → spared allow (classify client w it.namespace rs) ≡ m
      → Removals its (carry_out client it (classify client w it.namespace rs) m w b).0 w'
      → Removals (it ∷ its) w w'
  unfolding carry_out
  Removals-carry_out it its rs w w' b (some m) may got e d = keeping d
  Removals-carry_out it its rs w w' b none may got e d =
      let (o, (behind, role)) = classify-Behind client w it.namespace rs in
      let (free, lasting) = spared-none allow (role_of rs o) (ap (spared allow) (sym role) ∙ e) in
      removing rs may got o behind (elim free [ inl h ↦ inl h | inr h ↦ inr (runs-IsQuiet rs o h) ])
        (is_idle-IsRecreated rs o lasting) d

  Removals-consider :
      (it : Item) (its : List Item) (a : Answer ReplicaSet) (w w' : World) (b : Batch)
      → namespace_allowed it.namespace ≡ true
      → get_set w it.namespace it.name ≡ a
      → Removals its (consider client allow it a w b).0 w'
      → Removals (it ∷ its) w w'
  unfolding consider
  Removals-consider it its (failed e) w w' b may got d = keeping d
  Removals-consider it its (ok rs) w w' b may got d =
      Removals-carry_out it its rs w w' b (spared allow (classify client w it.namespace rs)) may got
        refl d

  Removals-delete_one :
      (it : Item) (its : List Item) (w w' : World) (b : Batch) (may : Bool)
      → namespace_allowed it.namespace ≡ may
      → Removals its
          (if◌then◌else◌ {A = World × Batch}
            (not may)
            (w, answer it failed_to outside b)
            (consider client allow it (get_set w it.namespace it.name) w b)).0
          w'
      → Removals (it ∷ its) w w'
  Removals-delete_one it its w w' b false e d = keeping d
  Removals-delete_one it its w w' b true e d =
      Removals-consider it its (get_set w it.namespace it.name) w w' b e refl d

  delete_each-Removals :
      (its : List Item) (w : World) (b : Batch)
      → Removals its w (delete_each client namespace_allowed allow its w b).0
  unfolding delete_each delete_one
  delete_each-Removals [] w b = done
  delete_each-Removals (it ∷ its) w b =
      Removals-delete_one it its w _ b (namespace_allowed it.namespace) refl (
        delete_each-Removals its (delete_one client namespace_allowed allow it w b).0
          (delete_one client namespace_allowed allow it w b).1)

  no-Removals : (its : List Item) (w : World) → Removals its w w
  no-Removals [] w = done
  no-Removals (it ∷ its) w = keeping (no-Removals its w)

  -- A batch changes the cluster by deletions alone, item by item: of a set in a namespace that the
  -- caller may see, that is not at zero as the current revision of its Deployment, and that,
  -- unless the request allows running sets, asks for no pods and is not the current revision. A
  -- Deployment that could not be read counts as none.
  pub delete_replica_sets-Removals :
      (its : List Item) (w : World)
      → Removals its w (delete_replica_sets client namespace_allowed allow its w).0
  unfolding delete_replica_sets
  delete_replica_sets-Removals [] w = done
  delete_replica_sets-Removals (it ∷ its) w = at_head (ltb 200 (length (it ∷ its)))
    where
      at_head :
          (b : Bool)
          → Removals
              (it ∷ its)
              w
              (if◌then◌else◌ {A = World × Option Batch} b
                (w, none)
                (
                  (delete_each client namespace_allowed allow (it ∷ its) w begun).0,
                  some (delete_each client namespace_allowed allow (it ∷ its) w begun).1,
                )).0
      at_head true = no-Removals (it ∷ its) w
      at_head false = delete_each-Removals (it ∷ its) w begun

  IsTold-answer :
      (its : List Item) (it : Item) (o : Outcome) (m : Message) (b : Batch)
      → is_deletion (record { item = it; outcome = o; message = m }) ≡ false
      → IsTold its b
      → IsTold (its ++ it ∷ []) (answer it o m b)
  unfolding count_where
  IsTold-answer its it o m b kept t = record {
    each = map-snoc (λ (r : Result). r.item) b.results _ ∙ ap (λ is. is ++ it ∷ []) t.each;
    counted = ground (
      arith,
      t.counted,
      kept,
      count_where-append is_deletion b.results
          (record { item = it; outcome = o; message = m } ∷ []),
    );
    logged = t.logged;
  }

  IsTold-record_deletion :
      (its : List Item) (it : Item) (role : Role) (e : Option String) (b : Batch)
      → IsTold its b
      → IsTold (its ++ it ∷ []) (record_deletion it role e b)
  unfolding count_where record_deletion
  IsTold-record_deletion its it role (some e) b t = IsTold-answer its it failed_to (told e) b refl t
  IsTold-record_deletion its it role none b t = record {
    each = map-snoc (λ (r : Result). r.item) b.results _ ∙ ap (λ is. is ++ it ∷ []) t.each;
    counted = ground (
      arith,
      t.counted,
      count_where-append is_deletion b.results
          (record { item = it; outcome = deleted; message = parting role } ∷ []),
    );
    logged =
        ground (arith, t.logged, length-append b.audit (record { item = it; role = role } ∷ []));
  }

  IsTold-carry_out :
      (its : List Item) (it : Item) (role : Role) (m : Option Message) (w : World) (b : Batch)
      → IsTold its b
      → IsTold (its ++ it ∷ []) (carry_out client it role m w b).1
  unfolding carry_out
  IsTold-carry_out its it role (some m) w b t = IsTold-answer its it skipped m b refl t
  IsTold-carry_out its it role none w b t =
      IsTold-record_deletion its it role (delete_set w it.namespace it.name).0 b t

  IsTold-consider :
      (its : List Item) (it : Item) (a : Answer ReplicaSet) (w : World) (b : Batch)
      → IsTold its b
      → IsTold (its ++ it ∷ []) (consider client allow it a w b).1
  unfolding consider
  IsTold-consider its it (failed e) w b t = IsTold-answer its it failed_to (told e) b refl t
  IsTold-consider its it (ok rs) w b t =
      IsTold-carry_out its it (classify client w it.namespace rs) _ w b t

  IsTold-delete_one :
      (its : List Item) (it : Item) (w : World) (b : Batch)
      → IsTold its b
      → IsTold (its ++ it ∷ []) (delete_one client namespace_allowed allow it w b).1
  unfolding delete_one
  IsTold-delete_one its it w b t = at_head (not (namespace_allowed it.namespace))
    where
      at_head :
          (c : Bool)
          → IsTold
              (its ++ it ∷ [])
              (if◌then◌else◌ {A = World × Batch} c
                (w, answer it failed_to outside b)
                (consider client allow it (get_set w it.namespace it.name) w b)).1
      at_head true = IsTold-answer its it failed_to outside b refl t
      at_head false = IsTold-consider its it (get_set w it.namespace it.name) w b t

  IsTold-delete_each :
      (its rest : List Item) (w : World) (b : Batch)
      → IsTold its b
      → IsTold (its ++ rest) (delete_each client namespace_allowed allow rest w b).1
  unfolding delete_each
  IsTold-delete_each its [] w b t = subst (λ is. IsTold is b) (sym (append-nil its)) t
  IsTold-delete_each its (it ∷ rest) w b t =
      subst (λ is. IsTold is (delete_each client namespace_allowed allow (it ∷ rest) w b).1)
        (append_assoc its (it ∷ []) rest)
        (IsTold-delete_each (its ++ it ∷ []) rest _ _ (IsTold-delete_one its it w b t))

  -- An accepted batch has one answer for each item, in the order of the items; the number it
  -- reports is that of the answers that say deleted, and of the entries in the audit log.
  pub delete_replica_sets-IsTold :
      (its : List Item) (w : World) (b : Batch)
      → (delete_replica_sets client namespace_allowed allow its w).1 ≡ some b
      → IsTold its b
  unfolding delete_replica_sets count_where
  delete_replica_sets-IsTold [] w b h = absurd (ground arith)
  delete_replica_sets-IsTold (it ∷ its) w b h = at_head (ltb 200 (length (it ∷ its))) h
    where
      record_of : World × Batch
      record_of = delete_each client namespace_allowed allow (it ∷ its) w begun

      begun_told : IsTold [] begun
      begun_told = record { each = refl; counted = refl; logged = refl }

      at_head :
          (c : Bool)
          → (if◌then◌else◌ {A = World × Option Batch} c (w, none) (record_of.0, some record_of.1)).1
            ≡ some b
          → IsTold (it ∷ its) b
      at_head true e = absurd (ground arith)
      at_head false e =
          subst (IsTold (it ∷ its)) (some-injective record_of.1 b e)
            (IsTold-delete_each [] (it ∷ its) w begun begun_told)
