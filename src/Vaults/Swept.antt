-- ===== src/Vaults/Swept.antt =====
-- What the listings of backend/handlers/vault.go delete on the way is no owner's row.
use commitkube.Base.{
  ℕ, ◌≡◌, refl, sym, ap, ◌∙◌, subst, Bool, true, false, Option, List, [], ◌∷◌, ◌==◌, select_where,
  delete_where, All, All-weaken, All-select_where, All-delete_where, All-find_first, DistinctKeys,
  arith, Bool-cases, inl, inr,
}
use commitkube.Vaults.Store.{Member, Store}
use commitkube.Vaults.Door.{group_membership_holds, still_entitled, drop_member, is_member}
use commitkube.Vaults.Owners.{IsOwner, delete-Safe}
use commitkube.Vaults.Owned.{IsOwned, Spares-IsOwned}
use commitkube.Vaults.Listing.{sweep}
use commitkube.Vaults.Pending.{pending_rows}

-- The row is the only one of its key.
abbrev pub IsOnly : List Member → Member → Type 0
IsOnly ms m = All (λ (x : Member). (x.id == m.id) ≡ true → x ≡ m) ms

IsOnly-head :
    (m : Member) (ms : List Member)
    → All (λ (y : Member). (y.id == m.id) ≡ false) ms
    → All (λ (y : Member). (m.id == y.id) ≡ true → m ≡ y) ms
IsOnly-head m ms a =
    All-weaken (λ (y : Member). (y.id == m.id) ≡ false)
      (λ (y : Member). (m.id == y.id) ≡ true → m ≡ y) ms (λ y off on. absurd (ground arith)) a

IsOnly-here :
    (m : Member) (ms : List Member)
    → All (λ (y : Member). (y.id == m.id) ≡ false) ms
    → IsOnly (m ∷ ms) m
IsOnly-here m ms a = (
  λ _. refl,
  All-weaken (λ (y : Member). (y.id == m.id) ≡ false)
      (λ (y : Member). (y.id == m.id) ≡ true → y ≡ m) ms (λ y off on. absurd (ground arith)) a,
)

both :
    (m : Member) (ms xs : List Member)
    → All (λ (y : Member). (m.id == y.id) ≡ true → m ≡ y) xs
    → All (IsOnly ms) xs
    → All (IsOnly (m ∷ ms)) xs
both m ms [] a b = tt
both m ms (x ∷ xs) a b = ((a.0, b.0), both m ms xs a.1 b.1)

-- In a table whose keys are distinct each row is the only one of its key.
pub all-IsOnly : (ms : List Member) → DistinctKeys (λ (m : Member). m.id) ms → All (IsOnly ms) ms
all-IsOnly [] d = tt
all-IsOnly (m ∷ ms) d =
    (IsOnly-here m ms d.0, both m ms ms (IsOnly-head m ms d.0) (all-IsOnly ms d.1))

no_owner :
    (m : Member) (s : Store)
    → still_entitled m.via_group m.vault_id m.user_id s ≡ false
    → IsOwner m
    → ⊥
unfolding still_entitled
no_owner m s off o =
    absurd (
      ground
        (arith, ap (λ (g : Option ℕ). still_entitled g m.vault_id m.user_id s) (sym o.1) ∙ off))

-- A row that a group no longer entitles to is no owner's.
pub drop_stale-IsOwned :
    (m : Member) (s : Store)
    → IsOnly s.members m
    → still_entitled m.via_group m.vault_id m.user_id s ≡ false
    → IsOwned s
    → IsOwned (drop_member m.id s)
drop_stale-IsOwned m s only off o =
    Spares-IsOwned s (drop_member m.id s)
      (record {
        vaults = refl;
        safe =
            delete-Safe s.members s.next_id o.distinct o.below (λ (x : Member). x.id == m.id)
              (λ vid uid w. elim (Bool-cases (w.0.id == m.id)) [
                | inl e ↦
                    let same : w.0 ≡ m =
                      All-find_first (λ (x : Member). (x.id == m.id) ≡ true → x ≡ m)
                        (is_member vid uid) s.members only w.1.0 e in
                    absurd (no_owner m s off (subst IsOwner same w.1.1))
                | inr e ↦ e
              ]);
      })
      o

-- A deletion leaves the rows that are the only ones of their keys so.
rest-IsOnly :
    (q : Member → Bool) (ms xs : List Member)
    → All (IsOnly ms) xs
    → All (IsOnly (delete_where q ms)) xs
rest-IsOnly q ms xs a =
    All-weaken (IsOnly ms) (IsOnly (delete_where q ms)) xs
      (λ x h. All-delete_where (λ (y : Member). (y.id == x.id) ≡ true → y ≡ x) q ms h) a

pub sweep-IsOwned :
    (ms : List Member) (s : Store) → All (IsOnly s.members) ms → IsOwned s → IsOwned (sweep ms s).1
unfolding sweep group_membership_holds
sweep-IsOwned [] s a o = o
sweep-IsOwned (m ∷ ms) s a o =
    elim (Bool-cases (still_entitled m.via_group m.vault_id m.user_id s)) [
      | inl on ↦ rw on (sweep-IsOwned ms s a.1 o)
      | inr off ↦ rw off (
          sweep-IsOwned ms (drop_member m.id s)
            (rest-IsOnly (λ (x : Member). x.id == m.id) s.members ms a.1)
            (drop_stale-IsOwned m s a.0 off o))
    ]

-- A sweep of rows of the table.
pub sweep_where-IsOwned :
    (p : Member → Bool) (s : Store) → IsOwned s → IsOwned (sweep (select_where p s.members) s).1
sweep_where-IsOwned p s o =
    sweep-IsOwned (select_where p s.members) s
      (All-select_where (IsOnly s.members) p s.members (all-IsOnly s.members o.distinct)) o

-- The queue is read on the way of a sweep.
pub pending_rows-sweep : (ms : List Member) (s : Store) → (pending_rows ms s).1 ≡ (sweep ms s).1
unfolding sweep pending_rows
pending_rows-sweep [] s = refl
pending_rows-sweep (m ∷ ms) s = pending_rows-sweep ms (group_membership_holds m s).1
