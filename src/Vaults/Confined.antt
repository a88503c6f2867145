-- ===== src/Vaults/Confined.antt =====
-- What a role may change, one write at a time: the checks on roles in backend/handlers/vault.go.
use commitkube.Vaults.Entitled.{entitled, still_entitled-entitled}
use commitkube.Vaults.Listing.{show_members}
use commitkube.Vaults.Listed.{holds, sweep_where-store, delete_where-same}
use commitkube.Base.{
  ℕ, ◌≡◌, refl, String, Bool, true, false, Option, none, some, ◌==◌, ◌=s◌, if◌then◌else◌,
  find_first, any_where, count_where, arith, Bool-cases, inl, inr, ◌⊎◌, List, sym, subst, ap,
  delete_where, not, All-any, DistinctKeys, ◌&&◌,
}
use commitkube.Vaults.Store.{
  Vault, Member, Access, Item, Store, Env, Problem, Answer, refused, is_writer, log, read_only,
}
use commitkube.Vaults.Door.{Handler, is_member, is_in_group, owner_only, writer_only}
use commitkube.Vaults.Share.{Invite, deliver_granted, deliver, insert_member}
use commitkube.Vaults.Items.{
  Sealed, settle_item, write_row, write_item, are_blobs, is_at, delete_row, reveal_row,
}

-- The rows of the members stay, or those of the vault go that no longer entitle anybody.
abbrev pub Tidied : Vault → Store → List Member → Type 0
Tidied v s ms =
    (ms ≡ s.members)
    ⊎ (ms ≡ delete_where (λ (m : Member). m.vault_id == v.id && not (entitled s m)) s.members)

-- Only the owner changes vaults and whom they are given to; only he and a writer change items and
-- hand out keys.
pub record Confined (v : Vault) (role : String) (s u : Store) : Type 0 where
  pub by_owner : (role =s "owner") ≡ false → (u.vaults ≡ s.vaults) × (u.grants ≡ s.grants)
  pub by_writer :
      (role =s "owner") ≡ false
      → (role =s "writer") ≡ false
      → (u.items ≡ s.items) × Tidied v s u.members

-- Vaults and grants stay.
abbrev Keeps : Store → Store → Type 0
Keeps s u = (u.vaults ≡ s.vaults) × (u.grants ≡ s.grants)

pub same-Confined : (v : Vault) (role : String) (s : Store) → Confined v role s s
same-Confined v role s = record {
  by_owner = λ _. (refl, refl);
  by_writer = λ _ _. (refl, inl refl);
}

pub owner_only-Confined :
    (k : Handler) (v : Vault) (m : Member) (s : Store) → Confined v m.role s (owner_only k v m s).1
unfolding owner_only
owner_only-Confined k v m s = elim (Bool-cases (m.role =s "owner")) [
  | inl e ↦ record {
    by_owner = λ off. absurd (ground (arith, e, off));
    by_writer = λ off _. absurd (ground (arith, e, off));
  }
  | inr e ↦ rw e (same-Confined v m.role s)
]

pub writer_only-Confined :
    (k : Handler) (v : Vault) (m : Member) (s : Store)
    → Keeps s (k v m s).1
    → Confined v m.role s (writer_only k v m s).1
unfolding writer_only
writer_only-Confined k v m s keeps = at_test (is_writer m.role) refl
  where
    at_test :
        (b : Bool)
        → is_writer m.role ≡ b
        → Confined v m.role s
            ((if◌then◌else◌ {A = Answer × Store} b (k v m s) (refused read_only, s)).1)
    at_test true e = record {
      by_owner = λ _. keeps;
      by_writer = λ off out. absurd (ground (arith, e, off, out));
    }
    at_test false e = same-Confined v m.role s

pub settle_item-Keeps :
    (e : Env) (uid : ℕ) (q : Sealed) (v : Vault) (o : Option Problem) (s : Store)
    → Keeps s (settle_item e uid q v o s).1
unfolding settle_item log
settle_item-Keeps e uid q v none s = (refl, refl)
settle_item-Keeps e uid q v (some p) s = (refl, refl)

write_item-Keeps :
    (e : Env) (uid : ℕ) (q : Sealed) (it : Item) (s : Store) → Keeps s (write_item e uid q it s).1
unfolding write_item log
write_item-Keeps e uid q it s =
    elim (Bool-cases (count_where (is_at it.id q.base_version) s.items == 0)) [
      | inl h ↦ rw h (refl, refl)
      | inr h ↦ rw h (refl, refl)
    ]

pub write_row-Keeps :
    (e : Env) (uid : ℕ) (q : Sealed) (o : Option Item) (s : Store)
    → Keeps s (write_row e uid q o s).1
unfolding write_row
write_row-Keeps e uid q none s = (refl, refl)
write_row-Keeps e uid q (some it) s = elim (Bool-cases (are_blobs e q)) [
  | inl h ↦ rw h (write_item-Keeps e uid q it s)
  | inr h ↦ rw h (refl, refl)
]

pub delete_row-Keeps : (uid : ℕ) (o : Option Item) (s : Store) → Keeps s (delete_row uid o s).1
unfolding delete_row log
delete_row-Keeps uid none s = (refl, refl)
delete_row-Keeps uid (some it) s = (refl, refl)

pub reveal_row-Confined :
    (e : Env) (uid : ℕ) (v : Vault) (role : String) (o : Option Item) (s : Store)
    → Confined v role s (reveal_row e uid o s).1
unfolding reveal_row log
reveal_row-Confined e uid v role none s = same-Confined v role s
reveal_row-Confined e uid v role (some it) s = record {
  by_owner = λ _. (refl, refl);
  by_writer = λ _ _. (refl, inl refl);
}

-- The listing of the members deletes stale rows, whoever asks.
pub show_members-Confined :
    (v : Vault) (m : Member) (s : Store)
    → DistinctKeys (λ (x : Member). x.id) s.members
    → Confined v m.role s (show_members v m s).1
unfolding show_members
show_members-Confined v m s d =
    let here : Member → Bool = λ (x : Member). x.vault_id == v.id in
    subst (Confined v m.role s) (sym (sweep_where-store here s d)) (record {
      by_owner = λ _. (refl, refl);
      by_writer = λ _ _. (
        refl,
        inr (
            delete_where-same (λ (x : Member). here x && not (holds s x))
              (λ (x : Member). here x && not (entitled s x)) s.members
              (All-any (λ x. ap (λ b. here x && not b) (still_entitled-entitled x s)) s.members)),
      );
    })

deliver-Keeps :
    (e : Env) (uid : ℕ) (v : Vault) (q : Invite) (role : String) (o : Option Member) (s : Store)
    → Keeps s (deliver e uid v q role o s).1
unfolding deliver insert_member log
deliver-Keeps e uid v q role none s = (refl, refl)
deliver-Keeps e uid v q role (some m) s = (refl, refl)

pub deliver_granted-Keeps :
    (e : Env) (uid : ℕ) (v : Vault) (q : Invite) (gid : ℕ) (o : Option Access) (s : Store)
    → Keeps s (deliver_granted e uid v q gid o s).1
unfolding deliver_granted
deliver_granted-Keeps e uid v q gid none s = (refl, refl)
deliver_granted-Keeps e uid v q gid (some a) s =
    elim (Bool-cases (any_where (is_in_group gid q.user_id) s.group_members)) [
      | inl h ↦
          rw h (deliver-Keeps e uid v q a.role (find_first (is_member v.id q.user_id) s.members) s)
      | inr h ↦ rw h (refl, refl)
    ]
