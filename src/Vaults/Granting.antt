-- ===== src/Vaults/Granting.antt =====
-- Giving a vault to a group, taking it back, and writing its items spare the row of an owner:
-- backend/handlers/vault.go.
use commitkube.Base.{
  ℕ, ◌+◌, ◌≤◌, ◌<◌, ◌≡◌, refl, String, false, Option, none, some, ◌==◌, ◌=s◌, ◌&&◌, find_first,
  any_where, count_where, update_where, All-weaken, DistinctKeys, arith, Bool-cases, inl, inr,
}
use commitkube.Vaults.Store.{Vault, Member, Access, Item, Store, Env, Problem, log}
use commitkube.Vaults.Door.{is_grant, is_via}
use commitkube.Vaults.Share.{is_given_role}
use commitkube.Vaults.Groups.{
  assign_grant, spread_role, give_group, drop_grant, take_grant, take_group,
}
use commitkube.Vaults.Items.{
  Sealed, settle_item, write_row, write_item, are_blobs, is_at, delete_row, reveal_row,
}
use commitkube.Vaults.Owners.{Owned, Below, Safe, delete-Safe, update-Safe}
use commitkube.Vaults.Sharing.{Spares, same-Spares, is_via-owner}

module _ (s : Store) (d : DistinctKeys (λ (m : Member). m.id) s.members)
    (b : Below s.next_id s.members) where
  via-spared :
      (vid gid w u : ℕ) (o : Owned w u s.members) → (o.0.vault_id == vid && is_via gid o.0) ≡ false
  via-spared vid gid w u o = ground (arith, is_via-owner gid o.0 o.1.1)

  spread_role-Safe :
      (vid gid : ℕ) (role : String) (k : ℕ)
      → s.next_id ≤ k
      → Safe s.members s.next_id
          (update_where
            (λ (m : Member). m.vault_id == vid && is_via gid m)
            (λ m. record m { role = role })
            s.members)
          k
  spread_role-Safe vid gid role k le =
      let r : Safe s.members s.next_id
          (update_where (λ (m : Member). m.vault_id == vid && is_via gid m)
            (λ m. record m { role = role }) s.members)
          s.next_id =
        update-Safe s.members s.next_id d b (λ (m : Member). m.vault_id == vid && is_via gid m)
          (λ m. record m { role = role }) (λ x. refl) (λ x. refl) (λ w u x. refl)
          (via-spared vid gid) in
      record {
        later = le;
        distinct = r.distinct;
        below =
            All-weaken (λ (m : Member). (m.id < s.next_id) × (m.vault_id < s.next_id))
              (λ (m : Member). (m.id < k) × (m.vault_id < k))
              (update_where (λ (m : Member). m.vault_id == vid && is_via gid m)
                (λ m. record m { role = role }) s.members)
              (λ m h. (omega (arith, h.0, le), omega (arith, h.1, le))) r.below;
        owner = r.owner;
      }

  given-Spares :
      (uid vid gid : ℕ) (role : String) (o : Option Access)
      → Spares s (spread_role vid gid role (assign_grant uid vid gid role o s))
  unfolding spread_role assign_grant
  given-Spares uid vid gid role none = record {
    vaults = refl;
    safe = spread_role-Safe vid gid role (s.next_id + 1) (omega arith);
  }
  given-Spares uid vid gid role (some a) = record {
    vaults = refl;
    safe = spread_role-Safe vid gid role s.next_id (omega arith);
  }

  pub give_group-Spares :
      (uid gid : ℕ) (role : String) (v : Vault) (m : Member)
      → Spares s (give_group uid gid role v m s).1
  unfolding give_group log
  give_group-Spares uid gid role v m = elim (Bool-cases (v.kind =s "team")) [
    | inr h ↦ rw h same
    | inl h ↦ rw h (elim (Bool-cases (gid == 0)) [
      | inl g ↦ rw g same
      | inr g ↦ rw g (elim (Bool-cases (is_given_role role)) [
        | inr r ↦ rw r same
        | inl r ↦ rw r (elim (Bool-cases (any_where (λ g. g == gid) s.groups)) [
          | inr k ↦ rw k same
          | inl k ↦
              rw k
                (logged (given-Spares uid v.id gid role (find_first (is_grant v.id gid) s.grants)))
        ])
      ])
    ])
  ]
    where
      same : Spares s s
      same = same-Spares s d b

      logged :
          Spares s (
            spread_role v.id gid role
              (assign_grant uid v.id gid role (find_first (is_grant v.id gid) s.grants) s))
          → Spares s (
              log uid "vault_share" v.name (
                spread_role v.id gid role
                  (assign_grant uid v.id gid role (find_first (is_grant v.id gid) s.grants) s)))
      logged r = record { vaults = r.vaults; safe = r.safe }

  take_grant-Spares : (uid : ℕ) (v : Vault) (o : Option Access) → Spares s (take_grant uid v o s).1
  unfolding take_grant drop_grant log
  take_grant-Spares uid v none = same-Spares s d b
  take_grant-Spares uid v (some a) = record {
    vaults = refl;
    safe =
        delete-Safe s.members s.next_id d b
          (λ (m : Member). m.vault_id == v.id && is_via a.group_id m) (via-spared v.id a.group_id);
  }

  pub take_group-Spares :
      (uid gid : ℕ) (v : Vault) (m : Member) → Spares s (take_group uid gid v m s).1
  unfolding take_group
  take_group-Spares uid gid v m = take_grant-Spares uid v (find_first (is_grant v.id gid) s.grants)

  -- Members as they were, with keys further on.
  grown : (k : ℕ) → s.next_id ≤ k → Safe s.members s.next_id s.members k
  grown k le = record {
    later = le;
    distinct = d;
    below =
        All-weaken (λ (m : Member). (m.id < s.next_id) × (m.vault_id < s.next_id))
          (λ (m : Member). (m.id < k) × (m.vault_id < k)) s.members
          (λ m h. (omega (arith, h.0, le), omega (arith, h.1, le))) b;
    owner = λ w u o. o;
  }

  pub settle_item-Spares :
      (e : Env) (uid : ℕ) (q : Sealed) (v : Vault) (o : Option Problem)
      → Spares s (settle_item e uid q v o s).1
  unfolding settle_item log
  settle_item-Spares e uid q v (some p) = same-Spares s d b
  settle_item-Spares e uid q v none = record {
    vaults = refl;
    safe = grown (s.next_id + 1) (omega arith);
  }

  pub write_row-Spares :
      (e : Env) (uid : ℕ) (q : Sealed) (o : Option Item) → Spares s (write_row e uid q o s).1
  unfolding write_row write_item log
  write_row-Spares e uid q none = same-Spares s d b
  write_row-Spares e uid q (some it) = elim (Bool-cases (are_blobs e q)) [
    | inr h ↦ rw h (same-Spares s d b)
    | inl h ↦ rw h (elim (Bool-cases (count_where (is_at it.id q.base_version) s.items == 0)) [
      | inl c ↦ rw c (same-Spares s d b)
      | inr c ↦ rw c (record { vaults = refl; safe = grown s.next_id (omega arith) })
    ])
  ]

  pub delete_row-Spares : (uid : ℕ) (o : Option Item) → Spares s (delete_row uid o s).1
  unfolding delete_row log
  delete_row-Spares uid none = same-Spares s d b
  delete_row-Spares uid (some it) = record { vaults = refl; safe = grown s.next_id (omega arith) }

  pub reveal_row-Spares : (e : Env) (uid : ℕ) (o : Option Item) → Spares s (reveal_row e uid o s).1
  unfolding reveal_row log
  reveal_row-Spares e uid none = same-Spares s d b
  reveal_row-Spares e uid (some it) = record { vaults = refl; safe = grown s.next_id (omega arith) }
