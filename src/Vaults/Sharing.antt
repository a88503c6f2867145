-- ===== src/Vaults/Sharing.antt =====
-- No change of sharing touches the row of an owner: the handlers of members and groups in
-- backend/handlers/vault.go.
use commitkube.Base.{
  ℕ, ◌+◌, ◌<◌, ◌≡◌, refl, ap, String, Bool, false, Option, none, some, ◌==◌, ◌=s◌, find_first,
  any_where, DistinctKeys, arith, Bool-cases, inl, inr,
}
use commitkube.Vaults.Store.{Vault, Member, Access, Store, Env, Problem, log, is_writer}
use commitkube.Vaults.Door.{is_member, is_grant, is_in_group, is_via}
use commitkube.Vaults.Share.{
  Invite, invite, settle_invite, invite_by, hand_key, deliver_granted, deliver, name_person,
  insert_member, invited, renamed, is_given_role, owns, assign_member, invite_problem,
  target_problem, settle_role, role_of, change_role, settle_removal, remove_row, remove,
}
use commitkube.Vaults.Owners.{
  IsOwner, Below, Safe, same-Safe, delete-Safe, update-Safe, append-Safe, other_key,
}

-- A step that spares the owners and leaves the vaults.
pub record Spares (s u : Store) : Type 0 where
  pub vaults : u.vaults ≡ s.vaults
  pub safe : Safe s.members s.next_id u.members u.next_id

pub is_via-owner : (gid : ℕ) (m : Member) → IsOwner m → is_via gid m ≡ false
is_via-owner gid m o = ap (λ (g : Option ℕ). elim g [ none ↦ false | some h ↦ h == gid ]) o.1

no_problem : (t : Member) → target_problem t ≡ none → IsOwner t → ⊥
unfolding target_problem
no_problem t e o = absurd (ground (arith, rw o.0 at e))

module _ (s : Store) (d : DistinctKeys (λ (m : Member). m.id) s.members)
    (b : Below s.next_id s.members) where
  pub same-Spares : Spares s s
  same-Spares = record { vaults = refl; safe = same-Safe s.members s.next_id d b }

  insert_member-Spares :
      (m : Member) → m.id ≡ s.next_id → m.vault_id < s.next_id → Spares s (insert_member m s)
  unfolding insert_member
  insert_member-Spares m i v = record {
    vaults = refl;
    safe =
        append-Safe s.members s.next_id d b m (s.next_id + 1) (omega (arith, i)) (omega (arith, i))
          (omega (arith, v));
  }

  deliver-Spares :
      (e : Env) (uid : ℕ) (v : Vault) (q : Invite) (role : String) (o : Option Member)
      → v.id < s.next_id
      → Spares s (deliver e uid v q role o s).1
  unfolding deliver log invited
  deliver-Spares e uid v q role (some m) lt = same-Spares
  deliver-Spares e uid v q role none lt =
      let r : Spares s (insert_member (invited e s.next_id v.id uid q role) s) =
        insert_member-Spares (invited e s.next_id v.id uid q role) refl lt in
      record { vaults = r.vaults; safe = r.safe }

  deliver_granted-Spares :
      (e : Env) (uid : ℕ) (v : Vault) (q : Invite) (gid : ℕ) (o : Option Access)
      → v.id < s.next_id
      → Spares s (deliver_granted e uid v q gid o s).1
  unfolding deliver_granted
  deliver_granted-Spares e uid v q gid none lt = same-Spares
  deliver_granted-Spares e uid v q gid (some a) lt =
      elim (Bool-cases (any_where (is_in_group gid q.user_id) s.group_members)) [
        | inl h ↦
            rw h
              (deliver-Spares e uid v q a.role (find_first (is_member v.id q.user_id) s.members) lt)
        | inr h ↦ rw h same-Spares
      ]

  assign_member-Spares :
      (e : Env) (uid : ℕ) (v : Vault) (q : Invite) (o : Option Member)
      → v.id < s.next_id
      → find_first (is_member v.id q.user_id) s.members ≡ o
      → owns o ≡ false
      → Spares s (assign_member e uid v q o s)
  unfolding assign_member renamed invited
  assign_member-Spares e uid v q none lt f off =
      insert_member-Spares (invited e s.next_id v.id uid (record q { via_group = none }) q.role)
        refl lt
  assign_member-Spares e uid v q (some m) lt f off = record {
    vaults = refl;
    safe =
        update-Safe s.members s.next_id d b (λ (x : Member). x.id == m.id) (renamed e uid q)
          (λ x. refl) (λ x. refl) (λ vid u x. refl)
          (other_key s.members s.next_id d b (is_member v.id q.user_id) m f
            (λ o. ground (arith, o.0, off)));
  }

  name_person-Spares :
      (e : Env) (uid : ℕ) (q : Invite) (v : Vault) (m : Member)
      → v.id < s.next_id
      → Spares s (name_person e uid q v m s).1
  unfolding name_person log
  name_person-Spares e uid q v m lt = elim (Bool-cases (m.role =s "owner")) [
    | inr h ↦ rw h same-Spares
    | inl h ↦ rw h (elim (Bool-cases (is_given_role q.role)) [
      | inr g ↦ rw g same-Spares
      | inl g ↦ rw g (elim (Bool-cases (owns (find_first (is_member v.id q.user_id) s.members))) [
        | inl o ↦ rw o same-Spares
        | inr o ↦ rw o (
            logged (
              assign_member-Spares e uid v q (find_first (is_member v.id q.user_id) s.members) lt
                refl o))
      ])
    ])
  ]
    where
      logged :
          Spares s (assign_member e uid v q (find_first (is_member v.id q.user_id) s.members) s)
          → Spares s (
              log uid "vault_share" v.name
                (assign_member e uid v q (find_first (is_member v.id q.user_id) s.members) s))
      logged r = record { vaults = r.vaults; safe = r.safe }

  hand_key-Spares :
      (e : Env) (uid : ℕ) (q : Invite) (gid : ℕ) (v : Vault) (m : Member)
      → v.id < s.next_id
      → Spares s (hand_key e uid q gid v m s).1
  unfolding hand_key
  hand_key-Spares e uid q gid v m lt = elim (Bool-cases (is_writer m.role)) [
    | inl h ↦
        rw h (deliver_granted-Spares e uid v q gid (find_first (is_grant v.id gid) s.grants) lt)
    | inr h ↦ rw h same-Spares
  ]

  settle_invite-Spares :
      (e : Env) (uid : ℕ) (q : Invite) (o : Option Problem) (v : Vault) (m : Member)
      → v.id < s.next_id
      → Spares s (settle_invite e uid q o v m s).1
  unfolding settle_invite invite_by
  settle_invite-Spares e uid q (some p) v m lt = same-Spares
  settle_invite-Spares e uid q none v m lt = by_group q.via_group
    where
      by_group : (g : Option ℕ) → Spares s (invite_by e uid q g v m s).1
      by_group none = name_person-Spares e uid q v m lt
      by_group (some gid) = hand_key-Spares e uid q gid v m lt

  pub invite-Spares :
      (e : Env) (uid : ℕ) (q : Invite) (v : Vault) (m : Member)
      → v.id < s.next_id
      → Spares s (invite e uid q v m s).1
  unfolding invite
  invite-Spares e uid q v m lt = elim (Bool-cases (v.kind =s "team")) [
    | inl h ↦ rw h (settle_invite-Spares e uid q (invite_problem e q s) v m lt)
    | inr h ↦ rw h same-Spares
  ]

  settle_role-Spares :
      (uid : ℕ) (role : String) (v : Vault) (p : Member → Bool) (t : Member) (o : Option Problem)
      → find_first p s.members ≡ some t
      → target_problem t ≡ o
      → Spares s (settle_role uid role v t o s).1
  unfolding settle_role log
  settle_role-Spares uid role v p t (some x) f e = same-Spares
  settle_role-Spares uid role v p t none f e = record {
    vaults = refl;
    safe =
        update-Safe s.members s.next_id d b (λ (x : Member). x.id == t.id)
          (λ x. record x { role = role }) (λ x. refl) (λ x. refl) (λ vid u x. refl)
          (other_key s.members s.next_id d b p t f (no_problem t e));
  }

  role_of-Spares :
      (uid : ℕ) (role : String) (v : Vault) (p : Member → Bool) (o : Option Member)
      → find_first p s.members ≡ o
      → Spares s (role_of uid role v o s).1
  unfolding role_of
  role_of-Spares uid role v p none f = same-Spares
  role_of-Spares uid role v p (some t) f =
      settle_role-Spares uid role v p t (target_problem t) f refl

  pub change_role-Spares :
      (uid target : ℕ) (role : String) (v : Vault) (m : Member)
      → Spares s (change_role uid target role v m s).1
  unfolding change_role
  change_role-Spares uid target role v m = elim (Bool-cases (is_given_role role)) [
    | inl h ↦ rw h (
        role_of-Spares uid role v (is_member v.id target)
          (find_first (is_member v.id target) s.members) refl)
    | inr h ↦ rw h same-Spares
  ]

  settle_removal-Spares :
      (uid : ℕ) (v : Vault) (p : Member → Bool) (t : Member) (o : Option Problem)
      → find_first p s.members ≡ some t
      → target_problem t ≡ o
      → Spares s (settle_removal uid v t o s).1
  unfolding settle_removal log
  settle_removal-Spares uid v p t (some x) f e = same-Spares
  settle_removal-Spares uid v p t none f e = record {
    vaults = refl;
    safe =
        delete-Safe s.members s.next_id d b (λ (x : Member). x.id == t.id)
          (other_key s.members s.next_id d b p t f (no_problem t e));
  }

  remove_row-Spares :
      (uid : ℕ) (v : Vault) (p : Member → Bool) (o : Option Member)
      → find_first p s.members ≡ o
      → Spares s (remove_row uid v o s).1
  unfolding remove_row
  remove_row-Spares uid v p none f = same-Spares
  remove_row-Spares uid v p (some t) f = settle_removal-Spares uid v p t (target_problem t) f refl

  pub remove-Spares :
      (uid target : ℕ) (v : Vault) (m : Member) → Spares s (remove uid target v m s).1
  unfolding remove
  remove-Spares uid target v m =
      remove_row-Spares uid v (is_member v.id target) (find_first (is_member v.id target) s.members)
        refl
