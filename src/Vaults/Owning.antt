-- ===== src/Vaults/Owning.antt =====
-- Runs of the routes of backend/handlers/vault.go, with changes of the groups in between.
use commitkube.Vaults.Listing.{list_vaults}
use commitkube.Vaults.Pending.{list_pending_vault_keys}
use commitkube.Vaults.Swept.{drop_stale-IsOwned, sweep_where-IsOwned, pending_rows-sweep}
use commitkube.Vaults.Making.{create_vault-IsOwned, create_personal_vault-IsOwned}
use commitkube.Base.{
  ℕ, ◌<◌, refl, sym, String, Bool, Option, none, some, List, [], ◌∷◌, ◌==◌, ◌&&◌, find_first,
  All-find_first, arith, Option-cases, Bool-cases, inl, inr, only_keyed, select_where, subst,
}
use commitkube.Vaults.Store.{Vault, Member, GroupMember, Store, Env, is_writer}
use commitkube.Vaults.Door.{
  vault_for, settle_vault, settle_member, settle_holds, group_membership_holds, still_entitled,
  answer_door, enter, is_vault, is_member, is_via, revoke_group_vault_keys,
}
use commitkube.Vaults.Manage.{NewVault, create_vault, create_personal_vault}
use commitkube.Vaults.Request.{Request, handler, run}
use commitkube.Vaults.Owners.{delete-Safe}
use commitkube.Vaults.Sharing.{is_via-owner}
use commitkube.Vaults.Owned.{IsOwned, Spares-IsOwned}
use commitkube.Vaults.Kept.{handler-IsOwned}

inside-IsOwned :
    (e : Env) (uid : ℕ) (x : Request) (v : Vault) (s : Store)
    → v.id < s.next_id
    → IsOwned s
    → IsOwned
        (answer_door
          (handler e uid x)
          (settle_member v (find_first (is_member v.id uid) s.members) s)).1
unfolding settle_member settle_holds group_membership_holds answer_door
inside-IsOwned e uid x v s lt o = elim (Option-cases (find_first (is_member v.id uid) s.members)) [
  | inl f ↦ rw f o
  | inr (m, f) ↦ elim (Bool-cases (still_entitled m.via_group m.vault_id m.user_id s)) [
    | inl on ↦ rw f (rw on (handler-IsOwned e uid x v m s lt o))
    | inr off ↦ rw f (
        rw off (
          drop_stale-IsOwned m s
            (only_keyed (λ (x : Member). x.id) (is_member v.id uid) s.members m o.distinct f) off
            o))
  ]
]

run-IsOwned :
    (e : Env) (ref : String) (uid : ℕ) (x : Request) (s : Store)
    → IsOwned s
    → IsOwned (run e ref uid x s).1
unfolding enter vault_for settle_vault answer_door
run-IsOwned e ref uid x s o = elim (Bool-cases (e.is_uuid ref)) [
  | inr bad ↦ rw bad o
  | inl good ↦ elim (Option-cases (find_first (is_vault ref) s.vaults)) [
    | inl f ↦ rw good (rw f o)
    | inr (v, f) ↦ rw good (
        rw f (
          inside-IsOwned e uid x v s
            (All-find_first (λ (w : Vault). w.id < s.next_id) (is_vault ref) s.vaults o.fresh f) o))
  ]
]

list_vaults-IsOwned :
    (e : Env) (before : Vault → Vault → Bool) (uid : ℕ) (s : Store)
    → IsOwned s
    → IsOwned (list_vaults e before uid s).1
unfolding list_vaults
list_vaults-IsOwned e before uid s o = sweep_where-IsOwned (λ (m : Member). m.user_id == uid) s o

list_pending_vault_keys-IsOwned :
    (uid : ℕ) (s : Store) → IsOwned s → IsOwned (list_pending_vault_keys uid s).1
unfolding list_pending_vault_keys
list_pending_vault_keys-IsOwned uid s o =
    let asks : Member → Bool = λ (m : Member). m.user_id == uid && is_writer m.role in
    subst IsOwned (sym (pending_rows-sweep (select_where asks s.members) s))
      (sweep_where-IsOwned asks s o)

revoke-IsOwned :
    (gid : ℕ) (u : Option ℕ) (s : Store) → IsOwned s → IsOwned (revoke_group_vault_keys gid u s)
unfolding revoke_group_vault_keys
revoke-IsOwned gid none s o =
    Spares-IsOwned s (revoke_group_vault_keys gid none s)
      (record {
        vaults = refl;
        safe =
            delete-Safe s.members s.next_id o.distinct o.below (is_via gid)
              (λ w u h. is_via-owner gid h.0 h.1.1);
      })
      o
revoke-IsOwned gid (some uid) s o =
    Spares-IsOwned s (revoke_group_vault_keys gid (some uid) s)
      (record {
        vaults = refl;
        safe =
            delete-Safe s.members s.next_id o.distinct o.below
              (λ (m : Member). is_via gid m && m.user_id == uid)
              (λ w u h. ground (arith, is_via-owner gid h.0 h.1.1));
      })
      o

-- A route of a vault, the making of one, a listing, the revocation of a group's keys, or a change of the
-- groups by other handlers.
pub data Step : Type 0 where
  ask : Env → String → ℕ → Request → Step
  make : Env → ℕ → Option NewVault → Step
  make_personal : Env → ℕ → Option NewVault → Step
  list : Env → (Vault → Vault → Bool) → ℕ → Step
  list_pending : ℕ → Step
  revoke : ℕ → Option ℕ → Step
  regroup : List ℕ → List GroupMember → Step

abbrev pub take_step : Step → Store → Store
take_step (ask e ref uid x) s = (run e ref uid x s).1
take_step (make e uid q) s = (create_vault e uid q s).1
take_step (make_personal e uid q) s = (create_personal_vault e uid q s).1
take_step (list e before uid) s = (list_vaults e before uid s).1
take_step (list_pending uid) s = (list_pending_vault_keys uid s).1
take_step (revoke gid u) s = revoke_group_vault_keys gid u s
take_step (regroup gs ms) s = record s { groups = gs; group_members = ms }

abbrev pub take_steps : List Step → Store → Store
take_steps [] s = s
take_steps (x ∷ xs) s = take_steps xs (take_step x s)

step-IsOwned : (x : Step) (s : Store) → IsOwned s → IsOwned (take_step x s)
step-IsOwned (ask e ref uid x) s o = run-IsOwned e ref uid x s o
step-IsOwned (make e uid q) s o = create_vault-IsOwned e uid q s o
step-IsOwned (make_personal e uid q) s o = create_personal_vault-IsOwned e uid q s o
step-IsOwned (list e before uid) s o = list_vaults-IsOwned e before uid s o
step-IsOwned (list_pending uid) s o = list_pending_vault_keys-IsOwned uid s o
step-IsOwned (revoke gid u) s o = revoke-IsOwned gid u s o
step-IsOwned (regroup gs ms) s o = record {
  distinct = o.distinct;
  below = o.below;
  fresh = o.fresh;
  owned = o.owned;
}

-- Whatever routes of the vaults are asked by whom and in whatever order, with vaults made and
-- listed, keys of groups revoked and groups changed in between, each vault that is not deleted
-- keeps the row of its owner, with his role and by name.
pub take_steps-IsOwned : (xs : List Step) (s : Store) → IsOwned s → IsOwned (take_steps xs s)
take_steps-IsOwned [] s o = o
take_steps-IsOwned (x ∷ xs) s o = take_steps-IsOwned xs (take_step x s) (step-IsOwned x s o)
