-- ===== src/Vaults/Making.antt =====
-- How vaults are made: CreateVault and CreatePersonalVault of backend/handlers/vault.go put in a vault
-- with its one owner.
use commitkube.Base.{
  ℕ, ◌+◌, ◌<◌, ◌≡◌, refl, ◌∙◌, false, not, Option, none, some, List, [], ◌∷◌, ◌++◌, ◌=s◌, ◌&&◌, ltb,
  find_first, find_first-back, count_where, All-append, All-weaken, arith, Bool-cases, inl, inr,
}
use commitkube.Vaults.Store.{Vault, Member, Store, Env, Problem, log}
use commitkube.Vaults.Door.{is_member}
use commitkube.Vaults.Manage.{
  NewVault, vault_row, owner_row, insert_vault, settle_new, new_vault_problem, create_row,
  create_of_kind, create_vault, personal_body, create_personal_vault, kind_of, is_personal_of, trim,
}
use commitkube.Vaults.Owners.{Owned, Below, Safe, append-Safe}
use commitkube.Vaults.Owned.{IsOwned}

-- No member is in a vault that is not there yet.
none-below : (n uid : ℕ) (ms : List Member) → Below n ms → find_first (is_member n uid) ms ≡ none
unfolding find_first
none-below n uid [] b = refl
none-below n uid (m ∷ ms) b = ground (arith, b.0.1, none-below n uid ms b.1)

own-found :
    (e : Env) (n uid : ℕ) (q : NewVault)
    → find_first (is_member n uid) (owner_row e (n + 1) n uid q ∷ [])
      ≡ some (owner_row e (n + 1) n uid q)
unfolding find_first owner_row
own-found e n uid q = ground arith

insert_vault-IsOwned :
    (e : Env) (uid : ℕ) (q : NewVault) (s : Store) → IsOwned s → IsOwned (insert_vault e uid q s)
unfolding insert_vault vault_row owner_row
insert_vault-IsOwned e uid q s o =
    let n = s.next_id in
    let r : Safe s.members n (s.members ++ owner_row e (n + 1) n uid q ∷ []) (n + 2) =
      append-Safe s.members n o.distinct o.below (owner_row e (n + 1) n uid q) (n + 2) (omega arith)
        (omega arith) (omega arith) in
    record {
      distinct = r.distinct;
      below = r.below;
      fresh =
          All-append (λ (v : Vault). v.id < n + 2) s.vaults (vault_row n uid q ∷ [])
            (All-weaken (λ (v : Vault). v.id < n) (λ (v : Vault). v.id < n + 2) s.vaults
              (λ v h. omega (arith, h)) o.fresh)
            (omega arith, tt);
      owned =
          All-append
            (λ (v : Vault).
              v.deleted ≡ false
              → Owned v.id v.owner_id (s.members ++ owner_row e (n + 1) n uid q ∷ []))
            s.vaults (vault_row n uid q ∷ [])
            (All-weaken (λ (v : Vault). v.deleted ≡ false → Owned v.id v.owner_id s.members)
              (λ (v : Vault).
                v.deleted ≡ false
                → Owned v.id v.owner_id (s.members ++ owner_row e (n + 1) n uid q ∷ []))
              s.vaults (λ v h live. r.owner v.id v.owner_id (h live)) o.owned)
            (
              (λ live. (
                owner_row e (n + 1) n uid q,
                (
                  find_first-back (is_member n uid) s.members (owner_row e (n + 1) n uid q ∷ [])
                        (none-below n uid s.members o.below)
                      ∙ own-found e n uid q,
                  (refl, refl),
                ),
              )),
              tt,
            );
    }

settle_new-IsOwned :
    (e : Env) (uid : ℕ) (q : NewVault) (p : Option Problem) (s : Store)
    → IsOwned s
    → IsOwned (settle_new e uid q p s).1
unfolding settle_new log
settle_new-IsOwned e uid q (some p) s o = o
settle_new-IsOwned e uid q none s o =
    let r = insert_vault-IsOwned e uid q s o in
    record { distinct = r.distinct; below = r.below; fresh = r.fresh; owned = r.owned }

create_row-IsOwned :
    (e : Env) (uid : ℕ) (q : NewVault) (s : Store) → IsOwned s → IsOwned (create_row e uid q s).1
unfolding create_row
create_row-IsOwned e uid q s o =
    settle_new-IsOwned e uid (record q { name = trim q.name })
      (new_vault_problem e uid (record q { name = trim q.name }) s) s o

pub create_vault-IsOwned :
    (e : Env) (uid : ℕ) (q : Option NewVault) (s : Store)
    → IsOwned s
    → IsOwned (create_vault e uid q s).1
unfolding create_vault create_of_kind
create_vault-IsOwned e uid none s o = o
create_vault-IsOwned e uid (some q) s o =
    elim (Bool-cases (not (kind_of q.kind =s "personal") && not (kind_of q.kind =s "team"))) [
      | inl h ↦ rw h o
      | inr h ↦ rw h (elim (Bool-cases (kind_of q.kind =s "team" && not e.may_share)) [
        | inl g ↦ rw g o
        | inr g ↦ rw g (create_row-IsOwned e uid (record q { kind = kind_of q.kind }) s o)
      ])
    ]

pub create_personal_vault-IsOwned :
    (e : Env) (uid : ℕ) (q : Option NewVault) (s : Store)
    → IsOwned s
    → IsOwned (create_personal_vault e uid q s).1
unfolding create_personal_vault personal_body
create_personal_vault-IsOwned e uid none s o =
    elim (Bool-cases (ltb 0 (count_where (is_personal_of uid) s.vaults))) [
      | inl h ↦ rw h o
      | inr h ↦ rw h o
    ]
create_personal_vault-IsOwned e uid (some q) s o =
    elim (Bool-cases (ltb 0 (count_where (is_personal_of uid) s.vaults))) [
      | inl h ↦ rw h o
      | inr h ↦ rw h (
          create_row-IsOwned e uid
            (record q { name = "Personal"; description = ""; kind = "personal" }) s o)
    ]
