-- ===== src/Vaults/Owned.antt =====
-- What it is for each vault to have its owner: backend/handlers/vault.go.
use commitkube.Base.{◌<◌, ◌≡◌, sym, subst, false, All, All-weaken, DistinctKeys, arith}
use commitkube.Vaults.Store.{Vault, Member, Store}
use commitkube.Vaults.Owners.{Owned, Below}
use commitkube.Vaults.Sharing.{Spares}

-- Each vault that is not deleted has the row of its owner, with his role and by name; keys are
-- distinct and below the next one.
pub record IsOwned (s : Store) : Type 0 where
  pub distinct : DistinctKeys (λ (m : Member). m.id) s.members
  pub below : Below s.next_id s.members
  pub fresh : All (λ (v : Vault). v.id < s.next_id) s.vaults
  pub owned : All (λ (v : Vault). v.deleted ≡ false → Owned v.id v.owner_id s.members) s.vaults

pub Spares-IsOwned : (s u : Store) → Spares s u → IsOwned s → IsOwned u
Spares-IsOwned s u r o = record {
  distinct = r.safe.distinct;
  below = r.safe.below;
  fresh = subst (All (λ (v : Vault). v.id < u.next_id)) (sym r.vaults) (
      All-weaken (λ (v : Vault). v.id < s.next_id) (λ (v : Vault). v.id < u.next_id) s.vaults
        (λ v h. omega (arith, h, r.safe.later)) o.fresh);
  owned =
      subst (All (λ (v : Vault). v.deleted ≡ false → Owned v.id v.owner_id u.members))
        (sym r.vaults)
        (All-weaken (λ (v : Vault). v.deleted ≡ false → Owned v.id v.owner_id s.members)
          (λ (v : Vault). v.deleted ≡ false → Owned v.id v.owner_id u.members) s.vaults
          (λ v h live. r.safe.owner v.id v.owner_id (h live)) o.owned);
}
