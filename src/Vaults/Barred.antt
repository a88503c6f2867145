-- ===== src/Vaults/Barred.antt =====
-- Who is not let at a vault: the door of backend/handlers/vault.go, for every route.
use commitkube.Base.{
  ℕ, ◌≡◌, ◌⊎◌, String, false, not, some, ◌==◌, ◌=s◌, ◌&&◌, find_first, count_where, delete_where,
  All,
}
use commitkube.Vaults.Store.{Vault, Member, Store, Answer, refused, missing}
use commitkube.Vaults.Entitled.{entitled}
use commitkube.Vaults.Request.{Request}

-- No row entitles the person to a vault of this id that is not deleted.
abbrev pub IsOut : String → ℕ → Store → Type 0
IsOut ref uid s =
    All
      (λ (v : Vault).
        v.uuid ≡ ref
        → v.deleted ≡ false
        → All (λ (m : Member). m.vault_id ≡ v.id → m.user_id ≡ uid → entitled s m ≡ false)
            s.members)
      s.vaults

-- The members stay, or one row of his that entitles him to nothing goes.
abbrev pub IsSwept : ℕ → Store → Store → Type 0
IsSwept uid s u =
    (u.members ≡ s.members)
    ⊎ ((m : Member) × ((m.user_id ≡ uid)
          × ((entitled s m ≡ false)
              × (u.members ≡ delete_where (λ (x : Member). x.id == m.id) s.members))))

-- What is left when someone is turned away: the members are swept, whatever else is stored is what
-- it was, and he has no row in the vault that the id stands for.
pub record TurnedAway (ref : String) (uid : ℕ) (s : Store) (r : Answer × Store) : Type 0 where
  pub answer : r.0 ≡ refused missing
  pub rest : r.1 ≡ record s { members = r.1.members }
  pub swept : IsSwept uid s r.1
  pub no_row :
      (v : Vault)
      → find_first (λ (w : Vault). w.uuid =s ref && not w.deleted) s.vaults ≡ some v
      → count_where (λ (m : Member). m.vault_id == v.id && m.user_id == uid) r.1.members ≡ 0
