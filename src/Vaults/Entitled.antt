-- ===== src/Vaults/Entitled.antt =====
-- Who is entitled by a row of a vault, said of the rows of the groups themselves, and not as
-- groupMembershipHolds of backend/handlers/vault.go counts them.
use commitkube.Base.{
  ℕ, ◌≡◌, refl, ap₂, Bool, true, Option, none, some, List, [], ◌∷◌, ◌&&◌, ◌==◌, ltb, any_where,
  count_where, arith,
}
use commitkube.Vaults.Store.{Member, Access, GroupMember, Store}
use commitkube.Vaults.Door.{still_entitled}

-- By name, or through a group that was given the vault and that he is in.
abbrev pub entitled : Store → Member → Bool
entitled s m = elim m.via_group [
  | none ↦ true
  | some g ↦
      any_where (λ (a : Access). a.vault_id == m.vault_id && a.group_id == g) s.grants
      && any_where (λ (x : GroupMember). x.group_id == g && x.user_id == m.user_id) s.group_members
]

any-counted {ℓ} :
    {A : Type ℓ} (p : A → Bool) (xs : List A) → ltb 0 (count_where p xs) ≡ any_where p xs
unfolding count_where any_where
any-counted p [] = refl
any-counted p (x ∷ xs) = ground (arith, any-counted p xs)

-- The door counts to the same.
pub still_entitled-entitled :
    (m : Member) (s : Store) → still_entitled m.via_group m.vault_id m.user_id s ≡ entitled s m
unfolding still_entitled
still_entitled-entitled m s = at_group m.via_group
  where
    at_group :
        (o : Option ℕ)
        → still_entitled o m.vault_id m.user_id s ≡ entitled s (record m { via_group = o })
    at_group none = refl
    at_group (some g) =
        ap₂ (λ a b. a && b)
          (any-counted (λ (a : Access). a.vault_id == m.vault_id && a.group_id == g) s.grants)
          (any-counted (λ (x : GroupMember). x.group_id == g && x.user_id == m.user_id)
            s.group_members)
