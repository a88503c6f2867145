-- ===== src/Vaults/Listed.antt =====
-- What a listing of backend/handlers/vault.go shows and leaves: the rows that hold.
use commitkube.Base.{
  ℕ, ◌≡◌, refl, sym, ap, ap₂, ◌∙◌, Bool, true, false, not, List, [], ◌∷◌, ◌==◌, ◌&&◌, ◌||◌,
  any_where, select_where, delete_where, All, All-weaken, DistinctKeys, arith, Bool-cases, inl, inr,
  All-any, Option, none, some,
}
use commitkube.Vaults.Store.{Vault, Member, Store, Env}
use commitkube.Vaults.Door.{group_membership_holds, still_entitled, drop_member}
use commitkube.Vaults.Listing.{sweep, list_vaults, listing}
use commitkube.Vaults.Swept.{IsOnly, all-IsOnly}

-- The group that the row came through still has the vault and the person.
abbrev pub holds : Store → Member → Bool
holds s m = still_entitled m.via_group m.vault_id m.user_id s

-- A row of the list that does not hold has this key.
is_stale : (Member → Bool) → List Member → Member → Bool
is_stale q ms x = any_where (λ (m : Member). m.id == x.id && not (q m)) ms

still_entitled-drop :
    (o : Option ℕ) (vid uid i : ℕ) (s : Store)
    → still_entitled o vid uid (drop_member i s) ≡ still_entitled o vid uid s
unfolding still_entitled
still_entitled-drop none vid uid i s = refl
still_entitled-drop (some gid) vid uid i s = refl

-- A deletion of members entitles nobody and takes nothing from anybody.
holds-drop : (i : ℕ) (s : Store) (m : Member) → holds (drop_member i s) m ≡ holds s m
holds-drop i s m = still_entitled-drop m.via_group m.vault_id m.user_id i s

swept-rows :
    (q : Member → Bool) (ms : List Member) (s : Store)
    → ((m : Member) → holds s m ≡ q m)
    → (sweep ms s).0 ≡ select_where q ms
unfolding sweep group_membership_holds select_where
swept-rows q [] s same = refl
swept-rows q (m ∷ ms) s same = elim (Bool-cases (holds s m)) [
  | inl on ↦ rw on (rw (sym (same m) ∙ on) (ap (λ xs. m ∷ xs) (swept-rows q ms s same)))
  | inr off ↦ rw off (
      rw (sym (same m) ∙ off)
        (swept-rows q ms (drop_member m.id s) (λ x. holds-drop m.id s x ∙ same x)))
]

delete_where-twice {ℓ} :
    {A : Type ℓ} (p q : A → Bool) (xs : List A)
    → delete_where p (delete_where q xs) ≡ delete_where (λ x. q x || p x) xs
unfolding delete_where
delete_where-twice p q [] = refl
delete_where-twice p q (x ∷ xs) = ground (arith, delete_where-twice p q xs)

delete_where-none {ℓ} : {A : Type ℓ} (xs : List A) → delete_where (λ _. false) xs ≡ xs
unfolding delete_where
delete_where-none [] = refl
delete_where-none (x ∷ xs) = ap (λ ys. x ∷ ys) (delete_where-none xs)

pub delete_where-same {ℓ} :
    {A : Type ℓ} (p q : A → Bool) (xs : List A)
    → All (λ x. p x ≡ q x) xs
    → delete_where p xs ≡ delete_where q xs
unfolding delete_where
delete_where-same p q [] h = refl
delete_where-same p q (x ∷ xs) h = ground (arith, h.0, delete_where-same p q xs h.1)

put_members : List Member → Store → Store
put_members ms s = record s { members = ms }

swept-store :
    (q : Member → Bool) (ms : List Member) (s : Store)
    → ((m : Member) → holds s m ≡ q m)
    → (sweep ms s).1 ≡ record s { members = delete_where (is_stale q ms) s.members }
unfolding sweep group_membership_holds is_stale any_where put_members
swept-store q [] s same = ap (λ xs. put_members xs s) (sym (delete_where-none s.members))
swept-store q (m ∷ ms) s same = elim (Bool-cases (holds s m)) [
  | inl on ↦ rw on (
      swept-store q ms s same
      ∙ ap (λ xs. put_members xs s)
          (delete_where-same (is_stale q ms) (is_stale q (m ∷ ms)) s.members
            (All-any (λ x. ground (arith, same m)) s.members)))
  | inr off ↦ rw off (
      swept-store q ms (drop_member m.id s) (λ x. holds-drop m.id s x ∙ same x)
      ∙ ap (λ xs. put_members xs s)
          (delete_where-twice (is_stale q ms) (λ (x : Member). x.id == m.id) s.members
            ∙ delete_where-same (λ (x : Member). x.id == m.id || is_stale q ms x)
                (is_stale q (m ∷ ms)) s.members
                (All-any (λ (x : Member). ground (arith, same m)) s.members)))
]

-- A row that is the only one of its key is stale in a selection where it is selected and stale.
stale-selected :
    (p q : Member → Bool) (x : Member) (ms : List Member)
    → IsOnly ms x
    → is_stale q (select_where p ms) x
      ≡ (any_where (λ (m : Member). m.id == x.id) ms && (p x && not (q x)))
unfolding is_stale any_where select_where
stale-selected p q x [] h = refl
stale-selected p q x (m ∷ ms) h = elim (Bool-cases (m.id == x.id)) [
  | inl e ↦ ground (arith, ap p (h.0 e), ap q (h.0 e), stale-selected p q x ms h.1)
  | inr e ↦ ground (arith, stale-selected p q x ms h.1)
]

met :
    (ms : List Member) → All (λ (x : Member). any_where (λ (m : Member). m.id == x.id) ms ≡ true) ms
unfolding any_where
met [] = tt
met (m ∷ ms) = (
  ground arith,
  All-weaken (λ (x : Member). any_where (λ (y : Member). y.id == x.id) ms ≡ true)
      (λ (x : Member). any_where (λ (y : Member). y.id == x.id) (m ∷ ms) ≡ true) ms
      (λ x h. ground (arith, h)) (met ms),
)

stale-all :
    (p q : Member → Bool) (ms xs : List Member)
    → All (IsOnly ms) xs
    → All (λ (x : Member). any_where (λ (m : Member). m.id == x.id) ms ≡ true) xs
    → All (λ (x : Member). is_stale q (select_where p ms) x ≡ (p x && not (q x))) xs
stale-all p q ms [] a b = tt
stale-all p q ms (x ∷ xs) a b =
    (rw b.0 at (stale-selected p q x ms a.0), stale-all p q ms xs a.1 b.1)

-- A sweep of a selection deletes the rows of it that do not hold.
pub sweep_where-store :
    (p : Member → Bool) (s : Store)
    → DistinctKeys (λ (m : Member). m.id) s.members
    → (sweep (select_where p s.members) s).1
      ≡ record s { members = delete_where (λ (m : Member). p m && not (holds s m)) s.members }
unfolding put_members
sweep_where-store p s d =
    swept-store (holds s) (select_where p s.members) s (λ m. refl)
    ∙ ap (λ xs. put_members xs s)
        (delete_where-same (is_stale (holds s) (select_where p s.members))
          (λ (m : Member). p m && not (holds s m)) s.members
          (stale-all p (holds s) s.members s.members (all-IsOnly s.members d) (met s.members)))

-- The rows of a person that hold, and the table without those that do not.
abbrev pub kept : ℕ → Store → List Member
kept uid s = select_where (holds s) (select_where (λ (m : Member). m.user_id == uid) s.members)

abbrev pub tidied : ℕ → Store → Store
tidied uid s = record s {
  members = delete_where (λ (m : Member). m.user_id == uid && not (holds s m)) s.members;
}

-- The listing of his vaults is made from those of a person's rows that are by name or whose group
-- still has the vault and him, and deletes his others; the rows of other people, and whatever else
-- is stored, stay. The keys of the rows are distinct.
pub list_vaults-sweeps :
    (e : Env) (before : Vault → Vault → Bool) (uid : ℕ) (s : Store)
    → DistinctKeys (λ (m : Member). m.id) s.members
    → list_vaults e before uid s ≡ (listing e before uid (kept uid s, tidied uid s), tidied uid s)
unfolding list_vaults put_members
list_vaults-sweeps e before uid s d =
    let mine : Member → Bool = λ (m : Member). m.user_id == uid in
    ap₂ (λ xs t. (listing e before uid (xs, t), t))
      (swept-rows (holds s) (select_where mine s.members) s (λ m. refl))
      (sweep_where-store mine s d)
