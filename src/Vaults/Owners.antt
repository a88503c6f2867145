-- ===== src/Vaults/Owners.antt =====
-- Writes to the members that spare the row of an owner: backend/handlers/vault.go.
use commitkube.Base.{
  ℕ, ◌≤◌, ◌<◌, ◌≡◌, sym, ap, ◌∙◌, subst, Bool, true, false, none, some, List, [], ◌∷◌, ◌++◌, ◌==◌,
  ◌=s◌, if◌then◌else◌, find_first, find_first-front, find_first-update_where, find_first-survives,
  update_where, delete_where, All, All-append, All-update_where, All-delete_where, All-weaken,
  All-find_first, DistinctKeys, DistinctKeys-same, DistinctKeys-snoc, DistinctKeys-delete_where,
  map-update_where, only_keyed, arith, Bool-cases, inl, inr, All-any,
}
use commitkube.Vaults.Store.{Member}
use commitkube.Vaults.Door.{is_member}

-- The row of an owner: his role, by name and not through a group.
abbrev pub IsOwner : Member → Type 0
IsOwner m = ((m.role =s "owner") ≡ true) × (m.via_group ≡ none)

abbrev pub Owned : ℕ → ℕ → List Member → Type 0
Owned vid uid ms = (m : Member) × ((find_first (is_member vid uid) ms ≡ some m) × IsOwner m)

abbrev pub Below : ℕ → List Member → Type 0
Below n = All (λ (m : Member). (m.id < n) × (m.vault_id < n))

-- The keys stay distinct and below the next one, and who owns a vault still does.
pub record Safe (ms : List Member) (n : ℕ) (us : List Member) (k : ℕ) : Type 0 where
  pub later : n ≤ k
  pub distinct : DistinctKeys (λ (m : Member). m.id) us
  pub below : Below k us
  pub owner : (vid uid : ℕ) → Owned vid uid ms → Owned vid uid us

module _ (ms : List Member) (n : ℕ) (d : DistinctKeys (λ (m : Member). m.id) ms)
    (b : Below n ms) where
  pub same-Safe : Safe ms n ms n
  same-Safe = record { later = omega arith; distinct = d; below = b; owner = λ vid uid o. o }

  pub delete-Safe :
      (q : Member → Bool)
      → ((vid uid : ℕ) (o : Owned vid uid ms) → q o.0 ≡ false)
      → Safe ms n (delete_where q ms) n
  delete-Safe q spare = record {
    later = omega arith;
    distinct = DistinctKeys-delete_where (λ (m : Member). m.id) q ms d;
    below = All-delete_where (λ (m : Member). (m.id < n) × (m.vault_id < n)) q ms b;
    owner = λ vid uid o.
        (o.0, (find_first-survives (is_member vid uid) q ms o.0 o.1.0 (spare vid uid o), o.1.1));
  }

  pub update-Safe :
      (q : Member → Bool) (change : Member → Member)
      → ((m : Member) → (change m).id ≡ m.id)
      → ((m : Member) → (change m).vault_id ≡ m.vault_id)
      → ((vid uid : ℕ) (m : Member) → is_member vid uid (change m) ≡ is_member vid uid m)
      → ((vid uid : ℕ) (o : Owned vid uid ms) → q o.0 ≡ false)
      → Safe ms n (update_where q change ms) n
  update-Safe q change same_id same_vault keep spare = record {
    later = omega arith;
    distinct =
        DistinctKeys-same (λ (m : Member). m.id) (λ i. i) ms (update_where q change ms)
          (sym
            (map-update_where (λ (m : Member). m.id) q change ms (All-any (λ m _. same_id m) ms)))
          d;
    below =
        All-update_where (λ (m : Member). (m.id < n) × (m.vault_id < n)) q change ms
          (λ m h.
            (subst (λ i. i < n) (sym (same_id m)) h.0, subst (λ i. i < n) (sym (same_vault m)) h.1))
          b;
    owner = λ vid uid o. (
      o.0,
      (
        find_first-update_where (is_member vid uid) q change ms (keep vid uid) o.1.0
            ∙ ap (λ (c : Bool). some (if c then change o.0 else o.0)) (spare vid uid o),
        o.1.1,
      ),
    );
  }

  pub append-Safe :
      (m : Member) (k : ℕ) → n ≤ m.id → m.id < k → m.vault_id < k → Safe ms n (ms ++ m ∷ []) k
  append-Safe m k new lt vlt = record {
    later = omega (arith, new, lt);
    distinct =
        DistinctKeys-snoc (λ (x : Member). x.id) ms m
          (All-weaken (λ (x : Member). (x.id < n) × (x.vault_id < n)) (λ (x : Member). x.id < m.id)
            ms (λ x h. omega (arith, h.0, new)) b)
          d;
    below =
        All-append (λ (x : Member). (x.id < k) × (x.vault_id < k)) ms (m ∷ [])
          (All-weaken (λ (x : Member). (x.id < n) × (x.vault_id < n))
            (λ (x : Member). (x.id < k) × (x.vault_id < k)) ms
            (λ x h. (omega (arith, h.0, new, lt), omega (arith, h.1, new, lt))) b)
          ((lt, vlt), tt);
    owner = λ vid uid o. (o.0, (find_first-front (is_member vid uid) ms (m ∷ []) o.0 o.1.0, o.1.1));
  }

  -- A row that was found and is no owner's has another key than an owner's.
  pub other_key :
      (p : Member → Bool) (t : Member)
      → find_first p ms ≡ some t
      → (IsOwner t → ⊥)
      → (vid uid : ℕ) (o : Owned vid uid ms) → (o.0.id == t.id) ≡ false
  other_key p t e not_owner vid uid o = elim (Bool-cases (o.0.id == t.id)) [
    | inr h ↦ h
    | inl h ↦
        let same : o.0 ≡ t =
          All-find_first (λ (x : Member). (x.id == t.id) ≡ true → x ≡ t) (is_member vid uid) ms
            (only_keyed (λ (x : Member). x.id) p ms t d e) o.1.0 h in
        absurd (not_owner (subst IsOwner same o.1.1))
  ]
