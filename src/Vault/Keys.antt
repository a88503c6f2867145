-- ===== src/Vault/Keys.antt =====
-- The primary keys of the rows of models.VaultMFA, and what a write keeps of them:
-- backend/handlers/vault_mfa.go.
use commitkube.Base.{
  ℕ, ◌+◌, ◌<◌, ◌≡◌, Bool, true, false, [], ◌∷◌, ◌++◌, ◌==◌, update_where, All, All-append, arith,
  sym, DistinctKeys, DistinctKeys-same, DistinctKeys-snoc, All-same, All-weaken, All-any,
  map-update_where, map,
}
use commitkube.Vault.Factor.{Factor, Table}

abbrev pub key_of : Factor → ℕ
key_of f = f.id

-- The keys are distinct, none is 0, and the next one is past them.
pub record IsKeyed (v : Table) : Type 0 where
  pub distinct : DistinctKeys key_of v.factors
  pub below : All (λ (f : Factor). (f.id == 0) ≡ false × (f.id < v.next_id)) v.factors
  pub next : (v.next_id == 0) ≡ false

-- An update that keeps the key of each row that it finds keeps the keys.
pub IsKeyed-update_where :
    (q : Factor → Bool) (change : Factor → Factor) (v : Table)
    → ((r : Factor) → q r ≡ true → (change r).id ≡ r.id)
    → IsKeyed v
    → IsKeyed (record v { factors = update_where q change v.factors })
IsKeyed-update_where q change v keep k = record {
  distinct =
      DistinctKeys-same key_of (λ i. i) v.factors (update_where q change v.factors) (sym same)
        k.distinct;
  below =
      All-same key_of (λ i. (i == 0) ≡ false × (i < v.next_id)) v.factors
        (update_where q change v.factors) (sym same) k.below;
  next = k.next;
}
  where
    same : map key_of (update_where q change v.factors) ≡ map key_of v.factors
    same = map-update_where key_of q change v.factors (All-any keep v.factors)

-- A new row takes the next key.
pub IsKeyed-append :
    (f : Factor) (v : Table)
    → f.id ≡ v.next_id
    → IsKeyed v
    → IsKeyed (record v { factors = v.factors ++ f ∷ []; next_id = v.next_id + 1 })
IsKeyed-append f v same k = record {
  distinct =
      DistinctKeys-snoc key_of v.factors f
        (All-weaken (λ (r : Factor). (r.id == 0) ≡ false × (r.id < v.next_id))
          (λ (r : Factor). r.id < f.id) v.factors (λ r b. omega (arith, b.1, same)) k.below)
        k.distinct;
  below =
      All-append (λ (r : Factor). (r.id == 0) ≡ false × (r.id < v.next_id + 1)) v.factors (f ∷ [])
        (All-weaken (λ (r : Factor). (r.id == 0) ≡ false × (r.id < v.next_id))
          (λ (r : Factor). (r.id == 0) ≡ false × (r.id < v.next_id + 1)) v.factors
          (λ r b. (b.0, omega (arith, b.1))) k.below)
        ((ground (arith, k.next, same), omega (arith, same)), tt);
  next = ground arith;
}
