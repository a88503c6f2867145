-- ===== src/Vault/Seeds.antt =====
-- A new seed leaves the generation of every person's second factor: backend/handlers/vault_mfa.go.
use commitkube.Base.{
  ℕ, ◌+◌, ◌≤◌, ◌<◌, ◌≡◌, refl, sym, ap, ◌∙◌, String, Bool, true, false, Option, none, some, List,
  [], ◌∷◌, ◌++◌, ◌==◌, if◌then◌else◌, find_first-holds, update_where, All, All-find_first, arith,
  find_first-front, only_keyed, All-weaken,
}
use commitkube.Vault.Factor.{Factor, Table, Env}
use commitkube.Vault.Access.{
  or_blank, factor_of, Person, Response, save, blank, seeded_row, setup_vault_mfa, setup_row,
  settle_setup, draw_seed, is_enabled, conflict, not_found, server_error, seeded,
}
use commitkube.Vault.Keys.{IsKeyed-append, key_of}
use commitkube.Vault.Generations.{IsPast, IsPast-update_where}

IsPast-append :
    (uid n : ℕ) (f : Factor) (v : Table)
    → f.id ≡ v.next_id
    → IsPast uid n v
    → IsPast uid n (record v { factors = v.factors ++ f ∷ []; next_id = v.next_id + 1 })
IsPast-append uid n f v same p = record {
  keyed = IsKeyed-append f v same p.keyed;
  row = p.row;
  found = find_first-front (λ (r : Factor). r.user_id == uid) v.factors (f ∷ []) p.row p.found;
  enough = p.enough;
}

-- A new seed overwrites the row of its person, whose generation it does not take back.
IsPast-seeded :
    (uid n who : ℕ) (sealed : String) (f : Factor) (v : Table)
    → factor_of who v ≡ some f
    → IsPast uid n v
    → IsPast uid n (record v {
      factors =
          update_where (λ (r : Factor). r.id == f.id) (λ r. seeded_row who sealed f) v.factors;
    })
IsPast-seeded uid n who sealed f v at p =
    IsPast-update_where uid n (λ r. r.id == f.id) (λ r. seeded_row who sealed f) v
      (λ r e. ground arith) owner p forward
  where
    alone : All (λ (r : Factor). (r.id == f.id) ≡ true → r ≡ f) v.factors
    alone = only_keyed key_of (λ (r : Factor). r.user_id == who) v.factors f p.keyed.distinct at

    own : f.user_id ≡ who
    own = ground (arith, find_first-holds (λ (r : Factor). r.user_id == who) v.factors at)

    owner :
        All (λ (r : Factor). (r.id == f.id) ≡ true → (who == uid) ≡ (r.user_id == uid)) v.factors
    owner =
        All-weaken (λ (r : Factor). (r.id == f.id) ≡ true → r ≡ f)
          (λ (r : Factor). (r.id == f.id) ≡ true → (who == uid) ≡ (r.user_id == uid)) v.factors
          (λ r only e. ap (λ o. o == uid) (sym own ∙ sym (ap (λ (x : Factor). x.user_id) (only e))))
          alone

    forward : (p.row.id == f.id) ≡ true → n ≤ (seeded_row who sealed f).generation
    forward same =
        let one : p.row ≡ f =
          All-find_first (λ (r : Factor). (r.id == f.id) ≡ true → r ≡ f)
            (λ (r : Factor). r.user_id == uid) v.factors alone p.found same in
        ground (arith, p.enough, ap (λ (r : Factor). r.generation) one)

IsPast-save-found :
    (uid n who : ℕ) (sealed : String) (f : Factor) (v : Table)
    → factor_of who v ≡ some f
    → IsPast uid n v
    → IsPast uid n (save (seeded_row who sealed f) v)
unfolding save
IsPast-save-found uid n who sealed f v at p =
    rw
      (All-find_first (λ (r : Factor). (r.id == 0) ≡ false × (r.id < v.next_id))
        (λ (r : Factor). r.user_id == who) v.factors p.keyed.below at).0
      (IsPast-seeded uid n who sealed f v at p)

IsPast-save-blank :
    (uid n who : ℕ) (sealed : String) (v : Table)
    → IsPast uid n v
    → IsPast uid n (save (seeded_row who sealed blank) v)
unfolding save
IsPast-save-blank uid n who sealed v p =
    IsPast-append uid n (record (seeded_row who sealed blank) { id = v.next_id }) v refl p

module _ (encrypt : String → String) where
  IsPast-settle_setup :
      (e : Env) (uid n who : ℕ) (f : Factor) (o : Option String) (v : Table)
      → ((sealed : String) → IsPast uid n (save (seeded_row who sealed f) v))
      → IsPast uid n v
      → IsPast uid n (settle_setup encrypt e who f o v).0
  unfolding settle_setup
  IsPast-settle_setup e uid n who f none v saved p = p
  IsPast-settle_setup e uid n who f (some key) v saved p = at_head e.update_ok
    where
      at_head :
          (b : Bool)
          → IsPast uid n
              (if◌then◌else◌ {A = Table × Response} b
                (save (seeded_row who (encrypt key) f) v, seeded key)
                (v, server_error)).0
      at_head true = saved (encrypt key)
      at_head false = p

  IsPast-setup_row :
      (e : Env) (uid n who : ℕ) (person : Option Person) (draws : List (Option String)) (f : Factor)
      (v : Table)
      → ((sealed : String) → IsPast uid n (save (seeded_row who sealed f) v))
      → IsPast uid n v
      → IsPast uid n (setup_row encrypt e who person draws f v).0
  unfolding setup_row
  IsPast-setup_row e uid n who none draws f v saved p = at_head (is_enabled f.enabled_at)
    where
      at_head :
          (b : Bool)
          → IsPast uid n (if◌then◌else◌ {A = Table × Response} b (v, conflict) (v, not_found)).0
      at_head true = p
      at_head false = p
  IsPast-setup_row e uid n who (some q) draws f v saved p = at_head (is_enabled f.enabled_at)
    where
      at_head :
          (b : Bool)
          → IsPast uid n
              (if◌then◌else◌ {A = Table × Response} b
                (v, conflict)
                (settle_setup encrypt e who f (draw_seed q.mfa_secret draws) v)).0
      at_head true = p
      at_head false = IsPast-settle_setup e uid n who f (draw_seed q.mfa_secret draws) v saved p

  IsPast-at_row :
      (e : Env) (uid n who : ℕ) (person : Option Person) (draws : List (Option String)) (v : Table)
      (o : Option Factor)
      → factor_of who v ≡ o
      → IsPast uid n v
      → IsPast uid n (setup_row encrypt e who person draws (or_blank o) v).0
  IsPast-at_row e uid n who person draws v none at p =
      IsPast-setup_row e uid n who person draws blank v
        (λ sealed. IsPast-save-blank uid n who sealed v p) p
  IsPast-at_row e uid n who person draws v (some f) at p =
      IsPast-setup_row e uid n who person draws f v
        (λ sealed. IsPast-save-found uid n who sealed f v at p) p

  pub IsPast-setup_vault_mfa :
      (e : Env) (uid n who : ℕ) (person : Option Person) (draws : List (Option String)) (v : Table)
      → IsPast uid n v
      → IsPast uid n (setup_vault_mfa encrypt e who person draws v).0
  unfolding setup_vault_mfa
  IsPast-setup_vault_mfa e uid n who person draws v p =
      IsPast-at_row e uid n who person draws v (factor_of who v) refl p
