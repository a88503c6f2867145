-- ===== src/Vaults/Identity.antt =====
-- The public key of a person stays the one that vault keys are sealed to: enrolment and change of the
-- passphrase in backend/handlers/vault.go.
use commitkube.Base.{
  ℕ, ◌+◌, ◌<◌, ◌≡◌, refl, sym, ap, ◌∙◌, subst, String, Bool, true, false, Option, none, some, List,
  [], ◌∷◌, ◌==◌, if◌then◌else◌, find_first, find_first-front, find_first-revised, update_where,
  map-update_where, All, All-append, All-weaken, All-update_where, All-find_first, DistinctKeys,
  DistinctKeys-same, DistinctKeys-snoc, only_keyed, arith, Option-cases, inl, inr,
}
use commitkube.Vaults.Store.{Keyring, Store, Env, Problem, log}
use commitkube.Vaults.Keyring.{
  Enrolment, Rekeying, is_of, new_keyring, settle_enrolment, enrolment_problem, enrol, enrol_row,
  enroll_vault_keyring, rekeyed, settle_rekeying, rekeying_problem, rekey_body, rekey_row,
  rekey_vault_keyring,
}

-- The rows have distinct keys below the next one.
pub record IsKeyed (s : Store) : Type 0 where
  pub distinct : DistinctKeys (λ (k : Keyring). k.id) s.keyrings
  pub below : All (λ (k : Keyring). k.id < s.next_id) s.keyrings

-- The key and the fingerprint that others seal to.
abbrev pub face : Option Keyring → Option (String × String)
face none = none
face (some k) = some (k.public_key, k.fingerprint)

abbrev pub identity_of : ℕ → Store → Option (String × String)
identity_of uid s = face (find_first (is_of uid) s.keyrings)

-- What a step leaves: sound keys, and the identity of everyone who had one.
record Stays (s u : Store) : Type 0 where
  pub keyed : IsKeyed u
  pub identity :
      (uid : ℕ) (k : Keyring)
      → find_first (is_of uid) s.keyrings ≡ some k
      → identity_of uid u ≡ identity_of uid s

same-Stays : (s : Store) → IsKeyed s → Stays s s
same-Stays s h = record { keyed = h; identity = λ uid k e. refl }

enrolled-Stays :
    (e : Env) (uid : ℕ) (q : Enrolment) (p : Option Problem) (s : Store)
    → IsKeyed s
    → Stays s (settle_enrolment e uid q p s).1
unfolding settle_enrolment log new_keyring
enrolled-Stays e uid q (some p) s h = same-Stays s h
enrolled-Stays e uid q none s h = record {
  keyed = record {
    distinct =
        DistinctKeys-snoc (λ (k : Keyring). k.id) s.keyrings (new_keyring e uid s.next_id q) h.below
          h.distinct;
    below =
        All-append (λ (k : Keyring). k.id < s.next_id + 1) s.keyrings
          (new_keyring e uid s.next_id q ∷ [])
          (All-weaken (λ (k : Keyring). k.id < s.next_id) (λ (k : Keyring). k.id < s.next_id + 1)
            s.keyrings (λ k b. omega (arith, b)) h.below)
          (omega arith, tt);
  };
  identity = λ u k f.
      ap face
        (find_first-front (is_of u) s.keyrings (new_keyring e uid s.next_id q ∷ []) k f ∙ sym f);
}

enrol_row-Stays :
    (e : Env) (uid : ℕ) (q : Option Enrolment) (o : Option Keyring) (s : Store)
    → IsKeyed s
    → Stays s (enrol_row e uid q o s).1
unfolding enrol_row enrol
enrol_row-Stays e uid q (some k) s h = same-Stays s h
enrol_row-Stays e uid none none s h = same-Stays s h
enrol_row-Stays e uid (some q) none s h = enrolled-Stays e uid q (enrolment_problem e q) s h

rekeyed-same :
    (e : Env) (q : Rekeying) (k : Keyring)
    → ((rekeyed e q k).id ≡ k.id)
      × (((rekeyed e q k).user_id ≡ k.user_id) × (face (some (rekeyed e q k)) ≡ face (some k)))
unfolding rekeyed
rekeyed-same e q k = (refl, (refl, refl))

module _ (e : Env) (q : Rekeying) (by : ℕ) (k : Keyring) (s : Store) (h : IsKeyed s)
    (found : find_first (is_of by) s.keyrings ≡ some k) where
  only : All (λ (x : Keyring). (x.id == k.id) ≡ true → x ≡ k) s.keyrings
  only = only_keyed (λ (x : Keyring). x.id) (is_of by) s.keyrings k h.distinct found

  abbrev saved : List Keyring
  saved = update_where (λ (x : Keyring). x.id == k.id) (λ _. rekeyed e q k) s.keyrings

  saved-distinct : DistinctKeys (λ (x : Keyring). x.id) saved
  saved-distinct =
      DistinctKeys-same (λ (x : Keyring). x.id) (λ i. i) s.keyrings saved
        (sym (
          map-update_where (λ (x : Keyring). x.id) (λ (x : Keyring). x.id == k.id)
            (λ _. rekeyed e q k) s.keyrings
            (All-weaken (λ (x : Keyring). (x.id == k.id) ≡ true → x ≡ k)
              (λ (x : Keyring). (x.id == k.id) ≡ true → (rekeyed e q k).id ≡ x.id) s.keyrings
              (λ x same on. (rekeyed-same e q k).0 ∙ ap (λ (y : Keyring). y.id) (sym (same on)))
              only)))
        h.distinct

  saved-below : All (λ (x : Keyring). x.id < s.next_id) saved
  saved-below =
      All-update_where (λ (x : Keyring). x.id < s.next_id) (λ (x : Keyring). x.id == k.id)
        (λ _. rekeyed e q k) s.keyrings
        (λ x b.
          subst (λ i. i < s.next_id) (sym (rekeyed-same e q k).0)
            (All-find_first (λ (y : Keyring). y.id < s.next_id) (is_of by) s.keyrings h.below
              found))
        h.below

  saved-face :
      (uid : ℕ) (a : Keyring)
      → find_first (is_of uid) s.keyrings ≡ some a
      → face (find_first (is_of uid) saved) ≡ face (some a)
  saved-face uid a f =
      ap face (
        find_first-revised (is_of uid) (λ (x : Keyring). x.id == k.id) (λ _. rekeyed e q k)
          s.keyrings a
          (All-weaken (λ (x : Keyring). (x.id == k.id) ≡ true → x ≡ k)
            (λ (x : Keyring). (x.id == k.id) ≡ true → is_of uid (rekeyed e q k) ≡ is_of uid x)
            s.keyrings
            (λ x same on.
              ap (λ i. i == uid)
                ((rekeyed-same e q k).1.0 ∙ ap (λ (y : Keyring). y.user_id) (sym (same on))))
            only)
          f)
      ∙ at_test (a.id == k.id) refl
    where
      at_test :
          (c : Bool)
          → (a.id == k.id) ≡ c
          → face (some (if c then rekeyed e q k else a)) ≡ face (some a)
      at_test true on =
          (rekeyed-same e q k).1.1
          ∙ ap (λ (y : Keyring). face (some y))
              (sym (
                All-find_first (λ (x : Keyring). (x.id == k.id) ≡ true → x ≡ k) (is_of uid)
                  s.keyrings only f on))
      at_test false on = refl

  rekeyed-Stays : (p : Option Problem) → Stays s (settle_rekeying e by q k p s).1
  unfolding settle_rekeying log
  rekeyed-Stays (some p) = same-Stays s h
  rekeyed-Stays none = record {
    keyed = record { distinct = saved-distinct; below = saved-below };
    identity = λ uid a f. saved-face uid a f ∙ ap face (sym f);
  }

rekey_row-Stays :
    (e : Env) (uid : ℕ) (q : Option Rekeying) (o : Option Keyring) (s : Store)
    → find_first (is_of uid) s.keyrings ≡ o
    → IsKeyed s
    → Stays s (rekey_row e uid q o s).1
unfolding rekey_row rekey_body
rekey_row-Stays e uid q none s f h = same-Stays s h
rekey_row-Stays e uid none (some k) s f h = same-Stays s h
rekey_row-Stays e uid (some q) (some k) s f h = rekeyed-Stays e q uid k s h f (rekeying_problem e q)

pub data Step : Type 0 where
  enrolling : Env → ℕ → Option Enrolment → Step
  rekeying : Env → ℕ → Option Rekeying → Step

abbrev pub apply_step : Step → Store → Store
apply_step (enrolling e uid q) s = (enroll_vault_keyring e uid q s).1
apply_step (rekeying e uid q) s = (rekey_vault_keyring e uid q s).1

abbrev pub apply_steps : List Step → Store → Store
apply_steps [] s = s
apply_steps (x ∷ xs) s = apply_steps xs (apply_step x s)

step-Stays : (x : Step) (s : Store) → IsKeyed s → Stays s (apply_step x s)
unfolding enroll_vault_keyring rekey_vault_keyring
step-Stays (enrolling e uid q) s h = enrol_row-Stays e uid q (find_first (is_of uid) s.keyrings) s h
step-Stays (rekeying e uid q) s h =
    rekey_row-Stays e uid q (find_first (is_of uid) s.keyrings) s refl h

-- Who has enrolled keeps his public key and its fingerprint, whoever enrols or changes a
-- passphrase afterwards, with the recovery code or without; the keys of the rows are distinct and
-- below the next one.
pub identity_of-apply_steps :
    (xs : List Step) (uid : ℕ) (pair : String × String) (s : Store)
    → IsKeyed s
    → identity_of uid s ≡ some pair
    → identity_of uid (apply_steps xs s) ≡ some pair
identity_of-apply_steps [] uid pair s h f = f
identity_of-apply_steps (x ∷ xs) uid pair s h f =
    let r : Stays s (apply_step x s) = step-Stays x s h in
    identity_of-apply_steps xs uid pair (apply_step x s) r.keyed
      (elim (Option-cases (find_first (is_of uid) s.keyrings)) [
        | inl e ↦ absurd (ground (arith, ap face (sym e) ∙ f))
        | inr (k, e) ↦ r.identity uid k e ∙ f
      ])
