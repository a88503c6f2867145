-- ===== src/Vaults/Versions.antt =====
-- Two people who edit one item: the version that UpdateVaultItem of backend/handlers/vault.go looks
-- at in its write, where the requests have read the row at any time before.
use commitkube.Base.{
  ℕ, ◌+◌, ◌≤◌, ◌<◌, ◌≡◌, refl, ap, ◌∙◌, Bool, true, false, List, [], ◌∷◌, ◌==◌, if◌then◌else◌,
  find_first, find_first-holds, find_first-none, update_where, count_where, All, All-weaken,
  DistinctKeys, only_keyed, arith, Option-cases, Bool-cases, inl, inr,
}
use commitkube.Vaults.Store.{Item, Store, Env, refused, stale, made, log}
use commitkube.Vaults.Items.{Sealed, is_at, rewritten, version_at, write_item}

-- A write of a request that names a version no newer than the one that it read.
pub record Write : Type 0 where
  pub env : Env
  pub by : ℕ
  pub request : Sealed
  pub loaded : Item
  pub fair : request.base_version ≤ loaded.version

abbrev pub write : Write → Store → Store
write w s = (write_item w.env w.by w.request w.loaded s).1

abbrev pub write_all : List Write → Store → Store
write_all [] s = s
write_all (w ∷ ws) s = write_all ws (write w s)

-- The versions of an item are past one.
abbrev Past : ℕ → ℕ → List Item → Type 0
Past i b = All (λ (x : Item). (x.id == i) ≡ true → b < x.version)

rewritten-Past :
    (i b : ℕ) (w : Write) (items : List Item)
    → Past i b items
    → Past i b (
        update_where
          (is_at w.loaded.id w.request.base_version)
          (rewritten w.env w.by w.request w.loaded)
          items)
unfolding update_where rewritten
rewritten-Past i b w [] p = tt
rewritten-Past i b w (x ∷ items) p =
    (at_head (is_at w.loaded.id w.request.base_version x) refl, rewritten-Past i b w items p.1)
  where
    at_head :
        (c : Bool)
        → is_at w.loaded.id w.request.base_version x ≡ c
        → ((if c then rewritten w.env w.by w.request w.loaded x else x).id == i) ≡ true
        → b < (if c then rewritten w.env w.by w.request w.loaded x else x).version
    at_head true h e = ground (arith, h, p.0 e, w.fair)
    at_head false h e = p.0 e

write-Past : (i b : ℕ) (w : Write) (s : Store) → Past i b s.items → Past i b (write w s).items
unfolding write_item log
write-Past i b w s p =
    elim (Bool-cases (count_where (is_at w.loaded.id w.request.base_version) s.items == 0)) [
      | inl h ↦ rw (h, write) p
      | inr h ↦ rw (h, write) (rewritten-Past i b w s.items p)
    ]

write_all-Past :
    (i b : ℕ) (ws : List Write) (s : Store) → Past i b s.items → Past i b (write_all ws s).items
write_all-Past i b [] s p = p
write_all-Past i b (w ∷ ws) s p = write_all-Past i b ws (write w s) (write-Past i b w s p)

-- The write that has found its version leaves no row of the item at it.
found-Past :
    (w : Write) (items : List Item)
    → All
        (λ (x : Item).
          (x.id == w.loaded.id) ≡ true → is_at w.loaded.id w.request.base_version x ≡ true)
        items
    → Past w.loaded.id w.request.base_version (
        update_where
          (is_at w.loaded.id w.request.base_version)
          (rewritten w.env w.by w.request w.loaded)
          items)
unfolding update_where rewritten
found-Past w [] a = tt
found-Past w (x ∷ items) a =
    (at_head (is_at w.loaded.id w.request.base_version x) refl, found-Past w items a.1)
  where
    at_head :
        (c : Bool)
        → is_at w.loaded.id w.request.base_version x ≡ c
        → ((if c then rewritten w.env w.by w.request w.loaded x else x).id == w.loaded.id) ≡ true
        → w.request.base_version
          < (if c then rewritten w.env w.by w.request w.loaded x else x).version
    at_head true h e = omega (arith, w.fair)
    at_head false h e = absurd (ground (arith, h, a.0 e))

only_at :
    (i b : ℕ) (items : List Item)
    → DistinctKeys (λ (x : Item). x.id) items
    → (count_where (is_at i b) items == 0) ≡ false
    → All (λ (x : Item). (x.id == i) ≡ true → is_at i b x ≡ true) items
only_at i b items d h = elim (Option-cases (find_first (is_at i b) items)) [
  | inl e ↦ absurd (ground (arith, h, find_first-none (is_at i b) items e))
  | inr (a, e) ↦
      let hold : is_at i b a ≡ true = find_first-holds (is_at i b) items e in
      All-weaken (λ (x : Item). (x.id == a.id) ≡ true → x ≡ a)
        (λ (x : Item). (x.id == i) ≡ true → is_at i b x ≡ true) items
        (λ x same on. ap (is_at i b) (same (ground (arith, on, hold))) ∙ hold)
        (only_keyed (λ (x : Item). x.id) (is_at i b) items a d e)
]

-- The answer of a write that went through.
abbrev pub WentThrough : Write → Store → Type 0
WentThrough w s =
    (write_item w.env w.by w.request w.loaded s).0 ≡ made w.loaded.uuid (w.loaded.version + 1)

found_version :
    (w : Write) (s : Store)
    → WentThrough w s
    → (count_where (is_at w.loaded.id w.request.base_version) s.items == 0) ≡ false
unfolding write_item
found_version w s through =
    elim (Bool-cases (count_where (is_at w.loaded.id w.request.base_version) s.items == 0)) [
      | inl h ↦ absurd (ground (arith, rw h at through))
      | inr h ↦ h
    ]

written-Past :
    (w : Write) (s : Store)
    → DistinctKeys (λ (x : Item). x.id) s.items
    → WentThrough w s
    → Past w.loaded.id w.request.base_version (write w s).items
unfolding write_item log
written-Past w s d through =
    rw (found_version w s through, write)
      (found-Past w s.items
        (only_at w.loaded.id w.request.base_version s.items d (found_version w s through)))

Past-none : (i b : ℕ) (items : List Item) → Past i b items → count_where (is_at i b) items ≡ 0
unfolding count_where
Past-none i b [] p = refl
Past-none i b (x ∷ items) p = ground (arith, p.0, Past-none i b items p.1)

later :
    (w : Write) (ws : List Write) (q : Sealed) (loaded : Item) (s : Store)
    → DistinctKeys (λ (x : Item). x.id) s.items
    → WentThrough w s
    → loaded.id ≡ w.loaded.id
    → q.base_version ≡ w.request.base_version
    → (count_where (is_at loaded.id q.base_version) (write_all ws (write w s)).items == 0) ≡ true
later w ws q loaded s d through same base =
    ap (λ i. count_where (is_at i q.base_version) (write_all ws (write w s)).items == 0) same
    ∙ ap (λ b. count_where (is_at w.loaded.id b) (write_all ws (write w s)).items == 0) base
    ∙ ap (λ n. n == 0)
        (Past-none w.loaded.id w.request.base_version (write_all ws (write w s)).items (
          write_all-Past w.loaded.id w.request.base_version ws (write w s)
            (written-Past w s d through)))

-- Of the writes that name one version of an item at most one goes through: after it, whatever
-- writes come between whose version is no newer than the copy that they read, another one is told
-- that the item has changed and changes nothing. The keys of the items are distinct.
pub write_item-once :
    (w : Write) (ws : List Write) (e : Env) (by : ℕ) (q : Sealed) (loaded : Item) (s : Store)
    → DistinctKeys (λ (x : Item). x.id) s.items
    → WentThrough w s
    → loaded.id ≡ w.loaded.id
    → q.base_version ≡ w.request.base_version
    → (n : ℕ) × (write_item e by q loaded (write_all ws (write w s))
        ≡ (refused (stale n), write_all ws (write w s)))
unfolding write_item
write_item-once w ws e by q loaded s d through same base =
    let u = write_all ws (write w s) in
    (version_at loaded.id u.items, rw (later w ws q loaded s d through same base) refl)
