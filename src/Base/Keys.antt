-- ===== src/Base/Keys.antt =====
-- Rows under their primary keys, and what a write keeps of the keys.
use Prim.Native.Nat.{ℕ, ◌<◌, ◌+◌}
use mathlib.Core.Path.{◌≡◌, refl, sym, ap, ap₂, subst, ◌∙◌}
use mathlib.Core.Logic.{inl, inr}
use mathlib.Core.Bool.{Bool, true, false}
use mathlib.Core.Option.{some, some-injective}
use mathlib.Core.List.{List, [], ◌∷◌, ◌++◌, map}
use native.Mathlib.Omega.{arith}
use commitkube.Base.Tests.{◌==◌, if◌then◌else◌, Bool-cases}
use commitkube.Base.Rows.{
  All, find_first, update_where, count_where, All-append, delete_where, All-delete_where,
}

module _ {ℓ} {A : Type ℓ} (key : A → ℕ) where
  -- No two rows share a key.
  abbrev pub DistinctKeys : List A → Type ℓ
  DistinctKeys [] = Unit
  DistinctKeys (x ∷ xs) = All (λ y. (key y == key x) ≡ false) xs × DistinctKeys xs

  others :
      (a : A) (xs : List A)
      → All (λ y. (key y == key a) ≡ false) xs
      → All (λ y. (key y == key a) ≡ true → y ≡ a) xs
  others a [] h = tt
  others a (x ∷ xs) h = (λ e. absurd (ground (arith, h.0)), others a xs h.1)

  found-other :
      (p : A → Bool) (i : ℕ) (xs : List A) (a : A)
      → All (λ y. (key y == i) ≡ false) xs
      → find_first p xs ≡ some a
      → (key a == i) ≡ false
  unfolding find_first
  found-other p i [] a h e = absurd (ground arith)
  found-other p i (x ∷ xs) a h e = elim (Bool-cases (p x)) [
    | inl on ↦ subst (λ y. (key y == i) ≡ false) (some-injective x a (rw on at e)) h.0
    | inr off ↦ found-other p i xs a h.1 (rw off at e)
  ]

  -- The found row is the only one of its key.
  pub only_keyed :
      (p : A → Bool) (xs : List A) (a : A)
      → DistinctKeys xs
      → find_first p xs ≡ some a
      → All (λ y. (key y == key a) ≡ true → y ≡ a) xs
  unfolding find_first
  only_keyed p [] a d e = tt
  only_keyed p (x ∷ xs) a d e = elim (Bool-cases (p x)) [
    | inl on ↦
        let same : x ≡ a = some-injective x a (rw on at e) in
        (λ _. same, others a xs (subst (λ b. All (λ y. (key y == key b) ≡ false) xs) same d.0))
    | inr off ↦ (
      λ same. absurd (ground (arith, same, found-other p (key x) xs a d.0 (rw off at e))),
      only_keyed p xs a d.1 (rw off at e),
    )
  ]

module _ {ℓ κ} {A : Type ℓ} {B : Type κ} (f : A → B) where
  -- An update that keeps a part of each row that it finds keeps that part.
  pub map-update_where :
      (q : A → Bool) (change : A → A) (xs : List A)
      → All (λ x. q x ≡ true → f (change x) ≡ f x) xs
      → map f (update_where q change xs) ≡ map f xs
  unfolding update_where
  map-update_where q change [] keep = refl
  map-update_where q change (x ∷ xs) keep =
      ap₂ (λ y ys. y ∷ ys) (at_head (q x) refl) (map-update_where q change xs keep.1)
    where
      at_head : (b : Bool) → q x ≡ b → f (if b then change x else x) ≡ f x
      at_head true e = keep.0 e
      at_head false e = refl

  pub All-map {μ} : (P : B → Type μ) (xs : List A) → All P (map f xs) → All (λ x. P (f x)) xs
  All-map P [] h = tt
  All-map P (x ∷ xs) h = (h.0, All-map P xs h.1)

  pub map-All {μ} : (P : B → Type μ) (xs : List A) → All (λ x. P (f x)) xs → All P (map f xs)
  map-All P [] h = tt
  map-All P (x ∷ xs) h = (h.0, map-All P xs h.1)

  -- What holds of the parts of rows holds of other rows with the same parts.
  pub All-same {μ} :
      (P : B → Type μ) (xs ys : List A)
      → map f xs ≡ map f ys
      → All (λ x. P (f x)) xs
      → All (λ x. P (f x)) ys
  All-same P xs ys e h = All-map P ys (subst (All P) e (map-All P xs h))

module _ {ℓ κ} {A : Type ℓ} {B : Type κ} (f : A → B) where
  pub count_where-map :
      (q : B → Bool) (xs : List A) → count_where q (map f xs) ≡ count_where (λ x. q (f x)) xs
  unfolding count_where
  count_where-map q [] = refl
  count_where-map q (x ∷ xs) = ap (λ n. (if q (f x) then 1 else 0) + n) (count_where-map q xs)

  -- Rows with the same parts count the same.
  pub count_where-same :
      (q : B → Bool) (xs ys : List A)
      → map f xs ≡ map f ys
      → count_where (λ x. q (f x)) xs ≡ count_where (λ x. q (f x)) ys
  count_where-same q xs ys e =
      sym (count_where-map q xs) ∙ ap (count_where q) e ∙ count_where-map q ys

  map-DistinctKeys :
      (key : B → ℕ) (xs : List A) → DistinctKeys (λ x. key (f x)) xs → DistinctKeys key (map f xs)
  map-DistinctKeys key [] d = tt
  map-DistinctKeys key (x ∷ xs) d =
      (map-All f (λ y. (key y == key (f x)) ≡ false) xs d.0, map-DistinctKeys key xs d.1)

  DistinctKeys-map :
      (key : B → ℕ) (xs : List A) → DistinctKeys key (map f xs) → DistinctKeys (λ x. key (f x)) xs
  DistinctKeys-map key [] d = tt
  DistinctKeys-map key (x ∷ xs) d =
      (All-map f (λ y. (key y == key (f x)) ≡ false) xs d.0, DistinctKeys-map key xs d.1)

  pub DistinctKeys-same :
      (key : B → ℕ) (xs ys : List A)
      → map f xs ≡ map f ys
      → DistinctKeys (λ x. key (f x)) xs
      → DistinctKeys (λ x. key (f x)) ys
  DistinctKeys-same key xs ys e d =
      DistinctKeys-map key ys (subst (DistinctKeys key) e (map-DistinctKeys key xs d))

-- A row with a key past all others.
pub DistinctKeys-snoc {ℓ} :
    {A : Type ℓ} (key : A → ℕ) (xs : List A) (a : A)
    → All (λ x. key x < key a) xs
    → DistinctKeys key xs
    → DistinctKeys key (xs ++ a ∷ [])
DistinctKeys-snoc key [] a b d = (tt, tt)
DistinctKeys-snoc key (x ∷ xs) a b d = (
  All-append (λ y. (key y == key x) ≡ false) xs (a ∷ []) d.0 (ground (arith, b.0), tt),
  DistinctKeys-snoc key xs a b.1 d.1,
)

module _ {ℓ} {A : Type ℓ} where
  pub DistinctKeys-delete_where :
      (key : A → ℕ) (q : A → Bool) (xs : List A)
      → DistinctKeys key xs
      → DistinctKeys key (delete_where q xs)
  unfolding delete_where
  DistinctKeys-delete_where key q [] d = tt
  DistinctKeys-delete_where key q (x ∷ xs) d =
      at_head (q x) (DistinctKeys-delete_where key q xs d.1)
    where
      at_head :
          (b : Bool)
          → DistinctKeys key (delete_where q xs)
          → DistinctKeys key (if b then delete_where q xs else x ∷ delete_where q xs)
      at_head true rest = rest
      at_head false rest = (All-delete_where (λ y. (key y == key x) ≡ false) q xs d.0, rest)
