-- ===== src/Base/Queries.antt =====
-- What a query finds of a list of rows after a write: its rows changed, added or deleted.
use Prim.Native.Nat.{◌≤◌}
use mathlib.Core.Path.{◌≡◌, refl, sym, subst}
use mathlib.Core.Logic.{inl, inr}
use mathlib.Core.Bool.{Bool, true, false}
use mathlib.Core.Option.{none, some, some-injective}
use mathlib.Core.List.{List, [], ◌∷◌, ◌++◌}
use native.Mathlib.Omega.{arith}
use commitkube.Base.Tests.{if◌then◌else◌, Bool-cases}
use commitkube.Base.Rows.{
  All, find_first, update_where, count_where, any_where, select_where, delete_where,
  count_where-delete_where-le,
}

module _ {ℓ} {A : Type ℓ} where
  pub All-weaken {κ μ} :
      (P : A → Type κ) (Q : A → Type μ) (xs : List A) → ((x : A) → P x → Q x) → All P xs → All Q xs
  All-weaken P Q [] h a = tt
  All-weaken P Q (x ∷ xs) h a = (h x a.0, All-weaken P Q xs h a.1)

  -- An update that keeps what a query asks for changes what the query finds where it finds it.
  pub find_first-revised :
      (p q : A → Bool) (change : A → A) (xs : List A) (a : A)
      → All (λ x. q x ≡ true → p (change x) ≡ p x) xs
      → find_first p xs ≡ some a
      → find_first p (update_where q change xs) ≡ some (if q a then change a else a)
  unfolding find_first update_where
  find_first-revised p q change [] a keep h = absurd (ground arith)
  find_first-revised p q change (x ∷ xs) a keep h = elim (Bool-cases (p x)) [
    | inl e ↦
        subst
          (λ y. find_first p (update_where q change (x ∷ xs)) ≡ some (if q y then change y else y))
          (some-injective x a (rw e at h)) (ground (arith, keep.0))
    | inr e ↦ ground (arith, keep.0, find_first-revised p q change xs a keep.1 (rw e at h))
  ]

  pub find_first-still_none :
      (p q : A → Bool) (change : A → A) (xs : List A)
      → All (λ x. q x ≡ true → p (change x) ≡ p x) xs
      → find_first p xs ≡ none
      → find_first p (update_where q change xs) ≡ none
  unfolding find_first update_where
  find_first-still_none p q change [] keep h = refl
  find_first-still_none p q change (x ∷ xs) keep h =
      ground (arith, keep.0, find_first-still_none p q change xs keep.1)

  pub find_first-front :
      (p : A → Bool) (xs ys : List A) (a : A)
      → find_first p xs ≡ some a
      → find_first p (xs ++ ys) ≡ some a
  unfolding find_first
  find_first-front p [] ys a h = absurd (ground arith)
  find_first-front p (x ∷ xs) ys a h = elim (Bool-cases (p x)) [
    | inl e ↦ rw e (rw e at h)
    | inr e ↦ rw e (find_first-front p xs ys a (rw e at h))
  ]

  pub find_first-back :
      (p : A → Bool) (xs ys : List A)
      → find_first p xs ≡ none
      → find_first p (xs ++ ys) ≡ find_first p ys
  unfolding find_first
  find_first-back p [] ys h = refl
  find_first-back p (x ∷ xs) ys h = ground (arith, find_first-back p xs ys)

  pub find_first-none : (p : A → Bool) (xs : List A) → find_first p xs ≡ none → count_where p xs ≡ 0
  unfolding find_first count_where
  find_first-none p [] h = refl
  find_first-none p (x ∷ xs) h = ground (arith, find_first-none p xs)

  pub All-select_where {κ} :
      (P : A → Type κ) (p : A → Bool) (xs : List A) → All P xs → All P (select_where p xs)
  unfolding select_where
  All-select_where P p [] h = tt
  All-select_where P p (x ∷ xs) h = at_head (p x) (All-select_where P p xs h.1)
    where
      at_head :
          (b : Bool)
          → All P (select_where p xs)
          → All P (if b then x ∷ select_where p xs else select_where p xs)
      at_head true rest = (h.0, rest)
      at_head false rest = rest

  -- A query inside a query.
  pub find_first-select_where :
      (p q : A → Bool) (xs : List A)
      → ((x : A) → p x ≡ true → q x ≡ true)
      → find_first p (select_where q xs) ≡ find_first p xs
  unfolding find_first select_where
  find_first-select_where p q [] h = refl
  find_first-select_where p q (x ∷ xs) h = ground (arith, h x, find_first-select_where p q xs h)

  pub count_where-select_where-le :
      (p q : A → Bool) (xs : List A) → count_where p (select_where q xs) ≤ count_where p xs
  unfolding count_where select_where
  count_where-select_where-le p q [] = omega arith
  count_where-select_where-le p q (x ∷ xs) = ground (arith, count_where-select_where-le p q xs)

  pub any_where-none : (p : A → Bool) (xs : List A) → count_where p xs ≡ 0 → any_where p xs ≡ false
  unfolding any_where count_where
  any_where-none p [] h = refl
  any_where-none p (x ∷ xs) h = ground (arith, any_where-none p xs)

  pub find_first-snoc :
      (p : A → Bool) (xs : List A) (a : A)
      → p a ≡ false
      → find_first p (xs ++ a ∷ []) ≡ find_first p xs
  unfolding find_first
  find_first-snoc p [] a h = ground arith
  find_first-snoc p (x ∷ xs) a h = ground (arith, find_first-snoc p xs a h)

  pub count-zero-none : (p : A → Bool) (xs : List A) → count_where p xs ≡ 0 → find_first p xs ≡ none
  unfolding count_where find_first
  count-zero-none p [] h = refl
  count-zero-none p (x ∷ xs) h = ground (arith, count-zero-none p xs)

  -- A deletion of rows that a query does not ask for.
  pub find_first-delete_where :
      (p q : A → Bool) (xs : List A)
      → All (λ x. q x ≡ true → p x ≡ false) xs
      → find_first p (delete_where q xs) ≡ find_first p xs
  unfolding find_first delete_where
  find_first-delete_where p q [] h = refl
  find_first-delete_where p q (x ∷ xs) h = ground (arith, h.0, find_first-delete_where p q xs h.1)

  -- The only row that a query finds is deleted.
  pub count_where-delete_where-zero :
      (p q : A → Bool) (xs : List A) (a : A)
      → count_where p xs ≤ 1
      → find_first p xs ≡ some a
      → q a ≡ true
      → count_where p (delete_where q xs) ≡ 0
  unfolding find_first delete_where count_where
  count_where-delete_where-zero p q [] a one e on = refl
  count_where-delete_where-zero p q (x ∷ xs) a one e on = elim (Bool-cases (p x)) [
    | inl h ↦ ground (
      arith,
      subst (λ y. q y ≡ true) (sym (some-injective x a (rw h at e))) on,
      count_where-delete_where-le p q xs,
    )
    | inr h ↦
        ground
          (arith, count_where-delete_where-zero p q xs a (ground (arith, one, h)) (rw h at e) on)
  ]

  -- A row that a query finds survives a deletion that does not ask for it.
  pub find_first-survives :
      (p q : A → Bool) (xs : List A) (a : A)
      → find_first p xs ≡ some a
      → q a ≡ false
      → find_first p (delete_where q xs) ≡ some a
  unfolding find_first delete_where
  find_first-survives p q [] a e off = absurd (ground arith)
  find_first-survives p q (x ∷ xs) a e off = elim (Bool-cases (p x)) [
    | inl h ↦ ground (
      arith,
      some-injective x a (rw h at e),
      subst (λ y. q y ≡ false) (sym (some-injective x a (rw h at e))) off,
    )
    | inr h ↦ ground (arith, h, find_first-survives p q xs a (rw h at e) off)
  ]

  pub All-any {κ} : {P : A → Type κ} → ((x : A) → P x) → (xs : List A) → All P xs
  All-any h [] = tt
  All-any h (x ∷ xs) = (h x, All-any h xs)
