-- ===== src/Base/Rows.antt =====
-- Tables as lists of rows in primary-key order, with the queries that the handlers make.
use Prim.Native.Nat.{ℕ, suc, ◌+◌, ◌≤◌}
use mathlib.Core.Path.{◌≡◌, refl, subst}
use mathlib.Core.Logic.{◌≢◌, inl, inr}
use mathlib.Core.Bool.{Bool, true, false, ◌||◌}
use mathlib.Core.Option.{Option, none, some, some-injective}
use mathlib.Core.List.{List, [], ◌∷◌, ◌++◌}
use native.Mathlib.Omega.{arith}
use commitkube.Base.Tests.{if◌then◌else◌, Bool-cases}

module _ {ℓ} {A : Type ℓ} where
  abbrev pub length : List A → ℕ
  length [] = 0
  length (x ∷ xs) = suc (length xs)

  -- `Where(p).First`: the first row in primary-key order.
  unfoldable pub find_first : (A → Bool) → List A → Option A
  find_first p [] = none
  find_first p (x ∷ xs) = if p x then some x else find_first p xs

  -- `Where(p).Updates(f)`
  unfoldable pub update_where : (A → Bool) → (A → A) → List A → List A
  update_where p f [] = []
  update_where p f (x ∷ xs) = (if p x then f x else x) ∷ update_where p f xs

  -- `Where(p).Count`
  unfoldable pub count_where : (A → Bool) → List A → ℕ
  count_where p [] = 0
  count_where p (x ∷ xs) = (if p x then 1 else 0) + count_where p xs

  -- `Where(p).Find`
  unfoldable pub select_where : (A → Bool) → List A → List A
  select_where p [] = []
  select_where p (x ∷ xs) = let rest = select_where p xs in if p x then x ∷ rest else rest

  -- `Where(p).Delete`
  unfoldable pub delete_where : (A → Bool) → List A → List A
  delete_where p [] = []
  delete_where p (x ∷ xs) = let rest = delete_where p xs in if p x then rest else x ∷ rest

  -- Whether some row satisfies `p`.
  unfoldable pub any_where : (A → Bool) → List A → Bool
  any_where p [] = false
  any_where p (x ∷ xs) = if p x then true else any_where p xs

  abbrev pub All {κ} : (A → Type κ) → List A → Type κ
  All P [] = Unit
  All P (x ∷ xs) = P x × All P xs

module _ {ℓ} {A : Type ℓ} where
  pub find_first-holds :
      (p : A → Bool) (xs : List A) {a : A} → find_first p xs ≡ some a → p a ≡ true
  unfolding find_first
  find_first-holds p [] h = ground arith
  find_first-holds p (x ∷ xs) h = elim (Bool-cases (p x)) [
    | inl e ↦ ground arith
    | inr e ↦ find_first-holds p xs (rw e at h)
  ]

  pub All-find_first {κ} :
      (P : A → Type κ) (p : A → Bool) (xs : List A) {a : A}
      → All P xs
      → find_first p xs ≡ some a
      → P a
  unfolding find_first
  All-find_first P p [] ps h = absurd (ground arith)
  All-find_first P p (x ∷ xs) {a} ps h = elim (Bool-cases (p x)) [
    | inl e ↦ subst P (some-injective x a (rw e at h)) ps.0
    | inr e ↦ All-find_first P p xs ps.1 (rw e at h)
  ]

  pub count_where-append :
      (p : A → Bool) (xs ys : List A)
      → count_where p (xs ++ ys) ≡ count_where p xs + count_where p ys
  unfolding count_where
  count_where-append p [] ys = omega arith
  count_where-append p (x ∷ xs) ys = omega (arith, count_where-append p xs ys)

  pub count_where-delete_where-le :
      (p q : A → Bool) (xs : List A) → count_where p (delete_where q xs) ≤ count_where p xs
  unfolding count_where delete_where
  count_where-delete_where-le p q [] = omega arith
  count_where-delete_where-le p q (x ∷ xs) = ground (arith, count_where-delete_where-le p q xs)

  -- An update that never makes a row count keeps the count from growing.
  pub count_where-update_where-le :
      (p q : A → Bool) (f : A → A) (xs : List A)
      → ((x : A) → p (f x) ≡ true → p x ≡ true)
      → count_where p (update_where q f xs) ≤ count_where p xs
  unfolding count_where update_where
  count_where-update_where-le p q f [] h = omega arith
  count_where-update_where-le p q f (x ∷ xs) h =
      ground (arith, h x, count_where-update_where-le p q f xs h)

  -- The same for an update that is careful with the rows that it finds.
  pub count_where-update_where-found :
      (p q : A → Bool) (f : A → A) (xs : List A)
      → ((x : A) → q x ≡ true → p (f x) ≡ true → p x ≡ true)
      → count_where p (update_where q f xs) ≤ count_where p xs
  unfolding count_where update_where
  count_where-update_where-found p q f [] h = omega arith
  count_where-update_where-found p q f (x ∷ xs) h =
      ground (arith, h x, count_where-update_where-found p q f xs h)

  -- The found row counted, and after the update of its like it does not.
  pub count_where-update_where-lt :
      (p q r : A → Bool) (f : A → A) (xs : List A) (a : A)
      → ((x : A) → p (f x) ≡ false)
      → find_first r xs ≡ some a
      → p a ≡ true
      → q a ≡ true
      → count_where p (update_where q f xs) + 1 ≤ count_where p xs
  unfolding find_first count_where update_where
  count_where-update_where-lt p q r f [] a off h pa qa = absurd (ground arith)
  count_where-update_where-lt p q r f (x ∷ xs) a off h pa qa = ground (
    arith,
    off x,
    count_where-update_where-lt p q r f xs a off,
    count_where-update_where-le p q f xs (λ (y : A) (e : p (f y) ≡ true). cc (off y)),
  )

  -- Rows that an update turns off are no longer counted.
  pub count_where-update_where-zero :
      (p q : A → Bool) (f : A → A) (xs : List A)
      → ((x : A) → p x ≡ true → q x ≡ true)
      → ((x : A) → p (f x) ≡ false)
      → count_where p (update_where q f xs) ≡ 0
  unfolding count_where update_where
  count_where-update_where-zero p q f [] on off = refl
  count_where-update_where-zero p q f (x ∷ xs) on off =
      ground (arith, on x, off x, count_where-update_where-zero p q f xs on off)

  -- What an update makes of the row that a query finds, where it keeps what the query asks for.
  pub find_first-update_where :
      (p q : A → Bool) (f : A → A) (xs : List A)
      → ((x : A) → p (f x) ≡ p x)
      → {a : A} → find_first p xs ≡ some a
      → find_first p (update_where q f xs) ≡ some (if q a then f a else a)
  unfolding find_first update_where
  find_first-update_where p q f [] keep h = absurd (ground arith)
  find_first-update_where p q f (x ∷ xs) keep {a} h = elim (Bool-cases (p x)) [
    | inl e ↦
        subst (λ y. find_first p (update_where q f (x ∷ xs)) ≡ some (if q y then f y else y))
          (some-injective x a (rw e at h)) (ground (arith, keep x))
    | inr e ↦ ground (arith, keep x, find_first-update_where p q f xs keep (rw e at h))
  ]

  pub length-update_where :
      (q : A → Bool) (f : A → A) (xs : List A) → length (update_where q f xs) ≡ length xs
  unfolding update_where
  length-update_where q f [] = refl
  length-update_where q f (x ∷ xs) = ground (arith, length-update_where q f xs)

  -- A row that is found and counts makes the count positive.
  pub count_where-ne-zero :
      (p r : A → Bool) (xs : List A) (a : A)
      → find_first r xs ≡ some a
      → p a ≡ true
      → count_where p xs ≢ 0
  unfolding find_first count_where
  count_where-ne-zero p r [] a h pa = λ _. absurd (ground arith)
  count_where-ne-zero p r (x ∷ xs) a h pa = elim (Bool-cases (r x)) [
    | inl e ↦ ground (arith, some-injective x a (rw e at h))
    | inr e ↦ ground (arith, count_where-ne-zero p r xs a (rw e at h) pa)
  ]

  pub any_where-snoc :
      (q : A → Bool) (xs : List A) (x : A) → any_where q (xs ++ x ∷ []) ≡ (any_where q xs || q x)
  unfolding any_where
  any_where-snoc q [] x = ground arith
  any_where-snoc q (y ∷ xs) x = ground (arith, any_where-snoc q xs x)

  pub any_where-weaken :
      (q r : A → Bool) (xs : List A)
      → ((x : A) → q x ≡ true → r x ≡ true)
      → any_where q xs ≡ true
      → any_where r xs ≡ true
  unfolding any_where
  any_where-weaken q r [] h e = absurd (ground arith)
  any_where-weaken q r (x ∷ xs) h e = ground (arith, h x, any_where-weaken q r xs h)

module _ {ℓ κ} {A : Type ℓ} (P : A → Type κ) where
  pub All-append : (xs ys : List A) → All P xs → All P ys → All P (xs ++ ys)
  All-append [] ys a b = b
  All-append (x ∷ xs) ys a b = (a.0, All-append xs ys a.1 b)

  pub All-update_where :
      (q : A → Bool) (f : A → A) (xs : List A)
      → ((x : A) → P x → P (f x))
      → All P xs
      → All P (update_where q f xs)
  unfolding update_where
  All-update_where q f [] keep a = tt
  All-update_where q f (x ∷ xs) keep a = (at_head (q x), All-update_where q f xs keep a.1)
    where
      at_head : (b : Bool) → P (if b then f x else x)
      at_head true = keep x a.0
      at_head false = a.0

  pub All-delete_where : (q : A → Bool) (xs : List A) → All P xs → All P (delete_where q xs)
  unfolding delete_where
  All-delete_where q [] a = tt
  All-delete_where q (x ∷ xs) a = at_head (q x) (All-delete_where q xs a.1)
    where
      at_head :
          (b : Bool)
          → All P (delete_where q xs)
          → All P (if b then delete_where q xs else x ∷ delete_where q xs)
      at_head true kept = kept
      at_head false kept = (a.0, kept)

pub length-append {ℓ} : {A : Type ℓ} (xs ys : List A) → length (xs ++ ys) ≡ length xs + length ys
length-append [] ys = omega arith
length-append (x ∷ xs) ys = omega (arith, length-append xs ys)
