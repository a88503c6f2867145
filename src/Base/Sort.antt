-- ===== src/Base/Sort.antt =====
-- `sort.SliceStable` as an insertion sort: equal elements keep their order.
use Prim.Native.Nat.{suc, ◌+◌}
use mathlib.Core.Path.{◌≡◌, refl}
use mathlib.Core.Logic.{inl, inr}
use mathlib.Core.Bool.{Bool, true, false}
use mathlib.Core.List.{List, [], ◌∷◌}
use native.Mathlib.Omega.{arith}
use commitkube.Base.Tests.{if◌then◌else◌, Bool-cases}
use commitkube.Base.Rows.{All, count_where, length}

module _ {ℓ} {A : Type ℓ} (less : A → A → Bool) where
  unfoldable pub insert_sorted : A → List A → List A
  insert_sorted x [] = x ∷ []
  insert_sorted x (y ∷ ys) =
      let rest = y ∷ insert_sorted x ys in if less y x then rest else x ∷ y ∷ ys

  unfoldable pub sort_stable : List A → List A
  sort_stable [] = []
  sort_stable (x ∷ xs) = insert_sorted x (sort_stable xs)

  count_where-insert_sorted :
      (p : A → Bool) (x : A) (xs : List A)
      → count_where p (insert_sorted x xs) ≡ (if p x then 1 else 0) + count_where p xs
  unfolding count_where insert_sorted
  count_where-insert_sorted p x [] = refl
  count_where-insert_sorted p x (y ∷ ys) = ground (arith, count_where-insert_sorted p x ys)

  -- Sorting keeps what a list holds, as often.
  pub count_where-sort_stable :
      (p : A → Bool) (xs : List A) → count_where p (sort_stable xs) ≡ count_where p xs
  unfolding count_where sort_stable
  count_where-sort_stable p [] = refl
  count_where-sort_stable p (x ∷ xs) =
      ground (arith, count_where-insert_sorted p x (sort_stable xs), count_where-sort_stable p xs)

  -- No element is less than one before it.
  abbrev pub IsSorted : List A → Type ℓ
  IsSorted [] = Unit
  IsSorted (x ∷ xs) = All (λ y. less y x ≡ false) xs × IsSorted xs

  length-insert_sorted : (x : A) (xs : List A) → length (insert_sorted x xs) ≡ suc (length xs)
  unfolding insert_sorted
  length-insert_sorted x [] = refl
  length-insert_sorted x (y ∷ ys) = ground (arith, length-insert_sorted x ys)

  pub length-sort_stable : (xs : List A) → length (sort_stable xs) ≡ length xs
  unfolding sort_stable
  length-sort_stable [] = refl
  length-sort_stable (x ∷ xs) =
      omega (arith, length-insert_sorted x (sort_stable xs), length-sort_stable xs)

  All-insert_sorted {κ} :
      (P : A → Type κ) (x : A) (xs : List A) → P x → All P xs → All P (insert_sorted x xs)
  unfolding insert_sorted
  All-insert_sorted P x [] p ps = (p, tt)
  All-insert_sorted P x (y ∷ ys) p ps = at_head (less y x) (All-insert_sorted P x ys p ps.1)
    where
      at_head :
          (b : Bool)
          → All P (insert_sorted x ys)
          → All P (if b then y ∷ insert_sorted x ys else x ∷ y ∷ ys)
      at_head true rest = (ps.0, rest)
      at_head false rest = (p, ps)

  pub All-sort_stable {κ} : (P : A → Type κ) (xs : List A) → All P xs → All P (sort_stable xs)
  unfolding sort_stable
  All-sort_stable P [] ps = tt
  All-sort_stable P (x ∷ xs) ps =
      All-insert_sorted P x (sort_stable xs) ps.0 (All-sort_stable P xs ps.1)

  -- `less` is a strict weak order.
  pub record IsOrder : Type ℓ where
    pub asym : (a b : A) → less a b ≡ true → less b a ≡ false
    pub negative : (a b c : A) → less b a ≡ false → less c b ≡ false → less c a ≡ false

  insert_sorted-IsSorted :
      (o : IsOrder) (x : A) (xs : List A) → IsSorted xs → IsSorted (insert_sorted x xs)
  unfolding insert_sorted
  insert_sorted-IsSorted o x [] s = (tt, tt)
  insert_sorted-IsSorted o x (y ∷ ys) s = elim (Bool-cases (less y x)) [
    | inl e ↦ rw e (
      All-insert_sorted (λ z. less z y ≡ false) x ys (o.asym y x e) s.0,
      insert_sorted-IsSorted o x ys s.1,
    )
    | inr e ↦ rw e ((e, All-map ys s.0 e), s)
  ]
    where
      All-map :
          (zs : List A)
          → All (λ z. less z y ≡ false) zs
          → less y x ≡ false
          → All (λ z. less z x ≡ false) zs
      All-map [] a e = tt
      All-map (z ∷ zs) a e = (o.negative x y z e a.0, All-map zs a.1 e)

  -- Sorting by an order sorts.
  pub sort_stable-IsSorted : (o : IsOrder) (xs : List A) → IsSorted (sort_stable xs)
  unfolding sort_stable
  sort_stable-IsSorted o [] = tt
  sort_stable-IsSorted o (x ∷ xs) =
      insert_sorted-IsSorted o x (sort_stable xs) (sort_stable-IsSorted o xs)
