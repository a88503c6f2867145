-- ===== src/Findings/Chunks.antt =====
-- The lists of keys that a scan writes to are cut in chunks: chunkIDs of
-- backend/handlers/scan_findings.go, and the writes of its chunks.
use commitkube.Base.{
  ℕ, ◌+◌, ◌-◌, ◌≤◌, ◌<◌, ◌≡◌, refl, ap, ap₂, List, [], ◌∷◌, ◌++◌, ltb, ◌||◌, length, update_where,
  any_where, All, arith, zero, suc, Bool-cases, inl, inr, ◌∙◌,
}
use commitkube.Findings.Table.{
  Row, take, drop, chunk_loop, chunk_ids, is_among, mem_id, update_chunks,
}

abbrev pub concat : List (List ℕ) → List ℕ
concat [] = []
concat (c ∷ cs) = c ++ concat cs

take-drop : (n : ℕ) (ids : List ℕ) → take n ids ++ drop n ids ≡ ids
unfolding take drop
take-drop zero ids = refl
take-drop (suc n) [] = refl
take-drop (suc n) (i ∷ ids) = ap (λ is. i ∷ is) (take-drop n ids)

length-take : (n : ℕ) (ids : List ℕ) → n ≤ length ids → length (take n ids) ≡ n
unfolding take
length-take zero ids h = refl
length-take (suc n) [] h = absurd (ground arith)
length-take (suc n) (i ∷ ids) h = omega (arith, length-take n ids (omega arith))

length-drop : (n : ℕ) (ids : List ℕ) → length (drop n ids) ≡ length ids - n
unfolding drop
length-drop zero ids = omega arith
length-drop (suc n) [] = omega arith
length-drop (suc n) (i ∷ ids) = omega (arith, length-drop n ids)

append_nil : (ids : List ℕ) → ids ++ [] ≡ ids
append_nil [] = refl
append_nil (i ∷ ids) = ap (λ is. i ∷ is) (append_nil ids)

empty-length : (ids : List ℕ) → length ids < 1 → [] ≡ ids
empty-length [] h = refl
empty-length (i ∷ ids) h = absurd (omega arith)

chunk_loop-concat :
    (fuel : ℕ) (ids : List ℕ) (size : ℕ)
    → 0 < size
    → length ids < fuel
    → concat (chunk_loop fuel ids size) ≡ ids
unfolding chunk_loop
chunk_loop-concat zero ids size pos enough = absurd (omega arith)
chunk_loop-concat (suc fuel) ids size pos enough = elim (Bool-cases (ltb size (length ids))) [
  | inl e ↦ rw e (
      ap (λ is. take size ids ++ is)
        (chunk_loop-concat fuel (drop size ids) size pos (ground (arith, length-drop size ids)))
      ∙ take-drop size ids)
  | inr e ↦ elim (Bool-cases (ltb 0 (length ids))) [
    | inl f ↦ rw e (rw f (append_nil ids))
    | inr f ↦ rw e (rw f (empty-length ids (ground arith)))
  ]
]

abbrev pub IsChunk : ℕ → List ℕ → Type 0
IsChunk size c = (0 < length c) × (length c ≤ size)

chunk_loop-IsChunk :
    (fuel : ℕ) (ids : List ℕ) (size : ℕ) → 0 < size → All (IsChunk size) (chunk_loop fuel ids size)
unfolding chunk_loop
chunk_loop-IsChunk zero ids size pos = tt
chunk_loop-IsChunk (suc fuel) ids size pos = elim (Bool-cases (ltb size (length ids))) [
  | inl e ↦ rw e (
    (ground (arith, length-take size ids), ground (arith, length-take size ids)),
    chunk_loop-IsChunk fuel (drop size ids) size pos,
  )
  | inr e ↦ elim (Bool-cases (ltb 0 (length ids))) [
    | inl f ↦ rw e (rw f ((ground arith, ground arith), tt))
    | inr f ↦ rw e (rw f tt)
  ]
]

-- For a positive size the loop that cuts a list of keys ends: its chunks, in order, are the list,
-- and each has at least one key and at most the size.
pub chunk_ids-chunks :
    (ids : List ℕ) (size : ℕ)
    → 0 < size
    → (concat (chunk_ids ids size) ≡ ids) × All (IsChunk size) (chunk_ids ids size)
unfolding chunk_ids
chunk_ids-chunks ids size pos = (
  chunk_loop-concat (length ids + 1) ids size pos (omega arith),
  chunk_loop-IsChunk (length ids + 1) ids size pos,
)

mem_id-append : (k : ℕ) (is js : List ℕ) → mem_id k (is ++ js) ≡ (mem_id k is || mem_id k js)
unfolding any_where
mem_id-append k [] js = refl
mem_id-append k (i ∷ is) js = ground (arith, mem_id-append k is js)

module _ (change : Row → Row) (same_id : (r : Row) → (change r).id ≡ r.id)
    (once : (r : Row) → change (change r) ≡ change r) where
  update_where-twice :
      (is js : List ℕ) (rows : List Row)
      → update_where (is_among js) change (update_where (is_among is) change rows)
        ≡ update_where (is_among (is ++ js)) change rows
  unfolding update_where
  update_where-twice is js [] = refl
  update_where-twice is js (r ∷ rows) =
      ap₂ (λ x xs. x ∷ xs)
        (elim (Bool-cases (mem_id r.id is)) [
          | inl e ↦ ground (arith, e, once r, same_id r, mem_id-append r.id is js)
          | inr e ↦ ground (arith, e, mem_id-append r.id is js)
        ])
        (update_where-twice is js rows)

  update_where-none : (rows : List Row) → rows ≡ update_where (is_among []) change rows
  unfolding update_where any_where
  update_where-none [] = refl
  update_where-none (r ∷ rows) = ap (λ rs. r ∷ rs) (update_where-none rows)

  pub update_chunks-concat :
      (chunks : List (List ℕ)) (rows : List Row)
      → update_chunks change chunks rows ≡ update_where (is_among (concat chunks)) change rows
  unfolding update_chunks
  update_chunks-concat [] rows = update_where-none rows
  update_chunks-concat (is ∷ chunks) rows =
      update_chunks-concat chunks (update_where (is_among is) change rows)
      ∙ update_where-twice is (concat chunks) rows
