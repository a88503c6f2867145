-- ===== src/ScanQueue/Batch.antt =====
-- What one pass of `PollRescans` enqueues: backend/handlers/scan_queue.go.
use commitkube.Base.{
  ℕ, zero, suc, ◌+◌, ◌≡◌, refl, subst, String, true, false, Option, none, some, List, [], ◌∷◌, leb,
  length, arith,
}
use commitkube.ScanQueue.Job.{Mode, Job}
use commitkube.ScanQueue.Queue.{Queue, ask, send}
use commitkube.ScanQueue.Rescan.{
  enqueue_scan, Scan, Env, due, serve, one_if_some, poll, poll_rescans,
}

unfoldable pub take {ℓ} : {A : Type ℓ} → ℕ → List A → List A
take n [] = []
take zero (x ∷ xs) = []
take (suc n) (x ∷ xs) = x ∷ take n xs

-- One after another.
unfoldable pub enqueue_all : List Job → Queue → Queue
enqueue_all [] q = q
enqueue_all (j ∷ js) q = enqueue_all js (enqueue_scan j q)

attempts-enqueue_scan : (j : Job) (q : Queue) → (enqueue_scan j q).attempts ≡ q.attempts
unfolding enqueue_scan ask send
attempts-enqueue_scan j q = ground arith

module _ (e : Env) (last_scan : String → Option Scan) where
  abbrev with_due : String → Option Mode → List Job → List Job
  with_due r none js = js
  with_due r (some m) js = record { repo = r; mode = m } ∷ js

  -- The jobs that the repositories ask for, without a cap.
  unfoldable pub requests : List (String × ℕ) → List String → List Job
  requests attempts [] = []
  requests attempts (r ∷ rs) = with_due r (due e last_scan r attempts) (requests attempts rs)

  -- What a pass from a count of `n` does, with `room` left in the batch.
  abbrev Does : ℕ → ℕ → List Job → Queue → ℕ × Queue → Type 0
  Does room n js q p = (p.0 ≡ n + length (take room js)) × (p.1 ≡ enqueue_all (take room js) q)

  -- One repository, with room left.
  Does-serve :
      (r : String) (rs : List String) (room n : ℕ) (q : Queue) (o : Option Mode)
      → ((n' room' : ℕ) (q' : Queue)
          → e.batch ≡ n' + room'
          → q'.attempts ≡ q.attempts
          → Does room' n' (requests q.attempts rs) q' (poll e last_scan rs n' q'))
      → e.batch ≡ n + suc room
      → Does
          (suc room)
          n
          (with_due r o (requests q.attempts rs))
          q
          (poll e last_scan rs (n + one_if_some e last_scan o) (serve e last_scan r o q))
  unfolding take enqueue_all one_if_some serve
  Does-serve r rs room n q none rest h =
      let (count, left) = rest (n + 0) (suc room) q (omega arith) refl in (omega arith, left)
  Does-serve r rs room n q (some m) rest h =
      let j : Job = record { repo = r; mode = m } in
      let (count, left) =
        rest (n + 1) room (enqueue_scan j q) (omega arith) (attempts-enqueue_scan j q) in
      (omega arith, left)

  full_batch : (n : ℕ) → e.batch ≡ n + 0 → leb e.batch n ≡ true
  full_batch n h = ground arith

  room_left : (n room : ℕ) → e.batch ≡ n + suc room → leb e.batch n ≡ false
  room_left n room h = ground arith

  take-zero : (js : List Job) → take 0 js ≡ []
  unfolding take
  take-zero [] = refl
  take-zero (j ∷ js) = refl

  Does-poll :
      (rs : List String) (room n : ℕ) (q : Queue) (attempts : List (String × ℕ))
      → e.batch ≡ n + room
      → q.attempts ≡ attempts
      → Does room n (requests attempts rs) q (poll e last_scan rs n q)
  unfolding poll requests take enqueue_all
  Does-poll [] room n q attempts h same = (omega arith, refl)
  Does-poll (r ∷ rs) zero n q attempts h same =
      rw (take-zero (requests attempts (r ∷ rs))) (rw (full_batch n h) (omega arith, refl))
  Does-poll (r ∷ rs) (suc room) n q attempts h same = rw (room_left n room h) (
      subst
        (λ a. Does (suc room) n (with_due r (due e last_scan r a) (requests a rs)) q (
          poll e last_scan rs (n + one_if_some e last_scan (due e last_scan r q.attempts))
            (serve e last_scan r (due e last_scan r q.attempts) q)))
        same
        (Does-serve r rs room n q (due e last_scan r q.attempts)
          (λ n' room' q' h' same'. Does-poll rs room' n' q' q.attempts h' same') h))

  -- A pass enqueues, in the order of the table, the first jobs of those that the repositories ask
  -- for, as many as the batch allows, and counts them.
  pub poll_rescans-batch :
      (repos : List String) (q : Queue)
      → ((poll_rescans e last_scan repos q).0 ≡ length (take e.batch (requests q.attempts repos)))
        × ((poll_rescans e last_scan repos q).1
            ≡ enqueue_all (take e.batch (requests q.attempts repos)) q)
  unfolding poll_rescans
  poll_rescans-batch repos q =
      let (count, left) = Does-poll repos e.batch 0 q q.attempts (omega arith) refl in
      (omega arith, left)
