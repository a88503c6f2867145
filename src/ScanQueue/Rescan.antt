-- ===== src/ScanQueue/Rescan.antt =====
-- `EnqueueScan` run through, and `PollRescans`: backend/handlers/scan_queue.go.
use commitkube.Base.{
  ◌||◌, ℕ, ◌-◌, ◌+◌, String, Bool, true, Option, none, some, List, [], ◌∷◌, leb, ◌=s◌,
  if◌then◌else◌,
}
use commitkube.ScanQueue.Job.{Mode, full, image, Job, job_key}
use commitkube.ScanQueue.Queue.{Queue, ask, send, is_queued, attempted_since}

-- `EnqueueScan` with no other caller between the lock and the channel.
unfoldable pub enqueue_scan : Job → Queue → Queue
enqueue_scan j q =
    if j.repo =s "" || is_queued (job_key j) q.queued then q else send j q.entering (ask j q)

-- The last row of models.ScanResult of a repository: when its code was scanned, if the row says
-- so, and when the row was written last.
pub record Scan : Type 0 where
  pub code_scanned_at : Option ℕ
  pub updated_at : ℕ

-- The clock, the two ages and the batch, which are set by the environment.
pub record Env : Type 0 where
  pub now : ℕ
  pub image_age : ℕ
  pub full_age : ℕ
  pub batch : ℕ

-- `now.Sub(at) >= age`; the clock does not go back.
abbrev pub is_stale : ℕ → ℕ → ℕ → Bool
is_stale now age at = leb age (now - at)

unfoldable pub code_is_stale : Env → Option ℕ → Bool
code_is_stale e none = true
code_is_stale e (some at) = is_stale e.now e.full_age at

-- The `switch` and the branch before it.
unfoldable pub wanted : Env → Option Scan → Option Mode
wanted e none = some full
wanted e (some s) =
    if code_is_stale e s.code_scanned_at
    then some full
    else if is_stale e.now e.image_age s.updated_at
    then some image
    else none

module _ (e : Env) (last_scan : String → Option Scan) where
  -- What one repository asks for: nothing within the window of its last attempt.
  unfoldable pub due : String → List (String × ℕ) → Option Mode
  due repo attempts =
      if attempted_since e.now repo e.image_age attempts then none else wanted e (last_scan repo)

  unfoldable pub serve : String → Option Mode → Queue → Queue
  serve repo none q = q
  serve repo (some m) q = enqueue_scan (record { repo = repo; mode = m }) q

  unfoldable pub one_if_some : Option Mode → ℕ
  one_if_some none = 0
  one_if_some (some m) = 1

  -- The loop of `PollRescans`; `n` is `full+image`.
  unfoldable pub poll : List String → ℕ → Queue → ℕ × Queue
  poll [] n q = (n, q)
  poll (r ∷ rs) n q =
      if leb e.batch n
      then (n, q)
      else poll rs (n + one_if_some (due r q.attempts)) (serve r (due r q.attempts) q)

  unfoldable pub poll_rescans : List String → Queue → ℕ × Queue
  poll_rescans repos q = poll repos 0 q
