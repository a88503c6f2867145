-- ===== src/ScanQueue/Queue.antt =====
-- The queue of backend/handlers/scan_queue.go: the channel, the set of waiting jobs and the clocks
-- of the last attempts. A step is what one goroutine does under a lock or on the channel.
use commitkube.Base.{
  ℕ, ◌-◌, String, Bool, false, Option, none, some, List, [], ◌∷◌, ◌++◌, ltb, ◌=s◌, if◌then◌else◌,
  length, any_where, delete_where,
}
use commitkube.ScanQueue.Job.{Job, job_key}

-- `waiting` is the channel, oldest first, and `depth` its capacity; `queued` the keys that are true
-- in the map; `entering` the jobs marked there and not yet sent, one for each caller between the
-- lock and the channel; `leaving` the jobs received and not yet unmarked, one for a worker.
pub record Queue : Type 0 where
  pub depth : ℕ
  pub waiting : List Job
  pub queued : List String
  pub entering : List Job
  pub leaving : List Job
  pub attempts : List (String × ℕ)

-- `queued[key]`
abbrev pub is_queued : String → List String → Bool
is_queued k = any_where (λ q. q =s k)

-- `delete(queued, key)`
abbrev pub unmark : String → List String → List String
unmark k = delete_where (λ q. q =s k)

-- The first part of `EnqueueScan`, under the lock.
unfoldable pub ask : Job → Queue → Queue
ask j q =
    if j.repo =s ""
    then q
    else if is_queued (job_key j) q.queued
    then q
    else record q { queued = job_key j ∷ q.queued; entering = j ∷ q.entering }

-- The `select`: the job goes into the channel, or a full channel drops it and its key.
unfoldable pub send : Job → List Job → Queue → Queue
send j rest q =
    if ltb (length q.waiting) q.depth
    then record q { waiting = q.waiting ++ j ∷ []; entering = rest }
    else record q { queued = unmark (job_key j) q.queued; entering = rest }

-- A worker receives the oldest job of the channel.
unfoldable pub receive : Job → List Job → Queue → Queue
receive j rest q = record q { waiting = rest; leaving = j ∷ q.leaving }

-- `lastAttempt[repo] = now`
unfoldable pub put_attempt : String → ℕ → List (String × ℕ) → List (String × ℕ)
put_attempt repo now [] = (repo, now) ∷ []
put_attempt repo now ((r, at) ∷ m) =
    let rest = (r, at) ∷ put_attempt repo now m in if r =s repo then (repo, now) ∷ m else rest

-- `markAttempt`
unfoldable pub mark_attempt : String → ℕ → Queue → Queue
mark_attempt repo now q = record q { attempts = put_attempt repo now q.attempts }

unfoldable pub last_attempt : String → List (String × ℕ) → Option ℕ
last_attempt repo [] = none
last_attempt repo ((r, at) ∷ m) = if r =s repo then some at else last_attempt repo m

unfoldable pub is_within : ℕ → ℕ → Option ℕ → Bool
is_within now window none = false
is_within now window (some at) = ltb (now - at) window

-- `attemptedSince`; the clock does not go back.
unfoldable pub attempted_since : ℕ → String → ℕ → List (String × ℕ) → Bool
attempted_since now repo window attempts = is_within now window (last_attempt repo attempts)

-- What a worker does with a job before it scans: it unmarks the key and notes the attempt.
unfoldable pub begin_scan : ℕ → Job → List Job → Queue → Queue
begin_scan now j rest q =
    mark_attempt j.repo now (record q { queued = unmark (job_key j) q.queued; leaving = rest })
