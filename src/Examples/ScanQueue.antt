-- ===== src/Examples/ScanQueue.antt =====
-- The queue of backend/handlers/scan_queue.go on a few jobs.
use commitkube.Base.{
  ◌++◌, any_where, ◌≡◌, refl, String, Option, none, some, List, [], ◌∷◌, ◌=s◌, if◌then◌else◌,
  length, arith, count_where,
}
use commitkube.ScanQueue.Job.{full, Job, mode_word}
use commitkube.ScanQueue.Queue.{last_attempt, is_within, attempted_since, Queue, ask, send}
use commitkube.ScanQueue.Matching.{IsMatched, asking, sending, Reach, here, next, Reach-IsMatched}
use commitkube.ScanQueue.Rescan.{code_is_stale, wanted, due, Scan, Env, poll_rescans}
use commitkube.ScanQueue.Batch.{take, requests, enqueue_all, poll_rescans-batch}

abbrev empty : Queue
empty = record { depth = 1; waiting = []; queued = []; entering = []; leaving = []; attempts = [] }

empty-IsMatched : IsMatched empty
unfolding count_where
empty-IsMatched = record { marked = λ k. refl; single = λ k. omega arith; bounded = omega arith }

abbrev shop : Job
shop = record { repo = "shop"; mode = full }

shop_entering : (ask shop empty).entering ≡ [] ++ shop ∷ []
unfolding ask any_where
shop_entering = refl

abbrev asked_twice : Queue
asked_twice = ask shop (send shop ([] ++ []) (ask shop empty))

asked_twice-Reach : Reach empty asked_twice
asked_twice-Reach =
    next (next (next here (asking shop)) (sending [] [] shop shop_entering)) (asking shop)

asked_twice_waits_once : asked_twice.waiting ≡ shop ∷ []
unfolding ask send any_where mode_word
asked_twice_waits_once = refl

Reach-IsMatched_example : IsMatched asked_twice
Reach-IsMatched_example = Reach-IsMatched asked_twice-Reach empty-IsMatched

abbrev hourly : Env
hourly = record { now = 100; image_age = 10; full_age = 70; batch = 2 }

-- "old" has stale code, "fresh" a new row, and the others were never scanned.
abbrev scans : String → Option Scan
scans r =
    if r =s "old"
    then some (record { code_scanned_at = some 5; updated_at = 99 })
    else if r =s "fresh"
    then some (record { code_scanned_at = some 99; updated_at = 99 })
    else none

abbrev repos : List String
repos = "fresh" ∷ "old" ∷ "new" ∷ "newer" ∷ []

poll_rescans-batch_example :
    ((poll_rescans hourly scans repos empty).0 ≡ length (take 2 (requests hourly scans [] repos)))
    × ((poll_rescans hourly scans repos empty).1
        ≡ enqueue_all (take 2 (requests hourly scans [] repos)) empty)
poll_rescans-batch_example = poll_rescans-batch hourly scans repos empty

requests_run :
    requests hourly scans [] repos
    ≡ record { repo = "old"; mode = full }
      ∷ record { repo = "new"; mode = full }
      ∷ record { repo = "newer"; mode = full }
      ∷ []
unfolding requests due attempted_since is_within last_attempt wanted code_is_stale
requests_run = refl
