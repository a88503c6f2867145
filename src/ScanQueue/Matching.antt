-- ===== src/ScanQueue/Matching.antt =====
-- The map and the channel of backend/handlers/scan_queue.go keep to each other, however the callers
-- and the workers interleave.
use commitkube.Base.{
  ℕ, ◌+◌, ◌≤◌, ◌≡◌, refl, ◌∙◌, ap, String, Bool, true, false, List, [], ◌∷◌, ◌++◌, ◌=s◌,
  if◌then◌else◌, ltb, length, any_where, delete_where, count_where, count_where-append,
  length-append, arith, eq_iff,
}
use commitkube.ScanQueue.Job.{Job, job_key}
use commitkube.ScanQueue.Queue.{
  Queue, ask, send, receive, begin_scan, mark_attempt, is_queued, unmark,
}

abbrev pub has_key : String → Job → Bool
has_key k j = job_key j =s k

-- The jobs of a key, wherever they are between the mark and its end.
abbrev pub jobs_of : String → Queue → ℕ
jobs_of k q =
    count_where (has_key k) q.entering
    + (count_where (has_key k) q.waiting + count_where (has_key k) q.leaving)

-- A key is marked as often as there are jobs of it, which is once at most, and the channel holds no
-- more than its capacity.
pub record IsMatched (q : Queue) : Type 0 where
  pub marked : (k : String) → count_where (λ m. m =s k) q.queued ≡ jobs_of k q
  pub single : (k : String) → jobs_of k q ≤ 1
  pub bounded : length q.waiting ≤ q.depth

-- What the callers of `EnqueueScan` and the workers do, one lock or one channel operation at a time.
pub data Step (q : Queue) : Queue → Type 0 where
  asking : (j : Job) → Step q (ask j q)
  sending :
      (before after : List Job) (j : Job)
      → q.entering ≡ before ++ j ∷ after
      → Step q (send j (before ++ after) q)
  receiving : (j : Job) (rest : List Job) → q.waiting ≡ j ∷ rest → Step q (receive j rest q)
  beginning :
      (now : ℕ) (before after : List Job) (j : Job)
      → q.leaving ≡ before ++ j ∷ after
      → Step q (begin_scan now j (before ++ after) q)

pub data Reach (q : Queue) : Queue → Type 0 where
  here : Reach q q
  next : {r s : Queue} → Reach q r → Step r s → Reach q s

count_where-unmark :
    (k key : String) (ks : List String)
    → count_where (λ m. m =s k) (unmark key ks)
      ≡ (if key =s k then 0 else count_where (λ m. m =s k) ks)
unfolding count_where delete_where
count_where-unmark k key [] = ground arith
count_where-unmark k key (m ∷ ks) =
    ground (arith, count_where-unmark k key ks, eq_iff m key, eq_iff key k, eq_iff m k)

not_queued :
    (k : String) (ks : List String) → is_queued k ks ≡ false → count_where (λ m. m =s k) ks ≡ 0
unfolding any_where count_where
not_queued k [] h = refl
not_queued k (m ∷ ks) h = ground (arith, not_queued k ks)

-- Taking one job out of a list.
count_where-taken :
    (k : String) (before after : List Job) (j : Job)
    → count_where (has_key k) (before ++ j ∷ after)
      ≡ (if has_key k j then 1 else 0) + count_where (has_key k) (before ++ after)
unfolding count_where
count_where-taken k [] after j = refl
count_where-taken k (i ∷ before) after j = ground (arith, count_where-taken k before after j)

ask-IsMatched : (j : Job) (q : Queue) → IsMatched q → IsMatched (ask j q)
unfolding ask count_where
ask-IsMatched j q i = at_head (j.repo =s "") (is_queued (job_key j) q.queued) refl
  where
    marked_queue : Queue
    marked_queue = record q { queued = job_key j ∷ q.queued; entering = j ∷ q.entering }

    at_head :
        (b c : Bool)
        → is_queued (job_key j) q.queued ≡ c
        → IsMatched (if b then q else if c then q else marked_queue)
    at_head true c e = i
    at_head false true e = i
    at_head false false e = record {
      marked = λ k. ground (arith, i.marked k);
      single = λ k.
          ground (
            arith,
            i.single k,
            i.marked k,
            not_queued (job_key j) q.queued e,
            eq_iff (job_key j) k,
          );
      bounded = i.bounded;
    }

send-IsMatched :
    (before after : List Job) (j : Job) (q : Queue)
    → q.entering ≡ before ++ j ∷ after
    → IsMatched q
    → IsMatched (send j (before ++ after) q)
unfolding send count_where
send-IsMatched before after j q e i = at_head (ltb (length q.waiting) q.depth) refl
  where
    entering :
        (k : String)
        → count_where (has_key k) q.entering
          ≡ (if has_key k j then 1 else 0) + count_where (has_key k) (before ++ after)
    entering k = ap (count_where (has_key k)) e ∙ count_where-taken k before after j

    at_head :
        (b : Bool)
        → ltb (length q.waiting) q.depth ≡ b
        → IsMatched (
            if b
            then record q { waiting = q.waiting ++ j ∷ []; entering = before ++ after }
            else record q { queued = unmark (job_key j) q.queued; entering = before ++ after })
    at_head true h = record {
      marked = λ k.
          ground (arith, i.marked k, entering k, count_where-append (has_key k) q.waiting (j ∷ []));
      single = λ k.
          ground (arith, i.single k, entering k, count_where-append (has_key k) q.waiting (j ∷ []));
      bounded = ground (arith, length-append q.waiting (j ∷ []), i.bounded);
    }
    at_head false h = record {
      marked = λ k.
          ground
            (arith, i.marked k, i.single k, entering k, count_where-unmark k (job_key j) q.queued);
      single = λ k. ground (arith, i.single k, entering k);
      bounded = i.bounded;
    }

receive-IsMatched :
    (j : Job) (rest : List Job) (q : Queue)
    → q.waiting ≡ j ∷ rest
    → IsMatched q
    → IsMatched (receive j rest q)
unfolding receive count_where
receive-IsMatched j rest q e i = record {
  marked = λ k. ground (arith, i.marked k, ap (count_where (has_key k)) e);
  single = λ k. ground (arith, i.single k, ap (count_where (has_key k)) e);
  bounded = ground (arith, i.bounded, ap length e);
}

begin_scan-IsMatched :
    (now : ℕ) (before after : List Job) (j : Job) (q : Queue)
    → q.leaving ≡ before ++ j ∷ after
    → IsMatched q
    → IsMatched (begin_scan now j (before ++ after) q)
unfolding begin_scan mark_attempt
begin_scan-IsMatched now before after j q e i = record {
  marked = λ k.
      ground (arith, i.marked k, i.single k, leaving k, count_where-unmark k (job_key j) q.queued);
  single = λ k. ground (arith, i.single k, leaving k);
  bounded = i.bounded;
}
  where
    leaving :
        (k : String)
        → count_where (has_key k) q.leaving
          ≡ (if has_key k j then 1 else 0) + count_where (has_key k) (before ++ after)
    leaving k = ap (count_where (has_key k)) e ∙ count_where-taken k before after j

Step-IsMatched : {q r : Queue} → Step q r → IsMatched q → IsMatched r
Step-IsMatched {q} (asking j) = ask-IsMatched j q
Step-IsMatched {q} (sending before after j e) = send-IsMatched before after j q e
Step-IsMatched {q} (receiving j rest e) = receive-IsMatched j rest q e
Step-IsMatched {q} (beginning now before after j e) = begin_scan-IsMatched now before after j q e

-- From a queue in which every mark has its one job, whatever the order in which callers and
-- workers take the lock and the channel, a key is marked exactly while there is a job of it, of
-- which there is one at most, and the channel keeps to its capacity.
pub Reach-IsMatched : {q r : Queue} → Reach q r → IsMatched q → IsMatched r
Reach-IsMatched here i = i
Reach-IsMatched (next run step) i = Step-IsMatched step (Reach-IsMatched run i)
