-- ===== src/Queue.antt =====
-- internal/queue/queue.go: the Redis list of pending jobs, from its left end to its right.
pub mod Order
use ilove_convertion.Base.{
  ℕ, suc, Bool, Option, none, some, List, [], ◌∷◌, ◌++◌, Str, codes, if◌then◌else◌,
}
use ilove_convertion.Database.{Call, perform}

abbrev pub queue_key : Str
queue_key = codes "fileforge:jobs:pending"

-- LPUSH
unfoldable pub enqueue : Call → Str → List Str → List Str × Bool
enqueue c job_id q = perform c q (job_id ∷ q)

-- RPUSH
unfoldable pub requeue : Call → Str → List Str → List Str × Bool
requeue c job_id q = perform c q (q ++ job_id ∷ [])

-- The element that BRPOP takes, and the list without it.
unfoldable pub pop_right : List Str → Option (Str × List Str)
pop_right [] = none
pop_right (x ∷ xs) = elim (pop_right xs) [ none ↦ some (x, []) | some (y, ys) ↦ some (y, x ∷ ys) ]

-- Dequeue: an error, or the text of a job id, which is "" if the wait timed out.
pub data Dequeued : Type 0 where
  job : Str → Dequeued
  timed_out dequeue_error : Dequeued

pub popped : List Str → Option (Str × List Str) → List Str × Dequeued
popped q none = (q, timed_out)
popped q (some (y, ys)) = (ys, job y)

-- BRPOP is answered or does not reach Redis. A reply that is lost on its way back takes the id off
-- the list, which nothing then holds, as a worker does that is killed with the id in hand.
unfoldable pub dequeue : Bool → List Str → List Str × Dequeued
unfolding popped
dequeue reached q = let r = popped q (pop_right q) in if reached then r else (q, dequeue_error)

unfoldable pub queue_length : List Str → ℕ
queue_length [] = 0
queue_length (_ ∷ q) = suc (queue_length q)
