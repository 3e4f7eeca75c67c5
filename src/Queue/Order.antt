-- ===== src/Queue/Order.antt =====
-- The order in which Dequeue gives ids: first in, first out, but a requeued id comes next.
use ilove_convertion.Base.{◌≡◌, refl, ap, true, Option, none, some, List, [], ◌∷◌, ◌++◌, Str}
use ilove_convertion.Database.{answered}
use ilove_convertion.Queue.{enqueue, requeue, pop_right, dequeue, job}

pop_right-concat : (q : List Str) (x : Str) → pop_right (q ++ x ∷ []) ≡ some (x, q)
unfolding pop_right
pop_right-concat [] x = refl
pop_right-concat (y ∷ q) x = rw (pop_right-concat q x)

pub pop_right-none : (q : List Str) → pop_right q ≡ none → q ≡ []
unfolding pop_right
pop_right-none [] e = refl
pop_right-none (y ∷ q) e = by (pop_right q) e
  where
    by :
        (o : Option (Str × List Str))
        → ◌≡◌ {A = Option (Str × List Str)}
            (elim o [ none ↦ some (y, []) | some (z, zs) ↦ some (z, y ∷ zs) ])
            none
        → y ∷ q ≡ []
    by none h = absurd (cc)
    by (some (z, zs)) h = absurd (cc)

-- What pop_right takes stood at the end.
pub pop_right_inv :
    (q : List Str) (x : Str) (rest : List Str) → pop_right q ≡ some (x, rest) → q ≡ rest ++ x ∷ []
unfolding pop_right
pop_right_inv [] x rest e = absurd (cc)
pop_right_inv (y ∷ q) x rest e = by (pop_right q) refl (pop_right_inv q) e
  where
    by :
        (o : Option (Str × List Str))
        → pop_right q ≡ o
        → ((z : Str) (zs : List Str) → pop_right q ≡ some (z, zs) → q ≡ zs ++ z ∷ [])
        → ◌≡◌ {A = Option (Str × List Str)}
            (elim o [ none ↦ some (y, []) | some (z, zs) ↦ some (z, y ∷ zs) ])
            (some (x, rest))
        → y ∷ q ≡ rest ++ x ∷ []
    by none h ih g =
        let ey : y ≡ x = cc in let er : [] ≡ rest = cc in rw (pop_right-none q h, ← er, ← ey) refl
    by (some (z, zs)) h ih g =
        let ez : z ≡ x = cc in
        let er : y ∷ zs ≡ rest = cc in rw (← er, ← ez) (ap (λ l. y ∷ l) (ih z zs h))

-- Answered calls of Enqueue for some ids, one after another.
pub enqueue_all : List Str → List Str → List Str
enqueue_all [] q = q
enqueue_all (x ∷ xs) q = enqueue_all xs (enqueue answered x q).0

enqueue_all-concat :
    (xs q : List Str) (x : Str) → enqueue_all xs (q ++ x ∷ []) ≡ enqueue_all xs q ++ x ∷ []
unfolding enqueue_all enqueue
enqueue_all-concat [] q x = refl
enqueue_all-concat (y ∷ xs) q x = enqueue_all-concat xs (y ∷ q) x

-- With each call answered, ids that are enqueued on an empty queue are dequeued in the same order:
-- the first of them is given, and the queue is then as if only the others had been enqueued. An id
-- that is requeued on any queue is the next one given, and the queue is then as before.
pub dequeue_order :
    (x : Str) (xs q : List Str)
    → (dequeue true (enqueue_all (x ∷ xs) []) ≡ (enqueue_all xs [], job x))
      × (dequeue true (requeue answered x q).0 ≡ (q, job x))
unfolding dequeue requeue
dequeue_order x xs q =
    (rw first (rw (pop_right-concat (enqueue_all xs []) x) refl), rw (pop_right-concat q x) refl)
  where
    first : enqueue_all (x ∷ xs) [] ≡ enqueue_all xs [] ++ x ∷ []
    first = unfold enqueue_all enqueue in enqueue_all-concat xs [] x
