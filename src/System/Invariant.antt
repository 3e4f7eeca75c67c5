-- ===== src/System/Invariant.antt =====
-- The invariant of the states of the system.
use ilove_convertion.Base.{
  ◌+◌, ◌≤◌, ◌≡◌, refl, ◌⊎◌, inl, inr, some, List, ◌∷◌, ◌++◌, Str, str_eq, count, count-append,
  if◌then◌else◌, arith,
}
use ilove_convertion.Models.{completed, Job}
use ilove_convertion.Database.{find_job}
use ilove_convertion.Database.Counts.{ids}
use ilove_convertion.World.{Platform}
use ilove_convertion.System.{Task, task_id, task_ids, State, active}
use ilove_convertion.System.Handlers.{task_ids-append}

pub record Inv (p : Platform) (s : State) : Type 0 where
  pub once : (k : Str) → count k (active s) ≤ 1
  pub settled :
      (k : Str) (j : Job)
      → find_job k s.world.jobs ≡ some j
      → j.status ≡ completed
      → count k (active s) ≡ 0
  pub unique : (k : Str) → count k (ids s.world.jobs) ≤ 1
  pub canonical : (k : Str) → 1 ≤ count k (active s) + count k s.unsure → p.canon k ≡ k

-- The invariant from what a step does to the ids in hand and to the rows.
pub Inv-shrunk :
    (p : Platform) (s u : State)
    → Inv p s
    → ((k : Str) → count k (active u) ≤ count k (active s))
    → ((k : Str) (j : Job)
        → find_job k u.world.jobs ≡ some j
        → j.status ≡ completed
        → (find_job k s.world.jobs ≡ some j) ⊎ (count k (active u) ≡ 0))
    → ((k : Str) → count k (ids u.world.jobs) ≤ count k (ids s.world.jobs))
    → ((k : Str)
        → 1 ≤ count k (active u) + count k u.unsure
        → 1 ≤ count k (active s) + count k s.unsure)
    → Inv p u
Inv-shrunk p s u i fewer rows table known = record {
  once = λ k. omega (arith, fewer k, i.once k);
  settled = λ k j found done. elim (rows k j found done) [
    | inl old ↦ omega (arith, fewer k, i.settled k j old done)
    | inr gone ↦ gone
  ];
  unique = λ k. omega (arith, table k, i.unique k);
  canonical = λ k h. i.canonical k (known k h);
}

-- The same, where no worker is newly unsure.
pub Inv-kept :
    (p : Platform) (s u : State)
    → Inv p s
    → ((k : Str) → count k (active u) ≤ count k (active s))
    → ((k : Str) (j : Job)
        → find_job k u.world.jobs ≡ some j
        → j.status ≡ completed
        → (find_job k s.world.jobs ≡ some j) ⊎ (count k (active u) ≡ 0))
    → ((k : Str) → count k (ids u.world.jobs) ≤ count k (ids s.world.jobs))
    → ((k : Str) → count k u.unsure ≤ count k s.unsure)
    → Inv p u
Inv-kept p s u i fewer rows table late =
    Inv-shrunk p s u i fewer rows table (λ k h. omega (arith, h, fewer k, late k))

pub count_held :
    (k : Str) (before after : List Task) (t : Task)
    → count k (task_ids (before ++ t ∷ after))
      ≡ count k (task_ids before)
        + ((if str_eq k (task_id t) then 1 else 0) + count k (task_ids after))
count_held k before after t =
    rw (task_ids-append before (t ∷ after), count-append k (task_ids before) (task_ids (t ∷ after)))
      refl
