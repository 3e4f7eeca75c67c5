-- ===== src/System/Handlers.antt =====
-- The steps of the system, seen from one id.
use ilove_convertion.Base.{
  ◌+◌, ◌≡◌, refl, ap, ◌⊎◌, inl, inr, some, List, [], ◌∷◌, ◌++◌, Str, codes, str_eq, count,
  count-append, if◌then◌else◌, Bool-cases, arith,
}
use ilove_convertion.Models.{Status, pending, processing, completed, failed, Job}
use ilove_convertion.Crypto.{derive_key}
use ilove_convertion.Database.{Found, row, no_rows, db_error, update_job_started}
use ilove_convertion.Queue.{pop_right}
use ilove_convertion.Queue.Order.{pop_right_inv}
use ilove_convertion.World.{World, Platform, ApiConfig}
use ilove_convertion.Worker.{WorkerConfig, Dispatch, JobEvents}
use ilove_convertion.Worker.Effects.{Elsewhere, Elsewhere_refl, IsOpen}
use ilove_convertion.Worker.Locality.{
  fail_job-Ends, with_key-Ends, update_job_started-Elsewhere, update_job_started-IsOpen,
}
use ilove_convertion.System.{
  pushed, Task, popped, read_row, running, task_id, task_ids, if_pending, if_found, advance,
}

pub task_ids-append : (xs ys : List Task) → task_ids (xs ++ ys) ≡ task_ids xs ++ task_ids ys
task_ids-append [] ys = refl
task_ids-append (x ∷ xs) ys = ap (λ l. task_id x ∷ l) (task_ids-append xs ys)

-- A worker's step on the job of an id: it keeps hold of the open job, or lets it go.
abbrev pub Lets : Str → World → World × List Task → Type 0
Lets id w (w', ts) =
    Elsewhere id w w'
    × (((task_ids ts ≡ id ∷ []) × (w'.queue ≡ w.queue) × IsOpen id w')
        ⊎ ((task_ids ts ≡ [])
            × ((w'.queue ≡ w.queue) ⊎ ((w'.queue ≡ w.queue ++ id ∷ []) × IsOpen id w'))))

module _ (p : Platform) (api : ApiConfig) (cfg : WorkerConfig) (dispatch : Dispatch)
    (ev : JobEvents) where
  dropped : (id : Str) (w : World) → Lets id w (w, [])
  dropped id w = (Elsewhere_refl id w, inr (refl, inl refl))

  if_pending_lem :
      (id : Str) (j : Job) (w : World) (st : Status)
      → IsOpen id w
      → Lets id w (if_pending p api cfg dispatch id j w st)
  unfolding if_pending
  if_pending_lem id j w pending h = (Elsewhere_refl id w, inl (refl, refl, h))
  if_pending_lem id j w processing h = dropped id w
  if_pending_lem id j w completed h = dropped id w
  if_pending_lem id j w failed h = dropped id w

  if_found_lem :
      (id : Str) (w : World) (f : Found)
      → IsOpen id w
      → Lets id w (if_found p api cfg dispatch id w f)
  unfolding if_found
  if_found_lem id w (row j) h = if_pending_lem id j w j.status h
  if_found_lem id w no_rows h = dropped id w
  if_found_lem id w db_error h = dropped id w

  pub advance-Lets :
      (t : Task) (w : World)
      → p.canon (task_id t) ≡ task_id t
      → IsOpen (task_id t) w
      → Lets (task_id t) w (advance p api cfg dispatch ev t w)
  unfolding advance
  advance-Lets (popped id) w canon h = elim (Bool-cases ev.make_tmp) [
    | inl t ↦ rw t (if_found_lem id w _ h)
    | inr f ↦ rw f (
        let e =
          fail_job-Ends p cfg dispatch id canon ev.fail
            (codes "Internal error: failed to create temp directory") w in
        (e.0, inr (refl, e.1)))
  ]
  advance-Lets (read_row id j) w canon h =
      (update_job_started-Elsewhere p cfg dispatch id canon ev.start w, held)
    where
      next : World
      next = record w { jobs = (update_job_started p.canon ev.start w.now id w.jobs).0 }

      held :
          ((task_ids (
                if (update_job_started p.canon ev.start w.now id w.jobs).1
                then running id j ∷ []
                else [])
              ≡ id ∷ [])
            × (w.queue ≡ w.queue)
            × IsOpen id next)
          ⊎ ((task_ids (
                  if (update_job_started p.canon ev.start w.now id w.jobs).1
                  then running id j ∷ []
                  else [])
                ≡ [])
              × ((w.queue ≡ w.queue) ⊎ ((w.queue ≡ w.queue ++ id ∷ []) × IsOpen id next)))
      held = elim (Bool-cases (update_job_started p.canon ev.start w.now id w.jobs).1) [
        | inl t ↦
            inl (rw t refl, refl, update_job_started-IsOpen p cfg dispatch id canon ev.start w h)
        | inr f ↦ inr (rw f refl, inl refl)
      ]
  advance-Lets (running id j) w canon h =
      let e =
        with_key-Ends p cfg dispatch id canon (pushed ev) j w
          (derive_key p.hkdf cfg.master_key id) in
      (e.0, inr (refl, e.1))

-- An id moves from the queue to a worker: no id becomes more frequent.
pub pop_right-count :
    (k x : Str) (q rest : List Str)
    → pop_right q ≡ some (x, rest)
    → count k q ≡ count k rest + (if str_eq k x then 1 else 0)
pop_right-count k x q rest e =
    rw (pop_right_inv q x rest e, count-append k rest (x ∷ [])) (omega arith)
