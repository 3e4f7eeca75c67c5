-- ===== src/Worker/Whole.antt =====
-- The parts of processJob as the places where it can be interrupted divide it.
use ilove_convertion.Base.{ℕ, ◌≡◌, refl, Bool, List, [], ◌∷◌, Str, codes, if◌then◌else◌}
use ilove_convertion.Models.{Status, pending, processing, completed, failed, Job}
use ilove_convertion.Crypto.{derive_key}
use ilove_convertion.Database.{Found, row, no_rows, db_error, get_job, update_job_started}
use ilove_convertion.Queue.{job, timed_out, dequeue_error, dequeue}
use ilove_convertion.World.{World, Platform}
use ilove_convertion.Worker.{
  WorkerConfig, Dispatch, JobEvents, fail_job, process_job, fetched, by_status, start_job, with_key,
  run_round, after_dequeue, run,
}

module _ (p : Platform) (cfg : WorkerConfig) (dispatch : Dispatch) (ev : JobEvents) where
  -- From the row on, by its status.
  abbrev pub status_row : Str → World → Job → Status → World
  status_row id w j pending =
      let w' : World = record w {
        jobs = (update_job_started p.canon ev.start w.now id w.jobs).0;
      } in
      if (update_job_started p.canon ev.start w.now id w.jobs).1
      then with_key p cfg dispatch ev id j w' (derive_key p.hkdf cfg.master_key id)
      else w'
  status_row id w j processing = w
  status_row id w j completed = w
  status_row id w j failed = w

  abbrev pub from_row : Str → World → Found → World
  from_row id w (row j) = status_row id w j j.status
  from_row id w no_rows = w
  from_row id w db_error = w

  by_status_lem :
      (id : Str) (j : Job) (w : World) (st : Status)
      → by_status p cfg dispatch ev id j w st ≡ status_row id w j st
  unfolding by_status start_job
  by_status_lem id j w pending = refl
  by_status_lem id j w processing = refl
  by_status_lem id j w completed = refl
  by_status_lem id j w failed = refl

  fetched_lem :
      (id : Str) (w : World) (f : Found) → fetched p cfg dispatch ev id w f ≡ from_row id w f
  unfolding fetched
  fetched_lem id w (row j) = by_status_lem id j w j.status
  fetched_lem id w no_rows = refl
  fetched_lem id w db_error = refl

  pub process_job-from_row :
      (id : Str) (w : World)
      → process_job p cfg dispatch ev id w ≡ (
          if ev.make_tmp
          then from_row id w (get_job p.canon ev.reached id w.jobs)
          else fail_job p cfg dispatch ev.fail id
              (codes "Internal error: failed to create temp directory")
              w)
  unfolding process_job
  process_job-from_row id w = rw (fetched_lem id w (get_job p.canon ev.reached id w.jobs)) refl

  -- A round of run, by what the queue gives.
  pub round_timed_out :
      (reached : Bool) (w : World) (q : List Str)
      → dequeue reached w.queue ≡ (q, timed_out)
      → run_round p cfg dispatch reached ev w ≡ w
  unfolding run_round after_dequeue
  round_timed_out reached w q e = rw e refl

  pub round_error :
      (reached : Bool) (w : World) (q : List Str)
      → dequeue reached w.queue ≡ (q, dequeue_error)
      → run_round p cfg dispatch reached ev w ≡ w
  unfolding run_round after_dequeue
  round_error reached w q e = rw e refl

  pub round_empty :
      (reached : Bool) (w : World) (q : List Str)
      → dequeue reached w.queue ≡ (q, job [])
      → run_round p cfg dispatch reached ev w ≡ record w { queue = q }
  unfolding run_round after_dequeue
  round_empty reached w q e = rw e refl

  pub round_job :
      (reached : Bool) (w : World) (q : List Str) (c : ℕ) (id : Str)
      → dequeue reached w.queue ≡ (q, job (c ∷ id))
      → run_round p cfg dispatch reached ev w
        ≡ process_job p cfg dispatch ev (c ∷ id) (record w { queue = q })
  unfolding run_round after_dequeue
  round_job reached w q c id e = rw e refl

module _ (p : Platform) (cfg : WorkerConfig) (dispatch : Dispatch) where
  pub run_nil : (w : World) → run p cfg dispatch [] w ≡ w
  unfolding run
  run_nil w = refl

  pub run_cons :
      (reached : Bool) (ev : JobEvents) (rounds : List (Bool × JobEvents)) (w : World)
      → run p cfg dispatch ((reached, ev) ∷ rounds) w
        ≡ run p cfg dispatch rounds (run_round p cfg dispatch reached ev w)
  unfolding run
  run_cons reached ev rounds w = refl
