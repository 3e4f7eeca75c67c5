-- ===== src/System/Sequential.antt =====
-- A worker that is not interrupted and loses no reply to a requeue does what processJob does in one
-- piece: the runs of the worker on its own are runs of the system.
use ilove_convertion.Base.{
  ℕ, zero, suc, ◌≡◌, ◌≢◌, subst, ap, All, ◌++◌, refl, Bool, true, false, List, [], ◌∷◌, ◌++◌, Str,
  codes, if◌then◌else◌,
}
use ilove_convertion.Models.{Status, pending, processing, completed, failed, Job}
use ilove_convertion.Crypto.{derive_key}
use ilove_convertion.Database.{
  Call, answered, refused, lost, Found, row, no_rows, db_error, get_job, update_job_started,
}
use ilove_convertion.Queue.{Dequeued, job, timed_out, dequeue_error, dequeue}
use ilove_convertion.World.{World, Platform, ApiConfig}
use ilove_convertion.Worker.{
  WorkerConfig, Dispatch, JobEvents, fail_job, with_key, process_job, run_round, run,
}
use ilove_convertion.Worker.Whole.{
  from_row, status_row, process_job-from_row, round_timed_out, round_error, round_empty, round_job,
  run_nil, run_cons,
}
use ilove_convertion.System.{
  pushed, effect_of, left_unsure, task_id, Task, popped, read_row, running, State, taken, take_job,
  if_pending, if_found, advance, poll, work, Reach, later,
}

module _ (p : Platform) (api : ApiConfig) (cfg : WorkerConfig) (dispatch : Dispatch) where
  -- The first worker goes on, at most `n` times.
  alone : ℕ → JobEvents → World × List Task → World × List Task
  alone zero ev (w, ts) = (w, ts)
  alone (suc n) ev (w, []) = (w, [])
  alone (suc n) ev (w, t ∷ ts) =
      let (w', rest) = advance p api cfg dispatch ev t w in alone n ev (w', rest ++ ts)

  abbrev state_of : World × List Task → State
  state_of (w, ts) = record { world = w; tasks = ts; unsure = [] }

  no_unsure : (c : Call) (id : Str) (q q' : List Str) → c ≢ lost → left_unsure c id q q' ≡ []
  no_unsure answered id q q' h = refl
  no_unsure refused id q q' h = refl
  no_unsure lost id q q' h = absurd (h refl)

  pushed-same : (ev : JobEvents) → ev.push_back ≢ lost → pushed ev ≡ ev
  pushed-same ev h = ap (λ c. record ev { push_back = c }) (by ev.push_back h)
    where
      by : (c : Call) → c ≢ lost → effect_of c ≡ c
      by answered h = refl
      by refused h = refl
      by lost h = absurd (h refl)

  alone-Reach :
      (n : ℕ) (ev : JobEvents) (w : World) (ts : List Task)
      → ev.push_back ≢ lost
      → Reach p api cfg (state_of (w, ts))
      → Reach p api cfg (state_of (alone n ev (w, ts)))
  unfolding alone
  alone-Reach zero ev w ts h r = r
  alone-Reach (suc n) ev w [] h r = r
  alone-Reach (suc n) ev w (t ∷ ts) h r =
      let (w', rest) = advance p api cfg dispatch ev t w in
      alone-Reach n ev w' (rest ++ ts) h (
        subst
          (λ (l : List Str).
            Reach p api cfg (record { world = w'; tasks = rest ++ ts; unsure = l ++ [] }))
          (no_unsure ev.push_back (task_id t) w.queue w'.queue h)
          (later r (work [] ts t dispatch ev refl)))

  from_read_row :
      (ev : JobEvents) (id : Str) (j : Job) (w : World)
      → ev.push_back ≢ lost
      → alone 2 ev (w, read_row id j ∷ []) ≡ (
        (let w' : World = record w {
          jobs = (update_job_started p.canon ev.start w.now id w.jobs).0;
        } in
            if (update_job_started p.canon ev.start w.now id w.jobs).1
            then with_key p cfg dispatch ev id j w' (derive_key p.hkdf cfg.master_key id)
            else w'),
        [],
      )
  unfolding alone advance
  from_read_row ev id j w heard =
      by (update_job_started p.canon ev.start w.now id w.jobs).1
        (record w { jobs = (update_job_started p.canon ev.start w.now id w.jobs).0 })
    where
      by :
          (b : Bool) (w' : World)
          → alone 1 ev (w', (if b then running id j ∷ [] else []) ++ []) ≡ (
            (if b
                then with_key p cfg dispatch ev id j w' (derive_key p.hkdf cfg.master_key id)
                else w'),
            [],
          )
      by true w' =
          ap (λ e. (with_key p cfg dispatch e id j w' (derive_key p.hkdf cfg.master_key id), []))
            (pushed-same ev heard)
      by false w' = refl

  -- A worker that takes its three steps one after another does what processJob does, and is done.
  alone-process_job :
      (ev : JobEvents) (id : Str) (w : World)
      → ev.push_back ≢ lost
      → alone 3 ev (w, popped id ∷ []) ≡ (process_job p cfg dispatch ev id w, [])
  unfolding alone advance
  alone-process_job ev id w heard =
      rw (process_job-from_row p cfg dispatch ev id w) (made ev.make_tmp)
    where
      by :
          (j : Job) (st : Status)
          → alone 2 ev (
            (if_pending p api cfg dispatch id j w st).0,
            (if_pending p api cfg dispatch id j w st).1 ++ [],
          )
            ≡ (status_row p cfg dispatch ev id w j st, [])
      by j pending = unfold if_pending in from_read_row ev id j w heard
      by j processing = unfold if_pending in refl
      by j completed = unfold if_pending in refl
      by j failed = unfold if_pending in refl

      found :
          (f : Found)
          → alone 2 ev
              ((if_found p api cfg dispatch id w f).0, (if_found p api cfg dispatch id w f).1 ++ [])
            ≡ (from_row p cfg dispatch ev id w f, [])
      found (row j) = unfold if_found in by j j.status
      found no_rows = unfold if_found in refl
      found db_error = unfold if_found in refl

      broken : World
      broken =
          fail_job p cfg dispatch ev.fail id
            (codes "Internal error: failed to create temp directory") w

      made :
          (b : Bool)
          → (let r : World × List Task =
                if b
                then if_found p api cfg dispatch id w (get_job p.canon ev.reached id w.jobs)
                else (broken, []) in
              alone 2 ev (r.0, r.1 ++ []))
            ≡ (
              (if b
                  then from_row p cfg dispatch ev id w (get_job p.canon ev.reached id w.jobs)
                  else broken),
              [],
            )
      made true = found (get_job p.canon ev.reached id w.jobs)
      made false = refl

  -- Every run of a worker on its own is a run of the system: from a reached state with no worker at
  -- work, any number of rounds of run, none of which loses the reply to a requeue, ends in a reached state.
  pub run-Reach :
      (rounds : List (Bool × JobEvents)) (w : World)
      → All (λ r. r.1.push_back ≢ lost) rounds
      → Reach p api cfg (record { world = w; tasks = []; unsure = [] })
      → Reach p api cfg (record { world = run p cfg dispatch rounds w; tasks = []; unsure = [] })
  run-Reach [] w h r = rw (run_nil p cfg dispatch w) r
  run-Reach ((reached, ev) ∷ rounds) w (heard, hs) r =
      rw (run_cons p cfg dispatch reached ev rounds w) (
        run-Reach rounds (run_round p cfg dispatch reached ev w) hs
          (round (dequeue reached w.queue) refl))
    where
      polled :
          Reach p api cfg
            (taken (record { world = w; tasks = []; unsure = [] }) (dequeue reached w.queue))
      polled = let st = later r (poll reached) in unfold take_job in st

      round :
          (d : List Str × Dequeued)
          → dequeue reached w.queue ≡ d
          → Reach p api cfg
              (record { world = run_round p cfg dispatch reached ev w; tasks = []; unsure = [] })
      round (q, timed_out) e = rw (round_timed_out p cfg dispatch ev reached w q e) r
      round (q, dequeue_error) e = rw (round_error p cfg dispatch ev reached w q e) r
      round (q, job []) e =
          rw (round_empty p cfg dispatch ev reached w q e)
            (let h = rw e at polled in unfold taken in h)
      round (q, job (c ∷ id)) e = rw (round_job p cfg dispatch ev reached w q c id e) (
          let h =
            alone-Reach 3 ev (record w { queue = q }) (popped (c ∷ id) ∷ []) heard (at_work e) in
          rw (alone-process_job ev (c ∷ id) (record w { queue = q }) heard) at h)
        where
          at_work :
              dequeue reached w.queue ≡ (q, job (c ∷ id))
              → Reach p api cfg (record {
                world = record w { queue = q };
                tasks = popped (c ∷ id) ∷ [];
                unsure = [];
              })
          at_work e = let h = rw e at polled in unfold taken in h
