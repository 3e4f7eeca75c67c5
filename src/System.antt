-- ===== src/System.antt =====
-- The API, the cleanup and any number of workers over one world, interleaved in any order. A worker's
-- run of processJob (cmd/worker/main.go) is cut where it talks to the database: the id is taken from
-- the queue, the row is read, the start is written, and the rest is done, but that a worker whose
-- requeue took effect and lost its reply calls failJob later, in a step of its own. A worker may be
-- killed at each of these points. The temporary directories are not part of the state.
pub mod Handlers
pub mod Invariant
pub mod Holding
pub mod Preserved
pub mod Final
pub mod Sequential
use ilove_convertion.Base.{
  ℕ, ◌+◌, ◌≡◌, ◌≢◌, Bool, Option, none, List, [], ◌∷◌, ◌++◌, Str, codes, count, length, ltb,
  if◌then◌else◌,
}
use ilove_convertion.Models.{Status, pending, processing, completed, failed, Session, Job}
use ilove_convertion.Crypto.{derive_key}
use ilove_convertion.Database.{
  Call, answered, lost, Found, row, no_rows, db_error, find_job, get_job, update_job_started,
}
use ilove_convertion.Queue.{Dequeued, job, timed_out, dequeue_error, dequeue}
use ilove_convertion.World.{World, Platform, ApiConfig}
use ilove_convertion.Api.Upload.{UploadEvents, UploadRequest, handle_create_job}
use ilove_convertion.Api.Delete.{handle_delete_job, run_cleanup}
use ilove_convertion.Api.Session.{ClientRequest, session_middleware}
use ilove_convertion.Worker.{WorkerConfig, Dispatch, JobEvents, fail_job, with_key}

-- Where a worker stands that holds a job: it has taken an id from the queue, it has read a pending row, or it has
-- written that the job is processing.
pub data Task : Type 0 where
  popped : Str → Task
  read_row : Str → Job → Task
  running : Str → Job → Task

abbrev pub task_id : Task → Str
task_id (popped id) = id
task_id (read_row id j) = id
task_id (running id j) = id

abbrev pub task_ids : List Task → List Str
task_ids [] = []
task_ids (t ∷ ts) = task_id t ∷ task_ids ts

pub record State : Type 0 where
  pub world : World
  pub tasks : List Task
  -- The ids of the workers that put their job back, lost the reply, and have yet to call failJob.
  pub unsure : List Str

-- The ids that a worker holds or that wait in the queue.
abbrev pub active : State → List Str
active s = task_ids s.tasks ++ s.world.queue

taken : State → List Str × Dequeued → State
taken s (q, timed_out) = s
taken s (q, dequeue_error) = s
taken s (q, job []) = record s { world = record (s.world) { queue = q } }
taken s (q, job (c ∷ id)) = record s {
  world = record (s.world) { queue = q };
  tasks = popped (c ∷ id) ∷ s.tasks;
}

-- The head of the loop of run: a worker that is idle asks the queue.
unfoldable pub take_job : Bool → State → State
unfolding taken
take_job reached s = taken s (dequeue reached s.world.queue)

-- The effect of a call whose reply is still to come.
abbrev pub effect_of : Call → Call
effect_of lost = answered
effect_of c = c

abbrev pub pushed : JobEvents → JobEvents
pushed ev = record ev { push_back = effect_of ev.push_back }

-- The worker that is left when its requeue, if it came to one, lost the reply.
abbrev pub left_unsure : Call → Str → List Str → List Str → List Str
left_unsure lost id q q' = if ltb (length q) (length q') then id ∷ [] else []
left_unsure _ id q q' = []

module _ (p : Platform) (api : ApiConfig) (cfg : WorkerConfig) (dispatch : Dispatch) where
  if_pending : Str → Job → World → Status → World × List Task
  if_pending id j w pending = (w, read_row id j ∷ [])
  if_pending id j w processing = (w, [])
  if_pending id j w completed = (w, [])
  if_pending id j w failed = (w, [])

  if_found : Str → World → Found → World × List Task
  unfolding if_pending
  if_found id w (row j) = if_pending id j w j.status
  if_found id w no_rows = (w, [])
  if_found id w db_error = (w, [])

  -- The next part of processJob: the world after it, and the worker's place, if it is not done.
  unfoldable pub advance : JobEvents → Task → World → World × List Task
  unfolding if_found
  advance ev (popped id) w =
      if ev.make_tmp then if_found id w (get_job p.canon ev.reached id w.jobs) else (
        fail_job p cfg dispatch ev.fail id (codes "Internal error: failed to create temp directory")
            w,
        [],
      )
  advance ev (read_row id j) w =
      let (jobs, started) = update_job_started p.canon ev.start w.now id w.jobs in
      (record w { jobs = jobs }, if started then running id j ∷ [] else [])
  advance ev (running id j) w =
      (with_key p cfg dispatch (pushed ev) id j w (derive_key p.hkdf cfg.master_key id), [])

module _ (p : Platform) (api : ApiConfig) (cfg : WorkerConfig) where
  -- An id as CreateJob makes it: a canonical uuid that nothing has yet.
  pub record IsNew (id : Str) (s : State) : Type 0 where
    pub nonempty : id ≢ []
    pub canonical : p.canon id ≡ id
    pub no_row : find_job id s.world.jobs ≡ none
    pub inactive : count id (active s) ≡ 0

  -- The processors may do another thing at each step. An upload whose LPUSH loses its reply is not among the steps: its handler goes on while a worker
  -- may have the job.
  pub data Step (s : State) : State → Type 0 where
    upload :
        (ev : UploadEvents) (session : Option Session) (r : UploadRequest)
        → IsNew ev.new_id s
        → ev.push ≢ lost
        → Step s (record s { world = (handle_create_job p api ev session r s.world).0 })
    delete :
        (c : Call) (id : Str) → Step s (record s { world = (handle_delete_job p c id s.world).0 })
    cleanup : (c c' : Call) → Step s (record s { world = run_cleanup c c' s.world })
    request :
        (c : Call) (new_id : Str) (r : ClientRequest)
        → Step s (record s { world = (session_middleware api c new_id r s.world).0 })
    wait : (n : ℕ) → Step s (record s { world = record (s.world) { now = s.world.now + n } })
    poll : (reached : Bool) → Step s (take_job reached s)
    work :
        (before after : List Task) (t : Task) (dispatch : Dispatch) (ev : JobEvents)
        → s.tasks ≡ before ++ t ∷ after
        → Step s (record {
          world = (advance p api cfg dispatch ev t s.world).0;
          tasks = before ++ ((advance p api cfg dispatch ev t s.world).1 ++ after);
          unsure =
              left_unsure ev.push_back
                (task_id t)
                s.world.queue
                (advance p api cfg dispatch ev t s.world).0.queue
              ++ s.unsure;
        })
    give_up :
        (before after : List Str) (id msg : Str) (dispatch : Dispatch) (c : Call)
        → s.unsure ≡ before ++ id ∷ after
        → Step s (record s {
          world = fail_job p cfg dispatch c id msg s.world;
          unsure = before ++ after;
        })
    killed :
        (before after : List Task) (t : Task)
        → s.tasks ≡ before ++ t ∷ after
        → Step s (record s { tasks = before ++ after })

  -- The states that arise from an empty table and an empty queue.
  pub data Reach : State → Type 0 where
    start :
        (w : World)
        → w.jobs ≡ []
        → w.queue ≡ []
        → Reach (record { world = w; tasks = []; unsure = [] })
    later : {s t : State} → Reach s → Step s t → Reach t
