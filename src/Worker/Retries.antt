-- ===== src/Worker/Retries.antt =====
-- A job whose processor fails: the retries of handleProcessError and the rounds of run.
use ilove_convertion.Base.{
  ℕ, zero, suc, ◌+◌, ◌≤◌, ◌<◌, ◌≡◌, ◌≢◌, refl, ◌∙◌, true, none, some, List, [], ◌∷◌, ◌++◌, Str,
  if◌then◌else◌, length, leb, replicate, arith, le→leb, lt→leb,
}
use ilove_convertion.Models.{pending, failed, JobParams, Job, input_ext}
use ilove_convertion.Models.Params.{parse_params}
use ilove_convertion.Crypto.{Bytes, IsAead, derive_key, hkdf_info, nonce_size}
use ilove_convertion.Crypto.RoundTrip.{file}
use ilove_convertion.Database.{
  answered, get_job, find_job, modify_job, update_job_started, update_job_failed,
  increment_retry_count,
}
use ilove_convertion.Database.Rows.{find_job-modify_job_self}
use ilove_convertion.Queue.{requeue}
use ilove_convertion.Storage.{read_file}
use ilove_convertion.World.{World, Platform, IsPlatform}
use ilove_convertion.Worker.{
  WorkerConfig, Dispatch, process_error, JobEvents, clip, fail_job, handle_process_error,
  process_job, run_round, run, or_bin, or_input,
}
use ilove_convertion.Worker.Outcomes.{
  takes_job, IsSmoothFile, decrypt_file_lem, started, worker_key,
}

-- The row after a failed attempt that is to be repeated, and after the last.
abbrev pub retried : Job → Job
retried j = record j { retry_count = j.retry_count + 1; status = pending }

abbrev pub given_up : ℕ → Str → Job → Job
given_up now msg j = record j {
  status = failed;
  error_message = some (clip msg);
  completed_at = some now;
}

-- Every call of a failing attempt is answered.
pub record IsAnswered (ev : JobEvents) (size : ℕ) : Type 0 where
  pub tmp_made : ev.make_tmp ≡ true
  pub row_read : ev.reached ≡ true
  pub start_done : ev.start ≡ answered
  pub decrypted : IsSmoothFile ev.decrypt size
  pub incremented : ev.increment ≡ answered
  pub pushed_back : ev.push_back ≡ answered
  pub failed_done : ev.fail ≡ answered

module _ (p : Platform) (cfg : WorkerConfig) (dispatch : Dispatch) where
  -- The job is pending, and its parameters and its input can be read, and its processor fails.
  pub record IsFailing (id msg : Str) (params : JobParams) (nonce input : Bytes) (w : World)
      (j : Job) : Type 0 where
    pub found : find_job id w.jobs ≡ some j
    pub is_pending : j.status ≡ pending
    pub params_read : parse_params j.params ≡ some params
    pub input_there :
        read_file id w.store.inputs ≡ some (file p.aead (worker_key p cfg dispatch id) nonce input)
    pub fails :
        dispatch j.operation params
          (or_bin (input_ext j))
          (or_input params.output_format (or_bin (input_ext j)))
          input
        ≡ process_error msg

  module _ (ev : JobEvents) (id msg : Str) (params : JobParams) (nonce input : Bytes)
      (law : IsAead p.aead) (plat : IsPlatform p) (key : length cfg.master_key ≡ 32)
      (canon : p.canon id ≡ id) (l : length nonce ≡ nonce_size)
      (calls : IsAnswered ev (length input)) where
    abbrev tried : World → List Job
    tried w = modify_job id retried (modify_job id (started w.now) w.jobs)

    tried_found :
        (w : World) (j : Job)
        → find_job id w.jobs ≡ some j
        → find_job id (tried w) ≡ some (retried (started w.now j))
    tried_found w j found = rw (
      find_job-modify_job_self id retried (modify_job id (started w.now) w.jobs) (λ i. refl),
      find_job-modify_job_self id (started w.now) w.jobs (λ i. refl),
      found,
    )

    -- The world after a failing attempt.
    abbrev attempted : Str → World → Job → World
    attempted m w j =
        if leb (j.retry_count + 1) (cfg.max_retries j.operation)
        then record w { jobs = tried w; queue = w.queue ++ id ∷ [] }
        else record w { jobs = modify_job id (given_up w.now m) (tried w) }

    process_job_fails :
        (w : World) (j : Job)
        → IsFailing id msg params nonce input w j
        → process_job p cfg dispatch ev id w ≡ attempted msg w j
    unfolding process_job handle_process_error fail_job update_job_started update_job_failed
        increment_retry_count get_job requeue derive_key
    process_job_fails w j f = simp (
      calls.tmp_made,
      calls.row_read,
      canon,
      f.found,
      f.is_pending,
      calls.start_done,
      key,
      f.params_read,
      f.input_there,
      decrypt_file_lem p law (worker_key p cfg dispatch id) nonce
          (plat.keys_accepted cfg.master_key id hkdf_info) l ev.decrypt input none calls.decrypted,
      f.fails,
      calls.incremented,
      tried_found w j f.found,
      calls.pushed_back,
      calls.failed_done,
    )

    again :
        (w : World) (j : Job) (q : List Str)
        → IsFailing id msg params nonce input w j
        → IsFailing id msg params nonce input
            (record w { jobs = tried w; queue = q })
            (retried (started w.now j))
    unfolding input_ext
    again w j q f = record {
      found = tried_found w j f.found;
      is_pending = refl;
      params_read = f.params_read;
      input_there = f.input_there;
      fails = f.fails;
    }

    -- A round on the only job of the queue, by the number of attempts that it has had.
    round_again :
        (w : World) (j : Job)
        → id ≢ []
        → w.queue ≡ id ∷ []
        → IsFailing id msg params nonce input w j
        → j.retry_count + 1 ≤ cfg.max_retries j.operation
        → run_round p cfg dispatch true ev w ≡ record w { jobs = tried w; queue = id ∷ [] }
    round_again w j h q f more =
        takes_job p cfg dispatch ev id w h q
        ∙ process_job_fails (record w { queue = [] }) j
            (record {
              found = f.found;
              is_pending = f.is_pending;
              params_read = f.params_read;
              input_there = f.input_there;
              fails = f.fails;
            })
        ∙ rw (le→leb _ _ more)

    round_last :
        (w : World) (j : Job)
        → id ≢ []
        → w.queue ≡ id ∷ []
        → IsFailing id msg params nonce input w j
        → cfg.max_retries j.operation < j.retry_count + 1
        → run_round p cfg dispatch true ev w
          ≡ record w { jobs = modify_job id (given_up w.now msg) (tried w); queue = [] }
    round_last w j h q f last =
        takes_job p cfg dispatch ev id w h q
        ∙ process_job_fails (record w { queue = [] }) j
            (record {
              found = f.found;
              is_pending = f.is_pending;
              params_read = f.params_read;
              input_there = f.input_there;
              fails = f.fails;
            })
        ∙ rw (lt→leb _ _ last)

    run_none : (w : World) → run p cfg dispatch (replicate zero (true, ev)) w ≡ w
    unfolding run
    run_none w = refl

    run_rounds :
        (n : ℕ) (w : World)
        → run p cfg dispatch (replicate (suc n) (true, ev)) w
          ≡ run p cfg dispatch (replicate n (true, ev)) (run_round p cfg dispatch true ev w)
    unfolding run
    run_rounds n w = refl

    given_up_found :
        (w : World) (j : Job)
        → find_job id w.jobs ≡ some j
        → find_job id (modify_job id (given_up w.now msg) (tried w))
          ≡ some (given_up w.now msg (retried (started w.now j)))
    given_up_found w j found = rw (
      find_job-modify_job_self id (given_up w.now msg) (tried w) (λ i. refl),
      tried_found w j found,
    )

    -- A job whose input can be read and whose processor fails each time, alone in the queue, with
    -- `k` retries left and every call answered: after k more rounds it is pending, has used all
    -- its retries and is in the queue again; one round later it has failed with the processor's
    -- message, clipped, and is in the queue no more.
    pub always_failing_job_fails :
        (k : ℕ) (w : World) (j : Job)
        → id ≢ []
        → w.queue ≡ id ∷ []
        → IsFailing id msg params nonce input w j
        → j.retry_count + k ≡ cfg.max_retries j.operation
        → let before = run p cfg dispatch (replicate k (true, ev)) w in
          let after = run p cfg dispatch (replicate (suc k) (true, ev)) w in
          (before.queue ≡ id ∷ [])
          × ((i : Job) × (find_job id before.jobs ≡ some i)
              × (i.status ≡ pending)
              × (i.retry_count ≡ cfg.max_retries j.operation))
          × (after.queue ≡ [])
          × ((i : Job) × (find_job id after.jobs ≡ some i)
              × (i.status ≡ failed)
              × (i.error_message ≡ some (clip msg))
              × (i.retry_count ≡ cfg.max_retries j.operation + 1))
    always_failing_job_fails zero w j h q f e =
        let last = round_last w j h q f (omega arith) in
        rw (run_rounds zero w, run_none w, run_none (run_round p cfg dispatch true ev w))
          (
            q,
            (j, f.found, f.is_pending, omega arith),
            rw last refl,
            (
              given_up w.now msg (retried (started w.now j)),
              rw last (given_up_found w j f.found),
              refl,
              refl,
              omega arith,
            ),
          )
    always_failing_job_fails (suc k) w j h q f e =
        rw (run_rounds k w, run_rounds (suc k) w, round_again w j h q f (omega arith))
          (always_failing_job_fails k (record w { jobs = tried w; queue = id ∷ [] })
            (retried (started w.now j)) h refl (again w j (id ∷ []) f) (omega arith))
