-- ===== src/Worker/Locality.antt =====
-- What the steps of a worker do outside their own job.
use ilove_convertion.Base.{
  ℕ, ◌+◌, ◌≡◌, ◌≢◌, refl, ap, ◌∙◌, inl, inr, Option, none, some, List, [], ◌∷◌, ◌++◌, Str, leb,
  Bool-cases,
}
use ilove_convertion.Models.{
  pending, processing, completed, failed, Operation, JobParams, Job, output_name,
}
use ilove_convertion.Crypto.{Bytes}
use ilove_convertion.Crypto.Files.{FileError}
use ilove_convertion.Database.{
  Call, answered, refused, lost, perform, find_job, modify_job, update_job_started,
  update_job_completed, update_job_failed, increment_retry_count,
}
use ilove_convertion.Queue.{requeue}
use ilove_convertion.Storage.{read_file-remove_file_ne, read_file-write_file_ne}
use ilove_convertion.World.{World, Platform}
use ilove_convertion.Worker.{
  WorkerConfig, Dispatch, JobEvents, clip, fail_job, handle_process_error, after_increment,
  after_requeue, after_encrypt_file, with_key, set_file, encrypt_failed,
}
use ilove_convertion.Worker.Cases.{with_key-cases}
use ilove_convertion.Worker.Effects.{
  Elsewhere, Elsewhere_trans, IsOpen, Ends, updated, updated-Elsewhere, updated-IsOpen,
  answered-IsOpen,
}

module _ (p : Platform) (cfg : WorkerConfig) (dispatch : Dispatch) (id : Str)
    (canon : p.canon id ≡ id) where
  -- The row that a failure leaves.
  abbrev failure_of : ℕ → Str → Job → Job
  failure_of now msg j = record j {
    status = failed;
    error_message = some (clip msg);
    completed_at = some now;
  }

  fail_job_lem :
      (c : Call) (msg : Str) (w : World)
      → fail_job p cfg dispatch c id msg w ≡ updated id c (failure_of w.now msg) (λ i. refl) w
  unfolding fail_job update_job_failed
  fail_job_lem c msg w = rw canon

  -- A failure that is written down ends a step; a job that was open stays open.
  pub fail_job-Elsewhere :
      (c : Call) (msg : Str) (w : World) → Elsewhere id w (fail_job p cfg dispatch c id msg w)
  fail_job-Elsewhere c msg w =
      rw (fail_job_lem c msg w) (updated-Elsewhere id c (failure_of w.now msg) (λ i. refl) w)

  fail_job-IsOpen :
      (c : Call) (msg : Str) (w : World)
      → IsOpen id w
      → IsOpen id (fail_job p cfg dispatch c id msg w)
  fail_job-IsOpen c msg w h =
      rw (fail_job_lem c msg w)
        (updated-IsOpen id c (failure_of w.now msg) (λ i. refl) w (λ j e. cc) h)

  pub fail_job-queue :
      (c : Call) (msg : Str) (w : World) → (fail_job p cfg dispatch c id msg w).queue ≡ w.queue
  unfolding fail_job
  fail_job-queue c msg w = refl

  pub fail_job-Ends :
      (c : Call) (msg : Str) (w : World) → Ends id w (fail_job p cfg dispatch c id msg w)
  fail_job-Ends c msg w = (fail_job-Elsewhere c msg w, inl (fail_job-queue c msg w))

  -- A failure makes no job completed.
  pub fail_job-completed :
      (c : Call) (msg : Str) (w : World) (j : Job)
      → find_job id (fail_job p cfg dispatch c id msg w).jobs ≡ some j
      → j.status ≡ completed
      → find_job id w.jobs ≡ some j
  unfolding fail_job update_job_failed
  fail_job-completed c msg w j found done = by c (rw canon at found)
    where
      failed_row : Job → Job
      failed_row = failure_of w.now msg

      never : find_job id (modify_job id failed_row w.jobs) ≡ some j → find_job id w.jobs ≡ some j
      never e =
          absurd (answered-IsOpen id answered failed_row (λ i. refl) w (λ i x. cc) refl j e done)

      by :
          (c : Call)
          → find_job id (perform c w.jobs (modify_job id failed_row w.jobs)).0 ≡ some j
          → find_job id w.jobs ≡ some j
      by answered e = never e
      by refused e = e
      by lost e = never e

  -- A change that only concerns the queue.
  with_queue : (w : World) (q : List Str) → Elsewhere id w (record w { queue = q })
  with_queue w q = record { rows = λ k h. refl; outputs = λ k h. refl; ids_same = refl }

  after_requeue-Ends :
      (ev : JobEvents) (msg : Str) (w : World)
      → IsOpen id w
      → Ends id w (after_requeue p cfg dispatch ev id msg w (requeue ev.push_back id w.queue))
  unfolding after_requeue requeue
  after_requeue-Ends ev msg w open_ = by ev.push_back
    where
      pushed : World
      pushed = record w { queue = w.queue ++ id ∷ [] }

      by :
          (c : Call)
          → Ends id w (
              unfold after_requeue in
              after_requeue p cfg dispatch ev id msg w (perform c w.queue (w.queue ++ id ∷ [])))
      by answered = (with_queue w (w.queue ++ id ∷ []), inr (refl, open_))
      by refused = fail_job-Ends ev.fail msg w
      by lost = (
        Elsewhere_trans id w pushed (fail_job p cfg dispatch ev.fail id msg pushed)
            (with_queue w (w.queue ++ id ∷ [])) (fail_job-Elsewhere ev.fail msg pushed),
        inr (fail_job-queue ev.fail msg pushed, fail_job-IsOpen ev.fail msg pushed open_),
      )

  Ends-after : (u v w : World) → Elsewhere id u v → v.queue ≡ u.queue → Ends id v w → Ends id u w
  Ends-after u v w a q (b, inl e) = (Elsewhere_trans id u v w a b, inl (e ∙ q))
  Ends-after u v w a q (b, inr (e, o)) =
      (Elsewhere_trans id u v w a b, inr (e ∙ ap (λ l. l ++ id ∷ []) q, o))

  -- The row that a retry leaves.
  abbrev retry_of : Job → Job
  retry_of j = record j { retry_count = j.retry_count + 1; status = pending }

  retry_failed : (j : Job) → (retry_of j).status ≢ completed
  retry_failed j e = cc

  -- A count is given only by an answered call.
  increments_if_answered :
      (c : Call) (js : List Job) (n : ℕ)
      → (increment_retry_count p.canon c id js).1 ≡ some n
      → c ≡ answered
  unfolding increment_retry_count
  increments_if_answered answered js n e = refl
  increments_if_answered refused js n e = absurd (cc)
  increments_if_answered lost js n e = absurd (cc)

  handle_process_error-Ends :
      (ev : JobEvents) (op : Operation) (msg : Str) (w : World)
      → Ends id w (handle_process_error p cfg dispatch ev op id msg w)
  unfolding handle_process_error
  handle_process_error-Ends ev op msg w =
      Ends-after w mid _ (updated-Elsewhere id ev.increment retry_of (λ i. refl) w) refl
        (rw same (by (increment_retry_count p.canon ev.increment id w.jobs).1 refl))
    where
      mid : World
      mid = updated id ev.increment retry_of (λ i. refl) w

      same : (increment_retry_count p.canon ev.increment id w.jobs).0 ≡ mid.jobs
      same = unfold increment_retry_count in rw canon

      by :
          (o : Option ℕ)
          → (increment_retry_count p.canon ev.increment id w.jobs).1 ≡ o
          → Ends id mid (after_increment p cfg dispatch ev op id msg mid o)
      by none e = unfold after_increment in fail_job-Ends ev.fail msg mid
      by (some n) e =
          unfold after_increment in
          elim (Bool-cases (leb n (cfg.max_retries op))) [
            | inl t ↦ rw t (
                after_requeue-Ends ev msg mid (
                  answered-IsOpen id ev.increment retry_of (λ i. refl) w retry_failed
                    (increments_if_answered ev.increment w.jobs n e)))
            | inr f ↦ rw f (fail_job-Ends ev.fail msg mid)
          ]

  -- A new or removed output of the job.
  with_output :
      (w : World) (file : Option Bytes)
      → Elsewhere id w
          (record w { store = record (w.store) { outputs = set_file id file w.store.outputs } })
  with_output w none = record {
    rows = λ k h. refl;
    outputs = λ k h. read_file-remove_file_ne k id w.store.outputs h;
    ids_same = refl;
  }
  with_output w (some b) = record {
    rows = λ k h. refl;
    outputs = λ k h. read_file-write_file_ne k id b w.store.outputs h;
    ids_same = refl;
  }

  after_encrypt_file-Ends :
      (ev : JobEvents) (j : Job) (params : JobParams) (size : ℕ) (w : World)
      (r : Option Bytes × Option FileError)
      → Ends id w (after_encrypt_file p cfg dispatch ev id j params size w r)
  unfolding after_encrypt_file update_job_completed
  after_encrypt_file-Ends ev j params size w (file, some e) =
      Ends-after w
        (record w { store = record (w.store) { outputs = set_file id file w.store.outputs } }) _
        (with_output w file) refl (fail_job-Ends ev.fail encrypt_failed _)
  after_encrypt_file-Ends ev j params size w (file, none) =
      let stored : World = record w {
        store = record (w.store) { outputs = set_file id file w.store.outputs };
      } in
      let name : Str = output_name j.original_name params.output_format in
      let done : Job → Job = λ (i : Job). record i {
        status = completed;
        output_filename = some name;
        output_size = some size;
        completed_at = some w.now;
      } in
      rw canon (
        Elsewhere_trans id w stored (updated id ev.complete done (λ i. refl) stored)
            (with_output w file) (updated-Elsewhere id ev.complete done (λ i. refl) stored),
        inl refl,
      )

  -- What a worker does with a job from its key on, whatever happens on the way.
  pub with_key-Ends :
      (ev : JobEvents) (j : Job) (w : World) (key : Option Bytes)
      → Ends id w (with_key p cfg dispatch ev id j w key)
  with_key-Ends ev j w =
      with_key-cases p cfg dispatch id ev j w (Ends id w) (λ msg. fail_job-Ends ev.fail msg w)
        (λ msg. handle_process_error-Ends ev j.operation msg w)
        (λ params size r. after_encrypt_file-Ends ev j params size w r)

  -- The UPDATE that starts a job.
  pub update_job_started-Elsewhere :
      (c : Call) (w : World)
      → Elsewhere id w (record w { jobs = (update_job_started p.canon c w.now id w.jobs).0 })
  unfolding update_job_started
  update_job_started-Elsewhere c w = rw canon (
      updated-Elsewhere id c (λ j. record j { status = processing; started_at = some w.now })
        (λ i. refl) w)

  pub update_job_started-IsOpen :
      (c : Call) (w : World)
      → IsOpen id w
      → IsOpen id (record w { jobs = (update_job_started p.canon c w.now id w.jobs).0 })
  unfolding update_job_started
  update_job_started-IsOpen c w h = rw canon (
      updated-IsOpen id c (λ j. record j { status = processing; started_at = some w.now })
        (λ i. refl) w (λ j e. cc) h)
