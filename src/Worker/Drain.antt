-- ===== src/Worker/Drain.antt =====
-- The retries that are left to the jobs, over the steps of a worker.
use ilove_convertion.Base.{
  ℕ, ◌+◌, ◌-◌, ◌≤◌, ◌<◌, ◌≡◌, refl, sym, ap, ◌∙◌, ◌⊎◌, inl, inr, true, Option, none, some, List, [],
  ◌∷◌, ◌++◌, Str, str_eq, str_eq→≡, leb, leb→le, Bool-cases, arith,
}
use ilove_convertion.Models.{pending, Operation, JobParams, Job}
use ilove_convertion.Crypto.{Bytes}
use ilove_convertion.Crypto.Files.{FileError}
use ilove_convertion.Database.{
  Call, answered, refused, lost, returned_count, perform, find_job, modify_job,
  update_job_completed, update_job_failed, increment_retry_count,
}
use ilove_convertion.Database.Rows.{
  KeepsId, map_row, find_job-modify_job_self, find_job-modify_job_ne,
}
use ilove_convertion.Queue.{requeue}
use ilove_convertion.World.{World, Platform}
use ilove_convertion.Worker.{
  WorkerConfig, Dispatch, JobEvents, fail_job, handle_process_error, after_increment, after_requeue,
  after_encrypt_file, with_key, set_file, encrypt_failed,
}
use ilove_convertion.Worker.Cases.{with_key-cases}

-- An UPDATE that keeps the id and the operation and takes no retry back.
pub record IsTame (f : Job → Job) : Type 0 where
  pub keeps_id : KeepsId f
  pub keeps_operation : (j : Job) → (f j).operation ≡ j.operation
  pub keeps_count : (j : Job) → j.retry_count ≤ (f j).retry_count

module _ (cfg : WorkerConfig) where
  -- The retries that are left to a row.
  abbrev pub left : Option Job → ℕ
  left none = 0
  left (some j) = cfg.max_retries j.operation - j.retry_count

  -- No row has more retries left than before.
  abbrev pub Later : List Job → List Job → Type 0
  Later js js' = (k : Str) → left (find_job k js') ≤ left (find_job k js)

  left-map_row : (f : Job → Job) (o : Option Job) → IsTame f → left (map_row f o) ≤ left o
  left-map_row f none t = omega arith
  left-map_row f (some j) t = rw (t.keeps_operation j) (omega (arith, t.keeps_count j))

  Later-modify_job :
      (k : Str) (f : Job → Job) (js : List Job) → IsTame f → Later js (modify_job k f js)
  Later-modify_job k f js t l = elim (Bool-cases (str_eq l k)) [
    | inl e ↦
        rw (str_eq→≡ l k e, find_job-modify_job_self k f js t.keeps_id)
          (left-map_row f (find_job k js) t)
    | inr n ↦ rw (find_job-modify_job_ne l k f js t.keeps_id n) (omega arith)
  ]

  pub Later-perform :
      (c : Call) (k : Str) (f : Job → Job) (js : List Job)
      → IsTame f
      → Later js (perform c js (modify_job k f js)).0
  Later-perform answered k f js t = Later-modify_job k f js t
  Later-perform refused k f js t = λ l. omega arith
  Later-perform lost k f js t = Later-modify_job k f js t

  pub Later-trans : (a b c : List Job) → Later a b → Later b c → Later a c
  Later-trans a b c h g = λ k. omega (arith, h k, g k)

module _ (p : Platform) (cfg : WorkerConfig) (dispatch : Dispatch) (id : Str) where
  -- The job leaves the queue, or is back in it with a retry less.
  abbrev pub Uses : World → World → Type 0
  Uses w w' =
      Later cfg w.jobs w'.jobs
      × ((w'.queue ≡ w.queue)
          ⊎ ((w'.queue ≡ w.queue ++ id ∷ [])
              × (left cfg (find_job (p.canon id) w'.jobs)
                  < left cfg (find_job (p.canon id) w.jobs))))

  fail_job-Later :
      (c : Call) (msg : Str) (w : World)
      → Later cfg w.jobs (fail_job p cfg dispatch c id msg w).jobs
  unfolding fail_job update_job_failed
  fail_job-Later c msg w =
      Later-perform cfg c (p.canon id) _ w.jobs (record {
        keeps_id = λ j. refl;
        keeps_operation = λ j. refl;
        keeps_count = λ j. omega arith;
      })

  fail_job_queue :
      (c : Call) (msg : Str) (w : World) → (fail_job p cfg dispatch c id msg w).queue ≡ w.queue
  unfolding fail_job
  fail_job_queue c msg w = refl

  pub fail_job-Uses :
      (c : Call) (msg : Str) (w : World) → Uses w (fail_job p cfg dispatch c id msg w)
  fail_job-Uses c msg w = (fail_job-Later c msg w, inl (fail_job_queue c msg w))

  -- A job that is put back after an increment.
  after_requeue-Uses :
      (ev : JobEvents) (msg : Str) (w mid : World)
      → mid.queue ≡ w.queue
      → Later cfg w.jobs mid.jobs
      → left cfg (find_job (p.canon id) mid.jobs) < left cfg (find_job (p.canon id) w.jobs)
      → Uses w (after_requeue p cfg dispatch ev id msg mid (requeue ev.push_back id mid.queue))
  unfolding after_requeue requeue
  after_requeue-Uses ev msg w mid q late less = by ev.push_back
    where
      pushed : World
      pushed = record mid { queue = mid.queue ++ id ∷ [] }

      back : mid.queue ++ id ∷ [] ≡ w.queue ++ id ∷ []
      back = ap (λ l. l ++ id ∷ []) q

      by :
          (c : Call)
          → Uses w (
              after_requeue p cfg dispatch ev id msg mid
                (perform c mid.queue (mid.queue ++ id ∷ [])))
      by answered = (late, inr (back, less))
      by refused = (
        Later-trans cfg w.jobs mid.jobs _ late (fail_job-Later ev.fail msg mid),
        inl (fail_job_queue ev.fail msg mid ∙ q),
      )
      by lost = (
        Later-trans cfg w.jobs mid.jobs _ late (fail_job-Later ev.fail msg pushed),
        inr (
          fail_job_queue ev.fail msg pushed ∙ back,
          omega (arith, fail_job-Later ev.fail msg pushed (p.canon id), less),
        ),
      )

  -- The UPDATE of a retry.
  abbrev retried : Job → Job
  retried i = record i { retry_count = i.retry_count + 1; status = pending }

  retried-IsTame : IsTame retried
  retried-IsTame = record {
    keeps_id = λ j. refl;
    keeps_operation = λ j. refl;
    keeps_count = λ j. omega arith;
  }

  -- The count that comes back is that of the row, one more than before.
  increment-count :
      (c : Call) (js : List Job) (i : Job) (n : ℕ)
      → find_job (p.canon id) js ≡ some i
      → (increment_retry_count p.canon c id js).1 ≡ some n
      → (n ≡ i.retry_count + 1)
        × (find_job (p.canon id) (increment_retry_count p.canon c id js).0 ≡ some (retried i))
  unfolding increment_retry_count returned_count
  increment-count answered js i n found e = (counted, after)
    where
      after : find_job (p.canon id) (modify_job (p.canon id) retried js) ≡ some (retried i)
      after =
          find_job-modify_job_self (p.canon id) retried js (λ j. refl) ∙ ap (map_row retried) found

      counted : n ≡ i.retry_count + 1
      counted = counted_of (ap (returned_count p.canon true) (sym after) ∙ e)
        where
          counted_of : some (i.retry_count + 1) ≡ some n → n ≡ i.retry_count + 1
          counted_of e = cc
  increment-count refused js i n found e = absurd (cc)
  increment-count lost js i n found e = absurd (cc)

  handle_process_error-Uses :
      (ev : JobEvents) (op : Operation) (msg : Str) (w : World) (i : Job)
      → find_job (p.canon id) w.jobs ≡ some i
      → i.operation ≡ op
      → Uses w (handle_process_error p cfg dispatch ev op id msg w)
  unfolding handle_process_error
  handle_process_error-Uses ev op msg w i found same =
      by (increment_retry_count p.canon ev.increment id w.jobs).1 refl
    where
      mid : World
      mid = record w { jobs = (increment_retry_count p.canon ev.increment id w.jobs).0 }

      late : Later cfg w.jobs mid.jobs
      late =
          unfold increment_retry_count in
          Later-perform cfg ev.increment (p.canon id) retried w.jobs retried-IsTame

      fails : Uses w (fail_job p cfg dispatch ev.fail id msg mid)
      fails = (
        Later-trans cfg w.jobs mid.jobs _ late (fail_job-Later ev.fail msg mid),
        inl (fail_job_queue ev.fail msg mid),
      )

      less :
          (n : ℕ)
          → leb n (cfg.max_retries op) ≡ true
          → (n ≡ i.retry_count + 1) × (find_job (p.canon id) mid.jobs ≡ some (retried i))
          → left cfg (find_job (p.canon id) mid.jobs) < left cfg (find_job (p.canon id) w.jobs)
      less n t (count, after) =
          let le : n ≤ cfg.max_retries i.operation = rw (same) (leb→le n (cfg.max_retries op) t) in
          rw (after, found) (omega (arith, le, count))

      by :
          (o : Option ℕ)
          → (increment_retry_count p.canon ev.increment id w.jobs).1 ≡ o
          → Uses w (after_increment p cfg dispatch ev op id msg mid o)
      by none e = unfold after_increment in fails
      by (some n) e =
          unfold after_increment in
          elim (Bool-cases (leb n (cfg.max_retries op))) [
            | inl t ↦ rw t (
                after_requeue-Uses ev msg w mid refl late
                  (less n t (increment-count ev.increment w.jobs i n found e)))
            | inr f ↦ rw f fails
          ]

  after_encrypt_file-Uses :
      (ev : JobEvents) (j : Job) (params : JobParams) (size : ℕ) (w : World)
      (r : Option Bytes × Option FileError)
      → Uses w (after_encrypt_file p cfg dispatch ev id j params size w r)
  unfolding after_encrypt_file
  after_encrypt_file-Uses ev j params size w (file, some e) = (
    fail_job-Later ev.fail encrypt_failed stored,
    inl (fail_job_queue ev.fail encrypt_failed stored),
  )
    where
      stored : World
      stored = record w { store = record (w.store) { outputs = set_file id file w.store.outputs } }
  after_encrypt_file-Uses ev j params size w (file, none) = (
    unfold update_job_completed in
        Later-perform cfg ev.complete (p.canon id) _ w.jobs (record {
          keeps_id = λ j. refl;
          keeps_operation = λ j. refl;
          keeps_count = λ j. omega arith;
        }),
    inl refl,
  )

  pub with_key-Uses :
      (ev : JobEvents) (j i : Job) (w : World) (key : Option Bytes)
      → find_job (p.canon id) w.jobs ≡ some i
      → i.operation ≡ j.operation
      → Uses w (with_key p cfg dispatch ev id j w key)
  with_key-Uses ev j i w key found same =
      with_key-cases p cfg dispatch id ev j w (Uses w) (λ msg. fail_job-Uses ev.fail msg w)
        (λ msg. handle_process_error-Uses ev j.operation msg w i found same)
        (λ params size r. after_encrypt_file-Uses ev j params size w r) key
