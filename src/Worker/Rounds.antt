-- ===== src/Worker/Rounds.antt =====
-- A measure of the jobs in the queue, over the rounds of run.
use ilove_convertion.Base.{
  ℕ, suc, ◌+◌, ◌*◌, ◌≤◌, ◌<◌, ◌≡◌, refl, ap, ◌∙◌, inl, inr, Bool, true, false, Option, none, some,
  List, [], ◌∷◌, ◌++◌, Str, codes, if◌then◌else◌, length, arith,
}
use ilove_convertion.Models.{Status, pending, processing, completed, failed, Operation, Job}
use ilove_convertion.Crypto.{derive_key}
use ilove_convertion.Database.{
  Call, answered, refused, lost, get_job, to_found, find_job, modify_job, update_job_started,
}
use ilove_convertion.Database.Rows.{map_row, find_job-modify_job_self}
use ilove_convertion.Queue.{dequeue, pop_right, popped}
use ilove_convertion.Queue.Order.{pop_right_inv, pop_right-none}
use ilove_convertion.World.{World, Platform}
use ilove_convertion.Worker.{
  WorkerConfig, Dispatch, JobEvents, fail_job, with_key, process_job, run_round, run,
}
use ilove_convertion.Worker.Drain.{
  left, Later, Later-perform, Later-trans, Uses, fail_job-Uses, with_key-Uses,
}
use ilove_convertion.Worker.Whole.{
  from_row, status_row, process_job-from_row, round_error, round_timed_out, round_empty, round_job,
  run_nil, run_cons,
}

-- The rounds in which Redis is reached.
abbrev pub reached_rounds : List (Bool × JobEvents) → ℕ
reached_rounds [] = 0
reached_rounds ((true, ev) ∷ rounds) = suc (reached_rounds rounds)
reached_rounds ((false, ev) ∷ rounds) = reached_rounds rounds

module _ (p : Platform) (cfg : WorkerConfig) (dispatch : Dispatch) where
  Uses-after :
      (id : Str) (w v u : World)
      → Later cfg w.jobs v.jobs
      → v.queue ≡ w.queue
      → Uses p cfg dispatch id v u
      → Uses p cfg dispatch id w u
  Uses-after id w v u late q (l, inl e) = (Later-trans cfg w.jobs v.jobs u.jobs late l, inl (e ∙ q))
  Uses-after id w v u late q (l, inr (e, less)) = (
    Later-trans cfg w.jobs v.jobs u.jobs late l,
    inr (e ∙ ap (λ l. l ++ id ∷ []) q, omega (arith, less, late (p.canon id))),
  )

  Uses-refl : (id : Str) (w : World) → Uses p cfg dispatch id w w
  Uses-refl id w = (λ k. omega arith, inl refl)

  module _ (ev : JobEvents) (id : Str) where
    abbrev start_of : ℕ → Job → Job
    start_of now j = record j { status = processing; started_at = some now }

    start-Later :
        (c : Call) (w : World) → Later cfg w.jobs (update_job_started p.canon c w.now id w.jobs).0
    unfolding update_job_started
    start-Later c w = Later-perform cfg c (p.canon id) (start_of w.now) w.jobs (record {
      keeps_id = λ j. refl;
      keeps_operation = λ j. refl;
      keeps_count = λ j. omega arith;
    })

    from_start-Uses :
        (c : Call) (w : World) (j : Job)
        → find_job (p.canon id) w.jobs ≡ some j
        → Uses p cfg dispatch id w (
            let w' : World = record w { jobs = (update_job_started p.canon c w.now id w.jobs).0 } in
            if (update_job_started p.canon c w.now id w.jobs).1
            then with_key p cfg dispatch ev id j w' (derive_key p.hkdf cfg.master_key id)
            else w')
    unfolding update_job_started
    from_start-Uses answered w j found =
        Uses-after id w w'
          (with_key p cfg dispatch ev id j w' (derive_key p.hkdf cfg.master_key id))
          (start-Later answered w) refl
          (with_key-Uses p cfg dispatch id ev j (start_of w.now j) w'
            (derive_key p.hkdf cfg.master_key id)
            (find_job-modify_job_self (p.canon id) (start_of w.now) w.jobs (λ j. refl)
              ∙ ap (map_row (start_of w.now)) found)
            refl)
      where
        w' : World
        w' = record w { jobs = modify_job (p.canon id) (start_of w.now) w.jobs }
    from_start-Uses refused w j found = Uses-refl id w
    from_start-Uses lost w j found = (start-Later lost w, inl refl)

    status_row-Uses :
        (w : World) (j : Job) (st : Status)
        → find_job (p.canon id) w.jobs ≡ some j
        → Uses p cfg dispatch id w (status_row p cfg dispatch ev id w j st)
    status_row-Uses w j pending found = from_start-Uses ev.start w j found
    status_row-Uses w j processing found = Uses-refl id w
    status_row-Uses w j completed found = Uses-refl id w
    status_row-Uses w j failed found = Uses-refl id w

    from_row-Uses :
        (reached : Bool) (w : World)
        → Uses p cfg dispatch id w
            (from_row p cfg dispatch ev id w (get_job p.canon reached id w.jobs))
    unfolding get_job
    from_row-Uses false w = Uses-refl id w
    from_row-Uses true w = by (find_job (p.canon id) w.jobs) refl
      where
        by :
            (o : Option Job)
            → find_job (p.canon id) w.jobs ≡ o
            → Uses p cfg dispatch id w (from_row p cfg dispatch ev id w (to_found o))
        by none e = Uses-refl id w
        by (some j) e = status_row-Uses w j j.status e

    pub process_job-Uses :
        (w : World) → Uses p cfg dispatch id w (process_job p cfg dispatch ev id w)
    process_job-Uses w = rw (process_job-from_row p cfg dispatch ev id w) (by ev.make_tmp)
      where
        by :
            (b : Bool)
            → Uses p cfg dispatch id w (
                if b
                then from_row p cfg dispatch ev id w (get_job p.canon ev.reached id w.jobs)
                else fail_job p cfg dispatch ev.fail id
                    (codes "Internal error: failed to create temp directory")
                    w)
        by true = from_row-Uses ev.reached w
        by false = fail_job-Uses p cfg dispatch id ev.fail _ w

  -- What is left to do: for every id in the queue a round, and one for each retry of its row.
  abbrev total : List Job → List Str → ℕ
  total js [] = 0
  total js (y ∷ q) = suc (left cfg (find_job (p.canon y) js)) + total js q

  total-append : (js : List Job) (q r : List Str) → total js (q ++ r) ≡ total js q + total js r
  total-append js [] r = omega arith
  total-append js (y ∷ q) r = omega (arith, total-append js q r)

  total-Later : (js js' : List Job) (q : List Str) → Later cfg js js' → total js' q ≤ total js q
  total-Later js js' [] h = omega arith
  total-Later js js' (y ∷ q) h = omega (arith, h (p.canon y), total-Later js js' q h)

  total-pop_right :
      (js : List Job) (q ys : List Str) (y : Str)
      → pop_right q ≡ some (y, ys)
      → total js q ≡ suc (left cfg (find_job (p.canon y) js)) + total js ys
  total-pop_right js q ys y e =
      rw (pop_right_inv q y ys e, total-append js ys (y ∷ [])) (omega arith)

  bounded :
      (m : ℕ) (js : List Job) (q : List Str)
      → ((op : Operation) → cfg.max_retries op ≤ m)
      → total js q ≤ length q * (m + 1)
  bounded m js [] h = omega arith
  bounded m js (y ∷ q) h = omega (arith, bounded m js q h, left-bounded (find_job (p.canon y) js))
    where
      left-bounded : (o : Option Job) → left cfg o ≤ m
      left-bounded none = omega arith
      left-bounded (some j) = omega (arith, h j.operation)

  round-falls :
      (ev : JobEvents) (w : World) (ys : List Str) (y : Str)
      → pop_right w.queue ≡ some (y, ys)
      → total (run_round p cfg dispatch true ev w).jobs (run_round p cfg dispatch true ev w).queue
        < total w.jobs w.queue
  unfolding dequeue
  round-falls ev w ys [] e =
      rw
        (
          round_empty p cfg dispatch ev true w ys (ap (popped w.queue) e),
          total-pop_right w.jobs w.queue ys [] e,
        )
        (omega arith)
  round-falls ev w ys (c ∷ y) e =
      rw
        (
          round_job p cfg dispatch ev true w ys c y (ap (popped w.queue) e),
          total-pop_right w.jobs w.queue ys (c ∷ y) e,
        )
        (falls (process_job p cfg dispatch ev (c ∷ y) w1) (process_job-Uses ev (c ∷ y) w1))
    where
      w1 : World
      w1 = record w { queue = ys }

      falls :
          (u : World)
          → Uses p cfg dispatch (c ∷ y) w1 u
          → total u.jobs u.queue
            < suc (left cfg (find_job (p.canon (c ∷ y)) w.jobs)) + total w.jobs ys
      falls u (late, inl q) = rw q (omega (arith, total-Later w.jobs u.jobs ys late))
      falls u (late, inr (q, less)) =
          let sum = total-append u.jobs ys ((c ∷ y) ∷ []) in
          rw q (omega (arith, total-Later w.jobs u.jobs ys late, less, sum))

  -- A round on an empty queue, or without Redis, changes nothing.
  round-idle :
      (ev : JobEvents) (w : World)
      → pop_right w.queue ≡ none
      → run_round p cfg dispatch true ev w ≡ w
  unfolding dequeue
  round-idle ev w e = round_timed_out p cfg dispatch ev true w w.queue (ap (popped w.queue) e)

  round-unreached : (ev : JobEvents) (w : World) → run_round p cfg dispatch false ev w ≡ w
  unfolding dequeue
  round-unreached ev w = round_error p cfg dispatch ev false w w.queue refl

  run-empty :
      (rounds : List (Bool × JobEvents)) (w : World)
      → total w.jobs w.queue ≤ reached_rounds rounds
      → (run p cfg dispatch rounds w).queue ≡ []
  run-empty [] w h = rw (run_nil p cfg dispatch w) (by w.queue h)
    where
      by : (q : List Str) → total w.jobs q ≤ 0 → q ≡ []
      by [] h = refl
      by (y ∷ q) h = absurd (omega arith)
  run-empty ((false, ev) ∷ rounds) w h =
      rw (run_cons p cfg dispatch false ev rounds w, round-unreached ev w) (run-empty rounds w h)
  run-empty ((true, ev) ∷ rounds) w h =
      rw (run_cons p cfg dispatch true ev rounds w)
        (run-empty rounds (run_round p cfg dispatch true ev w) (by (pop_right w.queue) refl))
    where
      by :
          (o : Option (Str × List Str))
          → pop_right w.queue ≡ o
          → total
              (run_round p cfg dispatch true ev w).jobs
              (run_round p cfg dispatch true ev w).queue
            ≤ reached_rounds rounds
      by none e = rw (round-idle ev w e) (rw (pop_right-none w.queue e) (omega arith))
      by (some (y, ys)) e = omega (arith, h, round-falls ev w ys y e)

  -- Between two uploads the queue drains. Let no operation have more than `m` retries. If at least
  -- (m + 1) rounds for every id in the queue reach Redis, the queue is empty after the rounds,
  -- whatever the rows, the files, the processors and the calls of the database do in them, and
  -- however the rounds that do not reach Redis stand among them.
  pub run_drains :
      (m : ℕ) (rounds : List (Bool × JobEvents)) (w : World)
      → ((op : Operation) → cfg.max_retries op ≤ m)
      → length w.queue * (m + 1) ≤ reached_rounds rounds
      → (run p cfg dispatch rounds w).queue ≡ []
  run_drains m rounds w most enough =
      run-empty rounds w (omega (arith, bounded m w.jobs w.queue most, enough))
