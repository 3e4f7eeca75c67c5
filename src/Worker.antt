-- ===== src/Worker.antt =====
-- cmd/worker/main.go: processJob, handleProcessError, failJob and the loop of run. The processors
-- are a parameter `dispatch` here; what the outside does during a job is a record of events.
pub mod Outcomes
pub mod Retries
pub mod Pipeline
pub mod Orphan
pub mod Cases
pub mod Effects
pub mod Locality
pub mod Whole
pub mod Drain
pub mod Rounds
pub mod Programs
use ilove_convertion.Base.{
  ℕ, ◌+◌, Bool, true, false, Option, none, some, List, [], ◌∷◌, ◌++◌, Str, codes, ltb, leb,
  if◌then◌else◌, length, take,
}
use ilove_convertion.Models.{
  Status, pending, processing, completed, failed, Operation, JobParams, Job, input_ext, output_name,
}
use ilove_convertion.Models.Params.{parse_params}
use ilove_convertion.Crypto.{Bytes, derive_key}
use ilove_convertion.Crypto.Files.{FileEvents, FileError, encrypt_file, decrypt_file}
use ilove_convertion.Database.{
  Call, Found, row, no_rows, db_error, get_job, update_job_started, update_job_completed,
  update_job_failed, increment_retry_count,
}
use ilove_convertion.Queue.{requeue, dequeue, Dequeued, job, timed_out, dequeue_error}
use ilove_convertion.Storage.{Files, read_file, remove_file, write_file}
use ilove_convertion.World.{World, Platform}

pub record WorkerConfig : Type 0 where
  pub master_key : Bytes
  pub max_retries : Operation → ℕ

-- The error of a processor, or what stands in the output file after it: `none` if there is none.
pub data Processed : Type 0 where
  process_error : Str → Processed
  processed : Option Bytes → Processed

-- A processor is given the operation, the parameters, the two extensions and the input.
abbrev pub Dispatch : Type 0
Dispatch = Operation → JobParams → Str → Str → Bytes → Processed

pub record JobEvents : Type 0 where
  pub make_tmp : Bool
  pub reached : Bool
  pub start : Call
  pub decrypt : FileEvents
  pub random : Option Bytes
  pub encrypt : FileEvents
  pub complete : Call
  pub increment : Call
  pub push_back : Call
  pub fail : Call

-- "…" in UTF-8.
abbrev pub ellipsis : Str
ellipsis = 0xe2 ∷ 0x80 ∷ 0xa6 ∷ []

-- `if len(msg) > 1000 { msg = msg[:1000] + "…" }`
unfoldable pub clip : Str → Str
clip msg = if ltb 1000 (length msg) then take 1000 msg ++ ellipsis else msg

-- The file after a write that may have removed it.
abbrev set_file : Str → Option Bytes → Files → Files
set_file k none fs = remove_file k fs
set_file k (some b) fs = write_file k b fs

-- The texts of the file errors are the crypto package's.
abbrev decrypt_failed : Str
decrypt_failed = codes "Failed to decrypt input"

abbrev encrypt_failed : Str
encrypt_failed = codes "Failed to encrypt output"

abbrev no_output : Str
no_output = codes "Processing completed but output file is missing or empty"

abbrev or_bin : Str → Str
or_bin [] = codes "bin"
or_bin (c ∷ s) = c ∷ s

abbrev or_input : Str → Str → Str
or_input [] input = input
or_input (c ∷ s) input = c ∷ s

module _ (p : Platform) (cfg : WorkerConfig) (dispatch : Dispatch) where
  unfoldable pub fail_job : Call → Str → Str → World → World
  unfolding clip
  fail_job c job_id msg w = record w {
    jobs = (update_job_failed p.canon c w.now job_id (clip msg) w.jobs).0;
  }

  after_requeue : JobEvents → Str → Str → World → List Str × Bool → World
  unfolding fail_job
  after_requeue ev job_id msg w (q, true) = record w { queue = q }
  after_requeue ev job_id msg w (q, false) = fail_job ev.fail job_id msg (record w { queue = q })

  after_increment : JobEvents → Operation → Str → Str → World → Option ℕ → World
  unfolding after_requeue
  after_increment ev op job_id msg w none = fail_job ev.fail job_id msg w
  after_increment ev op job_id msg w (some count) =
      if leb count (cfg.max_retries op)
      then after_requeue ev job_id msg w (requeue ev.push_back job_id w.queue)
      else fail_job ev.fail job_id msg w

  unfoldable pub handle_process_error : JobEvents → Operation → Str → Str → World → World
  unfolding after_increment
  handle_process_error ev op job_id msg w =
      let (jobs, count) = increment_retry_count p.canon ev.increment job_id w.jobs in
      after_increment ev op job_id msg (record w { jobs = jobs }) count

  -- From EncryptFile on: the output is stored, and the row completed; an error of the last call is
  -- only logged.
  pub after_encrypt_file :
      JobEvents → Str → Job → JobParams → ℕ → World → Option Bytes × Option FileError → World
  after_encrypt_file ev job_id j params size w (file, some e) =
      fail_job ev.fail job_id encrypt_failed
        (record w { store = record (w.store) { outputs = set_file job_id file w.store.outputs } })
  after_encrypt_file ev job_id j params size w (file, none) = record w {
    store = record (w.store) { outputs = set_file job_id file w.store.outputs };
    jobs =
        (update_job_completed p.canon ev.complete w.now job_id
          (output_name j.original_name params.output_format) size w.jobs).0;
  }

  pub after_dispatch : JobEvents → Str → Job → JobParams → Bytes → World → Processed → World
  unfolding after_encrypt_file handle_process_error
  after_dispatch ev job_id j params key w (process_error msg) =
      handle_process_error ev j.operation job_id msg w
  after_dispatch ev job_id j params key w (processed none) = fail_job ev.fail job_id no_output w
  after_dispatch ev job_id j params key w (processed (some [])) =
      fail_job ev.fail job_id no_output w
  after_dispatch ev job_id j params key w (processed (some (b ∷ bs))) =
      after_encrypt_file ev job_id j params (length (b ∷ bs)) w (
        encrypt_file p.aead key ev.random ev.encrypt (some (b ∷ bs))
          (read_file job_id w.store.outputs))

  after_decrypt_file :
      JobEvents → Str → Job → JobParams → Bytes → World → Option Bytes × Option FileError → World
  unfolding after_dispatch
  after_decrypt_file ev job_id j params key w (file, some e) =
      fail_job ev.fail job_id decrypt_failed w
  after_decrypt_file ev job_id j params key w (none, none) =
      fail_job ev.fail job_id decrypt_failed w
  after_decrypt_file ev job_id j params key w (some input, none) =
      let in_ext = or_bin (input_ext j) in
      after_dispatch ev job_id j params key w
        (dispatch j.operation params in_ext (or_input params.output_format in_ext) input)

  with_params : JobEvents → Str → Job → Bytes → World → Option JobParams → World
  unfolding after_decrypt_file
  with_params ev job_id j key w none = fail_job ev.fail job_id (codes "Invalid parameters") w
  with_params ev job_id j key w (some params) =
      after_decrypt_file ev job_id j params key w
        (decrypt_file p.aead key ev.decrypt (read_file job_id w.store.inputs) none)

  pub with_key : JobEvents → Str → Job → World → Option Bytes → World
  unfolding with_params
  with_key ev job_id j w none = fail_job ev.fail job_id (codes "Encryption key derivation failed") w
  with_key ev job_id j w (some key) = with_params ev job_id j key w (parse_params j.params)

  start_job : JobEvents → Str → Job → World → World
  unfolding with_key
  start_job ev job_id j w =
      let (jobs, started) = update_job_started p.canon ev.start w.now job_id w.jobs in
      let w' = record w { jobs = jobs } in
      if started then with_key ev job_id j w' (derive_key p.hkdf cfg.master_key job_id) else w'

  by_status : JobEvents → Str → Job → World → Status → World
  unfolding start_job
  by_status ev job_id j w pending = start_job ev job_id j w
  by_status ev job_id j w processing = w
  by_status ev job_id j w completed = w
  by_status ev job_id j w failed = w

  fetched : JobEvents → Str → World → Found → World
  unfolding by_status
  fetched ev job_id w (row j) = by_status ev job_id j w j.status
  fetched ev job_id w no_rows = w
  fetched ev job_id w db_error = w

  unfoldable pub process_job : JobEvents → Str → World → World
  unfolding fetched
  process_job ev job_id w =
      if ev.make_tmp
      then fetched ev job_id w (get_job p.canon ev.reached job_id w.jobs)
      else fail_job ev.fail job_id (codes "Internal error: failed to create temp directory") w

  after_dequeue : JobEvents → World → List Str × Dequeued → World
  unfolding process_job
  after_dequeue ev w (q, timed_out) = w
  after_dequeue ev w (q, dequeue_error) = w
  after_dequeue ev w (q, job []) = record w { queue = q }
  after_dequeue ev w (q, job (c ∷ id)) = process_job ev (c ∷ id) (record w { queue = q })

  -- One round of the loop of run, and rounds one after another.
  unfoldable pub run_round : Bool → JobEvents → World → World
  unfolding after_dequeue
  run_round reached ev w = after_dequeue ev w (dequeue reached w.queue)

  unfoldable pub run : List (Bool × JobEvents) → World → World
  unfolding run_round
  run [] w = w
  run ((reached, ev) ∷ evs) w = run evs (run_round reached ev w)
