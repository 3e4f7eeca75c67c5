-- ===== src/Worker/Outcomes.antt =====
-- processJob on a job that is not pending, and on one where nothing goes wrong.
use ilove_convertion.Base.{
  ℕ, ◌≤◌, ◌≡◌, ◌≢◌, refl, inl, inr, true, Option, none, some, [], ◌∷◌, Str, length, arith,
  Bool-cases,
}
use ilove_convertion.Models.{
  Status, pending, processing, completed, failed, JobParams, Job, input_ext, output_name,
}
use ilove_convertion.Models.Params.{parse_params}
use ilove_convertion.Crypto.{Bytes, IsAead, derive_key, hkdf_info, nonce_size}
use ilove_convertion.Crypto.Files.{FileEvents, encrypt_file, decrypt_file, empty_sink}
use ilove_convertion.Crypto.RoundTrip.{
  file, file_length, length-file, encrypt_stream_lem, decrypt_stream_lem,
}
use ilove_convertion.Database.{
  answered, get_job, find_job, modify_job, update_job_started, update_job_completed,
}
use ilove_convertion.Storage.{read_file, write_file}
use ilove_convertion.Queue.{dequeue, pop_right}
use ilove_convertion.World.{World, Platform, IsPlatform}
use ilove_convertion.Worker.{
  WorkerConfig, Dispatch, processed, JobEvents, process_job, run_round, fetched, by_status, or_bin,
  or_input,
}

-- Nothing goes wrong with a file: it is created, takes `size` bytes and is synced.
pub record IsSmoothFile (ev : FileEvents) (size : ℕ) : Type 0 where
  pub creates : ev.create ≡ true
  pub takes : size ≤ ev.room
  pub syncs : ev.sync ≡ true

module _ (p : Platform) (law : IsAead p.aead) (key nonce : Bytes) (k : p.aead.new_cipher key ≡ true)
    (l : length nonce ≡ nonce_size) where
  pub encrypt_file_lem :
      (ev : FileEvents) (bs : Bytes) (old : Option Bytes)
      → IsSmoothFile ev (file_length (length bs))
      → encrypt_file p.aead key (some nonce) ev (some bs) old
        ≡ (some (file p.aead key nonce bs), none)
  unfolding encrypt_file
  encrypt_file_lem ev bs old sm = rw (
    sm.creates,
    sm.syncs,
    encrypt_stream_lem p.aead key nonce bs (empty_sink ev.room) k
        (omega (arith, length-file p.aead key law nonce bs l, sm.takes)),
  )

  pub decrypt_file_lem :
      (ev : FileEvents) (bs : Bytes) (old : Option Bytes)
      → IsSmoothFile ev (length bs)
      → decrypt_file p.aead key ev (some (file p.aead key nonce bs)) old ≡ (some bs, none)
  unfolding decrypt_file
  decrypt_file_lem ev bs old sm = rw (
    sm.creates,
    sm.syncs,
    decrypt_stream_lem p.aead key law nonce bs (empty_sink ev.room) k l sm.takes,
  )

-- The job when a worker took it, and when it is done.
abbrev pub started : ℕ → Job → Job
started now j = record j { status = processing; started_at = some now }

abbrev pub done : ℕ → Str → ℕ → Job → Job
done now name size j = record j {
  status = completed;
  output_filename = some name;
  output_size = some size;
  completed_at = some now;
}

module _ (p : Platform) (cfg : WorkerConfig) (dispatch : Dispatch) where
  -- Where the temporary directory can be made, a job that is there and not pending is left alone:
  -- the world does not change.
  pub process_job_skips :
      (ev : JobEvents) (job_id : Str) (w : World) (j : Job)
      → ev.make_tmp ≡ true
      → find_job (p.canon job_id) w.jobs ≡ some j
      → j.status ≢ pending
      → process_job p cfg dispatch ev job_id w ≡ w
  unfolding process_job fetched get_job
  process_job_skips ev job_id w j tmp found np =
      rw tmp (elim (Bool-cases ev.reached) [
        | inl t ↦ rw (t, found) (by j.status np)
        | inr f ↦ rw f refl
      ])
    where
      by : (s : Status) → s ≢ pending → by_status p cfg dispatch ev job_id j w s ≡ w
      by pending h = absurd (h refl)
      by processing h = unfold by_status in refl
      by completed h = unfold by_status in refl
      by failed h = unfold by_status in refl

  abbrev pub worker_key : Str → Bytes
  worker_key job_id = p.hkdf cfg.master_key job_id hkdf_info

  -- Nothing goes wrong while a worker turns the input into an output of `out_size` bytes.
  pub record IsSmoothRun (ev : JobEvents) (nonce : Bytes) (in_size out_size : ℕ) : Type 0 where
    pub tmp_made : ev.make_tmp ≡ true
    pub row_read : ev.reached ≡ true
    pub start_done : ev.start ≡ answered
    pub decrypted : IsSmoothFile ev.decrypt in_size
    pub random_nonce : ev.random ≡ some nonce
    pub nonce_long : length nonce ≡ nonce_size
    pub encrypted : IsSmoothFile ev.encrypt (file_length out_size)
    pub complete_done : ev.complete ≡ answered

  -- The world after a run in which nothing goes wrong.
  abbrev pub finished : Str → Str → Bytes → Bytes → World → World
  finished job_id name nonce out w = record w {
    jobs =
        modify_job job_id (done w.now name (length out)) (modify_job job_id (started w.now) w.jobs);
    store = record (w.store) {
      outputs = write_file job_id (file p.aead (worker_key job_id) nonce out) w.store.outputs;
    };
  }

  pub process_job_finishes :
      (ev : JobEvents) (job_id : Str) (w : World) (j : Job) (params : JobParams)
      (nonce nonce' input : Bytes) (b : ℕ) (out : Bytes)
      → IsAead p.aead
      → IsPlatform p
      → length cfg.master_key ≡ 32
      → p.canon job_id ≡ job_id
      → find_job job_id w.jobs ≡ some j
      → j.status ≡ pending
      → parse_params j.params ≡ some params
      → length nonce ≡ nonce_size
      → read_file job_id w.store.inputs ≡ some (file p.aead (worker_key job_id) nonce input)
      → dispatch j.operation params
          (or_bin (input_ext j))
          (or_input params.output_format (or_bin (input_ext j)))
          input
        ≡ processed (some (b ∷ out))
      → IsSmoothRun ev nonce' (length input) (length (b ∷ out))
      → process_job p cfg dispatch ev job_id w
        ≡ finished job_id (output_name j.original_name params.output_format) nonce' (b ∷ out) w
  unfolding process_job update_job_started update_job_completed get_job derive_key
  process_job_finishes ev job_id w j params nonce nonce' input b out law plat key canon found st ps
        l ins run sm =
      let ok = plat.keys_accepted cfg.master_key job_id hkdf_info in
      simp (
        sm.tmp_made,
        sm.row_read,
        canon,
        found,
        st,
        sm.start_done,
        key,
        ps,
        ins,
        decrypt_file_lem p law (worker_key job_id) nonce ok l ev.decrypt input none sm.decrypted,
        run,
        sm.random_nonce,
        encrypt_file_lem p law (worker_key job_id) nonce' ok sm.nonce_long ev.encrypt (b ∷ out) _
            sm.encrypted,
        sm.complete_done,
      )

  -- A round of a worker takes the only id of the queue.
  pub takes_job :
      (ev : JobEvents) (id : Str) (w : World)
      → id ≢ []
      → w.queue ≡ id ∷ []
      → run_round p cfg dispatch true ev w
        ≡ process_job p cfg dispatch ev id (record w { queue = [] })
  unfolding run_round dequeue pop_right
  takes_job ev [] w h q = absurd (h refl)
  takes_job ev (c ∷ id) w h q = simp q
