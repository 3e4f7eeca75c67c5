-- ===== src/Api/Upload/Atomic.antt =====
-- An upload either stores its job, its file and its queue entry, or leaves nothing behind.
use ilove_convertion.Base.{ℕ, ◌≤◌, ◌≡◌, true, none, some, [], ◌∷◌, Str, length, arith}
use ilove_convertion.Models.{Operation, JobParams, Job, Session, to_response}
use ilove_convertion.Crypto.{Bytes, encrypt_stream, derive_key, hkdf_info, nonce_size}
use ilove_convertion.Crypto.Io.{source, advance}
use ilove_convertion.Crypto.RoundTrip.{file, file_length, length-file, encrypt_stream_lem}
use ilove_convertion.Crypto.{IsAead}
use ilove_convertion.Database.{answered, new_job, create_job, find_job}
use ilove_convertion.Queue.{enqueue}
use ilove_convertion.Storage.{write_file}
use ilove_convertion.World.{World, Platform, ApiConfig, IsPlatform}
use ilove_convertion.Api.{job_body}
use ilove_convertion.Api.Upload.{
  UploadRequest, UploadEvents, FileHeader, accepted, check_upload, handle_create_job,
}

-- The row of an accepted upload.
abbrev pub uploaded :
    ApiConfig → UploadEvents → Session → Operation → FileHeader → JobParams → ℕ → Job
uploaded cfg ev s op h params now =
    new_job ev.new_id
      (record {
        session_id = s.id;
        operation = op;
        original_name = h.filename;
        input_size = h.size;
        params = params;
      })
      cfg.file_retention_hours now

-- The world when the upload is stored.
abbrev pub stored : World → Job → Bytes → World
stored w j bs = record w {
  jobs = j ∷ w.jobs;
  queue = j.id ∷ w.queue;
  store = record (w.store) { inputs = write_file j.id bs w.store.inputs };
}

-- Nothing goes wrong in the course of an upload.
pub record IsSmooth (ev : UploadEvents) (nonce : Bytes) (size : ℕ) : Type 0 where
  pub created : ev.create ≡ answered
  pub opened : ev.open_input ≡ true
  pub random_nonce : ev.random ≡ some nonce
  pub nonce_long : length nonce ≡ nonce_size
  pub room_enough : file_length size ≤ ev.disk_room
  pub synced : ev.sync ≡ true
  pub pushed : ev.push ≡ answered

module _ (p : Platform) (cfg : ApiConfig) where
  abbrev pub job_key : Str → Bytes
  job_key job_id = p.hkdf cfg.master_key job_id hkdf_info

  encrypted :
      (ev : UploadEvents) (key nonce bs : Bytes)
      → IsAead p.aead
      → p.aead.new_cipher key ≡ true
      → IsSmooth ev nonce (length bs)
      → encrypt_stream p.aead key ev.random
          (source bs)
          (record { written = []; room = ev.disk_room })
        ≡ some (
          advance (record { written = []; room = ev.disk_room }) (file p.aead key nonce bs),
          none,
        )
  encrypted ev key nonce bs law k sm = rw (sm.random_nonce) (
      encrypt_stream_lem p.aead key nonce bs (record { written = []; room = ev.disk_room }) k
        (omega (arith, length-file p.aead key law nonce bs sm.nonce_long, sm.room_enough)))

  -- An accepted upload with a session, where nothing goes wrong, with AES-GCM and HKDF as `IsAead`
  -- and `IsPlatform` say, a master key of 32 bytes and an id that no row has: the answer is 201
  -- with the new job, the job's row is in the table as pending, its id at the left end of the
  -- queue, and its input file is the encryption of the bytes under the job's key.
  pub handle_create_job_stores :
      (ev : UploadEvents) (s : Session) (r : UploadRequest) (w : World) (op : Operation)
      (h : FileHeader) (params : JobParams) (nonce bs : Bytes)
      → IsAead p.aead
      → IsPlatform p
      → length cfg.master_key ≡ 32
      → IsSmooth ev nonce (length bs)
      → check_upload cfg r ≡ accepted op h params
      → h.content ≡ source bs
      → find_job ev.new_id w.jobs ≡ none
      → let j = uploaded cfg ev s op h params w.now in
        handle_create_job p cfg ev (some s) r w ≡ (
          stored w j (file p.aead (job_key ev.new_id) nonce bs),
          record { code = 201; body = job_body (to_response j) },
        )
  unfolding handle_create_job create_job enqueue derive_key
  handle_create_job_stores ev s r w op h params nonce bs law plat key sm chk src fresh = rw (
    chk,
    fresh,
    sm.created,
    key,
    sm.opened,
    src,
    encrypted ev (job_key ev.new_id) nonce bs law
        (plat.keys_accepted cfg.master_key ev.new_id hkdf_info) sm,
    sm.synced,
    sm.pushed,
  )
