-- ===== src/Api/Upload.antt =====
-- handleCreateJob of cmd/api/handlers.go: the checks of the request, then the row, the key, the
-- encrypted file and the queue, each step undone where a later one fails.
pub mod Atomic
pub mod Refusals
pub mod Rollback
pub mod Locality
use ilove_convertion.Base.{
  ℕ, Bool, Option, none, some, List, [], Str, codes, to_lower, trim_dot, trim_space, ext, ltb, ◌==◌,
  if◌then◌else◌,
}
use ilove_convertion.Models.{
  Operation, valid_operation, valid_input_format, JobParams, Job, to_response, Session,
}
use ilove_convertion.Form.{Result, ok, err, Form, normalize_ext, parse_and_validate_params}
use ilove_convertion.Crypto.{Bytes, CryptoError, Source, Sink, encrypt_stream, derive_key}
use ilove_convertion.Database.{Call, create_job, delete_job}
use ilove_convertion.Queue.{enqueue}
use ilove_convertion.Storage.{Storage, write_file, delete_job_files}
use ilove_convertion.World.{World, Platform, ApiConfig}
use ilove_convertion.Api.{job_body, param_message, Response, failure}

-- r.ParseMultipartForm behind http.MaxBytesReader.
pub data ParsedForm : Type 0 where
  parsed too_large invalid : ParsedForm

-- r.FormFile("file"): the name, the size of the header, and the bytes.
pub record FileHeader : Type 0 where
  pub filename : Str
  pub size : ℕ
  pub content : Source

pub record UploadRequest : Type 0 where
  pub parse : ParsedForm
  pub form : Form
  pub file : Option FileHeader

-- What the checks of handleCreateJob end in.
pub data Checked : Type 0 where
  accepted : Operation → FileHeader → JobParams → Checked
  rejected : Response → Checked

check_params : Operation → FileHeader → Result JobParams → Checked
check_params op h (ok p) = accepted op h p
check_params op h (err e) = rejected (record { code = 400; body = param_message e })

abbrev pub upload_ext : Str → Str
upload_ext filename = normalize_ext (to_lower (trim_dot (ext filename)))

check_file : ApiConfig → UploadRequest → Operation → Option FileHeader → Checked
unfolding check_params
check_file cfg r op none = rejected (failure 400 (codes "No file provided. Use field name 'file'."))
check_file cfg r op (some h) =
    if ltb cfg.max_file_size h.size
    then rejected (failure 413 (codes "File too large"))
    else if h.size == 0
    then rejected (failure 400 (codes "File is empty"))
    else if valid_input_format op (upload_ext h.filename)
    then check_params op h (parse_and_validate_params r.form op (upload_ext h.filename))
    else rejected (failure 400 (codes "Unsupported input format"))

check_operation : ApiConfig → UploadRequest → Option Operation → Checked
unfolding check_file
check_operation cfg r none = rejected (failure 400 (codes "Invalid operation"))
check_operation cfg r (some op) = check_file cfg r op r.file

check_form : ApiConfig → UploadRequest → ParsedForm → Checked
unfolding check_operation
check_form cfg r too_large = rejected (failure 413 (codes "File too large"))
check_form cfg r invalid = rejected (failure 400 (codes "Invalid form data"))
check_form cfg r parsed = check_operation cfg r (valid_operation (trim_space r.form.operation))

unfoldable pub check_upload : ApiConfig → UploadRequest → Checked
unfolding check_form
check_upload cfg r = check_form cfg r r.parse

-- The outside during an upload.
pub record UploadEvents : Type 0 where
  pub new_id : Str
  pub create : Call
  pub open_input : Bool
  pub random : Option Bytes
  pub disk_room : ℕ
  pub sync : Bool
  pub push : Call
  pub delete : Call

module _ (p : Platform) (cfg : ApiConfig) where
  -- `a.db.DeleteJob`, its result ignored.
  drop_job : Call → Str → World → World
  drop_job c job_id w = record w { jobs = (delete_job p.canon c job_id w.jobs).0 }

  drop_job_and_files : Call → Str → World → World
  unfolding drop_job
  drop_job_and_files c job_id w =
      let w' = drop_job c job_id w in record w' { store = delete_job_files job_id w'.store }

  -- From a.queue.Enqueue on.
  queue_job : UploadEvents → Job → World → World × Response
  unfolding drop_job_and_files
  queue_job ev job w =
      let (q, pushed) = enqueue ev.push job.id w.queue in
      let w' = record w { queue = q } in
      if pushed
      then (w', record { code = 201; body = job_body (to_response job) })
      else (drop_job_and_files ev.delete job.id w', failure 500 (codes "Failed to queue job"))

  -- What EncryptStream wrote stays in the file, whatever it returned.
  after_encrypt : UploadEvents → Job → World → Option (Sink × Option CryptoError) → World × Response
  unfolding queue_job
  after_encrypt ev job w none =
      (drop_job_and_files ev.delete job.id w, failure 500 (codes "Failed to process upload"))
  after_encrypt ev job w (some (d, some e)) =
      let w' = record w {
        store = record (w.store) { inputs = write_file job.id d.written w.store.inputs };
      } in
      (drop_job_and_files ev.delete job.id w', failure 500 (codes "Failed to process upload"))
  after_encrypt ev job w (some (d, none)) =
      let w' = record w {
        store = record (w.store) { inputs = write_file job.id d.written w.store.inputs };
      } in
      if ev.sync
      then queue_job ev job w'
      else (drop_job_and_files ev.delete job.id w', failure 500 (codes "Failed to process upload"))

  -- From filecrypto.DeriveKey on.
  store_upload : UploadEvents → FileHeader → Job → Option Bytes → World → World × Response
  unfolding after_encrypt
  store_upload ev h job none w = (drop_job ev.delete job.id w, failure 500 (codes "Internal error"))
  store_upload ev h job (some key) w =
      if ev.open_input
      then after_encrypt ev job w (
          encrypt_stream p.aead key ev.random h.content
            (record { written = []; room = ev.disk_room }))
      else (drop_job ev.delete job.id w, failure 500 (codes "Storage error"))

  after_create : UploadEvents → FileHeader → World → List Job × Option Job → World × Response
  unfolding store_upload
  after_create ev h w (jobs, none) =
      (record w { jobs = jobs }, failure 500 (codes "Failed to create job"))
  after_create ev h w (jobs, some job) =
      store_upload ev h job (derive_key p.hkdf cfg.master_key job.id) (record w { jobs = jobs })

  with_session : UploadEvents → Option Session → Checked → World → World × Response
  unfolding after_create
  with_session ev session (rejected r) w = (w, r)
  with_session ev none (accepted op h params) w = (w, failure 500 (codes "Session error"))
  with_session ev (some s) (accepted op h params) w = after_create ev h w (
      create_job ev.create ev.new_id
        (record {
          session_id = s.id;
          operation = op;
          original_name = h.filename;
          input_size = h.size;
          params = params;
        })
        cfg.file_retention_hours w.now w.jobs)

  unfoldable pub handle_create_job :
      UploadEvents → Option Session → UploadRequest → World → World × Response
  unfolding with_session
  handle_create_job ev session r w = with_session ev session (check_upload cfg r) w
