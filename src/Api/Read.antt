-- ===== src/Api/Read.antt =====
-- handleGetJob and handleDownload of cmd/api/handlers.go. They read the world and do not change it.
pub mod Serving
use ilove_convertion.Base.{
  ℕ, zero, suc, Bool, false, not, Option, none, some, [], ◌∷◌, Str, codes, ext, if◌then◌else◌,
}
use ilove_convertion.Models.{
  Status, pending, processing, completed, failed, mime_for_extension, Job, to_response,
}
use ilove_convertion.Form.{sanitize_filename}
use ilove_convertion.Crypto.{Bytes, CryptoError, Sink, decrypt_stream, derive_key}
use ilove_convertion.Database.{Found, row, no_rows, db_error, get_job}
use ilove_convertion.Storage.{read_file, output_exists}
use ilove_convertion.World.{World, Platform}
use ilove_convertion.Api.{job_body, attachment, Response, failure}

module _ (p : Platform) where
  found_job : Found → Response
  found_job (row j) = record { code = 200; body = job_body (to_response j) }
  found_job no_rows = failure 404 (codes "Job not found")
  found_job db_error = failure 500 (codes "Database error")

  unfoldable pub handle_get_job : Bool → Str → World → Response
  unfolding found_job
  handle_get_job reached job_id w =
      if p.is_uuid job_id
      then found_job (get_job p.canon reached job_id w.jobs)
      else failure 400 (codes "Invalid job ID")

-- `msg := "Job failed"; if job.ErrorMessage.Valid { msg = job.ErrorMessage.String }`
failed_message : Option Str → Str
failed_message none = codes "Job failed"
failed_message (some m) = m

unfoldable pub name_of_output : Option Str → Str
name_of_output none = codes "download"
name_of_output (some []) = codes "download"
name_of_output (some (c ∷ s)) = c ∷ s

-- The Content-Length header is set if the size is there and positive.
unfoldable pub content_length : Option ℕ → Option ℕ
content_length none = none
content_length (some zero) = none
content_length (some (suc n)) = some (suc n)

-- A download: the response, and the error that DecryptStream returned once the headers were sent.
pub record Download : Type 0 where
  pub response : Response
  pub stream_error : Option CryptoError

-- The bytes that went to the client, all of which it takes.
abbrev pub client : ℕ → Sink
client room = record { written = []; room = room }

module _ (p : Platform) (master_key : Bytes) where
  send : Job → Option (Sink × Option CryptoError) → Download
  unfolding name_of_output content_length
  send j none = record { response = failure 500 []; stream_error = none }
  send j (some (d, e)) =
      let name = name_of_output j.output_filename in
      record {
        response = record {
          code = 200;
          body =
              attachment (mime_for_extension (ext name)) (sanitize_filename name)
                (content_length j.output_size) d.written;
        };
        stream_error = e;
      }

  refuse : Response → Download
  refuse r = record { response = r; stream_error = none }

  open_output : ℕ → Job → Bytes → Option Bytes → Download
  unfolding send refuse
  open_output room j key none = refuse (failure 500 (codes "Failed to read file"))
  open_output room j key (some file) =
      send j (decrypt_stream p.aead key (record { content = file; fails = false }) (client room))

  with_key : ℕ → Str → Job → World → Option Bytes → Download
  unfolding open_output
  with_key room job_id j w none = refuse (failure 500 (codes "Internal error"))
  with_key room job_id j w (some key) = open_output room j key (read_file job_id w.store.outputs)

  by_status : ℕ → Str → Job → World → Status → Download
  unfolding with_key failed_message
  by_status room job_id j w pending = refuse (failure 409 (codes "Job is still processing"))
  by_status room job_id j w processing = refuse (failure 409 (codes "Job is still processing"))
  by_status room job_id j w failed = refuse (failure 422 (failed_message j.error_message))
  by_status room job_id j w completed =
      if output_exists job_id w.store
      then with_key room job_id j w (derive_key p.hkdf master_key job_id)
      else refuse (failure 404 (codes "Output file not found (may have expired)"))

  download_found : ℕ → Str → World → Found → Download
  unfolding by_status
  download_found room job_id w (row j) = by_status room job_id j w j.status
  download_found room job_id w no_rows = refuse (failure 404 (codes "Job not found"))
  download_found room job_id w db_error = refuse (failure 500 (codes "Database error"))

  -- `room` is how many bytes the client takes before its connection fails.
  unfoldable pub handle_download : Bool → ℕ → Str → World → Download
  unfolding download_found
  handle_download reached room job_id w =
      if p.is_uuid job_id
      then download_found room job_id w (get_job p.canon reached job_id w.jobs)
      else refuse (failure 400 (codes "Invalid job ID"))
