-- ===== src/Worker/Pipeline.antt =====
-- The whole way of a file: upload, queue, worker, download.
use ilove_convertion.Base.{ℕ, ◌≤◌, ◌≡◌, ◌≢◌, refl, ap, ◌∙◌, true, none, some, [], ◌∷◌, Str, length}
use ilove_convertion.Models.{Operation, JobParams, Job, Session, input_ext, output_name}
use ilove_convertion.Models.Params.{parse_params-marshal}
use ilove_convertion.Crypto.{Bytes, IsAead, hkdf_info}
use ilove_convertion.Crypto.Io.{source}
use ilove_convertion.Crypto.RoundTrip.{file}
use ilove_convertion.Database.{find_job}
use ilove_convertion.Database.Rows.{find_job-modify_job_self, find_job_new}
use ilove_convertion.Storage.{read_file-write_file_self}
use ilove_convertion.World.{World, Platform, ApiConfig, IsPlatform}
use ilove_convertion.Api.Upload.{
  UploadRequest, UploadEvents, FileHeader, accepted, check_upload, handle_create_job,
}
use ilove_convertion.Api.Upload.Atomic.{IsSmooth, uploaded, stored, handle_create_job_stores}
use ilove_convertion.Api.Read.{handle_download}
use ilove_convertion.Api.Read.Serving.{served, handle_download_completed}
use ilove_convertion.Worker.{
  WorkerConfig, Dispatch, processed, JobEvents, run_round, or_bin, or_input,
}
use ilove_convertion.Worker.Outcomes.{
  takes_job, IsSmoothRun, process_job_finishes, finished, started, done,
}

module _ (p : Platform) (api : ApiConfig) (cfg : WorkerConfig) (dispatch : Dispatch) where
  -- The row of a job that a worker finished.
  abbrev pub finished_row : ℕ → Bytes → Job → JobParams → Job
  finished_row now out j params =
      done now (output_name j.original_name params.output_format) (length out) (started now j)

  finished_found :
      (job_id : Str) (name : Str) (nonce out : Bytes) (w : World) (j : Job)
      → find_job job_id w.jobs ≡ some j
      → find_job job_id (finished p cfg dispatch job_id name nonce out w).jobs
        ≡ some (done w.now name (length out) (started w.now j))
  finished_found job_id name nonce out w j found = rw (
    find_job-modify_job_self job_id (done w.now name (length out)) _ (λ i. refl),
    find_job-modify_job_self job_id (started w.now) w.jobs (λ i. refl),
    found,
  )

  -- With the same master key of 32 bytes in the API and the worker, an empty queue, and no failure
  -- of any call, file or processor, a file that is uploaded under a new id, taken from the queue
  -- by a worker and downloaded comes back as what the processor of its operation made of its
  -- bytes, if that is not empty: the upload is answered with 201, and the download with the output
  -- under its new name, whole and decrypted.
  pub upload_process_download :
      (ev : UploadEvents) (jev : JobEvents) (s : Session) (r : UploadRequest) (w : World)
      (op : Operation) (h : FileHeader) (params : JobParams) (nonce nonce' input : Bytes) (b : ℕ)
      (out : Bytes) (room : ℕ)
      → IsAead p.aead
      → IsPlatform p
      → length api.master_key ≡ 32
      → cfg.master_key ≡ api.master_key
      → ev.new_id ≢ []
      → p.canon ev.new_id ≡ ev.new_id
      → p.is_uuid ev.new_id ≡ true
      → find_job ev.new_id w.jobs ≡ none
      → w.queue ≡ []
      → check_upload api r ≡ accepted op h params
      → h.content ≡ source input
      → IsSmooth ev nonce (length input)
      → IsSmoothRun p cfg dispatch jev nonce' (length input) (length (b ∷ out))
      → let j = uploaded api ev s op h params w.now in
        dispatch op params
            (or_bin (input_ext j))
            (or_input params.output_format (or_bin (input_ext j)))
            input
          ≡ processed (some (b ∷ out))
        → length (b ∷ out) ≤ room
        → let (w1, resp) = handle_create_job p api ev (some s) r w in
          (resp.code ≡ 201)
          × (handle_download p api.master_key true room ev.new_id
                (run_round p cfg dispatch true jev w1)
              ≡ served (finished_row w.now (b ∷ out) j params) (b ∷ out))
  upload_process_download ev jev s r w op h params nonce nonce' input b out room law plat key same
        nonempty canon uuid fresh q chk src sm smr run fits =
      let j : Job = uploaded api ev s op h params w.now in
      let upload : Bytes = file p.aead (p.hkdf api.master_key ev.new_id hkdf_info) nonce input in
      let w1 : World = stored w j upload in
      let w2 : World = record w1 { queue = [] } in
      let name : Str = output_name h.filename params.output_format in
      let created =
        handle_create_job_stores p api ev s r w op h params nonce input law plat key sm chk src
          fresh in
      let worked : run_round p cfg dispatch true jev w1
          ≡ finished p cfg dispatch ev.new_id name nonce' (b ∷ out) w2 =
        takes_job p cfg dispatch jev ev.new_id w1 nonempty (ap (λ l. ev.new_id ∷ l) q)
        ∙ process_job_finishes p cfg dispatch jev ev.new_id w2 j params nonce nonce' input b out law
            plat (ap length same ∙ key) canon (find_job_new j w.jobs) refl
            (parse_params-marshal params) sm.nonce_long
            (rw same (read_file-write_file_self ev.new_id upload w.store.inputs)) run smr in
      let w3 : World = finished p cfg dispatch ev.new_id name nonce' (b ∷ out) w2 in
      let download =
        handle_download_completed p api.master_key room ev.new_id w3
          (finished_row w.now (b ∷ out) j params) nonce' (b ∷ out) law plat key uuid
          (rw canon (finished_found ev.new_id name nonce' (b ∷ out) w2 j (find_job_new j w.jobs)))
          refl smr.nonce_long (rw same (read_file-write_file_self ev.new_id _ w.store.outputs))
          fits in
      rw created (refl, rw worked download)
