-- ===== src/Scenario/Requests.antt =====
-- The handlers of the API on concrete requests.
use ilove_convertion.Base.{
  ℕ, Option, Str, ◌≤◌, ◌≡◌, ◌≢◌, ◌↔◌, ◌⊎◌, refl, true, false, none, some, [], ◌∷◌, codes, str_eq,
  is_empty, to_lower, trim_space, trim_dot, ext, All, arith,
}
use ilove_convertion.Models.{
  pending, completed, image_convert, Job, to_response, valid_operation, valid_input_format,
  valid_output_format,
}
use ilove_convertion.Form.{parse_and_validate_params, normalize_ext}
use ilove_convertion.Crypto.{Bytes, CryptoError, Sink, decrypt_stream, derive_key}
use ilove_convertion.Crypto.RoundTrip.{file}
use ilove_convertion.Crypto.RoundTrip.Tests.{toy, toy_nonce, toy-IsAead}
use ilove_convertion.Database.{answered, refused, find_job}
use ilove_convertion.Storage.{read_file}
use ilove_convertion.World.{World}
use ilove_convertion.Api.{job_body, attachment}
use ilove_convertion.Api.Upload.{UploadEvents, accepted, check_upload, handle_create_job}
use ilove_convertion.Api.Upload.Atomic.{IsSmooth, stored, handle_create_job_stores}
use ilove_convertion.Api.Upload.Rollback.{
  IsFresh, RowsAfter, QueueAfter, handle_create_job_all_or_nothing,
}
use ilove_convertion.Api.Delete.{handle_delete_job, run_cleanup}
use ilove_convertion.Api.Delete.Files.{
  NoFiles, SameFiles, handle_delete_job_removes, handle_delete_job_leaves_files,
  run_cleanup_removes, run_cleanup_keeps,
}
use ilove_convertion.Api.Read.{handle_download, client}
use ilove_convertion.Api.Read.Serving.{HasCode, handle_download-HasCode}
use ilove_convertion.Api.Session.{ClientRequest, client_ip, passed, session_middleware}
use ilove_convertion.Api.Session.Limits.{Allowed, session_of, session_middleware_passes_iff}
use ilove_convertion.Scenario.{
  platform, platform-IsPlatform, any_case, master, api_config, job_id, input, empty_world, session,
  png_params, photo, upload, upload_events, png_job,
}

pub upload_accepted : check_upload api_config upload ≡ accepted image_convert photo png_params
unfolding check_upload valid_operation valid_input_format valid_output_format
    parse_and_validate_params normalize_ext trim_space trim_dot to_lower ext
upload_accepted = refl

pub no_row : find_job job_id [] ≡ none
unfolding find_job
no_row = refl

no_file : read_file job_id [] ≡ none
unfolding read_file
no_file = refl

pub upload-IsSmooth : IsSmooth upload_events toy_nonce 5
upload-IsSmooth = record {
  created = refl;
  opened = refl;
  random_nonce = refl;
  nonce_long = refl;
  room_enough = omega arith;
  synced = refl;
  pushed = refl;
}

stores_example :
    handle_create_job platform api_config upload_events (some session) upload empty_world ≡ (
      stored empty_world png_job (file toy [] toy_nonce input),
      record { code = 201; body = job_body (to_response png_job) },
    )
stores_example =
    handle_create_job_stores platform api_config upload_events session upload empty_world
      image_convert photo png_params toy_nonce input toy-IsAead platform-IsPlatform refl
      upload-IsSmooth upload_accepted refl no_row

fresh : IsFresh platform job_id empty_world
fresh = record {
  canonical = refl;
  no_row = no_row;
  no_input_file = no_file;
  no_output_file = no_file;
}

-- The queue does not answer.
-- The queue and the database are gone when the file is there, as with a cancelled context.
abbrev cut_off : UploadEvents
cut_off = record upload_events { push = refused; delete = refused }

all_or_nothing_example :
    let (w', response) =
      handle_create_job platform api_config cut_off (some session) upload empty_world in
    ((response.code ≡ 201)
      × ((j : Job) × (j.id ≡ job_id) × (j.status ≡ pending) × (w'.jobs ≡ j ∷ []))
      × (w'.queue ≡ job_id ∷ [])
      × ((bs : Bytes) × (read_file job_id w'.store.inputs ≡ some bs)))
    ⊎ ((response.code ≢ 201)
        × RowsAfter cut_off [] w'.jobs
        × QueueAfter cut_off [] w'.queue
        × (read_file job_id w'.store.inputs ≡ none)
        × (read_file job_id w'.store.outputs ≡ none)
        × (read_file (codes "j2") w'.store.inputs ≡ read_file (codes "j2") [])
        × (read_file (codes "j2") w'.store.outputs ≡ read_file (codes "j2") []))
unfolding str_eq
all_or_nothing_example =
    handle_create_job_all_or_nothing platform api_config cut_off empty_world (some session) upload
      (codes "j2") fresh refl

-- The world with a job of the upload's id, its input and an output.
abbrev with_job : Job → World
with_job j = record empty_world {
  jobs = j ∷ [];
  store = record {
    inputs = (job_id, input) ∷ [];
    outputs = (job_id, file toy [] toy_nonce (codes "done")) ∷ [];
  };
}

found : (j : Job) → str_eq job_id j.id ≡ true → find_job job_id (j ∷ []) ≡ some j
unfolding find_job
found j h = rw h

removes_example :
    let (w', r) = handle_delete_job platform answered job_id (with_job png_job) in
    (r.code ≡ 200)
    × (find_job job_id w'.jobs ≡ none)
    × NoFiles job_id w'.store
    × (find_job (codes "j2") w'.jobs ≡ find_job (codes "j2") (with_job png_job).jobs)
    × SameFiles (codes "j2") (with_job png_job).store w'.store
unfolding str_eq
removes_example =
    handle_delete_job_removes platform job_id (codes "j2") (with_job png_job) png_job refl refl
      (found png_job refl) refl

lower_J1 : to_lower (codes "J1") ≡ codes "j1"
unfolding to_lower
lower_J1 = refl

leaves_files_example :
    let (w', r) = handle_delete_job any_case answered (codes "J1") (with_job png_job) in
    (r.code ≡ 200)
    × (find_job (to_lower (codes "J1")) w'.jobs ≡ none)
    × SameFiles (to_lower (codes "J1")) (with_job png_job).store w'.store
unfolding str_eq
leaves_files_example =
    handle_delete_job_leaves_files any_case (codes "J1") (with_job png_job) png_job refl
      (rw lower_J1 refl) (rw lower_J1 (found png_job refl))

abbrev late : World
late = record (with_job png_job) { now = 9000 }

cleanup_removes_example :
    let w' = run_cleanup answered answered late in
    All (λ i. 9000 ≤ i.expires_at) w'.jobs × NoFiles job_id w'.store
cleanup_removes_example = run_cleanup_removes answered late [] [] png_job refl (omega arith)

cleanup_keeps_example : SameFiles (codes "j2") late.store (run_cleanup answered answered late).store
unfolding str_eq
cleanup_keeps_example = run_cleanup_keeps answered late (codes "j2") ((λ h. refl), tt)

abbrev done_job : Job
done_job = record png_job { status = completed }

download_code_example :
    let r = (handle_download platform master true 100 job_id (with_job done_job)).response in
    HasCode platform master done_job.status r.code
    × ((type name : Str) (size : Option ℕ) (out : Bytes)
        → r.body ≡ attachment type name size out
        → (done_job.status ≡ completed)
          × (r.code ≡ 200)
          × ((key stored : Bytes) × (d : Sink) × (e : Option CryptoError) × (derive_key
                  platform.hkdf master job_id
                ≡ some key)
              × (read_file job_id (with_job done_job).store.outputs ≡ some stored)
              × (decrypt_stream platform.aead key
                    (record { content = stored; fails = false })
                    (client 100)
                  ≡ some (d, e))
              × (out ≡ d.written)))
unfolding str_eq
download_code_example =
    handle_download-HasCode platform master 100 job_id (with_job done_job) done_job refl
      (found done_job refl)

abbrev pub request : ClientRequest
request = record {
  x_real_ip = codes "10.0.0.1";
  x_forwarded_for = [];
  remote_addr = codes "10.0.0.2:80";
  remote_host = some (codes "10.0.0.2");
}

passes_example :
    ((session_middleware api_config answered (codes "s1") request empty_world).1 ≡ passed session)
    ↔ ((is_empty (client_ip request) ≡ false)
        × (answered ≡ answered)
        × (session ≡ session_of api_config (codes "s1") request empty_world)
        × Allowed api_config (session_of api_config (codes "s1") request empty_world))
passes_example =
    session_middleware_passes_iff api_config answered (codes "s1") request empty_world session
