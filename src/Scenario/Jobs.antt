-- ===== src/Scenario/Jobs.antt =====
-- The worker on concrete jobs, and the whole way of a file.
use ilove_convertion.Base.{
  ℕ, ◌≤◌, ◌≡◌, refl, true, none, some, [], ◌∷◌, codes, str_eq, arith, replicate,
}
use ilove_convertion.Models.{pending, processing, failed, image_convert, Job}
use ilove_convertion.Models.Params.{parse_params-marshal}
use ilove_convertion.Crypto.RoundTrip.{file}
use ilove_convertion.Crypto.RoundTrip.Tests.{toy, toy_nonce, toy-IsAead}
use ilove_convertion.Database.{answered, find_job}
use ilove_convertion.Storage.{read_file}
use ilove_convertion.World.{World}
use ilove_convertion.Api.Upload.{handle_create_job}
use ilove_convertion.Api.Delete.{handle_delete_job, run_cleanup}
use ilove_convertion.Api.Read.{handle_download}
use ilove_convertion.Api.Read.Serving.{served}
use ilove_convertion.Worker.{clip, run_round, run, after_dispatch, processed}
use ilove_convertion.Worker.Orphan.{deleted_job_leaves_output}
use ilove_convertion.Worker.Outcomes.{IsSmoothFile, IsSmoothRun}
use ilove_convertion.Worker.Retries.{IsAnswered, IsFailing, always_failing_job_fails}
use ilove_convertion.Worker.Pipeline.{finished_row, upload_process_download}
use ilove_convertion.Scenario.{
  platform, platform-IsPlatform, master, api_config, worker_config, job_id, input, empty_world,
  session, png_params, photo, upload, upload_events, job_events, good_file, converts, breaks,
  png_job,
}
use ilove_convertion.Scenario.Requests.{upload_accepted, upload-IsSmooth, no_row}

smooth_file : (n : ℕ) → n ≤ 1000 → IsSmoothFile good_file n
smooth_file n h = record { creates = refl; takes = h; syncs = refl }

pub smooth_run : IsSmoothRun platform worker_config converts job_events toy_nonce 5 4
smooth_run = record {
  tmp_made = refl;
  row_read = refl;
  start_done = refl;
  decrypted = smooth_file 5 (omega arith);
  random_nonce = refl;
  nonce_long = refl;
  encrypted = smooth_file _ (omega arith);
  complete_done = refl;
}

pipeline_example :
    let (w1, resp) =
      handle_create_job platform api_config upload_events (some session) upload empty_world in
    (resp.code ≡ 201)
    × (handle_download platform master true 100 job_id
          (run_round platform worker_config converts true job_events w1)
        ≡ served
            (finished_row platform api_config worker_config converts 1000
              (codes "done")
              png_job
              png_params)
            (codes "done"))
unfolding str_eq
pipeline_example =
    upload_process_download platform api_config worker_config converts upload_events job_events
      session upload empty_world image_convert photo png_params toy_nonce toy_nonce input b'd'
      (codes "one") 100 toy-IsAead platform-IsPlatform refl refl (λ e. cc) refl refl no_row refl
      upload_accepted refl upload-IsSmooth smooth_run refl (omega arith)

abbrev pub queued : Job → World
queued j = record empty_world {
  jobs = j ∷ [];
  queue = job_id ∷ [];
  store = record { inputs = (job_id, file toy [] toy_nonce input) ∷ []; outputs = [] };
}

pub found : (j : Job) → str_eq job_id j.id ≡ true → find_job job_id (j ∷ []) ≡ some j
unfolding find_job
found j h = rw h

pub input_found :
    read_file job_id (queued png_job).store.inputs ≡ some (file toy [] toy_nonce input)
unfolding read_file str_eq
input_found = refl

abbrev taken : Job
taken = record png_job { status = processing }

pub answers : IsAnswered job_events 5
answers = record {
  tmp_made = refl;
  row_read = refl;
  start_done = refl;
  decrypted = smooth_file 5 (omega arith);
  incremented = refl;
  pushed_back = refl;
  failed_done = refl;
}

failing :
    IsFailing platform worker_config breaks job_id
      (codes "boom")
      png_params
      toy_nonce
      input
      (queued png_job)
      png_job
unfolding str_eq
failing = record {
  found = found png_job refl;
  is_pending = refl;
  params_read = parse_params-marshal png_params;
  input_there = input_found;
  fails = refl;
}

retries_example :
    let before =
      run platform worker_config breaks (replicate 2 (true, job_events)) (queued png_job) in
    let after =
      run platform worker_config breaks (replicate 3 (true, job_events)) (queued png_job) in
    (before.queue ≡ job_id ∷ [])
    × ((i : Job) × (find_job job_id before.jobs ≡ some i)
        × (i.status ≡ pending)
        × (i.retry_count ≡ 2))
    × (after.queue ≡ [])
    × ((i : Job) × (find_job job_id after.jobs ≡ some i)
        × (i.status ≡ failed)
        × (i.error_message ≡ some (clip (codes "boom")))
        × (i.retry_count ≡ 3))
unfolding str_eq
retries_example =
    always_failing_job_fails platform worker_config breaks job_events job_id (codes "boom")
      png_params toy_nonce input toy-IsAead platform-IsPlatform refl refl refl answers 2
      (queued png_job) png_job (λ e. cc) refl failing refl

orphan_example :
    let w1 = (handle_delete_job platform answered job_id (queued taken)).0 in
    let w2 =
      after_dispatch platform worker_config converts job_events job_id taken png_params [] w1
        (processed (some (codes "done"))) in
    (find_job job_id w2.jobs ≡ none)
    × (read_file job_id w2.store.outputs ≡ some (file toy [] toy_nonce (codes "done")))
    × (read_file job_id (run_cleanup answered answered w2).store.outputs
        ≡ some (file toy [] toy_nonce (codes "done")))
unfolding str_eq
orphan_example =
    deleted_job_leaves_output platform worker_config converts job_events job_id (queued taken) taken
      png_params [] toy_nonce b'd' (codes "one") toy-IsAead refl refl (found taken refl) refl refl
      refl (smooth_file _ (omega arith))
