-- ===== src/Scenario/Programs.antt =====
-- The temporary files and the processors of a worker at concrete data.
use ilove_convertion.Base.{
  ◌≡◌, ◌≢◌, refl, All, ext, inr, ◌↔◌, true, false, none, some, List, [], ◌∷◌, Str, codes, str_eq,
  to_lower, trim_dot, trim_space, replicate, arith,
}
use ilove_convertion.Base.Path.{join_slash, IsElement, is_element, is_element→IsElement}
use ilove_convertion.Models.{
  image_compress, audio_compress, failed, Job, input_ext, valid_input_format, valid_output_format,
}
use ilove_convertion.Models.Params.{parse_params-marshal, marshal}
use ilove_convertion.Form.{ok, parse_and_validate_params, normalize_ext}
use ilove_convertion.Form.Validation.{format_only}
use ilove_convertion.Crypto.{Bytes}
use ilove_convertion.Crypto.RoundTrip.Tests.{toy-IsAead, toy_nonce}
use ilove_convertion.Database.{find_job}
use ilove_convertion.Processor.{alive, run_command}
use ilove_convertion.Processor.Image.Bmp.{bmp_params}
use ilove_convertion.Processor.Rembg.{Rembg, response, image_remove_bg}
use ilove_convertion.Processor.Rembg.Served.{IsServed, image_remove_bg_succeeds_iff}
use ilove_convertion.Storage.{Files, read_file}
use ilove_convertion.Storage.Paths.{new_storage, input_path, output_path, storage_paths_distinct}
use ilove_convertion.Worker.{clip, run}
use ilove_convertion.Worker.Programs.{
  Programs, dispatch, run_programs, job_dir, tmp_input, tmp_output,
}
use ilove_convertion.Worker.Programs.Paths.{tmp_files_confined}
use ilove_convertion.Worker.Programs.Escape.{escaping_params, audio_format_escapes}
use ilove_convertion.Worker.Programs.Images.{bmp_job_fails}
use ilove_convertion.Scenario.{
  platform, platform-IsPlatform, worker_config, job_id, input, job_events, good_file, png_job,
  png_params,
}
use ilove_convertion.Scenario.Jobs.{queued, answers, found, input_found}
use ilove_convertion.Scenario.Tools.{idle}

-- A service that gives one byte for every image.
abbrev service : Rembg
service = record {
  url = codes "http://rembg:5000";
  post = λ url name bs. response 200 (record { content = b'x' ∷ []; fails = false });
  output_file = good_file;
}

abbrev programs : Programs
programs = record {
  tools = idle;
  rembg = service;
  first = alive;
  later = alive;
  message = λ e. codes "unsupported";
}

abbrev tmp_root : List Str
tmp_root = codes "tmp" ∷ []

tmp-IsElement : All IsElement tmp_root
tmp-IsElement = (is_element→IsElement (codes "tmp") (unfold is_element in refl), tt)

job_id-IsElement : IsElement job_id
job_id-IsElement = is_element→IsElement job_id (unfold is_element in refl)

confined_example :
    let dir = job_dir (codes "/tmp") job_id in
    (tmp_input dir (codes "jpg") ≡ codes "/tmp/j1/input.jpg")
    × (tmp_output dir (codes "png") ≡ codes "/tmp/j1/output.png")
unfolding input_ext ext join_slash valid_output_format
confined_example =
    tmp_files_confined tmp_root job_id tmp-IsElement job_id-IsElement png_job (codes "png")
      (inr refl)

-- "/srv/a.mp3"
abbrev target : List Str
target = codes "srv" ∷ codes "a.mp3" ∷ []

target-IsElement : All IsElement target
target-IsElement = (
  is_element→IsElement (codes "srv") (unfold is_element in refl),
  (is_element→IsElement (codes "a.mp3") (unfold is_element in refl), tt),
)

escape_example :
    let dir = job_dir (codes "/tmp") job_id in
    let params = escaping_params 3 target in
    let input = tmp_input dir (codes "mp3") in
    (parse_and_validate_params
        (format_only (codes "/../../../srv/a.mp3"))
        audio_compress
        (codes "mp3")
      ≡ ok params)
    × (tmp_output dir (codes "/../../../srv/a.mp3") ≡ codes "/srv/a.mp3")
    × (dispatch programs audio_compress input (tmp_output dir params.output_format) dir params []
        ≡ run_command idle
            (codes "ffmpeg")
            (codes "-hide_banner"
              ∷ codes "-loglevel"
              ∷ codes "error"
              ∷ codes "-i"
              ∷ input
              ∷ codes "-c:a"
              ∷ codes "copy"
              ∷ codes "-vn"
              ∷ codes "-y"
              ∷ codes "/srv/a.mp3"
              ∷ [])
            [])
unfolding join_slash to_lower trim_dot
escape_example =
    audio_format_escapes tmp_root job_id tmp-IsElement job_id-IsElement 3 target (codes "mp3")
      programs [] target-IsElement (omega arith) (unfold normalize_ext trim_space in refl) refl

abbrev bmp_job : Job
bmp_job = record png_job {
  operation = image_compress;
  params = marshal bmp_params;
  original_name = codes "a.bmp";
}

bmp_job_example :
    let after =
      run platform worker_config
        (run_programs programs (codes "/tmp/j1") [])
        (replicate 3 (true, job_events))
        (queued bmp_job) in
    (valid_input_format image_compress (codes "bmp") ≡ true)
    × (after.queue ≡ [])
    × ((i : Job) × (find_job job_id after.jobs ≡ some i)
        × (i.status ≡ failed)
        × (i.error_message ≡ some (clip (codes "unsupported")))
        × (i.retry_count ≡ 3))
unfolding str_eq parse_and_validate_params normalize_ext trim_space to_lower trim_dot
bmp_job_example =
    bmp_job_fails platform worker_config programs (codes "/tmp/j1") [] job_events job_id toy_nonce
      input toy-IsAead platform-IsPlatform refl refl refl answers 2 (queued bmp_job) bmp_job
      (format_only []) bmp_params refl refl (λ e. cc) refl refl (found bmp_job refl) refl refl
      (parse_params-marshal bmp_params) input_found refl

abbrev removal : Files
removal = (codes "/tmp/j1/input.jpg", input) ∷ []

remove_bg_example :
    let out =
      image_remove_bg service alive alive
        (codes "/tmp/j1/input.jpg")
        (codes "/tmp/j1/output.png")
        png_params
        removal in
    (out.1 ≡ none) ↔ (
      (alive ≡ alive)
      × ((image : Bytes) × IsServed service (codes "/tmp/j1/input.jpg") png_params removal image
          × (read_file (codes "/tmp/j1/output.png") out.0 ≡ some image)))
remove_bg_example =
    image_remove_bg_succeeds_iff service alive alive (codes "/tmp/j1/input.jpg")
      (codes "/tmp/j1/output.png") png_params removal

paths_example :
    let d = new_storage (codes "/app") in
    (input_path d (codes "j1") ≡ input_path d (codes "j2") → codes "j1" ≡ codes "j2")
    × (output_path d (codes "j1") ≡ output_path d (codes "j2") → codes "j1" ≡ codes "j2")
    × (input_path d (codes "j1") ≢ output_path d (codes "j2"))
unfolding join_slash
paths_example =
    storage_paths_distinct (codes "app" ∷ [])
      (is_element→IsElement (codes "app") (unfold is_element in refl), tt) (codes "j1") (codes "j2")
      job_id-IsElement (is_element→IsElement (codes "j2") (unfold is_element in refl))
