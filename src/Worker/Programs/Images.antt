-- ===== src/Worker/Programs/Images.antt =====
-- Two image jobs with the processors that the worker calls: a conversion, and the compression of a
-- BMP file.
use ilove_convertion.Base.{
  ℕ, suc, ◌+◌, ◌≡◌, ◌≢◌, ap, ◌∙◌, true, some, [], ◌∷◌, Str, codes, trim_space, length, replicate,
}
use ilove_convertion.Models.{
  image_convert, image_compress, valid_input_format, pending, failed, JobParams, Job, input_ext,
}
use ilove_convertion.Models.Params.{parse_params}
use ilove_convertion.Form.{ok, Form, parse_and_validate_params}
use ilove_convertion.Form.Validation.{parse_and_validate_params-blank}
use ilove_convertion.Crypto.{Bytes, IsAead, nonce_size}
use ilove_convertion.Crypto.RoundTrip.{file}
use ilove_convertion.Database.{find_job}
use ilove_convertion.Storage.{Files, read_file, write_file, read_file-write_file_self}
use ilove_convertion.World.{World, Platform, IsPlatform}
use ilove_convertion.Processor.{ImageType, alive, unsupported_format, bimg_type}
use ilove_convertion.Processor.Image
use ilove_convertion.Processor.Image.Convert.{image_convert_made}
use ilove_convertion.Processor.Image.Bmp.{bmp_compress_fails}
use ilove_convertion.Worker.{
  WorkerConfig, process_error, processed, JobEvents, clip, run, or_bin, or_input,
}
use ilove_convertion.Worker.Outcomes.{worker_key}
use ilove_convertion.Worker.Retries.{IsAnswered, always_failing_job_fails}
use ilove_convertion.Worker.Programs.{Programs, processed_file, run_programs, tmp_input, tmp_output}

-- A conversion to a format of libvips, with a live context and an output file that can be written,
-- gives what libvips makes of the decrypted file with the options of the format, and leaves no
-- trace of the files that the directory had before.
pub image_convert_processed :
    (g : Programs) (dir in_ext out_ext : Str) (before : Files) (params : JobParams) (bs out : Bytes)
    (type : ImageType)
    → g.first ≡ alive
    → g.later ≡ alive
    → bimg_type params.output_format ≡ some type
    → g.tools.writable (tmp_output dir out_ext) ≡ true
    → g.tools.process (Image.convert_options type) bs ≡ some out
    → run_programs g dir before image_convert params in_ext out_ext bs ≡ processed (some out)
unfolding run_programs
image_convert_processed g dir in_ext out_ext before params bs out type first later known room made =
    ap (processed_file g output) (
      image_convert_made g.tools g.first g.later (tmp_input dir in_ext) output params written bs out
        type first later known (read_file-write_file_self (tmp_input dir in_ext) bs before) room
        made)
    ∙ ap processed (read_file-write_file_self output out written)
  where
    output : Str
    output = tmp_output dir out_ext

    written : Files
    written = write_file (tmp_input dir in_ext) bs before

module _ (p : Platform) (cfg : WorkerConfig) (g : Programs) (dir : Str) (before : Files)
    (ev : JobEvents) (id : Str) (nonce input : Bytes) (law : IsAead p.aead) (plat : IsPlatform p)
    (key : length cfg.master_key ≡ 32) (canon : p.canon id ≡ id) (l : length nonce ≡ nonce_size)
    (calls : IsAnswered ev (length input)) where
  -- The API admits BMP files for a compression, and the job of one whose form it accepts with a blank
  -- output format, whatever its other values are, fails with the processors of the worker however
  -- often it is tried, and whatever the programs, libvips and the directory are: alone in the queue,
  -- with a live context, every call answered and `k` retries left, it has used them all after k
  -- rounds and failed for good one round later, with the text of "unsupported format".
  pub bmp_job_fails :
      (k : ℕ) (w : World) (j : Job) (r : Form) (params : JobParams)
      → trim_space r.output_format ≡ []
      → parse_and_validate_params r image_compress (codes "bmp") ≡ ok params
      → id ≢ []
      → g.first ≡ alive
      → w.queue ≡ id ∷ []
      → find_job id w.jobs ≡ some j
      → j.status ≡ pending
      → j.operation ≡ image_compress
      → parse_params j.params ≡ some params
      → read_file id w.store.inputs
        ≡ some (file p.aead (worker_key p cfg (run_programs g dir before) id) nonce input)
      → j.retry_count + k ≡ cfg.max_retries j.operation
      → let after = run p cfg (run_programs g dir before) (replicate (suc k) (true, ev)) w in
        (valid_input_format image_compress (codes "bmp") ≡ true)
        × (after.queue ≡ [])
        × ((i : Job) × (find_job id after.jobs ≡ some i)
            × (i.status ≡ failed)
            × (i.error_message ≡ some (clip (g.message (unsupported_format (codes "bmp")))))
            × (i.retry_count ≡ cfg.max_retries j.operation + 1))
  unfolding valid_input_format
  bmp_job_fails k w j r params blank accepted named first queued found status op read stored count =
      let (before, held, empty, gone) =
        always_failing_job_fails p cfg (run_programs g dir before) ev id
          (g.message (unsupported_format (codes "bmp"))) params nonce input law plat key canon l
          calls k w j named queued
          (record {
            found = found;
            is_pending = status;
            params_read = read;
            input_there = stored;
            fails =
                ap
                  (λ o.
                    run_programs g dir before o params (or_bin (input_ext j))
                      (or_input params.output_format (or_bin (input_ext j))) input)
                  op
                ∙ refused (or_bin (input_ext j))
                    (or_input params.output_format (or_bin (input_ext j)));
          })
          count in
      (λ i. true, empty, gone)
    where
      refused :
          (in_ext out_ext : Str)
          → run_programs g dir before image_compress params in_ext out_ext input
            ≡ process_error (g.message (unsupported_format (codes "bmp")))
      refused in_ext out_ext =
          unfold run_programs in
          ap (processed_file g (tmp_output dir out_ext)) (
            ap
              (λ c.
                Image.image_compress g.tools c g.later (tmp_input dir in_ext)
                  (tmp_output dir out_ext) params written)
              first
            ∙ bmp_compress_fails g.tools g.later (tmp_input dir in_ext) (tmp_output dir out_ext)
                params written
                (parse_and_validate_params-blank r (codes "bmp") params blank accepted))
        where
          written : Files
          written = write_file (tmp_input dir in_ext) input before
