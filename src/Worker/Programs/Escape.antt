-- ===== src/Worker/Programs/Escape.antt =====
-- Output formats with ".." elements: the API's check of them, and what filepath.Join makes of them.
use ilove_convertion.Base.{
  ℕ, ◌+◌, ◌≤◌, ◌≡◌, refl, false, List, [], ◌∷◌, Str, codes, str_eq, trim_space, length,
  length-append, All, arith,
}
use ilove_convertion.Base.Int.{pos}
use ilove_convertion.Base.Path.{absolute, IsElement, join_slash}
use ilove_convertion.Base.Path.Clean.{climb, join_path-climb}
use ilove_convertion.Models.{audio_compress, JobParams}
use ilove_convertion.Form.{ok, parse_and_validate_params, normalize_ext}
use ilove_convertion.Form.Validation.{format_only}
use ilove_convertion.Storage.{Files}
use ilove_convertion.Processor.{alive, run_command, unless_done}
use ilove_convertion.Processor.Audio
use ilove_convertion.Worker.Programs.{Programs, dispatch, job_dir, tmp_input, tmp_output}
use ilove_convertion.Worker.Programs.Paths.{
  job_parts, job_dir_lem, job_parts-elements, output-IsElement,
}

-- A slash, "../" some times, and the elements of a path.
abbrev pub escaping : ℕ → List Str → Str
escaping k target = b'/' ∷ climb k (join_slash target)

abbrev pub escaping_params : ℕ → List Str → JobParams
escaping_params k target = record {
  output_format = escaping k target;
  quality = pos 70;
  lossless = false;
  image_dpi = pos 0;
  image_quality = pos 0;
}

module _ (root : List Str) (id : Str) (below : All IsElement root) (named : IsElement id) where
  -- The output format of a slash, at least two more "../" than the temporary directory is deep, and a
  -- path from the root, is one that the API accepts for an audio compression, if trimming and
  -- lower-casing leave it as it is; and a worker whose context is alive then runs ffmpeg on the input
  -- with "-y", which overwrites, and with that path of the root as the output.
  pub audio_format_escapes :
      (k : ℕ) (target : List Str) (input_ext : Str) (g : Programs) (fs : Files)
      → All IsElement target
      → length root + 2 ≤ k
      → normalize_ext (trim_space (escaping k target)) ≡ escaping k target
      → g.first ≡ alive
      → let dir = job_dir (absolute root) id in
        let input = tmp_input dir input_ext in
        let params = escaping_params k target in
        (parse_and_validate_params (format_only (escaping k target)) audio_compress input_ext
          ≡ ok params)
        × (tmp_output dir params.output_format ≡ absolute target)
        × (dispatch g audio_compress input (tmp_output dir params.output_format) dir params fs
            ≡ run_command g.tools
                (codes "ffmpeg")
                (codes "-hide_banner"
                  ∷ codes "-loglevel"
                  ∷ codes "error"
                  ∷ codes "-i"
                  ∷ input
                  ∷ codes "-c:a"
                  ∷ codes "copy"
                  ∷ codes "-vn"
                  ∷ codes "-y"
                  ∷ absolute target
                  ∷ [])
                fs)
  unfolding parse_and_validate_params dispatch str_eq Audio.audio_compress Audio.lossy_audio_args
      unless_done
  audio_format_escapes k target input_ext g fs h enough same live =
      (rw same refl, there, rw (there, live) refl)
    where
      there : tmp_output (job_dir (absolute root) id) (escaping k target) ≡ absolute target
      there =
          unfold tmp_output in
          rw (job_dir_lem root id below named) (
            join_path-climb k (job_parts root id below named) target (codes "output.")
              (job_parts-elements root id below named) output-IsElement h
              (omega (arith, length-append root (id ∷ []), enough)))
