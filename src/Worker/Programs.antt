-- ===== src/Worker/Programs.antt =====
-- cmd/worker/main.go: the temporary directory of a job, and dispatch, which calls the processor of
-- its operation there. It is what stands for the parameter `dispatch` of processJob.
pub mod Paths
pub mod Escape
pub mod Images
use ilove_convertion.Base.{none, some, ◌++◌, Str, codes}
use ilove_convertion.Base.Path.{join_path}
use ilove_convertion.Models.{
  Operation, image_convert, image_compress, image_remove_bg, pdf_compress, audio_convert,
  audio_compress, video_compress, JobParams,
}
use ilove_convertion.Storage.{Files, read_file, write_file}
use ilove_convertion.Processor.{Tools, Outcome, ContextError, ProcessError}
use ilove_convertion.Processor.Audio
use ilove_convertion.Processor.Video
use ilove_convertion.Processor.Pdf
use ilove_convertion.Processor.Image
use ilove_convertion.Processor.Rembg
use ilove_convertion.Worker.{Dispatch, Processed, processed, process_error}

-- The programs and services of a worker, the states of the context before a processor and behind
-- its first call, and the texts of the errors.
pub record Programs : Type 0 where
  pub tools : Tools
  pub rembg : Rembg.Rembg
  pub first : ContextError
  pub later : ContextError
  pub message : ProcessError → Str

unfoldable pub dispatch : Programs → Operation → Str → Str → Str → JobParams → Files → Outcome
dispatch g image_convert input output tmp params fs =
    Image.image_convert g.tools g.first g.later input output params fs
dispatch g image_compress input output tmp params fs =
    Image.image_compress g.tools g.first g.later input output params fs
dispatch g image_remove_bg input output tmp params fs =
    Rembg.image_remove_bg g.rembg g.first g.later input output params fs
dispatch g pdf_compress input output tmp params fs =
    Pdf.pdf_compress g.tools g.first input output tmp params fs
dispatch g audio_convert input output tmp params fs =
    Audio.audio_convert g.tools g.first input output params fs
dispatch g audio_compress input output tmp params fs =
    Audio.audio_compress g.tools g.first input output params fs
dispatch g video_compress input output tmp params fs =
    Video.video_compress g.tools g.first input output params fs

-- `tmpDir`, `tmpInput` and `tmpOutput`.
unfoldable pub job_dir : Str → Str → Str
job_dir tmp_dir job_id = join_path tmp_dir job_id

unfoldable pub tmp_input : Str → Str → Str
tmp_input dir input_ext = join_path dir (codes "input." ++ input_ext)

unfoldable pub tmp_output : Str → Str → Str
tmp_output dir out_ext = join_path dir (codes "output." ++ out_ext)

-- os.Stat of the output after the processor, as far as it is used.
processed_file : Programs → Str → Outcome → Processed
processed_file g output (fs, some e) = process_error (g.message e)
processed_file g output (fs, none) = processed (read_file output fs)

-- The processors in the directory of a job that has the files `before`: DecryptFile has written the
-- input, and the output is read back.
unfoldable pub run_programs : Programs → Str → Files → Dispatch
unfolding dispatch tmp_input tmp_output processed_file
run_programs g dir before op params input_ext out_ext bs =
    let input = tmp_input dir input_ext in
    let output = tmp_output dir out_ext in
    processed_file g output (dispatch g op input output dir params (write_file input bs before))
