-- ===== src/Processor.antt =====
-- internal/processor: what the processors share (common.go, mapRange of audio.go). External
-- programs and libvips are the parameter `Tools`; a processor works on the files
-- of the job's temporary directory, by path.
pub mod Range
pub mod Audio
pub mod Video
pub mod Pdf
pub mod Image
pub mod Rembg
use ilove_convertion.Base.{
  ℕ, zero, suc, ◌+◌, ◌*◌, ◌/◌, ◌%◌, Bool, Option, none, some, List, [], ◌∷◌, ◌++◌, Str, codes,
  str_eq, is_empty, ltb, if◌then◌else◌, length, take,
}
use ilove_convertion.Base.Int.{ℤ, pos, negsuc, ◌+ℤ◌, ◌-ℤ◌, ◌*ℤ◌, ◌/ℤ◌, leb_ℤ}
use ilove_convertion.Crypto.{Bytes}
use ilove_convertion.Storage.{Files}

-- ctx.Err(): nil, context.DeadlineExceeded or context.Canceled.
pub data ContextError : Type 0 where
  alive deadline_exceeded canceled : ContextError

-- What exec.Cmd.Run leaves: the streams, the error, and the context behind it.
pub record CommandResult : Type 0 where
  pub stdout : Str
  pub stderr : Str
  pub run_error : Option Str
  pub context : ContextError

pub data ImageType : Type 0 where
  jpeg png webp tiff gif avif heif : ImageType

-- bimg.Options, as far as the program sets them.
pub record ImageOptions : Type 0 where
  pub type : ImageType
  pub quality : ℤ
  pub lossless : Bool
  pub strip_metadata : Bool

pub record Tools : Type 0 where
  pub run : Str → List Str → Files → Files × CommandResult
  -- bimg's Process of an image: `none` for an error.
  pub process : ImageOptions → Bytes → Option Bytes
  -- Whether bimg.Write, or the copy of a file, to a path succeeds.
  pub writable : Str → Bool

pub data ProcessError : Type 0 where
  context_error : ContextError → ProcessError
  timed_out : ProcessError
  command_failed : Str → Str → Str → ProcessError
  unsupported_format : Str → ProcessError
  read_failed write_failed image_failed : ProcessError
  pdf_failed : ProcessError
  bad_request request_failed empty_response : ProcessError
  request_cancelled : ContextError → ProcessError
  service_error : ℕ → Bytes → ProcessError

-- A result of a processor: the files, and its error.
abbrev pub Outcome : Type 0
Outcome = Files × Option ProcessError

-- `if len(errOutput) > 500 { errOutput = errOutput[:500] + "…" }`
abbrev clip_output : Str → Str
clip_output s = if ltb 500 (length s) then take 500 s ++ (0xe2 ∷ 0x80 ∷ 0xa6 ∷ []) else s

-- The text of a failed command: its stderr, or its stdout if that is empty.
abbrev error_output : CommandResult → Str
error_output r = if is_empty r.stderr then r.stdout else r.stderr

abbrev command_error : Str → CommandResult → ContextError → Str → ProcessError
command_error name r deadline_exceeded e = timed_out
command_error name r canceled e = context_error canceled
command_error name r alive e = command_failed name e (clip_output (error_output r))

abbrev result_error : Str → CommandResult → Option Str → Option ProcessError
result_error name r none = none
result_error name r (some e) = some (command_error name r r.context e)

unfoldable pub run_command : Tools → Str → List Str → Files → Outcome
run_command t name args fs =
    let (fs', r) = t.run name args fs in (fs', result_error name r r.run_error)

-- `if err := ctx.Err(); err != nil { return err }`
unfoldable pub unless_done : ContextError → Files → Outcome → Outcome
unless_done alive fs next = next
unless_done deadline_exceeded fs next = (fs, some (context_error deadline_exceeded))
unless_done canceled fs next = (fs, some (context_error canceled))

unfoldable pub bimg_type : Str → Option ImageType
unfolding str_eq
bimg_type f =
    if str_eq f (codes "jpeg")
    then some jpeg
    else if str_eq f (codes "jpg")
    then some jpeg
    else if str_eq f (codes "png")
    then some png
    else if str_eq f (codes "webp")
    then some webp
    else if str_eq f (codes "tiff")
    then some tiff
    else if str_eq f (codes "tif")
    then some tiff
    else if str_eq f (codes "gif")
    then some gif
    else if str_eq f (codes "avif")
    then some avif
    else if str_eq f (codes "heif")
    then some heif
    else if str_eq f (codes "heic")
    then some heif
    else none

-- mapRange, on Go's ints.
unfoldable pub map_range : ℤ → ℤ → ℤ → ℤ → ℤ → ℤ
unfolding ◌+ℤ◌ ◌-ℤ◌ ◌*ℤ◌ ◌/ℤ◌
map_range value in_min in_max out_min out_max =
    if leb_ℤ value in_min
    then out_min
    else if leb_ℤ in_max value
    then out_max
    else out_min +ℤ (value -ℤ in_min) *ℤ (out_max -ℤ out_min) /ℤ (in_max -ℤ in_min)

-- "%d"
digits : ℕ → ℕ → Str → Str
digits zero n out = out
digits (suc fuel) n out =
    let out' = (b'0' + n % 10) ∷ out in
    let rest = digits fuel (n / 10) out' in if ltb n 10 then out' else rest

unfoldable pub show_int : ℤ → Str
unfolding digits
show_int (pos n) = digits 20 n []
show_int (negsuc n) = b'-' ∷ digits 20 (suc n) []
