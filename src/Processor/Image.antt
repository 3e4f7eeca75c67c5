-- ===== src/Processor/Image.antt =====
-- internal/processor/image.go, but for the rembg client, which is in rembg.go.
pub mod Bmp
pub mod Convert
use ilove_convertion.Base.{
  Bool, true, false, Option, none, some, [], ◌∷◌, ◌++◌, Str, codes, str_eq, if◌then◌else◌,
}
use ilove_convertion.Base.Int.{ℤ, pos, ◌-ℤ◌, ltb_ℤ}
use ilove_convertion.Models.{JobParams}
use ilove_convertion.Crypto.{Bytes}
use ilove_convertion.Storage.{Files, read_file, write_file}
use ilove_convertion.Processor.{
  Tools, Outcome, ContextError, read_failed, write_failed, image_failed, unsupported_format,
  ImageType, jpeg, png, webp, tiff, avif, ImageOptions, run_command, unless_done, show_int,
  bimg_type,
}

abbrev pub options : ImageType → ImageOptions
options t = record { type = t; quality = pos 0; lossless = false; strip_metadata = false }

-- After the Process: `later` is ctx.Err() there.
after_process : Tools → ContextError → Str → Files → Option Bytes → Outcome
after_process t later output fs none = (fs, some image_failed)
after_process t later output fs (some out) =
    unless_done later fs
      (if t.writable output then (write_file output out fs, none) else (fs, some write_failed))

-- bimg.Read, Process and Write.
processed_to : Tools → ContextError → ImageOptions → Str → Files → Option Bytes → Outcome
unfolding after_process
processed_to t later opts output fs none = (fs, some read_failed)
processed_to t later opts output fs (some buf) =
    after_process t later output fs (t.process opts buf)

abbrev pub convert_options : ImageType → ImageOptions
convert_options jpeg = record (options jpeg) { quality = pos 95 }
convert_options t = options t

convert_to : Tools → ContextError → Str → Str → Files → Option ImageType → Outcome
unfolding processed_to
convert_to t later input output fs none =
    run_command t (codes "ffmpeg")
      (codes "-hide_banner"
        ∷ codes "-loglevel"
        ∷ codes "error"
        ∷ codes "-i"
        ∷ input
        ∷ codes "-y"
        ∷ output
        ∷ [])
      fs
convert_to t later input output fs (some type) =
    processed_to t later (convert_options type) output fs (read_file input fs)

unfoldable pub image_convert :
    Tools → ContextError → ContextError → Str → Str → JobParams → Files → Outcome
unfolding convert_to
image_convert t ctx later input output params fs =
    unless_done ctx fs (convert_to t later input output fs (bimg_type params.output_format))

-- compressPNGLossless makes no check of the context.
unfoldable pub compress_png_lossless : Tools → Str → Str → Files → Outcome
unfolding processed_to
compress_png_lossless t input output fs =
    processed_to t ContextError.alive (record (options png) { strip_metadata = true }) output fs
      (read_file input fs)

-- `minQ := quality - 20; if minQ < 0 { minQ = 0 }`
unfoldable pub min_quality : ℤ → ℤ
unfolding ◌-ℤ◌
min_quality q = if ltb_ℤ (q -ℤ pos 20) (pos 0) then pos 0 else q -ℤ pos 20

or_lossless : Tools → Str → Str → Outcome → Outcome
or_lossless t input output (fs, none) = (fs, none)
or_lossless t input output (fs, some e) = compress_png_lossless t input output fs

unfoldable pub compress_png_lossy : Tools → Str → Str → ℤ → Files → Outcome
unfolding or_lossless
compress_png_lossy t input output quality fs = or_lossless t input output (
    run_command t (codes "pngquant")
      (codes "--quality"
        ∷ (show_int (min_quality quality) ++ (codes "-" ++ show_int quality))
        ∷ codes "--speed"
        ∷ codes "3"
        ∷ codes "--force"
        ∷ codes "--output"
        ∷ output
        ∷ codes "--"
        ∷ input
        ∷ [])
      fs)

unfoldable pub compress_png : Tools → Str → Str → ℤ → Bool → Files → Outcome
compress_png t input output quality lossless fs =
    if lossless
    then compress_png_lossless t input output fs
    else compress_png_lossy t input output quality fs

-- The `switch params.OutputFormat` of ImageCompress.
compress_options : Str → JobParams → ImageType → ImageOptions
unfolding str_eq
compress_options f params type =
    let opts : ImageOptions = record (options type) { quality = params.quality } in
    if str_eq f (codes "webp")
    then if params.lossless then record opts { quality = pos 0; lossless = true } else opts
    else if str_eq f (codes "avif")
    then if params.lossless then record opts { lossless = true } else opts
    else if str_eq f (codes "jpeg")
    then record opts { strip_metadata = true }
    else if str_eq f (codes "tiff")
    then if params.lossless then record opts { quality = pos 100 } else opts
    else opts

compress_to : Tools → ContextError → Str → Str → JobParams → Files → Option ImageType → Outcome
unfolding processed_to compress_options
compress_to t later input output params fs none =
    (fs, some (unsupported_format params.output_format))
compress_to t later input output params fs (some type) =
    processed_to t later (compress_options params.output_format params type) output fs
      (read_file input fs)

unfoldable pub image_compress :
    Tools → ContextError → ContextError → Str → Str → JobParams → Files → Outcome
unfolding compress_to str_eq
image_compress t ctx later input output params fs = unless_done ctx fs (
    if str_eq params.output_format (codes "png")
    then compress_png t input output params.quality params.lossless fs
    else compress_to t later input output params fs (bimg_type params.output_format))
