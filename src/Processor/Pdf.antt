-- ===== src/Processor/Pdf.antt =====
-- internal/processor/pdf.go
pub mod Fallback
use ilove_convertion.Base.{true, Option, none, some, List, [], ◌∷◌, ◌++◌, Str, codes, if◌then◌else◌}
use ilove_convertion.Base.Int.{ℤ, pos, ◌*ℤ◌, leb_ℤ, ltb_ℤ}
use ilove_convertion.Models.{JobParams}
use ilove_convertion.Crypto.{Bytes}
use ilove_convertion.Storage.{Files, read_file, write_file}
use ilove_convertion.Processor.{
  Tools, Outcome, ContextError, ProcessError, read_failed, write_failed, pdf_failed, run_command,
  unless_done, show_int,
}

unfoldable pub pdf_preset : ℤ → Str
pdf_preset q =
    if leb_ℤ q (pos 30)
    then codes "/screen"
    else if leb_ℤ q (pos 60)
    then codes "/ebook"
    else if leb_ℤ q (pos 85)
    then codes "/printer"
    else codes "/prepress"

-- `if dpi <= 0 { dpi = 150 }`, and so for the quality.
abbrev positive_or : ℤ → ℤ → ℤ
positive_or d v = if leb_ℤ v (pos 0) then d else v

-- min(dpi*2, 600)
unfoldable pub mono_dpi : ℤ → ℤ
unfolding ◌*ℤ◌
mono_dpi dpi = if ltb_ℤ (dpi *ℤ pos 2) (pos 600) then dpi *ℤ pos 2 else pos 600

ghostscript_args : Str → Str → ℤ → ℤ → List Str
ghostscript_args input output dpi quality =
    codes "-sDEVICE=pdfwrite"
    ∷ codes "-dCompatibilityLevel=1.4"
    ∷ codes "-dSAFER"
    ∷ codes "-dNOPAUSE"
    ∷ codes "-dBATCH"
    ∷ codes "-dQUIET"
    ∷ (codes "-dPDFSETTINGS=" ++ pdf_preset quality)
    ∷ (codes "-dColorImageResolution=" ++ show_int dpi)
    ∷ (codes "-dGrayImageResolution=" ++ show_int dpi)
    ∷ (codes "-dMonoImageResolution=" ++ show_int (mono_dpi dpi))
    ∷ codes "-dDownsampleColorImages=true"
    ∷ codes "-dDownsampleGrayImages=true"
    ∷ codes "-dDownsampleMonoImages=true"
    ∷ codes "-dColorImageDownsampleType=/Bicubic"
    ∷ codes "-dGrayImageDownsampleType=/Bicubic"
    ∷ codes "-dCompressFonts=true"
    ∷ codes "-dEmbedAllFonts=true"
    ∷ codes "-dSubsetFonts=true"
    ∷ (codes "-sOutputFile=" ++ output)
    ∷ input
    ∷ []

unfoldable pub run_ghostscript : Tools → Str → Str → JobParams → Files → Outcome
unfolding ghostscript_args
run_ghostscript t input output params fs =
    run_command t (codes "gs")
      (ghostscript_args input output (positive_or (pos 150) params.image_dpi)
        (positive_or (pos 75) params.image_quality))
      fs

unfoldable pub run_qpdf : Tools → Str → Str → Files → Outcome
run_qpdf t input output fs =
    run_command t (codes "qpdf")
      (codes "--linearize"
        ∷ codes "--object-streams=generate"
        ∷ codes "--compress-streams=y"
        ∷ codes "--recompress-flate"
        ∷ codes "--decode-level=generalized"
        ∷ input
        ∷ output
        ∷ [])
      fs

unfoldable pub run_qpdf_minimal : Tools → Str → Str → Files → Outcome
run_qpdf_minimal t input output fs =
    run_command t (codes "qpdf") (codes "--linearize" ∷ input ∷ output ∷ []) fs

copy_bytes : Tools → Str → Files → Option Bytes → Outcome
copy_bytes t dst fs none = (fs, some read_failed)
copy_bytes t dst fs (some b) =
    if t.writable dst then (write_file dst b fs, none) else (fs, some write_failed)

unfoldable pub copy_file : Tools → Str → Str → Files → Outcome
unfolding copy_bytes
copy_file t src dst fs = copy_bytes t dst fs (read_file src fs)

unfoldable pub gs_intermediate : Str → Str
gs_intermediate tmp = tmp ++ codes "/gs_intermediate.pdf"

after_minimal : Outcome → Outcome
after_minimal (fs, none) = (fs, none)
after_minimal (fs, some e) = (fs, some pdf_failed)

after_qpdf : Tools → Str → Str → Str → Option ProcessError → Outcome → Outcome
unfolding after_minimal
after_qpdf t input output tmp gs (fs, none) = (fs, none)
after_qpdf t input output tmp none (fs, some e) = copy_file t (gs_intermediate tmp) output fs
after_qpdf t input output tmp (some g) (fs, some e) =
    after_minimal (run_qpdf_minimal t input output fs)

after_ghostscript : Tools → Str → Str → Str → Outcome → Outcome
unfolding after_qpdf
after_ghostscript t input output tmp (fs, none) =
    after_qpdf t input output tmp none (run_qpdf t (gs_intermediate tmp) output fs)
after_ghostscript t input output tmp (fs, some g) =
    after_qpdf t input output tmp (some g) (run_qpdf t input output fs)

unfoldable pub pdf_compress : Tools → ContextError → Str → Str → Str → JobParams → Files → Outcome
unfolding after_ghostscript
pdf_compress t ctx input output tmp params fs =
    unless_done ctx fs (
      after_ghostscript t input output tmp
        (run_ghostscript t input (gs_intermediate tmp) params fs))
