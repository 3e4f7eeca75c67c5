-- ===== src/Processor/Video.antt =====
-- internal/processor/video.go
use ilove_convertion.Base.{List, [], ◌∷◌, ◌++◌, Str, codes, str_eq, if◌then◌else◌}
use ilove_convertion.Base.Int.{ℤ, pos, leb_ℤ}
use ilove_convertion.Models.{JobParams}
use ilove_convertion.Storage.{Files}
use ilove_convertion.Processor.{
  Tools, Outcome, ContextError, run_command, unless_done, map_range, show_int,
}

unfoldable pub quality_to_h264_crf : ℤ → ℤ
quality_to_h264_crf q = map_range q (pos 1) (pos 100) (pos 45) (pos 17)

unfoldable pub quality_to_vp9_crf : ℤ → ℤ
quality_to_vp9_crf q = map_range q (pos 1) (pos 100) (pos 50) (pos 15)

unfoldable pub h264_preset : ℤ → Str
h264_preset q =
    if leb_ℤ (pos 80) q
    then codes "slow"
    else if leb_ℤ (pos 40) q
    then codes "medium"
    else codes "faster"

h264_args : ℤ → List Str
h264_args q =
    codes "-c:v"
    ∷ codes "libx264"
    ∷ codes "-crf"
    ∷ show_int (quality_to_h264_crf q)
    ∷ codes "-preset"
    ∷ h264_preset q
    ∷ codes "-pix_fmt"
    ∷ codes "yuv420p"
    ∷ codes "-threads"
    ∷ codes "0"
    ∷ []

vp9_args : ℤ → List Str
vp9_args q =
    codes "-c:v"
    ∷ codes "libvpx-vp9"
    ∷ codes "-crf"
    ∷ show_int (quality_to_vp9_crf q)
    ∷ codes "-b:v"
    ∷ codes "0"
    ∷ codes "-row-mt"
    ∷ codes "1"
    ∷ codes "-threads"
    ∷ codes "0"
    ∷ codes "-pix_fmt"
    ∷ codes "yuv420p"
    ∷ []

abbrev aac_audio_args : List Str
aac_audio_args =
    codes "-c:a" ∷ codes "aac" ∷ codes "-b:a" ∷ codes "128k" ∷ codes "-ac" ∷ codes "2" ∷ []

abbrev opus_audio_args : List Str
opus_audio_args =
    codes "-c:a" ∷ codes "libopus" ∷ codes "-b:a" ∷ codes "128k" ∷ codes "-ac" ∷ codes "2" ∷ []

-- The `switch params.OutputFormat`.
video_codec : Str → ℤ → List Str
unfolding str_eq h264_args vp9_args
video_codec f q =
    if str_eq f (codes "mp4")
    then h264_args q ++ (aac_audio_args ++ (codes "-movflags" ∷ codes "+faststart" ∷ []))
    else if str_eq f (codes "webm")
    then vp9_args q ++ opus_audio_args
    else h264_args q ++ aac_audio_args

unfoldable pub video_compress : Tools → ContextError → Str → Str → JobParams → Files → Outcome
unfolding video_codec
video_compress t ctx input output params fs = unless_done ctx fs (
    run_command t (codes "ffmpeg")
      ((codes "-hide_banner" ∷ codes "-loglevel" ∷ codes "error" ∷ codes "-i" ∷ input ∷ [])
        ++ (video_codec params.output_format params.quality
            ++ (codes "-sn"
                ∷ codes "-dn"
                ∷ codes "-map_metadata"
                ∷ codes "-1"
                ∷ codes "-y"
                ∷ output
                ∷ [])))
      fs)
