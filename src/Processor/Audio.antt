-- ===== src/Processor/Audio.antt =====
-- internal/processor/audio.go
use ilove_convertion.Base.{List, [], ◌∷◌, ◌++◌, Str, codes, str_eq, ◌||◌, if◌then◌else◌}
use ilove_convertion.Base.Int.{ℤ, pos}
use ilove_convertion.Models.{JobParams}
use ilove_convertion.Storage.{Files}
use ilove_convertion.Processor.{
  Tools, Outcome, ContextError, run_command, unless_done, map_range, show_int,
}

abbrev quiet_input : Str → List Str
quiet_input input =
    codes "-hide_banner" ∷ codes "-loglevel" ∷ codes "error" ∷ codes "-i" ∷ input ∷ []

convert_codec : Str → List Str
unfolding str_eq
convert_codec f =
    if str_eq f (codes "mp3")
    then codes "-c:a" ∷ codes "libmp3lame" ∷ codes "-q:a" ∷ codes "2" ∷ []
    else if str_eq f (codes "wav")
    then codes "-c:a" ∷ codes "pcm_s16le" ∷ []
    else if str_eq f (codes "flac")
    then codes "-c:a" ∷ codes "flac" ∷ codes "-compression_level" ∷ codes "8" ∷ []
    else if str_eq f (codes "ogg")
    then codes "-c:a" ∷ codes "libvorbis" ∷ codes "-q:a" ∷ codes "5" ∷ []
    else if str_eq f (codes "opus")
    then codes "-c:a" ∷ codes "libopus" ∷ codes "-b:a" ∷ codes "128k" ∷ []
    else if str_eq f (codes "aac")
    then codes "-c:a" ∷ codes "aac" ∷ codes "-b:a" ∷ codes "192k" ∷ []
    else if str_eq f (codes "m4a")
    then codes "-c:a" ∷ codes "aac" ∷ codes "-b:a" ∷ codes "192k" ∷ []
    else if str_eq f (codes "aiff")
    then codes "-c:a" ∷ codes "pcm_s16be" ∷ []
    else codes "-c:a" ∷ codes "copy" ∷ []

unfoldable pub audio_convert : Tools → ContextError → Str → Str → JobParams → Files → Outcome
unfolding convert_codec unless_done
audio_convert t ctx input output params fs = unless_done ctx fs (
    run_command t (codes "ffmpeg")
      (quiet_input input
        ++ (convert_codec params.output_format ++ (codes "-vn" ∷ codes "-y" ∷ output ∷ [])))
      fs)

-- fmt.Sprintf("%dk", br)
abbrev kilobits : ℤ → Str
kilobits br = show_int br ++ codes "k"

-- The bitrates, levels and qualities that a quality stands for.
unfoldable pub mp3_bitrate : ℤ → ℤ
mp3_bitrate q = map_range q (pos 1) (pos 100) (pos 32) (pos 320)

unfoldable pub ogg_quality : ℤ → ℤ
ogg_quality q = map_range q (pos 1) (pos 100) (pos 0) (pos 10)

unfoldable pub opus_bitrate : ℤ → ℤ
opus_bitrate q = map_range q (pos 1) (pos 100) (pos 16) (pos 256)

unfoldable pub aac_bitrate : ℤ → ℤ
aac_bitrate q = map_range q (pos 1) (pos 100) (pos 32) (pos 256)

unfoldable pub flac_level : ℤ → ℤ
flac_level q = map_range q (pos 1) (pos 100) (pos 12) (pos 0)

unfoldable pub wma_bitrate : ℤ → ℤ
wma_bitrate q = map_range q (pos 1) (pos 100) (pos 32) (pos 192)

unfoldable pub lossy_audio_args : Str → ℤ → List Str
unfolding str_eq
lossy_audio_args f q =
    if str_eq f (codes "mp3")
    then codes "-c:a" ∷ codes "libmp3lame" ∷ codes "-b:a" ∷ kilobits (mp3_bitrate q) ∷ []
    else if str_eq f (codes "ogg")
    then codes "-c:a" ∷ codes "libvorbis" ∷ codes "-q:a" ∷ show_int (ogg_quality q) ∷ []
    else if str_eq f (codes "opus")
    then codes "-c:a" ∷ codes "libopus" ∷ codes "-b:a" ∷ kilobits (opus_bitrate q) ∷ []
    else if str_eq f (codes "aac") || str_eq f (codes "m4a")
    then codes "-c:a" ∷ codes "aac" ∷ codes "-b:a" ∷ kilobits (aac_bitrate q) ∷ []
    else if str_eq f (codes "flac")
    then codes "-c:a" ∷ codes "flac" ∷ codes "-compression_level" ∷ show_int (flac_level q) ∷ []
    else if str_eq f (codes "wav")
    then codes "-c:a" ∷ codes "pcm_s16le" ∷ []
    else if str_eq f (codes "aiff")
    then codes "-c:a" ∷ codes "pcm_s16be" ∷ []
    else if str_eq f (codes "wma")
    then codes "-c:a" ∷ codes "wmav2" ∷ codes "-b:a" ∷ kilobits (wma_bitrate q) ∷ []
    else codes "-c:a" ∷ codes "copy" ∷ []

unfoldable pub lossless_audio_args : Str → List Str
unfolding str_eq
lossless_audio_args f =
    if str_eq f (codes "flac")
    then codes "-c:a" ∷ codes "flac" ∷ codes "-compression_level" ∷ codes "12" ∷ []
    else if str_eq f (codes "wav")
    then codes "-c:a" ∷ codes "pcm_s16le" ∷ []
    else if str_eq f (codes "aiff")
    then codes "-c:a" ∷ codes "pcm_s16be" ∷ []
    else lossy_audio_args f (pos 100)

unfoldable pub audio_compress : Tools → ContextError → Str → Str → JobParams → Files → Outcome
audio_compress t ctx input output params fs =
    let codec =
      if params.lossless
      then lossless_audio_args params.output_format
      else lossy_audio_args params.output_format params.quality in
    unless_done ctx fs (
      run_command t (codes "ffmpeg")
        (quiet_input input ++ (codec ++ (codes "-vn" ∷ codes "-y" ∷ output ∷ []))) fs)
