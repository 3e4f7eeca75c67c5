-- ===== src/Scenario/Tools.antt =====
-- The queue and the processors at concrete data.
use ilove_convertion.Base.{◌≡◌, ◌≢◌, ◌⊎◌, ◌↔◌, true, none, some, [], ◌∷◌, codes, arith}
use ilove_convertion.Base.Int.{pos, negsuc}
use ilove_convertion.Database.{answered}
use ilove_convertion.Queue.{requeue, dequeue, job}
use ilove_convertion.Queue.Order.{enqueue_all, dequeue_order}
use ilove_convertion.Processor.{Tools, alive}
use ilove_convertion.Processor.Audio.{
  mp3_bitrate, ogg_quality, opus_bitrate, aac_bitrate, flac_level, wma_bitrate,
}
use ilove_convertion.Processor.Range.{RisesAt, FallsAt, audio_settings}
use ilove_convertion.Processor.Pdf.{run_ghostscript, gs_intermediate, pdf_compress}
use ilove_convertion.Processor.Pdf.Fallback.{AfterGood, AfterBad, pdf_compress_succeeds_iff}
use ilove_convertion.Scenario.{png_params}

queue_example :
    (dequeue true (enqueue_all (codes "a" ∷ codes "b" ∷ []) [])
      ≡ (enqueue_all (codes "b" ∷ []) [], job (codes "a")))
    × (dequeue true (requeue answered (codes "a") (codes "c" ∷ [])).0
        ≡ (codes "c" ∷ [], job (codes "a")))
queue_example = dequeue_order (codes "a") (codes "b" ∷ []) (codes "c" ∷ [])

audio_example :
    RisesAt mp3_bitrate (pos 32) (pos 320) (negsuc 4) (pos 200)
    × RisesAt opus_bitrate (pos 16) (pos 256) (negsuc 4) (pos 200)
    × RisesAt aac_bitrate (pos 32) (pos 256) (negsuc 4) (pos 200)
    × RisesAt wma_bitrate (pos 32) (pos 192) (negsuc 4) (pos 200)
    × RisesAt ogg_quality (pos 0) (pos 10) (negsuc 4) (pos 200)
    × FallsAt flac_level (pos 12) (pos 0) (negsuc 4) (pos 200)
audio_example = audio_settings (negsuc 4) (pos 200) (omega arith)

-- Tools that succeed and change no file.
abbrev pub idle : Tools
idle = record {
  run =
      λ name args fs. (fs, record { stdout = []; stderr = []; run_error = none; context = alive });
  process = λ o bs. some bs;
  writable = λ p. true;
}

pdf_example :
    let g = run_ghostscript idle (codes "in") (gs_intermediate (codes "tmp")) png_params [] in
    ((pdf_compress idle alive (codes "in") (codes "out") (codes "tmp") png_params []).1 ≡ none) ↔ (
      ((g.1 ≡ none) × AfterGood idle (codes "in") (codes "out") (codes "tmp") g.0)
      ⊎ ((g.1 ≢ none) × AfterBad idle (codes "in") (codes "out") (codes "tmp") g.0))
pdf_example = pdf_compress_succeeds_iff idle (codes "in") (codes "out") (codes "tmp") png_params []
