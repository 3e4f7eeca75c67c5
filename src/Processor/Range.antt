-- ===== src/Processor/Range.antt =====
-- The encoder settings that a quality is mapped to.
use ilove_convertion.Base.{ℕ, ◌+◌, ◌-◌, ◌*◌, ◌/◌, ◌≤◌, ◌≡◌, if◌then◌else◌, refl, leb, arith}
use ilove_convertion.Base.Int.{ℤ, pos, negsuc, ◌≤ℤ◌}
use ilove_convertion.Processor.{map_range}
use ilove_convertion.Processor.Audio.{
  mp3_bitrate, ogg_quality, opus_bitrate, aac_bitrate, flac_level, wma_bitrate,
}
use ilove_convertion.Processor.Video.{quality_to_h264_crf, quality_to_vp9_crf}

-- A setting within bounds for every int, and growing (or falling) with the quality.
abbrev Rises : (ℤ → ℤ) → ℤ → ℤ → Type 0
Rises f lo hi = ((q : ℤ) → (lo ≤ℤ f q) × (f q ≤ℤ hi)) × ((q r : ℤ) → q ≤ℤ r → f q ≤ℤ f r)

abbrev Falls : (ℤ → ℤ) → ℤ → ℤ → Type 0
Falls f hi lo = ((q : ℤ) → (lo ≤ℤ f q) × (f q ≤ℤ hi)) × ((q r : ℤ) → q ≤ℤ r → f r ≤ℤ f q)

-- The quality within 1 to 100, less 1.
level : ℤ → ℕ
level (negsuc n) = 0
level (pos n) = if leb n 1 then 0 else if leb 100 n then 99 else n - 1

level-le : (q : ℤ) → level q ≤ 99
unfolding level
level-le (negsuc n) = omega arith
level-le (pos n) = ground arith

level_mono : (q r : ℤ) → q ≤ℤ r → level q ≤ level r
unfolding level
level_mono (negsuc n) r h = omega arith
level_mono (pos n) (negsuc m) h = absurd (omega arith)
level_mono (pos n) (pos m) h = ground arith

scale-le : (x d : ℕ) → x ≤ 99 → x * d / 99 ≤ d
scale-le x d h = let k : x * d ≤ 99 * d = grind arith in omega arith

scale_mono : (x y d : ℕ) → x ≤ y → x * d / 99 ≤ y * d / 99
scale_mono x y d h = let k : x * d ≤ y * d = grind arith in omega arith

level-Rises :
    (f : ℤ → ℤ) (lo d hi : ℕ)
    → hi ≡ lo + d
    → ((q : ℤ) → f q ≡ pos (lo + level q * d / 99))
    → Rises f (pos lo) (pos hi)
level-Rises f lo d hi e h = (
  λ q. rw h (omega arith, omega (arith, scale-le (level q) d (level-le q))),
  λ q r le. rw (h q, h r) (omega (arith, scale_mono (level q) (level r) d (level_mono q r le))),
)

level-Falls :
    (f : ℤ → ℤ) (lo d hi : ℕ)
    → hi ≡ lo + d
    → ((q : ℤ) → f q ≡ pos (hi - level q * d / 99))
    → Falls f (pos hi) (pos lo)
level-Falls f lo d hi e h = (
  λ q. rw h (omega (arith, scale-le (level q) d (level-le q)), omega arith),
  λ q r le. rw (h q, h r) (omega (arith, scale_mono (level q) (level r) d (level_mono q r le))),
)

mp3_level : (q : ℤ) → mp3_bitrate q ≡ pos (32 + level q * 288 / 99)
unfolding mp3_bitrate map_range level
mp3_level (negsuc n) = ground arith
mp3_level (pos n) = ground arith

opus_level : (q : ℤ) → opus_bitrate q ≡ pos (16 + level q * 240 / 99)
unfolding opus_bitrate map_range level
opus_level (negsuc n) = ground arith
opus_level (pos n) = ground arith

aac_level : (q : ℤ) → aac_bitrate q ≡ pos (32 + level q * 224 / 99)
unfolding aac_bitrate map_range level
aac_level (negsuc n) = ground arith
aac_level (pos n) = ground arith

wma_level : (q : ℤ) → wma_bitrate q ≡ pos (32 + level q * 160 / 99)
unfolding wma_bitrate map_range level
wma_level (negsuc n) = ground arith
wma_level (pos n) = ground arith

ogg_level : (q : ℤ) → ogg_quality q ≡ pos (0 + level q * 10 / 99)
unfolding ogg_quality map_range level
ogg_level (negsuc n) = ground arith
ogg_level (pos n) = ground arith

flac_level_lem : (q : ℤ) → flac_level q ≡ pos (12 - level q * 12 / 99)
unfolding flac_level map_range level
flac_level_lem (negsuc n) = ground arith
flac_level_lem (pos n) = ground arith

h264_level : (q : ℤ) → quality_to_h264_crf q ≡ pos (45 - level q * 28 / 99)
unfolding quality_to_h264_crf map_range level
h264_level (negsuc n) = ground arith
h264_level (pos n) = ground arith

vp9_level : (q : ℤ) → quality_to_vp9_crf q ≡ pos (50 - level q * 35 / 99)
unfolding quality_to_vp9_crf map_range level
vp9_level (negsuc n) = ground arith
vp9_level (pos n) = ground arith

-- Both bounds for one quality, and the order of two.
abbrev pub RisesAt : (ℤ → ℤ) → ℤ → ℤ → ℤ → ℤ → Type 0
RisesAt f lo hi q r = (lo ≤ℤ f q) × (f q ≤ℤ hi) × (f q ≤ℤ f r)

abbrev pub FallsAt : (ℤ → ℤ) → ℤ → ℤ → ℤ → ℤ → Type 0
FallsAt f hi lo q r = (lo ≤ℤ f q) × (f q ≤ℤ hi) × (f r ≤ℤ f q)

module _ (f : ℤ → ℤ) (a b q r : ℤ) (le : q ≤ℤ r) where
  rise : Rises f a b → RisesAt f a b q r
  rise h = ((h.0 q).0, (h.0 q).1, h.1 q r le)

  fall : Falls f a b → FallsAt f a b q r
  fall h = ((h.0 q).0, (h.0 q).1, h.1 q r le)

-- For an int as the quality the audio settings lie in the encoders' ranges, 32 to 320, 16 to
-- 256, 32 to 256 and 32 to 192 kbit/s for MP3, Opus, AAC and WMA, 0 to 10 for Vorbis and 0 to 12
-- for FLAC; a higher quality never gives a lower bitrate or Vorbis quality, nor a higher FLAC level.
pub audio_settings :
    (q r : ℤ)
    → q ≤ℤ r
    → RisesAt mp3_bitrate (pos 32) (pos 320) q r
      × RisesAt opus_bitrate (pos 16) (pos 256) q r
      × RisesAt aac_bitrate (pos 32) (pos 256) q r
      × RisesAt wma_bitrate (pos 32) (pos 192) q r
      × RisesAt ogg_quality (pos 0) (pos 10) q r
      × FallsAt flac_level (pos 12) (pos 0) q r
audio_settings q r le = (
  rise mp3_bitrate (pos 32) (pos 320) q r le (level-Rises mp3_bitrate 32 288 320 refl mp3_level),
  rise opus_bitrate (pos 16) (pos 256) q r le (level-Rises opus_bitrate 16 240 256 refl opus_level),
  rise aac_bitrate (pos 32) (pos 256) q r le (level-Rises aac_bitrate 32 224 256 refl aac_level),
  rise wma_bitrate (pos 32) (pos 192) q r le (level-Rises wma_bitrate 32 160 192 refl wma_level),
  rise ogg_quality (pos 0) (pos 10) q r le (level-Rises ogg_quality 0 10 10 refl ogg_level),
  fall flac_level (pos 12) (pos 0) q r le (level-Falls flac_level 0 12 12 refl flac_level_lem),
)

-- For an int as the quality the CRF lies between 17 and 45 for H.264 and between 15 and 50 for
-- VP9, and a higher quality never gives a higher CRF.
pub video_settings :
    (q r : ℤ)
    → q ≤ℤ r
    → FallsAt quality_to_h264_crf (pos 45) (pos 17) q r
      × FallsAt quality_to_vp9_crf (pos 50) (pos 15) q r
video_settings q r le = (
  fall quality_to_h264_crf (pos 45) (pos 17) q r le
      (level-Falls quality_to_h264_crf 17 28 45 refl h264_level),
  fall quality_to_vp9_crf (pos 50) (pos 15) q r le
      (level-Falls quality_to_vp9_crf 15 35 50 refl vp9_level),
)
