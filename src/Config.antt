-- ===== src/Config.antt =====
-- internal/config/config.go: the master key, the integers of the environment, and the two lookups by
-- operation. `getenv` stands for os.Getenv.
pub mod Key
pub mod Load
pub mod Tests
use ilove_convertion.Base.{
  ℕ, ◌+◌, ◌-◌, ◌*◌, ◌&&◌, Option, none, some, [], ◌∷◌, Str, codes, is_empty, leb, ◌==◌,
  if◌then◌else◌, length,
}
use ilove_convertion.Base.Int.{ℤ, pos}
use ilove_convertion.Models.{
  Operation, image_convert, image_compress, image_remove_bg, pdf_compress, audio_convert,
  audio_compress, video_compress,
}
use ilove_convertion.Form.{atoi}
use ilove_convertion.Crypto.{Bytes}

pub data ConfigError : Type 0 where
  key_required key_not_hex : ConfigError
  key_length : ℕ → ConfigError

hex_digit : ℕ → Option ℕ
hex_digit c =
    if leb b'0' c && leb c b'9'
    then some (c - b'0')
    else if leb b'a' c && leb c b'f'
    then some (c - 87)
    else if leb b'A' c && leb c b'F'
    then some (c - 55)
    else none

abbrev two_digits : Option ℕ → Option ℕ → Option Bytes → Option Bytes
two_digits (some h) (some l) (some bs) = some ((h * 16 + l) ∷ bs)
two_digits (some h) (some l) none = none
two_digits (some h) none r = none
two_digits none l r = none

-- hex.DecodeString; `none` for an error.
hex_decode : Str → Option Bytes
unfolding hex_digit
hex_decode [] = some []
hex_decode (c ∷ []) = none
hex_decode (c ∷ d ∷ s) = two_digits (hex_digit c) (hex_digit d) (hex_decode s)

pub data Loaded (A : Type 0) : Type 0 where
  loaded : A → Loaded A
  load_error : ConfigError → Loaded A

check_length : Option Bytes → Loaded Bytes
check_length none = load_error key_not_hex
check_length (some k) = if length k == 32 then loaded k else load_error (key_length (length k))

-- The checks of Load: the key of the text of ENCRYPTION_MASTER_KEY. Nothing else in it fails.
unfoldable pub load_key : Str → Loaded Bytes
unfolding hex_decode check_length
load_key text = if is_empty text then load_error key_required else check_length (hex_decode text)

module _ (getenv : Str → Str) where
  abbrev pub or_fallback : ℤ → Option ℤ → ℤ
  or_fallback d none = d
  or_fallback d (some i) = i

  unfoldable pub env_str : Str → Str → Str
  env_str key fallback = let v = getenv key in if is_empty v then fallback else v

  unfoldable pub env_int : Str → ℤ → ℤ
  env_int key fallback =
      let v = getenv key in if is_empty v then fallback else or_fallback fallback (atoi v)

  -- Timeouts, in seconds, and Retries: every operation has an entry in the maps of Load.
  unfoldable pub timeout_for : Operation → ℤ
  timeout_for image_convert = env_int (codes "TIMEOUT_IMAGE_CONVERT") (pos 120)
  timeout_for image_compress = env_int (codes "TIMEOUT_IMAGE_COMPRESS") (pos 120)
  timeout_for image_remove_bg = env_int (codes "TIMEOUT_IMAGE_REMOVE_BG") (pos 180)
  timeout_for pdf_compress = env_int (codes "TIMEOUT_PDF_COMPRESS") (pos 300)
  timeout_for audio_convert = env_int (codes "TIMEOUT_AUDIO_CONVERT") (pos 300)
  timeout_for audio_compress = env_int (codes "TIMEOUT_AUDIO_COMPRESS") (pos 300)
  timeout_for video_compress = env_int (codes "TIMEOUT_VIDEO_COMPRESS") (pos 1800)

  unfoldable pub max_retries_for : Operation → ℤ
  max_retries_for image_convert = env_int (codes "RETRY_IMAGE") (pos 2)
  max_retries_for image_compress = env_int (codes "RETRY_IMAGE") (pos 2)
  max_retries_for image_remove_bg = env_int (codes "RETRY_IMAGE") (pos 2)
  max_retries_for pdf_compress = env_int (codes "RETRY_PDF") (pos 2)
  max_retries_for audio_convert = env_int (codes "RETRY_AUDIO") (pos 2)
  max_retries_for audio_compress = env_int (codes "RETRY_AUDIO") (pos 2)
  max_retries_for video_compress = env_int (codes "RETRY_VIDEO") (pos 1)
