-- ===== src/Form.antt =====
-- The text and form functions of cmd/api/handlers.go: parseAndValidateParams, normalizeExt,
-- sanitizeFilename, formatBytes, with strconv.Atoi. A form value that is missing is "".
pub mod Validation
pub mod Names
pub mod Size
pub mod Tests
use ilove_convertion.Base.{
  ℕ, zero, suc, ◌+◌, ◌-◌, ◌*◌, ◌/◌, ◌%◌, ◌^◌, Bool, true, false, ◌||◌, Option, none, some, [], ◌∷◌,
  Str, codes, str_eq, is_empty, to_lower, trim_dot, trim_space, replace_all, ltb, leb, ◌==◌,
  if◌then◌else◌,
}
use ilove_convertion.Base.Int.{ℤ, pos, negsuc, ltb_ℤ}
use ilove_convertion.Models.{
  Operation, image_convert, image_compress, image_remove_bg, pdf_compress, audio_convert,
  audio_compress, video_compress, valid_output_format, JobParams,
}

-- The errors of parseAndValidateParams, for their messages.
pub data ParamError : Type 0 where
  output_format_required : Operation → ParamError
  unsupported_output_format : Str → ParamError
  remove_bg_output unsupported_video_output : Str → ParamError
  bad_quality invalid_image_dpi bad_image_dpi bad_image_quality : ParamError

pub data Result (A : Type 0) : Type 0 where
  ok : A → Result A
  err : ParamError → Result A

infixl 5 ◌>>=◌
abbrev pub ◌>>=◌ : {A B : Type 0} → Result A → (A → Result B) → Result B
ok a >>= f = f a
err e >>= f = err e

parse_digits : Str → ℕ → Option ℕ
parse_digits [] n = some n
parse_digits (c ∷ s) n =
    if ltb c b'0' || ltb b'9' c then none else parse_digits s (n * 10 + (c - b'0'))

to_int64 : Bool → Option ℕ → Option ℤ
to_int64 minus none = none
to_int64 false (some n) = if ltb n (2 ^ 63) then some (pos n) else none
to_int64 true (some zero) = some (pos zero)
to_int64 true (some (suc n)) = if ltb n (2 ^ 63) then some (negsuc n) else none

unsigned : Bool → Str → Option ℤ
unfolding to_int64 parse_digits
unsigned minus [] = none
unsigned minus (c ∷ s) = to_int64 minus (parse_digits (c ∷ s) 0)

-- strconv.Atoi; `none` for an error.
unfoldable pub atoi : Str → Option ℤ
unfolding unsigned
atoi [] = none
atoi (c ∷ s) =
    if c == b'-'
    then unsigned true s
    else if c == b'+'
    then unsigned false s
    else unsigned false (c ∷ s)

-- strings.ToLower, and strings.TrimSpace in its callers, on ASCII: bytes from 128 on stay as they are,
-- where Go would change the case of other letters and replace bytes that are not UTF-8.
unfoldable pub normalize_ext : Str → Str
unfolding str_eq
normalize_ext e =
    let e' = to_lower (trim_dot e) in
    if str_eq e' (codes "jpg")
    then codes "jpeg"
    else if str_eq e' (codes "tif")
    then codes "tiff"
    else e'

pub record Form : Type 0 where
  pub operation : Str
  pub output_format : Str
  pub quality : Str
  pub lossless : Str
  pub image_dpi : Str
  pub image_quality : Str

-- `if p.OutputFormat == "" { p.OutputFormat = fallback }`
abbrev or_else : Str → Str → Str
or_else [] fallback = fallback
or_else (c ∷ s) fallback = c ∷ s

-- The first `switch operation`: the output format, from the normalised form value.
pub check_format : Operation → Str → Str → Result Str
check_format image_convert input_ext f =
    if is_empty f
    then err (output_format_required image_convert)
    else if valid_output_format image_convert f
    then ok f
    else err (unsupported_output_format f)
check_format audio_convert input_ext f =
    if is_empty f
    then err (output_format_required audio_convert)
    else if valid_output_format audio_convert f
    then ok f
    else err (unsupported_output_format f)
check_format image_remove_bg input_ext f =
    let g = or_else f (codes "png") in
    if valid_output_format image_remove_bg g then ok g else err (remove_bg_output g)
check_format image_compress input_ext f = ok (or_else f input_ext)
check_format audio_compress input_ext f = ok (or_else f input_ext)
check_format video_compress input_ext f =
    let g =
      or_else f (if valid_output_format video_compress input_ext then input_ext else codes "mp4") in
    if valid_output_format video_compress g then ok g else err (unsupported_video_output g)
check_format pdf_compress input_ext f = ok (codes "pdf")

-- `err != nil || v < 1 || v > 100`
percent : ParamError → Option ℤ → Result ℤ
percent e none = err e
percent e (some v) = if ltb_ℤ v (pos 1) || ltb_ℤ (pos 100) v then err e else ok v

default_quality : Operation → ℤ
default_quality image_compress = pos 80
default_quality audio_compress = pos 70
default_quality video_compress = pos 65
default_quality _ = pos 0

check_quality : Operation → Str → Result ℤ
unfolding percent default_quality
check_quality op q = if is_empty q then ok (default_quality op) else percent bad_quality (atoi q)

known_dpi : Option ℤ → Result ℤ
known_dpi none = err invalid_image_dpi
known_dpi (some (negsuc n)) = err bad_image_dpi
known_dpi (some (pos n)) =
    if n == 72 || n == 150 || n == 300 || n == 600 then ok (pos n) else err bad_image_dpi

default_dpi : Operation → ℤ
default_dpi pdf_compress = pos 150
default_dpi _ = pos 0

check_dpi : Operation → Str → Result ℤ
unfolding known_dpi default_dpi
check_dpi op d = if is_empty d then ok (default_dpi op) else known_dpi (atoi d)

default_image_quality : Operation → ℤ
default_image_quality pdf_compress = pos 75
default_image_quality _ = pos 0

check_image_quality : Operation → Str → Result ℤ
unfolding percent default_image_quality
check_image_quality op q =
    if is_empty q then ok (default_image_quality op) else percent bad_image_quality (atoi q)

unfoldable pub parse_and_validate_params : Form → Operation → Str → Result JobParams
unfolding check_format check_quality check_dpi check_image_quality
parse_and_validate_params r op input_ext = do
  format ← check_format op input_ext (normalize_ext (trim_space r.output_format))
  quality ← check_quality op r.quality
  dpi ← check_dpi op r.image_dpi
  image_quality ← check_image_quality op r.image_quality
  ok (record {
    output_format = format;
    quality = quality;
    lossless = str_eq r.lossless (codes "true");
    image_dpi = dpi;
    image_quality = image_quality;
  })

unfoldable pub sanitize_filename : Str → Str
sanitize_filename name =
    let clean =
      replace_all 34 (39 ∷ [])
        (replace_all 0 [] (replace_all 92 (codes "_") (replace_all 47 (codes "_") name))) in
    if is_empty clean then codes "download" else clean

-- The loop of formatBytes: `for n := b / unit; n >= unit; n /= unit { div *= unit; exp++ }`, on
-- fuel; `div` is an int64.
size_loop : ℕ → ℕ → ℕ → ℕ → Option (ℕ × ℕ)
size_loop zero n div exp = none
size_loop (suc fuel) n div exp =
    let rest = size_loop fuel (n / 1024) (div * 1024 % 2 ^ 64) (exp + 1) in
    if leb 1024 n then rest else some (div, exp)

-- formatBytes of a size that is not negative: `none` below 1024, where it prints the bytes, or the
-- divisor and the place of the unit's letter in "KMGTPE".
pub data Shown : Type 0 where
  bytes : ℕ → Shown
  scaled : ℕ → ℕ → Shown
  stuck : Shown

shown : Option (ℕ × ℕ) → Shown
shown none = stuck
shown (some (div, exp)) = scaled div exp

unfoldable pub format_bytes : ℕ → Shown
unfolding size_loop shown
format_bytes b = if ltb b 1024 then bytes b else shown (size_loop 64 (b / 1024) 1024 0)
