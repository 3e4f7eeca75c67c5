-- ===== src/Models.antt =====
-- internal/models/models.go: operations, formats, job records and parameters. A status and an
-- operation are enums, as the columns of db/init.sql make them; the text of an operation is read
-- by `valid_operation`. A `time.Time` is a number of seconds.
pub mod Formats
pub mod Params
use ilove_convertion.Base.{
  ℕ, ◌+◌, ◌-◌, Bool, true, false, ◌&&◌, ◌||◌, Option, none, some, List, [], ◌∷◌, ◌++◌, Str, codes,
  str_eq, is_empty, to_lower, trim_dot, ext, leb, if◌then◌else◌, length, take, drop,
}
use ilove_convertion.Base.Int.{ℤ}

pub data Status : Type 0 where
  pending processing completed failed : Status

pub data Operation : Type 0 where
  image_convert image_compress image_remove_bg pdf_compress : Operation
  audio_convert audio_compress video_compress : Operation

abbrev pub operation_name : Operation → Str
operation_name image_convert = codes "image_convert"
operation_name image_compress = codes "image_compress"
operation_name image_remove_bg = codes "image_remove_bg"
operation_name pdf_compress = codes "pdf_compress"
operation_name audio_convert = codes "audio_convert"
operation_name audio_compress = codes "audio_compress"
operation_name video_compress = codes "video_compress"

-- `for _, f := range formats { if f == ext { return true } }`
unfoldable pub contains : List Str → Str → Bool
unfolding str_eq
contains [] e = false
contains (f ∷ fs) e = str_eq f e || contains fs e

abbrev pub all_operations : List Operation
all_operations =
    image_convert ∷ image_compress ∷ image_remove_bg ∷ pdf_compress ∷ audio_convert ∷ audio_compress
    ∷ video_compress ∷ []

find_operation : List Operation → Str → Option Operation
find_operation [] s = none
find_operation (op ∷ ops) s = if str_eq (operation_name op) s then some op else find_operation ops s

-- The lookup in ValidOperations.
unfoldable pub valid_operation : Str → Option Operation
unfolding find_operation str_eq
valid_operation s = find_operation all_operations s

abbrev pub mime_types : List (Str × Str)
mime_types =
    (codes "jpeg", codes "image/jpeg")
    ∷ (codes "jpg", codes "image/jpeg")
    ∷ (codes "png", codes "image/png")
    ∷ (codes "webp", codes "image/webp")
    ∷ (codes "tiff", codes "image/tiff")
    ∷ (codes "tif", codes "image/tiff")
    ∷ (codes "gif", codes "image/gif")
    ∷ (codes "avif", codes "image/avif")
    ∷ (codes "heif", codes "image/heif")
    ∷ (codes "heic", codes "image/heic")
    ∷ (codes "bmp", codes "image/bmp")
    ∷ (codes "mp3", codes "audio/mpeg")
    ∷ (codes "wav", codes "audio/wav")
    ∷ (codes "flac", codes "audio/flac")
    ∷ (codes "ogg", codes "audio/ogg")
    ∷ (codes "opus", codes "audio/opus")
    ∷ (codes "aac", codes "audio/aac")
    ∷ (codes "m4a", codes "audio/mp4")
    ∷ (codes "aiff", codes "audio/aiff")
    ∷ (codes "wma", codes "audio/x-ms-wma")
    ∷ (codes "mp4", codes "video/mp4")
    ∷ (codes "mkv", codes "video/x-matroska")
    ∷ (codes "webm", codes "video/webm")
    ∷ (codes "avi", codes "video/x-msvideo")
    ∷ (codes "mov", codes "video/quicktime")
    ∷ (codes "pdf", codes "application/pdf")
    ∷ []

abbrev pub octet_stream : Str
octet_stream = codes "application/octet-stream"

find_mime : List (Str × Str) → Str → Str
find_mime [] e = octet_stream
find_mime ((k, m) ∷ r) e = if str_eq k e then m else find_mime r e

unfoldable pub mime_for_extension : Str → Str
unfolding find_mime str_eq to_lower trim_dot
mime_for_extension e = find_mime mime_types (trim_dot (to_lower e))

abbrev image_formats : List Str
image_formats =
    codes "jpeg"
    ∷ codes "jpg"
    ∷ codes "png"
    ∷ codes "webp"
    ∷ codes "tiff"
    ∷ codes "tif"
    ∷ codes "gif"
    ∷ codes "avif"
    ∷ codes "heif"
    ∷ codes "heic"
    ∷ codes "bmp"
    ∷ []

abbrev audio_formats : List Str
audio_formats =
    codes "mp3"
    ∷ codes "wav"
    ∷ codes "flac"
    ∷ codes "ogg"
    ∷ codes "opus"
    ∷ codes "aac"
    ∷ codes "m4a"
    ∷ codes "aiff"
    ∷ codes "wma"
    ∷ []

abbrev pub input_formats : Operation → List Str
input_formats image_convert = image_formats
input_formats image_compress = image_formats
input_formats image_remove_bg =
    codes "jpeg"
    ∷ codes "jpg"
    ∷ codes "png"
    ∷ codes "webp"
    ∷ codes "tiff"
    ∷ codes "tif"
    ∷ codes "bmp"
    ∷ []
input_formats pdf_compress = codes "pdf" ∷ []
input_formats audio_convert = audio_formats
input_formats audio_compress = audio_formats
input_formats video_compress =
    codes "mp4" ∷ codes "mkv" ∷ codes "webm" ∷ codes "avi" ∷ codes "mov" ∷ []

-- An empty list means the formats of the input.
abbrev pub output_formats : Operation → List Str
output_formats image_convert =
    codes "jpeg"
    ∷ codes "png"
    ∷ codes "webp"
    ∷ codes "tiff"
    ∷ codes "gif"
    ∷ codes "avif"
    ∷ codes "heif"
    ∷ codes "bmp"
    ∷ []
output_formats image_compress = []
output_formats image_remove_bg = codes "png" ∷ codes "webp" ∷ []
output_formats pdf_compress = codes "pdf" ∷ []
output_formats audio_convert =
    codes "mp3"
    ∷ codes "wav"
    ∷ codes "flac"
    ∷ codes "ogg"
    ∷ codes "opus"
    ∷ codes "aac"
    ∷ codes "m4a"
    ∷ codes "aiff"
    ∷ []
output_formats audio_compress = []
output_formats video_compress = codes "mp4" ∷ codes "mkv" ∷ codes "webm" ∷ []

unfoldable pub valid_input_format : Operation → Str → Bool
unfolding contains to_lower trim_dot
valid_input_format op e = contains (input_formats op) (trim_dot (to_lower e))

pub no_formats : List Str → Bool
no_formats [] = true
no_formats (_ ∷ _) = false

unfoldable pub valid_output_format : Operation → Str → Bool
unfolding contains valid_input_format no_formats
valid_output_format op e =
    let e' = trim_dot (to_lower e) in
    if no_formats (output_formats op)
    then valid_input_format op e'
    else contains (output_formats op) e'

pub record Session : Type 0 where
  pub id : Str
  pub ip_address : Str
  pub created_at : ℕ
  pub last_request_at : ℕ
  pub hourly_request_count : ℕ
  pub total_request_count : ℕ
  pub is_flagged : Bool

pub record JobParams : Type 0 where
  pub output_format : Str
  pub quality : ℤ
  pub lossless : Bool
  pub image_dpi : ℤ
  pub image_quality : ℤ

-- The `params` column, a JSONB object: its members by name.
pub data JsonValue : Type 0 where
  text : Str → JsonValue
  number : ℤ → JsonValue
  boolean : Bool → JsonValue
  null : JsonValue

abbrev pub JsonObject : Type 0
JsonObject = List (Str × JsonValue)

pub record Job : Type 0 where
  pub id : Str
  pub session_id : Str
  pub operation : Operation
  pub status : Status
  pub input_filename : Str
  pub output_filename : Option Str
  pub input_size : ℕ
  pub output_size : Option ℕ
  pub original_name : Str
  pub params : JsonObject
  pub error_message : Option Str
  pub retry_count : ℕ
  pub created_at : ℕ
  pub started_at : Option ℕ
  pub completed_at : Option ℕ
  pub expires_at : ℕ

pub record JobResponse : Type 0 where
  pub id : Str
  pub operation : Operation
  pub status : Status
  pub input_size : ℕ
  pub output_size : Option ℕ
  pub original_name : Str
  pub output_filename : Option Str
  pub error_message : Option Str
  pub created_at : ℕ
  pub started_at : Option ℕ
  pub completed_at : Option ℕ

unfoldable pub to_response : Job → JobResponse
to_response j = record {
  id = j.id;
  operation = j.operation;
  status = j.status;
  input_size = j.input_size;
  output_size = j.output_size;
  original_name = j.original_name;
  output_filename = j.output_filename;
  error_message = j.error_message;
  created_at = j.created_at;
  started_at = j.started_at;
  completed_at = j.completed_at;
}

unfoldable pub input_ext : Job → Str
input_ext j = trim_dot (to_lower (ext j.original_name))

-- strings.TrimSuffix
unfoldable pub trim_suffix : Str → Str → Str
trim_suffix s suffix =
    let n = length s - length suffix in
    if leb (length suffix) (length s) && str_eq (drop n s) suffix then take n s else s

unfoldable pub output_name : Str → Str → Str
unfolding trim_suffix
output_name original_name output_format =
    if is_empty output_format
    then original_name
    else trim_suffix original_name (ext original_name) ++ codes "." ++ to_lower output_format
