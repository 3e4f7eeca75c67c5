-- ===== src/Form/Tests.antt =====
-- The form functions at concrete values.
use ilove_convertion.Base.{
  ℕ, ◌≡◌, ◌<◌, ◌⊎◌, refl, false, [], Str, codes, to_lower, trim_dot, trim_space, arith,
}
use ilove_convertion.Base.Int.{pos}
use ilove_convertion.Models.{video_compress, valid_output_format, JobParams}
use ilove_convertion.Form.{
  ok, Form, atoi, normalize_ext, parse_and_validate_params, sanitize_filename, bytes, scaled,
  format_bytes,
}
use ilove_convertion.Form.Validation.{IsAccepted, parse_and_validate_params-IsAccepted}
use ilove_convertion.Form.Names.{IsSafe, sanitize_filename-IsSafe}
use ilove_convertion.Form.Size.{IsUnit, format_bytes-IsUnit}

abbrev mkv_form : Form
mkv_form = record {
  operation = codes "video_compress";
  output_format = codes " .MKV";
  quality = codes "45";
  lossless = [];
  image_dpi = codes "150";
  image_quality = [];
}

abbrev mkv_params : JobParams
mkv_params = record {
  output_format = codes "mkv";
  quality = pos 45;
  lossless = false;
  image_dpi = pos 150;
  image_quality = pos 0;
}

mkv_accepted : parse_and_validate_params mkv_form video_compress (codes "mp4") ≡ ok mkv_params
unfolding parse_and_validate_params atoi normalize_ext trim_space trim_dot to_lower
    valid_output_format
mkv_accepted = refl

accepted_example : IsAccepted video_compress mkv_params
accepted_example =
    parse_and_validate_params-IsAccepted mkv_form video_compress (codes "mp4") mkv_params
      mkv_accepted

-- An output format with slashes in it.
abbrev odd_format : Str
odd_format = codes "x/../y"

odd_normal : normalize_ext (trim_space odd_format) ≡ odd_format
unfolding normalize_ext trim_space trim_dot to_lower
odd_normal = refl

sanitize_example : IsSafe (sanitize_filename (codes "../a b.png"))
sanitize_example = sanitize_filename-IsSafe (codes "../a b.png")

plain_name : IsSafe (codes "a.png")
plain_name = record {
  nonempty = λ e. cc;
  no_slash = omega arith;
  no_backslash = omega arith;
  no_nul = omega arith;
  no_quote = omega arith;
}

size_example :
    ((5000 < 1024) × (format_bytes 5000 ≡ bytes 5000))
    ⊎ ((div : ℕ) × (exp : ℕ) × (format_bytes 5000 ≡ scaled div exp) × IsUnit 5000 div exp)
size_example = format_bytes-IsUnit 5000 (omega arith)
