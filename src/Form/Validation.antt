-- ===== src/Form/Validation.antt =====
-- What parseAndValidateParams accepts.
use ilove_convertion.Base.{
  ◌≡◌, ◌≢◌, refl, sym, ap, ◌∙◌, ◌⊎◌, inr, true, false, Option, none, some, [], ◌∷◌, Str, codes,
  str_eq, to_lower, trim_dot, trim_space, arith,
}
use ilove_convertion.Base.Int.{ℤ, pos, negsuc, ◌≤ℤ◌}
use ilove_convertion.Models.{
  Operation, image_convert, image_compress, image_remove_bg, pdf_compress, audio_convert,
  audio_compress, video_compress, valid_output_format, JobParams,
}
use ilove_convertion.Form.{
  ParamError, Result, ok, err, ◌>>=◌, Form, atoi, normalize_ext, or_else, check_format, percent,
  default_quality, check_quality, known_dpi, check_dpi, check_image_quality,
  parse_and_validate_params,
}

abbrev IsPercent : ℤ → Type 0
IsPercent v = (pos 1 ≤ℤ v) × (v ≤ℤ pos 100)

-- A quality that the caller gave, or the default of the operation.
abbrev pub IsQuality : Operation → ℤ → Type 0
IsQuality image_compress v = (pos 1 ≤ℤ v) × (v ≤ℤ pos 100)
IsQuality audio_compress v = (pos 1 ≤ℤ v) × (v ≤ℤ pos 100)
IsQuality video_compress v = (pos 1 ≤ℤ v) × (v ≤ℤ pos 100)
IsQuality _ v = (pos 0 ≤ℤ v) × (v ≤ℤ pos 100)

abbrev pub IsDpi : ℤ → Type 0
IsDpi v = (v ≡ pos 72) ⊎ ((v ≡ pos 150) ⊎ ((v ≡ pos 300) ⊎ (v ≡ pos 600)))

abbrev pub IsJobDpi : Operation → ℤ → Type 0
IsJobDpi pdf_compress v = IsDpi v
IsJobDpi _ v = (v ≡ pos 0) ⊎ IsDpi v

abbrev pub IsImageQuality : Operation → ℤ → Type 0
IsImageQuality pdf_compress v = (pos 1 ≤ℤ v) × (v ≤ℤ pos 100)
IsImageQuality _ v = (pos 0 ≤ℤ v) × (v ≤ℤ pos 100)

-- The output format of each operation but the two compressions whose formats are the input's.
abbrev pub IsChecked : Operation → Str → Type 0
IsChecked image_compress f = Unit
IsChecked audio_compress f = Unit
IsChecked op f = valid_output_format op f ≡ true

pub record IsAccepted (op : Operation) (p : JobParams) : Type 0 where
  pub format_checked : IsChecked op p.output_format
  pub quality_range : IsQuality op p.quality
  pub dpi_known : IsJobDpi op p.image_dpi
  pub image_quality_range : IsImageQuality op p.image_quality

-- Where a step and its continuation give a value, both did.
bind_ok :
    {V W : Type 0} {w : W} (first : Result V) (next : V → Result W)
    → ok w ≡ (first >>= next)
    → (v : V) × (ok w ≡ next v) × (first ≡ ok v)
bind_ok (err x) next e = cc
bind_ok (ok v) next e = (v, e, refl)

percent_ok : (e : ParamError) (o : Option ℤ) (v : ℤ) → percent e o ≡ ok v → IsPercent v
unfolding percent
percent_ok e none v h = cc
percent_ok e (some w) v h = ground arith

check_quality_ok : (op : Operation) (q : Str) (v : ℤ) → check_quality op q ≡ ok v → IsQuality op v
unfolding check_quality
check_quality_ok op [] v h = by_default op v h
  where
    by_default : (op : Operation) (v : ℤ) → ok (default_quality op) ≡ ok v → IsQuality op v
    by_default image_convert v h = ground arith
    by_default op v h = ground arith
check_quality_ok op (c ∷ q) v h = widen op (percent_ok _ (atoi (c ∷ q)) v h)
  where
    widen : (op : Operation) → IsPercent v → IsQuality op v
    widen image_convert h = omega arith
    widen op h = omega arith

known_dpi_ok : (o : Option ℤ) (v : ℤ) → known_dpi o ≡ ok v → IsDpi v
unfolding known_dpi
known_dpi_ok none v h = cc
known_dpi_ok (some (negsuc n)) v h = cc
known_dpi_ok (some (pos n)) v h = ground arith

check_dpi_ok : (op : Operation) (d : Str) (v : ℤ) → check_dpi op d ≡ ok v → IsJobDpi op v
unfolding check_dpi
check_dpi_ok pdf_compress [] v h = ground arith
check_dpi_ok op [] v h = ground arith
check_dpi_ok pdf_compress (c ∷ d) v h = known_dpi_ok (atoi (c ∷ d)) v h
check_dpi_ok op (c ∷ d) v h = inr (known_dpi_ok (atoi (c ∷ d)) v h)

check_image_quality_ok :
    (op : Operation) (q : Str) (v : ℤ) → check_image_quality op q ≡ ok v → IsImageQuality op v
unfolding check_image_quality
check_image_quality_ok pdf_compress [] v h = ground arith
check_image_quality_ok op [] v h = ground arith
check_image_quality_ok op (c ∷ q) v h = widen op (percent_ok _ (atoi (c ∷ q)) v h)
  where
    widen : (op : Operation) → IsPercent v → IsImageQuality op v
    widen image_convert h = omega arith
    widen op h = omega arith

check_format_ok :
    (op : Operation) (input_ext f g : Str) → check_format op input_ext f ≡ ok g → IsChecked op g
unfolding check_format
check_format_ok image_convert e f g h = ground arith
check_format_ok audio_convert e f g h = ground arith
check_format_ok image_remove_bg e f g h = ground arith
check_format_ok image_compress e f g h = tt
check_format_ok audio_compress e f g h = tt
check_format_ok video_compress e f g h = ground arith
check_format_ok pdf_compress e f g h = rw (← ok_inj h) pdf_is_valid
  where
    ok_inj : {a b : Str} → ok a ≡ ok b → a ≡ b
    ok_inj e = cc

    pdf_is_valid : valid_output_format pdf_compress (codes "pdf") ≡ true
    pdf_is_valid = unfold valid_output_format in refl

-- Parameters that parseAndValidateParams returns are in range: a quality between 1 and 100 (or 0
-- where the operation has none and none was given), a DPI that is 72, 150, 300 or 600 (or 0 but for
-- a PDF), an image quality between 1 and 100 (or 0 but for a PDF), and, but for the compression of
-- images and of audio, an output format that the operation admits.
pub parse_and_validate_params-IsAccepted :
    (r : Form) (op : Operation) (input_ext : Str) (p : JobParams)
    → parse_and_validate_params r op input_ext ≡ ok p
    → IsAccepted op p
unfolding parse_and_validate_params
parse_and_validate_params-IsAccepted r op input_ext p h =
    let (f, h1, ef) =
      bind_ok (check_format op input_ext (normalize_ext (trim_space r.output_format))) _ (sym h) in
    let (q, h2, eq) = bind_ok (check_quality op r.quality) _ h1 in
    let (d, h3, ed) = bind_ok (check_dpi op r.image_dpi) _ h2 in
    let (i, h4, ei) = bind_ok (check_image_quality op r.image_quality) _ h3 in
    let e = ok_inj (sym h4) in
    rw (← e) (record {
      format_checked = check_format_ok op input_ext _ f ef;
      quality_range = check_quality_ok op r.quality q eq;
      dpi_known = check_dpi_ok op r.image_dpi d ed;
      image_quality_range = check_image_quality_ok op r.image_quality i ei;
    })
  where
    ok_inj : {a b : JobParams} → ok a ≡ ok b → a ≡ b
    ok_inj e = cc

compress_format_blank :
    (r : Form) (input_ext : Str)
    → trim_space r.output_format ≡ []
    → check_format image_compress input_ext (normalize_ext (trim_space r.output_format))
      ≡ ok input_ext
unfolding check_format normalize_ext to_lower trim_dot str_eq
compress_format_blank r input_ext blank = rw blank refl

-- The format that an accepted form with a blank output format has for the compression of an image.
pub parse_and_validate_params-blank :
    (r : Form) (input_ext : Str) (p : JobParams)
    → trim_space r.output_format ≡ []
    → parse_and_validate_params r image_compress input_ext ≡ ok p
    → p.output_format ≡ input_ext
unfolding parse_and_validate_params
parse_and_validate_params-blank r input_ext p blank h =
    by _ (check_quality image_compress r.quality) (check_dpi image_compress r.image_dpi)
      (check_image_quality image_compress r.image_quality) h
      (compress_format_blank r input_ext blank)
  where
    format_of : Result JobParams → Str
    format_of (ok q) = q.output_format
    format_of (err e) = []

    or_none : Result Str → Str
    or_none (ok f) = f
    or_none (err e) = []

    by :
        (c : Result Str) (quality dpi image_quality : Result ℤ)
        → (c >>= λ f. quality >>= λ q. dpi >>= λ d. image_quality >>= λ i. ok (record {
          output_format = f;
          quality = q;
          lossless = str_eq r.lossless (codes "true");
          image_dpi = d;
          image_quality = i;
        }))
          ≡ ok p
        → c ≡ ok input_ext
        → p.output_format ≡ input_ext
    by (ok f) (ok q) (ok d) (ok i) e x = sym (ap format_of e) ∙ ap or_none x
    by (ok f) (ok q) (ok d) (err y) e x = absurd (cc)
    by (ok f) (ok q) (err y) i e x = absurd (cc)
    by (ok f) (err y) d i e x = absurd (cc)
    by (err y) q d i e x = absurd (cc)

-- A form with an output format and nothing else.
abbrev pub format_only : Str → Form
format_only f = record {
  operation = [];
  output_format = f;
  quality = [];
  lossless = [];
  image_dpi = [];
  image_quality = [];
}

-- An image compression takes any output format that is not blank: the text goes into the job's
-- parameters as it is, but for its case, a leading dot, the spaces round it and two synonyms.
pub compress_format_unchecked :
    (f input_ext : Str)
    → normalize_ext (trim_space f) ≢ []
    → parse_and_validate_params (format_only f) image_compress input_ext
      ≡ ok (record {
        output_format = normalize_ext (trim_space f);
        quality = pos 80;
        lossless = false;
        image_dpi = pos 0;
        image_quality = pos 0;
      })
unfolding parse_and_validate_params str_eq
compress_format_unchecked f input_ext h = ground (arith, kept (normalize_ext (trim_space f)) h)
  where
    kept : (g : Str) → g ≢ [] → or_else g input_ext ≡ g
    kept [] h = absurd (h refl)
    kept (c ∷ g) h = refl
