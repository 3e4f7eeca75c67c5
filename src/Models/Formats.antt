-- ===== src/Models/Formats.antt =====
-- Names of operations, extensions of output names, and the types that the extensions stand for.
use ilove_convertion.Base.{
  ◌-◌, ◌≡◌, ◌≢◌, refl, ◌↔◌, Bool, true, false, ◌&&◌, some, List, [], ◌∷◌, ◌++◌, Str, str_eq,
  str_eq→≡, str_eq_refl, to_lower, trim_dot, ext, ext_loop, if◌then◌else◌, length, All,
  append_assoc, length-append, take-append_left, drop-append_left, arith, Bool-cases, inl, inr,
  le→leb,
}
use ilove_convertion.Models.{
  Operation, image_convert, image_compress, image_remove_bg, pdf_compress, audio_convert,
  audio_compress, video_compress, operation_name, valid_operation, find_operation, contains,
  output_formats, valid_output_format, valid_input_format, no_formats, mime_for_extension,
  find_mime, mime_types, octet_stream, trim_suffix, output_name, all_operations,
}

-- The name of an operation is read as that operation.
valid_operation-name : (op : Operation) → valid_operation (operation_name op) ≡ some op
unfolding valid_operation
valid_operation-name image_convert = refl
valid_operation-name image_compress = refl
valid_operation-name image_remove_bg = refl
valid_operation-name pdf_compress = refl
valid_operation-name audio_convert = refl
valid_operation-name audio_compress = refl
valid_operation-name video_compress = refl

find_operation_sound :
    (ops : List Operation) (s : Str) (op : Operation)
    → find_operation ops s ≡ some op
    → operation_name op ≡ s
unfolding find_operation
find_operation_sound [] s op e = cc
find_operation_sound (o ∷ ops) s op e = elim (Bool-cases (str_eq (operation_name o) s)) [
  | inl t ↦
      let same : some o ≡ some op = rw t at e in
      let named = str_eq→≡ (operation_name o) s t in rw (← some_inj same) named
  | inr f ↦ find_operation_sound ops s op (rw f at e)
]
  where
    some_inj : {a b : Operation} → some a ≡ some b → a ≡ b
    some_inj e = cc

-- A text is a valid operation exactly when it is the name of one, which is then the result.
pub valid_operation_iff :
    (s : Str) (op : Operation) → (valid_operation s ≡ some op) ↔ (operation_name op ≡ s)
valid_operation_iff s op = (sound, λ e. rw (← e) (valid_operation-name op))
  where
    sound : valid_operation s ≡ some op → operation_name op ≡ s
    sound e = unfold valid_operation in find_operation_sound all_operations s op e

-- A text with no dot and no slash.
abbrev pub IsPlain : Str → Type 0
IsPlain = All (λ c. (c ≢ b'.') × (c ≢ b'/'))

ext_loop-IsPlain : (s best : Str) → IsPlain s → ext_loop s best ≡ best
unfolding ext_loop
ext_loop-IsPlain [] best h = refl
ext_loop-IsPlain (c ∷ s) best (h, hs) = ground (arith, ext_loop-IsPlain s best hs)

ext_loop-append : (x y best : Str) → IsPlain y → ext_loop (x ++ b'.' ∷ y) best ≡ b'.' ∷ y
unfolding ext_loop
ext_loop-append [] y best h = ext_loop-IsPlain y (b'.' ∷ y) h
ext_loop-append (c ∷ x) y best h = ext_loop-append x y _ h

pub ext-append : (x y : Str) → IsPlain y → ext (x ++ b'.' ∷ y) ≡ b'.' ∷ y
unfolding ext
ext-append x y h = ext_loop-append x y [] h

-- Where a job names an output format with no dot and no slash, the output's name has that format,
-- in lower case, for its extension, whatever the name of the upload is.
pub ext-output_name :
    (name format : Str)
    → format ≢ []
    → IsPlain (to_lower format)
    → ext (output_name name format) ≡ b'.' ∷ to_lower format
unfolding output_name
ext-output_name name [] h p = absurd (h refl)
ext-output_name name (c ∷ s) h p =
    rw append_assoc (ext-append (trim_suffix name (ext name)) (to_lower (c ∷ s)) p)

trim_suffix-append : (x y : Str) → trim_suffix (x ++ y) y ≡ x
unfolding trim_suffix
trim_suffix-append x y =
    let l = length-append {0} x y in
    let n : length (x ++ y) - length y ≡ length x = omega arith in
    rw (
      n,
      le→leb (length y) (length (x ++ y)) (omega arith),
      drop-append_left (length x) x y refl,
      str_eq_refl,
      take-append_left (length x) x y refl,
    )

-- Where a job names an output format and the upload's name ends in a dot and a text with no dot
-- and no slash, the output's name is the upload's with the new format, in lower case, in place of
-- that text.
pub output_name-append :
    (stem old format : Str)
    → IsPlain old
    → format ≢ []
    → output_name (stem ++ b'.' ∷ old) format ≡ stem ++ b'.' ∷ to_lower format
unfolding output_name
output_name-append stem old [] p h = absurd (h refl)
output_name-append stem old (c ∷ s) p h =
    rw (ext-append stem old p, trim_suffix-append stem (b'.' ∷ old), append_assoc)

known : Str → Bool
unfolding find_mime str_eq
known f = if str_eq (find_mime mime_types f) octet_stream then false else true

all_known : List Str → Bool
all_known [] = true
all_known (f ∷ fs) = known f && all_known fs

all_known-contains :
    (fs : List Str) (e : Str) → all_known fs ≡ true → contains fs e ≡ true → known e ≡ true
unfolding all_known contains
all_known-contains [] e h c = cc
all_known-contains (f ∷ fs) e h c = elim (Bool-cases (str_eq f e)) [
  | inl t ↦ rw (← str_eq→≡ f e t) (both h).0
  | inr n ↦ all_known-contains fs e (both h).1 (rw n at c)
]
  where
    both : {a b : Bool} → (a && b) ≡ true → (a ≡ true) × (b ≡ true)
    both {a} {b} e = ground arith

outputs_known : (op : Operation) → all_known (output_formats op) ≡ true
unfolding all_known known
outputs_known image_convert = refl
outputs_known image_compress = refl
outputs_known image_remove_bg = refl
outputs_known pdf_compress = refl
outputs_known audio_convert = refl
outputs_known audio_compress = refl
outputs_known video_compress = refl

known_sound : (e : Str) → known e ≡ true → find_mime mime_types e ≢ octet_stream
unfolding known
known_sound e h q = elim (Bool-cases (str_eq (find_mime mime_types e) octet_stream)) [
  | inl t ↦ cc (rw t at h)
  | inr f ↦ cc (rw (q, str_eq_refl octet_stream) at f)
]

-- An output format that an operation with a list of output formats admits has a MIME type: a
-- download of it is not sent as `application/octet-stream`.
pub mime_of_output_format :
    (op : Operation) (f : Str)
    → output_formats op ≢ []
    → valid_output_format op f ≡ true
    → mime_for_extension f ≢ octet_stream
unfolding mime_for_extension valid_output_format
mime_of_output_format op f h v = known_sound (trim_dot (to_lower f)) (
    all_known-contains (output_formats op) (trim_dot (to_lower f)) (outputs_known op)
      (listed (output_formats op) h v))
  where
    listed :
        (fs : List Str)
        → fs ≢ []
        → (if no_formats fs
            then valid_input_format op (trim_dot (to_lower f))
            else contains fs (trim_dot (to_lower f)))
          ≡ true
        → contains fs (trim_dot (to_lower f)) ≡ true
    listed [] h v = absurd (h refl)
    listed (g ∷ gs) h v = unfold no_formats in v
