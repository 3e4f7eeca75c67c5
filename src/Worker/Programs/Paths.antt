-- ===== src/Worker/Programs/Paths.antt =====
-- Where the files of a job's temporary directory are.
use ilove_convertion.Base.{
  ℕ, ◌≡◌, ◌≢◌, refl, sym, ap, ◌∙◌, ◌⊎◌, Bool, true, ◌&&◌, List, [], ◌∷◌, ◌++◌, Str, codes, str_eq,
  str_eq→≡, lower, to_lower, trim_dot, ext, ext_loop, ◌==◌, All, append_assoc, Bool-cases, inl, inr,
  arith,
}
use ilove_convertion.Base.Path.{absolute, IsElement, NoSlash, no_slash, no_slash→NoSlash, join_path}
use ilove_convertion.Base.Path.Clean.{join_path-element}
use ilove_convertion.Models.{
  Operation, image_convert, image_compress, image_remove_bg, pdf_compress, audio_convert,
  audio_compress, video_compress, Job, no_formats, contains, input_formats, valid_input_format,
  output_formats, valid_output_format, input_ext,
}
use ilove_convertion.Worker.{or_bin, or_input}
use ilove_convertion.Worker.Programs.{job_dir, tmp_input, tmp_output}

-- A file name that begins with "input." or "output." is an element of a path.
named-IsElement : (c d : ℕ) (s : Str) → c ≢ b'.' → NoSlash (c ∷ d ∷ s) → IsElement (c ∷ d ∷ s)
named-IsElement c d s h slash = record {
  no_slash = slash;
  named = λ e. cc;
  not_dot = λ e. h (cc);
  not_up = λ e. h (cc);
}

no_slash-to_lower : (s : Str) → no_slash (to_lower s) ≡ no_slash s
unfolding no_slash to_lower lower
no_slash-to_lower [] = refl
no_slash-to_lower (c ∷ s) = ground (arith, no_slash-to_lower s)

no_slash-trim_dot : (s : Str) → no_slash (trim_dot s) ≡ no_slash s
unfolding no_slash trim_dot
no_slash-trim_dot [] = refl
no_slash-trim_dot (c ∷ s) = ground arith

-- An extension found so far may hold a slash only if one is still to come, which discards it.
no_slash-ext_loop :
    (s best : Str) → (no_slash s ≡ true → no_slash best ≡ true) → no_slash (ext_loop s best) ≡ true
unfolding no_slash ext_loop
no_slash-ext_loop [] best h = h refl
no_slash-ext_loop (c ∷ s) best h = elim (Bool-cases (c == b'.')) [
  | inl t ↦ rw t (no_slash-ext_loop s (c ∷ s) (λ k. ground arith))
  | inr f ↦ elim (Bool-cases (c == b'/')) [
    | inl u ↦ rw (f, u) (no_slash-ext_loop s [] (λ k. refl))
    | inr v ↦ rw (f, v) (no_slash-ext_loop s best (λ k. h (rw (v, k) refl)))
  ]
]

no_slash-input_ext : (j : Job) → no_slash (or_bin (input_ext j)) ≡ true
unfolding input_ext ext no_slash
no_slash-input_ext j = by (trim_dot (to_lower (ext j.original_name))) found
  where
    found : no_slash (trim_dot (to_lower (ext j.original_name))) ≡ true
    found =
        rw
          (
            no_slash-trim_dot (to_lower (ext j.original_name)),
            no_slash-to_lower (ext j.original_name),
          )
          (no_slash-ext_loop j.original_name [] (λ k. refl))

    by : (s : Str) → no_slash s ≡ true → no_slash (or_bin s) ≡ true
    by [] h = refl
    by (c ∷ s) h = h

pub output-IsElement : IsElement (codes "output.")
unfolding no_slash
output-IsElement =
    named-IsElement b'o' b'u' (codes "tput.") (cc) (no_slash→NoSlash (codes "output.") refl)

each_no_slash : List Str → Bool
unfolding no_slash
each_no_slash [] = true
each_no_slash (f ∷ fs) = no_slash f && each_no_slash fs

no_slash-contains :
    (fs : List Str) (f : Str) → each_no_slash fs ≡ true → contains fs f ≡ true → no_slash f ≡ true
unfolding contains each_no_slash
no_slash-contains [] f h e = absurd (cc)
no_slash-contains (g ∷ fs) f h e = elim (Bool-cases (str_eq g f)) [
  | inl t ↦ rw (← str_eq→≡ g f t) (ground arith)
  | inr n ↦ no_slash-contains fs f (ground arith) (rw n at e)
]

each-input_formats : (op : Operation) → each_no_slash (input_formats op) ≡ true
unfolding each_no_slash
each-input_formats image_convert = refl
each-input_formats image_compress = refl
each-input_formats image_remove_bg = refl
each-input_formats pdf_compress = refl
each-input_formats audio_convert = refl
each-input_formats audio_compress = refl
each-input_formats video_compress = refl

each-output_formats : (op : Operation) → each_no_slash (output_formats op) ≡ true
unfolding each_no_slash
each-output_formats image_convert = refl
each-output_formats image_compress = refl
each-output_formats image_remove_bg = refl
each-output_formats pdf_compress = refl
each-output_formats audio_convert = refl
each-output_formats audio_compress = refl
each-output_formats video_compress = refl

-- A format that ValidOutputFormat admits has no slash.
no_slash-valid_output_format :
    (op : Operation) (f : Str) → valid_output_format op f ≡ true → no_slash f ≡ true
unfolding valid_output_format valid_input_format
no_slash-valid_output_format op f h =
    sym (folded f) ∙ elim (Bool-cases (no_formats (output_formats op))) [
      | inl t ↦
          sym (folded (trim_dot (to_lower f)))
          ∙ no_slash-contains (input_formats op) _ (each-input_formats op) (rw t at h)
      | inr n ↦ no_slash-contains (output_formats op) _ (each-output_formats op) (rw n at h)
    ]
  where
    folded : (s : Str) → no_slash (trim_dot (to_lower s)) ≡ no_slash s
    folded s = no_slash-trim_dot (to_lower s) ∙ no_slash-to_lower s

module _ (root : List Str) (id : Str) (below : All IsElement root) (named : IsElement id) where
  -- The directory of the job, and a file in it.
  abbrev pub job_parts : List Str
  job_parts = root ++ id ∷ []

  pub job_dir_lem : job_dir (absolute root) id ≡ absolute job_parts
  unfolding job_dir
  job_dir_lem = join_path-element root id below named

  pub job_parts-elements : All IsElement job_parts
  job_parts-elements = by root below
    where
      by : (ps : List Str) → All IsElement ps → All IsElement (ps ++ id ∷ [])
      by [] h = (named, tt)
      by (p ∷ ps) (h, hs) = (h, by ps hs)

  in_job_dir :
      (c d : ℕ) (s : Str)
      → c ≢ b'.'
      → no_slash (c ∷ d ∷ s) ≡ true
      → join_path (job_dir (absolute root) id) (c ∷ d ∷ s)
        ≡ absolute (job_parts ++ (c ∷ d ∷ s) ∷ [])
  in_job_dir c d s h n = rw job_dir_lem (
      join_path-element job_parts (c ∷ d ∷ s) job_parts-elements
        (named-IsElement c d s h (no_slash→NoSlash (c ∷ d ∷ s) n)))

  -- A worker keeps the temporary files of a job in the job's own directory: the paths of its input
  -- and of its output, cleaned as Go does, are the directory and one more element, where the output
  -- format is empty or one that the operation admits, whatever the name of the upload is.
  pub tmp_files_confined :
      (j : Job) (f : Str)
      → (f ≡ []) ⊎ (valid_output_format j.operation f ≡ true)
      → let dir = job_dir (absolute root) id in
        let in_ext = or_bin (input_ext j) in
        let out_ext = or_input f in_ext in
        (tmp_input dir in_ext ≡ absolute (root ++ id ∷ (codes "input." ++ in_ext) ∷ []))
        × (tmp_output dir out_ext ≡ absolute (root ++ id ∷ (codes "output." ++ out_ext) ∷ []))
  unfolding tmp_input tmp_output
  tmp_files_confined j f h = (
    below_job (b'i' ∷ b'n' ∷ codes "put." ++ in_ext)
        (in_job_dir b'i' b'n' (codes "put." ++ in_ext) (cc) slashes_in),
    below_job (b'o' ∷ b'u' ∷ codes "tput." ++ out_ext)
        (in_job_dir b'o' b'u' (codes "tput." ++ out_ext) (cc) slashes_out),
  )
    where
      in_ext : Str
      in_ext = or_bin (input_ext j)

      out_ext : Str
      out_ext = or_input f in_ext

      slashes_in : no_slash (codes "input." ++ in_ext) ≡ true
      slashes_in = unfold no_slash in no_slash-input_ext j

      out_of :
          (f : Str)
          → (f ≡ []) ⊎ (valid_output_format j.operation f ≡ true)
          → no_slash (or_input f in_ext) ≡ true
      out_of [] h = no_slash-input_ext j
      out_of (c ∷ f) (inl e) = absurd (cc)
      out_of (c ∷ f) (inr e) = no_slash-valid_output_format j.operation (c ∷ f) e

      slashes_out : no_slash (codes "output." ++ out_ext) ≡ true
      slashes_out = unfold no_slash in out_of f h

      below_job :
          (s : Str)
          → join_path (job_dir (absolute root) id) s ≡ absolute (job_parts ++ s ∷ [])
          → join_path (job_dir (absolute root) id) s ≡ absolute (root ++ id ∷ s ∷ [])
      below_job s e = e ∙ ap absolute (append_assoc root (id ∷ []) (s ∷ []))
