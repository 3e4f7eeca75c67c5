-- ===== src/Storage.antt =====
-- internal/storage/storage.go: the two directories of encrypted files, by the job id that names a
-- file in each. A path is the directory and the id.
pub mod Paths
use ilove_convertion.Base.{
  ◌≡◌, refl, Bool, true, false, Option, none, some, List, [], ◌∷◌, Str, str_eq, str_eq→≡,
  str_eq_refl, if◌then◌else◌, arith, Bool-cases, inl, inr,
}
use ilove_convertion.Crypto.{Bytes}

abbrev pub Files : Type 0
Files = List (Str × Bytes)

unfoldable pub read_file : Str → Files → Option Bytes
read_file k [] = none
read_file k ((j, b) ∷ fs) = if str_eq k j then some b else read_file k fs

unfoldable pub remove_file : Str → Files → Files
remove_file k [] = []
remove_file k ((j, b) ∷ fs) =
    let rest = remove_file k fs in if str_eq k j then rest else (j, b) ∷ rest

-- A file opened with O_CREATE and O_TRUNC, and what was written to it.
unfoldable pub write_file : Str → Bytes → Files → Files
write_file k b fs = (k, b) ∷ remove_file k fs

pub record Storage : Type 0 where
  pub inputs : Files
  pub outputs : Files

unfoldable pub exists : Option Bytes → Bool
exists none = false
exists (some _) = true

-- os.Remove of both files. Its errors are ignored in the code; here it is taken to succeed, or to find
-- no file.
unfoldable pub delete_job_files : Str → Storage → Storage
delete_job_files job_id s = record s {
  inputs = remove_file job_id s.inputs;
  outputs = remove_file job_id s.outputs;
}

unfoldable pub output_exists : Str → Storage → Bool
unfolding exists
output_exists job_id s = exists (read_file job_id s.outputs)

unfoldable pub input_exists : Str → Storage → Bool
unfolding exists
input_exists job_id s = exists (read_file job_id s.inputs)

pub read_file-remove_file_self : (k : Str) (fs : Files) → read_file k (remove_file k fs) ≡ none
unfolding read_file remove_file
read_file-remove_file_self k [] = refl
read_file-remove_file_self k ((j, b) ∷ fs) = ground (arith, read_file-remove_file_self k fs)

pub read_file-write_file_self :
    (k : Str) (b : Bytes) (fs : Files) → read_file k (write_file k b fs) ≡ some b
unfolding read_file write_file
read_file-write_file_self k b fs = rw str_eq_refl

pub read_file-remove_file_ne :
    (k l : Str) (fs : Files) → str_eq k l ≡ false → read_file k (remove_file l fs) ≡ read_file k fs
unfolding read_file remove_file
read_file-remove_file_ne k l [] h = refl
read_file-remove_file_ne k l ((j, b) ∷ fs) h = elim (Bool-cases (str_eq l j)) [
  | inl t ↦ rw (t, ← str_eq→≡ l j t, h) (read_file-remove_file_ne k l fs h)
  | inr f ↦ rw f (ground (arith, read_file-remove_file_ne k l fs h))
]

pub read_file-write_file_ne :
    (k l : Str) (b : Bytes) (fs : Files)
    → str_eq k l ≡ false
    → read_file k (write_file l b fs) ≡ read_file k fs
unfolding write_file read_file
read_file-write_file_ne k l b fs h = rw h (read_file-remove_file_ne k l fs h)
