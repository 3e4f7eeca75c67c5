-- ===== src/Api/Delete/Files.antt =====
-- Which rows and files handleDeleteJob and runCleanup take away.
use ilove_convertion.Base.{
  ℕ, ◌≤◌, ◌<◌, ◌≡◌, refl, ◌∙◌, inl, inr, true, false, none, some, List, [], ◌∷◌, ◌++◌, Str, str_eq,
  str_eq→≡, Bool-cases, ltb, All, arith,
}
use ilove_convertion.Models.{Job}
use ilove_convertion.Database.{
  Call, answered, find_job, remove_job, delete_job, split_expired, cleanup_expired_jobs,
}
use ilove_convertion.Database.Rows.{find_job-remove_job_self, find_job-remove_job_ne}
use ilove_convertion.Storage.{
  Storage, read_file, delete_job_files, read_file-remove_file_self, read_file-remove_file_ne,
}
use ilove_convertion.World.{World, Platform}
use ilove_convertion.Api.{deleted_body}
use ilove_convertion.Api.Delete.{handle_delete_job, delete_all_files, run_cleanup}

-- The files of a key are gone, or as before.
abbrev pub NoFiles : Str → Storage → Type 0
NoFiles k s = (read_file k s.inputs ≡ none) × (read_file k s.outputs ≡ none)

abbrev pub SameFiles : Str → Storage → Storage → Type 0
SameFiles k s s' =
    (read_file k s'.inputs ≡ read_file k s.inputs)
    × (read_file k s'.outputs ≡ read_file k s.outputs)

delete_job_files_gone : (k : Str) (s : Storage) → NoFiles k (delete_job_files k s)
unfolding delete_job_files
delete_job_files_gone k s =
    (read_file-remove_file_self k s.inputs, read_file-remove_file_self k s.outputs)

pub delete_job_files_other :
    (k l : Str) (s : Storage) → str_eq k l ≡ false → SameFiles k s (delete_job_files l s)
unfolding delete_job_files
delete_job_files_other k l s h =
    (read_file-remove_file_ne k l s.inputs h, read_file-remove_file_ne k l s.outputs h)

module _ (p : Platform) where
  pub handle_delete_job_answered :
      (job_id : Str) (w : World) (j : Job)
      → p.is_uuid job_id ≡ true
      → find_job (p.canon job_id) w.jobs ≡ some j
      → handle_delete_job p answered job_id w ≡ (
        record w {
          jobs = remove_job (p.canon job_id) w.jobs;
          store = delete_job_files job_id w.store;
        },
        record { code = 200; body = deleted_body job_id },
      )
  unfolding handle_delete_job delete_job
  handle_delete_job_answered job_id w j uuid found = rw (uuid, found)

  -- A delete by the id as the database writes it, of a job that is there, with the call of the
  -- database answered: the answer is 200, the row and both files of the job are gone, and the row
  -- and the files of each other id are as before.
  pub handle_delete_job_removes :
      (job_id k : Str) (w : World) (j : Job)
      → p.is_uuid job_id ≡ true
      → p.canon job_id ≡ job_id
      → find_job job_id w.jobs ≡ some j
      → str_eq k job_id ≡ false
      → let (w', r) = handle_delete_job p answered job_id w in
        (r.code ≡ 200)
        × (find_job job_id w'.jobs ≡ none)
        × NoFiles job_id w'.store
        × (find_job k w'.jobs ≡ find_job k w.jobs)
        × SameFiles k w.store w'.store
  handle_delete_job_removes job_id k w j uuid canon found h =
      rw (handle_delete_job_answered job_id w j uuid (rw canon found), canon)
        (
          refl,
          find_job-remove_job_self job_id w.jobs,
          delete_job_files_gone job_id w.store,
          find_job-remove_job_ne k job_id w.jobs h,
          delete_job_files_other k job_id w.store h,
        )

  -- A delete by a spelling of the id that differs from the database's, of a job that is there,
  -- with the call of the database answered: the answer is 200 and the row is gone, while the files
  -- of the id as the database writes it stay as they are.
  pub handle_delete_job_leaves_files :
      (job_id : Str) (w : World) (j : Job)
      → p.is_uuid job_id ≡ true
      → str_eq (p.canon job_id) job_id ≡ false
      → find_job (p.canon job_id) w.jobs ≡ some j
      → let (w', r) = handle_delete_job p answered job_id w in
        (r.code ≡ 200)
        × (find_job (p.canon job_id) w'.jobs ≡ none)
        × SameFiles (p.canon job_id) w.store w'.store
  handle_delete_job_leaves_files job_id w j uuid other found =
      rw (handle_delete_job_answered job_id w j uuid found) (
        refl,
        find_job-remove_job_self (p.canon job_id) w.jobs,
        delete_job_files_other (p.canon job_id) job_id w.store other,
      )

abbrev IsLive : ℕ → Job → Type 0
IsLive now j = now ≤ j.expires_at

split_expired-IsLive : (now : ℕ) (js : List Job) → All (IsLive now) (split_expired now js).0
unfolding split_expired
split_expired-IsLive now [] = tt
split_expired-IsLive now (j ∷ js) = elim (Bool-cases (ltb j.expires_at now)) [
  | inl t ↦ rw t (split_expired-IsLive now js)
  | inr f ↦ rw f (ground arith, split_expired-IsLive now js)
]

delete_all_keeps_gone :
    (k : Str) (ids : List Str) (s : Storage) → NoFiles k s → NoFiles k (delete_all_files ids s)
unfolding delete_all_files
delete_all_keeps_gone k [] s h = h
delete_all_keeps_gone k (i ∷ ids) s h = elim (Bool-cases (str_eq k i)) [
  | inl t ↦
      delete_all_keeps_gone k ids (delete_job_files i s)
        (rw (str_eq→≡ k i t) (delete_job_files_gone i s))
  | inr f ↦
      let same = delete_job_files_other k i s f in
      delete_all_keeps_gone k ids (delete_job_files i s) (same.0 ∙ h.0, same.1 ∙ h.1)
]

pub keeps_other_files :
    (k : Str) (ids : List Str) (s : Storage)
    → All (λ i. str_eq k i ≡ false) ids
    → SameFiles k s (delete_all_files ids s)
unfolding delete_all_files
keeps_other_files k [] s h = (refl, refl)
keeps_other_files k (i ∷ ids) s (h, hs) =
    let same = delete_job_files_other k i s h in
    let rest = keeps_other_files k ids (delete_job_files i s) hs in
    (rest.0 ∙ same.0, rest.1 ∙ same.1)

-- The files of the ids in a list are gone once all are deleted.
removes_listed_files :
    (ids : List Str) (s : Storage) → All (λ i. NoFiles i (delete_all_files ids s)) ids
unfolding delete_all_files
removes_listed_files [] s = tt
removes_listed_files (i ∷ ids) s = (
  delete_all_keeps_gone i ids (delete_job_files i s) (delete_job_files_gone i s),
  removes_listed_files ids (delete_job_files i s),
)

-- From the ids that a DELETE gives to the rows that were expired.
expired_rows :
    (P : Str → Type 0) (now : ℕ) (js : List Job)
    → All P (split_expired now js).1
    → All (λ j. j.expires_at < now → P j.id) js
unfolding split_expired
expired_rows P now [] h = tt
expired_rows P now (j ∷ js) h = elim (Bool-cases (ltb j.expires_at now)) [
  | inl t ↦ let h' = rw t at h in ((λ e. h'.0), expired_rows P now js h'.1)
  | inr f ↦ let h' = rw f at h in ((λ e. absurd (ground arith)), expired_rows P now js h')
]

expired_ids :
    (P : Str → Type 0) (now : ℕ) (js : List Job)
    → All (λ j. j.expires_at < now → P j.id) js
    → All P (split_expired now js).1
unfolding split_expired
expired_ids P now [] h = tt
expired_ids P now (j ∷ js) (h, hs) = elim (Bool-cases (ltb j.expires_at now)) [
  | inl t ↦ rw t (h (ground arith), expired_ids P now js hs)
  | inr f ↦ rw f (expired_ids P now js hs)
]

All-middle :
    {A : Type 0} (P : A → Type 0) (xs : List A) (x : A) (ys : List A) → All P (xs ++ x ∷ ys) → P x
All-middle P [] x ys (h, _) = h
All-middle P (y ∷ xs) x ys (_, h) = All-middle P xs x ys h

All-at :
    {A : Type 0} (P : A → Type 0) (l xs : List A) (x : A) (ys : List A)
    → l ≡ xs ++ x ∷ ys
    → All P l
    → P x
All-at P l xs x ys e h = All-middle P xs x ys (rw e at h)

-- After a cleanup whose DELETE is answered no row is left that had expired, and a row that had
-- expired, wherever it stood in the table, has no file.
pub run_cleanup_removes :
    (c : Call) (w : World) (before after : List Job) (j : Job)
    → w.jobs ≡ before ++ j ∷ after
    → j.expires_at < w.now
    → let w' = run_cleanup answered c w in
      All (λ i. w.now ≤ i.expires_at) w'.jobs × NoFiles j.id w'.store
unfolding run_cleanup cleanup_expired_jobs
run_cleanup_removes c w before after j e old =
    let ids = (split_expired w.now w.jobs).1 in
    let gone : All (λ i. i.expires_at < w.now → NoFiles i.id (delete_all_files ids w.store))
        w.jobs =
      expired_rows (λ i. NoFiles i (delete_all_files ids w.store)) w.now w.jobs
        (removes_listed_files ids w.store) in
    (
      split_expired-IsLive w.now w.jobs,
      All-at (λ i. i.expires_at < w.now → NoFiles i.id (delete_all_files ids w.store)) w.jobs before
          j after e gone old,
    )

-- A cleanup whose DELETE is answered leaves the files of a key as they are if no expired row has
-- the key.
pub run_cleanup_keeps :
    (c : Call) (w : World) (k : Str)
    → All (λ j. j.expires_at < w.now → str_eq k j.id ≡ false) w.jobs
    → SameFiles k w.store (run_cleanup answered c w).store
unfolding run_cleanup cleanup_expired_jobs
run_cleanup_keeps c w k h =
    keeps_other_files k (split_expired w.now w.jobs).1 w.store
      (expired_ids (λ i. str_eq k i ≡ false) w.now w.jobs h)
