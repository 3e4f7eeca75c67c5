-- ===== src/Worker/Orphan.antt =====
-- A delete that comes while a worker runs the processor of the job.
use ilove_convertion.Base.{
  ℕ, ◌<◌, ◌≡◌, refl, ◌∙◌, inl, inr, true, false, none, some, List, [], ◌∷◌, Str, str_eq, Bool-cases,
  All, length, arith,
}
use ilove_convertion.Models.{Job, JobParams, output_name}
use ilove_convertion.Crypto.{Bytes, IsAead, nonce_size}
use ilove_convertion.Crypto.RoundTrip.{file, file_length}
use ilove_convertion.Database.{
  Call, answered, refused, lost, find_job, modify_job, perform, update_job_completed,
}
use ilove_convertion.Database.Rows.{find_job-modify_job_self}
use ilove_convertion.Storage.{read_file, read_file-write_file_self}
use ilove_convertion.World.{World, Platform}
use ilove_convertion.Api.Delete.{handle_delete_job, run_cleanup}
use ilove_convertion.Api.Delete.Files.{handle_delete_job_answered, run_cleanup_keeps}
use ilove_convertion.Database.Rows.{find_job-remove_job_self}
use ilove_convertion.Worker.{
  WorkerConfig, Dispatch, processed, JobEvents, after_dispatch, after_encrypt_file,
}
use ilove_convertion.Worker.Outcomes.{IsSmoothFile, encrypt_file_lem, done}

-- No row has a key that is not found.
not_found :
    (k : Str) (now : ℕ) (js : List Job)
    → find_job k js ≡ none
    → All (λ j. j.expires_at < now → str_eq k j.id ≡ false) js
unfolding find_job
not_found k now [] h = tt
not_found k now (j ∷ js) h = elim (Bool-cases (str_eq k j.id)) [
  | inl t ↦ absurd (ground (arith, t))
  | inr f ↦ ((λ e. f), not_found k now js (rw f at h))
]

module _ (p : Platform) (cfg : WorkerConfig) (dispatch : Dispatch) where
  -- The row stays away when it is completed.
  completed_away :
      (c : Call) (now : ℕ) (id name : Str) (size : ℕ) (js : List Job)
      → p.canon id ≡ id
      → find_job id js ≡ none
      → find_job id (update_job_completed p.canon c now id name size js).0 ≡ none
  unfolding update_job_completed
  completed_away c now id name size js canon h = rw canon (by c)
    where
      by : (c : Call) → find_job id (perform c js (modify_job id (done now name size) js)).0 ≡ none
      by answered = rw (find_job-modify_job_self id (done now name size) js (λ i. refl), h)
      by refused = h
      by lost = rw (find_job-modify_job_self id (done now name size) js (λ i. refl), h)

  -- A job is deleted, by its id as the database writes it, while its processor runs; the processor
  -- then succeeds and the output is encrypted with no failure: the row is gone, and the output file
  -- is in the store, where a later cleanup leaves it too.
  pub deleted_job_leaves_output :
      (ev : JobEvents) (id : Str) (w : World) (j : Job) (params : JobParams) (key nonce : Bytes)
      (b : ℕ) (out : Bytes)
      → IsAead p.aead
      → p.is_uuid id ≡ true
      → p.canon id ≡ id
      → find_job id w.jobs ≡ some j
      → p.aead.new_cipher key ≡ true
      → length nonce ≡ nonce_size
      → ev.random ≡ some nonce
      → IsSmoothFile ev.encrypt (file_length (length (b ∷ out)))
      → let w1 = (handle_delete_job p answered id w).0 in
        let w2 = after_dispatch p cfg dispatch ev id j params key w1 (processed (some (b ∷ out))) in
        (find_job id w2.jobs ≡ none)
        × (read_file id w2.store.outputs ≡ some (file p.aead key nonce (b ∷ out)))
        × (read_file id (run_cleanup answered answered w2).store.outputs
            ≡ some (file p.aead key nonce (b ∷ out)))
  deleted_job_leaves_output ev id w j params key nonce b out law uuid canon found ok l random
        smooth =
      let w1 : World = (handle_delete_job p answered id w).0 in
      let w2 : World =
        after_dispatch p cfg dispatch ev id j params key w1 (processed (some (b ∷ out))) in
      let row : find_job id w1.jobs ≡ none =
        rw (handle_delete_job_answered p id w j uuid (rw canon found), canon)
          (find_job-remove_job_self id w.jobs) in
      let there = stored w1 in
      let gone = away w1 row in
      let kept = run_cleanup_keeps answered w2 id (not_found id w2.now w2.jobs gone) in
      (gone, there, kept.1 ∙ there)
    where
      stored :
          (v : World)
          → read_file id
              (after_dispatch p cfg dispatch ev id j params key v
                (processed (some (b ∷ out)))).store.outputs
            ≡ some (file p.aead key nonce (b ∷ out))
      stored v =
          unfold after_dispatch after_encrypt_file in
          simp (
            random,
            encrypt_file_lem p law key nonce ok l ev.encrypt (b ∷ out) _ smooth,
            read_file-write_file_self id (file p.aead key nonce (b ∷ out)) v.store.outputs,
          )

      away :
          (v : World)
          → find_job id v.jobs ≡ none
          → find_job id
              (after_dispatch p cfg dispatch ev id j params key v (processed (some (b ∷ out)))).jobs
            ≡ none
      away v h =
          unfold after_dispatch after_encrypt_file in
          simp (
            random,
            encrypt_file_lem p law key nonce ok l ev.encrypt (b ∷ out) _ smooth,
            completed_away ev.complete v.now id (output_name j.original_name params.output_format)
                (length (b ∷ out)) v.jobs canon h,
          )
