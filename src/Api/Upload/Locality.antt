-- ===== src/Api/Upload/Locality.antt =====
-- An upload changes the row, the files and the queue entry of its own id only.
use ilove_convertion.Base.{
  ◌+◌, ◌≤◌, ◌≡◌, refl, sym, ap, ◌∙◌, ◌⊎◌, inl, inr, false, Option, none, some, ◌∷◌, Str, str_eq,
  count, if◌then◌else◌, Bool-cases, arith,
}
use ilove_convertion.Models.{pending, Job, Session}
use ilove_convertion.Crypto.{Bytes, CryptoError, Sink}
use ilove_convertion.Database.{
  Call, answered, refused, lost, perform, create_job, find_job, remove_job, delete_job, insert_row,
}
use ilove_convertion.Database.Rows.{find_job-remove_job_self, find_job-remove_job_ne, find_job_new}
use ilove_convertion.Database.Counts.{ids, count-remove_job}
use ilove_convertion.Queue.{enqueue}
use ilove_convertion.Storage.{read_file, write_file, delete_job_files, read_file-remove_file_ne}
use ilove_convertion.World.{World, Platform, ApiConfig}
use ilove_convertion.Api.Upload.{
  UploadRequest, UploadEvents, FileHeader, Checked, accepted, rejected, check_upload,
  handle_create_job, with_session, after_create, store_upload, after_encrypt, queue_job, drop_job,
  drop_job_and_files,
}
use ilove_convertion.Worker.Effects.{IsOpen}

-- The world in the course of an upload under the id `n`, against the world before.
pub record IsUploading (n : Str) (w0 w : World) : Type 0 where
  pub queue_ids : (w.queue ≡ w0.queue) ⊎ (w.queue ≡ n ∷ w0.queue)
  pub rows : (k : Str) → str_eq k n ≡ false → find_job k w.jobs ≡ find_job k w0.jobs
  pub outputs :
      (k : Str) → str_eq k n ≡ false → read_file k w.store.outputs ≡ read_file k w0.store.outputs
  pub open_row : IsOpen n w
  pub counts :
      (k : Str) → count k (ids w.jobs) ≤ count k (ids w0.jobs) + (if str_eq k n then 1 else 0)

module _ (p : Platform) (cfg : ApiConfig) (ev : UploadEvents) (j : Job)
    (canon : p.canon j.id ≡ j.id) (w0 : World) where
  module _ (w : World) (u : IsUploading j.id w0 w) where
    drop_job-IsUploading : IsUploading j.id w0 (drop_job p cfg ev.delete j.id w)
    unfolding drop_job delete_job
    drop_job-IsUploading = rw canon (by ev.delete)
      where
        removed : IsUploading j.id w0 (record w { jobs = remove_job j.id w.jobs })
        removed = record {
          queue_ids = u.queue_ids;
          rows = λ k h. find_job-remove_job_ne k j.id w.jobs h ∙ u.rows k h;
          outputs = u.outputs;
          open_row = λ i e. absurd (cc (e, find_job-remove_job_self j.id w.jobs));
          counts = λ k. omega (arith, count-remove_job k j.id w.jobs, u.counts k);
        }

        by :
            (c : Call)
            → IsUploading j.id w0
                (record w { jobs = (perform c w.jobs (remove_job j.id w.jobs)).0 })
        by answered = removed
        by refused = u
        by lost = removed

  drop_job_and_files-IsUploading :
      (w : World)
      → IsUploading j.id w0 w
      → IsUploading j.id w0 (drop_job_and_files p cfg ev.delete j.id w)
  unfolding drop_job_and_files delete_job_files
  drop_job_and_files-IsUploading w u =
      let d = drop_job-IsUploading w u in
      record {
        queue_ids = d.queue_ids;
        rows = d.rows;
        outputs = λ k h. read_file-remove_file_ne k j.id _ h ∙ d.outputs k h;
        open_row = d.open_row;
        counts = d.counts;
      }

  -- The input file is not looked at.
  with_inputs :
      (w : World) (bs : Bytes)
      → IsUploading j.id w0 w
      → IsUploading j.id w0
          (record w { store = record (w.store) { inputs = write_file j.id bs w.store.inputs } })
  with_inputs w bs u = record {
    queue_ids = u.queue_ids;
    rows = u.rows;
    outputs = u.outputs;
    open_row = u.open_row;
    counts = u.counts;
  }

  pushed :
      (w : World)
      → w.queue ≡ w0.queue
      → IsUploading j.id w0 w
      → IsUploading j.id w0 (record w { queue = j.id ∷ w.queue })
  pushed w q u = record {
    queue_ids = inr (ap (λ l. j.id ∷ l) q);
    rows = u.rows;
    outputs = u.outputs;
    open_row = u.open_row;
    counts = u.counts;
  }

  queue_job-IsUploading :
      (w : World)
      → w.queue ≡ w0.queue
      → IsUploading j.id w0 w
      → IsUploading j.id w0 (queue_job p cfg ev j w).0
  unfolding queue_job enqueue
  queue_job-IsUploading w q u = by ev.push
    where
      by : (c : Call) → IsUploading j.id w0 (queue_job p cfg (record ev { push = c }) j w).0
      by answered = pushed w q u
      by refused = drop_job_and_files-IsUploading w u
      by lost = drop_job_and_files-IsUploading (record w { queue = j.id ∷ w.queue }) (pushed w q u)

  after_encrypt-IsUploading :
      (w : World) (o : Option (Sink × Option CryptoError))
      → w.queue ≡ w0.queue
      → IsUploading j.id w0 w
      → IsUploading j.id w0 (after_encrypt p cfg ev j w o).0
  unfolding after_encrypt
  after_encrypt-IsUploading w none q u = (drop_job_and_files-IsUploading w u)
  after_encrypt-IsUploading w (some (d, some x)) q u =
      (drop_job_and_files-IsUploading _ (with_inputs w d.written u))
  after_encrypt-IsUploading w (some (d, none)) q u = elim (Bool-cases ev.sync) [
    | inl t ↦ rw t (queue_job-IsUploading _ q (with_inputs w d.written u))
    | inr f ↦ rw f (drop_job_and_files-IsUploading _ (with_inputs w d.written u))
  ]

  store_upload-IsUploading :
      (h : FileHeader) (w : World) (key : Option Bytes)
      → w.queue ≡ w0.queue
      → IsUploading j.id w0 w
      → IsUploading j.id w0 (store_upload p cfg ev h j key w).0
  unfolding store_upload
  store_upload-IsUploading h w none q u = (drop_job-IsUploading w u)
  store_upload-IsUploading h w (some key) q u = elim (Bool-cases ev.open_input) [
    | inl t ↦ rw t (after_encrypt-IsUploading w _ q u)
    | inr f ↦ rw f (drop_job-IsUploading w u)
  ]

  module _ (fresh : find_job j.id w0.jobs ≡ none) where
    unchanged : IsUploading j.id w0 w0
    unchanged = record {
      queue_ids = inl refl;
      rows = λ k h. refl;
      outputs = λ k h. refl;
      open_row = λ i e. absurd (cc (e, fresh));
      counts = λ k. omega arith;
    }

    inserted : j.status ≡ pending → IsUploading j.id w0 (record w0 { jobs = j ∷ w0.jobs })
    unfolding find_job
    inserted st = record {
      queue_ids = inl refl;
      rows = λ k h. rw h refl;
      outputs = λ k h. refl;
      open_row = λ i found c. cc (sym (find_job_new j w0.jobs) ∙ found, st, c);
      counts = λ k. omega arith;
    }

    insert_row-IsUploading :
        (h : FileHeader) (c : Call)
        → j.status ≡ pending
        → IsUploading j.id w0 (after_create p cfg ev h w0 (insert_row none c j w0.jobs)).0
    unfolding insert_row after_create
    insert_row-IsUploading h answered st = store_upload-IsUploading h _ _ refl (inserted st)
    insert_row-IsUploading h refused st = unchanged
    insert_row-IsUploading h lost st = inserted st

-- Whatever fails in an upload under a canonical id that no row has, it changes the row, the output
-- and the queue entry of that id only.
module _ (p : Platform) (cfg : ApiConfig) (ev : UploadEvents) (w : World) where
  pub handle_create_job-IsUploading :
      (session : Option Session) (r : UploadRequest)
      → p.canon ev.new_id ≡ ev.new_id
      → find_job ev.new_id w.jobs ≡ none
      → IsUploading ev.new_id w (handle_create_job p cfg ev session r w).0
  unfolding handle_create_job with_session create_job
  handle_create_job-IsUploading session r canon fresh = by session (check_upload cfg r)
    where
      same : IsUploading ev.new_id w w
      same = record {
        queue_ids = inl refl;
        rows = λ k h. refl;
        outputs = λ k h. refl;
        open_row = λ j e. absurd (cc (e, fresh));
        counts = λ k. omega arith;
      }

      by :
          (s : Option Session) (c : Checked)
          → IsUploading ev.new_id w (with_session p cfg ev s c w).0
      by s (rejected x) = same
      by none (accepted op h params) = same
      by (some s) (accepted op h params) =
          rw fresh (insert_row-IsUploading p cfg ev _ canon w fresh h ev.create refl)
