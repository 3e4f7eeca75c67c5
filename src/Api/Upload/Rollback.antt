-- ===== src/Api/Upload/Rollback.antt =====
-- What an upload that is not answered with 201 leaves in the world.
use ilove_convertion.Base.{
  ◌≡◌, ◌≢◌, refl, sym, ap, ◌∙◌, ◌⊎◌, inl, inr, Bool, true, false, if◌then◌else◌, Option, none, some,
  List, [], ◌∷◌, Str, codes, str_eq, arith,
}
use ilove_convertion.Models.{pending, Job, Session}
use ilove_convertion.Crypto.{Bytes, CryptoError, Sink, encrypt_stream}
use ilove_convertion.Database.{
  Call, answered, refused, lost, perform, create_job, find_job, remove_job, delete_job, insert_row,
}
use ilove_convertion.Database.Rows.{remove_job_new}
use ilove_convertion.Queue.{enqueue}
use ilove_convertion.Storage.{
  read_file, write_file, read_file-write_file_self, read_file-write_file_ne, delete_job_files,
  read_file-remove_file_self, read_file-remove_file_ne,
}
use ilove_convertion.World.{World, Platform, ApiConfig}
use ilove_convertion.Api.{Response, failure}
use ilove_convertion.Api.Upload.{
  UploadRequest, UploadEvents, FileHeader, Checked, accepted, rejected, check_upload,
  handle_create_job, with_session, after_create, store_upload, after_encrypt, queue_job, drop_job,
  drop_job_and_files,
}
use ilove_convertion.Api.Upload.Refusals.{IsRefusal, check_upload-IsRefusal}

-- The rows after an upload that failed: those before it, or the new one besides, still pending, if
-- the reply to the INSERT was lost or the DELETE of the roll-back refused.
abbrev pub RowsAfter : UploadEvents → List Job → List Job → Type 0
RowsAfter ev js js' =
    (js' ≡ js)
    ⊎ (((ev.create ≡ lost) ⊎ (ev.delete ≡ refused))
        × ((j : Job) × (j.id ≡ ev.new_id) × (j.status ≡ pending) × (js' ≡ j ∷ js)))

-- The queue after it: as before, or with the id, if the reply to the LPUSH was lost.
abbrev pub QueueAfter : UploadEvents → List Str → List Str → Type 0
QueueAfter ev q q' = (q' ≡ q) ⊎ ((ev.push ≡ lost) × (q' ≡ ev.new_id ∷ q))

record LeavesNothing (ev : UploadEvents) (w w' : World) (id : Str) : Type 0 where
  pub rows_after : RowsAfter ev w.jobs w'.jobs
  pub queue_after : QueueAfter ev w.queue w'.queue
  pub no_input : read_file id w'.store.inputs ≡ none
  pub no_output : read_file id w'.store.outputs ≡ none
  pub inputs_same :
      (k : Str) → str_eq k id ≡ false → read_file k w'.store.inputs ≡ read_file k w.store.inputs
  pub outputs_same :
      (k : Str) → str_eq k id ≡ false → read_file k w'.store.outputs ≡ read_file k w.store.outputs

-- The id is new: no row and no file has it, and it is in the form in which the server gives ids.
pub record IsFresh (p : Platform) (id : Str) (w : World) : Type 0 where
  pub canonical : p.canon id ≡ id
  pub no_row : find_job id w.jobs ≡ none
  pub no_input_file : read_file id w.store.inputs ≡ none
  pub no_output_file : read_file id w.store.outputs ≡ none

-- Success or nothing, for a result of the handler.
abbrev AllOrNothing : UploadEvents → Str → World → World × Response → Type 0
AllOrNothing ev id w (w', r) =
    ((r.code ≡ 201)
      × ((j : Job) × (j.id ≡ id) × (j.status ≡ pending) × (w'.jobs ≡ j ∷ w.jobs))
      × (w'.queue ≡ id ∷ w.queue)
      × ((bs : Bytes) × (read_file id w'.store.inputs ≡ some bs)))
    ⊎ ((r.code ≢ 201) × LeavesNothing ev w w' id)

module _ (p : Platform) (cfg : ApiConfig) (ev : UploadEvents) (w : World) where
  abbrev IsNewRow : Job → Type 0
  IsNewRow j = (j.id ≡ ev.new_id) × (j.status ≡ pending)

  module _ (fresh : IsFresh p ev.new_id w) where
    drops_row :
        (j : Job)
        → IsNewRow j
        → RowsAfter ev w.jobs (delete_job p.canon ev.delete j.id (j ∷ w.jobs)).0
    unfolding delete_job
    drops_row j (e, new) = answers ev.delete refl
      where
        gone : remove_job (p.canon j.id) (j ∷ w.jobs) ≡ w.jobs
        gone =
            rw (ap p.canon e ∙ fresh.canonical ∙ sym e)
              (remove_job_new j w.jobs (rw e fresh.no_row))

        answers :
            (c : Call)
            → ev.delete ≡ c
            → RowsAfter ev w.jobs
                (perform c (j ∷ w.jobs) (remove_job (p.canon j.id) (j ∷ w.jobs))).0
        answers answered h = inl gone
        answers refused h = inr (inr h, (j, e, new, refl))
        answers lost h = inl gone

    -- The row goes; no file was made.
    without_file :
        (j : Job)
        → IsNewRow j
        → LeavesNothing ev w
            (drop_job p cfg ev.delete j.id (record w { jobs = j ∷ w.jobs }))
            ev.new_id
    unfolding drop_job
    without_file j e = record {
      rows_after = drops_row j e;
      queue_after = inl refl;
      no_input = fresh.no_input_file;
      no_output = fresh.no_output_file;
      inputs_same = λ k h. refl;
      outputs_same = λ k h. refl;
    }

    -- The row goes, and so do the files.
    with_file :
        (j : Job) (w' : World)
        → IsNewRow j
        → w'.jobs ≡ j ∷ w.jobs
        → QueueAfter ev w.queue w'.queue
        → w'.store.outputs ≡ w.store.outputs
        → ((k : Str)
            → str_eq k ev.new_id ≡ false
            → read_file k w'.store.inputs ≡ read_file k w.store.inputs)
        → LeavesNothing ev w (drop_job_and_files p cfg ev.delete j.id w') ev.new_id
    unfolding drop_job_and_files drop_job delete_job_files
    with_file j w' e rows queued outs ins = record {
      rows_after = rw rows (drops_row j e);
      queue_after = queued;
      no_input = rw (e.0) (read_file-remove_file_self ev.new_id w'.store.inputs);
      no_output = rw (e.0) (read_file-remove_file_self ev.new_id w'.store.outputs);
      inputs_same =
          λ k h. rw (e.0) (read_file-remove_file_ne k ev.new_id w'.store.inputs h ∙ ins k h);
      outputs_same = λ k h.
          rw (e.0)
            (read_file-remove_file_ne k ev.new_id w'.store.outputs h ∙ ap (read_file k) outs);
    }

    -- The world once the input file is written.
    abbrev written : Job → Bytes → World
    written j bs = record w {
      jobs = j ∷ w.jobs;
      store = record (w.store) { inputs = write_file j.id bs w.store.inputs };
    }

    written_undone :
        (j : Job) (bs : Bytes) (q : List Str)
        → IsNewRow j
        → QueueAfter ev w.queue q
        → LeavesNothing ev w
            (drop_job_and_files p cfg ev.delete j.id (record (written j bs) { queue = q }))
            ev.new_id
    written_undone j bs q e queued =
        with_file j (record (written j bs) { queue = q }) e refl queued refl
          (λ k h. rw (e.0) (read_file-write_file_ne k ev.new_id bs w.store.inputs h))

    queue_job_lem :
        (j : Job) (bs : Bytes)
        → IsNewRow j
        → AllOrNothing ev ev.new_id w (queue_job p cfg ev j (written j bs))
    unfolding queue_job enqueue
    queue_job_lem j bs e = go ev.push refl
      where
        go :
            (c : Call)
            → ev.push ≡ c
            → AllOrNothing ev ev.new_id w
                (unfold queue_job in queue_job p cfg (record ev { push = c }) j (written j bs))
        go answered h = inl (
          refl,
          (j, e.0, e.1, refl),
          ap (λ i. i ∷ w.queue) e.0,
          (bs, rw (e.0) (read_file-write_file_self ev.new_id bs w.store.inputs)),
        )
        go refused h = inr (omega arith, written_undone j bs w.queue e (inl refl))
        go lost h = inr (
          omega arith,
          written_undone j bs (j.id ∷ w.queue) e (inr (h, ap (λ i. i ∷ w.queue) e.0)),
        )

    after_encrypt_lem :
        (j : Job) (o : Option (Sink × Option CryptoError))
        → IsNewRow j
        → AllOrNothing ev ev.new_id w (after_encrypt p cfg ev j (record w { jobs = j ∷ w.jobs }) o)
    unfolding after_encrypt
    after_encrypt_lem j none e = inr (
      omega arith,
      with_file j (record w { jobs = j ∷ w.jobs }) e refl (inl refl) refl (λ k h. refl),
    )
    after_encrypt_lem j (some (d, some x)) e =
        inr (omega arith, written_undone j d.written w.queue e (inl refl))
    after_encrypt_lem j (some (d, none)) e = by ev.sync
      where
        by :
            (b : Bool)
            → AllOrNothing ev ev.new_id w (
                if b then queue_job p cfg ev j (written j d.written) else (
                  drop_job_and_files p cfg ev.delete j.id (written j d.written),
                  failure 500 (codes "Failed to process upload"),
                ))
        by true = queue_job_lem j d.written e
        by false = inr (omega arith, written_undone j d.written w.queue e (inl refl))

    store_upload_lem :
        (h : FileHeader) (j : Job) (key : Option Bytes)
        → IsNewRow j
        → AllOrNothing ev ev.new_id w
            (store_upload p cfg ev h j key (record w { jobs = j ∷ w.jobs }))
    unfolding store_upload
    store_upload_lem h j none e = inr (omega arith, without_file j e)
    store_upload_lem h j (some key) e = by ev.open_input
      where
        by :
            (b : Bool)
            → AllOrNothing ev ev.new_id w (
                if b
                then after_encrypt p cfg ev j
                    (record w { jobs = j ∷ w.jobs })
                    (encrypt_stream p.aead key ev.random h.content
                      (record { written = []; room = ev.disk_room }))
                else (
                  drop_job p cfg ev.delete j.id (record w { jobs = j ∷ w.jobs }),
                  failure 500 (codes "Storage error"),
                ))
        by true = after_encrypt_lem j _ e
        by false = inr (omega arith, without_file j e)

    untouched : (r : Response) → r.code ≢ 201 → AllOrNothing ev ev.new_id w (w, r)
    untouched r h = inr (
      h,
      record {
        rows_after = inl refl;
        queue_after = inl refl;
        no_input = fresh.no_input_file;
        no_output = fresh.no_output_file;
        inputs_same = λ k h. refl;
        outputs_same = λ k h. refl;
      },
    )

  handle_create_job_lem :
      (session : Option Session) (r : UploadRequest)
      → IsFresh p ev.new_id w
      → AllOrNothing ev ev.new_id w (handle_create_job p cfg ev session r w)
  unfolding handle_create_job with_session after_create create_job insert_row
  handle_create_job_lem session r fresh =
      go session (check_upload cfg r) (check_upload-IsRefusal cfg r)
    where
      -- The INSERT, by its reply.
      inserted :
          (h : FileHeader) (c : Call) (j : Job)
          → ev.create ≡ c
          → IsNewRow j
          → AllOrNothing ev ev.new_id w (after_create p cfg ev h w (insert_row none c j w.jobs))
      inserted h answered j k e = store_upload_lem fresh h j _ e
      inserted h refused j k e =
          untouched fresh (failure 500 (codes "Failed to create job")) (omega arith)
      inserted h lost j k e = inr (
        omega arith,
        record {
          rows_after = inr (inl k, (j, e.0, e.1, refl));
          queue_after = inl refl;
          no_input = fresh.no_input_file;
          no_output = fresh.no_output_file;
          inputs_same = λ k h. refl;
          outputs_same = λ k h. refl;
        },
      )

      go :
          (s : Option Session) (c : Checked)
          → IsRefusal c
          → AllOrNothing ev ev.new_id w (with_session p cfg ev s c w)
      go s (rejected x) k = untouched fresh x k
      go none (accepted op h params) k =
          untouched fresh (failure 500 (codes "Session error")) (omega arith)
      go (some s) (accepted op h params) k =
          rw fresh.no_row (inserted h ev.create _ refl (refl, refl))

  -- An upload under a new id either is answered with 201, and then its row, pending, its queue entry
  -- and its input file are there; or is answered with another code, and then there is no file under
  -- the id and the files of each other key are as before, the table of jobs is as before, but for
  -- the pending row of the id if the reply to its INSERT was lost or the DELETE of the roll-back was
  -- refused, and the queue is as before, but for the id if the reply to its LPUSH was lost. The
  -- removal of a file is taken to succeed.
  pub handle_create_job_all_or_nothing :
      (session : Option Session) (r : UploadRequest) (k : Str)
      → IsFresh p ev.new_id w
      → str_eq k ev.new_id ≡ false
      → let (w', response) = handle_create_job p cfg ev session r w in
        ((response.code ≡ 201)
          × ((j : Job) × (j.id ≡ ev.new_id) × (j.status ≡ pending) × (w'.jobs ≡ j ∷ w.jobs))
          × (w'.queue ≡ ev.new_id ∷ w.queue)
          × ((bs : Bytes) × (read_file ev.new_id w'.store.inputs ≡ some bs)))
        ⊎ ((response.code ≢ 201)
            × RowsAfter ev w.jobs w'.jobs
            × QueueAfter ev w.queue w'.queue
            × (read_file ev.new_id w'.store.inputs ≡ none)
            × (read_file ev.new_id w'.store.outputs ≡ none)
            × (read_file k w'.store.inputs ≡ read_file k w.store.inputs)
            × (read_file k w'.store.outputs ≡ read_file k w.store.outputs))
  handle_create_job_all_or_nothing session r k fresh other =
      elim (handle_create_job_lem session r fresh) [
        | inl s ↦ inl s
        | inr f ↦ inr (
          f.0,
          f.1.rows_after,
          f.1.queue_after,
          f.1.no_input,
          f.1.no_output,
          f.1.inputs_same k other,
          f.1.outputs_same k other,
        )
      ]
