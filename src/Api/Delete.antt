-- ===== src/Api/Delete.antt =====
-- handleDeleteJob of cmd/api/handlers.go and runCleanup of cmd/api/main.go.
pub mod Files
pub mod Locality
pub mod Ticker
use ilove_convertion.Base.{
  Bool, true, false, not, Option, none, some, List, [], ◌∷◌, Str, codes, if◌then◌else◌,
}
use ilove_convertion.Models.{Job}
use ilove_convertion.Database.{Call, perform, delete_job, cleanup_expired_jobs}
use ilove_convertion.Storage.{Storage, delete_job_files}
use ilove_convertion.World.{World, Platform}
use ilove_convertion.Api.{deleted_body, Response, failure}
use ilove_convertion.Database.{reset_hourly_counts}

module _ (p : Platform) where
  after_delete : Str → World → Option Bool → World × Response
  after_delete job_id w none = (w, failure 500 (codes "Database error"))
  after_delete job_id w (some false) = (w, failure 404 (codes "Job not found"))
  after_delete job_id w (some true) = (
    record w { store = delete_job_files job_id w.store },
    record { code = 200; body = deleted_body job_id },
  )

  unfoldable pub handle_delete_job : Call → Str → World → World × Response
  unfolding after_delete
  handle_delete_job c job_id w =
      let (jobs, deleted) = delete_job p.canon c job_id w.jobs in
      if p.is_uuid job_id
      then after_delete job_id (record w { jobs = jobs }) deleted
      else (w, failure 400 (codes "Invalid job ID"))

-- `for _, id := range ids { a.store.DeleteJobFiles(id) }`
unfoldable pub delete_all_files : List Str → Storage → Storage
delete_all_files [] s = s
delete_all_files (id ∷ ids) s = delete_all_files ids (delete_job_files id s)

expired_files : Option (List Str) → Storage → Storage
expired_files none s = s
expired_files (some ids) s = delete_all_files ids s

-- runCleanup: the expired jobs with their files, then the hourly counts.
unfoldable pub run_cleanup : Call → Call → World → World
unfolding expired_files
run_cleanup c c' w =
    let (jobs, ids) = cleanup_expired_jobs c w.now w.jobs in
    record w {
      jobs = jobs;
      store = expired_files ids w.store;
      sessions = (perform c' w.sessions (reset_hourly_counts w.now w.sessions)).0;
    }
