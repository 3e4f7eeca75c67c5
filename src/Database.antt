-- ===== src/Database.antt =====
-- internal/database/database.go: the statements that the program sends to PostgreSQL, over the
-- tables of db/init.sql. The key of a job is a uuid: `canon` stands for the text form of the uuid
-- that the server reads from a text. A call is answered, or refused with no effect, or its reply is
-- lost after it took effect; the program sees an error in the last two cases.
pub mod Stats
pub mod Rows
pub mod Sessions
pub mod Counts
pub mod Tests
use ilove_convertion.Base.{
  ℕ, ◌+◌, ◌*◌, Bool, true, false, ◌&&◌, Option, none, some, List, [], ◌∷◌, Str, str_eq, ltb, leb,
  if◌then◌else◌,
}
use ilove_convertion.Models.{
  pending, processing, completed, failed, Operation, Session, JobParams, Job,
}
use ilove_convertion.Models.Params.{marshal}

-- Seconds.
abbrev pub hour : ℕ
hour = 3600

pub data Call : Type 0 where
  answered refused lost : Call

-- The state after a call, and whether the program sees a success.
abbrev pub perform {ℓ} : {S : Type ℓ} → Call → S → S → S × Bool
perform answered s s' = (s', true)
perform refused s s' = (s, false)
perform lost s s' = (s', false)

-- The table `jobs`, by key.
unfoldable pub find_job : Str → List Job → Option Job
find_job k [] = none
find_job k (j ∷ js) = if str_eq k j.id then some j else find_job k js

-- UPDATE jobs SET ... WHERE id = k
unfoldable pub modify_job : Str → (Job → Job) → List Job → List Job
modify_job k f [] = []
modify_job k f (j ∷ js) = (if str_eq k j.id then f j else j) ∷ modify_job k f js

-- DELETE FROM jobs WHERE id = k
unfoldable pub remove_job : Str → List Job → List Job
remove_job k [] = []
remove_job k (j ∷ js) = let rest = remove_job k js in if str_eq k j.id then rest else j ∷ rest

pub record CreateJobParams : Type 0 where
  pub session_id : Str
  pub operation : Operation
  pub original_name : Str
  pub input_size : ℕ
  pub params : JobParams

-- The row that CreateJob inserts, the defaults of the table included. The retention is a number of
-- hours that is not negative and, in nanoseconds, below 2 ^ 63: time.Duration(retentionHours) *
-- time.Hour is then not wrapped.
abbrev pub new_job : Str → CreateJobParams → ℕ → ℕ → Job
new_job job_id p retention_hours now = record {
  id = job_id;
  session_id = p.session_id;
  operation = p.operation;
  status = pending;
  input_filename = job_id;
  output_filename = none;
  input_size = p.input_size;
  output_size = none;
  original_name = p.original_name;
  params = marshal p.params;
  error_message = none;
  retry_count = 0;
  created_at = now;
  started_at = none;
  completed_at = none;
  expires_at = now + retention_hours * hour;
}

-- An INSERT: the primary key refuses an id that is there.
unfoldable pub insert_row : Option Job → Call → Job → List Job → List Job × Option Job
insert_row (some _) c j jobs = (jobs, none)
insert_row none answered j jobs = (j ∷ jobs, some j)
insert_row none refused j jobs = (jobs, none)
insert_row none lost j jobs = (j ∷ jobs, none)

unfoldable pub create_job : Call → Str → CreateJobParams → ℕ → ℕ → List Job → List Job × Option Job
unfolding insert_row
create_job c job_id p retention_hours now jobs =
    insert_row (find_job job_id jobs) c (new_job job_id p retention_hours now) jobs

-- The result of GetJob: a row, sql.ErrNoRows, or another error.
pub data Found : Type 0 where
  row : Job → Found
  no_rows db_error : Found

abbrev pub to_found : Option Job → Found
to_found none = no_rows
to_found (some j) = row j

module _ (canon : Str → Str) where
  unfoldable pub get_job : Bool → Str → List Job → Found
  get_job reached job_id jobs =
      if reached then to_found (find_job (canon job_id) jobs) else db_error

  unfoldable pub update_job_started : Call → ℕ → Str → List Job → List Job × Bool
  update_job_started c now job_id jobs = perform c jobs (
      modify_job (canon job_id) (λ j. record j { status = processing; started_at = some now }) jobs)

  unfoldable pub update_job_completed : Call → ℕ → Str → Str → ℕ → List Job → List Job × Bool
  update_job_completed c now job_id output_filename output_size jobs = perform c jobs (
      modify_job (canon job_id)
        (λ j. record j {
          status = completed;
          output_filename = some output_filename;
          output_size = some output_size;
          completed_at = some now;
        })
        jobs)

  unfoldable pub update_job_failed : Call → ℕ → Str → Str → List Job → List Job × Bool
  update_job_failed c now job_id error_msg jobs = perform c jobs (
      modify_job (canon job_id)
        (λ j. record j { status = failed; error_message = some error_msg; completed_at = some now })
        jobs)

  abbrev retry : Job → Job
  retry j = record j { retry_count = j.retry_count + 1; status = pending }

  -- The count that RETURNING gives; `none` for an error, no row included.
  unfoldable pub returned_count : Bool → Option Job → Option ℕ
  returned_count false o = none
  returned_count true none = none
  returned_count true (some j) = some j.retry_count

  unfoldable pub increment_retry_count : Call → Str → List Job → List Job × Option ℕ
  unfolding returned_count
  increment_retry_count c job_id jobs =
      let (jobs', ok) = perform c jobs (modify_job (canon job_id) retry jobs) in
      (jobs', returned_count ok (find_job (canon job_id) jobs'))

  is_found : Option Job → Bool
  is_found none = false
  is_found (some _) = true

  -- DeleteJob: `none` for an error, or whether a row went.
  unfoldable pub delete_job : Call → Str → List Job → List Job × Option Bool
  unfolding is_found
  delete_job c job_id jobs =
      let (jobs', ok) = perform c jobs (remove_job (canon job_id) jobs) in
      (jobs', if ok then some (is_found (find_job (canon job_id) jobs)) else none)

-- The rows that stay and the ids of those that go, for `DELETE ... WHERE expires_at < NOW()`.
unfoldable pub split_expired : ℕ → List Job → List Job × List Str
split_expired now [] = ([], [])
split_expired now (j ∷ js) =
    let (kept, ids) = split_expired now js in
    if ltb j.expires_at now then (kept, j.id ∷ ids) else (j ∷ kept, ids)

-- CleanupExpiredJobs: `none` for an error.
unfoldable pub cleanup_expired_jobs : Call → ℕ → List Job → List Job × Option (List Str)
cleanup_expired_jobs c now jobs =
    let (kept, ids) = split_expired now jobs in
    let (jobs', ok) = perform c jobs kept in (jobs', if ok then some ids else none)

-- The upsert of TouchSession, at the time `now`; `new_id` is the default of the id column.
abbrev pub first_touch : Str → Str → ℕ → Session
first_touch new_id ip now = record {
  id = new_id;
  ip_address = ip;
  created_at = now;
  last_request_at = now;
  hourly_request_count = 1;
  total_request_count = 1;
  is_flagged = false;
}

unfoldable pub touched : ℕ → ℕ → Session → Session
touched flag_threshold now s = record s {
  last_request_at = now;
  hourly_request_count =
      if ltb (s.last_request_at + hour) now then 1 else s.hourly_request_count + 1;
  total_request_count = s.total_request_count + 1;
  is_flagged = if leb flag_threshold (s.total_request_count + 1) then true else s.is_flagged;
}

-- The sessions after it, and the session that RETURNING gives. The column ip_address is an INET with a
-- unique index: addresses are compared as texts here, so they are in the one form that PostgreSQL
-- gives an address.
unfoldable pub touch_session : Str → Str → ℕ → ℕ → List Session → List Session × Session
unfolding touched
touch_session new_id ip flag_threshold now [] =
    (first_touch new_id ip now ∷ [], first_touch new_id ip now)
touch_session new_id ip flag_threshold now (s ∷ ss) =
    let (rest, t) = touch_session new_id ip flag_threshold now ss in
    if str_eq s.ip_address ip
    then (touched flag_threshold now s ∷ ss, touched flag_threshold now s)
    else (s ∷ rest, t)

unfoldable pub reset_hourly_counts : ℕ → List Session → List Session
reset_hourly_counts now [] = []
reset_hourly_counts now (s ∷ ss) =
    (if ltb 0 s.hourly_request_count && ltb (s.last_request_at + hour) now
      then record s { hourly_request_count = 0 }
      else s)
    ∷ reset_hourly_counts now ss
