-- ===== src/Database/Stats.antt =====
-- GetAdminStats of internal/database/database.go, over the view admin_stats of db/init.sql: the
-- numbers of rows that meet its conditions at a time.
use ilove_convertion.Base.{
  ℕ, ◌+◌, Bool, true, false, ◌&&◌, Option, none, some, List, [], ◌∷◌, ltb, if◌then◌else◌,
}
use ilove_convertion.Models.{Status, pending, processing, completed, failed, Job, Session}
use ilove_convertion.Database.{hour}

pub record AdminStats : Type 0 where
  pub queue_length : ℕ
  pub active_jobs : ℕ
  pub completed_24h : ℕ
  pub failed_24h : ℕ
  pub active_sessions : ℕ
  pub storage_used_mb : ℕ

count_rows : {A : Type 0} → (A → Bool) → List A → ℕ
count_rows test [] = 0
count_rows test (x ∷ xs) = (if test x then 1 else 0) + count_rows test xs

is_pending : Status → Bool
is_pending pending = true
is_pending _ = false

is_processing : Status → Bool
is_processing processing = true
is_processing _ = false

is_completed : Status → Bool
is_completed completed = true
is_completed _ = false

is_failed : Status → Bool
is_failed failed = true
is_failed _ = false

-- `time > NOW() - INTERVAL`, which is not true of NULL.
since : ℕ → ℕ → Option ℕ → Bool
since now interval none = false
since now interval (some time) = ltb now (time + interval)

abbrev day : ℕ
day = 86400

-- `none` for an error; the storage is filled in by the handler.
unfoldable pub get_admin_stats : Bool → ℕ → List Job → List Session → Option AdminStats
unfolding count_rows is_pending is_processing is_completed is_failed since
get_admin_stats reached now jobs sessions =
    if reached
    then some (record {
      queue_length = count_rows (λ j. is_pending j.status) jobs;
      active_jobs = count_rows (λ j. is_processing j.status) jobs;
      completed_24h = count_rows (λ j. is_completed j.status && since now day j.completed_at) jobs;
      failed_24h = count_rows (λ j. is_failed j.status && since now day (some j.created_at)) jobs;
      active_sessions = count_rows (λ s. since now hour (some s.last_request_at)) sessions;
      storage_used_mb = 0;
    })
    else none
