-- ===== src/Jobs/Lifecycle.antt =====
-- What is asked of every job between two requests (apps/api/app/domains/jobs/service.py).
mod Steps
pub mod Frame
mod Ready
pub mod Commands
pub mod Serve
use breero_com.Prelude.{
  Bool, count, is_present, is_some, nat_eq, option_eq, some, true, ℕ, ◌&&◌, ◌+◌, ◌==◌, ◌≡◌,
}
use breero_com.Models.{Db, Job, JobEvent, JobStatus, job_status_eq}
use breero_com.Jobs.{completion_notes, diagnostic_notes, get_job}

-- The transitions of a job that the log has; its creation is no transition.
abbrev pub is_move : ℕ → JobEvent → Bool
is_move job_id e = (e.job_id == job_id) && is_some e.from_status

pub record IsDocumented (j : Job) : Type 0 where
  pub assigned : (is_some j.vendor_id && is_some j.worker_id) ≡ true
  pub noted : (is_present j.diagnostic_notes && is_present j.completion_notes) ≡ true

-- The version of a job counts the transitions in its log, and no job is completed without a
-- vendor, a worker and both notes.
pub record IsSound (db : Db) : Type 0 where
  pub logged :
      (k : ℕ) (j : Job) → get_job k db ≡ some j → j.version ≡ count (is_move k) db.job_events + 1
  pub documented :
      (k : ℕ) (j : Job) → get_job k db ≡ some j → j.status ≡ JobStatus.completed → IsDocumented j
