-- ===== src/Jobs/Lifecycle/Frame.antt =====
-- The effects of completion (`_record_completion_effects`) leave the jobs and their log alone, and
-- commit nothing.
use breero_com.Prelude.{String, ◌∙◌, ◌≡◌}
use breero_com.Prelude.Int.{ℤ}
use breero_com.Models.{Db, Job}
use breero_com.Context.{Context}
use breero_com.Session.{Session, modify}
use breero_com.Session.Keeps.{Keeps, Keeps-modify, keeps_rules}
use breero_com.Jobs.{record_completion_effects}
use breero_com.Finance.{recognize_earning}

pub record SameJobs (base s : Session Db) : Type 0 where
  pub saved : s.saved ≡ base.saved
  pub jobs : s.live.jobs ≡ base.live.jobs
  pub job_events : s.live.job_events ≡ base.live.job_events

module _ (base : Session Db) where
  Keeps-modify_frame :
      (f : Db → Db)
      → ((db : Db) → ((f db).jobs ≡ db.jobs) × ((f db).job_events ≡ db.job_events))
      → Keeps (SameJobs base) (modify f)
  Keeps-modify_frame f same = Keeps-modify f λ s h. record {
    saved = h.saved;
    jobs = (same s.live).0 ∙ h.jobs;
    job_events = (same s.live).1 ∙ h.job_events;
  }

  recognize_earning-SameJobs :
      (c : Context) (job : Job) (gross fee : ℤ) (currency : String)
      → Keeps (SameJobs base) (recognize_earning c job gross fee currency)
  unfolding recognize_earning
  recognize_earning-SameJobs c job gross fee currency =
      search (keeps_rules, Keeps-modify_frame) depth 16

  pub record_completion_effects-SameJobs :
      (c : Context) (job : Job) → Keeps (SameJobs base) (record_completion_effects c job)
  unfolding record_completion_effects
  record_completion_effects-SameJobs c job =
      search (keeps_rules, Keeps-modify_frame, recognize_earning-SameJobs) depth 16
