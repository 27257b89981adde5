-- ===== src/Tests/Dispatch.antt =====
-- The theorems on dispatch at concrete inputs.
use breero_com.Prelude.{[], inl, none, refl, some, true, ◌∷◌, ◌≡◌}
use breero_com.Models.{Db, Job, JobStatus, Worker, WorkerStatus, Assignment}
use breero_com.Errors.{bad_job_transition}
use breero_com.Session.{err, request, returned}
use breero_com.Tests.{a_job, empty, surroundings}
use breero_com.Jobs.{get_job}
use breero_com.Dispatch.{holds_slot, manual_assign}
use breero_com.Dispatch.Manual.{manual_assign-created, manual_assign-stored, IsStaffed}

abbrev a_worker : Worker
a_worker = record { id = 7; vendor_id = 6; status = WorkerStatus.active; available = true }

abbrev unassigned : JobStatus → Job
unassigned status = record a_job { status = status; vendor_id = none; worker_id = none }

abbrev staffed : JobStatus → Db
staffed status = record empty { jobs = unassigned status ∷ []; workers = a_worker ∷ [] }

manual_assign-created_example :
    request (manual_assign surroundings 1 6 7 8 none) (staffed JobStatus.created)
    ≡ (err (bad_job_transition JobStatus.created JobStatus.assigned), staffed JobStatus.created)
unfolding holds_slot
manual_assign-created_example =
    manual_assign-created surroundings 1 6 7 8 none (staffed JobStatus.created)
      (unassigned JobStatus.created) a_worker refl refl refl refl

manual_assign-stored_example :
    let r = request (manual_assign surroundings 1 6 7 8 none) (staffed JobStatus.matching) in
    (x : Assignment) × (j' : Job) × (returned r ≡ some x)
    × (r.1.assignments ≡ x ∷ [])
    × (get_job 1 r.1 ≡ some j')
    × IsStaffed 6 7 (unassigned JobStatus.matching) x j'
unfolding holds_slot
manual_assign-stored_example =
    manual_assign-stored surroundings 1 6 7 8 none (staffed JobStatus.matching)
      (unassigned JobStatus.matching) a_worker refl refl refl (inl refl) refl
