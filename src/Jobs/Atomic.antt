-- ===== src/Jobs/Atomic.antt =====
-- The commands on jobs and on work requests, as one type.
use breero_com.Prelude.{Bool, Option, String, none, some, ℕ, ◌≡◌}
use breero_com.Prelude.Int.{ℤ}
use breero_com.Models.{Db, Job, JobStatus, WorkRequest, WorkRequestStatus}
use breero_com.Errors.{Error}
use breero_com.Context.{Context}
use breero_com.Session.{answer, request}
use breero_com.Session.Keeps.{Keeps, keeps_rules}
use breero_com.Session.Atomic.{
  IsAtomic, IsUncommitted, Uncommitted-modify, atomic_rules, request-IsAtomic,
}
use breero_com.Jobs.{
  Actor, NotesField, apply_transition, finish_transition, load_job, record_completion_effects,
  technician_note_transition, transition, validate_completion,
}
use breero_com.Jobs.Work.{
  WorkRequestCreate, after_decision, apply_work_request_transition, create_for_job,
  create_work_request, decide_for_job, decide_loaded, decide_work_request, load_request, resume,
  resume_request_job, resume_waiting, review_work_request, set_decision, store_decision,
}
use breero_com.Finance.{recognize_earning}

pub data Command : Type 0 where
  move : ℕ → JobStatus → Actor → Command
  note : ℕ → ℕ → ℕ → NotesField → String → JobStatus → Command
  request_work : ℕ → WorkRequestCreate → ℕ → Command
  decide : ℕ → Bool → ℕ → Command
  review : ℕ → Bool → Option ℕ → Command

-- One request: the exception that it ended with, and the database that it left.
unfoldable pub run : Context → Command → Db → Option Error × Db
run c (move job_id target actor) db = answer (request (transition c job_id target actor) db)
run c (note job_id worker_id actor_id field notes target) db =
    answer (request (technician_note_transition c job_id worker_id actor_id field notes target) db)
run c (request_work job_id payload worker_id) db =
    answer (request (create_work_request c job_id payload worker_id) db)
run c (decide request_id approve customer_id) db =
    answer (request (decide_work_request c request_id approve customer_id) db)
run c (review request_id approve actor_id) db =
    answer (request (review_work_request c request_id approve actor_id) db)

module _ {db : Db} where
  apply_transition-IsUncommitted :
      (c : Context) (j : Job) (target : JobStatus) (actor : Actor)
      → Keeps (IsUncommitted db) (apply_transition c j target actor)
  unfolding apply_transition validate_completion
  apply_transition-IsUncommitted c j target actor =
      search (keeps_rules, Uncommitted-modify) depth 16

  recognize-IsUncommitted :
      (c : Context) (j : Job) (gross fee : ℤ) (currency : String)
      → Keeps (IsUncommitted db) (recognize_earning c j gross fee currency)
  unfolding recognize_earning
  recognize-IsUncommitted c j gross fee currency = search (keeps_rules, Uncommitted-modify) depth 16

  effects-IsUncommitted :
      (c : Context) (j : Job) → Keeps (IsUncommitted db) (record_completion_effects c j)
  unfolding record_completion_effects
  effects-IsUncommitted c j =
      search (keeps_rules, Uncommitted-modify, recognize-IsUncommitted) depth 16

  finish-IsAtomic :
      (c : Context) (target : JobStatus) (moved : Job × Bool)
      → IsAtomic db (finish_transition c target moved)
  unfolding finish_transition
  finish-IsAtomic c target (j, changed) = search (atomic_rules, effects-IsUncommitted) depth 16

  transition-IsAtomic :
      (c : Context) (job_id : ℕ) (target : JobStatus) (actor : Actor)
      → IsAtomic db (transition c job_id target actor)
  unfolding transition load_job
  transition-IsAtomic c job_id target actor =
      search (atomic_rules, apply_transition-IsUncommitted, finish-IsAtomic) depth 16

  note-IsAtomic :
      (c : Context) (job_id worker_id actor_id : ℕ) (field : NotesField) (notes : String)
      (target : JobStatus)
      → IsAtomic db (technician_note_transition c job_id worker_id actor_id field notes target)
  unfolding technician_note_transition load_job
  note-IsAtomic c job_id worker_id actor_id field notes target =
      search (atomic_rules, apply_transition-IsUncommitted, finish-IsAtomic) depth 16

  request_work-IsAtomic :
      (c : Context) (job_id : ℕ) (payload : WorkRequestCreate) (worker_id : ℕ)
      → IsAtomic db (create_work_request c job_id payload worker_id)
  unfolding create_work_request create_for_job
  request_work-IsAtomic c job_id payload worker_id =
      search (atomic_rules, apply_transition-IsUncommitted) depth 20

  request_transition-IsUncommitted :
      (r : WorkRequest) (target : WorkRequestStatus)
      → Keeps (IsUncommitted db) (apply_work_request_transition r target)
  unfolding apply_work_request_transition
  request_transition-IsUncommitted r target = search (keeps_rules, Uncommitted-modify) depth 16

  resume-IsUncommitted :
      (c : Context) (j : Job) (actor : Actor) → Keeps (IsUncommitted db) (resume c j actor)
  unfolding resume
  resume-IsUncommitted c j actor = search (keeps_rules, apply_transition-IsUncommitted) depth 16

  decide-IsAtomic :
      (c : Context) (request_id : ℕ) (approve : Bool) (customer_id : ℕ)
      → IsAtomic db (decide_work_request c request_id approve customer_id)
  unfolding decide_work_request decide_loaded decide_for_job store_decision load_request
      set_decision after_decision
  decide-IsAtomic c request_id approve customer_id =
      search (atomic_rules, request_transition-IsUncommitted, resume-IsUncommitted) depth 24

  resume_waiting-IsUncommitted :
      (c : Context) (o : Option Job) (actor_id : Option ℕ)
      → Keeps (IsUncommitted db) (resume_waiting c o actor_id)
  unfolding resume_waiting
  resume_waiting-IsUncommitted c none actor_id = search keeps_rules
  resume_waiting-IsUncommitted c (some j) actor_id = search (keeps_rules, resume-IsUncommitted)

  review-IsAtomic :
      (c : Context) (request_id : ℕ) (approve : Bool) (actor_id : Option ℕ)
      → IsAtomic db (review_work_request c request_id approve actor_id)
  unfolding review_work_request load_request resume_request_job
  review-IsAtomic c request_id approve actor_id =
      search (atomic_rules, request_transition-IsUncommitted, resume_waiting-IsUncommitted) depth 24

-- A request on a job or on a work request that raises an exception leaves the whole database as
-- it was, whichever of the five commands it is.
pub run_atomic :
    (c : Context) (command : Command) (db : Db) (e : Error)
    → (run c command db).0 ≡ some e
    → (run c command db).1 ≡ db
unfolding run
run_atomic c (move job_id target actor) db e =
    request-IsAtomic db _ e (transition-IsAtomic c job_id target actor)
run_atomic c (note job_id worker_id actor_id field notes target) db e =
    request-IsAtomic db _ e (note-IsAtomic c job_id worker_id actor_id field notes target)
run_atomic c (request_work job_id payload worker_id) db e =
    request-IsAtomic db _ e (request_work-IsAtomic c job_id payload worker_id)
run_atomic c (decide request_id approve customer_id) db e =
    request-IsAtomic db _ e (decide-IsAtomic c request_id approve customer_id)
run_atomic c (review request_id approve actor_id) db e =
    request-IsAtomic db _ e (review-IsAtomic c request_id approve actor_id)
