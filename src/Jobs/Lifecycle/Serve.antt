-- ===== src/Jobs/Lifecycle/Serve.antt =====
-- apps/api/app/domains/jobs/service.py: the five commands, one after another.
use breero_com.Prelude.{
  All, Bool, List, Option, String, [], add, is_present, nat_eq, none, option_eq, refl, some,
  string_eq, true, ℕ, ◌==◌, ◌∷◌, ◌≡◌,
}
use breero_com.Models.{
  Db, Job, JobStatus, WorkRequest, WorkRequestStatus, job_status_eq, work_request_status_eq,
}
use breero_com.Errors.{decision_not_permitted, job_not_found, work_request_not_found}
use breero_com.Context.{Context, record_audit}
use breero_com.Session.{Outcome, Session, answer, err, ok, request, ◌>>=◌}
use breero_com.Session.Keeps.{Keeps}
use breero_com.Session.Rules.{after_require}
use breero_com.Jobs.{Actor, get_job}
use breero_com.Jobs.Work.{
  WorkRequestCreate, after_decision, apply_work_request_transition, create_for_job,
  create_work_request, decide_for_job, decide_loaded, decide_work_request, get_request,
  load_request, put_request, resume, resume_request_job, resume_waiting, review_work_request,
  set_decision, store_decision,
}
use breero_com.Jobs.Atomic.{Command, decide, move, note, request_work, review, run}
use breero_com.Jobs.Lifecycle.{IsSound}
use breero_com.Jobs.Lifecycle.Steps.{IsCurrent-of_get, IsSoundSession}
use breero_com.Jobs.Lifecycle.Ready.{IsElsewhere, IsMoving, IsMoving-when, IsReady, moving_rules}
use breero_com.Jobs.Lifecycle.Commands.{technician_note_transition-IsSound, transition-IsSound}

elsewhere :
    (f : Db → Db)
    → ((db : Db) → (f db).jobs ≡ db.jobs)
    → ((db : Db) → (f db).job_events ≡ db.job_events)
    → IsElsewhere f
elsewhere f p q = record { jobs = p; job_events = q }

requests-IsElsewhere : (r : WorkRequest) → IsElsewhere (put_request r)
requests-IsElsewhere r = elsewhere _ (λ db. refl) (λ db. refl)

add_request-IsElsewhere :
    (r : WorkRequest) → IsElsewhere (λ db. record db { work_requests = add r db.work_requests })
add_request-IsElsewhere r = elsewhere _ (λ db. refl) (λ db. refl)

audit-IsElsewhere :
    (c : Context) (actor_id : Option ℕ) (action resource_type : String) (resource_id : ℕ)
    (metadata : List (String × String))
    → IsElsewhere (record_audit c actor_id action resource_type resource_id metadata)
audit-IsElsewhere c actor_id action resource_type resource_id metadata =
    elsewhere _ (λ db. refl) (λ db. refl)

request_transition-Ready :
    (j : Job) (r : WorkRequest) (target : WorkRequestStatus)
    → Keeps (IsReady j) (apply_work_request_transition r target)
unfolding apply_work_request_transition
request_transition-Ready j r target = search (moving_rules, requests-IsElsewhere) depth 16

resume-IsMoving : (c : Context) (j : Job) (actor : Actor) → IsMoving j (resume c j actor)
unfolding resume
resume-IsMoving c j actor = search moving_rules depth 16

IsReady-of_get :
    (k : ℕ) (j : Job) (db : Db)
    → IsSound db
    → get_job k db ≡ some j
    → IsReady j (record { saved = db; live = db })
IsReady-of_get k j db h found = record {
  sound = record { saved = h; live = h };
  current = IsCurrent-of_get k j db found;
}

ruleset serve_rules = (
  moving_rules, requests-IsElsewhere, add_request-IsElsewhere, audit-IsElsewhere,
  request_transition-Ready, resume-IsMoving,
)

-- The rest of `create_work_request` behind the lookup of the job.
request_work-IsMoving :
    (c : Context) (j : Job) (payload : WorkRequestCreate) (worker_id : ℕ)
    → IsMoving j (create_for_job c j payload worker_id)
unfolding create_for_job
request_work-IsMoving c j payload worker_id = search serve_rules depth 24

decide-IsMoving :
    (c : Context) (r : WorkRequest) (j : Job) (approve : Bool) (customer_id : ℕ)
    → IsMoving j (decide_for_job c r j approve customer_id)
unfolding decide_for_job store_decision set_decision after_decision
decide-IsMoving c r j approve customer_id = search serve_rules depth 24

request_work-IsSound :
    (c : Context) (job_id : ℕ) (payload : WorkRequestCreate) (worker_id : ℕ) (db : Db)
    → IsSound db
    → IsSound (request (create_work_request c job_id payload worker_id) db).1
unfolding create_work_request request ◌>>=◌
request_work-IsSound c job_id payload worker_id db h =
    let s : Session Db = record { saved = db; live = db } in
    after_require (λ r. IsSound r.1.saved) (get_job job_id db) job_not_found
      (λ j. create_for_job c j payload worker_id) s h
      λ j found.
        ((request_work-IsMoving c j payload worker_id).kept s
          (IsReady-of_get job_id j db h found)).saved

-- A request for a decision loads the work request first.
decide-IsSound :
    (c : Context) (request_id : ℕ) (approve : Bool) (customer_id : ℕ) (db : Db)
    → IsSound db
    → IsSound (request (decide_work_request c request_id approve customer_id) db).1
unfolding decide_work_request load_request decide_loaded request ◌>>=◌
decide-IsSound c request_id approve customer_id db h =
    let s : Session Db = record { saved = db; live = db } in
    after_require (λ r. IsSound r.1.saved) (get_request request_id db) work_request_not_found
      (decide_loaded c approve customer_id) s h
      λ r loaded.
        after_require (λ r. IsSound r.1.saved) (get_job r.job_id db) decision_not_permitted
          (λ j. decide_for_job c r j approve customer_id) s h
          λ j found.
            ((decide-IsMoving c r j approve customer_id).kept s
              (IsReady-of_get r.job_id j db h found)).saved

resume_loaded-IsSound :
    (c : Context) (o : Option Job) (actor_id : Option ℕ) (s : Session Db)
    → IsSoundSession s
    → ((j : Job) → o ≡ some j → IsReady j s)
    → IsSoundSession (resume_waiting c o actor_id s).1
unfolding resume_waiting ◌>>=◌
resume_loaded-IsSound c none actor_id s h ready = h
resume_loaded-IsSound c (some j) actor_id s h ready =
    (IsMoving-when (j.status == JobStatus.awaiting_approval) _ (resume-IsMoving c j _)).kept s
      (ready j refl)

resume_request_job-IsSound :
    (c : Context) (job_id : ℕ) (actor_id : Option ℕ)
    → Keeps IsSoundSession (resume_request_job c job_id actor_id)
unfolding resume_request_job ◌>>=◌
resume_request_job-IsSound c job_id actor_id = record {
  kept = λ s h.
      resume_loaded-IsSound c (get_job job_id s.live) actor_id s h
        λ j e. record { sound = h; current = IsCurrent-of_get job_id j s.live e };
}

request_transition-IsSound :
    (r : WorkRequest) (target : WorkRequestStatus)
    → Keeps IsSoundSession (apply_work_request_transition r target)
unfolding apply_work_request_transition
request_transition-IsSound r target = search serve_rules depth 16

review-IsSound :
    (c : Context) (request_id : ℕ) (approve : Bool) (actor_id : Option ℕ)
    → Keeps IsSoundSession (review_work_request c request_id approve actor_id)
unfolding review_work_request load_request
review-IsSound c request_id approve actor_id =
    search (serve_rules, request_transition-IsSound, resume_request_job-IsSound) depth 20

review_request-IsSound :
    (c : Context) (request_id : ℕ) (approve : Bool) (actor_id : Option ℕ) (db : Db)
    → IsSound db
    → IsSound (request (review_work_request c request_id approve actor_id) db).1
unfolding request
review_request-IsSound c request_id approve actor_id db h =
    let s : Session Db = record { saved = db; live = db } in
    ((review-IsSound c request_id approve actor_id).kept s (record { saved = h; live = h })).saved

-- A command that the API lets through: its schema refuses an empty note.
abbrev pub IsAccepted : Command → Type 0
IsAccepted (note job_id worker_id actor_id field notes target) = is_present (some notes) ≡ true
IsAccepted (move job_id target actor) = Unit
IsAccepted (request_work job_id payload worker_id) = Unit
IsAccepted (decide request_id approve customer_id) = Unit
IsAccepted (review request_id approve actor_id) = Unit

database_of_answer : {A : Type 0} (r : Outcome A × Db) → (answer r).1 ≡ r.1
database_of_answer (ok a, db) = refl
database_of_answer (err e, db) = refl

run-IsSound :
    (c : Context) (command : Command) (db : Db)
    → IsAccepted command
    → IsSound db
    → IsSound (run c command db).1
unfolding run
run-IsSound c (move job_id target actor) db a h =
    rw database_of_answer (transition-IsSound c job_id target actor db h)
run-IsSound c (note job_id worker_id actor_id field notes target) db a h =
    rw database_of_answer
      (technician_note_transition-IsSound c job_id worker_id actor_id field notes target db h a)
run-IsSound c (request_work job_id payload worker_id) db a h =
    rw database_of_answer (request_work-IsSound c job_id payload worker_id db h)
run-IsSound c (decide request_id approve customer_id) db a h =
    rw database_of_answer (decide-IsSound c request_id approve customer_id db h)
run-IsSound c (review request_id approve actor_id) db a h =
    rw database_of_answer (review_request-IsSound c request_id approve actor_id db h)

-- The requests of a day, each in the surroundings that it meets.
pub serve : List (Context × Command) → Db → Db
serve [] db = db
serve ((c, command) ∷ rest) db = serve rest (run c command db).1

-- From a database whose jobs are sound, every sequence of accepted commands on jobs and work
-- requests leaves one whose jobs are sound: each version counts the transitions in the log, and a
-- completed job has its vendor, its worker and both notes.
pub serve-IsSound :
    (requests : List (Context × Command)) (db : Db)
    → All (λ r. IsAccepted r.1) requests
    → IsSound db
    → IsSound (serve requests db)
unfolding serve
serve-IsSound [] db a h = h
serve-IsSound ((c, command) ∷ rest) db a h =
    serve-IsSound rest (run c command db).1 a.1 (run-IsSound c command db a.0 h)
