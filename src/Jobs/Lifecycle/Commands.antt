-- ===== src/Jobs/Lifecycle/Commands.antt =====
-- apps/api/app/domains/jobs/service.py: `transition` and `technician_note_transition` as whole
-- requests.
use breero_com.Prelude.{
  Bool, String, arith, is_present, nat_eq, option_eq, refl, some, string_eq, true, ℕ, ◌==◌, ◌≡◌,
}
use breero_com.Models.{Db, Job, JobStatus, job_status_eq}
use breero_com.Errors.{job_not_found, technician_not_assigned}
use breero_com.Context.{Context}
use breero_com.Session.{Session, request, ◌>>=◌}
use breero_com.Session.Rules.{after_continue, after_guard, after_require}
use breero_com.Jobs.{
  Actor, NotesField, apply_transition, finish_transition, get_job, load_job, note_actor, put_job,
  record_completion_effects, technician_note_transition, transition, with_notes,
}
use breero_com.Jobs.Lifecycle.{IsSound}
use breero_com.Jobs.Lifecycle.Steps.{
  IsCurrent, IsCurrent-of_get, IsSoundSession, IsSound-of_same, apply_transition-IsSound,
  apply_transition_saved, put_job-IsCurrent, with_notes-IsSound, with_notes_id,
}
use breero_com.Jobs.Lifecycle.Frame.{record_completion_effects-SameJobs}

record_completion_effects-IsSound :
    (c : Context) (j : Job) (s : Session Db)
    → IsSoundSession s
    → IsSoundSession (record_completion_effects c j s).1
record_completion_effects-IsSound c j s h =
    let same =
      (record_completion_effects-SameJobs s c j).kept s
        (record { saved = refl; jobs = refl; job_events = refl }) in
    record {
      saved = rw same.saved h.saved;
      live = IsSound-of_same _ s.live same.jobs same.job_events h.live;
    }

finish_transition-IsSound :
    (c : Context) (target : JobStatus) (moved : Job × Bool) (s : Session Db)
    → IsSoundSession s
    → IsSound (finish_transition c target moved s).1.saved
unfolding finish_transition ◌>>=◌
finish_transition-IsSound c target (j, changed) s h =
    ground (arith, record_completion_effects-IsSound c j s h)

-- From a current row in a sound session, moving it and finishing leaves the saved state sound.
move-IsSound :
    (c : Context) (j : Job) (target : JobStatus) (actor : Actor) (s : Session Db)
    → IsSoundSession s
    → IsCurrent j s.live
    → IsSound ((apply_transition c j target actor >>= finish_transition c target) s).1.saved
unfolding ◌>>=◌
move-IsSound c j target actor s h cur =
    let kept : IsSoundSession (apply_transition c j target actor s).1 = record {
      saved = rw (apply_transition_saved c j target actor s) h.saved;
      live = apply_transition-IsSound c j target actor s h.live cur;
    } in
    after_continue (λ r. IsSound r.1.saved) (apply_transition c j target actor s).0
      (finish_transition c target) (apply_transition c j target actor s).1 (λ e _. kept.saved)
      (λ moved _. finish_transition-IsSound c target moved _ kept)

-- A request to move a job leaves every job sound, whatever it answers.
pub transition-IsSound :
    (c : Context) (job_id : ℕ) (target : JobStatus) (actor : Actor) (db : Db)
    → IsSound db
    → IsSound (request (transition c job_id target actor) db).1
unfolding transition load_job request ◌>>=◌
transition-IsSound c job_id target actor db h =
    let s : Session Db = record { saved = db; live = db } in
    after_require (λ r. IsSound r.1.saved) (get_job job_id db) job_not_found
      (λ j. apply_transition c j target actor >>= finish_transition c target) s h
      (λ j found.
        move-IsSound c j target actor s (record { saved = h; live = h })
          (IsCurrent-of_get job_id j db found))

-- So does a technician's note, which is never empty (`TechnicianNoteRequest`).
pub technician_note_transition-IsSound :
    (c : Context) (job_id worker_id actor_id : ℕ) (field : NotesField) (notes : String)
    (target : JobStatus) (db : Db)
    → IsSound db
    → is_present (some notes) ≡ true
    → IsSound
        (request (technician_note_transition c job_id worker_id actor_id field notes target) db).1
unfolding technician_note_transition load_job request ◌>>=◌
technician_note_transition-IsSound c job_id worker_id actor_id field notes target db h given =
    let s : Session Db = record { saved = db; live = db } in
    after_require (λ r. IsSound r.1.saved) (get_job job_id db) technician_not_assigned _ s h
      λ j found.
        after_guard (λ r. IsSound r.1.saved) (j.worker_id == some worker_id) technician_not_assigned
          _ s (λ _. h)
          λ _.
            let cur : IsCurrent j db = IsCurrent-of_get job_id j db found in
            let noted : Session Db = record {
              saved = db;
              live = put_job (with_notes field notes j) db;
            } in
            move-IsSound c (with_notes field notes j) target (note_actor actor_id field) noted
              (record { saved = h; live = with_notes-IsSound field notes j db h cur given })
              (put_job-IsCurrent j (with_notes field notes j) db cur (with_notes_id field notes j))
