-- ===== src/Jobs/Lifecycle/Steps.antt =====
-- The steps of the job commands, one by one.
use breero_com.Prelude.{
  List, String, [], add, arith, count, count-append, get-put, get_key, if◌then◌else◌, is_present,
  nat_eq, option_eq, refl, some, string_eq, true, ℕ, ◌+◌, ◌==◌, ◌∷◌, ◌≡◌,
}
use breero_com.Models.{Db, Job, JobEvent, JobStatus, job_status_eq}
use breero_com.Context.{Context}
use breero_com.Session.{Session, ok, ◌>>=◌}
use breero_com.Jobs.{
  Actor, NotesField, apply_transition, completion_notes, diagnostic_notes, get_job, job_id_of,
  log_transition, put_job, transition_event, transitioned, validate_completion, with_notes,
}
use breero_com.Jobs.Lifecycle.{IsDocumented, IsSound, is_move}

-- The row that a command works on is the one in the table.
abbrev pub IsCurrent : Job → Db → Type 0
IsCurrent j db = get_job j.id db ≡ some j

get_job-put_job :
    (j j' : Job) (k : ℕ) (db : Db)
    → IsCurrent j db
    → j'.id ≡ j.id
    → get_job k (put_job j' db) ≡ (if j.id == k then some j' else get_job k db)
get_job-put_job j j' k db cur same = ground (arith, get-put job_id_of j' k db.jobs)

count-log :
    (k : ℕ) (e : JobEvent) (es : List JobEvent)
    → count (is_move k) (add e es) ≡ count (is_move k) es + (if is_move k e then 1 else 0)
count-log k e es = ground (arith, count-append (is_move k) es (e ∷ []))

pub log_transition-IsSound :
    (c : Context) (j : Job) (target : JobStatus) (actor : Actor) (db : Db)
    → IsSound db
    → IsCurrent j db
    → (target ≡ JobStatus.completed → IsDocumented j)
    → IsSound (log_transition (transition_event j target actor) (transitioned c j target) db)
unfolding log_transition transition_event transitioned
log_transition-IsSound c j target actor db h cur doc = record {
  logged = λ k x p. ground (
    arith,
    h.logged k x,
    h.logged k j,
    get_job-put_job j (transitioned c j target) k db cur,
    count-log k (transition_event j target actor) db.job_events,
  );
  documented = λ k x p done.
      ground (arith, h.documented k x, get_job-put_job j (transitioned c j target) k db cur, doc);
}

pub with_notes_id :
    (field : NotesField) (notes : String) (j : Job) → (with_notes field notes j).id ≡ j.id
with_notes_id diagnostic_notes notes j = refl
with_notes_id completion_notes notes j = refl

pub with_notes-IsSound :
    (field : NotesField) (notes : String) (j : Job) (db : Db)
    → IsSound db
    → IsCurrent j db
    → is_present (some notes) ≡ true
    → IsSound (put_job (with_notes field notes j) db)
with_notes-IsSound diagnostic_notes notes j db h cur given = record {
  logged = λ k x p. ground (
    arith,
    h.logged k x,
    h.logged k j,
    get_job-put_job j (with_notes diagnostic_notes notes j) k db cur,
  );
  documented = λ k x p done. ground (
    arith,
    h.documented k x,
    h.documented k j,
    get_job-put_job j (with_notes diagnostic_notes notes j) k db cur,
  );
}
with_notes-IsSound completion_notes notes j db h cur given = record {
  logged = λ k x p. ground (
    arith,
    h.logged k x,
    h.logged k j,
    get_job-put_job j (with_notes completion_notes notes j) k db cur,
  );
  documented = λ k x p done. ground (
    arith,
    h.documented k x,
    h.documented k j,
    get_job-put_job j (with_notes completion_notes notes j) k db cur,
  );
}

-- Both the durable and the visible state are sound.
pub record IsSoundSession (s : Session Db) : Type 0 where
  pub saved : IsSound s.saved
  pub live : IsSound s.live

IsDocumented-of_validated :
    (j : Job) (s : Session Db) → (validate_completion j s).0 ≡ ok tt → IsDocumented j
unfolding validate_completion ◌>>=◌
IsDocumented-of_validated j s h = ground arith

validate_completion_same : (j : Job) (s : Session Db) → (validate_completion j s).1 ≡ s
unfolding validate_completion ◌>>=◌
validate_completion_same j s = ground arith

pub apply_transition-IsSound :
    (c : Context) (j : Job) (target : JobStatus) (actor : Actor) (s : Session Db)
    → IsSound s.live
    → IsCurrent j s.live
    → IsSound (apply_transition c j target actor s).1.live
unfolding apply_transition ◌>>=◌
apply_transition-IsSound c j target actor s h cur = grind (
  arith,
  log_transition-IsSound c j target actor s.live h cur,
  IsDocumented-of_validated j s,
  validate_completion_same j s,
)

pub apply_transition_saved :
    (c : Context) (j : Job) (target : JobStatus) (actor : Actor) (s : Session Db)
    → (apply_transition c j target actor s).1.saved ≡ s.saved
unfolding apply_transition ◌>>=◌
apply_transition_saved c j target actor s = ground (arith, validate_completion_same j s)

pub IsSound-of_same :
    (d db : Db) → d.jobs ≡ db.jobs → d.job_events ≡ db.job_events → IsSound db → IsSound d
IsSound-of_same d db p q h = record {
  logged = λ k x e. rw q (h.logged k x (cc));
  documented = λ k x e. h.documented k x (cc);
}

-- A row that was looked up is current.
pub IsCurrent-of_get : (k : ℕ) (j : Job) (db : Db) → get_job k db ≡ some j → IsCurrent j db
IsCurrent-of_get k j db e = simp (get_key job_id_of k db.jobs j e) e

pub put_job-IsCurrent :
    (j j' : Job) (db : Db) → IsCurrent j db → j'.id ≡ j.id → IsCurrent j' (put_job j' db)
put_job-IsCurrent j j' db cur same = ground (arith, get_job-put_job j j' j'.id db cur same)
