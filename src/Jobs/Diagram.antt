-- ===== src/Jobs/Diagram.antt =====
-- The diagram of a job's states (`TRANSITIONS`), read by phases.
use breero_com.Jobs.Lifecycle.Frame.{record_completion_effects-SameJobs}
use breero_com.Session.Keeps.{Keeps-when}
use breero_com.Prelude.{
  Bool, arith, nat_eq, one_of, some, true, ℕ, ◌+◌, ◌≡◌, ◌≤◌, ◌⊎◌, ap, get-put, get_key, refl, ◌&&◌,
  ◌==◌, sym, ◌∙◌,
}
use breero_com.Models.{Db, Job, JobStatus, job_status_eq}
use breero_com.Errors.{job_not_found}
use breero_com.Context.{Context}
use breero_com.Session.{Outcome, Session, continue, err, ok, request, returned, when, ◌>>=◌}
use breero_com.Session.Rules.{after_require}
use breero_com.Jobs.{
  Actor, apply_transition, finish_transition, get_job, load_job, transition, transitioned,
  transitions, validate_completion, change_status, log_transition, job_id_of,
  record_completion_effects,
}

-- How far the work on a job has come.
abbrev pub phase : JobStatus → ℕ
phase JobStatus.created = 0
phase JobStatus.matching = 1
phase JobStatus.offered = 1
phase JobStatus.assigned = 2
phase JobStatus.en_route = 3
phase JobStatus.on_site = 4
phase JobStatus.diagnosing = 5
phase JobStatus.awaiting_approval = 5
phase JobStatus.in_progress = 5
phase JobStatus.completed = 6
phase JobStatus.cancelled = 7

abbrev pub IsClosed : JobStatus → Type 0
IsClosed status = (status ≡ JobStatus.completed) ⊎ (status ≡ JobStatus.cancelled)

-- What a transition may do to the state of a job.
abbrev pub Moves : JobStatus → JobStatus → Type 0
Moves from to =
    (from ≡ to)
    ⊎ ((¬ IsClosed from)
        × ((to ≡ JobStatus.cancelled) ⊎ ((phase from ≤ phase to) × (phase to ≤ phase from + 1))))

listed-Moves : (from to : JobStatus) → one_of to (transitions from) ≡ true → Moves from to
listed-Moves from to h = ground arith

validated_same : (b : Bool) (j : Job) (s : Session Db) → (when b (validate_completion j) s).1 ≡ s
unfolding validate_completion ◌>>=◌
validated_same b j s = ground arith

-- What a transition that returns has done to the row.
apply_transition_moved :
    (c : Context) (j : Job) (target : JobStatus) (actor : Actor) (s : Session Db) (j' : Job)
    (changed : Bool)
    → (apply_transition c j target actor s).0 ≡ ok (j', changed)
    → (j'.status ≡ target) × Moves j.status target
unfolding apply_transition ◌>>=◌ transitioned
apply_transition_moved c j target actor s j' changed h =
    ground (arith, listed-Moves j.status target, job_status_eq.equal_iff target j.status)

-- ... and where the row is then found.
apply_transition_stored :
    (c : Context) (k : ℕ) (j : Job) (target : JobStatus) (actor : Actor) (s : Session Db) (j' : Job)
    (changed : Bool)
    → get_job k s.live ≡ some j
    → (apply_transition c j target actor s).0 ≡ ok (j', changed)
    → get_job k (apply_transition c j target actor s).1.live ≡ some j'
unfolding apply_transition change_status log_transition validate_completion transitioned ◌>>=◌
apply_transition_stored c k j target actor s j' changed found h = ground (
  arith,
  get_key job_id_of k s.live.jobs j found,
  get-put job_id_of (transitioned c j target) k s.live.jobs,
)

finish_transition_stored :
    (c : Context) (k : ℕ) (target : JobStatus) (j : Job) (b : Bool) (s : Session Db) (x : Job)
    → get_job k s.live ≡ some j
    → (finish_transition c target (j, b) s).0 ≡ ok x
    → get_job k (finish_transition c target (j, b) s).1.saved ≡ some j
unfolding finish_transition ◌>>=◌
finish_transition_stored c k target j b s x found h =
    let same =
      ((Keeps-when (b && target == JobStatus.completed) (record_completion_effects c j)
          (record_completion_effects-SameJobs s c j)).kept
        s (record { saved = refl; jobs = refl; job_events = refl })).jobs in
    ground (arith, same)

finish_transition_returns :
    (c : Context) (target : JobStatus) (j : Job) (b : Bool) (s : Session Db) (x : Job)
    → (finish_transition c target (j, b) s).0 ≡ ok x
    → x ≡ j
unfolding finish_transition ◌>>=◌
finish_transition_returns c target j b s x h = ground arith

move_returns :
    (c : Context) (target : JobStatus) (r : Outcome (Job × Bool)) (s : Session Db) (x : Job)
    → (continue r (finish_transition c target) s).0 ≡ ok x
    → (b : Bool) × (r ≡ ok (x, b))
move_returns c target (ok (j, b)) s x h = (b, cc (finish_transition_returns c target j b s x h))
move_returns c target (err e) s x h = absurd (ground arith)

outcome_of_returned : {A : Type 0} (r : Outcome A × Db) (a : A) → returned r ≡ some a → r.0 ≡ ok a
outcome_of_returned (ok a', db) a h = ground arith
outcome_of_returned (err e, db) a h = cc

moved_result :
    (c : Context) (k : ℕ) (x j : Job) (target : JobStatus) (actor : Actor) (s : Session Db)
    (j' : Job)
    → x ≡ j
    → get_job k s.live ≡ some x
    → let t = (apply_transition c x target actor >>= finish_transition c target) s in
      t.0 ≡ ok j' → (get_job k t.1.saved ≡ some j') × (j'.status ≡ target) × Moves j.status target
unfolding ◌>>=◌
moved_result c k x j target actor s j' same found h =
    let applied = apply_transition c x target actor s in
    let (b, e) = move_returns c target applied.0 applied.1 j' h in
    let ran : (continue applied.0 (finish_transition c target) applied.1)
        ≡ finish_transition c target (j', b) applied.1 =
      ap (λ r. continue r (finish_transition c target) applied.1) e in
    let (status, moves) = apply_transition_moved c x target actor s j' b e in
    (
      rw ran (
          finish_transition_stored c k target j' b applied.1 j'
            (apply_transition_stored c k x target actor s j' b found e)
            (sym (ap (λ t. t.0) ran) ∙ h)),
      status,
      rw (← same) moves,
    )

-- A request that moves a job and returns has put it in the state that was asked for: what it returns
-- is the row that is stored, and is in that state. If that is another state than before, the job was neither completed nor cancelled, and it is cancelled, stays in its
-- phase, or comes one phase further: no phase is skipped and none is gone back to.
pub transition-Moves :
    (c : Context) (job_id : ℕ) (target : JobStatus) (actor : Actor) (db : Db) (j j' : Job)
    → get_job job_id db ≡ some j
    → let r = request (transition c job_id target actor) db in
      returned r ≡ some j'
      → (get_job job_id r.1 ≡ some j') × (j'.status ≡ target) × Moves j.status target
unfolding transition load_job request ◌>>=◌
transition-Moves c job_id target actor db j j' found h =
    let s : Session Db = record { saved = db; live = db } in
    after_require
      (λ r.
        returned (r.0, r.1.saved) ≡ some j'
        → (get_job job_id r.1.saved ≡ some j') × (j'.status ≡ target) × Moves j.status target)
      (get_job job_id db) job_not_found
      (λ x. apply_transition c x target actor >>= finish_transition c target) s
      (λ missing. absurd (ground arith))
      (λ x e returns.
        moved_result c job_id x j target actor s j' (ground arith) e
          (outcome_of_returned _ j' returns))
      h
