-- ===== src/Payments/Settle/OneJob.antt =====
-- apps/api/app/domains/payments/service.py, `_settle`: the jobs of a booking.
use breero_com.Prelude.{
  Bool, List, Option, [], arith, count, count-append, count-put, false, find, get_key, inl, inr,
  is_some, nat_eq, none, not, option_eq, refl, some, true, ℕ, ◌==◌, ◌∷◌, ◌≡◌, ◌≤◌,
}
use breero_com.Models.{Booking, Db, Job, JobEvent, JobStatus, job_status_eq}
use breero_com.Context.{Context}
use breero_com.Session.{
  Outcome, Session, Tx, commit, continue, err, modify, ok, pure, rollback, when, ◌>>=◌,
}
use breero_com.Session.Keeps.{Keeps, Keeps-modify}
use breero_com.Jobs.{
  apply_transition, get_job, job_id_of, log_transition, transition_event, transitioned,
}
use breero_com.Jobs.Keeps.{apply_transition-Logs}
use breero_com.Payments.Settle.{
  create_job, create_missing_job, job_for_booking, new_job, resume_paid, resume_paid_job,
  system_actor,
}
use breero_com.Payments.Settle.Keeps.{SettleKeeps}

abbrev pub of_booking : ℕ → Job → Bool
of_booking booking_id j = j.booking_id == booking_id

pub record IsOneJob (db : Db) : Type 0 where
  pub at_most_one : (booking_id : ℕ) → count (of_booking booking_id) db.jobs ≤ 1

pub record IsOneJobSession (s : Session Db) : Type 0 where
  pub saved : IsOneJob s.saved
  pub live : IsOneJob s.live

-- A write that leaves the jobs alone.
pub OneJob-modify :
    (f : Db → Db) → ((db : Db) → (f db).jobs ≡ db.jobs) → Keeps IsOneJobSession (modify f)
OneJob-modify f same = Keeps-modify f λ s h. record {
  saved = h.saved;
  live = record { at_most_one = λ k. rw (same s.live) (h.live.at_most_one k) };
}

pub OneJob-commit : Keeps IsOneJobSession commit
unfolding ◌>>=◌
OneJob-commit = record { kept = λ s h. record { saved = h.live; live = h.live } }

pub OneJob-rollback : Keeps IsOneJobSession rollback
unfolding ◌>>=◌
OneJob-rollback = record { kept = λ s h. record { saved = h.saved; live = h.saved } }

count-none :
    (booking_id : ℕ) (js : List Job)
    → find (of_booking booking_id) js ≡ none
    → count (of_booking booking_id) js ≡ 0
count-none booking_id [] h = refl
count-none booking_id (j ∷ js) h = ground (arith, count-none booking_id js)

-- A job that is loaded and written back is of the same booking.
moved-IsOneJob :
    (c : Context) (j : Job) (target : JobStatus) (event : JobEvent) (s : Session Db)
    → get_job j.id s.live ≡ some j
    → IsOneJobSession s
    → IsOneJobSession (record s { live = log_transition event (transitioned c j target) s.live })
unfolding log_transition transitioned
moved-IsOneJob c j target event s found h = record {
  saved = h.saved;
  live = record {
    at_most_one = λ k.
        rw (count-put job_id_of (of_booking k) (transitioned c j target) j s.live.jobs found refl)
          (h.live.at_most_one k);
  };
}

after_continue-pure :
    (r : Outcome (Job × Bool)) (s : Session Db)
    → IsOneJobSession s
    → IsOneJobSession (continue r (λ _. pure tt) s).1
unfolding ◌>>=◌
after_continue-pure (ok a) s h = h
after_continue-pure (err e) s h = h

after_when :
    (b : Bool) (m : Tx Db (Job × Bool)) (s : Session Db)
    → IsOneJobSession s
    → IsOneJobSession (m s).1
    → IsOneJobSession (when b (m >>= λ _. pure tt) s).1
unfolding ◌>>=◌
after_when true m s h after = after_continue-pure (m s).0 (m s).1 after
after_when false m s h after = h

resumed-IsOneJob :
    (c : Context) (j : Job) (s : Session Db)
    → get_job j.id s.live ≡ some j
    → IsOneJobSession s
    → IsOneJobSession (resume_paid c (some j) s).1
unfolding resume_paid ◌>>=◌
resumed-IsOneJob c j s found h =
    after_when (j.status == JobStatus.awaiting_approval)
      (apply_transition c j JobStatus.in_progress system_actor) s h
      (elim (apply_transition-Logs c j JobStatus.in_progress system_actor s) [
        | inl kept ↦ rw kept h
        | inr moved ↦ rw moved (
            moved-IsOneJob c j JobStatus.in_progress
              (transition_event j JobStatus.in_progress system_actor) s found h)
      ])

created-IsOneJob :
    (c : Context) (b : Booking) (s : Session Db)
    → job_for_booking b.id s.live ≡ none
    → IsOneJobSession s
    → IsOneJobSession (record s { live = create_job c b s.live })
unfolding create_job new_job
created-IsOneJob c b s fresh h = record {
  saved = h.saved;
  live = record {
    at_most_one = λ k. ground (
      arith,
      h.live.at_most_one k,
      count-append (of_booking k) s.live.jobs (new_job c b ∷ []),
      count-none k s.live.jobs,
    );
  };
}

resumed_or_kept :
    (c : Context) (job_id : ℕ) (o : Option Job) (s : Session Db)
    → get_job job_id s.live ≡ o
    → IsOneJobSession s
    → IsOneJobSession (resume_paid c o s).1
unfolding resume_paid ◌>>=◌
resumed_or_kept c job_id none s found h = h
resumed_or_kept c job_id (some j) s found h =
    resumed-IsOneJob c j s (simp (get_key job_id_of job_id s.live.jobs j found) found) h

resume_paid_job-IsOneJob :
    (c : Context) (job_id : ℕ) → Keeps IsOneJobSession (resume_paid_job c job_id)
unfolding resume_paid_job ◌>>=◌
resume_paid_job-IsOneJob c job_id = record {
  kept = λ s h. resumed_or_kept c job_id (get_job job_id s.live) s refl h;
}

created_or_kept :
    (c : Context) (b : Booking) (o : Option Job) (s : Session Db)
    → job_for_booking b.id s.live ≡ o
    → IsOneJobSession s
    → IsOneJobSession (when (not (is_some o)) (modify (create_job c b)) s).1
unfolding ◌>>=◌
created_or_kept c b none s fresh h = created-IsOneJob c b s fresh h
created_or_kept c b (some j) s found h = h

create_missing_job-IsOneJob :
    (c : Context) (b : Booking) → Keeps IsOneJobSession (create_missing_job c b)
unfolding create_missing_job ◌>>=◌
create_missing_job-IsOneJob c b = record {
  kept = λ s h. created_or_kept c b (job_for_booking b.id s.live) s refl h;
}

pub one_job : SettleKeeps IsOneJobSession
one_job = record {
  purchase = λ p. OneJob-modify _ (λ db. refl);
  lead = λ l. OneJob-modify _ (λ db. refl);
  request = λ r. OneJob-modify _ (λ db. refl);
  booking = λ b. OneJob-modify _ (λ db. refl);
  event = λ e. OneJob-modify _ (λ db. refl);
  paid_job = resume_paid_job-IsOneJob;
  missing_job = create_missing_job-IsOneJob;
}
