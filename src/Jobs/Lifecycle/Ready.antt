-- ===== src/Jobs/Lifecycle/Ready.antt =====
-- A command that has loaded a job, works on other tables, moves the job once, and ends: one rule
-- for each way to build it.
use breero_com.Prelude.{Bool, false, if◌then◌else◌, true, ◌≡◌}
use breero_com.Models.{Db, Job, JobStatus}
use breero_com.Context.{Context}
use breero_com.Session.{Outcome, Session, Tx, commit, continue, err, modify, ok, when, ◌>>=◌}
use breero_com.Session.Keeps.{Keeps, Keeps-modify, keeps_rules}
use breero_com.Jobs.{Actor, apply_transition}
use breero_com.Jobs.Lifecycle.Steps.{
  IsCurrent, IsSoundSession, IsSound-of_same, apply_transition-IsSound, apply_transition_saved,
}

pub record IsReady (j : Job) (s : Session Db) : Type 0 where
  pub sound : IsSoundSession s
  pub current : IsCurrent j s.live

-- `m` keeps every job sound, if it starts with `j` loaded.
pub record IsMoving {A : Type 0} (j : Job) (m : Tx Db A) : Type 0 where
  pub kept : (s : Session Db) → IsReady j s → IsSoundSession (m s).1

-- A write that leaves the jobs and their log alone.
pub record IsElsewhere (f : Db → Db) : Type 0 where
  pub jobs : (db : Db) → (f db).jobs ≡ db.jobs
  pub job_events : (db : Db) → (f db).job_events ≡ db.job_events

pub Ready-modify : (j : Job) (f : Db → Db) → IsElsewhere f → Keeps (IsReady j) (modify f)
Ready-modify j f same = Keeps-modify f λ s h. record {
  sound = record {
    saved = h.sound.saved;
    live =
        IsSound-of_same (f s.live) s.live (same.jobs s.live) (same.job_events s.live) h.sound.live;
  };
  current = rw (same.jobs s.live) h.current;
}

pub Sound-modify : (f : Db → Db) → IsElsewhere f → Keeps IsSoundSession (modify f)
Sound-modify f same = Keeps-modify f λ s h. record {
  saved = h.saved;
  live = IsSound-of_same (f s.live) s.live (same.jobs s.live) (same.job_events s.live) h.live;
}

pub Sound-commit : Keeps IsSoundSession commit
unfolding ◌>>=◌
Sound-commit = record { kept = λ s h. record { saved = h.live; live = h.live } }

module _ {A B : Type 0} where
  moving_then :
      (r : Outcome A) (f : A → Tx Db B) (s : Session Db)
      → IsSoundSession s
      → ((a : A) → Keeps IsSoundSession (f a))
      → IsSoundSession (continue r f s).1
  moving_then (ok a) f s h kf = (kf a).kept s h
  moving_then (err e) f s h kf = h

module _ {j : Job} where
  pub IsMoving-apply :
      (c : Context) (target : JobStatus) (actor : Actor)
      → IsMoving j (apply_transition c j target actor)
  IsMoving-apply c target actor = record {
    kept = λ s h. record {
      saved = rw (apply_transition_saved c j target actor s) h.sound.saved;
      live = apply_transition-IsSound c j target actor s h.sound.live h.current;
    };
  }

  module _ {A B : Type 0} where
    -- The job is moved, and what follows keeps every job sound.
    pub IsMoving-then :
        (m : Tx Db A) (f : A → Tx Db B)
        → IsMoving j m
        → ((a : A) → Keeps IsSoundSession (f a))
        → IsMoving j (m >>= f)
    unfolding ◌>>=◌
    IsMoving-then m f mm kf = record {
      kept = λ s h. moving_then (m s).0 f (m s).1 (mm.kept s h) kf;
    }

    ready_then :
        (r : Outcome A) (f : A → Tx Db B) (s : Session Db)
        → IsReady j s
        → ((a : A) → IsMoving j (f a))
        → IsSoundSession (continue r f s).1
    ready_then (ok a) f s h mf = (mf a).kept s h
    ready_then (err e) f s h mf = h.sound

    -- Something else is done, and then the job is moved.
    pub IsMoving-bind :
        (m : Tx Db A) (f : A → Tx Db B)
        → Keeps (IsReady j) m
        → ((a : A) → IsMoving j (f a))
        → IsMoving j (m >>= f)
    unfolding ◌>>=◌
    IsMoving-bind m f km mf = record { kept = λ s h. ready_then (m s).0 f (m s).1 (km.kept s h) mf }

  module _ {A : Type 0} where
    pub IsMoving-if :
        (b : Bool) (m n : Tx Db A) → IsMoving j m → IsMoving j n → IsMoving j (if b then m else n)
    IsMoving-if true m n am an = am
    IsMoving-if false m n am an = an

  pub IsMoving-when : (b : Bool) (m : Tx Db (Unit {0})) → IsMoving j m → IsMoving j (when b m)
  unfolding ◌>>=◌
  IsMoving-when true m am = record { kept = am.kept }
  IsMoving-when false m am = record { kept = λ s h. h.sound }

pub ruleset moving_rules = (
  keeps_rules, Ready-modify, Sound-modify, Sound-commit, IsMoving-apply, IsMoving-then,
  IsMoving-bind, IsMoving-if, IsMoving-when,
)
