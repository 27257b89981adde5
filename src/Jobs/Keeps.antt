-- ===== src/Jobs/Keeps.antt =====
-- What a transition keeps of the session: what its one write keeps.
use breero_com.Prelude.{arith, ◌≡◌, ◌⊎◌}
use breero_com.Models.{Db, Job, JobEvent, JobStatus}
use breero_com.Context.{Context}
use breero_com.Session.{Session, modify, ◌>>=◌}
use breero_com.Session.Keeps.{Keeps, keeps_rules}
use breero_com.Jobs.{
  Actor, apply_transition, change_status, log_transition, transition_event, transitioned,
  validate_completion,
}

module _ {P : Session Db → Type 0} where
  validate_completion-Keeps : (j : Job) → Keeps P (validate_completion j)
  unfolding validate_completion
  validate_completion-Keeps j = search keeps_rules depth 16

  pub apply_transition-Keeps :
      ((event : JobEvent) (j : Job) → Keeps P (modify (log_transition event j)))
      → (c : Context) (j : Job) (target : JobStatus) (actor : Actor)
      → Keeps P (apply_transition c j target actor)
  unfolding apply_transition change_status
  apply_transition-Keeps logged c j target actor =
      search (keeps_rules, logged, validate_completion-Keeps) depth 16

-- A transition leaves the session as it was, or makes its one write.
pub apply_transition-Logs :
    (c : Context) (j : Job) (target : JobStatus) (actor : Actor) (s : Session Db)
    → ((apply_transition c j target actor s).1 ≡ s)
      ⊎ ((apply_transition c j target actor s).1 ≡ record s {
        live = log_transition (transition_event j target actor) (transitioned c j target) s.live;
      })
unfolding apply_transition change_status validate_completion ◌>>=◌
apply_transition-Logs c j target actor s = ground arith
