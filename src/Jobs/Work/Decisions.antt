-- ===== src/Jobs/Work/Decisions.antt =====
-- apps/api/app/domains/jobs/service.py: `decide_work_request`, and a decision after it.
use breero_com.Prelude.{Bool, arith, get-put, is_some, nat_eq, option_eq, some, true, ℕ, ◌≡◌}
use breero_com.Models.{Db, WorkRequest, job_status_eq}
use breero_com.Context.{Context}
use breero_com.Session.{Session}
use breero_com.Session.Keeps.{Keeps}
use breero_com.Jobs.Work.{decided_status, get_request, put_request, request_id_of}

record SameRequests (base s : Session Db) : Type 0 where
  work_requests : s.live.work_requests ≡ base.live.work_requests

-- The decision, as it is stored.
pub decision : Context → Bool → WorkRequest → WorkRequest
decision c approve r = record r {
  status = decided_status c approve;
  customer_decided_at = some c.now;
}

pub put_request_found :
    (r : WorkRequest) (k : ℕ) (db : Db)
    → r.id ≡ k
    → is_some (get_request k db) ≡ true
    → get_request k (put_request r db) ≡ some r
put_request_found r k db same h = ground (arith, get-put request_id_of r k db.work_requests)
