-- ===== src/Finance/Payouts/Ledger.antt =====
-- apps/api/app/domains/finance/service.py: the earnings of a job under the commands that write
-- earnings.
use breero_com.Prelude.{
  Bool, List, Option, String, [], add, arith, count, count-append, count-put, find, get, get_key,
  inl, inr, nat_eq, none, option_eq, refl, some, string_eq, update, ℕ, ◌==◌, ◌∷◌, ◌≡◌, ◌≤◌, ◌⊎◌,
}
use breero_com.Prelude.Int.{ℤ}
use breero_com.Models.{Db, EarningAdjustment, Job, PayoutBatch, VendorEarning}
use breero_com.Errors.{earning_not_found, plan_not_configured}
use breero_com.Context.{Context, record_audit}
use breero_com.Session.{Session, Tx, commit, found_or, gets, lift, modify, pure, ◌>>=◌}
use breero_com.Session.Keeps.{Keeps, Keeps-modify, keeps_rules}
use breero_com.Session.Rules.{after_lift, after_require}
use breero_com.Finance.{
  active_plan, create_earning, earning_for_job, new_earning, recognize_earning, service_rate_for,
  store_earning,
}
use breero_com.Finance.Compensation.{calculate_compensation}
use breero_com.Finance.Payouts.{
  adjust_earning, adjust_loaded, adjust_row, adjusted, apply_adjustment, batch_up, create_batch,
  earning_id_of, find_adjustment, in_batch, is_due, is_payable, make_available, release_due,
  release_eligible,
}

abbrev pub of_job : ℕ → VendorEarning → Bool
of_job job_id e = e.job_id == job_id

pub record IsUnique (db : Db) : Type 0 where
  pub at_most_one : (job_id : ℕ) → count (of_job job_id) db.earnings ≤ 1

pub record IsUniqueSession (s : Session Db) : Type 0 where
  pub saved : IsUnique s.saved
  pub live : IsUnique s.live

count-none :
    (job_id : ℕ) (es : List VendorEarning)
    → find (of_job job_id) es ≡ none
    → count (of_job job_id) es ≡ 0
count-none job_id [] h = refl
count-none job_id (e ∷ es) h = ground (arith, count-none job_id es)

count-update :
    (p q : VendorEarning → Bool) (f : VendorEarning → VendorEarning) (es : List VendorEarning)
    → ((e : VendorEarning) → q (f e) ≡ q e)
    → count q (update p f es) ≡ count q es
count-update p q f [] same = refl
count-update p q f (e ∷ es) same = ground (arith, same e, count-update p q f es same)

-- A write that leaves the earnings alone, or changes earnings without moving them to other jobs.
pub Unique-modify :
    (f : Db → Db)
    → ((db : Db) (k : ℕ) → count (of_job k) (f db).earnings ≡ count (of_job k) db.earnings)
    → Keeps IsUniqueSession (modify f)
Unique-modify f same = Keeps-modify f λ s h. record {
  saved = h.saved;
  live = record { at_most_one = λ k. rw (same s.live k) (h.live.at_most_one k) };
}

Unique-commit : Keeps IsUniqueSession commit
unfolding ◌>>=◌
Unique-commit = record { kept = λ s h. record { saved = h.live; live = h.live } }

add_earning-IsUnique :
    (e : VendorEarning) (db d : Db)
    → earning_for_job e.job_id db ≡ none
    → d.earnings ≡ add e db.earnings
    → IsUnique db
    → IsUnique d
add_earning-IsUnique e db d fresh same h = record {
  at_most_one = λ k. ground (
    arith,
    h.at_most_one k,
    count-append (of_job k) db.earnings (e ∷ []),
    count-none k db.earnings,
  );
}

-- What `recognize_earning` may do to the earnings.
abbrev Recognizes : ℕ → Session Db → Session Db → Type 0
Recognizes job_id s s' =
    (s'.saved ≡ s.saved)
    × ((s'.live ≡ s.live)
        ⊎ ((e : VendorEarning) × (e.job_id ≡ job_id) × (s'.live.earnings ≡ add e s.live.earnings)))

create_earning-Recognizes :
    (c : Context) (job : Job) (vendor_id : ℕ) (gross : ℤ) (currency : String) (s : Session Db)
    → Recognizes job.id s (create_earning c job vendor_id gross currency s).1
unfolding create_earning ◌>>=◌
create_earning-Recognizes c job vendor_id gross currency s =
    after_require (λ r. Recognizes job.id s r.1) (active_plan vendor_id c.now s.live)
      plan_not_configured
      (λ plan. gets (service_rate_for plan.id job.service_id) >>= λ rate.
        lift (calculate_compensation plan gross rate)
        >>= store_earning c job vendor_id plan gross currency)
      s (refl, inl refl)
      λ plan _.
        after_lift (λ r. Recognizes job.id s r.1)
          (calculate_compensation plan gross (service_rate_for plan.id job.service_id s.live))
          (store_earning c job vendor_id plan gross currency) s (λ e _. (refl, inl refl))
          (λ k _. (refl, inr (new_earning c job vendor_id plan gross k currency, refl, refl)))

unique_of_Recognizes :
    (job_id : ℕ) (s s' : Session Db)
    → earning_for_job job_id s.live ≡ none
    → IsUniqueSession s
    → Recognizes job_id s s'
    → IsUniqueSession s'
unique_of_Recognizes job_id s s' fresh h (saved, inl same) = record {
  saved = rw saved h.saved;
  live = rw same h.live;
}
unique_of_Recognizes job_id s s' fresh h (saved, inr (e, key, added)) = record {
  saved = rw saved h.saved;
  live = add_earning-IsUnique e s.live s'.live (rw key fresh) added h.live;
}

recognize_or_find-IsUnique :
    (c : Context) (job : Job) (vendor_id : ℕ) (gross : ℤ) (currency : String) (s : Session Db)
    (o : Option VendorEarning)
    → earning_for_job job.id s.live ≡ o
    → IsUniqueSession s
    → IsUniqueSession (found_or o (create_earning c job vendor_id gross currency) s).1
unfolding ◌>>=◌
recognize_or_find-IsUnique c job vendor_id gross currency s none fresh h =
    unique_of_Recognizes job.id s _ fresh h
      (create_earning-Recognizes c job vendor_id gross currency s)
recognize_or_find-IsUnique c job vendor_id gross currency s (some e) found h = h

find_or_create-IsUnique :
    (c : Context) (job : Job) (vendor_id : ℕ) (gross : ℤ) (currency : String)
    → Keeps IsUniqueSession (
        gets (earning_for_job job.id) >>= λ o.
        found_or o (create_earning c job vendor_id gross currency))
unfolding ◌>>=◌
find_or_create-IsUnique c job vendor_id gross currency = record {
  kept = λ s h.
      recognize_or_find-IsUnique c job vendor_id gross currency s (earning_for_job job.id s.live)
        refl h;
}

recognize_earning-IsUnique :
    (c : Context) (job : Job) (gross fee : ℤ) (currency : String)
    → Keeps IsUniqueSession (recognize_earning c job gross fee currency)
unfolding recognize_earning
recognize_earning-IsUnique c job gross fee currency =
    search (keeps_rules, find_or_create-IsUnique) depth 10

release_due-IsUnique :
    (locked : ℕ → Bool) (now : ℕ) → Keeps IsUniqueSession (modify (release_due locked now))
unfolding release_due make_available
release_due-IsUnique locked now =
    Unique-modify (release_due locked now)
      (λ db k. count-update (is_due locked now) (of_job k) make_available db.earnings (λ e. refl))

audit-IsUnique :
    (c : Context) (actor_id : Option ℕ) (action resource_type : String) (resource_id : ℕ)
    → Keeps IsUniqueSession (modify (record_audit c actor_id action resource_type resource_id []))
audit-IsUnique c actor_id action resource_type resource_id = Unique-modify _ (λ db k. refl)

batch_up-IsUnique :
    (c : Context) (locked : ℕ → Bool) (currency : String) (vendor_id : Option ℕ) (b : PayoutBatch)
    → Keeps IsUniqueSession (modify (batch_up c locked currency vendor_id b))
unfolding batch_up in_batch
batch_up-IsUnique c locked currency vendor_id b =
    Unique-modify (batch_up c locked currency vendor_id b) (λ db k.
      count-update (is_payable c locked currency vendor_id) (of_job k) (in_batch b.id) db.earnings
        (λ e. refl))

release-IsUnique :
    (c : Context) (locked : ℕ → Bool) → Keeps IsUniqueSession (release_eligible c locked)
unfolding release_eligible
release-IsUnique c locked = search (keeps_rules, Unique-commit, release_due-IsUnique) depth 10

batch-IsUnique :
    (c : Context) (locked : ℕ → Bool) (currency : String) (vendor_id actor_id : Option ℕ)
    → Keeps IsUniqueSession (create_batch c locked currency vendor_id actor_id)
unfolding create_batch
batch-IsUnique c locked currency vendor_id actor_id =
    search (keeps_rules, Unique-commit, audit-IsUnique, batch_up-IsUnique) depth 16

count-adjust_row :
    (e : VendorEarning) (a : EarningAdjustment) (db : Db) (k : ℕ)
    → get earning_id_of e.id db.earnings ≡ some e
    → count (of_job k) (adjust_row e a db).earnings ≡ count (of_job k) db.earnings
unfolding adjust_row adjusted
count-adjust_row e a db k found =
    count-put earning_id_of (of_job k) (adjusted e a.amount_minor a.adjustment_type) e db.earnings
      found refl

record IsLoaded (e : VendorEarning) (s : Session Db) : Type 0 where
  unique : IsUniqueSession s
  loaded : get earning_id_of e.id s.live.earnings ≡ some e

apply_adjustment-IsUnique :
    (c : Context) (a : EarningAdjustment) (e : VendorEarning) (s : Session Db)
    → IsLoaded e s
    → IsUniqueSession (apply_adjustment c a e s).1
unfolding apply_adjustment ◌>>=◌
apply_adjustment-IsUnique c a e s h =
    let adjusted_unique : IsUnique (adjust_row e a s.live) = record {
      at_most_one = λ k. rw (count-adjust_row e a s.live k h.loaded) (h.unique.live.at_most_one k);
    } in
    let recorded : IsUnique (
        record_audit c a.actor_id "earning.adjustment" "vendor_earning" e.id []
          (adjust_row e a s.live)) =
      record { at_most_one = adjusted_unique.at_most_one } in
    record { saved = recorded; live = recorded }

adjust_once-IsUnique :
    (c : Context) (a : EarningAdjustment) (e : VendorEarning) (o : Option EarningAdjustment)
    (s : Session Db)
    → IsLoaded e s
    → IsUniqueSession (found_or o (apply_adjustment c a e) s).1
unfolding ◌>>=◌
adjust_once-IsUnique c a e none s h = apply_adjustment-IsUnique c a e s h
adjust_once-IsUnique c a e (some old) s h = h.unique

adjust_earning-IsUnique :
    (c : Context) (a : EarningAdjustment) → Keeps IsUniqueSession (adjust_earning c a)
unfolding adjust_earning ◌>>=◌
adjust_earning-IsUnique c a = record {
  kept = λ s h.
      after_require (λ r. IsUniqueSession r.1) (get earning_id_of a.earning_id s.live.earnings)
        earning_not_found (adjust_loaded c a) s h
        (λ e found.
          adjust_once-IsUnique c a e (find_adjustment a.earning_id a.idempotency_key s.live) s
            (record {
              unique = h;
              loaded = simp (get_key earning_id_of a.earning_id s.live.earnings e found) found;
            }));
}

-- The commands that write earnings.
pub data Command : Type 0 where
  recognize : Job → ℤ → ℤ → String → Command
  release : (ℕ → Bool) → Command
  adjust : EarningAdjustment → Command
  batch : (ℕ → Bool) → String → Option ℕ → Option ℕ → Command

pub run : Context → Command → Tx Db (Unit {0})
run c (recognize job gross fee currency) =
    recognize_earning c job gross fee currency >>= λ _. pure tt
run c (release locked) = release_eligible c locked >>= λ _. pure tt
run c (adjust a) = adjust_earning c a >>= λ _. pure tt
run c (batch locked currency vendor_id actor_id) =
    create_batch c locked currency vendor_id actor_id >>= λ _. pure tt

ruleset unique_rules = (
  keeps_rules, recognize_earning-IsUnique, release-IsUnique, adjust_earning-IsUnique,
  batch-IsUnique,
)

-- Where no job has two earnings, in what is saved and in what the session sees, no command on
-- earnings gives a job a second one, whether it returns or raises: not a recognition that is
-- repeated, not the release, an adjustment or the batching of earnings.
pub one_earning_per_job :
    (c : Context) (command : Command) (s : Session Db)
    → IsUniqueSession s
    → IsUniqueSession (run c command s).1
unfolding run
one_earning_per_job c (recognize job gross fee currency) s =
    let kept : Keeps IsUniqueSession (recognize_earning c job gross fee currency >>= λ _. pure tt) =
      search unique_rules in
    kept.kept s
one_earning_per_job c (release locked) s =
    let kept : Keeps IsUniqueSession (release_eligible c locked >>= λ _. pure tt) =
      search unique_rules in
    kept.kept s
one_earning_per_job c (adjust a) s =
    let kept : Keeps IsUniqueSession (adjust_earning c a >>= λ _. pure tt) = search unique_rules in
    kept.kept s
one_earning_per_job c (batch locked currency vendor_id actor_id) s =
    let kept : Keeps IsUniqueSession
        (create_batch c locked currency vendor_id actor_id >>= λ _. pure tt) =
      search unique_rules in
    kept.kept s
