-- ===== src/Booking/Capacity/Fits.antt =====
-- apps/api/app/domains/booking/capacity.py: what a request that `ensure_capacity` accepts leaves of
-- the limits.
use breero_com.Prelude.{
  Bool, Bool-cases, arith, false, if◌then◌else◌, inl, inr, not, refl, sym, true, ◌+◌, ◌<◌, ◌||◌,
  ◌↔◌, ◌∙◌, ◌≡◌,
}
use breero_com.Prelude.Int.{+ℤ_parts, -ℤ_parts, leb_ℤ, neg_part, pos, pos_part, ℤ, ◌+ℤ◌, ◌-ℤ◌, ◌≤ℤ◌}
use breero_com.Errors.{interval_taken, limits_not_positive, no_capacity, requested_not_positive}
use breero_com.Session.{Outcome, err, ok}
use breero_com.Booking.Capacity.{
  CapacityLimit, CapacitySnapshot, CapacityUsage, at_least_zero, ensure_capacity, ensure_room,
  job_limit, limits_positive, minute_limit, reserved_minutes, snapshot, taken_snapshot,
}

infix 50 ◌<ℤ◌
abbrev ◌<ℤ◌ : ℤ → ℤ → Type 0
a <ℤ b = pos_part a + neg_part b < pos_part b + neg_part a

abbrev largest : ℤ → ℤ → ℤ
largest a b = if leb_ℤ a b then b else a

-- What a reserve for emergencies leaves of a limit: all of it in an emergency, else at least nothing.
abbrev pub left_of : Bool → ℤ → ℤ → ℤ
left_of emergency most reserve = if emergency then most else largest (most -ℤ reserve) (pos 0)

abbrev pub minutes_taken : CapacityUsage → ℤ
minutes_taken u = ((u.booking_minutes +ℤ u.hold_minutes) +ℤ u.buffer_minutes) +ℤ u.travel_minutes

-- The request goes into what is left: of the jobs, of the minutes, and of the places at one time.
pub record Fits (limit : CapacityLimit) (usage : CapacityUsage) (requested overlapping : ℤ)
    (emergency : Bool) : Type 0 where
  limits :
      (pos 0 <ℤ limit.max_jobs)
      × (pos 0 <ℤ limit.max_minutes)
      × (pos 0 <ℤ limit.max_concurrent_jobs)
  positive : pos 0 <ℤ requested
  pub jobs :
      (usage.job_count +ℤ usage.hold_count)
      <ℤ left_of emergency limit.max_jobs limit.emergency_reserved_jobs
  minutes :
      (minutes_taken usage +ℤ requested)
      ≤ℤ left_of emergency limit.max_minutes limit.emergency_reserved_minutes
  places : overlapping <ℤ limit.max_concurrent_jobs

lt-leb : (a b : ℤ) → (leb_ℤ b a ≡ false) ↔ (a <ℤ b)
lt-leb a b = ((λ h. ground arith), (λ h. ground arith))

remaining_fits :
    (m used r : ℤ) → pos 0 <ℤ r → (leb_ℤ r (at_least_zero (m -ℤ used)) ≡ true) ↔ ((used +ℤ r) ≤ℤ m)
remaining_fits m used r h = (
  (λ e. ground (arith, -ℤ_parts m used, +ℤ_parts used r)),
  (λ e. ground (arith, -ℤ_parts m used, +ℤ_parts used r)),
)

limits_lem :
    (limit : CapacityLimit)
    → (limits_positive limit ≡ true) ↔ (
        (pos 0 <ℤ limit.max_jobs)
        × (pos 0 <ℤ limit.max_minutes)
        × (pos 0 <ℤ limit.max_concurrent_jobs))
limits_lem limit = ((λ h. (ground arith, ground arith, ground arith)), (λ h. ground arith))

room_accepts :
    (limit : CapacityLimit) (r overlapping : ℤ) (current x : CapacitySnapshot)
    → ensure_room limit r overlapping current ≡ ok x
    → (leb_ℤ r (pos 0) ≡ false)
      × (leb_ℤ current.max_job_count current.job_count ≡ false)
      × (leb_ℤ r current.remaining_minutes ≡ true)
      × (leb_ℤ limit.max_concurrent_jobs overlapping ≡ false)
      × (x ≡ current)
unfolding ensure_room
room_accepts limit r overlapping current x h =
    chosen (leb_ℤ r (pos 0)) (leb_ℤ current.max_job_count current.job_count)
      (leb_ℤ r current.remaining_minutes) (leb_ℤ limit.max_concurrent_jobs overlapping) h
  where
    chosen :
        (a b m d : Bool)
        → ◌≡◌ {A = Outcome CapacitySnapshot}
            (if a
              then err requested_not_positive
              else if b || not m
              then err no_capacity
              else if d
              then err interval_taken
              else ok current)
            (ok x)
        → (a ≡ false) × (b ≡ false) × (m ≡ true) × (d ≡ false) × (x ≡ current)
    chosen true b m d h = absurd (ground arith)
    chosen false true m d h = absurd (ground arith)
    chosen false false false d h = absurd (ground arith)
    chosen false false true true h = absurd (ground arith)
    chosen false false true false h = (refl, refl, refl, refl, ground arith)

room_passes :
    (limit : CapacityLimit) (r overlapping : ℤ) (current : CapacitySnapshot)
    → leb_ℤ r (pos 0) ≡ false
    → leb_ℤ current.max_job_count current.job_count ≡ false
    → leb_ℤ r current.remaining_minutes ≡ true
    → leb_ℤ limit.max_concurrent_jobs overlapping ≡ false
    → ensure_room limit r overlapping current ≡ ok current
unfolding ensure_room
room_passes limit r overlapping current a b c d = rw (a, b, c, d) refl

refused_limits :
    (x : CapacitySnapshot) → ¬ (◌≡◌ {A = Outcome CapacitySnapshot} (err limits_not_positive) (ok x))
refused_limits x h = ground arith

by_limits :
    (limit : CapacityLimit) (usage : CapacityUsage) (requested overlapping : ℤ) (emergency : Bool)
    (good : Bool)
    → limits_positive limit ≡ good
    → ensure_capacity limit usage requested overlapping emergency ≡ (
        if good
        then ensure_room limit requested overlapping (taken_snapshot limit usage emergency)
        else err limits_not_positive)
unfolding ensure_capacity snapshot
by_limits limit usage requested overlapping emergency true e =
    rw (e, ensure_capacity, snapshot) refl
by_limits limit usage requested overlapping emergency false e =
    rw (e, ensure_capacity, snapshot) refl

-- What is reported of the day as it was before the request.
abbrev pub day_before : CapacityLimit → CapacityUsage → Bool → CapacitySnapshot
day_before limit usage emergency =
    let minutes = left_of emergency limit.max_minutes limit.emergency_reserved_minutes in
    record {
      total_minutes = minutes;
      reserved = minutes_taken usage;
      booking_minutes = usage.booking_minutes;
      hold_minutes = usage.hold_minutes;
      buffer_minutes = usage.buffer_minutes;
      travel_minutes = usage.travel_minutes;
      remaining_minutes = largest (minutes -ℤ minutes_taken usage) (pos 0);
      job_count = usage.job_count +ℤ usage.hold_count;
      hold_count = usage.hold_count;
      max_job_count = left_of emergency limit.max_jobs limit.emergency_reserved_jobs;
    }

-- A request for capacity is accepted, with the snapshot of what was taken before it, exactly when the
-- limits are positive, the minutes asked for are positive, there is one job more within the limit of
-- jobs, the minutes fit what the limit of minutes leaves, and the provider has a place at that time.
-- Outside an emergency the two limits are what the reserve for emergencies leaves of them.
pub ensure_capacity-Fits :
    (limit : CapacityLimit) (usage : CapacityUsage) (requested overlapping : ℤ) (emergency : Bool)
    (x : CapacitySnapshot)
    → (ensure_capacity limit usage requested overlapping emergency ≡ ok x)
      ↔ (Fits limit usage requested overlapping emergency × (x ≡ day_before limit usage emergency))
ensure_capacity-Fits limit usage requested overlapping emergency x = (
  (λ h. elim (Bool-cases (limits_positive limit)) [
    | inl good ↦
        let (a, b, m, d, e) =
          room_accepts limit requested overlapping (taken_snapshot limit usage emergency) x
            (sym (by_limits limit usage requested overlapping emergency true good) ∙ h) in
        let positive = (lt-leb (pos 0) requested).0 a in
        (
          record {
            limits = (limits_lem limit).0 good;
            positive = positive;
            jobs = (lt-leb (usage.job_count +ℤ usage.hold_count) (job_limit limit emergency)).0 b;
            minutes =
                (remaining_fits (minute_limit limit emergency) (reserved_minutes usage) requested
                    positive).0
                  m;
            places = (lt-leb overlapping limit.max_concurrent_jobs).0 d;
          },
          e,
        )
    | inr bad ↦ absurd (
        refused_limits x
          (sym (by_limits limit usage requested overlapping emergency false bad) ∙ h))
  ]),
  (λ (f, e).
      by_limits limit usage requested overlapping emergency true ((limits_lem limit).1 f.limits)
      ∙ rw e (
          room_passes limit requested overlapping (taken_snapshot limit usage emergency)
            ((lt-leb (pos 0) requested).1 f.positive)
            ((lt-leb (usage.job_count +ℤ usage.hold_count) (job_limit limit emergency)).1 f.jobs)
            ((remaining_fits (minute_limit limit emergency) (reserved_minutes usage) requested
                f.positive).1
              f.minutes)
            ((lt-leb overlapping limit.max_concurrent_jobs).1 f.places))),
)
