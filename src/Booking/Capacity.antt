-- ===== src/Booking/Capacity.antt =====
-- apps/api/app/domains/booking/capacity.py: the daily limits of a provider.
pub mod Fits
use breero_com.Prelude.{Bool, [], any, if◌then◌else◌, not, ◌||◌, ◌∷◌}
use breero_com.Prelude.Int.{leb_ℤ, pos, ℤ, ◌+ℤ◌, ◌-ℤ◌}
use breero_com.Errors.{
  durations_not_positive, interval_taken, limits_not_positive, no_capacity, requested_not_positive,
}
use breero_com.Session.{Outcome, err, ok}

pub record CapacityLimit : Type 0 where
  pub max_jobs : ℤ
  pub max_minutes : ℤ
  pub max_concurrent_jobs : ℤ
  pub emergency_reserved_jobs : ℤ
  pub emergency_reserved_minutes : ℤ

pub record CapacityUsage : Type 0 where
  pub job_count : ℤ
  pub booking_minutes : ℤ
  pub hold_count : ℤ
  pub hold_minutes : ℤ
  pub buffer_minutes : ℤ
  pub travel_minutes : ℤ

-- `CapacityUsage.reserved_minutes`.
abbrev pub reserved_minutes : CapacityUsage → ℤ
reserved_minutes usage =
    ((usage.booking_minutes +ℤ usage.hold_minutes) +ℤ usage.buffer_minutes) +ℤ usage.travel_minutes

pub record CapacitySnapshot : Type 0 where
  pub total_minutes : ℤ
  pub reserved : ℤ
  pub booking_minutes : ℤ
  pub hold_minutes : ℤ
  pub buffer_minutes : ℤ
  pub travel_minutes : ℤ
  pub remaining_minutes : ℤ
  pub job_count : ℤ
  pub hold_count : ℤ
  pub max_job_count : ℤ

-- `max(n, 0)`.
abbrev pub at_least_zero : ℤ → ℤ
at_least_zero n = if leb_ℤ n (pos 0) then pos 0 else n

abbrev pub is_negative : ℤ → Bool
is_negative n = not (leb_ℤ (pos 0) n)

-- `capacity_consumption`.
unfoldable pub capacity_consumption : ℤ → ℤ → ℤ → ℤ → Outcome ℤ
capacity_consumption service_minutes before_buffer after_buffer travel =
    if leb_ℤ service_minutes (pos 0)
      || any is_negative (service_minutes ∷ before_buffer ∷ after_buffer ∷ travel ∷ [])
    then err durations_not_positive
    else ok (((service_minutes +ℤ before_buffer) +ℤ after_buffer) +ℤ travel)

abbrev pub job_limit : CapacityLimit → Bool → ℤ
job_limit limit emergency =
    if emergency
    then limit.max_jobs
    else at_least_zero (limit.max_jobs -ℤ limit.emergency_reserved_jobs)

abbrev pub minute_limit : CapacityLimit → Bool → ℤ
minute_limit limit emergency =
    if emergency
    then limit.max_minutes
    else at_least_zero (limit.max_minutes -ℤ limit.emergency_reserved_minutes)

-- `snapshot`.
abbrev pub taken_snapshot : CapacityLimit → CapacityUsage → Bool → CapacitySnapshot
taken_snapshot limit usage emergency = record {
  total_minutes = minute_limit limit emergency;
  reserved = reserved_minutes usage;
  booking_minutes = usage.booking_minutes;
  hold_minutes = usage.hold_minutes;
  buffer_minutes = usage.buffer_minutes;
  travel_minutes = usage.travel_minutes;
  remaining_minutes = at_least_zero (minute_limit limit emergency -ℤ reserved_minutes usage);
  job_count = usage.job_count +ℤ usage.hold_count;
  hold_count = usage.hold_count;
  max_job_count = job_limit limit emergency;
}

abbrev pub limits_positive : CapacityLimit → Bool
limits_positive limit = not (
    leb_ℤ limit.max_jobs (pos 0)
    || leb_ℤ limit.max_minutes (pos 0)
    || leb_ℤ limit.max_concurrent_jobs (pos 0))

unfoldable pub snapshot : CapacityLimit → CapacityUsage → Bool → Outcome CapacitySnapshot
snapshot limit usage emergency =
    if limits_positive limit
    then ok (taken_snapshot limit usage emergency)
    else err limits_not_positive

-- `ensure_capacity` on the snapshot.
unfoldable pub ensure_room : CapacityLimit → ℤ → ℤ → CapacitySnapshot → Outcome CapacitySnapshot
ensure_room limit requested_minutes overlapping_jobs current =
    if leb_ℤ requested_minutes (pos 0)
    then err requested_not_positive
    else if leb_ℤ current.max_job_count current.job_count
        || not (leb_ℤ requested_minutes current.remaining_minutes)
    then err no_capacity
    else if leb_ℤ limit.max_concurrent_jobs overlapping_jobs
    then err interval_taken
    else ok current

unfoldable pub ensure_capacity :
    CapacityLimit → CapacityUsage → ℤ → ℤ → Bool → Outcome CapacitySnapshot
ensure_capacity limit usage requested_minutes overlapping_jobs emergency =
    elim (snapshot limit usage emergency) [
      | err e ↦ err e
      | ok current ↦ ensure_room limit requested_minutes overlapping_jobs current
    ]
