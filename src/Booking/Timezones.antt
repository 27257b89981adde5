-- ===== src/Booking/Timezones.antt =====
-- apps/api/app/domains/booking/timezones.py. Local times are the seconds of the wall clock since the
-- first day of year 1, a Monday. The zone (`zoneinfo`) is a parameter: how it reads a wall clock at
-- a fold, and how it shows an instant.
pub mod Local
use breero_com.Prelude.{
  Bool, List, Option, String, [], if◌then◌else◌, is_empty, is_some, leb, ltb, nat_eq, none, not,
  one_of, option_eq, some, string_eq, ℕ, ◌%◌, ◌&&◌, ◌++◌, ◌/◌, ◌==◌, ◌||◌, ◌∷◌,
}
use breero_com.Errors.{
  ambiguous_local_time, invalid_fold, invalid_time_range, local_time_with_offset,
  nonexistent_local_time, outside_operating_hours, sunday_emergency_only, timezone_unresolved,
}
use breero_com.Session.{Outcome, err, ok}

pub record Zone : Type 0 where
  -- `local.replace(tzinfo=zone, fold=fold).astimezone(UTC)`
  pub to_utc : ℕ → ℕ → ℕ
  -- `instant.astimezone(zone)`: the wall clock, and the fold
  pub to_local : ℕ → ℕ × ℕ

-- A `datetime` that is meant to have no offset.
pub record LocalTime : Type 0 where
  pub clock : ℕ
  pub has_offset : Bool

-- `timezone`: `ZoneInfo(timezone_id)`, which finds no zone of some names.
abbrev timezone : (String → Option Zone) → String → Outcome Zone
timezone zones timezone_id = elim (zones timezone_id) [
  | none ↦ err timezone_unresolved
  | some zone ↦ ok zone
]

abbrev pub is_candidate : Zone → ℕ → ℕ → Bool
is_candidate zone clock fold =
    let (shown, shown_fold) = zone.to_local (zone.to_utc clock fold) in
    shown == clock && shown_fold == fold

-- The folds at which the wall clock is shown.
abbrev pub candidates : Zone → ℕ → List ℕ
candidates zone clock =
    (if is_candidate zone clock 0 then 0 ∷ [] else [])
    ++ (if is_candidate zone clock 1 then 1 ∷ [] else [])

-- Both folds are candidates, and their offsets differ: `len(unique) > 1`.
abbrev pub is_ambiguous : Zone → ℕ → Bool
is_ambiguous zone clock =
    is_candidate zone clock 0
    && is_candidate zone clock 1
    && not (zone.to_utc clock 0 == zone.to_utc clock 1)

-- `fold if fold is not None else candidates[0].fold`.
abbrev pub selected_fold : Option ℕ → List ℕ → ℕ
selected_fold (some fold) folds = fold
selected_fold none [] = 0
selected_fold none (fold ∷ folds) = fold

-- `local_to_utc` in a zone.
unfoldable pub clock_to_utc : Zone → ℕ → Option ℕ → Outcome ℕ
clock_to_utc zone clock fold =
    if is_empty (candidates zone clock)
    then err nonexistent_local_time
    else if is_ambiguous zone clock && not (is_some fold)
    then err ambiguous_local_time
    else if not (one_of (selected_fold fold (candidates zone clock)) (candidates zone clock))
    then err invalid_fold
    else ok (zone.to_utc clock (selected_fold fold (candidates zone clock)))

unfoldable pub local_to_utc : (String → Option Zone) → LocalTime → String → Option ℕ → Outcome ℕ
local_to_utc zones local_value timezone_id fold =
    if local_value.has_offset
    then err local_time_with_offset
    else elim (timezone zones timezone_id) [
      | err e ↦ err e
      | ok zone ↦ clock_to_utc zone local_value.clock fold
    ]

pub record LocalizedInterval : Type 0 where
  pub start_utc : ℕ
  pub end_utc : ℕ
  pub timezone_id : String

-- `local_interval`.
abbrev ordered_interval : String → ℕ → ℕ → Outcome LocalizedInterval
ordered_interval timezone_id start_utc end_utc =
    if leb end_utc start_utc
    then err invalid_time_range
    else ok (record { start_utc = start_utc; end_utc = end_utc; timezone_id = timezone_id })

unfoldable pub local_interval :
    (String → Option Zone)
    → LocalTime
    → LocalTime
    → String
    → Option ℕ
    → Option ℕ
    → Outcome LocalizedInterval
local_interval zones start_local end_local timezone_id start_fold end_fold =
    elim (local_to_utc zones start_local timezone_id start_fold) [
      | err e ↦ err e
      | ok start_utc ↦ elim (local_to_utc zones end_local timezone_id end_fold) [
        | err e ↦ err e
        | ok end_utc ↦ ordered_interval timezone_id start_utc end_utc
      ]
    ]

abbrev pub date_of : ℕ → ℕ
date_of clock = clock / 86400

abbrev pub time_of : ℕ → ℕ
time_of clock = clock % 86400

-- `weekday()`: Sunday is 6.
abbrev pub weekday : ℕ → ℕ
weekday clock = date_of clock % 7

-- 07:00 and 19:00.
abbrev open_local : ℕ
open_local = 25200

abbrev close_local : ℕ
close_local = 68400

abbrev is_restricted : ℕ → Option Bool → Bool
is_restricted start_local none = weekday start_local == 6
is_restricted start_local (some emergency_only) = emergency_only

-- `enforce_breero_hours` between two times of the day.
unfoldable pub enforce_hours : ℕ → ℕ → ℕ → ℕ → Bool → Bool → Option Bool → Outcome (Unit {0})
enforce_hours opens closes start_local end_local service_eligible provider_enabled emergency_only =
    if not (date_of start_local == date_of end_local)
      || ltb (time_of start_local) opens
      || ltb closes (time_of end_local)
    then err outside_operating_hours
    else if is_restricted start_local emergency_only && not (service_eligible && provider_enabled)
    then err sunday_emergency_only
    else ok tt

-- `enforce_breero_hours` with its defaults.
abbrev pub enforce_breero_hours : ℕ → ℕ → Bool → Bool → Outcome (Unit {0})
enforce_breero_hours start_local end_local service_eligible provider_enabled =
    enforce_hours open_local close_local start_local end_local service_eligible provider_enabled
      none
