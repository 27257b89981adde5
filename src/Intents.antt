-- ===== src/Intents.antt =====
-- apps/api/app/domains/booking_intents/service.py: `BookingIntentService`. Instants are the
-- seconds of the clock in UTC since the first day of year 1, and a date is the number of its day.
pub mod Drafts
pub mod Fields
pub mod Commands
pub mod Changes
pub mod Advances
pub mod Versions
pub mod Runs
