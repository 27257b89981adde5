-- ===== src/Booking.antt =====
-- apps/api/app/domains/booking: the parts of booking, one module for each.
pub mod Lifecycle
pub mod Postal
pub mod Capacity
pub mod Timezones
pub mod Holds
