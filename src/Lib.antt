-- ===== src/Lib.antt =====
-- A verification library for the marketplace services of the BREERO backend (apps/api/app/domains).
--
-- A visitor drafts a booking intent, holds a slot of a provider and books; vendors are offered jobs
-- and buy leads.
-- A customer's payment confirms a booking and creates a job; technicians move the job through its
-- states, may request additional work that the customer decides on and pays for, and complete it; a
-- completed job earns its vendor a compensation, which is released, adjusted, batched and
-- transferred. The services share one database session, so they are modelled on one state.
--
-- Parts:
--   Prelude      shared names; Prelude/Table: the SQL that the services use, on lists of rows;
--                Prelude/Equality: one equality test; Prelude/Text: Python's `str` and `dict`
--   Models       the rows and the statuses (*/models.py), and `Db`, the database
--   Errors       one name for each reason to raise
--   Context      the clock, fresh identifiers, the settings, and the two rows every service adds
--   Session      a database session: `saved` is what is committed, `live` what queries see; steps
--                that return or raise; Session/Keeps, Rules and Atomic: what runs of steps keep
--   Jobs         jobs/service.py: `TRANSITIONS`, `apply_transition`, `transition`,
--                `technician_note_transition`; Jobs/Work: `create_work_request`,
--                `decide_work_request`, `review_work_request`
--   Finance      finance/service.py: `recognize_earning`; Finance/Compensation: compensation.py;
--                Finance/Payouts: `release_eligible`, `adjust_earning`, `create_batch`,
--                `approve_batch`; Finance/Plans: `create_compensation_plan`; Finance/Transfers:
--                `submit_batch`
--   Payments     payments/service.py: Payments/Intents: `create_intent`,
--                `create_professional_lead_intent`, `capture`; Payments/Settle: `_settle`,
--                `_release_failed_lead_purchase`, `_mark_lead_purchase_refunded`,
--                `_confirm_booking_and_create_job`; Payments/Refunds: `refund`; Payments/Webhooks:
--                `process_webhook`
--   Outbox       common/outbox_service.py: `claim`, `process`, `retry`; Outbox/Claims and
--                Outbox/Deliveries: what they promise
--   Dispatch     dispatch/service.py: `manual_assign`; Dispatch/Offers: `decide_offer`, `expire_due`;
--                Dispatch/Matching: `match`
--   Booking      Booking/Lifecycle: booking/lifecycle.py and common/state_machine.py; Booking/Postal:
--                postal.py; Booking/Capacity: capacity.py; Booking/Timezones: timezones.py;
--                Booking/Holds: hold_service.py: `create`; Booking/Holds/Release: `get`, `release`,
--                `expire_stale`
--   Leads        professional_leads/service.py: Leads/Sales: `available`, `get`, `purchase`;
--                Leads/Disputes: `dispute`, `get_dispute`
--   Intents      booking_intents/service.py: Intents/Drafts: `create`, `get`; Intents/Fields: the
--                fields of an update; Intents/Commands: `update`, `abandon`, `submit`
--   Tests        the theorems at concrete inputs
--
-- How the state corresponds: a table is a list of its rows in the order of insertion; `session.get`
-- finds the first row with a key, the flush of a loaded row replaces it, and a command that ends
-- without a commit leaves what was saved. A handler is one function from a session to a result or an
-- exception and the session it leaves, composed as the source composes it. A handler is split behind
-- its lookups into named parts, so that a proof can speak of the rest of a run.
--
-- Numbers: identifiers and times are natural numbers; amounts that may be negative are integers, the
-- others natural numbers. A booking's decimal total is counted in hundredths. No loop needs fuel: all
-- recursion is on lists and texts, and on the limit of a claim.
--
-- Parameters, because they are not code of the repository: the payment provider, the payout gateway,
-- the SHA-256 hash of a request, fresh identifiers, the clock, and which rows other transactions have locked
-- (`skip_locked`), how an event is delivered, the jitter of a retry, what the redaction leaves of a
-- diagnostic, the zones of `zoneinfo`, and the hash of a booking session. Three parts of the repository
-- that are outside the model are parameters too: the matching of providers for a hold, the search for
-- free slots, and the creation of the booking that an intent is submitted to. Nothing is assumed of
-- them but where a theorem says so.
--
-- Not modelled: what concurrent requests see of each other (rows are locked, `FOR UPDATE`, and keys
-- by advisory locks, which order most requests on one row, but not all), the unique constraints of
-- the tables but for those of offers, of assignments, of holds and of lead
-- purchases, the payloads of events but for identifiers, the metadata of audit entries of jobs and
-- finance, capital letters beyond ASCII, the public submissions that the outbox keeps in step with
-- its events, the HTTP layer, and the other services.
pub mod Prelude
pub mod Models
pub mod Errors
pub mod Context
pub mod Session
pub mod Finance
pub mod Jobs
pub mod Payments
pub mod Outbox
pub mod Dispatch
pub mod Booking
pub mod Leads
pub mod Intents
pub mod Tests
