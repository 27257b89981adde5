-- ===== src/Errors.antt =====
-- The exceptions that the services raise (`HTTPException`, `PaymentError`): one name for each reason
-- to raise in the modelled code.
use breero_com.Prelude.{ℕ}
use breero_com.Models.{JobStatus, WorkRequestStatus, BookingStatus}

-- payments/exceptions.py: `PaymentError` and what derives from it, one name for each `raise`.
pub data PaymentError : Type 0 where
  lead_payment_misrouted key_reused key_in_progress stored_payment_missing : PaymentError
  booking_reference_required intent_booking_missing booking_amount_mismatch : PaymentError
  booking_not_payable quote_reference_required intent_quote_missing quote_not_payable : PaymentError
  quote_amount_mismatch payment_missing not_capturable capture_exceeds_authorized : PaymentError
  invalid_webhook provider_failed webhook_failed not_refundable refund_exceeds_balance :
      PaymentError
  unknown_lead_purchase lead_not_settleable unknown_quote quote_not_settleable : PaymentError
  unknown_booking booking_not_confirmable : PaymentError

pub data Error : Type 0 where
  -- payments/service.py
  payment_error : PaymentError → Error
  -- jobs/service.py
  job_not_found : Error
  bad_job_transition : JobStatus → JobStatus → Error
  bad_work_request_transition : WorkRequestStatus → WorkRequestStatus → Error
  technician_not_assigned not_assigned_at_completion notes_missing booking_unavailable : Error
  worker_not_assigned work_not_requestable work_request_not_found decision_not_permitted : Error
  already_decided already_reviewed : Error
  -- finance/service.py and compensation.py
  earning_needs_completed_job invalid_earning_amounts plan_not_configured : Error
  negative_gross fixed_not_configured bad_percentage rate_not_configured : Error
  payouts_disabled earning_not_found no_available_earnings batch_not_found : Error
  batch_not_pending batch_not_approved payout_not_configured : Error
  fixed_minor_required percentage_bps_required : Error
  -- common/outbox_service.py
  event_not_found event_not_retryable delivery_aborted : Error
  -- dispatch/service.py
  assignment_job_not_found worker_unavailable job_not_assignable slot_not_held : Error
  job_not_matchable offers_conflict offer_not_found offer_of_other_vendor offer_not_pending : Error
  offer_has_expired job_no_longer_assignable assignment_conflict : Error
  active_assignment_exists : Error
  -- booking/lifecycle.py, postal.py and capacity.py
  bad_booking_transition : BookingStatus → BookingStatus → Error
  invalid_zip_code unsupported_state durations_not_positive limits_not_positive : Error
  requested_not_positive no_capacity interval_taken : Error
  -- booking/timezones.py
  timezone_unresolved local_time_with_offset nonexistent_local_time ambiguous_local_time : Error
  invalid_fold invalid_time_range outside_operating_hours sunday_emergency_only : Error
  -- booking/hold_service.py
  session_required hold_key_conflict service_not_bookable quote_required : Error
  outside_service_area timezone_mismatch no_provider_free slot_gone too_many_holds : Error
  hold_not_found : Error
  -- booking_intents/service.py
  service_not_found intent_not_found intent_expired intent_not_editable : Error
  version_conflict : ℕ → Error
  service_required address_not_found requested_date_in_past intent_incomplete : Error
  requests_only slot_unavailable already_submitted intent_not_ready assertion_failed : Error
  timezone_required timezone_invalid : Error
  -- professional_leads/service.py
  purchasing_unavailable provider_not_eligible purchase_key_conflict : Error
  lead_unavailable lead_not_found lead_sold_before purchase_payment_missing : Error
  purchase_not_found dispute_window_expired dispute_not_found : Error
