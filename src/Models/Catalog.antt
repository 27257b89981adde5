-- ===== src/Models/Catalog.antt =====
-- What booking reads of a service (apps/api/app/domains/catalog/models.py) and of an address
-- (apps/api/app/domains/booking/models.py).
use breero_com.Prelude.{ℕ, Bool, Option, String}

pub record Service : Type 0 where
  pub id : ℕ
  pub is_active : Bool
  pub is_bookable : Bool
  pub quote_required : Bool
  pub duration_minutes : Option ℕ
  pub before_buffer_minutes : ℕ
  pub after_buffer_minutes : ℕ
  pub emergency_eligible : Bool

pub record Address : Type 0 where
  pub id : ℕ
  pub customer_id : Option ℕ
  pub service_area_id : Option ℕ
  pub service_zone_id : Option ℕ
  pub timezone_name : String
