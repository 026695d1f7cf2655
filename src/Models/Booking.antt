-- ===== src/Models/Booking.antt =====
-- addon/src/captive_portal/models/rental_control_event.py and ha_integration_config.py
use homeassistant_captive_po.Base.{ℕ, Text, Option, List}
use homeassistant_captive_po.Time.{DateTime}

pub data IdentifierAttr : Type 0 where
  slot_code slot_name last_four : IdentifierAttr

pub record HaIntegrationConfig : Type 0 where
  pub integration_id : Text
  pub identifier_attr : IdentifierAttr
  pub checkout_grace_minutes : ℕ
  pub last_sync_utc : Option DateTime
  pub stale_count : ℕ
  pub allowed_vlans : Option (List ℕ)

pub record RentalControlEvent : Type 0 where
  pub id : ℕ
  pub integration_id : Text
  pub event_index : ℕ
  pub slot_name : Option Text
  pub slot_code : Option Text
  pub last_four : Option Text
  pub start_utc : DateTime
  pub end_utc : DateTime
  pub raw_attributes : Text
  pub created_utc : DateTime
  pub updated_utc : DateTime
