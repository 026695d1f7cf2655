-- ===== src/Models/AccessGrant.antt =====
-- addon/src/captive_portal/models/access_grant.py
use homeassistant_captive_po.Base.{ℕ, ◌≤◌, Text, Bool, true, false, Option}
use homeassistant_captive_po.Time.{DateTime, floor_to_minute, ceil_to_minute}
use homeassistant_captive_po.Time.Rounding.{floor_to_minute_bounds, ceil_to_minute_bounds}

pub data GrantStatus : Type 0 where
  pending active expired revoked failed : GrantStatus

abbrev pub is_revoked : GrantStatus → Bool
is_revoked revoked = true
is_revoked _ = false

abbrev pub is_expired : GrantStatus → Bool
is_expired expired = true
is_expired _ = false

abbrev pub is_active : GrantStatus → Bool
is_active active = true
is_active _ = false

-- col(status).in_([PENDING, ACTIVE])
abbrev pub is_pending_or_active : GrantStatus → Bool
is_pending_or_active pending = true
is_pending_or_active active = true
is_pending_or_active _ = false

-- A UUID is a number: it is only compared.
abbrev pub GrantId : Type 0
GrantId = ℕ

pub record AccessGrant : Type 0 where
  pub id : GrantId
  pub voucher_code : Option Text
  pub booking_ref : Option Text
  pub user_input_code : Option Text
  pub device_id : Text
  pub mac : Text
  pub integration_id : Option Text
  pub session_token : Option Text
  pub start_utc : DateTime
  pub end_utc : DateTime
  pub controller_grant_id : Option Text
  pub omada_gateway_mac : Option Text
  pub omada_ap_mac : Option Text
  pub omada_vid : Option Text
  pub omada_ssid_name : Option Text
  pub omada_radio_id : Option Text
  pub status : GrantStatus
  pub created_utc : DateTime
  pub updated_utc : DateTime

-- `__init__` rounds the two instants that it is given, and passes the rest on.
unfoldable pub init : AccessGrant → AccessGrant
init g = record g { start_utc = floor_to_minute g.start_utc; end_utc = ceil_to_minute g.end_utc }

-- The rounding in the constructor never shortens a grant: the stored interval contains the requested
-- one, whatever the two instants are.
pub init-covers :
    (g : AccessGrant) → ((init g).start_utc ≤ g.start_utc) × (g.end_utc ≤ (init g).end_utc)
unfolding init
init-covers g = ((floor_to_minute_bounds g.start_utc).0, (ceil_to_minute_bounds g.end_utc).0)
