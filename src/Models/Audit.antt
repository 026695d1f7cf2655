-- ===== src/Models/Audit.antt =====
-- addon/src/captive_portal/models/audit_log.py, with a constructor for each metadata dictionary and
-- a name for each string constant that the modelled handlers write. Messages for people (`detail`)
-- are not modelled, nor the entry's random id and `role_snapshot`, which these handlers leave NULL.
use homeassistant_captive_po.Base.{ℕ, Text, Bool, Option, List}
use homeassistant_captive_po.Time.{DateTime}
use homeassistant_captive_po.Models.AccessGrant.{GrantId, GrantStatus}

pub data Outcome : Type 0 where
  success denied error rate_limited : Outcome

pub data Action : Type 0 where
  guest_authorize voucher_auto_purge voucher_manual_purge : Action
  list_grants extend_grant revoke_grant event_cleanup : Action

pub data TargetType : Type 0 where
  voucher booking access_grant : TargetType

pub data TargetId : Type 0 where
  code : Text → TargetId
  grant : GrantId → TargetId

-- The `error` entry of a failure's metadata.
pub data GuestError : Type 0 where
  mac_extraction_failed invalid_code_format vlan_check_failed voucher_device_limit : GuestError
  voucher_redemption_failed booking_not_found booking_outside_window duplicate_grant : GuestError
  integration_unavailable controller_authorization_failed : GuestError

pub data VlanReason : Type 0 where
  allowed skipped vlan_mismatch missing_vid : VlanReason

-- `_vlan_meta`: what VLAN validation found.
pub record VlanMeta : Type 0 where
  pub vlan_allowed : Bool
  pub vlan_reason : VlanReason
  pub vlan_device_vid : Option ℕ
  pub vlan_allowed_vlans : List ℕ

pub data CodeType : Type 0 where
  voucher booking invalid : CodeType

pub data Meta : Type 0 where
  -- purged_count, retention_days or min_age_days, cutoff_utc
  purged : ℕ → ℕ → DateTime → Meta
  -- client_ip, user_agent, retry_after
  limited : Text → Text → Option ℕ → Meta
  -- client_ip, mac, user_agent, error, and the entries of `_vlan_meta`
  failure : Text → Option Text → Option Text → GuestError → Option VlanMeta → Meta
  -- client_ip, mac, user_agent, code_type, grant_start, grant_end, and the entries of `_vlan_meta`
  authorized : Text → Text → Text → CodeType → DateTime → DateTime → Option VlanMeta → Meta
  -- status_filter, count
  listed : Option GrantStatus → ℕ → Meta
  -- additional_minutes, new_end_utc
  extended : ℕ → DateTime → Meta
  -- deleted_count, cutoff_date
  events_purged : ℕ → DateTime → Meta
  -- whether there is a controller_error
  withdrawn : Bool → Meta

pub data Actor : Type 0 where
  -- f"guest@{client_ip}"
  guest : Text → Actor
  system : Actor
  admin : Text → Actor

pub record AuditLog : Type 0 where
  pub actor : Actor
  pub action : Action
  pub target_type : Option TargetType
  pub target_id : Option TargetId
  pub timestamp_utc : DateTime
  pub outcome : Outcome
  pub meta : Meta
