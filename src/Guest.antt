-- ===== src/Guest.antt =====
-- The guest's authorization: addon/src/captive_portal/api/routes/guest_authorization/
--
-- This file has the inputs of context.py. Its children are the branches and steps, and the whole flow
-- of orchestration.py.
pub mod Controller
pub mod Voucher
pub mod Flow
pub mod Decision
pub mod Audited
pub mod Stored
pub mod Limit
pub mod Limited
pub mod Handlers
pub mod Unlimited
pub mod Errors
use homeassistant_captive_po.Base.{ℕ, Text, Option}
use homeassistant_captive_po.Models.Audit.{CodeType, VlanMeta}
use homeassistant_captive_po.Models.AccessGrant.{AccessGrant, GrantId}

-- The submitted values. An absent one and an empty one are told apart.
pub record GuestOmadaParams : Type 0 where
  pub client_mac : Option Text
  pub client_ip : Option Text
  pub site : Option Text
  pub gateway_mac : Option Text
  pub ap_mac : Option Text
  pub radio_id : Option Text
  pub ssid_name : Option Text
  pub vid : Option Text
  pub t : Option Text
  pub redirect_url : Option Text
  pub continue_url : Option Text

-- What the voucher and the booking branch return.
pub record AuthorizationDecision : Type 0 where
  pub grant : AccessGrant
  pub code_type : CodeType
  pub vlan_meta : Option VlanMeta
