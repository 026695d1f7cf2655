-- ===== src/Guest/Controller.antt =====
-- addon/src/captive_portal/api/routes/guest_authorization/controller.py
--
-- The adapter of the controller is a parameter: what it answers to a call, and the site that a legacy
-- adapter holds.
use homeassistant_captive_po.Base.{
  ℕ, Text, is_empty, strip, take, length, Bool, ◌&&◌, ◌||◌, leb, Option, none, some, if◌then◌else◌,
}
use homeassistant_captive_po.Time.{DateTime}
use homeassistant_captive_po.Models.AccessGrant.{AccessGrant, active, failed}
use homeassistant_captive_po.Codes.{all_chars}
use homeassistant_captive_po.Guest.{GuestOmadaParams}

-- `value.strip()[:max_length]`, or None for what is blank.
unfoldable pub truncate : Option Text → ℕ → Option Text
truncate none max_length = none
truncate (some value) max_length =
    if is_empty value || is_empty (strip value) then none else some (take max_length (strip value))

abbrev pub is_hex_digit : ℕ → Bool
is_hex_digit c =
    (leb b'a' c && leb c b'f') || (leb b'A' c && leb c b'F') || (leb b'0' c && leb c b'9')

-- ^[a-fA-F0-9]{12,64}$ on a stripped text, which has no final newline.
abbrev pub is_site_id : Text → Bool
is_site_id s = (leb 12 (length s) && leb (length s) 64) && all_chars is_hex_digit s

unfoldable pub apply_site_override : Option Text → Text → Text
apply_site_override none current_site = current_site
apply_site_override (some site) current_site =
    if is_site_id (strip site) then strip site else current_site

unfoldable pub apply_omada_metadata : AccessGrant → GuestOmadaParams → AccessGrant
unfolding truncate
apply_omada_metadata g params = record g {
  omada_gateway_mac = truncate params.gateway_mac 17;
  omada_ap_mac = truncate params.ap_mac 17;
  omada_vid = truncate params.vid 8;
  omada_ssid_name = truncate params.ssid_name 64;
  omada_radio_id = truncate params.radio_id 2;
}

-- The arguments of a call of the adapter.
pub record AuthorizeCall : Type 0 where
  pub mac : Text
  pub expires_at : DateTime
  pub gateway_mac : Option Text
  pub ap_mac : Option Text
  pub ssid_name : Option Text
  pub radio_id : Option Text
  pub vid : Option Text
  pub site : Option Text

-- It returns, with the controller's id of the grant if there is one; or it raises OmadaClientError or
-- OmadaRetryExhaustedError; or it raises something else.
pub data AuthorizeReply : Type 0 where
  authorized : Option Text → AuthorizeReply
  client_error other_error : AuthorizeReply

-- `site_id` is of a legacy adapter only.
pub record Adapter : Type 0 where
  pub site_id : Option Text
  pub authorize : AuthorizeCall → AuthorizeReply

unfoldable pub apply_legacy_site_override : Adapter → Option Text → Adapter
unfolding apply_site_override
apply_legacy_site_override adapter site = record adapter {
  site_id = elim adapter.site_id [
    | none ↦ none
    | some current ↦ some (apply_site_override site current)
  ];
}

abbrev pub call_of : Adapter → AccessGrant → Text → AuthorizeCall
call_of adapter g mac_address = record {
  mac = mac_address;
  expires_at = g.end_utc;
  gateway_mac = g.omada_gateway_mac;
  ap_mac = g.omada_ap_mac;
  ssid_name = g.omada_ssid_name;
  radio_id = g.omada_radio_id;
  vid = g.omada_vid;
  site = adapter.site_id;
}

-- The grant with its new status; none where another exception leaves the function.
unfoldable pub authorize_with_controller : Option Adapter → AccessGrant → Text → Option AccessGrant
authorize_with_controller none g mac_address = some (record g { status = active })
authorize_with_controller (some adapter) g mac_address =
    elim (adapter.authorize (call_of adapter g mac_address)) [
      | authorized grant_id ↦ some (record g { status = active; controller_grant_id = grant_id })
      | client_error ↦ some (record g { status = failed })
      | other_error ↦ none
    ]
