-- ===== src/Samples.antt =====
-- Concrete rows and tables, on which the tests evaluate the code.
use homeassistant_captive_po.Base.{ℕ, ◌+◌, Text, codes, none, some, List, [], ◌∷◌}
use homeassistant_captive_po.Time.{DateTime, minutes, days}
use homeassistant_captive_po.Models.Voucher.{Voucher, unused, active}
use homeassistant_captive_po.Models.AccessGrant.{AccessGrant, GrantStatus}
use homeassistant_captive_po.Store.Database.{Database}
use homeassistant_captive_po.VoucherService.Create.{CreateOptions}

-- A day in the year 3, on a whole minute.
abbrev pub noon : DateTime
noon = days 1000 + minutes 720

abbrev pub phone : Text
phone = codes "AA-BB"

abbrev pub laptop : Text
laptop = codes "CC-DD"

abbrev pub wifi : Text
wifi = codes "WIFI"

abbrev pub dusk : Text
dusk = codes "DUSK"

-- An unused voucher of an hour for one device.
abbrev pub fresh : Voucher
fresh = record {
  code = wifi;
  created_utc = noon;
  duration_minutes = 60;
  up_kbps = none;
  down_kbps = none;
  status = unused;
  booking_ref = none;
  redeemed_count = 0;
  last_redeemed_utc = none;
  activated_utc = none;
  allowed_vlans = none;
  max_devices = 1;
  status_changed_utc = none;
}

-- A voucher that was activated at noon.
abbrev pub running : Voucher
running = record fresh {
  code = dusk;
  status = active;
  redeemed_count = 1;
  activated_utc = some noon;
}

abbrev pub options : CreateOptions
options = record {
  booking_ref = none;
  up_kbps = none;
  down_kbps = none;
  allowed_vlans = none;
  max_devices = 1;
}

-- A grant of the phone with the voucher `running`.
abbrev pub grant_with : ℕ → GrantStatus → AccessGrant
grant_with i s = record {
  id = i;
  voucher_code = some dusk;
  booking_ref = none;
  user_input_code = none;
  device_id = phone;
  mac = phone;
  integration_id = none;
  session_token = none;
  start_utc = noon;
  end_utc = noon + minutes 60;
  controller_grant_id = none;
  omada_gateway_mac = none;
  omada_ap_mac = none;
  omada_vid = none;
  omada_ssid_name = none;
  omada_radio_id = none;
  status = s;
  created_utc = noon;
  updated_utc = noon;
}

abbrev pub db_of : List Voucher → List AccessGrant → Database
db_of vs gs = record { vouchers = vs; grants = gs; audit_logs = []; integrations = []; events = [] }

-- Two vouchers, one with its device.
abbrev pub shop : Database
shop = db_of (fresh ∷ running ∷ []) (grant_with 1 GrantStatus.active ∷ [])
