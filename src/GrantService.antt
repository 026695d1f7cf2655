-- ===== src/GrantService.antt =====
-- addon/src/captive_portal/services/grant_service.py
pub mod Laws
pub mod Limit
use homeassistant_captive_po.Base.{
  ℕ, ◌+◌, Text, is_empty, strip, ◌||◌, leb, Option, none, some, Result, ok, err, ℤ, positive?,
  if◌then◌else◌,
}
use homeassistant_captive_po.Time.{DateTime, minutes, ceil_to_minute}
use homeassistant_captive_po.Models.AccessGrant
use homeassistant_captive_po.Models.AccessGrant.{
  AccessGrant, GrantId, GrantStatus, pending, active, revoked, is_revoked, is_expired,
}
use homeassistant_captive_po.Store.Database.{Database}
use homeassistant_captive_po.Store.AccessGrantRepository

-- `bad_mac`, `bad_times` and `bad_minutes` are ValueErrors, `revoked_grant` is GrantOperationError.
pub data GrantError : Type 0 where
  bad_mac bad_times bad_minutes not_found revoked_grant : GrantError

-- The record that `create` hands to the model's constructor.
abbrev pub requested_grant :
    GrantId
    → Text
    → DateTime
    → DateTime
    → Option Text
    → Option Text
    → Option Text
    → DateTime
    → AccessGrant
requested_grant id mac start_utc end_utc voucher_code booking_ref session_token now = record {
  id = id;
  voucher_code = voucher_code;
  booking_ref = booking_ref;
  user_input_code = none;
  device_id = mac;
  mac = mac;
  integration_id = none;
  session_token = session_token;
  start_utc = start_utc;
  end_utc = end_utc;
  controller_grant_id = none;
  omada_gateway_mac = none;
  omada_ap_mac = none;
  omada_vid = none;
  omada_ssid_name = none;
  omada_radio_id = none;
  status = pending;
  created_utc = now;
  updated_utc = now;
}

unfoldable pub create :
    GrantId
    → Text
    → DateTime
    → DateTime
    → Option Text
    → Option Text
    → Option Text
    → DateTime
    → Database
    → Result GrantError AccessGrant × Database
create id mac start_utc end_utc voucher_code booking_ref session_token now db =
    if is_empty mac || is_empty (strip mac)
    then (err bad_mac, db)
    else if leb end_utc start_utc
    then (err bad_times, db)
    else let g =
        AccessGrant.init
          (requested_grant id mac start_utc end_utc voucher_code booking_ref session_token now) in
      (ok g, AccessGrantRepository.add g db)

-- The attributes that `extend` sets.
abbrev pub extended : ℕ → DateTime → AccessGrant → AccessGrant
extended additional now g = record g {
  end_utc = ceil_to_minute (g.end_utc + minutes additional);
  updated_utc = now;
  status = if is_expired g.status then active else g.status;
}

abbrev pub extend_grant :
    ℕ → DateTime → AccessGrant → Database → Result GrantError AccessGrant × Database
extend_grant additional now g db =
    if is_revoked g.status
    then (err revoked_grant, db)
    else (ok (extended additional now g), AccessGrantRepository.save (extended additional now g) db)

unfoldable pub extend : GrantId → ℤ → DateTime → Database → Result GrantError AccessGrant × Database
extend id additional_minutes now db = elim (positive? additional_minutes) [
  | none ↦ (err bad_minutes, db)
  | some additional ↦ elim (AccessGrantRepository.get_by_id id db) [
    | none ↦ (err not_found, db)
    | some g ↦ extend_grant additional now g db
  ]
]

abbrev pub revoked_at : DateTime → AccessGrant → AccessGrant
revoked_at now g = record g { status = revoked; end_utc = now; updated_utc = now }

abbrev pub revoke_grant :
    DateTime → AccessGrant → Database → Result GrantError AccessGrant × Database
revoke_grant now g db =
    if is_revoked g.status
    then (ok g, db)
    else (ok (revoked_at now g), AccessGrantRepository.save (revoked_at now g) db)

unfoldable pub revoke : GrantId → DateTime → Database → Result GrantError AccessGrant × Database
revoke id now db = elim (AccessGrantRepository.get_by_id id db) [
  | none ↦ (err not_found, db)
  | some g ↦ revoke_grant now g db
]
