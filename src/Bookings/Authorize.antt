-- ===== src/Bookings/Authorize.antt =====
-- The booking branch of the guest's authorization:
-- addon/src/captive_portal/api/routes/guest_authorization/bookings.py
--
-- The clock is read when the events are looked up and again for the window check; the later reads, of
-- the rows' timestamps, are taken to be the second. The text for people in an audit entry is left out.
use homeassistant_captive_po.Base.{
  ◌+◌, ℕ, Text, text_eq, is_empty, Bool, false, not, ◌&&◌, ltb, Option, none, some, [], ◌∷◌, ◌++◌,
  any_where, Result, ok, err, ℤ, if◌then◌else◌,
}
use homeassistant_captive_po.Time.{DateTime, minutes, floor_to_minute, ceil_to_minute}
use homeassistant_captive_po.Models.AccessGrant
use homeassistant_captive_po.Models.AccessGrant.{AccessGrant, GrantId, pending}
use homeassistant_captive_po.Models.Audit.{
  AuditLog, guest, guest_authorize, Outcome, denied, error, TargetType, booking, TargetId, code,
  GuestError, booking_not_found, booking_outside_window, duplicate_grant, integration_unavailable,
  vlan_check_failed, VlanMeta, Meta, failure,
}
use homeassistant_captive_po.Store.Database.{Database}
use homeassistant_captive_po.Store.AccessGrantRepository
use homeassistant_captive_po.Codes.{CodeValidationResult}
use homeassistant_captive_po.Vlan.{validate_booking_vlan}
use homeassistant_captive_po.Bookings.{Candidate, attribute, find_across_integrations}

-- What the handler knows of the guest: `client_ip`, `mac_address`, `vid` and the User-Agent header.
pub record GuestContext : Type 0 where
  pub client_ip : Text
  pub mac_address : Text
  pub vid : Option Text
  pub user_agent : Text

-- The handler's HTTP status of a failure.
abbrev pub status_code : GuestError → ℕ
status_code booking_not_found = 404
status_code duplicate_grant = 409
status_code integration_unavailable = 503
status_code _ = 403

abbrev pub guest_entry :
    GuestContext → Outcome → Option TargetType → Option TargetId → DateTime → Meta → AuditLog
guest_entry ctx outcome target_type target_id now meta = record {
  actor = guest ctx.client_ip;
  action = guest_authorize;
  target_type = target_type;
  target_id = target_id;
  timestamp_utc = now;
  outcome = outcome;
  meta = meta;
}

abbrev pub log : AuditLog → Database → Database
log entry db = record db { audit_logs = db.audit_logs ++ entry ∷ [] }

-- The audit entry of a failure: an integration that is missing is an error without a target.
abbrev pub booking_failure_entry : GuestContext → Text → DateTime → GuestError → AuditLog
booking_failure_entry ctx normalized_code now integration_unavailable =
    guest_entry ctx error none none now (
      failure ctx.client_ip (some ctx.mac_address) (some ctx.user_agent) integration_unavailable
        none)
booking_failure_entry ctx normalized_code now e =
    guest_entry ctx denied (some booking) (some (code normalized_code)) now
      (failure ctx.client_ip (some ctx.mac_address) (some ctx.user_agent) e none)

abbrev vlan_entry : GuestContext → Text → DateTime → VlanMeta → AuditLog
vlan_entry ctx normalized_code now vlan =
    guest_entry ctx denied (some booking) (some (code normalized_code)) now
      (failure ctx.client_ip (some ctx.mac_address) none vlan_check_failed (some vlan))

-- The effective end, unless it is too early or too late.
unfoldable pub check_booking_window : DateTime → DateTime → ℕ → DateTime → Option DateTime
check_booking_window start_utc end_utc grace now =
    if ltb (now + minutes 60) start_utc
    then none
    else if ltb (end_utc + minutes grace) now
    then none
    else some (end_utc + minutes grace)

abbrev later_of : DateTime → DateTime → DateTime
later_of a b = if ltb a b then b else a

abbrev pub booking_grant :
    GrantId → GuestContext → CodeValidationResult → Candidate → DateTime → DateTime → AccessGrant
booking_grant id ctx v (e, i) effective_end now = AccessGrant.init (record {
  id = id;
  voucher_code = none;
  booking_ref = attribute i.identifier_attr e;
  user_input_code = some v.original_code;
  device_id = ctx.mac_address;
  mac = ctx.mac_address;
  integration_id = some i.integration_id;
  session_token = none;
  start_utc = floor_to_minute (later_of now e.start_utc);
  end_utc = ceil_to_minute effective_end;
  controller_grant_id = none;
  omada_gateway_mac = none;
  omada_ap_mac = none;
  omada_vid = none;
  omada_ssid_name = none;
  omada_radio_id = none;
  status = pending;
  created_utc = now;
  updated_utc = now;
})

module _ (int_of : Text → Option ℤ) (sql_lower lower : Text → Text) where
  -- existing.booking_ref and existing.booking_ref.lower() == normalized_code.lower()
  abbrev pub is_same_booking : Text → Option Text → Bool
  is_same_booking normalized_code none = false
  is_same_booking normalized_code (some r) =
      not (is_empty r) && text_eq (lower r) (lower normalized_code)

  unfoldable pub has_duplicate : Text → Text → Database → Bool
  has_duplicate mac normalized_code db =
      any_where (λ g. is_same_booking normalized_code g.booking_ref)
        (AccessGrantRepository.find_active_by_mac mac db)

  unfoldable pub find_booking_match : Text → DateTime → Database → Result GuestError Candidate
  find_booking_match normalized_code now db = elim db.integrations [
    | [] ↦ err integration_unavailable
    | _ ∷ _ ↦ elim (find_across_integrations sql_lower lower normalized_code now db) [
      | none ↦ err booking_not_found
      | some c ↦ ok c
    ]
  ]

  -- The steps after the match: the VLAN, the window, the duplicate, the grant.
  unfoldable pub authorize_match :
      GrantId
      → GuestContext
      → CodeValidationResult
      → DateTime
      → Candidate
      → Database
      → Result GuestError (AccessGrant × VlanMeta) × Database
  unfolding check_booking_window has_duplicate
  authorize_match id ctx v now (e, i) db =
      let vlan = validate_booking_vlan int_of ctx.vid i in
      if not vlan.vlan_allowed
      then (err vlan_check_failed, log (vlan_entry ctx v.normalized_code now vlan) db)
      else elim (check_booking_window e.start_utc e.end_utc i.checkout_grace_minutes now) [
        | none ↦ (
          err booking_outside_window,
          log (booking_failure_entry ctx v.normalized_code now booking_outside_window) db,
        )
        | some effective_end ↦
            if has_duplicate ctx.mac_address v.normalized_code db
            then (
              err duplicate_grant,
              log (booking_failure_entry ctx v.normalized_code now duplicate_grant) db,
            )
            else (
              ok (booking_grant id ctx v (e, i) effective_end now, vlan),
              AccessGrantRepository.add (booking_grant id ctx v (e, i) effective_end now) db,
            )
      ]

  unfoldable pub authorize_booking :
      GrantId
      → GuestContext
      → CodeValidationResult
      → DateTime
      → DateTime
      → Database
      → Result GuestError (AccessGrant × VlanMeta) × Database
  unfolding find_booking_match authorize_match
  authorize_booking id ctx v looked now db = elim (find_booking_match v.normalized_code looked db) [
    | err e ↦ (err e, log (booking_failure_entry ctx v.normalized_code now e) db)
    | ok c ↦ authorize_match id ctx v now c db
  ]
