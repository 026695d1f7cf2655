-- ===== src/VoucherService.antt =====
-- addon/src/captive_portal/services/voucher_service.py
--
-- An operation takes the current time and the database, and returns what the method returns or
-- raises beside the database that it leaves. The proofs are in the modules below.
pub mod Create
pub mod Redeem
pub mod Redemption
pub mod Limit
pub mod Attempts
pub mod Removal
pub mod Expiry
use homeassistant_captive_po.Base.{
  ℕ, ◌+◌, Text, text_eq, Bool, not, ◌&&◌, leb, ltb, ◌==◌, Option, none, some, is_some, List, [],
  ◌∷◌, any_where, Result, ok, err, if◌then◌else◌,
}
use homeassistant_captive_po.Time.{DateTime, minutes, floor_to_minute, ceil_to_minute}
use homeassistant_captive_po.Models.Voucher.{
  Voucher, VoucherStatus, unused, active, revoked, status_eq, expires_utc, is_activated_for_expiry,
}
use homeassistant_captive_po.Models.AccessGrant
use homeassistant_captive_po.Models.AccessGrant.{AccessGrant, GrantId, pending}
use homeassistant_captive_po.Store.Database.{Database, column_eq}
use homeassistant_captive_po.Store.VoucherRepository
use homeassistant_captive_po.Store.AccessGrantRepository

-- The past-expiry test of an ACTIVE voucher whose timer runs, in `expire_stale_vouchers`.
abbrev pub is_stale : DateTime → Voucher → Bool
is_stale now v = status_eq v.status active && is_activated_for_expiry v && ltb (expires_utc v) now

abbrev pub expire_at : DateTime → Voucher → Voucher
expire_at now v = record v { status = VoucherStatus.expired; status_changed_utc = some now }

-- The loop over the vouchers that it is given: how many changed, and the vouchers after it.
unfoldable pub expire_stale_vouchers : DateTime → List Voucher → ℕ × List Voucher
expire_stale_vouchers now [] = (0, [])
expire_stale_vouchers now (v ∷ vs) =
    let (n, rest) = expire_stale_vouchers now vs in
    if is_stale now v then (n + 1, expire_at now v ∷ rest) else (n, v ∷ rest)

-- The reasons of `VoucherRedemptionError`; `device_limit` is its subclass VoucherDeviceLimitError.
pub data RedeemError : Type 0 where
  not_found voucher_revoked voucher_expired duplicate_device device_limit : RedeemError

-- The attributes that a redemption sets.
abbrev pub redeemed : DateTime → Voucher → Voucher
redeemed now v = record v {
  activated_utc =
      if not (is_some v.activated_utc) && status_eq v.status unused
      then some now
      else v.activated_utc;
  redeemed_count = v.redeemed_count + 1;
  last_redeemed_utc = some now;
  status = if status_eq v.status unused then active else v.status;
}

-- The grant of a redemption, through the constructor of the model.
abbrev pub redemption_grant : GrantId → Text → Text → DateTime → Voucher → AccessGrant
redemption_grant id code mac now v =
    let start : DateTime = floor_to_minute now in
    AccessGrant.init (record {
      id = id;
      voucher_code = some code;
      booking_ref = v.booking_ref;
      user_input_code = none;
      device_id = mac;
      mac = mac;
      integration_id = none;
      session_token = none;
      start_utc = start;
      end_utc = ceil_to_minute (start + minutes v.duration_minutes);
      controller_grant_id = none;
      omada_gateway_mac = none;
      omada_ap_mac = none;
      omada_vid = none;
      omada_ssid_name = none;
      omada_radio_id = none;
      status = pending;
      created_utc = now;
      updated_utc = now;
    })

-- `redeem` once the voucher is read.
unfoldable pub redeem_voucher :
    GrantId
    → Text
    → Text
    → DateTime
    → Voucher
    → Database
    → Result RedeemError AccessGrant × Database
redeem_voucher id code mac now v db =
    if status_eq v.status revoked
    then (err voucher_revoked, db)
    else if is_activated_for_expiry v && ltb (expires_utc v) now
    then (
      err voucher_expired,
      VoucherRepository.save (record v { status = VoucherStatus.expired }) db,
    )
    else if any_where (λ g. column_eq g.voucher_code code)
        (AccessGrantRepository.find_pending_or_active_by_mac mac db)
    then (err duplicate_device, db)
    else if leb v.max_devices (AccessGrantRepository.count_active_by_voucher_code code db)
    then (err device_limit, db)
    else (
      ok (redemption_grant id code mac now v),
      AccessGrantRepository.add (redemption_grant id code mac now v)
          (VoucherRepository.save (redeemed now v) db),
    )

unfoldable pub redeem :
    GrantId → Text → Text → DateTime → Database → Result RedeemError AccessGrant × Database
redeem id code mac now db = elim (VoucherRepository.get_by_code code db) [
  | none ↦ (err not_found, db)
  | some v ↦ redeem_voucher id code mac now v db
]

pub data RevokeError : Type 0 where
  not_found expired : RevokeError

-- `revoke` once the voucher is read.
unfoldable pub revoke_voucher :
    DateTime → Voucher → Database → Result RevokeError Voucher × Database
revoke_voucher now v db =
    if status_eq v.status revoked
    then (ok v, db)
    else if is_activated_for_expiry v && ltb (expires_utc v) now
    then (err RevokeError.expired, VoucherRepository.save (expire_at now v) db)
    else let v' = record v { status = revoked; status_changed_utc = some now } in
      (ok v', VoucherRepository.save v' db)

unfoldable pub revoke : Text → DateTime → Database → Result RevokeError Voucher × Database
revoke code now db = elim (VoucherRepository.get_by_code code db) [
  | none ↦ (err RevokeError.not_found, db)
  | some v ↦ revoke_voucher now v db
]

pub data DeleteError : Type 0 where
  not_found redeemed_before : DeleteError

-- `status_at_delete` and `booking_ref`, for the audit log.
pub record DeleteMeta : Type 0 where
  pub status_at_delete : VoucherStatus
  pub booking_ref : Option Text

-- `delete` after its DELETE statement: what the row count says, and the second look at the table.
unfoldable pub delete_outcome :
    Text → DeleteMeta → Bool × Database → Result DeleteError DeleteMeta × Database
delete_outcome code meta (deleted, db) =
    if deleted
    then (ok meta, db)
    else if is_some (VoucherRepository.get_by_code code db)
    then (err redeemed_before, db)
    else (err DeleteError.not_found, db)

-- The database may change under `delete` between its check and its DELETE statement: `meanwhile` is
-- what other sessions commit there.
unfoldable pub delete :
    (Database → Database) → Text → Database → Result DeleteError DeleteMeta × Database
delete meanwhile code db = elim (VoucherRepository.get_by_code code db) [
  | none ↦ (err DeleteError.not_found, db)
  | some v ↦
      if ltb 0 v.redeemed_count
      then (err redeemed_before, db)
      else delete_outcome code (record { status_at_delete = v.status; booking_ref = v.booking_ref })
          (VoucherRepository.delete code (meanwhile db))
]
