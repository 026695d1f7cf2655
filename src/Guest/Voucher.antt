-- ===== src/Guest/Voucher.antt =====
-- The voucher branch: addon/src/captive_portal/api/routes/guest_authorization/vouchers.py
use homeassistant_captive_po.Base.{Text, not, Option, none, some, Result, ok, err, ℤ, if◌then◌else◌}
use homeassistant_captive_po.Time.{DateTime}
use homeassistant_captive_po.Models.AccessGrant.{AccessGrant, GrantId}
use homeassistant_captive_po.Models.Audit.{
  AuditLog, denied, TargetType, code, CodeType, GuestError, voucher_device_limit,
  voucher_redemption_failed, vlan_check_failed, VlanMeta, failure,
}
use homeassistant_captive_po.Store.Database.{Database}
use homeassistant_captive_po.Store.VoucherRepository
use homeassistant_captive_po.Codes.{CodeValidationResult}
use homeassistant_captive_po.Vlan.{validate_voucher_vlan}
use homeassistant_captive_po.VoucherService.{RedeemError, device_limit, redeem}
use homeassistant_captive_po.Bookings.Authorize.{GuestContext, guest_entry, log}
use homeassistant_captive_po.Guest.{AuthorizationDecision}

abbrev pub voucher_failure_entry : GuestContext → Text → DateTime → GuestError → AuditLog
voucher_failure_entry ctx normalized_code now e =
    guest_entry ctx denied (some TargetType.voucher) (some (code normalized_code)) now
      (failure ctx.client_ip (some ctx.mac_address) (some ctx.user_agent) e none)

abbrev pub voucher_vlan_entry : GuestContext → Text → DateTime → VlanMeta → AuditLog
voucher_vlan_entry ctx normalized_code now vlan =
    guest_entry ctx denied (some TargetType.voucher) (some (code normalized_code)) now
      (failure ctx.client_ip (some ctx.mac_address) none vlan_check_failed (some vlan))

-- VoucherDeviceLimitError is caught before its superclass.
abbrev pub redeem_failure : RedeemError → GuestError
redeem_failure device_limit = voucher_device_limit
redeem_failure _ = voucher_redemption_failed

abbrev pub redeem_outcome :
    GuestContext
    → Text
    → DateTime
    → Option VlanMeta
    → Result RedeemError AccessGrant × Database
    → Result GuestError AuthorizationDecision × Database
redeem_outcome ctx normalized_code now vlan (ok g, db) =
    (ok (record { grant = g; code_type = CodeType.voucher; vlan_meta = vlan }), db)
redeem_outcome ctx normalized_code now vlan (err e, db) = (
  err (redeem_failure e),
  log (voucher_failure_entry ctx normalized_code now (redeem_failure e)) db,
)

module _ (int_of : Text → Option ℤ) where
  unfoldable pub authorize_voucher :
      GrantId
      → GuestContext
      → CodeValidationResult
      → DateTime
      → Database
      → Result GuestError AuthorizationDecision × Database
  authorize_voucher id ctx v now db = elim (VoucherRepository.get_by_code v.normalized_code db) [
    | none ↦
        redeem_outcome ctx v.normalized_code now none
          (redeem id v.normalized_code ctx.mac_address now db)
    | some w ↦
        let vlan = validate_voucher_vlan int_of ctx.vid w in
        if not vlan.vlan_allowed
        then (err vlan_check_failed, log (voucher_vlan_entry ctx v.normalized_code now vlan) db)
        else redeem_outcome ctx v.normalized_code now (some vlan)
            (redeem id v.normalized_code ctx.mac_address now db)
  ]
