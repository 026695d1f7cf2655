-- ===== src/Models/Voucher.antt =====
-- addon/src/captive_portal/models/voucher.py. A `table=True` model of SQLModel does not run its
-- validators when it is constructed, so the record carries none; `validate_vlans` stands alone.
use homeassistant_captive_po.Base.{
  ℕ, ◌+◌, Text, Bool, true, false, Option, none, some, List, ltb, not, ◌||◌, is_some,
}
use homeassistant_captive_po.Time.{DateTime, minutes, floor_to_minute}

pub data VoucherStatus : Type 0 where
  unused active expired revoked : VoucherStatus

abbrev pub status_eq : VoucherStatus → VoucherStatus → Bool
status_eq unused unused = true
status_eq active active = true
status_eq expired expired = true
status_eq revoked revoked = true
status_eq _ _ = false

pub record Voucher : Type 0 where
  pub code : Text
  pub created_utc : DateTime
  pub duration_minutes : ℕ
  pub up_kbps : Option ℕ
  pub down_kbps : Option ℕ
  pub status : VoucherStatus
  pub booking_ref : Option Text
  pub redeemed_count : ℕ
  pub last_redeemed_utc : Option DateTime
  pub activated_utc : Option DateTime
  pub allowed_vlans : Option (List ℕ)
  pub max_devices : ℕ
  pub status_changed_utc : Option DateTime

-- Activation, or creation for a voucher that was not used yet, plus the duration.
unfoldable pub expires_utc : Voucher → DateTime
expires_utc v =
    let base : DateTime = elim v.activated_utc [ some t ↦ t | none ↦ v.created_utc ] in
    floor_to_minute (base + minutes v.duration_minutes)

unfoldable pub is_activated_for_expiry : Voucher → Bool
is_activated_for_expiry v =
    is_some v.activated_utc || ltb 0 v.redeemed_count || not (status_eq v.status unused)
