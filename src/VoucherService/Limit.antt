-- ===== src/VoucherService/Limit.antt =====
-- The multi-device limit of addon/src/captive_portal/services/voucher_service.py.
use homeassistant_captive_po.Base.{
  ◌+◌, ◌≤◌, ◌<◌, ◌≡◌, inl, inr, Text, text_eq_iff, some, [], ◌∷◌, refl, sym, subst, Result, ok, err,
  arith, All, All-update_where, count_where, count_where-append, find_where-true, find_where-All,
  ◌++◌, if◌then◌else◌,
}
use homeassistant_captive_po.Time.{DateTime}
use homeassistant_captive_po.Models.Voucher.{Voucher}
use homeassistant_captive_po.Models.AccessGrant
use homeassistant_captive_po.Models.AccessGrant.{AccessGrant, GrantId}
use homeassistant_captive_po.Store.Database.{Database}
use homeassistant_captive_po.Store.VoucherRepository
use homeassistant_captive_po.Store.VoucherRepository.{with_code}
use homeassistant_captive_po.Store.AccessGrantRepository
use homeassistant_captive_po.Store.AccessGrantRepository.{
  count_active_by_voucher_code, is_active_for,
}
use homeassistant_captive_po.VoucherService.{redeemed, redemption_grant, redeem, RedeemError}
use homeassistant_captive_po.VoucherService.Redeem.{redeem_inv, redeem_refused}

-- No voucher has more pending or active grants than devices.
abbrev pub IsWithinLimit : Database → Type 0
IsWithinLimit db = All (λ v. count_active_by_voucher_code v.code db ≤ v.max_devices) db.vouchers

-- Writing back the row of a voucher with other attributes counts nothing anew.
pub save-IsWithinLimit :
    (code : Text) (v w : Voucher) (db : Database)
    → VoucherRepository.get_by_code code db ≡ some v
    → w.code ≡ v.code
    → w.max_devices ≡ v.max_devices
    → IsWithinLimit db
    → IsWithinLimit (VoucherRepository.save w db)
unfolding VoucherRepository.save count_active_by_voucher_code VoucherRepository.get_by_code
save-IsWithinLimit code v w db e c m h =
    All-update_where (λ (x : Voucher). count_where (is_active_for x.code) db.grants ≤ x.max_devices)
      (λ x. count_where (is_active_for x.code) db.grants ≤ x.max_devices) (with_code w.code)
      (λ _. w) db.vouchers
      (λ x hx t. rw (c, m) (find_where-All _ (with_code code) db.vouchers v h e)) (λ x hx t. hx) h

-- The grants of another code.
count_active-add :
    (g : AccessGrant) (c : Text) (db : Database)
    → count_active_by_voucher_code c (AccessGrantRepository.add g db)
      ≡ count_active_by_voucher_code c db + (if is_active_for c g then 1 else 0)
unfolding AccessGrantRepository.add count_active_by_voucher_code
count_active-add g c db = rw count_where-append (omega arith)

module _ (id : GrantId) (code mac : Text) (now : DateTime) (db : Database) where
  redeemed-IsWithinLimit :
      (v : Voucher)
      → VoucherRepository.get_by_code code db ≡ some v
      → count_active_by_voucher_code code db < v.max_devices
      → IsWithinLimit db
      → IsWithinLimit (
          AccessGrantRepository.add
            (redemption_grant id code mac now v)
            (VoucherRepository.save (redeemed now v) db))
  unfolding VoucherRepository.save AccessGrantRepository.add count_active_by_voucher_code
      VoucherRepository.get_by_code AccessGrant.init
  redeemed-IsWithinLimit v e room h =
      let key : v.code ≡ code =
        (text_eq_iff v.code code).0 (find_where-true (with_code code) db.vouchers v e) in
      let room' : count_where (is_active_for v.code) db.grants < v.max_devices =
        subst (λ c. count_where (is_active_for c) db.grants < v.max_devices) (sym key) room in
      let g : AccessGrant = redemption_grant id code mac now v in
      All-update_where
        (λ (x : Voucher). count_where (is_active_for x.code) db.grants ≤ x.max_devices)
        (λ x.
          count_where (is_active_for x.code) (db.grants ++ redemption_grant id code mac now v ∷ [])
          ≤ x.max_devices)
        (with_code v.code) (λ _. redeemed now v) db.vouchers
        (λ x hx t.
          ground (arith, count_where-append (is_active_for v.code) db.grants (g ∷ []), room'))
        (λ x hx t. ground (
          arith,
          count_where-append (is_active_for x.code) db.grants (g ∷ []),
          text_eq_iff x.code v.code,
          text_eq_iff code x.code,
          key,
          hx,
        ))
        h

-- Whatever a redemption returns, no voucher has more pending or active grants than devices after it,
-- if none had before.
pub redeem-IsWithinLimit :
    (id : GrantId) (code mac : Text) (now : DateTime) (db : Database)
    → IsWithinLimit db
    → IsWithinLimit (redeem id code mac now db).1
redeem-IsWithinLimit id code mac now db h = go (redeem id code mac now db).0 refl
  where
    go :
        (r : Result RedeemError AccessGrant)
        → (redeem id code mac now db).0 ≡ r
        → IsWithinLimit (redeem id code mac now db).1
    go (ok g) k =
        let (v, e, r, eq) = redeem_inv id code mac now db g k in
        subst (λ (p : Result RedeemError AccessGrant × Database). IsWithinLimit p.1) (sym eq)
          (redeemed-IsWithinLimit id code mac now db v e r.has_room h)
    go (err x) k = elim (redeem_refused id code mac now db x k) [
      | inl same ↦ subst IsWithinLimit (sym same) h
      | inr (_, (v, e, _, eq)) ↦
          subst IsWithinLimit (sym eq) (save-IsWithinLimit code v _ db e refl refl h)
    ]
