-- ===== src/VoucherService/Redeem.antt =====
-- What a redemption does: `redeem` of addon/src/captive_portal/services/voucher_service.py.
use homeassistant_captive_po.Base.{
  ◌<◌, ◌≡◌, ◌≢◌, ◌⊎◌, inl, inr, Text, text_eq, text_eq_refl, Bool, false, not, any_where-append,
  ◌&&◌, some, [], ◌∷◌, any_where, ok, err, arith, Option-cases, Bool-cases, ltb, any-select_where,
}
use homeassistant_captive_po.Time.{DateTime}
use homeassistant_captive_po.Models.Voucher.{
  Voucher, VoucherStatus, revoked, status_eq, expires_utc, is_activated_for_expiry,
}
use homeassistant_captive_po.Models.AccessGrant
use homeassistant_captive_po.Models.AccessGrant.{AccessGrant, GrantId, pending}
use homeassistant_captive_po.Store.Database.{Database, column_eq}
use homeassistant_captive_po.Store.VoucherRepository
use homeassistant_captive_po.Store.AccessGrantRepository
use homeassistant_captive_po.Store.AccessGrantRepository.{is_active_for}
use homeassistant_captive_po.VoucherService.{
  RedeemError, voucher_expired, redeemed, redemption_grant, redeem_voucher, redeem,
}

-- The pending or active grants of one device for one code.
abbrev pub is_on_device : Text → Text → AccessGrant → Bool
is_on_device code mac g =
    (text_eq g.mac mac && AccessGrant.is_pending_or_active g.status)
    && column_eq g.voucher_code code

-- The conditions under which a voucher is redeemed.
pub record IsRedeemable (code mac : Text) (now : DateTime) (v : Voucher) (db : Database)
    : Type 0 where
  pub not_revoked : status_eq v.status revoked ≡ false
  pub in_time : (is_activated_for_expiry v && ltb (expires_utc v) now) ≡ false
  pub new_device : any_where (is_on_device code mac) db.grants ≡ false
  pub has_room : AccessGrantRepository.count_active_by_voucher_code code db < v.max_devices

-- What `redeem_voucher` returns where the conditions hold, and that it returns nothing else.
pub redeem_voucher-ok :
    (id : GrantId) (code mac : Text) (now : DateTime) (v : Voucher) (db : Database)
    → IsRedeemable code mac now v db
    → redeem_voucher id code mac now v db ≡ (
      ok (redemption_grant id code mac now v),
      AccessGrantRepository.add
          (redemption_grant id code mac now v)
          (VoucherRepository.save (redeemed now v) db),
    )
unfolding redeem_voucher AccessGrantRepository.find_pending_or_active_by_mac
redeem_voucher-ok id code mac now v db h =
    rw
      (
        h.not_revoked,
        h.in_time,
        any-select_where (λ g. column_eq g.voucher_code code)
            (λ g. text_eq g.mac mac && AccessGrant.is_pending_or_active g.status) db.grants,
        h.new_device,
      )
      (ground (arith, h.has_room))

pub redeem_voucher_inv :
    (id : GrantId) (code mac : Text) (now : DateTime) (v : Voucher) (db : Database)
    (g : AccessGrant)
    → (redeem_voucher id code mac now v db).0 ≡ ok g
    → IsRedeemable code mac now v db
unfolding redeem_voucher AccessGrantRepository.find_pending_or_active_by_mac
redeem_voucher_inv id code mac now v db g h = ground (
  arith,
  any-select_where (λ g. column_eq g.voucher_code code)
      (λ g. text_eq g.mac mac && AccessGrant.is_pending_or_active g.status) db.grants,
)

pub redeem_inv :
    (id : GrantId) (code mac : Text) (now : DateTime) (db : Database) (g : AccessGrant)
    → (redeem id code mac now db).0 ≡ ok g
    → (v : Voucher) × (VoucherRepository.get_by_code code db ≡ some v)
      × IsRedeemable code mac now v db
      × (redeem id code mac now db ≡ (
        ok (redemption_grant id code mac now v),
        AccessGrantRepository.add
            (redemption_grant id code mac now v)
            (VoucherRepository.save (redeemed now v) db),
      ))
unfolding redeem
redeem_inv id code mac now db g h = elim (Option-cases (VoucherRepository.get_by_code code db)) [
  | inl e ↦ absurd (ground arith)
  | inr (v, e) ↦
      let r : IsRedeemable code mac now v db =
        redeem_voucher_inv id code mac now v db g (rw (e, redeem) at h) in
      (v, e, r, rw (e, redeem) (redeem_voucher-ok id code mac now v db r))
]

-- A device that redeemed a code gets no second grant from the code in the state that the redemption
-- left, at whatever time it asks.
pub redeem_again :
    (id id' : GrantId) (code mac : Text) (now now' : DateTime) (db : Database) (g g' : AccessGrant)
    → (redeem id code mac now db).0 ≡ ok g
    → (redeem id' code mac now' (redeem id code mac now db).1).0 ≢ ok g'
unfolding AccessGrantRepository.add VoucherRepository.save AccessGrant.init
redeem_again id id' code mac now now' db g g' h k =
    let (v, _, _, e) = redeem_inv id code mac now db g h in
    let (_, _, r, _) = redeem_inv id' code mac now' (redeem id code mac now db).1 g' k in
    ground (
      arith,
      e,
      r.new_device,
      text_eq_refl code,
      text_eq_refl mac,
      any_where-append (is_on_device code mac) db.grants (redemption_grant id code mac now v ∷ []),
    )

-- A redemption that is refused changes nothing, but that a voucher found past its expiry is marked
-- EXPIRED.
pub redeem_refused :
    (id : GrantId) (code mac : Text) (now : DateTime) (db : Database) (e : RedeemError)
    → (redeem id code mac now db).0 ≡ err e
    → ((redeem id code mac now db).1 ≡ db)
      ⊎ ((e ≡ voucher_expired)
          × ((v : Voucher) × (VoucherRepository.get_by_code code db ≡ some v)
              × (expires_utc v < now)
              × ((redeem id code mac now db).1
                  ≡ VoucherRepository.save (record v { status = VoucherStatus.expired }) db)))
unfolding redeem redeem_voucher
redeem_refused id code mac now db e h =
    elim (Option-cases (VoucherRepository.get_by_code code db)) [
      | inl n ↦ inl (ground arith)
      | inr (v, n) ↦
          elim (Bool-cases (
            not (status_eq v.status revoked)
            && (is_activated_for_expiry v && ltb (expires_utc v) now))) [
              | inl x ↦ inr (ground arith, (v, n, ground arith, ground arith))
              | inr x ↦ inl (ground arith)
            ]
    ]
