-- ===== src/VoucherService/Redemption.antt =====
-- What a successful `redeem` of addon/src/captive_portal/services/voucher_service.py leaves.
use homeassistant_captive_po.Base.{
  ◌+◌, ◌%◌, ◌≤◌, ◌<◌, ◌≡◌, Text, some, none, [], ◌∷◌, ◌++◌, ok, arith, refl, ◌↔◌, Option-cases, inl,
  inr,
}
use homeassistant_captive_po.Time.{DateTime, minutes, floor_to_minute}
use homeassistant_captive_po.Time.Rounding.{
  floor_to_minute_bounds, floor_to_minute_of_minute, ceil_to_minute_of_minute,
}
use homeassistant_captive_po.Models.Voucher.{Voucher, unused, active}
use homeassistant_captive_po.Models.AccessGrant
use homeassistant_captive_po.Models.AccessGrant.{AccessGrant, GrantId, pending}
use homeassistant_captive_po.Store.Database.{Database}
use homeassistant_captive_po.Store.VoucherRepository
use homeassistant_captive_po.Store.VoucherRepository.{get_by_code}
use homeassistant_captive_po.Store.AccessGrantRepository
use homeassistant_captive_po.Store.Laws.{get_by_code-save_self}
use homeassistant_captive_po.VoucherService.{redeemed, redemption_grant, redeem}
use homeassistant_captive_po.VoucherService.Redeem.{
  IsRedeemable, redeem_voucher_inv, redeem_voucher-ok,
}

-- The grant: pending, of the device and the code, from the minute of the redemption on for exactly
-- the voucher's minutes.
pub record IsGrantOf (id : GrantId) (code mac : Text) (now : DateTime) (v : Voucher)
    (g : AccessGrant) : Type 0 where
  pub names : (g.id ≡ id) × (g.voucher_code ≡ some code) × (g.mac ≡ mac)
  pub status : g.status ≡ pending
  pub starts : (g.start_utc ≤ now) × (now < g.start_utc + minutes 1) × (g.start_utc % minutes 1 ≡ 0)
  pub ends : g.end_utc ≡ g.start_utc + minutes v.duration_minutes

-- The voucher's row: one more redemption, and an unused voucher is activated now.
pub record IsRedeemed (now : DateTime) (v w : Voucher) : Type 0 where
  pub count : w.redeemed_count ≡ v.redeemed_count + 1
  pub last : w.last_redeemed_utc ≡ some now
  pub status : w.status ≡ elim v.status [ unused ↦ active | _ ↦ v.status ]
  pub activated : w.activated_utc ≡ elim v.activated_utc [
    | some t ↦ some t
    | none ↦ elim v.status [ unused ↦ some now | _ ↦ none ]
  ]
  pub limits : (w.duration_minutes ≡ v.duration_minutes) × (w.max_devices ≡ v.max_devices)

pub record IsRedemption (id : GrantId) (code mac : Text) (now : DateTime) (v : Voucher)
    (db : Database) (g : AccessGrant) (db' : Database) : Type 0 where
  pub grant : IsGrantOf id code mac now v g
  pub grants : db'.grants ≡ db.grants ++ g ∷ []
  pub row : (w : Voucher) × (get_by_code code db' ≡ some w) × IsRedeemed now v w

redeemed-IsRedeemed : (now : DateTime) (v : Voucher) → IsRedeemed now v (redeemed now v)
redeemed-IsRedeemed now v = record {
  count = refl;
  last = refl;
  status = ground arith;
  activated = elim (Option-cases v.activated_utc) [
    | inl e ↦ ground arith
    | inr (t, e) ↦ ground arith
  ];
  limits = (refl, refl);
}

redemption_grant-IsGrantOf :
    (id : GrantId) (code mac : Text) (now : DateTime) (v : Voucher)
    → IsGrantOf id code mac now v (redemption_grant id code mac now v)
unfolding AccessGrant.init
redemption_grant-IsGrantOf id code mac now v =
    let (lo, hi, whole) = floor_to_minute_bounds now in
    let start = floor_to_minute_of_minute (floor_to_minute now) whole in
    let end =
      ceil_to_minute_of_minute (floor_to_minute now + minutes v.duration_minutes)
        (omega (arith, whole)) in
    record {
      names = (refl, refl, refl);
      status = refl;
      starts = rw start (lo, hi, whole);
      ends = rw (start, end, end) refl;
    }

add-IsRedemption :
    (id : GrantId) (code mac : Text) (now : DateTime) (db : Database) (v : Voucher)
    → get_by_code code db ≡ some v
    → IsRedemption id code mac now v db (redemption_grant id code mac now v) (
        AccessGrantRepository.add
          (redemption_grant id code mac now v)
          (VoucherRepository.save (redeemed now v) db))
unfolding AccessGrantRepository.add AccessGrant.init VoucherRepository.save get_by_code
add-IsRedemption id code mac now db v e = record {
  grant = redemption_grant-IsGrantOf id code mac now v;
  grants = refl;
  row = (
    redeemed now v,
    get_by_code-save_self code v (redeemed now v) db e refl,
    redeemed-IsRedeemed now v,
  );
}

-- For the voucher that a code names, `redeem` returns a grant exactly when the voucher is not
-- revoked, is not past the expiry of a timer that runs, is not in use on this device, and has a
-- device left. It then returns a pending grant of the device that starts at the minute of the
-- redemption and lasts the voucher's minutes, stores that grant, and counts the redemption in the
-- voucher's row, which becomes active, with its timer started, if it was unused.
pub redeem_exact :
    (id : GrantId) (code mac : Text) (now : DateTime) (db : Database) (v : Voucher)
    → get_by_code code db ≡ some v
    → ((g : AccessGrant) × ((redeem id code mac now db).0 ≡ ok g)
        × IsRedemption id code mac now v db g (redeem id code mac now db).1)
      ↔ IsRedeemable code mac now v db
unfolding redeem
redeem_exact id code mac now db v e = (
  (λ p. let (g, h, _) = p in redeem_voucher_inv id code mac now v db g (rw (e, redeem) at h)),
  λ r.
      let k = redeem_voucher-ok id code mac now v db r in
      (
        redemption_grant id code mac now v,
        rw (e, redeem, k) refl,
        rw (e, redeem, k) (add-IsRedemption id code mac now db v e),
      ),
)
