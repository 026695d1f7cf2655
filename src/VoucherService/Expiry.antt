-- ===== src/VoucherService/Expiry.antt =====
-- Expiry of vouchers in addon/src/captive_portal/services/voucher_service.py.
use homeassistant_captive_po.Base.{
  ◌≢◌, ◌⊎◌, ◌≤◌, ◌≡◌, Text, true, false, ◌&&◌, none, some, List, [], ◌∷◌, refl, arith, ltb, err,
  All, update_where, count_where, Bool-cases, inl, inr,
}
use homeassistant_captive_po.Time.{DateTime}
use homeassistant_captive_po.Models.Voucher.{
  Voucher, VoucherStatus, status_eq, active, revoked, expires_utc, is_activated_for_expiry,
}
use homeassistant_captive_po.Models.AccessGrant.{GrantId}
use homeassistant_captive_po.Store.Database.{Database}
use homeassistant_captive_po.Store.VoucherRepository.{get_by_code, age_ref}
use homeassistant_captive_po.Store.VoucherRepository
use homeassistant_captive_po.Store.Laws.{get_by_code-save_self}
use homeassistant_captive_po.VoucherService.{
  is_stale, expire_at, expire_stale_vouchers, redeem, redeem_voucher, voucher_expired,
}

pub expire_stale_vouchers_lem :
    (now : DateTime) (vs : List Voucher)
    → (expire_stale_vouchers now vs).1 ≡ update_where (is_stale now) (expire_at now) vs
unfolding expire_stale_vouchers
expire_stale_vouchers_lem now [] = refl
expire_stale_vouchers_lem now (v ∷ vs) = ground (arith, expire_stale_vouchers_lem now vs)

-- A voucher that the sweep need not touch.
abbrev pub IsSwept : DateTime → Voucher → Type 0
IsSwept now v = (v.status ≢ active) ⊎ ((is_activated_for_expiry v ≡ false) ⊎ (now ≤ expires_utc v))

swept : (now : DateTime) (v : Voucher) → is_stale now v ≡ false → IsSwept now v
swept now v h = elim (Bool-cases (status_eq v.status active)) [
  | inl a ↦ elim (Bool-cases (is_activated_for_expiry v)) [
    | inl b ↦ inr (inr (ground arith))
    | inr b ↦ inr (inl b)
  ]
  | inr a ↦ inl (λ e. ground arith)
]

-- A sweep returns the number of ACTIVE vouchers whose timer has run out; after it, no ACTIVE voucher
-- with a running timer is past its expiry, and a second sweep at that time changes nothing.
expire_stale_vouchers_sweeps :
    (now : DateTime) (vs : List Voucher)
    → ((expire_stale_vouchers now vs).0 ≡ count_where (is_stale now) vs)
      × All (IsSwept now) (expire_stale_vouchers now vs).1
      × (expire_stale_vouchers now (expire_stale_vouchers now vs).1
          ≡ (0, (expire_stale_vouchers now vs).1))
unfolding expire_stale_vouchers
expire_stale_vouchers_sweeps now [] = (refl, tt, refl)
expire_stale_vouchers_sweeps now (v ∷ vs) =
    let (n, a, s) = expire_stale_vouchers_sweeps now vs in
    elim (Bool-cases (is_stale now v)) [
      | inl e ↦ rw e (ground arith, (inl (λ h. cc), a), ground (arith, s))
      | inr e ↦ rw e (ground arith, (swept now v e, a), ground (arith, s, e))
    ]

-- A voucher that a redemption attempt finds past its expiry is stored as EXPIRED with no time of the
-- change, so that a purge counts its age from the voucher's creation.
pub redeem_expired_age :
    (id : GrantId) (code mac : Text) (now : DateTime) (db : Database) (v : Voucher)
    → get_by_code code db ≡ some v
    → status_eq v.status revoked ≡ false
    → (is_activated_for_expiry v && ltb (expires_utc v) now) ≡ true
    → v.status_changed_utc ≡ none
    → ((redeem id code mac now db).0 ≡ err voucher_expired)
      × ((w : Voucher) × (get_by_code code (redeem id code mac now db).1 ≡ some w)
          × (w.status ≡ VoucherStatus.expired)
          × (w.status_changed_utc ≡ none)
          × (age_ref w ≡ v.created_utc))
unfolding redeem redeem_voucher
redeem_expired_age id code mac now db v e r x c =
    let w = record v { status = VoucherStatus.expired } in
    let q : (redeem id code mac now db).1 ≡ VoucherRepository.save w db = ground arith in
    (ground arith, (w, rw q (get_by_code-save_self code v w db e refl), refl, c, ground arith))
