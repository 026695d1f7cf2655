-- ===== src/Guest/Limit.antt =====
-- The vouchers' device limits through a whole request:
-- addon/src/captive_portal/api/routes/guest_authorization/orchestration.py
use homeassistant_captive_po.Base.{
  ℕ, ◌≤◌, ◌≡◌, ◌⊎◌, inl, inr, Text, Bool, true, false, Option, none, some, List, [], ◌∷◌, ◌++◌,
  Result, ok, err, ℤ, refl, subst, arith, sym, Bool-cases, Option-cases, All, All-mono,
  select_where, count_where, count_where-append, update_where,
}
use homeassistant_captive_po.Time.{DateTime}
use homeassistant_captive_po.Models.AccessGrant.{AccessGrant, GrantId, pending}
use homeassistant_captive_po.Models.Audit.{CodeType, VlanMeta, GuestError}
use homeassistant_captive_po.Store.Database.{Database, column_eq}
use homeassistant_captive_po.Store.VoucherRepository
use homeassistant_captive_po.Store.AccessGrantRepository.{
  with_id, is_active_for, count_active_by_voucher_code,
}
use homeassistant_captive_po.Codes.{CodeValidationResult}
use homeassistant_captive_po.Vlan.{validate_voucher_vlan}
use homeassistant_captive_po.VoucherService.{RedeemError, redeem}
use homeassistant_captive_po.VoucherService.Limit.{IsWithinLimit, redeem-IsWithinLimit}
use homeassistant_captive_po.Bookings.Authorize.{GuestContext, status_code, authorize_booking}
use homeassistant_captive_po.Bookings.Admission.{authorize_booking-Outcomes}
use homeassistant_captive_po.Guest.{AuthorizationDecision}
use homeassistant_captive_po.Guest.Voucher.{redeem_outcome, authorize_voucher}
use homeassistant_captive_po.Guest.Flow.{
  Environment, with_status, booking_decision, voucher_status_code, with_result,
  save_controller_result, dispatch,
}

-- Rewriting rows that counted already counts no more.
count_where-update_where-le :
    {A : Type 0} (p q : A → Bool) (f : A → A) (xs : List A)
    → All (λ x. (p (f x) ≡ false) ⊎ (p x ≡ true)) (select_where q xs)
    → count_where p (update_where q f xs) ≤ count_where p xs
count_where-update_where-le p q f [] h = omega arith
count_where-update_where-le p q f (x ∷ xs) h = elim (Bool-cases (q x)) [
  | inr e ↦ rw e (omega (arith, count_where-update_where-le p q f xs (rw e at h)))
  | inl e ↦
      let h' : All (λ x. (p (f x) ≡ false) ⊎ (p x ≡ true)) (x ∷ select_where q xs) = rw e at h in
      rw e (ground (arith, h'.0, count_where-update_where-le p q f xs h'.1))
]

-- The row of a pending grant counted, so its new status counts no more.
pub save_controller_result-IsWithinLimit :
    (g x : AccessGrant) (db : Database)
    → select_where (with_id g.id) db.grants ≡ x ∷ []
    → x.status ≡ pending
    → IsWithinLimit db
    → IsWithinLimit (save_controller_result g db)
unfolding save_controller_result count_active_by_voucher_code
save_controller_result-IsWithinLimit g x db e s h =
    All-mono _ _ db.vouchers
      (λ v le. omega (
        arith,
        le,
        count_where-update_where-le (is_active_for v.code) (with_id g.id) (with_result g) db.grants
            (subst
              (All (λ y.
                (is_active_for v.code (with_result g y) ≡ false) ⊎ (is_active_for v.code y ≡ true)))
              (sym e) (counted v.code, tt)),
      ))
      h
  where
    counted : (c : Text) → (is_active_for c (with_result g x) ≡ false) ⊎ (is_active_for c x ≡ true)
    counted c = elim (Bool-cases (column_eq x.voucher_code c)) [
      | inl y ↦ inr (rw (y, s) refl)
      | inr y ↦ inl (rw y refl)
    ]

module _ (int_of : Text → Option ℤ) (id : GrantId) (ctx : GuestContext) (v : CodeValidationResult)
    (now : DateTime) (db : Database) where
  redeemed-IsWithinLimit :
      (vlan : Option VlanMeta) (r : Result RedeemError AccessGrant × Database)
      → IsWithinLimit r.1
      → IsWithinLimit (redeem_outcome ctx v.normalized_code now vlan r).1
  redeemed-IsWithinLimit vlan (ok g, db') h = unfold count_active_by_voucher_code in h
  redeemed-IsWithinLimit vlan (err e, db') h = unfold count_active_by_voucher_code in h

  authorize_voucher-IsWithinLimit :
      IsWithinLimit db → IsWithinLimit (authorize_voucher int_of id ctx v now db).1
  unfolding authorize_voucher validate_voucher_vlan
  authorize_voucher-IsWithinLimit h =
      elim (Option-cases (VoucherRepository.get_by_code v.normalized_code db)) [
        | inl e ↦ rw (e, authorize_voucher) (redeemed-IsWithinLimit none _ redeemed)
        | inr (w, e) ↦ elim (Bool-cases (validate_voucher_vlan int_of ctx.vid w).vlan_allowed) [
          | inl a ↦
              rw (e, authorize_voucher, a)
                (redeemed-IsWithinLimit (some (validate_voucher_vlan int_of ctx.vid w)) _ redeemed)
          | inr a ↦ rw (e, authorize_voucher, a) (unfold count_active_by_voucher_code in h)
        ]
      ]
    where
      redeemed : IsWithinLimit (redeem id v.normalized_code ctx.mac_address now db).1
      redeemed = redeem-IsWithinLimit id v.normalized_code ctx.mac_address now db h

-- A grant without a voucher is no voucher's.
add-IsWithinLimit :
    (g : AccessGrant) (db : Database)
    → g.voucher_code ≡ none
    → IsWithinLimit db
    → IsWithinLimit (record db { grants = db.grants ++ g ∷ [] })
unfolding count_active_by_voucher_code
add-IsWithinLimit g db e h =
    All-mono _ _ db.vouchers
      (λ v le.
        rw (count_where-append (is_active_for v.code) db.grants (g ∷ []), e) (omega (arith, le)))
      h

module _ (env : Environment) (id : GrantId) (ctx : GuestContext) (now : DateTime)
    (v : CodeValidationResult) (db : Database) where
  booked-IsWithinLimit :
      IsWithinLimit db
      → IsWithinLimit (authorize_booking env.int_of env.sql_lower env.lower id ctx v now now db).1
  booked-IsWithinLimit h =
      elim (authorize_booking-Outcomes env.int_of env.sql_lower env.lower id ctx v now now db) [
        | inl (e, _, _, r) ↦
            let (a, l, _) = r.entry in
            subst IsWithinLimit (sym l) (unfold count_active_by_voucher_code in h)
        | inr (c, _, g, _, a) ↦
            subst IsWithinLimit (sym a.grants) (add-IsWithinLimit g db a.no_voucher h)
      ]

  with_status-IsWithinLimit :
      (f : GuestError → ℕ) (r : Result GuestError AuthorizationDecision × Database)
      → IsWithinLimit r.1
      → IsWithinLimit (with_status f r).1
  with_status-IsWithinLimit f (ok d, db') h = h
  with_status-IsWithinLimit f (err e, db') h = h

  booking_decision-IsWithinLimit :
      (r : Result GuestError (AccessGrant × VlanMeta) × Database)
      → IsWithinLimit r.1
      → IsWithinLimit (booking_decision r).1
  booking_decision-IsWithinLimit (ok _, db') h = h
  booking_decision-IsWithinLimit (err e, db') h = h

  pub dispatch-IsWithinLimit : IsWithinLimit db → IsWithinLimit (dispatch env id now ctx v db).1
  unfolding dispatch
  dispatch-IsWithinLimit h = go v.code_type refl
    where
      booking : Result GuestError (AccessGrant × VlanMeta) × Database
      booking = authorize_booking env.int_of env.sql_lower env.lower id ctx v now now db

      go : (t : CodeType) → v.code_type ≡ t → IsWithinLimit (dispatch env id now ctx v db).1
      go CodeType.voucher e =
          rw (e, dispatch)
            (with_status-IsWithinLimit voucher_status_code
              (authorize_voucher env.int_of id ctx v now db)
              (authorize_voucher-IsWithinLimit env.int_of id ctx v now db h))
      go CodeType.booking e =
          rw (e, dispatch)
            (with_status-IsWithinLimit status_code (booking_decision booking)
              (booking_decision-IsWithinLimit booking (booked-IsWithinLimit h)))
      go CodeType.invalid e = rw (e, dispatch) h
