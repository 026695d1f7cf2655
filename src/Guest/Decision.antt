-- ===== src/Guest/Decision.antt =====
-- What the two branches of addon/src/captive_portal/api/routes/guest_authorization/ leave.
use homeassistant_captive_po.Base.{
  ℕ, ◌≡◌, ◌≢◌, ◌⊎◌, inl, inr, Text, Option, none, some, [], ◌∷◌, ◌++◌, Result, ok, err, ℤ, refl,
  arith, subst, ap, ◌∙◌, Bool-cases, Option-cases,
}
use homeassistant_captive_po.Time.{DateTime}
use homeassistant_captive_po.Models.AccessGrant
use homeassistant_captive_po.Models.AccessGrant.{AccessGrant, GrantId, pending}
use homeassistant_captive_po.Models.Audit.{
  AuditLog, success, CodeType, GuestError, vlan_check_failed, VlanMeta,
}
use homeassistant_captive_po.Store.Database.{Database}
use homeassistant_captive_po.Store.VoucherRepository
use homeassistant_captive_po.Store.AccessGrantRepository
use homeassistant_captive_po.Codes.{CodeValidationResult, validate_code}
use homeassistant_captive_po.Vlan.{validate_voucher_vlan}
use homeassistant_captive_po.VoucherService.{RedeemError, redeem}
use homeassistant_captive_po.VoucherService.Redeem.{redeem_inv, redeem_refused}
use homeassistant_captive_po.Bookings.{Candidate}
use homeassistant_captive_po.Bookings.Authorize.{GuestContext, status_code, authorize_booking}
use homeassistant_captive_po.Bookings.Admission.{IsRefusal, IsAdmission, authorize_booking-Outcomes}
use homeassistant_captive_po.Guest.{AuthorizationDecision}
use homeassistant_captive_po.Guest.Voucher.{
  voucher_failure_entry, redeem_failure, redeem_outcome, authorize_voucher,
}
use homeassistant_captive_po.Guest.Flow.{
  Environment, with_status, booking_decision, voucher_status_code, dispatch,
}

-- A refusal adds one entry to the audit log, which does not say success, and keeps the grants.
abbrev pub IsLogged : Database → Database → Type 0
IsLogged db db' =
    (a : AuditLog) × (db'.audit_logs ≡ db.audit_logs ++ a ∷ [])
    × (db'.grants ≡ db.grants)
    × (a.outcome ≢ success)

-- A decision adds one grant, the pending one that it carries.
pub record IsDecided (id : GrantId) (d : AuthorizationDecision) (db db' : Database) : Type 0 where
  pub names : d.grant.id ≡ id
  pub status : d.grant.status ≡ pending
  pub grants : db'.grants ≡ db.grants ++ d.grant ∷ []
  pub logs : db'.audit_logs ≡ db.audit_logs

abbrev pub Decides {ℓ} :
    {E : Type ℓ} → GrantId → Database → Result E AuthorizationDecision × Database → Type ℓ
Decides {E = E} id db (r, db') =
    ((e : E) × (r ≡ err e) × IsLogged db db')
    ⊎ ((d : AuthorizationDecision) × (r ≡ ok d) × IsDecided id d db db')

-- The code's validation never passes a code of no type on.
pub validate_code-type :
    (upper : Text → Text) (s : Text) (v : CodeValidationResult)
    → validate_code upper s ≡ ok v
    → v.code_type ≢ CodeType.invalid
unfolding validate_code
validate_code-type upper s v h k = ground (arith, h, k)

module _ (int_of : Text → Option ℤ) (id : GrantId) (ctx : GuestContext) (v : CodeValidationResult)
    (now : DateTime) (db : Database) where
  abbrev redeemed_with : Option VlanMeta → Result GuestError AuthorizationDecision × Database
  redeemed_with vlan =
      redeem_outcome ctx v.normalized_code now vlan
        (redeem id v.normalized_code ctx.mac_address now db)

  redeemed_with-Decides : (vlan : Option VlanMeta) → Decides id db (redeemed_with vlan)
  redeemed_with-Decides vlan = go (redeem id v.normalized_code ctx.mac_address now db).0 refl
    where
      go :
          (r : Result RedeemError AccessGrant)
          → (redeem id v.normalized_code ctx.mac_address now db).0 ≡ r
          → Decides id db (redeemed_with vlan)
      go (ok g) e =
          let (w, _, _, q) = redeem_inv id v.normalized_code ctx.mac_address now db g e in
          rw q (
            inr (
              _,
              refl,
              unfold AccessGrant.init AccessGrantRepository.add VoucherRepository.save in
                  record { names = refl; status = refl; grants = refl; logs = refl },
            ))
      go (err x) e =
          let db' = (redeem id v.normalized_code ctx.mac_address now db).1 in
          let logs : db'.audit_logs ≡ db.audit_logs =
            elim (redeem_refused id v.normalized_code ctx.mac_address now db x e) [
              | inl q ↦ ap (λ (d : Database). d.audit_logs) q
              | inr (_, (w, _, _, q)) ↦
                  ap (λ (d : Database). d.audit_logs) q ∙ unfold VoucherRepository.save in refl
            ] in
          let grants : db'.grants ≡ db.grants =
            elim (redeem_refused id v.normalized_code ctx.mac_address now db x e) [
              | inl q ↦ ap (λ (d : Database). d.grants) q
              | inr (_, (w, _, _, q)) ↦
                  ap (λ (d : Database). d.grants) q ∙ unfold VoucherRepository.save in refl
            ] in
          let p : redeem id v.normalized_code ctx.mac_address now db ≡ (err x, db') =
            ground (arith, e) in
          rw p (
            inl (
              redeem_failure x,
              refl,
              (
                _,
                ap
                    (λ l.
                      l ++ voucher_failure_entry ctx v.normalized_code now (redeem_failure x) ∷ [])
                    logs,
                grants,
                λ k. ground (arith, k),
              ),
            ))

  authorize_voucher-Decides : Decides id db (authorize_voucher int_of id ctx v now db)
  unfolding authorize_voucher validate_voucher_vlan
  authorize_voucher-Decides =
      elim (Option-cases (VoucherRepository.get_by_code v.normalized_code db)) [
        | inl e ↦ rw (e, authorize_voucher) (redeemed_with-Decides none)
        | inr (w, e) ↦ elim (Bool-cases (validate_voucher_vlan int_of ctx.vid w).vlan_allowed) [
          | inl a ↦
              rw (e, authorize_voucher, a)
                (redeemed_with-Decides (some (validate_voucher_vlan int_of ctx.vid w)))
          | inr a ↦
              rw (e, authorize_voucher, a)
                (inl (vlan_check_failed, refl, (_, refl, refl, λ k. ground (arith, k))))
        ]
      ]

module _ (id : GrantId) (db : Database) where
  with_status-Decides :
      (f : GuestError → ℕ) (r : Result GuestError AuthorizationDecision × Database)
      → Decides id db r
      → Decides id db (with_status f r)
  with_status-Decides f (ok d, db') (inl (e, q, _)) = absurd (cc)
  with_status-Decides f (ok d, db') (inr (d', q, h)) = inr (d', ground (arith, q), h)
  with_status-Decides f (err x, db') (inl (e, q, h)) = inl (f x, refl, h)
  with_status-Decides f (err x, db') (inr (d', q, h)) = absurd (cc)

module _ (int_of : Text → Option ℤ) (sql_lower lower : Text → Text) (id : GrantId)
    (ctx : GuestContext) (v : CodeValidationResult) (looked now : DateTime) (db : Database) where
  booked :
      (r : Result GuestError (AccessGrant × VlanMeta)) (db' : Database)
      → (((e : GuestError) × (r ≡ err e) × IsRefusal db db')
          ⊎ ((c : Candidate) × (g : AccessGrant) × (vlan : VlanMeta) × (r ≡ ok (g, vlan))
              × IsAdmission int_of sql_lower lower id ctx v now c g db db'))
      → Decides id db (booking_decision (r, db'))
  booked (ok (g, vlan)) db' (inl (e, q, _)) = absurd (cc)
  booked (ok (g, vlan)) db' (inr (c, g', vlan', q, a)) =
      let same : g' ≡ g = ground (arith, q) in
      let (_, _, status) = a.grant.names in
      inr (
        _,
        refl,
        record {
          names = subst (λ (x : AccessGrant). x.id ≡ id) same a.named;
          status = subst (λ (x : AccessGrant). x.status ≡ pending) same status;
          grants = ap (λ (d : Database). d.grants) a.grants ∙ ap (λ x. db.grants ++ x ∷ []) same;
          logs = ap (λ (d : Database). d.audit_logs) a.grants;
        },
      )
  booked (err x) db' (inl (e, q, r)) =
      let (a, l, n) = r.entry in
      inl
        (x, refl, (a, ap (λ (d : Database). d.audit_logs) l, ap (λ (d : Database). d.grants) l, n))
  booked (err x) db' (inr (c, g', vlan', q, a)) = absurd (cc)

  authorize_booking-Decides :
      Decides id db
        (booking_decision (authorize_booking int_of sql_lower lower id ctx v looked now db))
  authorize_booking-Decides =
      let (r, db') = authorize_booking int_of sql_lower lower id ctx v looked now db in
      booked r db'
        (elim (authorize_booking-Outcomes int_of sql_lower lower id ctx v looked now db) [
          | inl (e, q, _, r) ↦ inl (e, q, r)
          | inr (c, _, g, q, a) ↦ inr (c, g, _, q, a)
        ])

-- A refusal adds one audit entry, which does not say success, and no grant. A decision stores its pending grant alone.
pub dispatch-Decides :
    (env : Environment) (id : GrantId) (now : DateTime) (ctx : GuestContext)
    (v : CodeValidationResult) (db : Database)
    → v.code_type ≢ CodeType.invalid
    → Decides id db (dispatch env id now ctx v db)
unfolding dispatch
dispatch-Decides env id now ctx v db h = go v.code_type refl
  where
    go : (t : CodeType) → v.code_type ≡ t → Decides id db (dispatch env id now ctx v db)
    go CodeType.voucher e =
        rw (e, dispatch)
          (with_status-Decides id db voucher_status_code _
            (authorize_voucher-Decides env.int_of id ctx v now db))
    go CodeType.booking e =
        rw (e, dispatch)
          (with_status-Decides id db status_code _
            (authorize_booking-Decides env.int_of env.sql_lower env.lower id ctx v now now db))
    go CodeType.invalid e = absurd (h e)
