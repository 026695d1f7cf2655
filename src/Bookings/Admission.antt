-- ===== src/Bookings/Admission.antt =====
-- Whom the booking branch admits:
-- addon/src/captive_portal/api/routes/guest_authorization/bookings.py
use homeassistant_captive_po.Base.{
  strip, subst, ℕ, ◌+◌, ◌%◌, ◌≤◌, ◌<◌, ◌≡◌, ◌≢◌, ◌⊎◌, inl, inr, Text, true, false, ltb, Option,
  none, some, List, [], ◌∷◌, ◌++◌, refl, arith, any_where, Result, ok, err, ℤ, if◌then◌else◌,
  Bool-cases, Option-cases,
}
use homeassistant_captive_po.Time.{DateTime, minutes, floor_to_minute, ceil_to_minute}
use homeassistant_captive_po.Time.Rounding.{
  floor_to_minute_bounds, ceil_to_minute_bounds, floor_to_minute_of_minute,
  ceil_to_minute_of_minute,
}
use homeassistant_captive_po.Models.AccessGrant
use homeassistant_captive_po.Models.AccessGrant.{AccessGrant, GrantId, pending}
use homeassistant_captive_po.Models.Audit.{
  AuditLog, success, GuestError, booking_not_found, booking_outside_window, duplicate_grant,
  integration_unavailable, vlan_check_failed, VlanMeta,
}
use homeassistant_captive_po.Models.Booking.{HaIntegrationConfig, RentalControlEvent}
use homeassistant_captive_po.Store.Database.{Database}
use homeassistant_captive_po.Store.AccessGrantRepository
use homeassistant_captive_po.Codes.{CodeValidationResult}
use homeassistant_captive_po.Vlan.{validate_booking_vlan}
use homeassistant_captive_po.Bookings.{
  Candidate, attribute, candidates, find_across_integrations, is_in_window,
}
use homeassistant_captive_po.Bookings.Selection.{in_window, find_across_integrations-best}
use homeassistant_captive_po.Bookings.Authorize.{
  GuestContext, log, booking_failure_entry, check_booking_window, booking_grant, has_duplicate,
  find_booking_match, authorize_match, authorize_booking,
}

check_booking_window_lem :
    (e : RentalControlEvent) (grace : ℕ) (now : DateTime)
    → check_booking_window e.start_utc e.end_utc grace now
      ≡ (if is_in_window grace now e then some (e.end_utc + minutes grace) else none)
unfolding check_booking_window
check_booking_window_lem e grace now = ground arith

-- A refusal writes one audit entry, which does not say success, and changes nothing else.
pub record IsRefusal (db db' : Database) : Type 0 where
  pub entry :
      (a : AuditLog) × (db' ≡ record db { audit_logs = db.audit_logs ++ a ∷ [] })
      × (a.outcome ≢ success)

-- The grant of a booking: of the device, for the matched identifier, from the minute of the later of
-- now and the booking's start up to the whole minute at or after its end and the grace period.
pub record IsBookingGrant (ctx : GuestContext) (c : Candidate) (now : DateTime) (g : AccessGrant)
    : Type 0 where
  pub names :
      (g.mac ≡ ctx.mac_address)
      × (g.booking_ref ≡ attribute c.1.identifier_attr c.0)
      × (g.status ≡ pending)
  pub starts :
      (g.start_utc % minutes 1 ≡ 0)
      × (((g.start_utc ≤ now) × (now < g.start_utc + minutes 1))
          ⊎ ((g.start_utc ≤ c.0.start_utc)
              × (c.0.start_utc < g.start_utc + minutes 1)
              × (now < c.0.start_utc)))
  pub ends :
      (c.0.end_utc + minutes c.1.checkout_grace_minutes ≤ g.end_utc)
      × (g.end_utc < c.0.end_utc + minutes c.1.checkout_grace_minutes + minutes 1)
      × (g.end_utc % minutes 1 ≡ 0)

booking_grant-IsBookingGrant :
    (id : GrantId) (ctx : GuestContext) (v : CodeValidationResult) (c : Candidate) (now : DateTime)
    → IsBookingGrant ctx c now
        (booking_grant id ctx v c (c.0.end_utc + minutes c.1.checkout_grace_minutes) now)
unfolding AccessGrant.init
booking_grant-IsBookingGrant id ctx v (e, i) now =
    let end = e.end_utc + minutes i.checkout_grace_minutes in
    let (lo, hi, whole) = ceil_to_minute_bounds end in
    let start : DateTime = if ltb now e.start_utc then e.start_utc else now in
    let (slo, shi, swhole) = floor_to_minute_bounds start in
    let again = floor_to_minute_of_minute (floor_to_minute start) swhole in
    let ends = ceil_to_minute_of_minute (ceil_to_minute end) whole in
    record {
      names = (refl, refl, refl);
      starts = rw again (
        swhole,
        elim (Bool-cases (ltb now e.start_utc)) [
          | inl t ↦ inr (ground arith, ground arith, ground arith)
          | inr t ↦ inl (ground arith, ground arith)
        ],
      );
      ends = rw ends (lo, hi, whole);
    }

module _ (int_of : Text → Option ℤ) (sql_lower lower : Text → Text) (id : GrantId)
    (ctx : GuestContext) (v : CodeValidationResult) where
  abbrev selected : DateTime → Database → Option Candidate
  selected looked db = find_across_integrations sql_lower lower v.normalized_code looked db

  abbrev vlan_of : Candidate → VlanMeta
  vlan_of c = validate_booking_vlan int_of ctx.vid c.1

  -- Why a code is refused. The two conditions of the same candidate that are checked before another
  -- failure are not repeated with it.
  abbrev pub Reason : DateTime → DateTime → Database → GuestError → Type 0
  Reason looked now db integration_unavailable = db.integrations ≡ []
  Reason looked now db booking_not_found = selected looked db ≡ none
  Reason looked now db vlan_check_failed =
      (c : Candidate) × (selected looked db ≡ some c) × ((vlan_of c).vlan_allowed ≡ false)
  Reason looked now db booking_outside_window =
      (c : Candidate) × (selected looked db ≡ some c) × (in_window now c ≡ false)
  Reason looked now db duplicate_grant =
      has_duplicate int_of sql_lower lower ctx.mac_address v.normalized_code db ≡ true
  Reason looked now db _ = true ≡ false

  -- What an admission rests on and leaves.
  pub record IsAdmission (now : DateTime) (c : Candidate) (g : AccessGrant) (db db' : Database)
      : Type 0 where
    pub named : g.id ≡ id
    pub no_voucher : g.voucher_code ≡ none
    pub vlan : (vlan_of c).vlan_allowed ≡ true
    pub window : in_window now c ≡ true
    pub fresh : has_duplicate int_of sql_lower lower ctx.mac_address v.normalized_code db ≡ false
    pub grant : IsBookingGrant ctx c now g
    pub grants : db' ≡ record db { grants = db.grants ++ g ∷ [] }

  abbrev pub Outcomes :
      DateTime
      → DateTime
      → Database
      → Result GuestError (AccessGrant × VlanMeta) × Database
      → Type 0
  Outcomes looked now db (r, db') =
      ((e : GuestError) × (r ≡ err e) × Reason looked now db e × IsRefusal db db')
      ⊎ ((c : Candidate) × (selected looked db ≡ some c)
          × (g : AccessGrant) × (r ≡ ok (g, vlan_of c))
          × IsAdmission now c g db db')

  authorize_match-Outcomes :
      (looked now : DateTime) (db : Database) (c : Candidate)
      → selected looked db ≡ some c
      → Outcomes looked now db (authorize_match int_of sql_lower lower id ctx v now c db)
  unfolding authorize_match AccessGrantRepository.add AccessGrant.init
  authorize_match-Outcomes looked now db (e, i) s =
      elim (Bool-cases (vlan_of (e, i)).vlan_allowed) [
        | inr n ↦
            rw (n, authorize_match)
              (inl (
                vlan_check_failed,
                refl,
                ((e, i), s, n),
                record { entry = (_, refl, λ k. ground (arith, k)) },
              ))
        | inl y ↦ elim (Bool-cases (in_window now (e, i))) [
          | inr n ↦
              rw (y, authorize_match, check_booking_window_lem e i.checkout_grace_minutes now, n)
                (inl (
                  booking_outside_window,
                  refl,
                  ((e, i), s, n),
                  record { entry = (_, refl, λ k. ground (arith, k)) },
                ))
          | inl w ↦
              elim (Bool-cases
                (has_duplicate int_of sql_lower lower ctx.mac_address v.normalized_code db)) [
                  | inl d ↦
                      rw
                        (
                          y,
                          authorize_match,
                          check_booking_window_lem e i.checkout_grace_minutes now,
                          w,
                          d,
                        )
                        (inl (
                          duplicate_grant,
                          refl,
                          d,
                          record { entry = (_, refl, λ k. ground (arith, k)) },
                        ))
                  | inr d ↦
                      rw
                        (
                          y,
                          authorize_match,
                          check_booking_window_lem e i.checkout_grace_minutes now,
                          w,
                          d,
                        )
                        (inr (
                          (e, i),
                          s,
                          booking_grant id ctx v (e, i)
                              (e.end_utc + minutes i.checkout_grace_minutes) now,
                          refl,
                          record {
                            named = refl;
                            no_voucher = refl;
                            vlan = y;
                            window = w;
                            fresh = d;
                            grant = booking_grant-IsBookingGrant id ctx v (e, i) now;
                            grants = refl;
                          },
                        ))
                ]
        ]
      ]

  find_booking_match_cases :
      (looked : DateTime) (db : Database)
      → ((e : GuestError) × (find_booking_match int_of sql_lower lower v.normalized_code looked db
            ≡ err e)
          × ((now : DateTime) → Reason looked now db e))
        ⊎ ((c : Candidate) × (find_booking_match int_of sql_lower lower v.normalized_code looked db
              ≡ ok c)
            × (selected looked db ≡ some c))
  unfolding find_booking_match
  find_booking_match_cases looked db = go db.integrations refl
    where
      go :
          (is : List HaIntegrationConfig)
          → db.integrations ≡ is
          → ((e : GuestError) × (find_booking_match int_of sql_lower lower v.normalized_code looked
                  db
                ≡ err e)
              × ((now : DateTime) → Reason looked now db e))
            ⊎ ((c : Candidate) × (find_booking_match int_of sql_lower lower v.normalized_code looked
                    db
                  ≡ ok c)
                × (selected looked db ≡ some c))
      go [] e = inl (integration_unavailable, rw (e, find_booking_match) refl, λ now. e)
      go (i ∷ is) e = elim (Option-cases (selected looked db)) [
        | inl n ↦ inl (booking_not_found, ground (arith, e, n), λ now. n)
        | inr (c, s) ↦ inr (c, ground (arith, e, s), s)
      ]

  refused :
      (now : DateTime) (db : Database) (e : GuestError)
      → IsRefusal db (log (booking_failure_entry ctx v.normalized_code now e) db)
  refused now db e = record {
    entry = (booking_failure_entry ctx v.normalized_code now e, refl, λ k. ground (arith, k));
  }

  -- A booking code is refused for a reason that holds, with one audit entry written and nothing else
  -- changed, or else the event that it selects admits the device: its VLAN is allowed, its access
  -- window is open, no active grant of the device is for that code, and exactly the booking's grant
  -- is stored.
  pub authorize_booking-Outcomes :
      (looked now : DateTime) (db : Database)
      → Outcomes looked now db (authorize_booking int_of sql_lower lower id ctx v looked now db)
  unfolding authorize_booking
  authorize_booking-Outcomes looked now db = elim (find_booking_match_cases looked db) [
    | inl (e, q, reason) ↦ rw (q, authorize_booking) (inl (e, refl, reason now, refused now db e))
    | inr (c, q, s) ↦ rw (q, authorize_booking) (authorize_match-Outcomes looked now db c s)
  ]

  -- If the access window of some event that the code matches is open, a guest is not turned away as
  -- outside the window, whatever other events match, where the lookup and the check see one time.
  pub authorize_booking-in_window :
      (now : DateTime) (db : Database)
      → any_where
          (in_window now)
          (candidates sql_lower lower (strip v.normalized_code) db.integrations db)
        ≡ true
      → (authorize_booking int_of sql_lower lower id ctx v now now db).0
        ≢ err booking_outside_window
  authorize_booking-in_window now db h k = elim (authorize_booking-Outcomes now now db) [
    | inl (e, q, reason, _) ↦
        let same : e ≡ booking_outside_window = ground (arith, q, k) in
        let (c, s, w) = subst (λ x. Reason now now db x) same reason in
        let (_, within) =
          find_across_integrations-best sql_lower lower v.normalized_code now db c s in
        ground (arith, within, w, h)
    | inr (c, s, g, q, _) ↦ ground (arith, q, k)
  ]
