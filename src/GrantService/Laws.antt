-- ===== src/GrantService/Laws.antt =====
-- What the operations of addon/src/captive_portal/services/grant_service.py do to a grant.
use homeassistant_captive_po.Base.{
  Bool-cases, ◌⊎◌, negsuc, positive?, zero, ℤ, ℕ, suc, ◌+◌, ◌%◌, ◌≤◌, ◌<◌, ◌≡◌, ◌≢◌, inl, inr, Text,
  none, some, Option, [], ◌∷◌, ◌++◌, refl, arith, ok, err, Option-cases, pos,
}
use homeassistant_captive_po.Time.{DateTime, minutes}
use homeassistant_captive_po.Time.Rounding.{ceil_to_minute_bounds, floor_to_minute_bounds}
use homeassistant_captive_po.Models.AccessGrant
use homeassistant_captive_po.Models.AccessGrant.{
  AccessGrant, GrantId, GrantStatus, pending, active, expired, revoked, is_revoked, is_expired,
}
use homeassistant_captive_po.Store.Database.{Database}
use homeassistant_captive_po.Store.AccessGrantRepository
use homeassistant_captive_po.Store.AccessGrantRepository.{get_by_id}
use homeassistant_captive_po.Store.Laws.{get_by_id-save}
use homeassistant_captive_po.GrantService.{
  GrantError, bad_minutes, not_found, revoked_grant, create, extend, extended, revoke, revoked_at,
}

-- A created grant is pending, starts no later and ends no earlier than requested, on whole minutes,
-- and ends after it starts.
pub create_window :
    (id : GrantId) (mac : Text) (start_utc end_utc : DateTime)
    (voucher_code booking_ref session_token : Option Text) (now : DateTime) (db : Database)
    (g : AccessGrant)
    → (create id mac start_utc end_utc voucher_code booking_ref session_token now db).0 ≡ ok g
    → (start_utc < end_utc)
      × (g.start_utc ≤ start_utc)
      × (end_utc ≤ g.end_utc)
      × (g.start_utc < g.end_utc)
      × (g.start_utc % minutes 1 ≡ 0)
      × (g.end_utc % minutes 1 ≡ 0)
      × (g.status ≡ pending)
      × ((create id mac start_utc end_utc voucher_code booking_ref session_token now db).1.grants
          ≡ db.grants ++ g ∷ [])
unfolding create AccessGrant.init AccessGrantRepository.add
create_window id mac start_utc end_utc voucher_code booking_ref session_token now db g h =
    ground (arith, ceil_to_minute_bounds end_utc, floor_to_minute_bounds start_utc)

save-get_by_id :
    (i : GrantId) (g w : AccessGrant) (db : Database)
    → get_by_id i db ≡ some g
    → w.id ≡ g.id
    → get_by_id i (AccessGrantRepository.save w db) ≡ some w
save-get_by_id i g w db e k = ground (arith, get_by_id-save i w db)

-- What an extension makes of the grant `g`.
pub record IsExtended (additional : ℕ) (g w : AccessGrant) : Type 0 where
  pub ends :
      (g.end_utc + minutes additional ≤ w.end_utc)
      × (w.end_utc < g.end_utc + minutes additional + minutes 1)
      × (w.end_utc % minutes 1 ≡ 0)
  pub status : w.status ≡ elim g.status [ GrantStatus.expired ↦ active | _ ↦ g.status ]
  pub start : w.start_utc ≡ g.start_utc

extended-IsExtended :
    (additional : ℕ) (now : DateTime) (g : AccessGrant)
    → IsExtended additional g (extended additional now g)
extended-IsExtended additional now g = record {
  ends = ceil_to_minute_bounds (g.end_utc + minutes additional);
  status = ground arith;
  start = refl;
}

-- Extending by a number of minutes that is not positive, or a grant that is unknown or revoked, is
-- refused and nothing changes; any other grant is stored with an end on a whole minute, at least the
-- minutes later and less than one minute more, and an expired one becomes active.
pub extend_exact :
    (id : GrantId) (additional_minutes : ℤ) (now : DateTime) (db : Database)
    → let (r, db') = extend id additional_minutes now db in
      ((e : GrantError) × (r ≡ err e)
        × (db' ≡ db)
        × ((positive? additional_minutes ≡ none)
            ⊎ ((get_by_id id db ≡ none)
                ⊎ ((g : AccessGrant) × (get_by_id id db ≡ some g) × (g.status ≡ revoked)))))
      ⊎ ((additional : ℕ) × (g : AccessGrant) × (w : AccessGrant) × (additional_minutes
            ≡ pos (suc additional))
          × (get_by_id id db ≡ some g)
          × (g.status ≢ revoked)
          × (r ≡ ok w)
          × (get_by_id id db' ≡ some w)
          × IsExtended (suc additional) g w)
unfolding extend
extend_exact id (negsuc n) now db = inl (bad_minutes, refl, refl, inl refl)
extend_exact id (pos zero) now db = inl (bad_minutes, refl, refl, inl refl)
extend_exact id (pos (suc additional)) now db = elim (Option-cases (get_by_id id db)) [
  | inl e ↦ inl (not_found, ground arith, ground arith, inr (inl e))
  | inr (g, e) ↦ elim (Bool-cases (is_revoked g.status)) [
    | inl r ↦ inl (revoked_grant, ground arith, ground arith, inr (inr (g, e, ground arith)))
    | inr r ↦
        let w = extended (suc additional) now g in
        inr (
          additional,
          g,
          w,
          refl,
          e,
          (λ k. ground arith),
          ground arith,
          rw (e, r, extend) (save-get_by_id id g w db e refl),
          extended-IsExtended (suc additional) now g,
        )
  ]
]

pub revoke_ok :
    (id : GrantId) (now : DateTime) (db : Database) (w : AccessGrant)
    → (revoke id now db).0 ≡ ok w
    → (get_by_id id (revoke id now db).1 ≡ some w) × (w.status ≡ revoked)
unfolding revoke
revoke_ok id now db w h = elim (Option-cases (get_by_id id db)) [
  | inl n ↦ absurd (ground arith)
  | inr (g, e) ↦ ground (arith, save-get_by_id id g (revoked_at now g) db e refl)
]

revoke_of_revoked :
    (id : GrantId) (now : DateTime) (db : Database) (w : AccessGrant)
    → get_by_id id db ≡ some w
    → w.status ≡ revoked
    → revoke id now db ≡ (ok w, db)
unfolding revoke
revoke_of_revoked id now db w e r = ground arith

-- Revoking a grant that is not revoked yet ends it at the time of the call; the grant that is stored
-- after any revocation is the revoked one that was returned, and revoking again, at whatever time,
-- returns the same and changes nothing.
pub revoke_idempotent :
    (id : GrantId) (now later : DateTime) (db : Database) (g w : AccessGrant)
    → get_by_id id db ≡ some g
    → (revoke id now db).0 ≡ ok w
    → let db' = (revoke id now db).1 in
      (w.end_utc ≡ elim g.status [ GrantStatus.revoked ↦ g.end_utc | _ ↦ now ])
      × (get_by_id id db' ≡ some w)
      × (w.status ≡ revoked)
      × (revoke id later db' ≡ (ok w, db'))
revoke_idempotent id now later db g w e h =
    let (k, r) = revoke_ok id now db w h in
    (
      unfold revoke in ground (arith, e, h),
      k,
      r,
      revoke_of_revoked id later (revoke id now db).1 w k r,
    )
