-- ===== src/GrantRoutes.antt =====
-- addon/src/captive_portal/api/routes/grants.py: the grants in the admin's API.
--
-- An HTTPException is its status; 500 is an exception that a handler lets through. `meanwhile` is what
-- others commit during the controller's call. The rows that a SELECT returns belong to the session,
-- and the commit of the audit entry writes the attributes that a handler set on them.
pub mod Listing
pub mod Revocation
use homeassistant_captive_po.Base.{
  ℕ, zero, suc, ◌+◌, Text, is_empty, Bool, true, false, not, ◌&&◌, ◌||◌, ltb, leb, ◌==◌, Option,
  none, some, List, [], ◌∷◌, ◌++◌, map, Result, ok, err, ℤ, pos, negsuc, length, select_where,
  any_where, update_where, if◌then◌else◌,
}
use homeassistant_captive_po.Time.{DateTime}
use homeassistant_captive_po.Models.AccessGrant.{
  AccessGrant, GrantId, GrantStatus, pending, active, expired, revoked, failed, is_revoked,
}
use homeassistant_captive_po.Models.Audit.{
  AuditLog, Action, admin, success, access_grant, TargetId, Meta, listed, extended, withdrawn,
}
use homeassistant_captive_po.Store.Database.{Database}
use homeassistant_captive_po.Store.AccessGrantRepository.{get_by_id}
use homeassistant_captive_po.GrantService
use homeassistant_captive_po.GrantService.{GrantError, not_found, revoked_grant}
use homeassistant_captive_po.GrantExpiry.{Reply, returned, client_error, other_error, in_ids}

abbrev pub log : AuditLog → Database → Database
log entry db = record db { audit_logs = db.audit_logs ++ entry ∷ [] }

-- `log_admin_action`
abbrev pub admin_entry : Text → Action → Option GrantId → DateTime → Meta → AuditLog
admin_entry admin_id action target now meta = record {
  actor = admin admin_id;
  action = action;
  target_type = some access_grant;
  target_id = elim target [ none ↦ none | some i ↦ some (TargetId.grant i) ];
  timestamp_utc = now;
  outcome = success;
  meta = meta;
}

-- status not in (REVOKED, FAILED)
abbrev pub is_timed : GrantStatus → Bool
is_timed revoked = false
is_timed failed = false
is_timed _ = true

abbrev pub timed_status : DateTime → AccessGrant → GrantStatus
timed_status now g =
    if ltb now g.start_utc then pending else if leb g.end_utc now then expired else active

unfoldable pub with_timed_status : DateTime → AccessGrant → AccessGrant
with_timed_status now g = record g {
  status = if is_timed g.status then timed_status now g else g.status;
}

-- ORDER BY created_utc DESC
abbrev pub insert_created : AccessGrant → List AccessGrant → List AccessGrant
insert_created g [] = g ∷ []
insert_created g (h ∷ hs) =
    let rest = insert_created g hs in
    if ltb g.created_utc h.created_utc then h ∷ rest else g ∷ h ∷ hs

abbrev pub order_created : List AccessGrant → List AccessGrant
order_created [] = []
order_created (g ∷ gs) = insert_created g (order_created gs)

abbrev pub first : ℕ → List AccessGrant → List AccessGrant
first zero gs = []
first (suc n) [] = []
first (suc n) (g ∷ gs) = g ∷ first n gs

-- LIMIT min(limit, 1000), which is none if it is negative.
abbrev pub limited : ℤ → List AccessGrant → List AccessGrant
limited (pos n) gs = first (if ltb 1000 n then 1000 else n) gs
limited (negsuc n) gs = gs

unfoldable pub selected : ℤ → Database → List AccessGrant
selected limit db = limited limit (order_created db.grants)

unfoldable pub status_eq : GrantStatus → GrantStatus → Bool
status_eq pending pending = true
status_eq active active = true
status_eq expired expired = true
status_eq revoked revoked = true
status_eq failed failed = true
status_eq _ _ = false

abbrev pub filtered : Option GrantStatus → List AccessGrant → List AccessGrant
filtered none gs = gs
filtered (some s) gs = select_where (λ g. status_eq g.status s) gs

-- The UPDATEs of the rows whose status was set.
unfoldable pub write_timed_status : DateTime → List AccessGrant → Database → Database
write_timed_status now gs db = record db {
  grants =
      update_where (λ g. in_ids (map (λ (h : AccessGrant). h.id) gs) g.id) (with_timed_status now)
        db.grants;
}

unfoldable pub list_grants :
    Option GrantStatus → ℤ → Text → DateTime → Database → List AccessGrant × Database
unfolding selected write_timed_status with_timed_status status_eq
list_grants status_filter limit admin_id now db =
    let gs = selected limit db in
    let shown = filtered status_filter (map (with_timed_status now) gs) in
    (
      shown,
      log (admin_entry admin_id Action.list_grants none now (listed status_filter (length shown)))
          (write_timed_status now gs db),
    )

-- Nothing is committed here.
unfoldable pub get_grant : GrantId → DateTime → Database → Result ℕ AccessGrant
get_grant id now db = elim (get_by_id id db) [
  | none ↦ err 404
  | some g ↦ ok (with_timed_status now g)
]

-- Field(gt=0, le=10080)
abbrev pub additional_minutes? : ℤ → Option ℕ
additional_minutes? (pos zero) = none
additional_minutes? (pos (suc n)) = if ltb 10080 (suc n) then none else some (suc n)
additional_minutes? (negsuc n) = none

-- GrantNotFoundError, GrantOperationError and the ValueErrors.
abbrev pub grant_status_code : GrantError → ℕ
grant_status_code not_found = 404
grant_status_code revoked_grant = 409
grant_status_code _ = 500

abbrev extension_answered :
    GrantId
    → Text
    → ℕ
    → DateTime
    → Result GrantError AccessGrant × Database
    → Result ℕ AccessGrant × Database
extension_answered id admin_id additional now (err e, db) = (err (grant_status_code e), db)
extension_answered id admin_id additional now (ok g, db) = (
  ok g,
  log (admin_entry admin_id Action.extend_grant (some id) now (extended additional g.end_utc)) db,
)

unfoldable pub extend_grant :
    Bool → GrantId → ℤ → Text → DateTime → Database → Result ℕ AccessGrant × Database
extend_grant csrf_ok id minutes admin_id now db = elim (additional_minutes? minutes) [
  | none ↦ (err 422, db)
  | some additional ↦
      if not csrf_ok
      then (err 403, db)
      else extension_answered id admin_id additional now
          (GrantService.extend id (pos additional) now db)
]

-- The arguments of `adapter.revoke`.
pub record RevokeCall : Type 0 where
  pub mac : Text
  pub gateway_mac : Option Text
  pub ap_mac : Option Text
  pub vid : Option Text
  pub ssid_name : Option Text
  pub radio_id : Option Text

abbrev pub revoke_call : AccessGrant → RevokeCall
revoke_call g = record {
  mac = g.mac;
  gateway_mac = g.omada_gateway_mac;
  ap_mac = g.omada_ap_mac;
  vid = g.omada_vid;
  ssid_name = g.omada_ssid_name;
  radio_id = g.omada_radio_id;
}

-- Whether there is a controller_error; none where another exception leaves the function.
unfoldable pub revoke_with_controller : Option (RevokeCall → Reply) → AccessGrant → Option Bool
revoke_with_controller none g = some false
revoke_with_controller (some call) g =
    if is_empty g.mac then some false else elim (call (revoke_call g)) [
      | returned ↦ some false
      | client_error ↦ some true
      | other_error ↦ none
    ]

-- What is awaited: nothing if the controller is not called.
abbrev pub awaited :
    Option (RevokeCall → Reply) → AccessGrant → (Database → Database) → Database → Database
awaited none g meanwhile db = db
awaited (some call) g meanwhile db = if is_empty g.mac then db else meanwhile db

abbrev pub revocation_answered :
    Option (RevokeCall → Reply)
    → (Database → Database)
    → GrantId
    → Text
    → DateTime
    → Result GrantError AccessGrant × Database
    → Result ℕ (AccessGrant × Bool) × Database
revocation_answered call meanwhile id admin_id later (err e, db) = (err (grant_status_code e), db)
revocation_answered call meanwhile id admin_id later (ok g, db) =
    let found = awaited call g meanwhile db in
    elim (revoke_with_controller call g) [
      | none ↦ (err 500, found)
      | some controller_error ↦ (
        ok (g, controller_error),
        log (admin_entry admin_id Action.revoke_grant (some id) later (withdrawn controller_error))
            found,
      )
    ]

-- The grant is revoked in the database first, and on the controller if that answers.
unfoldable pub revoke_grant :
    Bool
    → Option (RevokeCall → Reply)
    → (Database → Database)
    → GrantId
    → Text
    → DateTime
    → DateTime
    → Database
    → Result ℕ (AccessGrant × Bool) × Database
unfolding revoke_with_controller
revoke_grant csrf_ok call meanwhile id admin_id now later db =
    if not csrf_ok
    then (err 403, db)
    else revocation_answered call meanwhile id admin_id later (GrantService.revoke id now db)
