-- ===== src/GrantExpiry.antt =====
-- addon/src/captive_portal/services/grant_expiry_service.py
pub mod Pass
use homeassistant_captive_po.Base.{
  ℕ, Text, is_empty, Bool, true, false, ◌&&◌, leb, ◌==◌, Option, none, some, List, [], ◌∷◌, map,
  any_where, select_where, update_where, count_where, Result, ok, err, if◌then◌else◌,
}
use homeassistant_captive_po.Time.{DateTime}
use homeassistant_captive_po.Models.AccessGrant.{AccessGrant, GrantId, expired, is_active}
use homeassistant_captive_po.Store.Database.{Database}

-- The fields of a grant that its revocation needs.
pub record DueGrant : Type 0 where
  pub id : GrantId
  pub mac : Text
  pub controller_grant_id : Option Text
  pub omada_gateway_mac : Option Text
  pub omada_ap_mac : Option Text
  pub omada_vid : Option Text
  pub omada_ssid_name : Option Text
  pub omada_radio_id : Option Text

-- How a call of the controller's adapter ends: it returns, raises OmadaClientError or
-- OmadaRetryExhaustedError, or raises something else.
pub data Reply : Type 0 where
  returned client_error other_error : Reply

abbrev pub is_due : DateTime → AccessGrant → Bool
is_due now g = is_active g.status && leb g.end_utc now

abbrev pub due_grant : AccessGrant → DueGrant
due_grant g = record {
  id = g.id;
  mac = g.mac;
  controller_grant_id = g.controller_grant_id;
  omada_gateway_mac = g.omada_gateway_mac;
  omada_ap_mac = g.omada_ap_mac;
  omada_vid = g.omada_vid;
  omada_ssid_name = g.omada_ssid_name;
  omada_radio_id = g.omada_radio_id;
}

unfoldable pub load_due_grants : DateTime → Database → List DueGrant
load_due_grants now db = map due_grant (select_where (is_due now) db.grants)

abbrev pub in_ids : List GrantId → GrantId → Bool
in_ids ids i = any_where (λ j. i == j) ids

abbrev pub is_marked : List GrantId → AccessGrant → Bool
is_marked ids g = in_ids ids g.id && is_active g.status

abbrev pub expired_at : DateTime → AccessGrant → AccessGrant
expired_at now g = record g { status = expired; updated_utc = now }

unfoldable pub mark_grants_expired : DateTime → List GrantId → Database → ℕ × Database
mark_grants_expired now [] db = (0, db)
mark_grants_expired now (i ∷ ids) db = (
  count_where (is_marked (i ∷ ids)) db.grants,
  record db { grants = update_where (is_marked (i ∷ ids)) (expired_at now) db.grants },
)

-- Whether the grant may be marked expired; `other_error` leaves the method by its exception.
unfoldable pub revoke_due_grant : Option (DueGrant → Reply) → DueGrant → Result Reply Bool
revoke_due_grant none g = ok true
revoke_due_grant (some call) g = if is_empty g.mac then ok true else elim (call g) [
  | returned ↦ ok true
  | client_error ↦ ok false
  | other_error ↦ err other_error
]

-- The loop that collects `expired_ids`.
unfoldable pub revoke_all : Option (DueGrant → Reply) → List DueGrant → Result Reply (List GrantId)
revoke_all call [] = ok []
revoke_all call (g ∷ gs) = elim (revoke_due_grant call g) [
  | err e ↦ err e
  | ok done ↦ elim (revoke_all call gs) [
    | err e ↦ err e
    | ok ids ↦ ok (if done then g.id ∷ ids else ids)
  ]
]

-- The calls of the controller are awaited: `meanwhile` is what others commit until the update. The
-- clock is read at the load and at the update.
unfoldable pub process_once :
    Option (DueGrant → Reply)
    → (Database → Database)
    → DateTime
    → DateTime
    → Database
    → Result Reply ℕ × Database
process_once call meanwhile now now' db = elim (load_due_grants now db) [
  | [] ↦ (ok 0, db)
  | g ∷ gs ↦ elim (revoke_all call (g ∷ gs)) [
    | err e ↦ (err e, meanwhile db)
    | ok ids ↦ let (n, db') = mark_grants_expired now' ids (meanwhile db) in (ok n, db')
  ]
]
