-- ===== src/Bookings.antt =====
-- addon/src/captive_portal/services/booking_code_validator.py: which event a code selects.
--
-- `sql_lower` is SQLite's lower() and `lower` is Python's str.lower: the lookup compares the one of a
-- column with the other of the guest's input. A start within the first hour of the year 1, from which
-- the code could not subtract its hour, is not treated apart.
pub mod Rows
pub mod Selection
pub mod Authorize
pub mod Admission
use homeassistant_captive_po.Base.{
  ℕ, zero, suc, ◌+◌, ◌-◌, ◌≤◌, ◌<◌, Text, text_eq, strip, Bool, true, false, not, ◌&&◌, ◌||◌, ltb,
  leb, ◌==◌, Option, none, some, List, [], ◌∷◌, ◌++◌, map, select_where, any_where, codes, Result,
  ok, err, if◌then◌else◌, is_some, find_where,
}
use homeassistant_captive_po.Time.{DateTime, minutes}
use homeassistant_captive_po.Models.AccessGrant
use homeassistant_captive_po.Models.AccessGrant.{AccessGrant, GrantId, pending}
use homeassistant_captive_po.Models.Booking.{
  IdentifierAttr, slot_code, slot_name, last_four, HaIntegrationConfig, RentalControlEvent,
}
use homeassistant_captive_po.Store.Database.{Database, column_eq}
use homeassistant_captive_po.Store.AccessGrantRepository

-- The key's first entry, and the event's start, which counts down for the entries 0 and 2.
pub record PreferenceKey : Type 0 where
  pub rank : ℕ
  pub start : DateTime

-- early_checkin_window <= now <= effective_end
abbrev pub is_in_window : ℕ → DateTime → RentalControlEvent → Bool
is_in_window grace now e = leb e.start_utc (now + minutes 60) && leb now (e.end_utc + minutes grace)

unfoldable pub event_preference_key : ℕ → DateTime → RentalControlEvent → PreferenceKey
event_preference_key grace now e = record {
  rank =
      if is_in_window grace now e then 0 else if ltb (now + minutes 60) e.start_utc then 1 else 2;
  start = e.start_utc;
}

-- The order of the tuples: by rank, then by the signed start.
abbrev pub key_lt : PreferenceKey → PreferenceKey → Bool
key_lt k l =
    ltb k.rank l.rank
    || (k.rank == l.rank && (if k.rank == 1 then ltb k.start l.start else ltb l.start k.start))

abbrev pub attribute : IdentifierAttr → RentalControlEvent → Option Text
attribute slot_code e = e.slot_code
attribute slot_name e = e.slot_name
attribute last_four e = e.last_four

-- ORDER BY start_utc DESC
abbrev pub insert_desc : RentalControlEvent → List RentalControlEvent → List RentalControlEvent
insert_desc e [] = e ∷ []
insert_desc e (f ∷ fs) = if ltb e.start_utc f.start_utc then f ∷ insert_desc e fs else e ∷ f ∷ fs

abbrev pub order_desc : List RentalControlEvent → List RentalControlEvent
order_desc [] = []
order_desc (e ∷ es) = insert_desc e (order_desc es)

abbrev pub Candidate : Type 0
Candidate = RentalControlEvent × HaIntegrationConfig

abbrev pub candidate_key : DateTime → Candidate → PreferenceKey
candidate_key now (e, i) = event_preference_key i.checkout_grace_minutes now e

-- min(…, key=…) of a list that is not empty: the first of the least.
abbrev pub min_candidate : DateTime → Candidate → List Candidate → Candidate
min_candidate now c [] = c
min_candidate now c (d ∷ ds) =
    min_candidate now (if key_lt (candidate_key now d) (candidate_key now c) then d else c) ds

abbrev pub lowered : (Text → Text) → Option Text → Option Text
lowered sql_lower none = none
lowered sql_lower (some s) = some (sql_lower s)

module _ (sql_lower lower : Text → Text) where
  abbrev pub is_match : Text → HaIntegrationConfig → RentalControlEvent → Bool
  is_match input i e =
      text_eq e.integration_id i.integration_id
      && column_eq (lowered sql_lower (attribute i.identifier_attr e)) (lower input)

  unfoldable pub find_matching_events :
      Text → HaIntegrationConfig → Database → List RentalControlEvent
  find_matching_events input i db = order_desc (select_where (is_match input i) db.events)

  unfoldable pub candidates : Text → List HaIntegrationConfig → Database → List Candidate
  unfolding find_matching_events
  candidates input [] db = []
  candidates input (i ∷ is) db =
      map (λ e. (e, i)) (find_matching_events input i db) ++ candidates input is db

  abbrev pub best : DateTime → List Candidate → Option Candidate
  best now [] = none
  best now (c ∷ cs) = some (min_candidate now c cs)

  unfoldable pub find_across_integrations : Text → DateTime → Database → Option Candidate
  unfolding candidates
  find_across_integrations user_input now db =
      best now (candidates (strip user_input) db.integrations db)
