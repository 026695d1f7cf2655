-- ===== src/Rental.antt =====
-- The events of Home Assistant's Rental Control:
-- addon/src/captive_portal/integrations/rental_control_service.py, with
-- persistence/rental_control_event_repository.py and services/cleanup_service.py
--
-- What Home Assistant answers is a parameter: the states of its entities, with the attributes that are
-- read, each a text. `parse` reads an ISO time, in its own zone or in Home Assistant's; `int_of` is
-- Python's int, of which a negative event index is not modelled. `next_id` is the id that the database
-- gives a new row. `now` is the time of every step of a poll, at least one day after the least instant.
pub mod Poll
pub mod Unreported
use homeassistant_captive_po.Base.{
  ℕ, suc, ◌+◌, ◌-◌, Text, text_eq, is_empty, codes, length, Bool, true, false, not, ◌&&◌, ◌||◌, ltb,
  ◌==◌, Option, none, some, List, [], ◌∷◌, ◌++◌, select_where, update_where, find_where,
  count_where, if◌then◌else◌,
}
use homeassistant_captive_po.Time.{DateTime, days}
use homeassistant_captive_po.Models.Audit.{AuditLog, Action, system, success, events_purged}
use homeassistant_captive_po.Models.Booking.{HaIntegrationConfig, RentalControlEvent}
use homeassistant_captive_po.Store.Database.{Database}
use homeassistant_captive_po.Cache.{starts_with}
use homeassistant_captive_po.Csrf.{contains}
use homeassistant_captive_po.Guest.Errors.{drop}

-- An entity's state and attributes.
pub record Entity : Type 0 where
  pub entity_id : Text
  pub state : Text
  pub summary : Text
  pub start : Option Text
  pub end : Option Text
  pub slot_name : Option Text
  pub slot_code : Option Text
  pub last_four : Option Text
  pub raw_attributes : Text

-- WHERE integration_id = … AND event_index = …
abbrev pub is_event : Text → ℕ → RentalControlEvent → Bool
is_event integration_id event_index e =
    text_eq e.integration_id integration_id && e.event_index == event_index

unfoldable pub find_event : Text → ℕ → Database → Option RentalControlEvent
find_event integration_id event_index db =
    find_where (is_event integration_id event_index) db.events

-- The columns that an update of an event sets.
abbrev pub updated_event : RentalControlEvent → DateTime → RentalControlEvent → RentalControlEvent
updated_event event now existing = record existing {
  slot_name = event.slot_name;
  slot_code = event.slot_code;
  last_four = event.last_four;
  start_utc = event.start_utc;
  end_utc = event.end_utc;
  raw_attributes = event.raw_attributes;
  updated_utc = now;
}

-- The key is unique, so the first row of a key is the one row of it.
unfoldable pub upsert : RentalControlEvent → DateTime → Database → Database
unfolding find_event
upsert event now db = elim (find_event event.integration_id event.event_index db) [
  | some existing ↦ record db {
    events =
        update_where (is_event event.integration_id event.event_index) (updated_event event now)
          db.events;
  }
  | none ↦ record db { events = db.events ++ event ∷ [] }
]

abbrev pub is_older : DateTime → RentalControlEvent → Bool
is_older cutoff e = ltb e.end_utc cutoff

unfoldable pub delete_events_older_than : DateTime → Database → ℕ × Database
delete_events_older_than cutoff db = (
  count_where (is_older cutoff) db.events,
  record db { events = select_where (λ e. not (is_older cutoff e)) db.events },
)

-- `cleanup_expired_events`; none where the cutoff would fall below the least instant.
unfoldable pub cleanup_expired_events : ℕ → DateTime → Database → Option (ℕ × Database)
unfolding delete_events_older_than
cleanup_expired_events retention_days now db =
    if ltb now (days retention_days)
    then none
    else let cutoff = now - days retention_days in
      let (n, db') = delete_events_older_than cutoff db in
      some (
        n,
        record db' {
          audit_logs =
              db'.audit_logs
              ++ record {
                actor = system;
                action = Action.event_cleanup;
                target_type = none;
                target_id = none;
                timestamp_utc = now;
                outcome = success;
                meta = events_purged n cutoff;
              }
                ∷ [];
        },
      )

abbrev pub no_reservation : Text
no_reservation = codes "No reservation"

-- s.removeprefix(t)
abbrev pub remove_prefix : Text → Text → Text
remove_prefix t s = if starts_with s t then drop (length t) s else s

unfoldable pub derive_sensor_prefix : Text → Text
derive_sensor_prefix integration_id =
    codes "sensor." ++ remove_prefix (codes "calendar.") integration_id ++ codes "_event_"

-- Truth of an optional text.
abbrev pub is_present : Option Text → Bool
is_present none = false
is_present (some s) = not (is_empty s)

-- The state and the summary do not say that there is no guest.
abbrev pub is_reserved : Entity → Bool
is_reserved e =
    not (text_eq e.state no_reservation || text_eq e.state (codes "unavailable"))
    && not (contains no_reservation e.summary)

module _ (parse : Text → Option DateTime) (int_of : Text → Option ℕ)
    (next_id : List RentalControlEvent → ℕ) (now : DateTime) where
  abbrev pub event_of :
      HaIntegrationConfig → ℕ → Entity → DateTime → DateTime → Database → RentalControlEvent
  event_of config event_index entity start_utc end_utc db = record {
    id = next_id db.events;
    integration_id = config.integration_id;
    event_index = event_index;
    slot_name = entity.slot_name;
    slot_code = entity.slot_code;
    last_four = entity.last_four;
    start_utc = start_utc;
    end_utc = end_utc;
    raw_attributes = entity.raw_attributes;
    created_utc = now;
    updated_utc = now;
  }

  abbrev pub has_identifier : Entity → Bool
  has_identifier e = is_present e.slot_name || is_present e.slot_code || is_present e.last_four

  abbrev pub timed_event :
      HaIntegrationConfig
      → ℕ
      → Entity
      → Database
      → Option DateTime
      → Option DateTime
      → Option Database
  timed_event config event_index entity db (some start_utc) (some end_utc) =
      if has_identifier entity
      then some (upsert (event_of config event_index entity start_utc end_utc db) now db)
      else some db
  timed_event config event_index entity db _ _ = none

  abbrev pub parsed : Option Text → Option DateTime
  parsed none = none
  parsed (some s) = parse s

  -- None where the ValueError of a time leaves the method.
  unfoldable pub process_single_event :
      HaIntegrationConfig → ℕ → Entity → Database → Option Database
  process_single_event config event_index entity db =
      if is_present entity.start && is_present entity.end
      then timed_event config event_index entity db (parsed entity.start) (parsed entity.end)
      else some db

  -- The index of a sensor that reports a reservation of the integration.
  unfoldable pub reported_index : HaIntegrationConfig → Entity → Option ℕ
  unfolding derive_sensor_prefix
  reported_index config entity =
      let prefix = derive_sensor_prefix config.integration_id in
      if starts_with entity.entity_id prefix && is_reserved entity
      then int_of (drop (length prefix) entity.entity_id)
      else none

  abbrev pub process_entity : HaIntegrationConfig → Entity → Database → Option Database
  process_entity config entity db = elim (reported_index config entity) [
    | none ↦ some db
    | some event_index ↦ process_single_event config event_index entity db
  ]

  unfoldable pub process_integration :
      HaIntegrationConfig → List Entity → Database → Option Database
  unfolding reported_index process_single_event
  process_integration config [] db = some db
  process_integration config (entity ∷ entities) db = elim (process_entity config entity db) [
    | none ↦ none
    | some db' ↦ process_integration config entities db'
  ]

  abbrev pub is_config : HaIntegrationConfig → HaIntegrationConfig → Bool
  is_config config c = text_eq c.integration_id config.integration_id

  abbrev pub synced : HaIntegrationConfig → HaIntegrationConfig
  synced c = record c { last_sync_utc = some now; stale_count = 0 }

  -- One integration: its rows are committed together, or rolled back.
  unfoldable pub process_config : List Entity → HaIntegrationConfig → Database → Bool × Database
  unfolding process_integration
  process_config states config db = elim (process_integration config states db) [
    | none ↦ (true, db)
    | some db' ↦ (
      false,
      record db' { integrations = update_where (is_config config) synced db'.integrations },
    )
  ]

  -- Whether some integration failed.
  unfoldable pub process_configs :
      List Entity → List HaIntegrationConfig → Database → Bool × Database
  unfolding process_config
  process_configs states [] db = (false, db)
  process_configs states (config ∷ configs) db =
      let (failed, db') = process_config states config db in
      let (failed', db'') = process_configs states configs db' in (failed || failed', db'')

  abbrev pub purged : Bool × Database → Database
  purged (true, db) = db
  purged (false, db) = (delete_events_older_than (now - days 1) db).1

  -- None where Home Assistant does not answer, which leaves the method before anything is written.
  unfoldable pub process_events : Option (List Entity) → Database → Option Database
  unfolding process_configs
  process_events all_states db = elim db.integrations [
    | [] ↦ some db
    | c ∷ cs ↦ elim all_states [
      | none ↦ none
      | some states ↦ some (purged (process_configs states (c ∷ cs) db))
    ]
  ]
