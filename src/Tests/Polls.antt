-- ===== src/Tests/Polls.antt =====
-- Runs of a poll of Home Assistant (integrations/rental_control_service.py) and of the controller's
-- client (controllers/tp_omada/openapi_client.py), both in addon/src/captive_portal.
use homeassistant_captive_po.Base.{
  ℕ, ◌+◌, ◌≡◌, Text, text_eq, codes, none, some, Option, List, [], ◌∷◌, refl, arith,
}
use homeassistant_captive_po.Time.{DateTime, minutes}
use homeassistant_captive_po.Models.Booking.{HaIntegrationConfig, RentalControlEvent, slot_code}
use homeassistant_captive_po.Store.Database.{Database}
use homeassistant_captive_po.Rental.{
  Entity, find_event, process_events, process_configs, process_config, process_integration,
  reported_index, derive_sensor_prefix, delete_events_older_than,
}
use homeassistant_captive_po.Cache.{starts_with}
use homeassistant_captive_po.Rental.Poll.{IsKeyed}
use homeassistant_captive_po.Rental.Unreported.{process_events-find_event}
use homeassistant_captive_po.OpenApi.{TokenReply, token_reply, Reply, connection_error, World}
use homeassistant_captive_po.OpenApi.Runs.{Runs}
use homeassistant_captive_po.Samples.{noon}

abbrev house : Text
house = codes "calendar.h"

abbrev config : HaIntegrationConfig
config = record {
  integration_id = house;
  identifier_attr = slot_code;
  checkout_grace_minutes = 0;
  last_sync_utc = none;
  stale_count = 2;
  allowed_vlans = none;
}

-- The guest of the first slot, who has left the calendar.
abbrev stay : RentalControlEvent
stay = record {
  id = 1;
  integration_id = house;
  event_index = 0;
  slot_name = none;
  slot_code = some (codes "1234");
  last_four = none;
  start_utc = noon;
  end_utc = noon + minutes 600;
  raw_attributes = [];
  created_utc = noon;
  updated_utc = noon;
}

abbrev sensor : Entity
sensor = record {
  entity_id = codes "sensor.h_event_0";
  state = codes "No reservation";
  summary = [];
  start = none;
  end = none;
  slot_name = none;
  slot_code = none;
  last_four = none;
  raw_attributes = [];
}

abbrev db : Database
db = record {
  vouchers = [];
  grants = [];
  audit_logs = [];
  integrations = config ∷ [];
  events = stay ∷ [];
}

abbrev parse : Text → Option DateTime
parse _ = some noon

abbrev int_of : Text → Option ℕ
int_of _ = some 0

abbrev next_id : List RentalControlEvent → ℕ
next_id _ = 2

abbrev polled_db : Database
polled_db = record db {
  integrations = record config { last_sync_utc = some (noon + 1); stale_count = 0 } ∷ [];
}

one_row : IsKeyed db
one_row i n = ground arith

process_events-find_event_example : find_event house 0 polled_db ≡ some stay
unfolding process_events process_configs process_config process_integration reported_index
    starts_with text_eq derive_sensor_prefix delete_events_older_than find_event
process_events-find_event_example =
    process_events-find_event parse int_of next_id (noon + 1) house 0 (sensor ∷ []) db polled_db
      stay one_row ((refl, tt), tt) refl (omega arith) refl

-- A controller that refuses every token and request.
abbrev closed_token : Option Text → ℕ → TokenReply × ℕ
closed_token o s = (token_reply 503 none, s)

abbrev closed : Text → ℕ → Reply × ℕ
closed t s = (connection_error, s)

abbrev client : World ℕ
client = record {
  token_state = record { access_token = none; refresh_token = none; expires_at_monotonic = 0 };
  controller = 0;
  requests = 0;
  sleeps = [];
}
