-- ===== src/Tests/Stays.antt =====
-- Runs of the booking branch:
-- addon/src/captive_portal/services/booking_code_validator.py and
-- addon/src/captive_portal/api/routes/guest_authorization/bookings.py
use homeassistant_captive_po.Base.{
  ◌+◌, ◌≢◌, Text, text_eq, codes, Option, none, some, [], ◌∷◌, refl, ℤ, pos, err, strip, lstrip,
  rstrip, is_space,
}
use homeassistant_captive_po.Time.{days}
use homeassistant_captive_po.Models.Audit.{CodeType, booking_outside_window}
use homeassistant_captive_po.Models.Booking.{slot_code, HaIntegrationConfig, RentalControlEvent}
use homeassistant_captive_po.Store.Database.{Database}
use homeassistant_captive_po.Codes.{CodeValidationResult}
use homeassistant_captive_po.Bookings.{
  candidates, find_across_integrations, find_matching_events, event_preference_key,
}
use homeassistant_captive_po.Bookings.Selection.{
  has_code, IsSelection, find_across_integrations-IsSelection,
}
use homeassistant_captive_po.Bookings.Authorize.{GuestContext, authorize_booking}
use homeassistant_captive_po.Bookings.Admission.{
  Outcomes, authorize_booking-Outcomes, authorize_booking-in_window,
}
use homeassistant_captive_po.Samples.{noon, phone, db_of}

abbrev house : HaIntegrationConfig
house = record {
  integration_id = codes "house";
  identifier_attr = slot_code;
  checkout_grace_minutes = 15;
  last_sync_utc = none;
  stale_count = 0;
  allowed_vlans = none;
}

-- A stay of two days that began at noon.
abbrev stay : RentalControlEvent
stay = record {
  id = 1;
  integration_id = codes "house";
  event_index = 0;
  slot_name = none;
  slot_code = some (codes "1234");
  last_four = none;
  start_utc = noon;
  end_utc = noon + days 2;
  raw_attributes = [];
  created_utc = noon;
  updated_utc = noon;
}

-- The same code, three days later.
abbrev next_stay : RentalControlEvent
next_stay = record stay { id = 2; start_utc = noon + days 3; end_utc = noon + days 5 }

abbrev rental : Database
rental = record (db_of [] []) { integrations = house ∷ []; events = next_stay ∷ stay ∷ [] }

abbrev same : Text → Text
same s = s

abbrev visitor : GuestContext
visitor = record {
  client_ip = codes "10.0.0.9";
  mac_address = phone;
  vid = none;
  user_agent = codes "test";
}

abbrev typed : CodeValidationResult
typed = record {
  code_type = CodeType.booking;
  normalized_code = codes "1234";
  original_code = codes "1234";
}

abbrev as_five : Text → Option ℤ
as_five _ = some (pos 5)

find_across_integrations-IsSelection_example :
    IsSelection same same
      (codes "1234")
      (noon + 5)
      rental
      (has_code same (codes "1234"))
      (some (stay, house))
unfolding find_across_integrations candidates find_matching_events event_preference_key text_eq
    strip lstrip rstrip is_space
find_across_integrations-IsSelection_example =
    find_across_integrations-IsSelection same same (codes "1234") (noon + 5) rental

authorize_booking-Outcomes_example :
    Outcomes as_five same same 7 visitor typed noon noon rental
      (authorize_booking as_five same same 7 visitor typed noon noon rental)
authorize_booking-Outcomes_example =
    authorize_booking-Outcomes as_five same same 7 visitor typed noon noon rental

authorize_booking-in_window_example :
    (authorize_booking as_five same same 7 visitor typed noon noon rental).0
    ≢ err booking_outside_window
unfolding candidates find_matching_events text_eq strip lstrip rstrip is_space
authorize_booking-in_window_example =
    authorize_booking-in_window as_five same same 7 visitor typed noon rental refl
