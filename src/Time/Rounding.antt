-- ===== src/Time/Rounding.antt =====
-- Bounds of the rounding in addon/src/captive_portal/utils/time_utils.py.
use homeassistant_captive_po.Base.{◌↔◌, ◌+◌, ◌%◌, ◌≤◌, ◌<◌, ◌≡◌, sym, ◌∙◌, arith}
use homeassistant_captive_po.Time.{DateTime, minutes, floor_to_minute, ceil_to_minute}

pub floor_to_minute_bounds :
    (t : DateTime)
    → (floor_to_minute t ≤ t)
      × (t < floor_to_minute t + minutes 1)
      × (floor_to_minute t % minutes 1 ≡ 0)
unfolding floor_to_minute
floor_to_minute_bounds t = omega arith

pub ceil_to_minute_bounds :
    (t : DateTime)
    → (t ≤ ceil_to_minute t)
      × (ceil_to_minute t < t + minutes 1)
      × (ceil_to_minute t % minutes 1 ≡ 0)
unfolding ceil_to_minute
ceil_to_minute_bounds t = ground arith

pub floor_to_minute_mono : (s t : DateTime) → s ≤ t → floor_to_minute s ≤ floor_to_minute t
unfolding floor_to_minute
floor_to_minute_mono s t h = omega arith

pub ceil_to_minute_of_minute : (t : DateTime) → t % minutes 1 ≡ 0 → ceil_to_minute t ≡ t
unfolding ceil_to_minute
ceil_to_minute_of_minute t h = ground arith

pub floor_to_minute_of_minute : (t : DateTime) → t % minutes 1 ≡ 0 → floor_to_minute t ≡ t
unfolding floor_to_minute
floor_to_minute_of_minute t h = omega arith

-- Both roundings land on whole minutes, less than a minute away, the floor at or below the instant
-- and the ceiling at or above it; and they agree exactly on the whole minutes.
pub rounding_bounds :
    (t : DateTime)
    → (floor_to_minute t ≤ t)
      × (t < floor_to_minute t + minutes 1)
      × (floor_to_minute t % minutes 1 ≡ 0)
      × (t ≤ ceil_to_minute t)
      × (ceil_to_minute t < t + minutes 1)
      × (ceil_to_minute t % minutes 1 ≡ 0)
      × ((floor_to_minute t ≡ ceil_to_minute t) ↔ (t % minutes 1 ≡ 0))
rounding_bounds t =
    let (fl, fu, fm) = floor_to_minute_bounds t in
    let (cl, cu, cm) = ceil_to_minute_bounds t in
    (
      fl,
      fu,
      fm,
      cl,
      cu,
      cm,
      (
        (λ e. omega arith),
        (λ e. floor_to_minute_of_minute t e ∙ sym (ceil_to_minute_of_minute t e)),
      ),
    )
