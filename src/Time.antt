-- ===== src/Time.antt =====
-- addon/src/captive_portal/utils/time_utils.py, and the datetimes of the whole program.
--
-- A `DateTime` is a UTC instant: the microseconds since 0001-01-01T00:00, the least `datetime`. The
-- code reads a value without tzinfo (as SQLite returns it) as UTC before it compares it, so both
-- spellings are the same instant here. The upper end of the range of `datetime` is not modelled.
pub mod Rounding
use homeassistant_captive_po.Base.{ℕ, ◌+◌, ◌-◌, ◌*◌, ◌/◌, ◌%◌, ltb, if◌then◌else◌, ◌||◌}

abbrev pub DateTime : Type 0
DateTime = ℕ

-- timedelta(microseconds=…)
abbrev pub TimeDelta : Type 0
TimeDelta = ℕ

abbrev pub seconds : ℕ → TimeDelta
seconds n = n * 1_000_000

abbrev pub minutes : ℕ → TimeDelta
minutes n = n * 60_000_000

abbrev pub days : ℕ → TimeDelta
days n = n * 86_400_000_000

-- `dt.second` and `dt.microsecond`
abbrev second_of : DateTime → ℕ
second_of dt = dt / 1_000_000 % 60

abbrev microsecond_of : DateTime → ℕ
microsecond_of dt = dt % 1_000_000

-- dt.replace(second=0, microsecond=0)
unfoldable pub floor_to_minute : DateTime → DateTime
floor_to_minute dt = dt - dt % 60_000_000

unfoldable pub ceil_to_minute : DateTime → DateTime
unfolding floor_to_minute
ceil_to_minute dt =
    if ltb 0 (second_of dt) || ltb 0 (microsecond_of dt) then floor_to_minute dt + minutes 1 else dt
