-- ===== src/RateLimiter.antt =====
-- addon/src/captive_portal/security/rate_limiter.py
--
-- The dictionary of attempts is a function, `none` at the keys that it lacks; a method reads the
-- clock, which is its argument. `ts > now - window` is written `now < ts + window`, since `-` on ℕ
-- stops at 0.
pub mod Window
pub mod Refines
pub mod Retry
pub mod Admitted
pub mod Attempts
use homeassistant_captive_po.Base.{
  ℕ, ◌+◌, ◌-◌, ◌/◌, Text, text_eq, Bool, true, false, ltb, leb, Option, none, some, List, [], ◌∷◌,
  ◌++◌, length, select_where, if◌then◌else◌,
}
use homeassistant_captive_po.Time.{DateTime, seconds}

pub record RateLimiter : Type 0 where
  pub max_attempts : ℕ
  pub window_seconds : ℕ
  pub attempts : Text → Option (List DateTime)
  pub last_cleanup : DateTime

abbrev pub cleanup_interval_seconds : ℕ
cleanup_interval_seconds = 300

unfoldable pub new : ℕ → ℕ → DateTime → RateLimiter
new max_attempts window_seconds now = record {
  max_attempts = max_attempts;
  window_seconds = window_seconds;
  attempts = λ _. none;
  last_cleanup = now;
}

-- What `self._attempts[ip]` of the defaultdict reads.
abbrev pub or_empty : Option (List DateTime) → List DateTime
or_empty none = []
or_empty (some l) = l

abbrev pub attempts_of : Text → RateLimiter → List DateTime
attempts_of ip r = or_empty (r.attempts ip)

-- self._attempts[ip] = l
abbrev pub put : Text → Option (List DateTime) → RateLimiter → RateLimiter
put ip o r = record r { attempts = λ j. if text_eq ip j then o else r.attempts j }

abbrev pub is_recent : DateTime → ℕ → DateTime → Bool
is_recent now window ts = ltb now (ts + seconds window)

-- The entry of a key after a cleanup: without its expired timestamps, and gone if none is left.
abbrev pub cleaned : List DateTime → Option (List DateTime)
cleaned [] = none
cleaned (t ∷ ts) = some (t ∷ ts)

unfoldable pub cleanup : DateTime → RateLimiter → RateLimiter
cleanup now r = record r {
  attempts = λ j. cleaned (select_where (is_recent now r.window_seconds) (attempts_of j r));
}

-- The lazy cleanup at the head of `is_allowed`; `cleanup` reads the clock again.
unfoldable pub lazy_cleanup : DateTime → DateTime → RateLimiter → RateLimiter
lazy_cleanup now now' r =
    if leb (r.last_cleanup + seconds cleanup_interval_seconds) now
    then record (cleanup now' r) { last_cleanup = now }
    else r

-- The rest of `is_allowed`: drop what left the window, and record the attempt if there is room.
unfoldable pub admit : Text → DateTime → RateLimiter → Bool × RateLimiter
admit ip now r =
    let recent = select_where (is_recent now r.window_seconds) (attempts_of ip r) in
    if ltb (length recent) r.max_attempts
    then (true, put ip (some (recent ++ now ∷ [])) r)
    else (false, put ip (some recent) r)

unfoldable pub is_allowed : Text → DateTime → DateTime → RateLimiter → Bool × RateLimiter
is_allowed ip now now' r = admit ip now (lazy_cleanup now now' r)

-- min(…) of a list that is not empty.
abbrev pub oldest : DateTime → List DateTime → DateTime
oldest t [] = t
oldest t (u ∷ us) = oldest (if ltb u t then u else t) us

abbrev pub retry_after : DateTime → ℕ → List DateTime → Option ℕ
retry_after now window [] = none
retry_after now window (t ∷ ts) =
    let retry_at = oldest t ts + seconds window in
    if leb retry_at now then none else some ((retry_at - now) / 1_000_000 + 1)

-- Reading the defaultdict adds the key.
unfoldable pub get_retry_after_seconds : Text → DateTime → RateLimiter → Option ℕ × RateLimiter
get_retry_after_seconds ip now r =
    (retry_after now r.window_seconds (attempts_of ip r), put ip (some (attempts_of ip r)) r)

unfoldable pub clear : Text → RateLimiter → RateLimiter
clear ip r = put ip none r
