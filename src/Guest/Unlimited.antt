-- ===== src/Guest/Unlimited.antt =====
-- The rate limit of the guest's handlers: addon/src/captive_portal/api/routes/guest_portal.py
use homeassistant_captive_po.Base.{Bool, true, false}
use homeassistant_captive_po.Models.AccessGrant.{AccessGrant}
use homeassistant_captive_po.Store.Database.{Database}
use homeassistant_captive_po.RateLimiter
use homeassistant_captive_po.RateLimiter.{RateLimiter}
use homeassistant_captive_po.Guest.Flow.{Response, too_many_requests}

abbrev is_limited : Response → Bool
is_limited (too_many_requests _) = true
is_limited _ = false
