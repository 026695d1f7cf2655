-- ===== src/Guest/Handlers.antt =====
-- The two handlers of addon/src/captive_portal/api/routes/guest_portal.py that authorize a guest, with
-- `_handle_get_submission` of guest_authorization/orchestration.py
--
-- FastAPI calls the classes RateLimiter and RedirectValidator for each request. The one of the POST
-- takes their arguments from the request, the one of the GET takes none. Both read the clock
-- (`started`) as they make the limiter, and PortalConfig's row is `env.trusted_networks`.
use homeassistant_captive_po.Base.{
  ℕ, Text, is_empty, Bool, false, not, ◌&&◌, Option, none, some, List, [],
}
use homeassistant_captive_po.Time.{DateTime}
use homeassistant_captive_po.Models.AccessGrant.{GrantId}
use homeassistant_captive_po.Store.Database.{Database}
use homeassistant_captive_po.RateLimiter
use homeassistant_captive_po.RateLimiter.{RateLimiter, is_allowed, lazy_cleanup, cleanup, admit}
use homeassistant_captive_po.Network.{Request}
use homeassistant_captive_po.Guest.{GuestOmadaParams}
use homeassistant_captive_po.Guest.Flow.{Environment, Response, Portal, process_authorization}

-- Truth of both query values.
abbrev pub is_get_submission : Option Text → Option Text → Bool
is_get_submission (some code) (some csrf_token) = not (is_empty code) && not (is_empty csrf_token)
is_get_submission _ _ = false

module _ (env : Environment) (meanwhile : Database → Database) (request : Request)
    (params : GuestOmadaParams) (id : GrantId) (started now later : DateTime) where
  -- The POST, whose form has no client_ip, t or redirect_url.
  unfoldable pub handle_authorization :
      ℕ → ℕ → List Text → Bool → Text → Database → Response × Portal
  unfolding RateLimiter.new
  handle_authorization max_attempts window_seconds allowed_domains csrf_ok code db =
      process_authorization (record env { allowed_domains = allowed_domains }) meanwhile request
        (record params { client_ip = none; t = none; redirect_url = none }) id now later csrf_ok
        code (record { db = db; limiter = RateLimiter.new max_attempts window_seconds started })

  -- The GET with a code and a token.
  unfoldable pub handle_get_submission : Bool → Text → Database → Response × Portal
  unfolding RateLimiter.new
  handle_get_submission csrf_ok code db =
      process_authorization (record env { allowed_domains = [] }) meanwhile request params id now
        later csrf_ok code (record { db = db; limiter = RateLimiter.new 5 60 started })
