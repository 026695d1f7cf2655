-- ===== src/Tests/Portals.antt =====
-- Runs of the guest's handlers and of the grants' routes:
-- addon/src/captive_portal/api/routes/
use homeassistant_captive_po.Base.{
  ◌+◌, ◌≡◌, ◌≢◌, Text, codes, true, false, none, some, Option, [], refl, ok, pos, arith, length,
  ◌≤◌, ◌⊎◌, text_eq,
}
use homeassistant_captive_po.Time.{minutes}
use homeassistant_captive_po.Store.Database.{Database}
use homeassistant_captive_po.RateLimiter
use homeassistant_captive_po.Network.{Request}
use homeassistant_captive_po.Redirects.{
  UrlParts, forward_slashes, is_safe_parts, is_safe, safe_redirect_destination,
}
use homeassistant_captive_po.Cache.{starts_with}
use homeassistant_captive_po.Redirects.Safe.{IsLocal, IsListed, safe_redirect_destination-cases}
use homeassistant_captive_po.Guest.{GuestOmadaParams}
use homeassistant_captive_po.Guest.Controller.{AuthorizeCall, AuthorizeReply, client_error}
use homeassistant_captive_po.Guest.Flow.{Environment, Portal, process_authorization}
use homeassistant_captive_po.Guest.Errors.{
  sanitize_error_message, has_tag, sanitize_error_message-IsShown,
}
use homeassistant_captive_po.Guest.Audited.{Audits, process_authorization-Audits}
use homeassistant_captive_po.VoucherService.Limit.{IsWithinLimit}
use homeassistant_captive_po.Store.AccessGrantRepository.{count_active_by_voucher_code}
use homeassistant_captive_po.Guest.Limited.{process_authorization-IsWithinLimit}
use homeassistant_captive_po.GrantExpiry.{Reply, returned, process_once}
use homeassistant_captive_po.GrantRoutes.{RevokeCall, list_grants}
use homeassistant_captive_po.GrantRoutes.Listing.{process_once-list_grants}
use homeassistant_captive_po.Samples.{noon, phone, shop}

abbrev here : Text
here = codes "/here"

-- Every URL is a path.
abbrev path_only : Text → Option UrlParts
path_only _ = some (record { scheme = []; netloc = [] })

-- The controller refuses.
abbrev refuses : AuthorizeCall → AuthorizeReply
refuses _ = client_error

abbrev environment : Environment
environment = record {
  ip_address = record { is_address = λ _. true; in_network = λ _ _. some true };
  urlparse = path_only;
  int_of = λ _. none;
  upper = λ s. s;
  lower = λ s. s;
  sql_lower = λ s. s;
  trusted_networks = [];
  allowed_domains = [];
  adapter = some (record { site_id = none; authorize = refuses });
}

abbrev visit : Request
visit = record {
  client_host = some (codes "10.0.0.1");
  x_forwarded_for = none;
  x_real_ip = none;
  x_mac_address = none;
  x_client_mac = none;
  client_mac_header = none;
  client_mac_query = none;
  user_agent = codes "test";
  root_path = [];
}

abbrev submitted : GuestOmadaParams
submitted = record {
  client_mac = some (codes "0011.2233.AABB");
  client_ip = none;
  site = none;
  gateway_mac = none;
  ap_mac = none;
  radio_id = none;
  ssid_name = none;
  vid = none;
  t = none;
  redirect_url = none;
  continue_url = some here;
}

abbrev portal : Portal
portal = record { db = shop; limiter = RateLimiter.new 5 60 noon }

abbrev alone : Database → Database
alone db = db

process_authorization-Audits_example :
    Audits environment alone visit submitted 2 noon (noon + 1) [] (
      process_authorization environment alone visit submitted 2 noon
        (noon + 1)
        true
        (codes "WIFI")
        portal)
process_authorization-Audits_example =
    process_authorization-Audits environment alone visit submitted 2 noon (noon + 1) (codes "WIFI")
      portal

process_authorization-IsWithinLimit_example :
    IsWithinLimit
      (process_authorization environment alone visit submitted 2 noon
        (noon + 1)
        true
        (codes "WIFI")
        portal).1.db
unfolding count_active_by_voucher_code text_eq
process_authorization-IsWithinLimit_example =
    process_authorization-IsWithinLimit environment alone visit submitted 2 noon (noon + 1)
      (λ d. refl) (λ d h. h) (codes "WIFI") portal refl (omega arith, (omega arith, tt))

process_once-list_grants_example :
    process_once none alone
      (noon + minutes 61)
      (noon + minutes 62)
      (list_grants none (pos 100) phone (noon + minutes 61) shop).1
    ≡ (ok 0, (list_grants none (pos 100) phone (noon + minutes 61) shop).1)
process_once-list_grants_example =
    process_once-list_grants none phone (noon + minutes 61) shop 100 none alone (noon + minutes 62)
      (omega arith) (omega arith)

-- An adapter that succeeds.
abbrev withdraws : RevokeCall → Reply
withdraws _ = returned

sanitize_error_message-IsShown_example :
    (shown : Text) × (sanitize_error_message (some (codes "a<b>c")) ≡ some shown)
    × (has_tag shown ≡ false)
    × (shown ≢ [])
    × (length shown ≤ 503)
sanitize_error_message-IsShown_example = sanitize_error_message-IsShown (some (codes "a<b>c"))

safe_redirect_destination-cases_example :
    (here ≡ codes "/guest/welcome")
    ⊎ ((parsed : UrlParts) × (some here ≡ some here)
        × (path_only (forward_slashes here) ≡ some parsed)
        × (IsLocal (forward_slashes here) parsed ⊎ IsListed path_only (λ s. s) [] parsed))
unfolding safe_redirect_destination is_safe is_safe_parts starts_with text_eq
safe_redirect_destination-cases_example =
    safe_redirect_destination-cases path_only (λ s. s) [] [] (some here) here refl
