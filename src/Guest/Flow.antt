-- ===== src/Guest/Flow.antt =====
-- The whole flow: addon/src/captive_portal/api/routes/guest_authorization/orchestration.py, with the
-- audited steps of context.py.
--
-- `csrf_ok` is whether the check of the CSRF token passes. The clock is read before the controller is
-- called (`now`) and after (`later`); `meanwhile` is what others commit during the call.
-- The limiter, its cleanup and its Retry-After are given the one reading `now`.
use homeassistant_captive_po.Base.{
  ℕ, zero, suc, Text, Bool, true, false, not, Option, none, some, List, Result, ok, err, ℤ,
  update_where, if◌then◌else◌,
}
use homeassistant_captive_po.Time.{DateTime}
use homeassistant_captive_po.Models.AccessGrant.{AccessGrant, GrantId, GrantStatus, failed}
use homeassistant_captive_po.Models.Audit.{
  AuditLog, guest, guest_authorize, Outcome, success, denied, error, rate_limited, TargetType,
  TargetId, CodeType, GuestError, mac_extraction_failed, invalid_code_format, vlan_check_failed,
  controller_authorization_failed, VlanMeta, Meta, limited, failure, authorized,
}
use homeassistant_captive_po.Store.Database.{Database}
use homeassistant_captive_po.Store.AccessGrantRepository.{with_id, get_by_id}
use homeassistant_captive_po.RateLimiter.{RateLimiter, is_allowed, get_retry_after_seconds, clear}
use homeassistant_captive_po.Codes.{CodeValidationResult, ValueError, validate_code}
use homeassistant_captive_po.Network.{
  IpAddress, Request, MacError, get_client_ip, extract_mac_address,
}
use homeassistant_captive_po.Redirects.{UrlParts, safe_redirect_destination}
use homeassistant_captive_po.Bookings.Authorize.{
  GuestContext, status_code, log, guest_entry, authorize_booking,
}
use homeassistant_captive_po.Guest.{GuestOmadaParams, AuthorizationDecision}
use homeassistant_captive_po.Guest.Voucher.{authorize_voucher}
use homeassistant_captive_po.Guest.Controller.{
  Adapter, apply_omada_metadata, apply_legacy_site_override, authorize_with_controller,
}

-- A 303 with the grant's cookie, an HTTPException, the 429 with its Retry-After, or an exception that
-- leaves the handler: the one of the controller's adapter, or the ValueError of the redirect's URL.
pub data Response : Type 0 where
  redirect : Text → GrantId → Response
  http_error : ℕ → Response
  too_many_requests : ℕ → Response
  adapter_error url_error : Response

-- What a request reads and changes.
pub record Portal : Type 0 where
  pub db : Database
  pub limiter : RateLimiter

abbrev pub write : AuditLog → Portal → Portal
write entry p = record p { db = log entry p.db }

abbrev pub anonymous_entry : Request → Text → Outcome → DateTime → Meta → AuditLog
anonymous_entry request client_ip outcome now meta = record {
  actor = guest client_ip;
  action = guest_authorize;
  target_type = none;
  target_id = none;
  timestamp_utc = now;
  outcome = outcome;
  meta = meta;
}

-- retry_after or 60
abbrev pub or_sixty : Option ℕ → ℕ
or_sixty none = 60
or_sixty (some zero) = 60
or_sixty (some (suc n)) = suc n

abbrev limit_reached :
    Request → Text → DateTime → Database → Option ℕ × RateLimiter → Option Response × Portal
limit_reached request client_ip now db (retry_after, limiter) = (
  some (too_many_requests (or_sixty retry_after)),
  write
      (anonymous_entry request client_ip rate_limited now
        (limited client_ip request.user_agent retry_after))
      (record { db = db; limiter = limiter }),
)

abbrev pub limit_checked :
    Request → Text → DateTime → Database → Bool × RateLimiter → Option Response × Portal
limit_checked request client_ip now db (true, limiter) =
    (none, record { db = db; limiter = limiter })
limit_checked request client_ip now db (false, limiter) =
    limit_reached request client_ip now db (get_retry_after_seconds client_ip now limiter)

unfoldable pub enforce_rate_limit : Request → Text → DateTime → Portal → Option Response × Portal
enforce_rate_limit request client_ip now p =
    limit_checked request client_ip now p.db (is_allowed client_ip now now p.limiter)

abbrev pub context_of : Request → GuestOmadaParams → Text → Text → GuestContext
context_of request params client_ip mac_address = record {
  client_ip = client_ip;
  mac_address = mac_address;
  vid = params.vid;
  user_agent = request.user_agent;
}

abbrev pub with_status :
    (GuestError → ℕ)
    → Result GuestError AuthorizationDecision × Database
    → Result ℕ AuthorizationDecision × Database
with_status f (ok d, db) = (ok d, db)
with_status f (err e, db) = (err (f e), db)

abbrev pub voucher_status_code : GuestError → ℕ
voucher_status_code vlan_check_failed = 403
voucher_status_code _ = 410

abbrev pub booking_decision :
    Result GuestError (AccessGrant × VlanMeta) × Database
    → Result GuestError AuthorizationDecision × Database
booking_decision (ok (g, vlan), db) =
    (ok (record { grant = g; code_type = CodeType.booking; vlan_meta = some vlan }), db)
booking_decision (err e, db) = (err e, db)

abbrev pub controller_failure_entry : GuestContext → DateTime → GrantId → AuditLog
controller_failure_entry ctx later id =
    guest_entry ctx error (some TargetType.access_grant) (some (TargetId.grant id)) later (
      failure ctx.client_ip (some ctx.mac_address) (some ctx.user_agent)
        controller_authorization_failed none)

-- voucher for voucher codes and booking for booking codes
abbrev success_target_type : CodeType → TargetType
success_target_type CodeType.voucher = TargetType.voucher
success_target_type _ = TargetType.booking

abbrev pub success_entry : GuestContext → DateTime → AuthorizationDecision → AccessGrant → AuditLog
success_entry ctx later d g =
    guest_entry ctx success (some (success_target_type d.code_type)) (some (TargetId.grant g.id))
      later
      (authorized ctx.client_ip ctx.mac_address ctx.user_agent d.code_type g.start_utc g.end_utc
        d.vlan_meta)

-- The columns that the flow sets on the grant.
abbrev pub with_result : AccessGrant → AccessGrant → AccessGrant
with_result g x = record x {
  status = g.status;
  controller_grant_id = g.controller_grant_id;
  omada_gateway_mac = g.omada_gateway_mac;
  omada_ap_mac = g.omada_ap_mac;
  omada_vid = g.omada_vid;
  omada_ssid_name = g.omada_ssid_name;
  omada_radio_id = g.omada_radio_id;
}

unfoldable pub save_controller_result : AccessGrant → Database → Database
save_controller_result g db = record db {
  grants = update_where (with_id g.id) (with_result g) db.grants;
}

-- Without an adapter nothing is awaited.
abbrev pub waited : Option Adapter → (Database → Database) → Database → Database
waited none meanwhile db = db
waited (some _) meanwhile db = meanwhile db

abbrev pub overridden : Option Adapter → Option Text → Option Adapter
overridden none site = none
overridden (some adapter) site = some (apply_legacy_site_override adapter site)

-- session.refresh: the row as the database has it now. No grant is ever deleted.
abbrev pub refreshed : AccessGrant → Database → AccessGrant
refreshed g db = elim (get_by_id g.id db) [ none ↦ g | some x ↦ x ]

unfoldable pub is_failed : GrantStatus → Bool
is_failed failed = true
is_failed _ = false

-- What the flow takes from Python, the configuration and the controller.
pub record Environment : Type 0 where
  pub ip_address : IpAddress
  pub urlparse : Text → Option UrlParts
  pub int_of : Text → Option ℤ
  pub upper : Text → Text
  pub lower : Text → Text
  pub sql_lower : Text → Text
  pub trusted_networks : List Text
  pub allowed_domains : List Text
  pub adapter : Option Adapter

module _ (env : Environment) (id : GrantId) (now : DateTime) where
  -- The voucher or the booking branch, with the status that a refusal is answered by.
  unfoldable pub dispatch :
      GuestContext → CodeValidationResult → Database → Result ℕ AuthorizationDecision × Database
  dispatch ctx v db = elim v.code_type [
    | CodeType.voucher ↦
        with_status voucher_status_code (authorize_voucher env.int_of id ctx v now db)
    | CodeType.booking ↦ with_status status_code (
        booking_decision (authorize_booking env.int_of env.sql_lower env.lower id ctx v now now db))
    | CodeType.invalid ↦ (err 400, db)
  ]

module _ (env : Environment) (meanwhile : Database → Database) (request : Request)
    (params : GuestOmadaParams) (id : GrantId) (now later : DateTime) where
  -- The limiter forgets the address, the success is audited, and the response redirects.
  unfoldable pub complete_success :
      GuestContext → AuthorizationDecision → AccessGrant → Portal → Response × Portal
  complete_success ctx d g p =
      let p' =
        write (success_entry ctx later d g)
          (record p { limiter = clear ctx.client_ip p.limiter }) in
      elim (safe_redirect_destination env.urlparse env.lower request.root_path params.continue_url
        env.allowed_domains) [ none ↦ (url_error, p') | some url ↦ (redirect url g.id, p') ]

  -- What follows the controller's answer, which changed the grant to `g`.
  unfoldable pub after_controller :
      GuestContext → AuthorizationDecision → AccessGrant → Portal → Response × Portal
  unfolding is_failed
  after_controller ctx d g p =
      if is_failed g.status
      then (http_error 502, write (controller_failure_entry ctx later g.id) p)
      else complete_success ctx d g p

  -- An exception that the controller's call lets through leaves the row as the branch stored it.
  unfoldable pub finalize_controller_authorization :
      GuestContext → AuthorizationDecision → Portal → Response × Portal
  unfolding save_controller_result
  finalize_controller_authorization ctx d p =
      let adapter = overridden env.adapter params.site in
      let found = waited env.adapter meanwhile p.db in
      elim (authorize_with_controller adapter (apply_omada_metadata d.grant params)
        ctx.mac_address) [
          | none ↦ (adapter_error, record p { db = found })
          | some g ↦
              let db' = save_controller_result g found in
              after_controller ctx d (refreshed g db') (record p { db = db' })
        ]

  abbrev pub decided :
      GuestContext → RateLimiter → Result ℕ AuthorizationDecision × Database → Response × Portal
  decided ctx limiter (err status, db) = (http_error status, record { db = db; limiter = limiter })
  decided ctx limiter (ok d, db) =
      finalize_controller_authorization ctx d (record { db = db; limiter = limiter })

  abbrev pub code_checked :
      GuestContext → Portal → Result ValueError CodeValidationResult → Response × Portal
  code_checked ctx p (err e) = (
    http_error 400,
    write
        (anonymous_entry request ctx.client_ip denied now (
          failure ctx.client_ip (some ctx.mac_address) (some ctx.user_agent) invalid_code_format
            none))
        p,
  )
  code_checked ctx p (ok v) = decided ctx p.limiter (dispatch env id now ctx v p.db)

  abbrev pub mac_extracted : Text → Text → Portal → Result MacError Text → Response × Portal
  mac_extracted code client_ip p (err e) = (
    http_error 400,
    write
        (anonymous_entry request client_ip error now
          (failure client_ip none (some request.user_agent) mac_extraction_failed none))
        p,
  )
  mac_extracted code client_ip p (ok mac) =
      code_checked (context_of request params client_ip mac) p (validate_code env.upper code)

  abbrev pub admitted : Text → Text → Option Response × Portal → Response × Portal
  admitted code client_ip (some r, p) = (r, p)
  admitted code client_ip (none, p) =
      mac_extracted code client_ip p (extract_mac_address env.upper request params.client_mac)

  -- A refused token is answered before anything is read or written.
  unfoldable pub process_authorization : Bool → Text → Portal → Response × Portal
  unfolding enforce_rate_limit
  process_authorization csrf_ok code p =
      if not csrf_ok
      then (http_error 403, p)
      else let client_ip = get_client_ip env.ip_address request true env.trusted_networks in
        admitted code client_ip (enforce_rate_limit request client_ip now p)
