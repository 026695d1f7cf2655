-- ===== src/Guest/Audited.antt =====
-- What the audit log gains by a request:
-- addon/src/captive_portal/api/routes/guest_authorization/orchestration.py
use homeassistant_captive_po.Base.{
  ℕ, ◌≡◌, ◌≢◌, ◌⊎◌, inl, inr, Text, Bool, true, false, Option, none, some, List, [], ◌∷◌, ◌++◌,
  Result, ok, err, refl, subst, arith, Bool-cases, Option-cases,
}
use homeassistant_captive_po.Time.{DateTime}
use homeassistant_captive_po.Models.AccessGrant.{AccessGrant, GrantId}
use homeassistant_captive_po.Models.Audit.{
  AuditLog, Outcome, success, denied, error, rate_limited, CodeType,
}
use homeassistant_captive_po.Store.Database.{Database}
use homeassistant_captive_po.RateLimiter.{is_allowed, RateLimiter}
use homeassistant_captive_po.Codes.{CodeValidationResult, ValueError, validate_code}
use homeassistant_captive_po.Network.{Request, MacError, get_client_ip, extract_mac_address}
use homeassistant_captive_po.Redirects.{safe_redirect_destination}
use homeassistant_captive_po.Bookings.Authorize.{GuestContext}
use homeassistant_captive_po.Guest.{GuestOmadaParams, AuthorizationDecision}
use homeassistant_captive_po.Guest.Controller.{
  Adapter, AuthorizeCall, AuthorizeReply, authorized, client_error, other_error, call_of,
  apply_omada_metadata, apply_legacy_site_override, authorize_with_controller,
}
use homeassistant_captive_po.Guest.Flow.{
  Response, redirect, http_error, too_many_requests, adapter_error, url_error, Portal, Environment,
  enforce_rate_limit, is_failed, success_entry, limit_checked, controller_failure_entry,
  save_controller_result, overridden, waited, dispatch, complete_success, after_controller,
  finalize_controller_authorization, decided, code_checked, mac_extracted, admitted,
  process_authorization, context_of,
}
use homeassistant_captive_po.Guest.Decision.{Decides, validate_code-type, dispatch-Decides}

-- Which responses go with an entry's outcome.
abbrev pub is_answer : Outcome → Response → Bool
is_answer success (redirect _ _) = true
is_answer success url_error = true
is_answer success _ = false
is_answer _ (http_error _) = true
is_answer _ (too_many_requests _) = true
is_answer _ _ = false

refused-is_answer :
    (o : Outcome) (status : ℕ) → o ≢ success → is_answer o (http_error status) ≡ true
refused-is_answer success status h = absurd (h refl)
refused-is_answer denied status h = refl
refused-is_answer error status h = refl
refused-is_answer rate_limited status h = refl

abbrev pub Crashes : Option Adapter → Type 0
Crashes o =
    (adapter : Adapter) × (o ≡ some adapter)
    × (call : AuthorizeCall) × (adapter.authorize call ≡ other_error)

-- The redirect leads to the destination, and its ValueError means that there is none.
abbrev pub IsDestination : Option Text → Response → Type 0
IsDestination destination (redirect url _) = destination ≡ some url
IsDestination destination url_error = destination ≡ none
IsDestination destination _ = Unit

-- The log grows by one entry that goes with the response, unless the controller's call let an
-- exception through.
abbrev pub Ends : Option Text → Option Adapter → List AuditLog → Response × Portal → Type 0
Ends destination adapter found (r, p) =
    ((a : AuditLog) × (p.db.audit_logs ≡ found ++ a ∷ [])
      × (is_answer a.outcome r ≡ true)
      × IsDestination destination r)
    ⊎ (Crashes adapter × (r ≡ adapter_error) × (p.db.audit_logs ≡ found))

-- The log that is written to: the request's own, or the one after the controller's call.
abbrev pub IsFound : Option Adapter → (Database → Database) → List AuditLog → List AuditLog → Type 0
IsFound adapter meanwhile logs found =
    (found ≡ logs)
    ⊎ ((d : Database) × (d.audit_logs ≡ logs) × (found ≡ (waited adapter meanwhile d).audit_logs))

module _ (env : Environment) (meanwhile : Database → Database) (request : Request)
    (params : GuestOmadaParams) (id : GrantId) (now later : DateTime) where
  -- Where the guest wants to go, or the way there that is safe.
  abbrev destination : Option Text
  destination =
      safe_redirect_destination env.urlparse env.lower request.root_path params.continue_url
        env.allowed_domains

  complete_success-Ends :
      (ctx : GuestContext) (d : AuthorizationDecision) (g : AccessGrant) (p : Portal)
      → Ends destination env.adapter p.db.audit_logs
          (complete_success env meanwhile request params id now later ctx d g p)
  unfolding complete_success
  complete_success-Ends ctx d g p = elim (Option-cases destination) [
    | inl e ↦ rw (e, complete_success) (inl (success_entry ctx later d g, refl, refl, refl))
    | inr (url, e) ↦ rw (e, complete_success) (inl (success_entry ctx later d g, refl, refl, refl))
  ]

  after_controller-Ends :
      (ctx : GuestContext) (d : AuthorizationDecision) (g : AccessGrant) (p : Portal)
      → Ends destination env.adapter p.db.audit_logs
          (after_controller env meanwhile request params id now later ctx d g p)
  unfolding after_controller
  after_controller-Ends ctx d g p = elim (Bool-cases (is_failed g.status)) [
    | inl e ↦
        rw (e, after_controller) (inl (controller_failure_entry ctx later g.id, refl, refl, tt))
    | inr e ↦ rw (e, after_controller) (complete_success-Ends ctx d g p)
  ]

  controller_crash :
      (adapter : Option Adapter) (mac : Text) (g : AccessGrant)
      → authorize_with_controller (overridden adapter params.site) g mac ≡ none
      → Crashes adapter
  unfolding authorize_with_controller apply_legacy_site_override
  controller_crash none mac g e = absurd (cc)
  controller_crash (some adapter) mac g e =
      let call : AuthorizeCall = call_of (apply_legacy_site_override adapter params.site) g mac in
      (adapter, refl, call, go (adapter.authorize call) refl)
    where
      go :
          (r : AuthorizeReply)
          → adapter.authorize (call_of (apply_legacy_site_override adapter params.site) g mac) ≡ r
          → adapter.authorize (call_of (apply_legacy_site_override adapter params.site) g mac)
            ≡ other_error
      go (authorized i) q = absurd (ground (arith, e, q))
      go client_error q = absurd (ground (arith, e, q))
      go other_error q = q

  finalize-Ends :
      (ctx : GuestContext) (d : AuthorizationDecision) (p : Portal)
      → Ends destination env.adapter
          (waited env.adapter meanwhile p.db).audit_logs
          (finalize_controller_authorization env meanwhile request params id now later ctx d p)
  unfolding finalize_controller_authorization save_controller_result
  finalize-Ends ctx d p = elim (Option-cases answer) [
    | inl e ↦
        rw (e, finalize_controller_authorization)
          (inr (
            controller_crash env.adapter ctx.mac_address (apply_omada_metadata d.grant params) e,
            refl,
            refl,
          ))
    | inr (g, e) ↦ rw (e, finalize_controller_authorization) (after_controller-Ends ctx d _ _)
  ]
    where
      answer : Option AccessGrant
      answer =
          authorize_with_controller (overridden env.adapter params.site)
            (apply_omada_metadata d.grant params) ctx.mac_address

  -- The portal as the limiter leaves it, or the 429 with its entry.
  abbrev Limited : Portal → Option Response × Portal → Type 0
  Limited p (o, p') =
      ((o ≡ none) × (p'.db ≡ p.db))
      ⊎ ((r : Response) × (o ≡ some r) × Ends destination env.adapter p.db.audit_logs (r, p'))

  enforce_rate_limit-Limited :
      (client_ip : Text) (p : Portal) → Limited p (enforce_rate_limit request client_ip now p)
  unfolding enforce_rate_limit
  enforce_rate_limit-Limited client_ip p = go (is_allowed client_ip now now p.limiter)
    where
      go : (r : Bool × RateLimiter) → Limited p (limit_checked request client_ip now p.db r)
      go (true, limiter) = inl (refl, refl)
      go (false, limiter) = inr (_, refl, inl (_, refl, refl, tt))

  -- The log that a request finds and what it ends with.
  abbrev pub Audits : List AuditLog → Response × Portal → Type 0
  Audits logs r =
      (found : List AuditLog) × IsFound env.adapter meanwhile logs found
      × Ends destination env.adapter found r

  dispatched-Audits :
      (ctx : GuestContext) (v : CodeValidationResult) (p : Portal)
      → v.code_type ≢ CodeType.invalid
      → Audits p.db.audit_logs (
          decided env meanwhile request params id now later ctx p.limiter
            (dispatch env id now ctx v p.db))
  dispatched-Audits ctx v p h =
      go (dispatch env id now ctx v p.db).0 (dispatch env id now ctx v p.db).1
        (dispatch-Decides env id now ctx v p.db h)
    where
      go :
          (r : Result ℕ AuthorizationDecision) (db' : Database)
          → Decides id p.db (r, db')
          → Audits p.db.audit_logs
              (decided env meanwhile request params id now later ctx p.limiter (r, db'))
      go (err status) db' (inl (e, q, (a, l, _, n))) =
          (_, inl refl, inl (a, l, refused-is_answer a.outcome status n, tt))
      go (err status) db' (inr (d, q, _)) = absurd (cc)
      go (ok d) db' (inl (e, q, _)) = absurd (cc)
      go (ok d) db' (inr (d', q, h)) = (
        _,
        inr (db', h.logs, refl),
        finalize-Ends ctx d (record { db = db'; limiter = p.limiter }),
      )

  code_checked-Audits :
      (ctx : GuestContext) (p : Portal) (code : Text)
      → Audits p.db.audit_logs (
          code_checked env meanwhile request params id now later ctx p
            (validate_code env.upper code))
  code_checked-Audits ctx p code = go (validate_code env.upper code) refl
    where
      go :
          (r : Result ValueError CodeValidationResult)
          → validate_code env.upper code ≡ r
          → Audits p.db.audit_logs (code_checked env meanwhile request params id now later ctx p r)
      go (err e) q = (_, inl refl, inl (_, refl, refl, tt))
      go (ok v) q = dispatched-Audits ctx v p (validate_code-type env.upper code v q)

  mac_extracted-Audits :
      (code client_ip : Text) (p : Portal) (r : Result MacError Text)
      → Audits p.db.audit_logs
          (mac_extracted env meanwhile request params id now later code client_ip p r)
  mac_extracted-Audits code client_ip p (err e) = (_, inl refl, inl (_, refl, refl, tt))
  mac_extracted-Audits code client_ip p (ok mac) =
      code_checked-Audits (context_of request params client_ip mac) p code

  admitted-Audits :
      (code client_ip : Text) (p : Portal) (r : Option Response × Portal)
      → Limited p r
      → Audits p.db.audit_logs (admitted env meanwhile request params id now later code client_ip r)
  admitted-Audits code client_ip p (none, p') (inl (_, e)) =
      subst
        (λ (d : Database).
          Audits d.audit_logs
            (admitted env meanwhile request params id now later code client_ip (none, p')))
        e
        (mac_extracted-Audits code client_ip p'
          (extract_mac_address env.upper request params.client_mac))
  admitted-Audits code client_ip p (none, p') (inr (r, q, _)) = absurd (cc)
  admitted-Audits code client_ip p (some r, p') (inl (q, _)) = absurd (cc)
  admitted-Audits code client_ip p (some r, p') (inr (r', q, h)) = (
    _,
    inl refl,
    subst (λ x. Ends destination env.adapter p.db.audit_logs (x, p')) (ground (arith, q)) h,
  )

  -- A request whose CSRF token passes adds exactly one entry to the audit log that it finds, and the
  -- entry says success exactly where the response is the redirect, which leads to the safe destination,
  -- or the ValueError that the choice of this destination raises; or the controller's adapter raises an
  -- exception that leaves the handler, and the log is as the request found it.
  pub process_authorization-Audits :
      (code : Text) (p : Portal)
      → Audits p.db.audit_logs
          (process_authorization env meanwhile request params id now later true code p)
  unfolding process_authorization
  process_authorization-Audits code p =
      let client_ip = get_client_ip env.ip_address request true env.trusted_networks in
      admitted-Audits code client_ip p _ (enforce_rate_limit-Limited client_ip p)
