-- ===== src/Guest/Limited.antt =====
-- The vouchers' device limits through a whole request:
-- addon/src/captive_portal/api/routes/guest_authorization/orchestration.py
use homeassistant_captive_po.Base.{
  ℕ, ◌≡◌, ◌≢◌, inl, inr, Text, Bool, true, false, Option, none, some, [], ◌∷◌, Result, ok, err,
  refl, subst, arith, ap, ◌∙◌, Bool-cases, Option-cases, select_where, select_where-append,
}
use homeassistant_captive_po.Time.{DateTime}
use homeassistant_captive_po.Models.AccessGrant.{AccessGrant, GrantId, pending}
use homeassistant_captive_po.Models.Audit.{CodeType}
use homeassistant_captive_po.Store.Database.{Database}
use homeassistant_captive_po.Store.AccessGrantRepository.{with_id, count_active_by_voucher_code}
use homeassistant_captive_po.RateLimiter.{is_allowed, RateLimiter}
use homeassistant_captive_po.Codes.{CodeValidationResult, ValueError, validate_code}
use homeassistant_captive_po.Network.{Request, MacError, get_client_ip, extract_mac_address}
use homeassistant_captive_po.Redirects.{safe_redirect_destination}
use homeassistant_captive_po.VoucherService.Limit.{IsWithinLimit}
use homeassistant_captive_po.Bookings.Authorize.{GuestContext}
use homeassistant_captive_po.Guest.{GuestOmadaParams, AuthorizationDecision}
use homeassistant_captive_po.Guest.Controller.{
  Adapter, apply_omada_metadata, authorize_with_controller,
}
use homeassistant_captive_po.Guest.Flow.{
  Portal, Environment, enforce_rate_limit, is_failed, limit_checked, overridden, waited, dispatch,
  complete_success, after_controller, finalize_controller_authorization, decided, code_checked,
  mac_extracted, admitted, process_authorization, context_of,
}
use homeassistant_captive_po.Guest.Decision.{
  Decides, IsDecided, validate_code-type, dispatch-Decides,
}
use homeassistant_captive_po.Guest.Stored.{authorize_with_controller-IsAnswered}
use homeassistant_captive_po.Guest.Limit.{
  save_controller_result-IsWithinLimit, dispatch-IsWithinLimit,
}

module _ (env : Environment) (meanwhile : Database → Database) (request : Request)
    (params : GuestOmadaParams) (id : GrantId) (now later : DateTime)
    (keeps : (d : Database)
      → select_where (with_id id) (meanwhile d).grants ≡ select_where (with_id id) d.grants)
    (others : (d : Database) → IsWithinLimit d → IsWithinLimit (meanwhile d)) where
  complete_success-IsWithinLimit :
      (ctx : GuestContext) (d : AuthorizationDecision) (g : AccessGrant) (p : Portal)
      → IsWithinLimit p.db
      → IsWithinLimit (complete_success env meanwhile request params id now later ctx d g p).1.db
  unfolding complete_success count_active_by_voucher_code
  complete_success-IsWithinLimit ctx d g p h = elim (Option-cases destination) [
    | inl q ↦ rw (q, complete_success) h
    | inr (url, q) ↦ rw (q, complete_success) h
  ]
    where
      destination : Option Text
      destination =
          safe_redirect_destination env.urlparse env.lower request.root_path params.continue_url
            env.allowed_domains

  after_controller-IsWithinLimit :
      (ctx : GuestContext) (d : AuthorizationDecision) (g : AccessGrant) (p : Portal)
      → IsWithinLimit p.db
      → IsWithinLimit (after_controller env meanwhile request params id now later ctx d g p).1.db
  unfolding after_controller count_active_by_voucher_code
  after_controller-IsWithinLimit ctx d g p h = elim (Bool-cases (is_failed g.status)) [
    | inl q ↦ rw (q, after_controller) h
    | inr q ↦ rw (q, after_controller) (complete_success-IsWithinLimit ctx d g p h)
  ]

  waited-IsWithinLimit :
      (o : Option Adapter) (db : Database)
      → IsWithinLimit db
      → IsWithinLimit (waited o meanwhile db)
  waited-IsWithinLimit none db h = h
  waited-IsWithinLimit (some _) db h = others db h

  select_where-waited :
      (o : Option Adapter) (db : Database)
      → select_where (with_id id) (waited o meanwhile db).grants
        ≡ select_where (with_id id) db.grants
  select_where-waited none db = refl
  select_where-waited (some _) db = keeps db

  finalize-IsWithinLimit :
      (ctx : GuestContext) (d : AuthorizationDecision) (p : Portal)
      → select_where (with_id id) p.db.grants ≡ d.grant ∷ []
      → d.grant.id ≡ id
      → d.grant.status ≡ pending
      → IsWithinLimit p.db
      → IsWithinLimit
          (finalize_controller_authorization env meanwhile request params id now later ctx d p).1.db
  unfolding finalize_controller_authorization apply_omada_metadata
  finalize-IsWithinLimit ctx d p e i s h = elim (Option-cases answer) [
    | inl q ↦ rw (q, finalize_controller_authorization) found_limit
    | inr (g, q) ↦
        let (_, same) =
          authorize_with_controller-IsAnswered (overridden env.adapter params.site)
            (apply_omada_metadata d.grant params) g ctx.mac_address q in
        let names : g.id ≡ id = same ∙ i in
        let row : select_where (with_id g.id) found.grants ≡ d.grant ∷ [] =
          ap (λ j. select_where (with_id j) found.grants) names
          ∙ select_where-waited env.adapter p.db
          ∙ e in
        rw (q, finalize_controller_authorization)
          (after_controller-IsWithinLimit ctx d _ _
            (save_controller_result-IsWithinLimit g d.grant found row s found_limit))
  ]
    where
      answer : Option AccessGrant
      answer =
          authorize_with_controller (overridden env.adapter params.site)
            (apply_omada_metadata d.grant params) ctx.mac_address

      found : Database
      found = waited env.adapter meanwhile p.db

      found_limit : IsWithinLimit (waited env.adapter meanwhile p.db)
      found_limit = waited-IsWithinLimit env.adapter p.db h

  dispatched-IsWithinLimit :
      (ctx : GuestContext) (v : CodeValidationResult) (p : Portal)
      → v.code_type ≢ CodeType.invalid
      → select_where (with_id id) p.db.grants ≡ []
      → IsWithinLimit p.db
      → IsWithinLimit
          (decided env meanwhile request params id now later ctx p.limiter
            (dispatch env id now ctx v p.db)).1.db
  dispatched-IsWithinLimit ctx v p t e h =
      go (dispatch env id now ctx v p.db).0 (dispatch env id now ctx v p.db).1
        (dispatch-Decides env id now ctx v p.db t) (dispatch-IsWithinLimit env id ctx now v p.db h)
    where
      go :
          (r : Result ℕ AuthorizationDecision) (db' : Database)
          → Decides id p.db (r, db')
          → IsWithinLimit db'
          → IsWithinLimit
              (decided env meanwhile request params id now later ctx p.limiter (r, db')).1.db
      go (err status) db' _ k = k
      go (ok d) db' (inl (_, q, _)) k = absurd (cc)
      go (ok d) db' (inr (d', q, a)) k =
          let same : d' ≡ d = ground (arith, q) in
          let a' : IsDecided id d p.db db' = subst (λ x. IsDecided id x p.db db') same a in
          let own : select_where (with_id id) (d.grant ∷ []) ≡ d.grant ∷ [] =
            ground (arith, a'.names) in
          let row : select_where (with_id id) db'.grants ≡ d.grant ∷ [] =
            ap (select_where (with_id id)) a'.grants
            ∙ select_where-append (with_id id) p.db.grants (d.grant ∷ [])
            ∙ rw e own in
          finalize-IsWithinLimit ctx d (record { db = db'; limiter = p.limiter }) row a'.names
            a'.status k

  code_checked-IsWithinLimit :
      (ctx : GuestContext) (p : Portal) (code : Text)
      → select_where (with_id id) p.db.grants ≡ []
      → IsWithinLimit p.db
      → IsWithinLimit
          (code_checked env meanwhile request params id now later ctx p
            (validate_code env.upper code)).1.db
  unfolding count_active_by_voucher_code
  code_checked-IsWithinLimit ctx p code e h = go (validate_code env.upper code) refl
    where
      go :
          (r : Result ValueError CodeValidationResult)
          → validate_code env.upper code ≡ r
          → IsWithinLimit (code_checked env meanwhile request params id now later ctx p r).1.db
      go (err _) q = h
      go (ok v) q = dispatched-IsWithinLimit ctx v p (validate_code-type env.upper code v q) e h

  mac_extracted-IsWithinLimit :
      (code client_ip : Text) (p : Portal) (r : Result MacError Text)
      → select_where (with_id id) p.db.grants ≡ []
      → IsWithinLimit p.db
      → IsWithinLimit
          (mac_extracted env meanwhile request params id now later code client_ip p r).1.db
  unfolding count_active_by_voucher_code
  mac_extracted-IsWithinLimit code client_ip p (err _) e h = h
  mac_extracted-IsWithinLimit code client_ip p (ok mac) e h =
      code_checked-IsWithinLimit (context_of request params client_ip mac) p code e h

  admitted-IsWithinLimit :
      (code client_ip : Text) (p : Portal) (r : Bool × RateLimiter)
      → select_where (with_id id) p.db.grants ≡ []
      → IsWithinLimit p.db
      → IsWithinLimit
          (admitted env meanwhile request params id now later code client_ip
            (limit_checked request client_ip now p.db r)).1.db
  unfolding count_active_by_voucher_code
  admitted-IsWithinLimit code client_ip p (true, limiter) e h =
      mac_extracted-IsWithinLimit code client_ip (record { db = p.db; limiter = limiter })
        (extract_mac_address env.upper request params.client_mac) e h
  admitted-IsWithinLimit code client_ip p (false, limiter) e h = h

  -- Whatever a request is answered, no voucher has more pending or active grants than devices after it,
  -- if none had before, the id of the request's grant is fresh, and what others do during the
  -- controller's call keeps the limits and the rows of that id.
  pub process_authorization-IsWithinLimit :
      (code : Text) (p : Portal)
      → select_where (with_id id) p.db.grants ≡ []
      → IsWithinLimit p.db
      → IsWithinLimit
          (process_authorization env meanwhile request params id now later true code p).1.db
  unfolding process_authorization enforce_rate_limit
  process_authorization-IsWithinLimit code p e h =
      let client_ip = get_client_ip env.ip_address request true env.trusted_networks in
      admitted-IsWithinLimit code client_ip p (is_allowed client_ip now now p.limiter) e h
