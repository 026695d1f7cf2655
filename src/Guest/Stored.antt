-- ===== src/Guest/Stored.antt =====
-- The grant that a request leaves in the database:
-- addon/src/captive_portal/api/routes/guest_authorization/orchestration.py
use homeassistant_captive_po.Base.{
  ◌≡◌, ◌⊎◌, inl, inr, Text, Bool, true, false, ◌==◌, Option, none, some, refl, subst, arith,
}
use homeassistant_captive_po.Models.AccessGrant.{
  AccessGrant, GrantId, GrantStatus, pending, active, failed,
}
use homeassistant_captive_po.Store.Database.{Database}
use homeassistant_captive_po.Store.AccessGrantRepository.{get_by_id}
use homeassistant_captive_po.RateLimiter.{RateLimiter}
use homeassistant_captive_po.Guest.Controller.{
  Adapter, AuthorizeReply, authorized, client_error, other_error, call_of,
  authorize_with_controller,
}
use homeassistant_captive_po.Guest.Flow.{
  Response, redirect, http_error, too_many_requests, adapter_error, url_error, Portal,
}

-- Which response goes with the status of the request's grant.
abbrev pub is_status_answer : GrantId → GrantStatus → Response → Bool
is_status_answer id active (redirect _ i) = i == id
is_status_answer id active url_error = true
is_status_answer id failed (http_error status) = status == 502
is_status_answer id pending adapter_error = true
is_status_answer id _ _ = false

-- Which response goes with what the database has under the request's id.
abbrev pub is_grant_answer : GrantId → Option AccessGrant → Response → Bool
is_grant_answer id none (http_error _) = true
is_grant_answer id none (too_many_requests _) = true
is_grant_answer id none _ = false
is_grant_answer id (some g) r = is_status_answer id g.status r

abbrev pub Leaves : GrantId → Response × Portal → Type 0
Leaves id (r, p) = is_grant_answer id (get_by_id id p.db) r ≡ true

-- The controller's answer sets the status active or failed, and keeps the id.
abbrev pub IsAnswered : AccessGrant → AccessGrant → Type 0
IsAnswered g h = ((h.status ≡ active) ⊎ (h.status ≡ failed)) × (h.id ≡ g.id)

pub authorize_with_controller-IsAnswered :
    (adapter : Option Adapter) (g h : AccessGrant) (mac : Text)
    → authorize_with_controller adapter g mac ≡ some h
    → IsAnswered g h
unfolding authorize_with_controller
authorize_with_controller-IsAnswered none g h mac e =
    let q : record g { status = active } ≡ h = ground (arith, e) in
    subst (IsAnswered g) q (inl refl, refl)
authorize_with_controller-IsAnswered (some adapter) g h mac e =
    go (adapter.authorize (call_of adapter g mac)) refl
  where
    go : (r : AuthorizeReply) → adapter.authorize (call_of adapter g mac) ≡ r → IsAnswered g h
    go (authorized i) q =
        let k : record g { status = active; controller_grant_id = i } ≡ h = ground (arith, e, q) in
        subst (IsAnswered g) k (inl refl, refl)
    go client_error q =
        let k : record g { status = failed } ≡ h = ground (arith, e, q) in
        subst (IsAnswered g) k (inr refl, refl)
    go other_error q = absurd (ground (arith, e, q))
