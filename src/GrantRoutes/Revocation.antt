-- ===== src/GrantRoutes/Revocation.antt =====
-- What a revocation by the admin leaves: addon/src/captive_portal/api/routes/grants.py
use homeassistant_captive_po.Base.{◌≡◌, ℕ, Bool, true, false, some, Result, err}
use homeassistant_captive_po.Models.AccessGrant.{AccessGrant, GrantId, revoked}
use homeassistant_captive_po.Store.Database.{Database}
use homeassistant_captive_po.Store.AccessGrantRepository.{get_by_id}
use homeassistant_captive_po.GrantService

-- What a request leaves of the grant, and its answer where the token is refused.
module _ (id : GrantId) (db : Database) where
  abbrev pub IsRevocation : Bool → Result ℕ (AccessGrant × Bool) × Database → Type 0
  IsRevocation false (answer, db') = (answer ≡ err 403) × (db' ≡ db)
  IsRevocation true (answer, db') =
      (w : AccessGrant) × (get_by_id id db' ≡ some w) × (w.status ≡ revoked)
