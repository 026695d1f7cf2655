-- ===== src/Tests/Passes.antt =====
-- Runs of one pass of addon/src/captive_portal/services/grant_expiry_service.py.
use homeassistant_captive_po.Base.{◌+◌, ◌≡◌, some, [], ◌∷◌, refl, ok}
use homeassistant_captive_po.Time.{minutes}
use homeassistant_captive_po.Models.AccessGrant.{AccessGrant, active}
use homeassistant_captive_po.Store.Database.{Database}
use homeassistant_captive_po.Store.AccessGrantRepository.{get_by_id}
use homeassistant_captive_po.GrantExpiry.{
  DueGrant, Reply, returned, expired_at, load_due_grants, process_once,
}
use homeassistant_captive_po.GrantExpiry.Pass.{process_once_exact, process_once_lookup}
use homeassistant_captive_po.Samples.{noon, running, grant_with, db_of, shop}

-- The controller revokes, and meanwhile an administrator extends the grant by three hours.
abbrev answers : DueGrant → Reply
answers _ = returned

abbrev longer : AccessGrant
longer = record (grant_with 1 active) { end_utc = noon + minutes 240 }

abbrev extend_meanwhile : Database → Database
extend_meanwhile db = db_of (running ∷ []) (longer ∷ [])

process_once_exact_example :
    process_once (some answers) extend_meanwhile (noon + minutes 61) (noon + minutes 62) shop
    ≡ (ok 1, db_of (running ∷ []) (expired_at (noon + minutes 62) longer ∷ []))
unfolding load_due_grants
process_once_exact_example =
    process_once_exact (some answers) extend_meanwhile (noon + minutes 61) (noon + minutes 62) shop

process_once_lookup_example :
    get_by_id 1
      (process_once (some answers) extend_meanwhile (noon + minutes 61) (noon + minutes 62) shop).1
    ≡ some (expired_at (noon + minutes 62) longer)
unfolding get_by_id load_due_grants
process_once_lookup_example =
    process_once_lookup (some answers) extend_meanwhile (noon + minutes 61) (noon + minutes 62) shop
      1 refl refl
