-- ===== src/Tests/Grants.antt =====
-- Runs of addon/src/captive_portal/services/grant_service.py, voucher_purge_service.py and the
-- roundings.
use homeassistant_captive_po.Base.{
  ◌↔◌, ◌⊎◌, positive?, ℕ, suc, err, ◌+◌, ◌%◌, ◌≤◌, ◌<◌, ◌≡◌, ◌≢◌, text_eq, none, some, [], ◌∷◌,
  refl, ok, pos, arith, length,
}
use homeassistant_captive_po.Time.{minutes, days, floor_to_minute, ceil_to_minute}
use homeassistant_captive_po.Models.Voucher.{Voucher, revoked}
use homeassistant_captive_po.Models.Audit.{admin, system, voucher_manual_purge, voucher_auto_purge}
use homeassistant_captive_po.Models.AccessGrant
use homeassistant_captive_po.Models.AccessGrant.{AccessGrant, GrantStatus, GrantId, pending, active}
use homeassistant_captive_po.Store.Database.{Database}
use homeassistant_captive_po.Store.VoucherRepository
use homeassistant_captive_po.Store.AccessGrantRepository
use homeassistant_captive_po.Store.AccessGrantRepository.{get_by_id, with_id}
use homeassistant_captive_po.GrantService.{GrantError, requested_grant, extend}
use homeassistant_captive_po.GrantService.Laws.{IsExtended, extend_exact}
use homeassistant_captive_po.GrantService.Limit.{HasUniqueIds}
use homeassistant_captive_po.VoucherPurge.{
  days_ago, age_cutoff, purge_before, auto_purge, manual_purge, count_purgeable,
}
use homeassistant_captive_po.VoucherPurge.References.{IsReferenced, purge_before-IsReferenced}
use homeassistant_captive_po.VoucherPurge.Exact.{
  HasUniqueCodes, manual_purge_preview, auto_purge_lookup,
}
use homeassistant_captive_po.Time.Rounding.{rounding_bounds}
use homeassistant_captive_po.Models.AccessGrant.{init-covers}
use homeassistant_captive_po.Samples.{
  noon, phone, laptop, wifi, dusk, fresh, running, grant_with, db_of, shop,
}

abbrev created : AccessGrant
created =
    AccessGrant.init (requested_grant 2 laptop (noon + 5) (noon + 7) (some wifi) none none noon)

extend_exact_example :
    let (r, db') = extend 1 (pos 30) noon shop in
    ((e : GrantError) × (r ≡ err e)
      × (db' ≡ shop)
      × ((positive? (pos 30) ≡ none)
          ⊎ ((get_by_id 1 shop ≡ none)
              ⊎ ((g : AccessGrant) × (get_by_id 1 shop ≡ some g)
                  × (g.status ≡ GrantStatus.revoked)))))
    ⊎ ((additional : ℕ) × (g : AccessGrant) × (w : AccessGrant) × (pos 30 ≡ pos (suc additional))
        × (get_by_id 1 shop ≡ some g)
        × (g.status ≢ GrantStatus.revoked)
        × (r ≡ ok w)
        × (get_by_id 1 db' ≡ some w)
        × IsExtended (suc additional) g w)
extend_exact_example = extend_exact 1 (pos 30) noon shop

-- The voucher's one device is in use, and a former grant of it is expired.
abbrev full : Database
full = db_of (running ∷ []) (grant_with 1 active ∷ grant_with 2 GrantStatus.expired ∷ [])

full-HasUniqueIds : HasUniqueIds full
full-HasUniqueIds i = ground arith

-- A voucher that was revoked at noon, and one that is not terminal.
abbrev gone : Voucher
gone = record running { status = revoked; status_changed_utc = some noon }

abbrev ended : Database
ended = db_of (gone ∷ fresh ∷ []) (grant_with 1 GrantStatus.revoked ∷ [])

manual_purge_preview_example :
    let db' =
      (purge_before (admin phone) voucher_manual_purge 3 (noon + days 1) (noon + days 4) ended).1 in
    (count_purgeable 3 (noon + days 4) ended ≡ some 1)
    × (count_purgeable 3 (noon + days 4) db' ≡ some 0)
    × (length db'.audit_logs ≡ 1)
unfolding manual_purge age_cutoff days_ago purge_before VoucherRepository.purge
    VoucherRepository.get_purgeable_codes VoucherRepository.is_purgeable
    AccessGrantRepository.nullify_voucher_references
manual_purge_preview_example =
    manual_purge_preview 3 phone (noon + days 4) ended
      (purge_before (admin phone) voucher_manual_purge 3 (noon + days 1) (noon + days 4) ended).1 1
      refl

ended-HasUniqueCodes : HasUniqueCodes ended
unfolding text_eq
ended-HasUniqueCodes c = ground arith

auto_purge_lookup_example :
    VoucherRepository.get_by_code dusk
      (purge_before system voucher_auto_purge 3 (noon + days 1) (noon + days 4) ended).1
    ≡ none
unfolding auto_purge days_ago purge_before VoucherRepository.purge
    VoucherRepository.get_purgeable_codes VoucherRepository.get_by_code text_eq
    VoucherRepository.is_purgeable AccessGrantRepository.nullify_voucher_references
auto_purge_lookup_example =
    auto_purge_lookup 3 (noon + days 4) (noon + days 1) ended
      (purge_before system voucher_auto_purge 3 (noon + days 1) (noon + days 4) ended).1 1 dusk
      ended-HasUniqueCodes refl refl

rounding_bounds_example :
    (floor_to_minute (noon + 5) ≤ noon + 5)
    × (noon + 5 < floor_to_minute (noon + 5) + minutes 1)
    × (floor_to_minute (noon + 5) % minutes 1 ≡ 0)
    × (noon + 5 ≤ ceil_to_minute (noon + 5))
    × (ceil_to_minute (noon + 5) < noon + 5 + minutes 1)
    × (ceil_to_minute (noon + 5) % minutes 1 ≡ 0)
    × ((floor_to_minute (noon + 5) ≡ ceil_to_minute (noon + 5)) ↔ ((noon + 5) % minutes 1 ≡ 0))
rounding_bounds_example = rounding_bounds (noon + 5)

purge_before-IsReferenced_example :
    IsReferenced (purge_before system voucher_auto_purge 3 (noon + days 1) (noon + days 4) ended).1
unfolding text_eq
purge_before-IsReferenced_example =
    purge_before-IsReferenced system voucher_auto_purge 3 (noon + days 1) (noon + days 4) ended
      (refl, tt)
