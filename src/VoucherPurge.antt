-- ===== src/VoucherPurge.antt =====
-- addon/src/captive_portal/services/voucher_purge_service.py
pub mod Exact
pub mod References
use homeassistant_captive_po.Base.{
  ℕ, ◌+◌, ◌-◌, Text, Bool, leb, ltb, ◌==◌, Option, none, some, List, [], ◌∷◌, ◌++◌, if◌then◌else◌,
}
use homeassistant_captive_po.Time.{DateTime, days}
use homeassistant_captive_po.Models.Audit.{
  AuditLog, Actor, system, admin, Action, voucher_auto_purge, voucher_manual_purge, success,
  TargetType, purged,
}
use homeassistant_captive_po.Store.Database.{Database}
use homeassistant_captive_po.Store.VoucherRepository
use homeassistant_captive_po.Store.AccessGrantRepository

-- now - timedelta(days=…); `none` is the OverflowError of a date before the year 1.
unfoldable pub days_ago : ℕ → DateTime → Option DateTime
days_ago n now = if leb (days n) now then some (now - days n) else none

-- The cutoff of a manual purge: 0 days takes every terminal voucher.
unfoldable pub age_cutoff : ℕ → DateTime → Option DateTime
age_cutoff min_age_days now =
    if min_age_days == 0 then some (now + days 1) else days_ago min_age_days now

abbrev purge_entry : Actor → Action → ℕ → ℕ → DateTime → DateTime → AuditLog
purge_entry actor action purged_count age cutoff now = record {
  actor = actor;
  action = action;
  target_type = some TargetType.voucher;
  target_id = none;
  timestamp_utc = now;
  outcome = success;
  meta = purged purged_count age cutoff;
}

-- The entry is written only if rows were deleted.
abbrev log_purge : AuditLog → ℕ × Database → ℕ × Database
log_purge entry (n, db) =
    (n, if ltb 0 n then record db { audit_logs = db.audit_logs ++ entry ∷ [] } else db)

-- The body that both purges share: nullify the references, delete, commit, log.
unfoldable pub purge_before : Actor → Action → ℕ → DateTime → DateTime → Database → ℕ × Database
purge_before actor action age cutoff now db =
    elim (VoucherRepository.get_purgeable_codes cutoff db) [
      | [] ↦ (0, db)
      | c ∷ cs ↦
          let (_, db') = AccessGrantRepository.nullify_voucher_references (c ∷ cs) db in
          let (n, db'') = VoucherRepository.purge cutoff db' in
          log_purge (purge_entry actor action n age cutoff now) (n, db'')
    ]

unfoldable pub auto_purge : ℕ → DateTime → Database → Option (ℕ × Database)
auto_purge retention_days now db = elim (days_ago retention_days now) [
  | none ↦ none
  | some cutoff ↦ some (purge_before system voucher_auto_purge retention_days cutoff now db)
]

unfoldable pub count_purgeable : ℕ → DateTime → Database → Option ℕ
count_purgeable min_age_days now db = elim (age_cutoff min_age_days now) [
  | none ↦ none
  | some cutoff ↦ some (VoucherRepository.count_purgeable cutoff db)
]

unfoldable pub manual_purge : ℕ → Text → DateTime → Database → Option (ℕ × Database)
manual_purge min_age_days actor now db = elim (age_cutoff min_age_days now) [
  | none ↦ none
  | some cutoff ↦ some (purge_before (admin actor) voucher_manual_purge min_age_days cutoff now db)
]
