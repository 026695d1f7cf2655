-- ===== src/Store/VoucherRepository.antt =====
-- addon/src/captive_portal/persistence/voucher_repository.py
use homeassistant_captive_po.Base.{
  ℕ, Text, text_eq, Bool, true, false, not, ◌&&◌, ltb, ◌==◌, Option, none, some, List, [], ◌∷◌,
  ◌++◌, map, find_where, select_where, update_where, count_where,
}
use homeassistant_captive_po.Time.{DateTime}
use homeassistant_captive_po.Models.Voucher.{Voucher, VoucherStatus, expired, revoked}
use homeassistant_captive_po.Store.Database.{Database}

-- `WHERE Voucher.code == code`
abbrev pub with_code : Text → Voucher → Bool
with_code c v = text_eq v.code c

unfoldable pub get_by_code : Text → Database → Option Voucher
get_by_code c db = find_where (with_code c) db.vouchers

abbrev with_booking_ref : Text → Option Text → Bool
with_booking_ref b none = false
with_booking_ref b (some r) = text_eq r b

pub find_by_booking_ref : Text → Database → List Voucher
find_by_booking_ref b db = select_where (λ v. with_booking_ref b v.booking_ref) db.vouchers

-- `add` flushes an INSERT: `none` is the IntegrityError of a primary key that is there.
unfoldable pub add : Voucher → Database → Option Database
unfolding get_by_code
add v db = elim (get_by_code v.code db) [
  | none ↦ some (record db { vouchers = db.vouchers ++ v ∷ [] })
  | some _ ↦ none
]

-- The row of a voucher whose attributes were set, written at the next flush.
unfoldable pub save : Voucher → Database → Database
save v db = record db { vouchers = update_where (with_code v.code) (λ _. v) db.vouchers }

abbrev pub never_redeemed : Text → Voucher → Bool
never_redeemed c v = text_eq v.code c && v.redeemed_count == 0

-- `DELETE … WHERE code = c AND redeemed_count = 0`, and whether exactly one row went.
unfoldable pub delete : Text → Database → Bool × Database
delete c db = (
  count_where (never_redeemed c) db.vouchers == 1,
  record db { vouchers = select_where (λ v. not (never_redeemed c v)) db.vouchers },
)

abbrev pub is_terminal : VoucherStatus → Bool
is_terminal expired = true
is_terminal revoked = true
is_terminal _ = false

-- COALESCE(status_changed_utc, created_utc)
abbrev pub age_ref : Voucher → DateTime
age_ref v = elim v.status_changed_utc [ none ↦ v.created_utc | some t ↦ t ]

-- `status IN (EXPIRED, REVOKED) AND age_ref < cutoff`
unfoldable pub is_purgeable : DateTime → Voucher → Bool
is_purgeable cutoff v = is_terminal v.status && ltb (age_ref v) cutoff

unfoldable pub count_purgeable : DateTime → Database → ℕ
count_purgeable cutoff db = count_where (is_purgeable cutoff) db.vouchers

unfoldable pub get_purgeable_codes : DateTime → Database → List Text
get_purgeable_codes cutoff db = map (λ v. v.code) (select_where (is_purgeable cutoff) db.vouchers)

unfoldable pub purge : DateTime → Database → ℕ × Database
purge cutoff db = (
  count_where (is_purgeable cutoff) db.vouchers,
  record db { vouchers = select_where (λ v. not (is_purgeable cutoff v)) db.vouchers },
)
