-- ===== src/Store/Laws.antt =====
-- Laws of the repositories' statements in addon/src/captive_portal/persistence/.
use homeassistant_captive_po.Base.{
  ◌≡◌, Text, text_eq, text_eq_iff, none, some, arith, find_where-true, find_where-update_where,
  if◌then◌else◌, ◌==◌,
}
use homeassistant_captive_po.Models.Voucher.{Voucher}
use homeassistant_captive_po.Models.AccessGrant.{AccessGrant, GrantId}
use homeassistant_captive_po.Store.Database.{Database}
use homeassistant_captive_po.Store.VoucherRepository
use homeassistant_captive_po.Store.VoucherRepository.{with_code, get_by_code}
use homeassistant_captive_po.Store.AccessGrantRepository
use homeassistant_captive_po.Store.AccessGrantRepository.{with_id, get_by_id}

pub code-get_by_code :
    (c : Text) (db : Database) (v : Voucher) → get_by_code c db ≡ some v → v.code ≡ c
unfolding get_by_code
code-get_by_code c db v e = (text_eq_iff v.code c).0 (find_where-true (with_code c) db.vouchers v e)

pub get_by_code-save :
    (c : Text) (w : Voucher) (db : Database)
    → get_by_code c (VoucherRepository.save w db) ≡ elim (get_by_code c db) [
      | none ↦ none
      | some x ↦ some (if text_eq x.code w.code then w else x)
    ]
unfolding get_by_code VoucherRepository.save
get_by_code-save c w db =
    find_where-update_where (with_code c) (with_code w.code) (λ _. w) db.vouchers
      (λ x h. ground (arith, text_eq_iff x.code w.code, text_eq_iff w.code c, text_eq_iff x.code c))

pub get_by_code-save_self :
    (c : Text) (v w : Voucher) (db : Database)
    → get_by_code c db ≡ some v
    → w.code ≡ v.code
    → get_by_code c (VoucherRepository.save w db) ≡ some w
get_by_code-save_self c v w db e k =
    ground (arith, get_by_code-save c w db, text_eq_iff v.code w.code)

pub id-get_by_id :
    (i : GrantId) (db : Database) (g : AccessGrant) → get_by_id i db ≡ some g → g.id ≡ i
unfolding get_by_id
id-get_by_id i db g e = ground (arith, find_where-true (with_id i) db.grants g e)

pub get_by_id-save :
    (i : GrantId) (w : AccessGrant) (db : Database)
    → get_by_id i (AccessGrantRepository.save w db)
      ≡ elim (get_by_id i db) [ none ↦ none | some x ↦ some (if x.id == w.id then w else x) ]
unfolding get_by_id AccessGrantRepository.save
get_by_id-save i w db =
    find_where-update_where (with_id i) (with_id w.id) (λ _. w) db.grants (λ x h. ground arith)
