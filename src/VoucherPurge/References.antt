-- ===== src/VoucherPurge/References.antt =====
-- The foreign key of the grants, through a purge:
-- addon/src/captive_portal/services/voucher_purge_service.py
use homeassistant_captive_po.Base.{
  ◌≡◌, Text, text_eq_iff, Bool, true, false, not, Option, none, some, is_some, List, [], ◌∷◌, map,
  refl, arith, ℕ, select_where, update_where, find_where, Bool-cases, inl, inr, All,
  All-update_where,
}
use homeassistant_captive_po.Time.{DateTime}
use homeassistant_captive_po.Models.Voucher.{Voucher}
use homeassistant_captive_po.Models.AccessGrant.{AccessGrant}
use homeassistant_captive_po.Models.Audit.{Actor, Action}
use homeassistant_captive_po.Store.Database.{Database, column_in}
use homeassistant_captive_po.Store.VoucherRepository.{with_code, is_purgeable, get_purgeable_codes}
use homeassistant_captive_po.VoucherPurge.{purge_before}
use homeassistant_captive_po.VoucherPurge.Exact.{purge_before-IsPurged}

-- A reference is NULL or the code of a voucher.
abbrev pub refers : List Voucher → Option Text → Bool
refers vs none = true
refers vs (some c) = is_some (find_where (with_code c) vs)

abbrev pub IsReferenced : Database → Type 0
IsReferenced db = All (λ g. refers db.vouchers g.voucher_code ≡ true) db.grants

-- A reference to a row survives a deletion that takes no row of its code.
refers-select_where :
    (doomed : Voucher → Bool) (c : Text) (vs : List Voucher)
    → refers vs (some c) ≡ true
    → column_in (some c) (map (λ v. v.code) (select_where doomed vs)) ≡ false
    → refers (select_where (λ v. not (doomed v)) vs) (some c) ≡ true
refers-select_where doomed c [] h k = h
refers-select_where doomed c (v ∷ vs) h k = elim (Bool-cases (doomed v)) [
  | inl d ↦
      ground (
        arith,
        d,
        h,
        k,
        text_eq_iff v.code c,
        text_eq_iff c v.code,
        refers-select_where doomed c vs,
      )
  | inr d ↦ ground (arith, d, h, k, refers-select_where doomed c vs)
]

-- If every reference of a grant is NULL or names a voucher, then so it is after a purge, although it
-- deletes vouchers that grants refer to.
pub purge_before-IsReferenced :
    (actor : Actor) (action : Action) (age : ℕ) (cutoff now : DateTime) (db : Database)
    → IsReferenced db
    → IsReferenced (purge_before actor action age cutoff now db).1
unfolding get_purgeable_codes
purge_before-IsReferenced actor action age cutoff now db h =
    let db' = (purge_before actor action age cutoff now db).1 in
    let p = purge_before-IsPurged actor action age cutoff now db in
    let left = select_where (λ v. not (is_purgeable cutoff v)) db.vouchers in
    let kept : All (λ g. refers left g.voucher_code ≡ true)
        (update_where (λ g. column_in g.voucher_code (get_purgeable_codes cutoff db))
          (λ g. record g { voucher_code = none }) db.grants) =
      All-update_where (λ (g : AccessGrant). refers db.vouchers g.voucher_code ≡ true)
        (λ g. refers left g.voucher_code ≡ true)
        (λ g. column_in g.voucher_code (get_purgeable_codes cutoff db))
        (λ g. record g { voucher_code = none }) db.grants (λ g r t. refl)
        (λ g r t. one g.voucher_code r t) h in
    rw (p.vouchers, p.grants) kept
  where
    one :
        (o : Option Text)
        → refers db.vouchers o ≡ true
        → column_in o (get_purgeable_codes cutoff db) ≡ false
        → refers (select_where (λ v. not (is_purgeable cutoff v)) db.vouchers) o ≡ true
    one none r t = refl
    one (some c) r t = refers-select_where (is_purgeable cutoff) c db.vouchers r t
