-- ===== src/VoucherService/Removal.antt =====
-- `revoke` and `delete` of addon/src/captive_portal/services/voucher_service.py.
use homeassistant_captive_po.Base.{
  ◌+◌, ◌≤◌, ◌≡◌, ◌⊎◌, inl, inr, Text, Bool, true, not, none, some, List, [], ◌∷◌, refl, arith, ltb,
  ok, err, select_where, count_where, Option-cases, Bool-cases, find_where_of_no_count,
}
use homeassistant_captive_po.Time.{DateTime}
use homeassistant_captive_po.Models.Voucher.{Voucher, revoked}
use homeassistant_captive_po.Models.AccessGrant.{GrantId}
use homeassistant_captive_po.Store.Database.{Database}
use homeassistant_captive_po.Store.VoucherRepository.{get_by_code, with_code, never_redeemed}
use homeassistant_captive_po.Store.VoucherRepository
use homeassistant_captive_po.Store.Laws.{get_by_code-save_self}
use homeassistant_captive_po.VoucherService.{
  redeem, redeem_voucher, voucher_revoked, revoke, revoke_voucher, DeleteError, redeemed_before,
  delete, delete_outcome,
}

-- What `revoke` returns is stored under the code, and is revoked.
pub revoke_ok :
    (code : Text) (now : DateTime) (db : Database) (v : Voucher)
    → (revoke code now db).0 ≡ ok v
    → (get_by_code code (revoke code now db).1 ≡ some v) × (v.status ≡ revoked)
unfolding revoke revoke_voucher
revoke_ok code now db v h = elim (Option-cases (get_by_code code db)) [
  | inl n ↦ absurd (ground arith)
  | inr (x, e) ↦
      let w = record x { status = revoked; status_changed_utc = some now } in
      ground (arith, get_by_code-save_self code x w db e refl)
]

pub revoke_of_revoked :
    (code : Text) (now : DateTime) (db : Database) (v : Voucher)
    → get_by_code code db ≡ some v
    → v.status ≡ revoked
    → revoke code now db ≡ (ok v, db)
unfolding revoke revoke_voucher
revoke_of_revoked code now db v e r = ground arith

pub redeem_of_revoked :
    (id : GrantId) (code mac : Text) (now : DateTime) (db : Database) (v : Voucher)
    → get_by_code code db ≡ some v
    → v.status ≡ revoked
    → redeem id code mac now db ≡ (err voucher_revoked, db)
unfolding redeem redeem_voucher
redeem_of_revoked id code mac now db v e r = ground arith

-- Once a voucher is revoked, revoking it again succeeds and changes nothing, and every redemption of
-- its code is refused as revoked and changes nothing, whenever and by whichever device it is tried.
pub revoke_final :
    (id : GrantId) (code mac : Text) (now later : DateTime) (db : Database) (v : Voucher)
    → (revoke code now db).0 ≡ ok v
    → let db' = (revoke code now db).1 in
      (revoke code later db' ≡ (ok v, db'))
      × (redeem id code mac later db' ≡ (err voucher_revoked, db'))
revoke_final id code mac now later db v h =
    let (e, r) = revoke_ok code now db v h in
    let db' = (revoke code now db).1 in
    (revoke_of_revoked code later db' v e r, redeem_of_revoked id code mac later db' v e r)

abbrev pub is_redeemed : Voucher → Bool
is_redeemed v = ltb 0 v.redeemed_count

-- The DELETE statement leaves every redeemed row.
pub redeemed-delete :
    (code : Text) (db : Database)
    → select_where is_redeemed (VoucherRepository.delete code db).1.vouchers
      ≡ select_where is_redeemed db.vouchers
unfolding VoucherRepository.delete
redeemed-delete code db = go db.vouchers
  where
    go :
        (vs : List Voucher)
        → select_where is_redeemed (select_where (λ v. not (never_redeemed code v)) vs)
          ≡ select_where is_redeemed vs
    go [] = refl
    go (v ∷ vs) = ground (arith, go vs)

-- A DELETE statement that reports a row has taken the code's only row.
delete-gone :
    (code : Text) (db : Database)
    → count_where (with_code code) db.vouchers ≤ 1
    → (VoucherRepository.delete code db).0 ≡ true
    → get_by_code code (VoucherRepository.delete code db).1 ≡ none
unfolding VoucherRepository.delete get_by_code
delete-gone code db u h =
    let left = select_where (λ v. not (never_redeemed code v)) db.vouchers in
    find_where_of_no_count (with_code code) left (ground (arith, go db.vouchers, u))
  where
    go :
        (vs : List Voucher)
        → count_where (with_code code) (select_where (λ v. not (never_redeemed code v)) vs)
            + count_where (never_redeemed code) vs
          ≡ count_where (with_code code) vs
    go [] = refl
    go (v ∷ vs) = ground (arith, go vs)

-- Whatever other sessions commit between the check and the DELETE statement, `delete` removes no
-- redeemed voucher: the database is as before, or its redeemed vouchers are those that the others
-- left. It fails, or else the code names no voucher any more, codes being unique.
pub delete_keeps_redeemed :
    (meanwhile : Database → Database) (code : Text) (db : Database)
    → ((c : Text) → count_where (with_code c) (meanwhile db).vouchers ≤ 1)
    → let (r, db') = delete meanwhile code db in
      ((db' ≡ db)
        ⊎ (select_where is_redeemed db'.vouchers
            ≡ select_where is_redeemed (meanwhile db).vouchers))
      × ((get_by_code code db' ≡ none) ⊎ ((e : DeleteError) × (r ≡ err e)))
unfolding delete delete_outcome
delete_keeps_redeemed meanwhile code db u = elim (Option-cases (get_by_code code db)) [
  | inl e ↦ (inl (ground arith), inr (DeleteError.not_found, ground arith))
  | inr (v, e) ↦ elim (Bool-cases (ltb 0 v.redeemed_count)) [
    | inl t ↦ (inl (ground arith), inr (redeemed_before, ground arith))
    | inr t ↦ (
      inr (ground (arith, redeemed-delete code (meanwhile db))),
      elim (Bool-cases (VoucherRepository.delete code (meanwhile db)).0) [
        | inl d ↦ inl (ground (arith, delete-gone code (meanwhile db) (u code)))
        | inr d ↦
            inr
              (elim (Option-cases
                (get_by_code code (VoucherRepository.delete code (meanwhile db)).1)) [
                  | inl n ↦ (DeleteError.not_found, ground arith)
                  | inr (x, n) ↦ (redeemed_before, ground arith)
                ])
      ],
    )
  ]
]
