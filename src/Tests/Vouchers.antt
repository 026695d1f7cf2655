-- ===== src/Tests/Vouchers.antt =====
-- Runs of addon/src/captive_portal/services/voucher_service.py.
use homeassistant_captive_po.Base.{
  ℕ, ◌+◌, ◌≤◌, ◌<◌, ◌≡◌, ◌≢◌, Text, text_eq, codes, none, some, [], ◌∷◌, refl, ok, err, pos, arith,
  length, zero, suc, select_where, count_where, ◌⊎◌, ◌++◌,
}
use homeassistant_captive_po.Time.{minutes, floor_to_minute}
use homeassistant_captive_po.Models.Voucher.{
  Voucher, VoucherStatus, revoked, expires_utc, is_activated_for_expiry,
}
use homeassistant_captive_po.Store.Database.{Database}
use homeassistant_captive_po.Store.VoucherRepository
use homeassistant_captive_po.Store.VoucherRepository.{with_code}
use homeassistant_captive_po.Store.AccessGrantRepository
use homeassistant_captive_po.VoucherService.{
  voucher_expired, voucher_revoked, redemption_grant, redeem_voucher, redeem, revoke,
  revoke_voucher, DeleteError, delete,
}
use homeassistant_captive_po.VoucherService.Redeem.{redeem_again, redeem_refused}
use homeassistant_captive_po.Models.AccessGrant.{AccessGrant}
use homeassistant_captive_po.VoucherService.Redemption.{IsRedemption, redeem_exact}
use homeassistant_captive_po.VoucherService.Limit.{IsWithinLimit, redeem-IsWithinLimit}
use homeassistant_captive_po.VoucherService.Removal.{
  is_redeemed, revoke_final, delete_keeps_redeemed,
}
use homeassistant_captive_po.VoucherService.Create.{index_error, new_voucher, draw_code, create}
use homeassistant_captive_po.VoucherService.Attempts.{AllTaken, create_first_fresh, create-AllTaken}
use homeassistant_captive_po.Samples.{noon, laptop, wifi, dusk, fresh, options, db_of, shop}

redeem-IsWithinLimit_example : IsWithinLimit (redeem 2 wifi laptop noon shop).1
unfolding AccessGrantRepository.count_active_by_voucher_code text_eq
redeem-IsWithinLimit_example =
    redeem-IsWithinLimit 2 wifi laptop noon shop (omega arith, (omega arith, tt))

redeem_exact_example :
    (g : AccessGrant) × ((redeem 2 wifi laptop noon shop).0 ≡ ok g)
    × IsRedemption 2 wifi laptop noon fresh shop g (redeem 2 wifi laptop noon shop).1
unfolding VoucherRepository.get_by_code AccessGrantRepository.count_active_by_voucher_code text_eq
    is_activated_for_expiry
redeem_exact_example =
    (redeem_exact 2 wifi laptop noon shop fresh refl).1
      (record { not_revoked = refl; in_time = refl; new_device = refl; has_room = omega arith })

redeem_again_example :
    (redeem 3 wifi laptop (noon + minutes 5) (redeem 2 wifi laptop noon shop).1).0
    ≢ ok (redemption_grant 3 wifi laptop (noon + minutes 5) fresh)
unfolding redeem redeem_voucher VoucherRepository.get_by_code
    AccessGrantRepository.count_active_by_voucher_code
    AccessGrantRepository.find_pending_or_active_by_mac text_eq is_activated_for_expiry
redeem_again_example =
    redeem_again 2 3 wifi laptop noon (noon + minutes 5) shop
      (redemption_grant 2 wifi laptop noon fresh)
      (redemption_grant 3 wifi laptop (noon + minutes 5) fresh) refl

-- The voucher's hour from noon is over at two.
redeem_refused_example :
    ((redeem 2 dusk laptop (noon + minutes 120) shop).1 ≡ shop)
    ⊎ ((voucher_expired ≡ voucher_expired)
        × ((v : Voucher) × (VoucherRepository.get_by_code dusk shop ≡ some v)
            × (expires_utc v < noon + minutes 120)
            × ((redeem 2 dusk laptop (noon + minutes 120) shop).1
                ≡ VoucherRepository.save (record v { status = VoucherStatus.expired }) shop)))
unfolding redeem redeem_voucher VoucherRepository.get_by_code text_eq is_activated_for_expiry
    expires_utc floor_to_minute
redeem_refused_example = redeem_refused 2 dusk laptop (noon + minutes 120) shop voucher_expired refl

abbrev revoked_fresh : Voucher
revoked_fresh = record fresh { status = revoked; status_changed_utc = some noon }

revoke_final_example :
    let db' = (revoke wifi noon shop).1 in
    (revoke wifi (noon + minutes 1) db' ≡ (ok revoked_fresh, db'))
    × (redeem 2 wifi laptop (noon + minutes 1) db' ≡ (err voucher_revoked, db'))
unfolding revoke revoke_voucher VoucherRepository.get_by_code text_eq is_activated_for_expiry
revoke_final_example = revoke_final 2 wifi laptop noon (noon + minutes 1) shop revoked_fresh refl

-- Another session's redemption between the check and the DELETE statement.
abbrev redeemed_meanwhile : Database → Database
redeemed_meanwhile db = db_of (record fresh { redeemed_count = 1 } ∷ []) []

only_one : (c : Text) → count_where (with_code c) (redeemed_meanwhile shop).vouchers ≤ 1
only_one c = ground arith

delete_keeps_redeemed_example :
    let (r, db') = delete redeemed_meanwhile wifi shop in
    ((db' ≡ shop)
      ⊎ (select_where is_redeemed db'.vouchers
          ≡ select_where is_redeemed (redeemed_meanwhile shop).vouchers))
    × ((VoucherRepository.get_by_code wifi db' ≡ none) ⊎ ((e : DeleteError) × (r ≡ err e)))
delete_keeps_redeemed_example = delete_keeps_redeemed redeemed_meanwhile wifi shop only_one

-- The first attempt draws the code WIFI, the second one "BBBB".
abbrev wifi_then_b : ℕ → ℕ → ℕ
wifi_then_b zero zero = 22
wifi_then_b zero (suc zero) = 8
wifi_then_b zero (suc (suc zero)) = 5
wifi_then_b zero (suc (suc (suc _))) = 8
wifi_then_b (suc _) _ = 1

first_taken : AllTaken wifi_then_b 4 shop 0 1
unfolding VoucherRepository.get_by_code text_eq draw_code
first_taken zero l h = refl
first_taken (suc j) l h = absurd (omega arith)

create_first_fresh_example :
    let v = new_voucher (codes "BBBB") 60 options noon in
    (create wifi_then_b (pos 60) options 4 5 noon shop
      ≡ (ok v, 50 ∷ [], record shop { vouchers = shop.vouchers ++ v ∷ [] }))
    × (length v.code ≡ 4)
unfolding VoucherRepository.get_by_code text_eq draw_code
create_first_fresh_example =
    create_first_fresh wifi_then_b 59 options 4 5 1 noon shop (omega arith, omega arith)
      (omega arith) (omega arith) first_taken refl

always_wifi_taken : AllTaken (λ _. wifi_then_b 0) 4 shop 0 7
unfolding VoucherRepository.get_by_code text_eq draw_code
always_wifi_taken j l h = refl

-- Seven retries of a draw that always gives a code of the table raise IndexError.
create-AllTaken_example :
    create (λ _. wifi_then_b 0) (pos 60) options 4 7 noon shop
    ≡ (err index_error, 50 ∷ 100 ∷ 200 ∷ 400 ∷ 800 ∷ [], shop)
create-AllTaken_example =
    create-AllTaken (λ _. wifi_then_b 0) 59 options 4 6 noon shop (omega arith, omega arith)
      always_wifi_taken
