-- ===== src/GrantService/Limit.antt =====
-- `extend` of addon/src/captive_portal/services/grant_service.py and the device limit of vouchers.
use homeassistant_captive_po.Base.{
  ℕ, suc, ◌+◌, ◌≤◌, ◌≡◌, Text, text_eq_refl, Bool, true, false, ◌&&◌, some, List, [], ◌∷◌, refl,
  arith, pos, count_where, update_where, find_where, Bool-cases, inl, inr,
}
use homeassistant_captive_po.Time.{DateTime}
use homeassistant_captive_po.Models.Voucher.{Voucher}
use homeassistant_captive_po.Models.AccessGrant.{AccessGrant, GrantId, expired}
use homeassistant_captive_po.Store.Database.{Database}
use homeassistant_captive_po.Store.VoucherRepository.{get_by_code}
use homeassistant_captive_po.Store.AccessGrantRepository
use homeassistant_captive_po.Store.AccessGrantRepository.{
  get_by_id, with_id, is_active_for, count_active_by_voucher_code,
}
use homeassistant_captive_po.Store.Laws.{id-get_by_id}
use homeassistant_captive_po.GrantService.{extend, extended}

module _ {A : Type 0} (p q : A → Bool) where
  count_where-set :
      (w : A) (xs : List A)
      → p w ≡ true
      → count_where p (update_where q (λ _. w) xs) + count_where (λ x. q x && p x) xs
        ≡ count_where p xs + count_where q xs
  count_where-set w [] h = refl
  count_where-set w (x ∷ xs) h = ground (arith, count_where-set w xs h)

  count_and-le : (xs : List A) → count_where (λ x. q x && p x) xs ≤ count_where q xs
  count_and-le [] = omega arith
  count_and-le (x ∷ xs) = ground (arith, count_and-le xs)

  -- Where one row at most passes `q`, and the row that does fails `p`.
  count_both :
      (g : A) (xs : List A)
      → count_where q xs ≤ 1
      → find_where q xs ≡ some g
      → p g ≡ false
      → (count_where (λ x. q x && p x) xs ≡ 0) × (count_where q xs ≡ 1)
  count_both g [] u e h = absurd (cc)
  count_both g (x ∷ xs) u e h = elim (Bool-cases (q x)) [
    | inl t ↦ let same : x ≡ g = ground arith in ground (arith, count_and-le xs, t, same)
    | inr f ↦ ground (arith, count_both g xs, f)
  ]

-- Grant ids are a primary key.
abbrev pub HasUniqueIds : Database → Type 0
HasUniqueIds db = (i : GrantId) → count_where (with_id i) db.grants ≤ 1

-- Extending an expired grant of a voucher all of whose devices are in use makes it active again, and
-- the voucher has one more pending or active grant than devices: `extend` does not check the limit.
pub extend_exceeds_limit :
    (id : GrantId) (additional : ℕ) (now : DateTime) (db : Database) (g : AccessGrant) (code : Text)
    (v : Voucher)
    → HasUniqueIds db
    → get_by_id id db ≡ some g
    → g.status ≡ expired
    → g.voucher_code ≡ some code
    → get_by_code code db ≡ some v
    → count_active_by_voucher_code code db ≡ v.max_devices
    → let db' = (extend id (pos (suc additional)) now db).1 in
      count_active_by_voucher_code code db' ≡ v.max_devices + 1
unfolding extend count_active_by_voucher_code get_by_id AccessGrantRepository.save
extend_exceeds_limit id additional now db g code v u e x c k full =
    let w = extended (suc additional) now g in
    ground (
      arith,
      count_where-set (is_active_for code) (with_id g.id) w db.grants,
      count_both (is_active_for code) (with_id g.id) g db.grants,
      u g.id,
      id-get_by_id id db g e,
      text_eq_refl code,
    )
