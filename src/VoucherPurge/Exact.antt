-- ===== src/VoucherPurge/Exact.antt =====
-- Which rows a purge takes: addon/src/captive_portal/services/voucher_purge_service.py.
use homeassistant_captive_po.Base.{
  ℕ, ◌+◌, ◌≤◌, ◌≡◌, inl, inr, Text, false, not, ◌&&◌, some, none, List, [], ◌∷◌, refl, arith,
  Option-cases, Bool-cases, select_where, update_where, count_where, length, length-append, ap,
  subst, sym, count_where-select_where-not, find_where-select_where, select_where_of_none,
  update_where_of_none, length-select_where, ltb, if◌then◌else◌,
}
use homeassistant_captive_po.Time.{DateTime}
use homeassistant_captive_po.Models.Voucher.{Voucher}
use homeassistant_captive_po.Models.Audit.{
  Actor, Action, admin, voucher_manual_purge, system, voucher_auto_purge,
}
use homeassistant_captive_po.Store.Database.{Database, column_in}
use homeassistant_captive_po.Store.VoucherRepository
use homeassistant_captive_po.Store.VoucherRepository.{
  with_code, is_terminal, age_ref, is_purgeable, get_purgeable_codes,
}
use homeassistant_captive_po.Store.AccessGrantRepository
use homeassistant_captive_po.VoucherPurge.{
  age_cutoff, days_ago, auto_purge, purge_before, count_purgeable, manual_purge,
}

-- The codes are a primary key.
abbrev pub HasUniqueCodes : Database → Type 0
HasUniqueCodes db = (c : Text) → count_where (with_code c) db.vouchers ≤ 1

-- What a purge before `cutoff` makes of the tables: it returns how many rows are purgeable, deletes
-- those rows, sets the references to their codes to NULL, and logs if it deleted any.
pub record IsPurged (cutoff : DateTime) (db : Database) (n : ℕ) (db' : Database) : Type 0 where
  pub count : n ≡ count_where (is_purgeable cutoff) db.vouchers
  pub vouchers : db'.vouchers ≡ select_where (λ v. not (is_purgeable cutoff v)) db.vouchers
  pub grants :
      db'.grants
      ≡ update_where
          (λ g. column_in g.voucher_code (get_purgeable_codes cutoff db))
          (λ g. record g { voucher_code = none })
          db.grants
  pub logs : length db'.audit_logs ≡ length db.audit_logs + (if ltb 0 n then 1 else 0)

abbrev IsPurgedBy : DateTime → Database → ℕ × Database → Type 0
IsPurgedBy cutoff db (n, db') = IsPurged cutoff db n db'

module _ (actor : Actor) (action : Action) (age : ℕ) (cutoff now : DateTime) (db : Database) where
  -- A purge that finds no code changes nothing, and so has the same description as one that does.
  pub purge_before-IsPurged :
      IsPurged cutoff db
        (purge_before actor action age cutoff now db).0
        (purge_before actor action age cutoff now db).1
  unfolding purge_before VoucherRepository.purge AccessGrantRepository.nullify_voucher_references
      get_purgeable_codes
  purge_before-IsPurged = go (select_where (is_purgeable cutoff) db.vouchers) refl
    where
      go :
          (l : List Voucher)
          → select_where (is_purgeable cutoff) db.vouchers ≡ l
          → IsPurgedBy cutoff db (purge_before actor action age cutoff now db)
      go [] e =
          let k : count_where (is_purgeable cutoff) db.vouchers ≡ 0 =
            ground (arith, length-select_where (is_purgeable cutoff) db.vouchers, e) in
          rw (e, purge_before)
            (record {
              count = sym k;
              vouchers = sym (select_where_of_none (is_purgeable cutoff) db.vouchers e);
              grants = rw e (
                  sym (
                    update_where_of_none (λ g. false) (λ g. record g { voucher_code = none })
                      db.grants (λ g. refl)));
              logs = omega arith;
            })
      go (v ∷ vs) e =
          rw (e, purge_before)
            (elim (Bool-cases (ltb 0 (count_where (is_purgeable cutoff) db.vouchers))) [
              | inl t ↦ rw t (record {
                count = refl;
                vouchers = refl;
                grants = rw e refl;
                logs = rw (t, length-append) refl;
              })
              | inr t ↦ rw t (record {
                count = refl;
                vouchers = refl;
                grants = rw e refl;
                logs = rw t (omega arith);
              })
            ])

-- The purges are such a purge, at their cutoff.
pub manual_purge_inv :
    (min_age_days : ℕ) (actor : Text) (now : DateTime) (db db' : Database) (n : ℕ)
    → manual_purge min_age_days actor now db ≡ some (n, db')
    → (cutoff : DateTime) × (age_cutoff min_age_days now ≡ some cutoff) × IsPurged cutoff db n db'
unfolding manual_purge
manual_purge_inv min_age_days actor now db db' n h =
    elim (Option-cases (age_cutoff min_age_days now)) [
      | inl e ↦ absurd (ground arith)
      | inr (cutoff, e) ↦
          let q : purge_before (admin actor) voucher_manual_purge min_age_days cutoff now db
              ≡ (n, db') =
            ground (arith, e, h) in
          (
            cutoff,
            e,
            subst (IsPurgedBy cutoff db) q (
                purge_before-IsPurged (admin actor) voucher_manual_purge min_age_days cutoff now
                  db),
          )
    ]

pub auto_purge_inv :
    (retention_days : ℕ) (now : DateTime) (db db' : Database) (n : ℕ)
    → auto_purge retention_days now db ≡ some (n, db')
    → (cutoff : DateTime) × (days_ago retention_days now ≡ some cutoff) × IsPurged cutoff db n db'
unfolding auto_purge
auto_purge_inv retention_days now db db' n h = elim (Option-cases (days_ago retention_days now)) [
  | inl e ↦ absurd (ground arith)
  | inr (cutoff, e) ↦
      let q : purge_before system voucher_auto_purge retention_days cutoff now db ≡ (n, db') =
        ground (arith, e, h) in
      (
        cutoff,
        e,
        subst (IsPurgedBy cutoff db) q
            (purge_before-IsPurged system voucher_auto_purge retention_days cutoff now db),
      )
]

-- The preview of a manual purge states the number of vouchers that the purge at that time deletes,
-- and after the purge the preview states that none is left; the purge writes one audit entry if it
-- deleted a voucher, and none otherwise.
pub manual_purge_preview :
    (min_age_days : ℕ) (actor : Text) (now : DateTime) (db db' : Database) (n : ℕ)
    → manual_purge min_age_days actor now db ≡ some (n, db')
    → (count_purgeable min_age_days now db ≡ some n)
      × (count_purgeable min_age_days now db' ≡ some 0)
      × (length db'.audit_logs ≡ length db.audit_logs + (if ltb 0 n then 1 else 0))
unfolding count_purgeable VoucherRepository.count_purgeable
manual_purge_preview min_age_days actor now db db' n h =
    let (cutoff, e, p) = manual_purge_inv min_age_days actor now db db' n h in
    (
      rw (e, count_purgeable) (ap some (sym p.count)),
      rw (e, count_purgeable, p.vouchers)
          (ap some (count_where-select_where-not (is_purgeable cutoff) db.vouchers)),
      p.logs,
    )

-- After an automatic purge a code names the voucher that it named before, unless that voucher was
-- EXPIRED or REVOKED with an age reference before the cutoff: then the code names none.
pub auto_purge_lookup :
    (retention_days : ℕ) (now cutoff : DateTime) (db db' : Database) (n : ℕ) (code : Text)
    → HasUniqueCodes db
    → days_ago retention_days now ≡ some cutoff
    → auto_purge retention_days now db ≡ some (n, db')
    → VoucherRepository.get_by_code code db' ≡ elim (VoucherRepository.get_by_code code db) [
      | none ↦ none
      | some v ↦ if is_terminal v.status && ltb (age_ref v) cutoff then none else some v
    ]
unfolding VoucherRepository.get_by_code is_purgeable
auto_purge_lookup retention_days now cutoff db db' n code u c h =
    let (cutoff', e, p) = auto_purge_inv retention_days now db db' n h in
    let q : cutoff' ≡ cutoff = cc in
    rw (p.vouchers, q)
      (ground (
        arith,
        find_where-select_where (with_code code) (λ v. not (is_purgeable cutoff v)) db.vouchers
            (u code),
      ))
