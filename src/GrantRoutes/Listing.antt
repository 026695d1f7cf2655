-- ===== src/GrantRoutes/Listing.antt =====
-- What listing the grants does to them: addon/src/captive_portal/api/routes/grants.py
use homeassistant_captive_po.Base.{
  ℕ, zero, suc, ◌≤◌, ◌≡◌, inl, inr, Text, Bool, true, false, ◌||◌, ◌==◌, ltb, Option, List, [], ◌∷◌,
  map, ok, ℤ, pos, refl, ap, ◌∙◌, arith, length, select_where, any_where, update_where,
  find_where-update_where, if◌then◌else◌, Bool-cases, Option-cases,
}
use homeassistant_captive_po.Time.{DateTime}
use homeassistant_captive_po.Models.AccessGrant.{AccessGrant, GrantId, GrantStatus}
use homeassistant_captive_po.Store.Database.{Database}
use homeassistant_captive_po.Store.AccessGrantRepository.{with_id, get_by_id}
use homeassistant_captive_po.GrantExpiry.{
  DueGrant, Reply, due_grant, is_due, in_ids, load_due_grants, process_once,
}
use homeassistant_captive_po.GrantRoutes.{
  is_timed, timed_status, with_timed_status, insert_created, order_created, first, selected,
  write_timed_status, list_grants, get_grant,
}

-- Ordering keeps what is there.
any_where-insert_created :
    (p : AccessGrant → Bool) (g : AccessGrant) (gs : List AccessGrant)
    → any_where p (insert_created g gs) ≡ (p g || any_where p gs)
any_where-insert_created p g [] = refl
any_where-insert_created p g (h ∷ hs) = ground (arith, any_where-insert_created p g hs)

any_where-order_created :
    (p : AccessGrant → Bool) (gs : List AccessGrant)
    → any_where p (order_created gs) ≡ any_where p gs
any_where-order_created p [] = refl
any_where-order_created p (g ∷ gs) =
    any_where-insert_created p g (order_created gs)
    ∙ ap (λ b. p g || b) (any_where-order_created p gs)

length-insert_created :
    (g : AccessGrant) (gs : List AccessGrant) → length (insert_created g gs) ≡ suc (length gs)
length-insert_created g [] = refl
length-insert_created g (h ∷ hs) = ground (arith, length-insert_created g hs)

length-order_created : (gs : List AccessGrant) → length (order_created gs) ≡ length gs
length-order_created [] = refl
length-order_created (g ∷ gs) =
    length-insert_created g (order_created gs) ∙ ap suc (length-order_created gs)

first_all : (n : ℕ) (gs : List AccessGrant) → length gs ≤ n → first n gs ≡ gs
first_all zero [] h = refl
first_all zero (g ∷ gs) h = absurd (omega arith)
first_all (suc n) [] h = refl
first_all (suc n) (g ∷ gs) h = ap (λ l. g ∷ l) (first_all n gs (omega arith))

in_ids-map :
    (i : GrantId) (gs : List AccessGrant)
    → in_ids (map (λ (h : AccessGrant). h.id) gs) i ≡ any_where (λ (h : AccessGrant). i == h.id) gs
in_ids-map i [] = refl
in_ids-map i (g ∷ gs) = ap (λ b. (i == g.id) || b) (in_ids-map i gs)

selected_all :
    (n : ℕ) (db : Database)
    → length db.grants ≤ n
    → length db.grants ≤ 1000
    → selected (pos n) db ≡ order_created db.grants
unfolding selected
selected_all n db h k =
    first_all (if ltb 1000 n then 1000 else n) (order_created db.grants)
      (ground (arith, length-order_created db.grants, h, k))

-- A grant that got its status by the time is due at no such time.
with_timed_status-is_due :
    (now : DateTime) (g : AccessGrant) → is_due now (with_timed_status now g) ≡ false
unfolding with_timed_status
with_timed_status-is_due now g = ground arith

with_timed_status_idempotent :
    (now : DateTime) (g : AccessGrant)
    → with_timed_status now (with_timed_status now g) ≡ with_timed_status now g
unfolding with_timed_status
with_timed_status_idempotent now g =
    let w : AccessGrant = with_timed_status now g in
    let kept : (if is_timed w.status then timed_status now w else w.status) ≡ w.status =
      ground arith in
    ap (λ s. record g { status = s }) kept

-- A table of which all due rows are rewritten has no due row.
due_of_timed :
    (now : DateTime) (ids : List GrantId) (gs : List AccessGrant)
    → ((i : GrantId) → any_where (λ (g : AccessGrant). i == g.id) gs ≡ true → in_ids ids i ≡ true)
    → select_where
        (is_due now)
        (update_where (λ (g : AccessGrant). in_ids ids g.id) (with_timed_status now) gs)
      ≡ []
due_of_timed now ids [] h = refl
due_of_timed now ids (g ∷ gs) h =
    let listed : in_ids ids g.id ≡ true = h g.id (ground arith) in
    rw (listed, with_timed_status-is_due now g)
      (due_of_timed now ids gs (λ i k. h i (ground (arith, k))))

module _ (status_filter : Option GrantStatus) (admin_id : Text) (now : DateTime)
    (db : Database) where
  load_due_grants-list_grants :
      (n : ℕ)
      → length db.grants ≤ n
      → length db.grants ≤ 1000
      → load_due_grants now (list_grants status_filter (pos n) admin_id now db).1 ≡ []
  unfolding load_due_grants list_grants write_timed_status
  load_due_grants-list_grants n h k =
      let ids = map (λ (g : AccessGrant). g.id) (selected (pos n) db) in
      ap (map due_grant) (
        due_of_timed now ids db.grants (λ i t.
          ap (λ gs. in_ids (map (λ (g : AccessGrant). g.id) gs) i) (selected_all n db h k)
          ∙ in_ids-map i (order_created db.grants)
          ∙ any_where-order_created (λ (g : AccessGrant). i == g.id) db.grants
          ∙ t))

  -- After a listing of all grants, a pass of the expiry service at the same time finds no due grant:
  -- it asks the controller to revoke none and changes nothing, whichever grants had ended.
  pub process_once-list_grants :
      (n : ℕ) (call : Option (DueGrant → Reply)) (meanwhile : Database → Database)
      (later : DateTime)
      → length db.grants ≤ n
      → length db.grants ≤ 1000
      → let db' = (list_grants status_filter (pos n) admin_id now db).1 in
        process_once call meanwhile now later db' ≡ (ok 0, db')
  unfolding process_once
  process_once-list_grants n call meanwhile later h k =
      rw (load_due_grants-list_grants n h k, process_once) refl

  -- A listing of any length leaves what reading one grant returns at that time.
  pub get_grant-list_grants :
      (limit : ℤ) (id : GrantId)
      → get_grant id now (list_grants status_filter limit admin_id now db).1 ≡ get_grant id now db
  unfolding get_grant list_grants write_timed_status get_by_id
  get_grant-list_grants limit id =
      let ids = map (λ (g : AccessGrant). g.id) (selected limit db) in
      let found =
        find_where-update_where (with_id id) (λ (g : AccessGrant). in_ids ids g.id)
          (with_timed_status now) db.grants (λ x h. unfold with_timed_status in refl) in
      elim (Option-cases (get_by_id id db)) [
        | inl e ↦ rw (found, get_grant, e) refl
        | inr (g, e) ↦ elim (Bool-cases (in_ids ids g.id)) [
          | inl t ↦ rw (found, get_grant, e, t) (ap ok (with_timed_status_idempotent now g))
          | inr t ↦ rw (found, get_grant, e, t) refl
        ]
      ]
