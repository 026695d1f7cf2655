-- ===== src/GrantExpiry/Pass.antt =====
-- What one pass of addon/src/captive_portal/services/grant_expiry_service.py does to the grants.
use homeassistant_captive_po.Base.{
  ◌≡◌, inl, inr, Bool, true, false, not, ◌&&◌, ◌||◌, Option, none, some, List, [], ◌∷◌, map, refl,
  find_where, ap, ◌∙◌, subst, arith, is_empty, ◌==◌, any_where, select_where, update_where,
  count_where, ok, err, if◌then◌else◌, Bool-cases, Option-cases, find_where-update_where,
  update_where_of_none, count_where_of_none, count_where_ext, update_where_ext,
}
use homeassistant_captive_po.Time.{DateTime}
use homeassistant_captive_po.Models.AccessGrant.{AccessGrant, GrantId, is_active}
use homeassistant_captive_po.Store.Database.{Database}
use homeassistant_captive_po.Store.AccessGrantRepository.{get_by_id, with_id}
use homeassistant_captive_po.Store.Laws.{id-get_by_id}
use homeassistant_captive_po.GrantExpiry.{
  DueGrant, Reply, returned, client_error, other_error, is_due, due_grant, load_due_grants, in_ids,
  is_marked, expired_at, mark_grants_expired, revoke_due_grant, revoke_all, process_once,
}

-- What the controller says of a grant: that it may be marked, or that the call raised an exception
-- that the method does not catch. Without a controller, or without a MAC, nothing is asked.
abbrev pub is_done : Option (DueGrant → Reply) → DueGrant → Bool
is_done none g = true
is_done (some call) g = is_empty g.mac || elim (call g) [ returned ↦ true | _ ↦ false ]

abbrev pub is_crash : Option (DueGrant → Reply) → DueGrant → Bool
is_crash none g = false
is_crash (some call) g = not (is_empty g.mac) && elim (call g) [ other_error ↦ true | _ ↦ false ]

module _ (call : Option (DueGrant → Reply)) where
  revoke_due_grant_lem :
      (g : DueGrant)
      → revoke_due_grant call g ≡ (if is_crash call g then err other_error else ok (is_done call g))
  unfolding revoke_due_grant
  revoke_due_grant_lem g = go call
    where
      go :
          (c : Option (DueGrant → Reply))
          → revoke_due_grant c g ≡ (if is_crash c g then err other_error else ok (is_done c g))
      go none = refl
      go (some f) = elim (Bool-cases (is_empty g.mac)) [
        | inl e ↦ rw e refl
        | inr e ↦ rw e (reply (f g))
      ]
        where
          reply :
              (r : Reply)
              → (elim r [
                | returned ↦ ok true
                | client_error ↦ ok false
                | other_error ↦ err other_error
              ])
                ≡ (if (elim r [ other_error ↦ true | _ ↦ false ])
                    then err other_error
                    else ok (elim r [ returned ↦ true | _ ↦ false ]))
          reply returned = refl
          reply client_error = refl
          reply other_error = refl

  revoke_all_lem :
      (gs : List DueGrant)
      → revoke_all call gs ≡ (
          if any_where (is_crash call) gs
          then err other_error
          else ok (map (λ g. g.id) (select_where (is_done call) gs)))
  unfolding revoke_all
  revoke_all_lem [] = refl
  revoke_all_lem (g ∷ gs) = ground (arith, revoke_due_grant_lem g, revoke_all_lem gs)

  -- Whether the pass that loads from these grants expires an id.
  abbrev pub finishes : DateTime → Database → GrantId → Bool
  finishes now db i =
      any_where (λ g. (is_due now g && is_done call (due_grant g)) && i == g.id) db.grants

  in_ids-finished :
      (now : DateTime) (db : Database) (i : GrantId)
      → in_ids (map (λ g. g.id) (select_where (is_done call) (load_due_grants now db))) i
        ≡ finishes now db i
  unfolding load_due_grants
  in_ids-finished now db i = go db.grants
    where
      go :
          (gs : List AccessGrant)
          → in_ids
              (map
                (λ g. g.id)
                (select_where (is_done call) (map due_grant (select_where (is_due now) gs))))
              i
            ≡ any_where (λ g. (is_due now g && is_done call (due_grant g)) && i == g.id) gs
      go [] = refl
      go (g ∷ gs) = elim (Bool-cases (is_due now g)) [
        | inl e ↦ elim (Bool-cases (is_done call (due_grant g))) [
          | inl d ↦ rw (e, d) (ground (arith, go gs))
          | inr d ↦ rw (e, d) (go gs)
        ]
        | inr e ↦ rw e (go gs)
      ]

mark_grants_expired_lem :
    (now : DateTime) (ids : List GrantId) (db : Database)
    → mark_grants_expired now ids db ≡ (
      count_where (is_marked ids) db.grants,
      record db { grants = update_where (is_marked ids) (expired_at now) db.grants },
    )
unfolding mark_grants_expired
mark_grants_expired_lem now [] db = ground (
  arith,
  update_where_of_none (is_marked []) (expired_at now) db.grants (λ g. refl),
  count_where_of_none (is_marked []) db.grants (λ g. refl),
)
mark_grants_expired_lem now (i ∷ ids) db = refl

module _ (call : Option (DueGrant → Reply)) (meanwhile : Database → Database) (now now' : DateTime)
    (db : Database) where
  -- What the update marks.
  abbrev pub is_finished : AccessGrant → Bool
  is_finished g = finishes call now db g.id && is_active g.status

  -- A pass that finds no due grant does nothing. If a call of the controller raises an exception that
  -- is not of the client, the pass raises it and marks no grant, not even those that the controller
  -- revoked before. Otherwise it marks as expired, among the grants as the others left them meanwhile,
  -- exactly those that were due when it looked, that the controller was done with, and that are still
  -- active, and returns their number.
  pub process_once_exact : process_once call meanwhile now now' db ≡ elim (load_due_grants now db) [
    | [] ↦ (ok 0, db)
    | d ∷ ds ↦ if any_where (is_crash call) (d ∷ ds) then (err other_error, meanwhile db) else (
      ok (count_where is_finished (meanwhile db).grants),
      record (meanwhile db) {
        grants = update_where is_finished (expired_at now') (meanwhile db).grants;
      },
    )
  ]
  unfolding process_once
  process_once_exact = go (load_due_grants now db) refl
    where
      m :
          (ids : List GrantId)
          → ((i : GrantId) → in_ids ids i ≡ finishes call now db i)
          → mark_grants_expired now' ids (meanwhile db) ≡ (
            count_where is_finished (meanwhile db).grants,
            record (meanwhile db) {
              grants = update_where is_finished (expired_at now') (meanwhile db).grants;
            },
          )
      m ids k = ground (
        arith,
        mark_grants_expired_lem now' ids (meanwhile db),
        count_where_ext (is_marked ids) is_finished (λ g. rw (k g.id) refl) (meanwhile db).grants,
        update_where_ext (is_marked ids) is_finished (λ g. rw (k g.id) refl) (expired_at now')
            (meanwhile db).grants,
      )

      go :
          (l : List DueGrant)
          → load_due_grants now db ≡ l
          → process_once call meanwhile now now' db ≡ elim l [
            | [] ↦ (ok 0, db)
            | d ∷ ds ↦
                if any_where (is_crash call) (d ∷ ds) then (err other_error, meanwhile db) else (
                  ok (count_where is_finished (meanwhile db).grants),
                  record (meanwhile db) {
                    grants = update_where is_finished (expired_at now') (meanwhile db).grants;
                  },
                )
          ]
      go [] e = rw (e, process_once) refl
      go (d ∷ ds) e = elim (Bool-cases (any_where (is_crash call) (d ∷ ds))) [
        | inl c ↦ rw (e, process_once, revoke_all_lem call (d ∷ ds), c) refl
        | inr c ↦
            rw
              (
                e,
                process_once,
                revoke_all_lem call (d ∷ ds),
                c,
                m (map (λ g. g.id) (select_where (is_done call) (d ∷ ds))) (λ i.
                    subst
                      (λ l.
                        in_ids (map (λ g. g.id) (select_where (is_done call) l)) i
                        ≡ finishes call now db i)
                      e (in_ids-finished call now db i)),
              )
              refl
      ]

  load_due :
      any_where (is_due now) db.grants ≡ true
      → (d : DueGrant) × (ds : List DueGrant) × (load_due_grants now db ≡ d ∷ ds)
  unfolding load_due_grants
  load_due h = go db.grants h
    where
      go :
          (gs : List AccessGrant)
          → any_where (is_due now) gs ≡ true
          → (d : DueGrant) × (ds : List DueGrant) × (map due_grant (select_where (is_due now) gs)
              ≡ d ∷ ds)
      go [] h = absurd (ground arith)
      go (g ∷ gs) h = elim (Bool-cases (is_due now g)) [
        | inl e ↦ (due_grant g, map due_grant (select_where (is_due now) gs), rw e refl)
        | inr e ↦ let (d, ds, q) = go gs (ground arith) in (d, ds, rw e q)
      ]

  -- Where some grant is due and no call raises an exception that is not of the client, an id names
  -- after the pass the grant that the others left there, marked as expired if a grant of that id was
  -- due and done with and the grant is still active. When the grant ends is not looked at again, so
  -- one that was extended meanwhile expires too.
  pub process_once_lookup :
      (i : GrantId)
      → any_where (is_due now) db.grants ≡ true
      → any_where (is_crash call) (load_due_grants now db) ≡ false
      → get_by_id i (process_once call meanwhile now now' db).1
        ≡ elim (get_by_id i (meanwhile db)) [
          | none ↦ none
          | some g ↦
              some (if finishes call now db i && is_active g.status then expired_at now' g else g)
        ]
  unfolding get_by_id
  process_once_lookup i h k =
      let (d, ds, e) = load_due h in
      let c : any_where (is_crash call) (d ∷ ds) ≡ false =
        subst (λ l. any_where (is_crash call) l ≡ false) e k in
      let q : (process_once call meanwhile now now' db).1.grants
          ≡ update_where is_finished (expired_at now') (meanwhile db).grants =
        rw (process_once_exact, e, c) refl in
      rw q (
        find_where-update_where (with_id i) is_finished (expired_at now') (meanwhile db).grants
          (λ x _. refl)
        ∙ elim (Option-cases (find_where (with_id i) (meanwhile db).grants)) [
          | inl n ↦ rw n refl
          | inr (x, n) ↦ rw n (
              ap
                (λ j.
                  some
                    (if finishes call now db j && is_active x.status then expired_at now' x else x))
                (id-get_by_id i (meanwhile db) x n))
        ])
