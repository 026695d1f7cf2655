-- ===== src/Rental/Poll.antt =====
-- What a poll of addon/src/captive_portal/integrations/rental_control_service.py does to the events.
use homeassistant_captive_po.Base.{
  ℕ, ◌≤◌, ◌≡◌, ◌⊎◌, inl, inr, Text, text_eq, text_eq_iff, false, ◌&&◌, ◌==◌, Option, none, some,
  List, [], ◌∷◌, refl, sym, subst, ◌∙◌, arith, All, update_where, find_where, count_where,
  Bool-cases, Option-cases, count_where-append, count_where-update_where, count_where-none,
  find_where-append,
}
use homeassistant_captive_po.Time.{DateTime}
use homeassistant_captive_po.Models.Booking.{HaIntegrationConfig, RentalControlEvent}
use homeassistant_captive_po.Store.Database.{Database}
use homeassistant_captive_po.Rental.{
  Entity, is_event, find_event, updated_event, upsert, event_of, timed_event, process_single_event,
  is_present, has_identifier, parsed, reported_index, process_entity, process_integration,
  process_config, process_configs,
}

-- The table's unique constraint.
abbrev pub IsKeyed : Database → Type 0
IsKeyed db = (i : Text) (n : ℕ) → count_where (is_event i n) db.events ≤ 1

pub upsert-IsKeyed :
    (event : RentalControlEvent) (now : DateTime) (db : Database)
    → IsKeyed db
    → IsKeyed (upsert event now db)
unfolding upsert find_event
upsert-IsKeyed event now db h i n =
    elim (Option-cases (find_event event.integration_id event.event_index db)) [
      | inr (x, e) ↦
          rw (e, upsert)
            (rw
              (count_where-update_where (is_event i n)
                (is_event event.integration_id event.event_index) (updated_event event now)
                db.events (λ x h. refl))
              (h i n))
      | inl e ↦
          let empty =
            count_where-none (is_event event.integration_id event.event_index) db.events e in
          rw (e, upsert)
            (rw (count_where-append (is_event i n) db.events (event ∷ []))
              (elim (Bool-cases (is_event i n event)) [
                | inr q ↦ rw q (ground (arith, h i n))
                | inl q ↦
                    let same : event.integration_id ≡ i =
                      (text_eq_iff event.integration_id i).0 (ground (arith, q)) in
                    let index : event.event_index ≡ n = ground (arith, q) in
                    let none_there : count_where (is_event i n) db.events ≡ 0 =
                      subst (λ j. count_where (is_event j n) db.events ≡ 0) same
                        (subst (λ m. count_where (is_event event.integration_id m) db.events ≡ 0)
                          index empty) in
                    rw (q, none_there) (omega arith)
              ]))
    ]

-- Another key's event is found as before.
pub upsert-find_event :
    (event : RentalControlEvent) (now : DateTime) (i : Text) (n : ℕ) (db : Database)
    → is_event i n event ≡ false
    → find_event i n (upsert event now db) ≡ find_event i n db
unfolding upsert find_event
upsert-find_event event now i n db h =
    elim (Option-cases (find_event event.integration_id event.event_index db)) [
      | inr (x, e) ↦ rw (e, upsert) (untouched db.events)
      | inl e ↦
          rw (e, upsert)
            (find_where-append (is_event i n) db.events (event ∷ [])
              ∙ kept (find_where (is_event i n) db.events))
    ]
  where
    untouched :
        (es : List RentalControlEvent)
        → find_where (is_event i n) (
            update_where
              (is_event event.integration_id event.event_index)
              (updated_event event now)
              es)
          ≡ find_where (is_event i n) es
    untouched [] = refl
    untouched (x ∷ es) = elim (Bool-cases (is_event event.integration_id event.event_index x)) [
      | inr q ↦ ground (arith, q, untouched es)
      | inl q ↦
          let same : x.integration_id ≡ event.integration_id =
            (text_eq_iff x.integration_id event.integration_id).0 (ground (arith, q)) in
          let index : x.event_index ≡ event.event_index = ground (arith, q) in
          let other : is_event i n x ≡ false =
            subst (λ j. (text_eq j i && x.event_index == n) ≡ false) (sym same)
              (subst (λ m. (text_eq event.integration_id i && m == n) ≡ false) (sym index) h) in
          rw (q, other) (untouched es)
    ]

    kept :
        (o : Option RentalControlEvent)
        → elim o [ none ↦ find_where (is_event i n) (event ∷ []) | some x ↦ some x ] ≡ o
    kept none = rw h refl
    kept (some x) = refl

module _ (parse : Text → Option DateTime) (int_of : Text → Option ℕ)
    (next_id : List RentalControlEvent → ℕ) (now : DateTime) where
  -- A sensor's event is skipped, or put into the table under the integration and the index.
  abbrev Enters : HaIntegrationConfig → ℕ → Database → Database → Type 0
  Enters config m db db' =
      (db' ≡ db)
      ⊎ ((event : RentalControlEvent) × (db' ≡ upsert event now db)
          × (event.integration_id ≡ config.integration_id)
          × (event.event_index ≡ m))

  timed_event-Enters :
      (config : HaIntegrationConfig) (m : ℕ) (entity : Entity) (db db' : Database)
      (start end : Option DateTime)
      → timed_event parse int_of next_id now config m entity db start end ≡ some db'
      → Enters config m db db'
  timed_event-Enters config m entity db db' none end h = absurd (cc)
  timed_event-Enters config m entity db db' (some start) none h = absurd (cc)
  timed_event-Enters config m entity db db' (some start) (some end) h =
      elim (Bool-cases (has_identifier parse int_of next_id now entity)) [
        | inr q ↦ inl (ground (arith, h, q))
        | inl q ↦ inr (
          event_of parse int_of next_id now config m entity start end db,
          ground (arith, h, q),
          refl,
          refl,
        )
      ]

  process_single_event-Enters :
      (config : HaIntegrationConfig) (m : ℕ) (entity : Entity) (db db' : Database)
      → process_single_event parse int_of next_id now config m entity db ≡ some db'
      → Enters config m db db'
  unfolding process_single_event
  process_single_event-Enters config m entity db db' h =
      elim (Bool-cases (is_present entity.start && is_present entity.end)) [
        | inr q ↦ inl (ground (arith, h, q))
        | inl q ↦
            timed_event-Enters config m entity db db' (parsed parse int_of next_id now entity.start)
              (parsed parse int_of next_id now entity.end) (ground (arith, h, q))
      ]

  process_entity-Enters :
      (config : HaIntegrationConfig) (entity : Entity) (db db' : Database)
      → process_entity parse int_of next_id now config entity db ≡ some db'
      → (db' ≡ db)
        ⊎ ((m : ℕ) × (reported_index parse int_of next_id now config entity ≡ some m)
            × Enters config m db db')
  process_entity-Enters config entity db db' h =
      elim (Option-cases (reported_index parse int_of next_id now config entity)) [
        | inl e ↦ inl (ground (arith, h, e))
        | inr (m, e) ↦
            inr (m, e, process_single_event-Enters config m entity db db' (ground (arith, h, e)))
      ]

  -- What each entry into the table keeps, a poll keeps.
  module _ (Q : Database → Type 0) (R : Text → ℕ → Type 0)
      (step : (event : RentalControlEvent) (db : Database)
        → R event.integration_id event.event_index
        → Q db
        → Q (upsert event now db))
      (other : (is : List HaIntegrationConfig) (db : Database)
        → Q db
        → Q (record db { integrations = is })) where
    abbrev pub Allowed : List Entity → HaIntegrationConfig → Type 0
    Allowed states config =
        All
          (λ e.
            (m : ℕ)
            → reported_index parse int_of next_id now config e ≡ some m
            → R config.integration_id m)
          states

    process_integration-keeps :
        (config : HaIntegrationConfig) (states : List Entity) (db db' : Database)
        → Allowed states config
        → Q db
        → process_integration parse int_of next_id now config states db ≡ some db'
        → Q db'
    unfolding process_integration
    process_integration-keeps config [] db db' a q h = subst Q (ground (arith, h)) q
    process_integration-keeps config (e ∷ states) db db' (a, b) q h =
        elim (Option-cases (process_entity parse int_of next_id now config e db)) [
          | inl n ↦ absurd (ground (arith, h, n))
          | inr (db₁, n) ↦
              let q₁ : Q db₁ = elim (process_entity-Enters config e db db₁ n) [
                | inl same ↦ subst Q (sym same) q
                | inr (m, r, enters) ↦ elim enters [
                  | inl same ↦ subst Q (sym same) q
                  | inr (event, entered, key, index) ↦ subst Q (sym entered) (
                      step event db
                        (subst (λ j. R j event.event_index) (sym key)
                          (subst (λ k. R config.integration_id k) (sym index) (a m r)))
                        q)
                ]
              ] in
              process_integration-keeps config states db₁ db' b q₁ (ground (arith, h, n))
        ]

    process_config-keeps :
        (config : HaIntegrationConfig) (states : List Entity) (db : Database)
        → Allowed states config
        → Q db
        → Q (process_config parse int_of next_id now states config db).1
    unfolding process_config
    process_config-keeps config states db a q =
        elim (Option-cases (process_integration parse int_of next_id now config states db)) [
          | inl n ↦ rw (n, process_config) q
          | inr (db', n) ↦
              rw (n, process_config)
                (other _ db' (process_integration-keeps config states db db' a q n))
        ]

    pub process_configs-keeps :
        (configs : List HaIntegrationConfig) (states : List Entity) (db : Database)
        → All (Allowed states) configs
        → Q db
        → Q (process_configs parse int_of next_id now states configs db).1
    unfolding process_configs
    process_configs-keeps [] states db a q = q
    process_configs-keeps (c ∷ configs) states db (a, b) q =
        process_configs-keeps configs states (process_config parse int_of next_id now states c db).1
          b (process_config-keeps c states db a q)
