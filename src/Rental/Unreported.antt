-- ===== src/Rental/Unreported.antt =====
-- The events that a poll of addon/src/captive_portal/integrations/rental_control_service.py leaves alone.
use homeassistant_captive_po.Base.{
  ℕ, ◌-◌, ◌≤◌, ◌≡◌, Text, text_eq, Bool, true, false, not, ◌&&◌, ◌==◌, Option, none, some, List, [],
  ◌∷◌, refl, sym, ◌⊎◌, subst, ◌∙◌, arith, All, All-mono, find_where-select_where,
  count_where-select_where-le, inl, inr,
}
use homeassistant_captive_po.Time.{DateTime, days}
use homeassistant_captive_po.Models.Booking.{HaIntegrationConfig, RentalControlEvent}
use homeassistant_captive_po.Store.Database.{Database}
use homeassistant_captive_po.Rental.{
  Entity, is_event, find_event, is_older, delete_events_older_than, reported_index, process_configs,
  purged, process_events,
}
use homeassistant_captive_po.Rental.Poll.{
  IsKeyed, upsert-IsKeyed, upsert-find_event, Allowed, process_configs-keeps,
}

delete_events_older_than-IsKeyed :
    (cutoff : DateTime) (db : Database)
    → IsKeyed db
    → IsKeyed (delete_events_older_than cutoff db).1
unfolding delete_events_older_than
delete_events_older_than-IsKeyed cutoff db h i n =
    let le = count_where-select_where-le (is_event i n) (λ e. not (is_older cutoff e)) db.events in
    omega (arith, le, h i n)

delete_events_older_than-find_event :
    (cutoff : DateTime) (i : Text) (n : ℕ) (db : Database) (e : RentalControlEvent)
    → IsKeyed db
    → find_event i n db ≡ some e
    → cutoff ≤ e.end_utc
    → find_event i n (delete_events_older_than cutoff db).1 ≡ some e
unfolding delete_events_older_than find_event
delete_events_older_than-find_event cutoff i n db e h f le =
    let young : is_older cutoff e ≡ false = ground (arith, le) in
    find_where-select_where (is_event i n) (λ x. not (is_older cutoff x)) db.events (h i n)
    ∙ rw (f, young) refl

abbrev is_index : ℕ → Option ℕ → Bool
is_index n none = false
is_index n (some m) = m == n

module _ (parse : Text → Option DateTime) (int_of : Text → Option ℕ)
    (next_id : List RentalControlEvent → ℕ) (now : DateTime) where
  -- No sensor of the integration reports a reservation at the index.
  abbrev pub IsUnreported : Text → ℕ → List Entity → HaIntegrationConfig → Type 0
  IsUnreported i n states config =
      All
        (λ e.
          (text_eq config.integration_id i
            && is_index n (reported_index parse int_of next_id now config e))
          ≡ false)
        states

  unreported-Allowed :
      (i : Text) (n : ℕ) (states : List Entity) (config : HaIntegrationConfig)
      → IsUnreported i n states config
      → All
          (λ e.
            (m : ℕ)
            → reported_index parse int_of next_id now config e ≡ some m
            → (text_eq config.integration_id i && m == n) ≡ false)
          states
  unreported-Allowed i n states config h = All-mono _ _ states (λ e k m r. ground (arith, k, r)) h

  purged-IsKeyed : (r : Bool × Database) → IsKeyed r.1 → IsKeyed (purged parse int_of next_id now r)
  purged-IsKeyed (true, db) h = h
  purged-IsKeyed (false, db) h = delete_events_older_than-IsKeyed (now - days 1) db h

  purged-find_event :
      (i : Text) (n : ℕ) (e : RentalControlEvent) (r : Bool × Database)
      → IsKeyed r.1
      → find_event i n r.1 ≡ some e
      → now - days 1 ≤ e.end_utc
      → find_event i n (purged parse int_of next_id now r) ≡ some e
  purged-find_event i n e (true, db) h f le = f
  purged-find_event i n e (false, db) h f le =
      delete_events_older_than-find_event (now - days 1) i n db e h f le

  polled : List Entity → Database → Database
  polled states db =
      purged parse int_of next_id now
        (process_configs parse int_of next_id now states db.integrations db)

  process_events_inv :
      (all_states : Option (List Entity)) (db db' : Database)
      → process_events parse int_of next_id now all_states db ≡ some db'
      → (db' ≡ db)
        ⊎ ((states : List Entity) × (all_states ≡ some states) × (db' ≡ polled states db))
  unfolding process_events polled
  process_events_inv all_states db db' h = go db.integrations refl all_states refl
    where
      go :
          (is : List HaIntegrationConfig)
          → db.integrations ≡ is
          → (o : Option (List Entity)) → all_states ≡ o
          → (db' ≡ db)
            ⊎ ((states : List Entity) × (all_states ≡ some states) × (db' ≡ polled states db))
      go [] e o k = inl (ground (arith, h, e))
      go (c ∷ cs) e none k = absurd (ground (arith, h, e, k))
      go (c ∷ cs) e (some states) k = inr (states, k, rw e (ground (arith, h, e, k)))

  configs-IsKeyed :
      (states : List Entity) (configs : List HaIntegrationConfig) (db : Database)
      → IsKeyed db
      → IsKeyed (process_configs parse int_of next_id now states configs db).1
  configs-IsKeyed states configs db h =
      process_configs-keeps parse int_of next_id now IsKeyed (λ _ _. Unit)
        (λ event d _ q. upsert-IsKeyed event now d q) (λ is d q. q) configs states db
        (any_config configs) h
    where
      any_entity :
          (c : HaIntegrationConfig) (es : List Entity)
          → Allowed parse int_of next_id now IsKeyed
              (λ _ _. Unit)
              (λ event d _ q. upsert-IsKeyed event now d q)
              (λ is d q. q)
              es
              c
      any_entity c [] = tt
      any_entity c (e ∷ es) = ((λ m r. tt), any_entity c es)

      any_config :
          (cs : List HaIntegrationConfig)
          → All
              (Allowed parse int_of next_id now IsKeyed
                (λ _ _. Unit)
                (λ event d _ q. upsert-IsKeyed event now d q)
                (λ is d q. q)
                states)
              cs
      any_config [] = tt
      any_config (c ∷ cs) = (any_entity c states, any_config cs)

  -- A poll keeps the unique constraint of the events' table: an integration and an index have at most
  -- one row, whatever Home Assistant answers and whichever integrations fail.
  process_events-IsKeyed :
      (all_states : Option (List Entity)) (db db' : Database)
      → IsKeyed db
      → process_events parse int_of next_id now all_states db ≡ some db'
      → IsKeyed db'
  unfolding polled
  process_events-IsKeyed all_states db db' h r = elim (process_events_inv all_states db db' r) [
    | inl e ↦ subst IsKeyed (sym e) h
    | inr (states, _, e) ↦
        subst IsKeyed (sym e) (purged-IsKeyed _ (configs-IsKeyed states db.integrations db h))
  ]

  -- An event whose sensor reports no reservation any more stays as it is, until a day after its end:
  -- a poll leaves the row of an integration and an index that no sensor reports, where the table has at
  -- most one row of each and the event did not end before that.
  pub process_events-find_event :
      (i : Text) (n : ℕ) (states : List Entity) (db db' : Database) (e : RentalControlEvent)
      → IsKeyed db
      → All (IsUnreported i n states) db.integrations
      → find_event i n db ≡ some e
      → now - days 1 ≤ e.end_utc
      → process_events parse int_of next_id now (some states) db ≡ some db'
      → find_event i n db' ≡ some e
  unfolding polled
  process_events-find_event i n states db db' e h u f le r =
      elim (process_events_inv (some states) db db' r) [
        | inl same ↦ subst (λ d. find_event i n d ≡ some e) (sym same) f
        | inr (states', k, same) ↦
            let q : states' ≡ states = ground (arith, k) in
            let run = process_configs parse int_of next_id now states' db.integrations db in
            let kept : find_event i n run.1 ≡ some e =
              process_configs-keeps parse int_of next_id now (λ d. find_event i n d ≡ some e)
                (λ j m. (text_eq j i && m == n) ≡ false)
                (λ event d other k. upsert-find_event event now i n d other ∙ k)
                (λ is d k. unfold find_event in k) db.integrations states' db
                (All-mono _ _ db.integrations
                  (λ c w.
                    unreported-Allowed i n states' c (subst (λ l. IsUnreported i n l c) (sym q) w))
                  u)
                f in
            subst (λ d. find_event i n d ≡ some e) (sym same)
              (purged-find_event i n e run (configs-IsKeyed states' db.integrations db h) kept le)
      ]
