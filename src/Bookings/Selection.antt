-- ===== src/Bookings/Selection.antt =====
-- The event that a code selects: addon/src/captive_portal/services/booking_code_validator.py
use homeassistant_captive_po.Base.{
  ◌≡◌, Text, text_eq, strip, Bool, true, false, ◌==◌, ◌&&◌, ◌||◌, map, Option, none, some,
  select_where, All-mono, All-append, any_where-append, any-select_where, List, [], ◌∷◌, any_where,
  refl, arith, if◌then◌else◌, inl, inr, Bool-cases, All, subst, sym, ap, ◌∙◌,
}
use homeassistant_captive_po.Time.{DateTime}
use mathlib.Core.Path.{fun_ext}
use homeassistant_captive_po.Store.Database.{Database, column_eq}
use homeassistant_captive_po.Models.Booking.{
  HaIntegrationConfig, RentalControlEvent, IdentifierAttr, slot_code, slot_name, last_four,
}
use homeassistant_captive_po.Bookings.Rows.{
  IsAmong, All-IsAmong, any_where-order_desc, All-order_desc, any_where-paired, All-paired,
  All-select_where-both, min_candidate-All, any_pair, any_pair-true, any_where-All,
}
use homeassistant_captive_po.Bookings.{
  lowered, attribute, is_match, order_desc, find_matching_events, best, PreferenceKey, is_in_window,
  event_preference_key, key_lt, Candidate, candidate_key, min_candidate, candidates,
  find_across_integrations,
}

-- The order of the keys is total and transitive.
key_lt_trans :
    (a b c : PreferenceKey) → key_lt b a ≡ false → key_lt c b ≡ false → key_lt c a ≡ false
key_lt_trans a b c h k = ground arith

key_lt_asym : (a b : PreferenceKey) → key_lt a b ≡ true → key_lt b a ≡ false
key_lt_asym a b h = ground arith

key_lt_irrefl : (a : PreferenceKey) → key_lt a a ≡ false
key_lt_irrefl a = ground arith

-- No candidate of the list is preferred.
abbrev pub IsPreferred : DateTime → Candidate → List Candidate → Type 0
IsPreferred now m cs = All (λ d. key_lt (candidate_key now d) (candidate_key now m) ≡ false) cs

-- What is not preferred to the better of two is preferred to neither.
key_lt-better :
    (now : DateTime) (m : PreferenceKey) (c d : Candidate) (b : Bool)
    → key_lt (candidate_key now d) (candidate_key now c) ≡ b
    → key_lt (candidate_key now (if b then d else c)) m ≡ false
    → (key_lt (candidate_key now c) m ≡ false) × (key_lt (candidate_key now d) m ≡ false)
key_lt-better now m c d true e h = (
  key_lt_trans m (candidate_key now d) (candidate_key now c) h
      (key_lt_asym (candidate_key now d) (candidate_key now c) e),
  h,
)
key_lt-better now m c d false e h =
    (h, key_lt_trans m (candidate_key now c) (candidate_key now d) h e)

min_candidate-IsPreferred :
    (now : DateTime) (c : Candidate) (ds : List Candidate)
    → IsPreferred now (min_candidate now c ds) (c ∷ ds)
min_candidate-IsPreferred now c [] = (key_lt_irrefl (candidate_key now c), tt)
min_candidate-IsPreferred now c (d ∷ ds) =
    let b = key_lt (candidate_key now d) (candidate_key now c) in
    let (m, rest) = min_candidate-IsPreferred now (if b then d else c) ds in
    let (mc, md) =
      key_lt-better now (candidate_key now (min_candidate now (if b then d else c) ds)) c d b refl
        m in
    (mc, (md, rest))

abbrev pub in_window : DateTime → Candidate → Bool
in_window now (e, i) = is_in_window i.checkout_grace_minutes now e

rank-in_window :
    (now : DateTime) (c : Candidate) → ((candidate_key now c).rank == 0) ≡ in_window now c
unfolding event_preference_key
rank-in_window now (e, i) = ground arith

preferred-in_window :
    (now : DateTime) (m : Candidate) (cs : List Candidate)
    → IsPreferred now m cs
    → in_window now m ≡ false
    → any_where (in_window now) cs ≡ false
preferred-in_window now m [] h w = refl
preferred-in_window now m (c ∷ cs) (k, h) w =
    let km = candidate_key now m in
    let kc = candidate_key now c in
    ground (arith, rank-in_window now m, rank-in_window now c, k, preferred-in_window now m cs h w)

in_window-better :
    (now : DateTime) (c d : Candidate) (ds : List Candidate) (b : Bool)
    → any_where (in_window now) ((if b then d else c) ∷ ds) ≡ true
    → any_where (in_window now) (c ∷ d ∷ ds) ≡ true
in_window-better now c d ds true h = ground arith
in_window-better now c d ds false h = ground arith

min-in_window :
    (now : DateTime) (c : Candidate) (ds : List Candidate)
    → in_window now (min_candidate now c ds) ≡ true
    → any_where (in_window now) (c ∷ ds) ≡ true
min-in_window now c [] h = ground (arith, h)
min-in_window now c (d ∷ ds) h =
    let b = key_lt (candidate_key now d) (candidate_key now c) in
    in_window-better now c d ds b (min-in_window now (if b then d else c) ds h)

abbrev pub Test : Type 0
Test = HaIntegrationConfig → RentalControlEvent → Bool

-- The field that an integration compares codes with.
abbrev pub written : IdentifierAttr → RentalControlEvent → Option Text
written slot_code e = e.slot_code
written slot_name e = e.slot_name
written last_four e = e.last_four

abbrev pub is_written : (Text → Text) → Text → Option Text → Bool
is_written sql_lower code none = false
is_written sql_lower code (some v) = text_eq (sql_lower v) code

-- The event is one of the integration, and its field is the code.
abbrev pub has_code : (Text → Text) → Text → Test
has_code sql_lower code i e =
    text_eq e.integration_id i.integration_id
    && is_written sql_lower code (written i.identifier_attr e)

module _ (sql_lower lower : Text → Text) (input : Text) (now : DateTime) (db : Database) where
  abbrev matches : List Candidate
  matches = candidates sql_lower lower (strip input) db.integrations db

  -- No match has a smaller key than what is selected, and it is in its access window if and only if
  -- some match is in its own.
  pub find_across_integrations-best :
      (c : Candidate)
      → find_across_integrations sql_lower lower input now db ≡ some c
      → IsPreferred now c matches × (in_window now c ≡ any_where (in_window now) matches)
  unfolding find_across_integrations
  find_across_integrations-best c h = go matches refl
    where
      go :
          (l : List Candidate)
          → matches ≡ l
          → IsPreferred now c matches × (in_window now c ≡ any_where (in_window now) matches)
      go [] e = absurd (ground (arith, e, h))
      go (d ∷ ds) e =
          let q : min_candidate now d ds ≡ c = ground (arith, e, h) in
          let p : IsPreferred now c (d ∷ ds) =
            subst (λ m. IsPreferred now m (d ∷ ds)) q (min_candidate-IsPreferred now d ds) in
          let yes = min-in_window now d ds in
          rw e (
            p,
            elim (Bool-cases (in_window now c)) [
              | inl w ↦ w ∙ sym (yes (ap (in_window now) q ∙ w))
              | inr w ↦ w ∙ sym (preferred-in_window now c (d ∷ ds) p w)
            ],
          )

  abbrev found : Test
  found = is_match sql_lower lower (strip input)

  candidates-any_pair :
      (p : Candidate → Bool) (is : List HaIntegrationConfig)
      → any_where p (candidates sql_lower lower (strip input) is db)
        ≡ any_pair (λ i e. is_match sql_lower lower (strip input) i e && p (e, i)) db is
  unfolding candidates find_matching_events
  candidates-any_pair p [] = refl
  candidates-any_pair p (i ∷ is) =
      let rows = select_where (is_match sql_lower lower (strip input) i) db.events in
      any_where-append p (map (λ e. (e, i)) (order_desc rows))
        (candidates sql_lower lower (strip input) is db)
      ∙ ap (λ b. b || any_where p (candidates sql_lower lower (strip input) is db))
          (any_where-paired p i (order_desc rows)
            ∙ any_where-order_desc (λ e. p (e, i)) rows
            ∙ any-select_where (λ e. p (e, i)) (is_match sql_lower lower (strip input) i) db.events)
      ∙ ap
          (λ b.
            any_where (λ e. is_match sql_lower lower (strip input) i e && p (e, i)) db.events || b)
          (candidates-any_pair p is)

  -- An event and an integration of the database, and the code matches.
  abbrev pub IsMatch : Test → Candidate → Type 0
  IsMatch test (e, i) = IsAmong e db.events × IsAmong i db.integrations × (test i e ≡ true)

  candidates-IsMatch :
      (is : List HaIntegrationConfig)
      → All (λ i. IsAmong i db.integrations) is
      → All (IsMatch found) (candidates sql_lower lower (strip input) is db)
  unfolding candidates find_matching_events
  candidates-IsMatch [] h = tt
  candidates-IsMatch (i ∷ is) (h, hs) =
      let p = found i in
      All-append (IsMatch found) (map (λ e. (e, i)) (order_desc (select_where p db.events)))
        (candidates sql_lower lower (strip input) is db)
        (All-paired (IsMatch found) i (order_desc (select_where p db.events)) (
          All-order_desc (λ e. IsMatch found (e, i)) (select_where p db.events)
            (All-mono (λ e. IsAmong e db.events × (p e ≡ true)) (λ e. IsMatch found (e, i))
              (select_where p db.events) (λ e (a, m). (a, h, m))
              (All-select_where-both (λ e. IsAmong e db.events) p db.events
                (All-IsAmong db.events)))))
        (candidates-IsMatch is hs)

  -- What a code selects, by a test of the events.
  abbrev pub IsSelection : Test → Option Candidate → Type 0
  IsSelection test none = any_pair test db db.integrations ≡ false
  IsSelection test (some c) =
      IsMatch test c
      × (any_pair (λ i e. test i e && key_lt (candidate_key now (e, i)) (candidate_key now c)) db
            db.integrations
          ≡ false)
      × (in_window now c ≡ any_pair (λ i e. test i e && in_window now (e, i)) db db.integrations)

  find_across_integrations-found :
      IsSelection found (find_across_integrations sql_lower lower input now db)
  unfolding find_across_integrations
  find_across_integrations-found = go matches refl
    where
      go : (l : List Candidate) → matches ≡ l → IsSelection found (best sql_lower lower now l)
      go [] e =
          sym (any_pair-true found db db.integrations)
          ∙ sym (candidates-any_pair (λ _. true) db.integrations)
          ∙ ap (any_where (λ _. true)) e
      go (d ∷ ds) e =
          let c = min_candidate now d ds in
          let selected : find_across_integrations sql_lower lower input now db ≡ some c =
            ap (best sql_lower lower now) e in
          let (least, window) = find_across_integrations-best c selected in
          let (first, rest) =
            subst (All (IsMatch found)) e
              (candidates-IsMatch db.integrations (All-IsAmong db.integrations)) in
          (
            min_candidate-All (IsMatch found) now d ds first rest,
            sym (
                  candidates-any_pair (λ x. key_lt (candidate_key now x) (candidate_key now c))
                    db.integrations)
                ∙ any_where-All (λ x. key_lt (candidate_key now x) (candidate_key now c)) matches
                    least,
            window ∙ candidates-any_pair (in_window now) db.integrations,
          )

  is_match-has_code :
      (i : HaIntegrationConfig) (e : RentalControlEvent)
      → found i e ≡ has_code sql_lower (lower (strip input)) i e
  is_match-has_code i e = go i.identifier_attr
    where
      same :
          (o : Option Text)
          → column_eq (lowered sql_lower o) (lower (strip input))
            ≡ is_written sql_lower (lower (strip input)) o
      same none = refl
      same (some v) = refl

      go :
          (a : IdentifierAttr)
          → (text_eq e.integration_id i.integration_id
              && column_eq (lowered sql_lower (attribute a e)) (lower (strip input)))
            ≡ (text_eq e.integration_id i.integration_id
                && is_written sql_lower (lower (strip input)) (written a e))
      go slot_code = ap (λ b. text_eq e.integration_id i.integration_id && b) (same e.slot_code)
      go slot_name = ap (λ b. text_eq e.integration_id i.integration_id && b) (same e.slot_name)
      go last_four = ap (λ b. text_eq e.integration_id i.integration_id && b) (same e.last_four)

  -- A code matches an event of an integration whose field, the one that the integration names, is in lower
  -- case the code without the spaces around it, in lower case. A code selects nothing exactly where no
  -- event of any integration matches it. Otherwise it selects a matching event of the database, with its
  -- integration: no match has a smaller key, and the selected event is in its access window if and
  -- only if some match is in its own.
  pub find_across_integrations-IsSelection :
      IsSelection
        (has_code sql_lower (lower (strip input)))
        (find_across_integrations sql_lower lower input now db)
  find_across_integrations-IsSelection =
      subst (λ test. IsSelection test (find_across_integrations sql_lower lower input now db))
        (fun_ext (λ i. fun_ext (λ e. is_match-has_code i e))) find_across_integrations-found
