-- ===== src/Bookings/Rows.antt =====
-- Rows of events and candidates: addon/src/captive_portal/services/booking_code_validator.py
use homeassistant_captive_po.Base.{
  ◌≡◌, Bool, true, false, ◌&&◌, ◌||◌, ◌++◌, ltb, map, select_where, All-mono, List, [], ◌∷◌,
  any_where, refl, arith, inl, inr, Bool-cases, All, ap, ◌∙◌,
}
use homeassistant_captive_po.Time.{DateTime}
use homeassistant_captive_po.Store.Database.{Database}
use homeassistant_captive_po.Models.Booking.{HaIntegrationConfig, RentalControlEvent}
use homeassistant_captive_po.Bookings.{
  insert_desc, order_desc, key_lt, Candidate, candidate_key, min_candidate,
}

-- One of the rows of a list.
abbrev pub IsAmong {ℓ} : {A : Type ℓ} → A → List A → Type ℓ
IsAmong {A = A} x xs = (before : List A) × (after : List A) × (xs ≡ before ++ x ∷ after)

pub All-IsAmong {ℓ} : {A : Type ℓ} (xs : List A) → All (λ x. IsAmong x xs) xs
All-IsAmong [] = tt
All-IsAmong (x ∷ xs) = (
  ([], xs, refl),
  All-mono (λ y. IsAmong y xs) (λ y. IsAmong y (x ∷ xs)) xs
      (λ y (before, after, e). (x ∷ before, after, ap (λ l. x ∷ l) e)) (All-IsAmong xs),
)

any_where-insert_desc :
    (p : RentalControlEvent → Bool) (e : RentalControlEvent) (es : List RentalControlEvent)
    → any_where p (insert_desc e es) ≡ (p e || any_where p es)
any_where-insert_desc p e [] = refl
any_where-insert_desc p e (f ∷ fs) = ground (arith, any_where-insert_desc p e fs)

pub any_where-order_desc :
    (p : RentalControlEvent → Bool) (es : List RentalControlEvent)
    → any_where p (order_desc es) ≡ any_where p es
any_where-order_desc p [] = refl
any_where-order_desc p (e ∷ es) =
    any_where-insert_desc p e (order_desc es) ∙ ap (λ b. p e || b) (any_where-order_desc p es)

module _ {κ} (P : RentalControlEvent → Type κ) where
  All-insert_desc :
      (e : RentalControlEvent) (es : List RentalControlEvent)
      → P e
      → All P es
      → All P (insert_desc e es)
  All-insert_desc e [] h hs = (h, tt)
  All-insert_desc e (f ∷ fs) h (hf, hs) = elim (Bool-cases (ltb e.start_utc f.start_utc)) [
    | inl q ↦ rw q (hf, All-insert_desc e fs h hs)
    | inr q ↦ rw q (h, (hf, hs))
  ]

  pub All-order_desc : (es : List RentalControlEvent) → All P es → All P (order_desc es)
  All-order_desc [] h = tt
  All-order_desc (e ∷ es) (h, hs) = All-insert_desc e (order_desc es) h (All-order_desc es hs)

pub any_where-paired :
    (p : Candidate → Bool) (i : HaIntegrationConfig) (es : List RentalControlEvent)
    → any_where p (map (λ e. (e, i)) es) ≡ any_where (λ e. p (e, i)) es
any_where-paired p i [] = refl
any_where-paired p i (e ∷ es) = ap (λ b. p (e, i) || b) (any_where-paired p i es)

pub All-paired {κ} :
    (P : Candidate → Type κ) (i : HaIntegrationConfig) (es : List RentalControlEvent)
    → All (λ e. P (e, i)) es
    → All P (map (λ e. (e, i)) es)
All-paired P i [] h = tt
All-paired P i (e ∷ es) (h, hs) = (h, All-paired P i es hs)

pub All-select_where-both {ℓ κ} :
    {A : Type ℓ} (P : A → Type κ) (p : A → Bool) (xs : List A)
    → All P xs
    → All (λ x. P x × (p x ≡ true)) (select_where p xs)
All-select_where-both P p [] h = tt
All-select_where-both P p (x ∷ xs) (h, hs) = elim (Bool-cases (p x)) [
  | inl e ↦ rw e ((h, e), All-select_where-both P p xs hs)
  | inr e ↦ rw e (All-select_where-both P p xs hs)
]

pub min_candidate-All {κ} :
    (P : Candidate → Type κ) (now : DateTime) (c : Candidate) (ds : List Candidate)
    → P c
    → All P ds
    → P (min_candidate now c ds)
min_candidate-All P now c [] h hs = h
min_candidate-All P now c (d ∷ ds) h (hd, hs) =
    elim (Bool-cases (key_lt (candidate_key now d) (candidate_key now c))) [
      | inl e ↦ rw e (min_candidate-All P now d ds hd hs)
      | inr e ↦ rw e (min_candidate-All P now c ds h hs)
    ]

-- Whether some event of some integration passes a test.
abbrev pub any_pair :
    (HaIntegrationConfig → RentalControlEvent → Bool) → Database → List HaIntegrationConfig → Bool
any_pair p db is = any_where (λ i. any_where (p i) db.events) is

pub any_where-true {ℓ} :
    {A : Type ℓ} (p : A → Bool) (xs : List A) → any_where (λ x. p x && true) xs ≡ any_where p xs
any_where-true p [] = refl
any_where-true p (x ∷ xs) = ground (arith, any_where-true p xs)

pub any_pair-true :
    (p : HaIntegrationConfig → RentalControlEvent → Bool) (db : Database)
    (is : List HaIntegrationConfig)
    → any_pair (λ i e. p i e && true) db is ≡ any_pair p db is
any_pair-true p db [] = refl
any_pair-true p db (i ∷ is) = rw (any_where-true (p i) db.events, any_pair-true p db is) refl

pub any_where-All {ℓ} :
    {A : Type ℓ} (p : A → Bool) (xs : List A) → All (λ x. p x ≡ false) xs → any_where p xs ≡ false
any_where-All p [] h = refl
any_where-All p (x ∷ xs) (h, hs) = ground (arith, h, any_where-All p xs hs)
