-- ===== src/Base/Lists.antt =====
-- Lists measured by native numbers, and the list operations behind the database's statements:
-- SELECT … WHERE, UPDATE … WHERE, COUNT, with the laws that the components share.
use Prim.Native.Nat.{ℕ, suc, ◌+◌, ◌≤◌, ◌<◌}
use mathlib.Core.Path.{◌≡◌, refl, subst}
use mathlib.Core.Logic.{inl, inr}
use mathlib.Core.Bool.{Bool, true, false, not, ◌&&◌, ◌||◌}
use mathlib.Core.List.{List, [], ◌∷◌, ◌++◌}
use mathlib.Core.Option.{Option, none, some}
use native.Mathlib.Omega.{arith}
use homeassistant_captive_po.Base.Tests.{if◌then◌else◌, Bool-cases}

module _ {ℓ} {A : Type ℓ} where
  abbrev pub length : List A → ℕ
  length [] = 0
  length (x ∷ xs) = suc (length xs)

  -- The first element that passes the test.
  abbrev pub find_where : (A → Bool) → List A → Option A
  find_where p [] = none
  find_where p (x ∷ xs) = if p x then some x else find_where p xs

  -- SELECT … WHERE p, in the table's order.
  abbrev pub select_where : (A → Bool) → List A → List A
  select_where p [] = []
  select_where p (x ∷ xs) = let rest = select_where p xs in if p x then x ∷ rest else rest

  -- UPDATE … WHERE p.
  abbrev pub update_where : (A → Bool) → (A → A) → List A → List A
  update_where p f [] = []
  update_where p f (x ∷ xs) = (if p x then f x else x) ∷ update_where p f xs

  -- SELECT COUNT(*) … WHERE p.
  abbrev pub count_where : (A → Bool) → List A → ℕ
  count_where p [] = 0
  count_where p (x ∷ xs) = (if p x then 1 else 0) + count_where p xs

  -- Python's any(…).
  abbrev pub any_where : (A → Bool) → List A → Bool
  any_where p [] = false
  any_where p (x ∷ xs) = p x || any_where p xs

  abbrev pub All {κ} : (A → Type κ) → List A → Type κ
  All P [] = Unit
  All P (x ∷ xs) = P x × All P xs

-- One row keeps the answer of `p`.
abbrev pub Keeps {ℓ} : {A : Type ℓ} → (A → Bool) → (A → Bool) → (A → A) → Type ℓ
Keeps {A} p q f = (x : A) → q x ≡ true → p (f x) ≡ p x

module _ {ℓ} {A : Type ℓ} where
  pub length-append : (xs ys : List A) → length (xs ++ ys) ≡ length xs + length ys
  length-append [] ys = omega arith
  length-append (x ∷ xs) ys = omega (arith, length-append xs ys)

  pub count_where-append :
      (p : A → Bool) (xs ys : List A)
      → count_where p (xs ++ ys) ≡ count_where p xs + count_where p ys
  count_where-append p [] ys = omega arith
  count_where-append p (x ∷ xs) ys = omega (arith, count_where-append p xs ys)

  pub select_where-append :
      (p : A → Bool) (xs ys : List A)
      → select_where p (xs ++ ys) ≡ select_where p xs ++ select_where p ys
  select_where-append p [] ys = refl
  select_where-append p (x ∷ xs) ys = ground (arith, select_where-append p xs ys)

  pub length-select_where-le : (p : A → Bool) (xs : List A) → length (select_where p xs) ≤ length xs
  length-select_where-le p [] = omega arith
  length-select_where-le p (x ∷ xs) = ground (arith, length-select_where-le p xs)

  pub length-select_where-not :
      (p : A → Bool) (xs : List A)
      → length (select_where (λ x. not (p x)) xs) + count_where p xs ≡ length xs
  length-select_where-not p [] = refl
  length-select_where-not p (x ∷ xs) = ground (arith, length-select_where-not p xs)

  pub length-select_where :
      (p : A → Bool) (xs : List A) → length (select_where p xs) ≡ count_where p xs
  length-select_where p [] = refl
  length-select_where p (x ∷ xs) = ground (arith, length-select_where p xs)

  pub count_where-update_where :
      (p q : A → Bool) (f : A → A) (xs : List A)
      → Keeps p q f
      → count_where p (update_where q f xs) ≡ count_where p xs
  count_where-update_where p q f [] k = refl
  count_where-update_where p q f (x ∷ xs) k =
      ground (arith, k x, count_where-update_where p q f xs k)

  pub find_where-update_where :
      (p q : A → Bool) (f : A → A) (xs : List A)
      → Keeps p q f
      → find_where p (update_where q f xs)
        ≡ elim (find_where p xs) [ none ↦ none | some x ↦ some (if q x then f x else x) ]
  find_where-update_where p q f [] k = refl
  find_where-update_where p q f (x ∷ xs) k = ground (arith, k x, find_where-update_where p q f xs k)

  pub find_where-append :
      (p : A → Bool) (xs ys : List A)
      → find_where p (xs ++ ys)
        ≡ elim (find_where p xs) [ none ↦ find_where p ys | some x ↦ some x ]
  find_where-append p [] ys = refl
  find_where-append p (x ∷ xs) ys = ground (arith, find_where-append p xs ys)

  -- What is found passes the test, and has what all elements have.
  pub find_where-true : (p : A → Bool) (xs : List A) (x : A) → find_where p xs ≡ some x → p x ≡ true
  find_where-true p [] x h = cc
  find_where-true p (y ∷ xs) x h = ground (arith, find_where-true p xs x)

  pub find_where-All {κ} :
      (P : A → Type κ) (p : A → Bool) (xs : List A) (x : A)
      → All P xs
      → find_where p xs ≡ some x
      → P x
  find_where-All P p [] x a h = absurd (cc)
  find_where-All P p (y ∷ xs) x a h = elim (Bool-cases (p y)) [
    | inl e ↦ let q : y ≡ x = ground arith in subst P q a.0
    | inr e ↦ find_where-All P p xs x a.1 (rw e at h)
  ]

  pub find_where_of_no_count :
      (p : A → Bool) (xs : List A) → count_where p xs ≡ 0 → find_where p xs ≡ none
  find_where_of_no_count p [] h = refl
  find_where_of_no_count p (x ∷ xs) h = ground (arith, find_where_of_no_count p xs)

  -- What is counted can be found.
  pub find_where_of_count :
      (p : A → Bool) (xs : List A) → 0 < count_where p xs → (x : A) × (find_where p xs ≡ some x)
  find_where_of_count p [] h = absurd (omega arith)
  find_where_of_count p (x ∷ xs) h = elim (Bool-cases (p x)) [
    | inl e ↦ (x, rw e)
    | inr e ↦ rw e (find_where_of_count p xs (ground arith))
  ]

  pub count_where-none :
      (p : A → Bool) (xs : List A) → find_where p xs ≡ none → count_where p xs ≡ 0
  count_where-none p [] h = refl
  count_where-none p (x ∷ xs) h = ground (arith, count_where-none p xs)

  pub count_where_of_none :
      (p : A → Bool) (xs : List A) → ((x : A) → p x ≡ false) → count_where p xs ≡ 0
  count_where_of_none p [] h = refl
  count_where_of_none p (x ∷ xs) h = ground (arith, h x, count_where_of_none p xs h)

  pub any-select_where :
      (p q : A → Bool) (xs : List A)
      → any_where p (select_where q xs) ≡ any_where (λ x. q x && p x) xs
  any-select_where p q [] = refl
  any-select_where p q (x ∷ xs) = ground (arith, any-select_where p q xs)

  -- `any` is a count that is not zero.
  pub count_where-any : (p : A → Bool) (xs : List A) → any_where p xs ≡ false → count_where p xs ≡ 0
  count_where-any p [] h = refl
  count_where-any p (x ∷ xs) h = ground (arith, count_where-any p xs)

  pub any_where-append :
      (p : A → Bool) (xs ys : List A) → any_where p (xs ++ ys) ≡ (any_where p xs || any_where p ys)
  any_where-append p [] ys = refl
  any_where-append p (x ∷ xs) ys = ground (arith, any_where-append p xs ys)

  pub select_where-All : (p : A → Bool) (xs : List A) → All (λ x. p x ≡ true) (select_where p xs)
  select_where-All p [] = tt
  select_where-All p (x ∷ xs) = elim (Bool-cases (p x)) [
    | inl e ↦ rw e (e, select_where-All p xs)
    | inr e ↦ rw e (select_where-All p xs)
  ]

  -- Of the rows that a DELETE leaves none is counted, and the others are found as before.
  pub count_where-select_where-not :
      (p : A → Bool) (xs : List A) → count_where p (select_where (λ x. not (p x)) xs) ≡ 0
  count_where-select_where-not p [] = refl
  count_where-select_where-not p (x ∷ xs) = ground (arith, count_where-select_where-not p xs)

  pub count_where-select_where-le :
      (p q : A → Bool) (xs : List A) → count_where p (select_where q xs) ≤ count_where p xs
  count_where-select_where-le p q [] = omega arith
  count_where-select_where-le p q (x ∷ xs) = ground (arith, count_where-select_where-le p q xs)

  -- Where at most one row passes `p`, the row is found unless `q` refuses it.
  pub find_where-select_where :
      (p q : A → Bool) (xs : List A)
      → count_where p xs ≤ 1
      → find_where p (select_where q xs)
        ≡ elim (find_where p xs) [ none ↦ none | some x ↦ if q x then some x else none ]
  find_where-select_where p q [] h = refl
  find_where-select_where p q (x ∷ xs) h = elim (Bool-cases (p x)) [
    | inl e ↦
        let zero_left : count_where p (select_where q xs) ≡ 0 =
          ground (arith, count_where-select_where-le p q xs) in
        ground (arith, find_where_of_no_count p (select_where q xs), zero_left)
    | inr e ↦ ground (arith, find_where-select_where p q xs)
  ]

  pub select_where_of_none :
      (p : A → Bool) (xs : List A) → select_where p xs ≡ [] → select_where (λ x. not (p x)) xs ≡ xs
  select_where_of_none p [] h = refl
  select_where_of_none p (x ∷ xs) h = ground (arith, select_where_of_none p xs)

  pub update_where_of_none :
      (p : A → Bool) (f : A → A) (xs : List A) → ((x : A) → p x ≡ false) → update_where p f xs ≡ xs
  update_where_of_none p f [] h = refl
  update_where_of_none p f (x ∷ xs) h = ground (arith, h x, update_where_of_none p f xs h)

-- Predicates that agree everywhere count and update the same rows.
module _ {ℓ} {A : Type ℓ} (p q : A → Bool) (h : (x : A) → p x ≡ q x) where
  pub count_where_ext : (xs : List A) → count_where p xs ≡ count_where q xs
  count_where_ext [] = refl
  count_where_ext (x ∷ xs) = ground (arith, h x, count_where_ext xs)

  pub update_where_ext : (f : A → A) (xs : List A) → update_where p f xs ≡ update_where q f xs
  update_where_ext f [] = refl
  update_where_ext f (x ∷ xs) = ground (arith, h x, update_where_ext f xs)

module _ {ℓ κ} {A : Type ℓ} (P : A → Type κ) where
  pub All-append : (xs ys : List A) → All P xs → All P ys → All P (xs ++ ys)
  All-append [] ys hx hy = hy
  All-append (x ∷ xs) ys hx hy = (hx.0, All-append xs ys hx.1 hy)

  pub All-select_where : (p : A → Bool) (xs : List A) → All P xs → All P (select_where p xs)
  All-select_where p [] h = tt
  All-select_where p (x ∷ xs) h = elim (Bool-cases (p x)) [
    | inl e ↦ rw e (h.0, All-select_where p xs h.1)
    | inr e ↦ rw e (All-select_where p xs h.1)
  ]

  pub All-update_where {μ} :
      (Q : A → Type μ) (p : A → Bool) (f : A → A) (xs : List A)
      → ((x : A) → P x → p x ≡ true → Q (f x))
      → ((x : A) → P x → p x ≡ false → Q x)
      → All P xs
      → All Q (update_where p f xs)
  All-update_where Q p f [] k l h = tt
  All-update_where Q p f (x ∷ xs) k l h = elim (Bool-cases (p x)) [
    | inl e ↦ rw e (k x h.0 e, All-update_where Q p f xs k l h.1)
    | inr e ↦ rw e (l x h.0 e, All-update_where Q p f xs k l h.1)
  ]

-- A weaker property of every element.
pub All-mono {ℓ κ μ} :
    {A : Type ℓ} (P : A → Type κ) (Q : A → Type μ) (xs : List A)
    → ((x : A) → P x → Q x)
    → All P xs
    → All Q xs
All-mono P Q [] k h = tt
All-mono P Q (x ∷ xs) k h = (k x h.0, All-mono P Q xs k h.1)
