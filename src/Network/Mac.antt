-- ===== src/Network/Mac.antt =====
-- The normal form of a MAC address: `validate_mac_address` of
-- addon/src/captive_portal/utils/network_utils.py
use homeassistant_captive_po.Base.{
  ◌≤◌, subst, leb, not, ◌||◌, select_where, ℕ, zero, suc, ◌+◌, ◌*◌, ◌≡◌, ◌⊎◌, inl, inr, Text, Bool,
  true, is_empty, ◌&&◌, ◌==◌, [], ◌∷◌, ◌++◌, refl, sym, ap, ◌∙◌, arith, ok, err, length, Bool-cases,
  if◌then◌else◌,
}
use homeassistant_captive_po.Codes.{all_chars}
use homeassistant_captive_po.Codes.Generated.{FixesUpper, is_upper_alnum}
use homeassistant_captive_po.Network.{
  is_hex, without_separators, all_hex, trim_newline, is_twelve_hex, octets, empty_mac, bad_mac,
  validate_mac_address,
}

trim_newline_cases : (s : Text) → (trim_newline s ≡ s) ⊎ (s ≡ trim_newline s ++ 10 ∷ [])
trim_newline_cases [] = inl refl
trim_newline_cases (c ∷ []) = elim (Bool-cases (c == 10)) [
  | inl e ↦ inr (ground arith)
  | inr e ↦ inl (ground arith)
]
trim_newline_cases (c ∷ d ∷ s) = elim (trim_newline_cases (d ∷ s)) [
  | inl e ↦ inl (ground (arith, e))
  | inr e ↦ inr (ground (arith, e))
]

octets-append : (n : ℕ) (t x : Text) → length t ≡ n * 2 → octets n (t ++ x) ≡ octets n t
octets-append zero t x h = refl
octets-append (suc n) [] x h = absurd (omega (arith, h))
octets-append (suc n) (a ∷ []) x h = absurd (omega (arith, h))
octets-append (suc zero) (a ∷ b ∷ t) x h = refl
octets-append (suc (suc n)) (a ∷ b ∷ t) x h =
    ap (λ r. a ∷ b ∷ b':' ∷ r) (octets-append (suc n) t x (omega (arith, h)))

octets-trim_newline :
    (s : Text) → length (trim_newline s) ≡ 12 → octets 6 s ≡ octets 6 (trim_newline s)
octets-trim_newline s h = elim (trim_newline_cases s) [
  | inl e ↦ ap (octets 6) (sym e)
  | inr e ↦ ap (octets 6) e ∙ octets-append 6 (trim_newline s) (10 ∷ []) h
]

without_separators-octets :
    (n : ℕ) (t : Text) → all_hex t ≡ true → length t ≡ n * 2 → without_separators (octets n t) ≡ t
unfolding without_separators
without_separators-octets zero [] h l = refl
without_separators-octets zero (a ∷ t) h l = absurd (omega (arith, l))
without_separators-octets (suc n) [] h l = absurd (omega (arith, l))
without_separators-octets (suc n) (a ∷ []) h l = absurd (omega (arith, l))
without_separators-octets (suc zero) (a ∷ b ∷ []) h l = ground arith
without_separators-octets (suc zero) (a ∷ b ∷ c ∷ t) h l = absurd (omega (arith, l))
without_separators-octets (suc (suc n)) (a ∷ b ∷ t) h l =
    let r = without_separators-octets (suc n) t (ground arith) (omega (arith, l)) in
    ground (arith, r)

length-octets : (n : ℕ) (t : Text) → length t ≡ suc n * 2 → length (octets (suc n) t) ≡ n * 3 + 2
length-octets n [] h = absurd (omega (arith, h))
length-octets n (a ∷ []) h = absurd (omega (arith, h))
length-octets zero (a ∷ b ∷ t) h = refl
length-octets (suc n) (a ∷ b ∷ t) h = omega (arith, length-octets n t (omega (arith, h)))

all_hex-upper_alnum : (t : Text) → all_hex t ≡ true → all_chars is_upper_alnum t ≡ true
all_hex-upper_alnum [] h = refl
all_hex-upper_alnum (c ∷ t) h = ground (arith, all_hex-upper_alnum t)

trim_newline-hex : (t : Text) → all_hex t ≡ true → trim_newline t ≡ t
trim_newline-hex [] h = refl
trim_newline-hex (c ∷ t) h = ground (arith, trim_newline-hex t)

is_twelve_hex_inv :
    (s : Text)
    → is_twelve_hex s ≡ true
    → (length (trim_newline s) ≡ 12) × (all_hex (trim_newline s) ≡ true)
unfolding is_twelve_hex
is_twelve_hex_inv s h = go (length (trim_newline s)) (all_hex (trim_newline s)) h
  where
    go : (n : ℕ) (b : Bool) → (n == 12 && b) ≡ true → (n ≡ 12) × (b ≡ true)
    go n b k = ground arith

is_twelve_hex_of : (s : Text) → length s ≡ 12 → all_hex s ≡ true → is_twelve_hex s ≡ true
unfolding is_twelve_hex
is_twelve_hex_of s l h = rw (trim_newline-hex s h, h, l) refl

validate_mac_address_inv :
    (upper : Text → Text) (mac out : Text)
    → validate_mac_address upper mac ≡ ok out
    → let cleaned = upper (without_separators mac) in
      (is_twelve_hex cleaned ≡ true) × (octets 6 cleaned ≡ out)
unfolding validate_mac_address
validate_mac_address_inv upper mac out h =
    let cleaned = upper (without_separators mac) in
    go (is_empty mac) (is_twelve_hex cleaned) (octets 6 cleaned) h
  where
    go :
        (b c : Bool) (r : Text)
        → (if b then err empty_mac else if c then ok r else err bad_mac) ≡ ok out
        → (c ≡ true) × (r ≡ out)
    go b c r k = ground arith

validate_mac_address_of :
    (upper : Text → Text) (mac : Text) (n : ℕ)
    → length mac ≡ suc n
    → is_twelve_hex (upper (without_separators mac)) ≡ true
    → validate_mac_address upper mac ≡ ok (octets 6 (upper (without_separators mac)))
unfolding validate_mac_address
validate_mac_address_of upper [] n l t = absurd (omega (arith, l))
validate_mac_address_of upper (c ∷ s) n l t = rw t refl

-- 0 to 9 or A to F.
abbrev pub IsHexDigit : ℕ → Type 0
IsHexDigit c = ((48 ≤ c) × (c ≤ 57)) ⊎ ((65 ≤ c) × (c ≤ 70))

-- One pair of digits and, after a colon each, `n` more.
abbrev pub IsPairs : ℕ → Text → Type 0
IsPairs zero (a ∷ b ∷ []) = IsHexDigit a × IsHexDigit b
IsPairs (suc n) (a ∷ b ∷ c ∷ s) = IsHexDigit a × IsHexDigit b × (c ≡ 58) × IsPairs n s
IsPairs _ _ = ⊥

is_hex-IsHexDigit : (c : ℕ) → is_hex c ≡ true → IsHexDigit c
is_hex-IsHexDigit c h = elim (Bool-cases (leb 48 c && leb c 57)) [
  | inl e ↦ inl (ground (arith, e), ground (arith, e))
  | inr e ↦ inr (ground (arith, e, h), ground (arith, e, h))
]

octets-IsPairs :
    (n : ℕ) (t : Text) → all_hex t ≡ true → length t ≡ suc n * 2 → IsPairs n (octets (suc n) t)
octets-IsPairs n [] h l = absurd (omega (arith, l))
octets-IsPairs n (a ∷ []) h l = absurd (omega (arith, l))
octets-IsPairs zero (a ∷ b ∷ []) h l =
    (is_hex-IsHexDigit a (ground (arith, h)), is_hex-IsHexDigit b (ground (arith, h)))
octets-IsPairs zero (a ∷ b ∷ c ∷ t) h l = absurd (omega (arith, l))
octets-IsPairs (suc n) (a ∷ b ∷ t) h l = (
  is_hex-IsHexDigit a (ground (arith, h)),
  is_hex-IsHexDigit b (ground (arith, h)),
  refl,
  octets-IsPairs n t (ground (arith, h)) (omega (arith, l)),
)

-- The characters that are no separator.
abbrev pub digits_of : Text → Text
digits_of s = select_where (λ c. not (c == 58 || c == 45 || c == 46)) s

-- A MAC address that is accepted comes out as six pairs of the digits 0 to 9 and A to F with colons
-- between them. Its digits are those of the input, without its colons, hyphens and dots and in
-- capitals, but for a newline at their end, and what comes out is accepted as it is, where
-- `upper` leaves capitals and the ten digits alone.
pub validate_mac_address_canonical :
    (upper : Text → Text)
    → FixesUpper upper
    → (mac out : Text) → validate_mac_address upper mac ≡ ok out
    → IsPairs 5 out
      × ((upper (digits_of mac) ≡ digits_of out)
          ⊎ (upper (digits_of mac) ≡ digits_of out ++ 10 ∷ []))
      × (validate_mac_address upper out ≡ ok out)
unfolding without_separators
validate_mac_address_canonical upper u mac out h =
    let cleaned = upper (without_separators mac) in
    let t = trim_newline cleaned in
    let (twelve, made) = validate_mac_address_inv upper mac out h in
    let (len, hex) = is_twelve_hex_inv cleaned twelve in
    let e : out ≡ octets 6 t = sym made ∙ octets-trim_newline cleaned len in
    let w : without_separators out ≡ t =
      ap without_separators e ∙ without_separators-octets 6 t hex len in
    let long : length out ≡ 17 = ap length e ∙ length-octets 5 t len in
    let again : upper (without_separators out) ≡ t = ap upper w ∙ u t (all_hex-upper_alnum t hex) in
    let is_hex_again : is_twelve_hex (upper (without_separators out)) ≡ true =
      ap is_twelve_hex again ∙ is_twelve_hex_of t len hex in
    (
      subst (IsPairs 5) (sym e) (octets-IsPairs 5 t hex len),
      elim (trim_newline_cases cleaned) [
        | inl q ↦ inl (sym q ∙ sym w)
        | inr q ↦ inr (q ∙ ap (λ s. s ++ 10 ∷ []) (sym w))
      ],
      validate_mac_address_of upper out 16 long is_hex_again
          ∙ ap (λ s. ok (octets 6 s)) again
          ∙ ap ok (sym e),
    )
