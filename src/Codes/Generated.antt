-- ===== src/Codes/Generated.antt =====
-- The codes that the voucher service generates, as the guest's form reads them:
-- addon/src/captive_portal/services/voucher_service.py and unified_code_service.py.
use homeassistant_captive_po.Base.{
  ℕ, zero, suc, ◌+◌, ◌≤◌, ◌<◌, ◌≡◌, Text, is_empty, is_space, lstrip, rstrip, strip, Bool, true,
  false, ◌&&◌, ◌||◌, leb, [], ◌∷◌, refl, arith, length, ok, if◌then◌else◌,
}
use homeassistant_captive_po.Models.Audit.{voucher, booking}
use homeassistant_captive_po.VoucherService.Create.{alphabet, nth, draw_code}
use homeassistant_captive_po.VoucherService.Attempts.{length-draw_code}
use homeassistant_captive_po.Codes.{
  all_chars, is_digit, is_code_char, detect_stripped, detect_code_type, validate_code,
}

abbrev no_space : ℕ → Bool
no_space c = if is_space c then false else true

lstrip_of_no_space : (s : Text) → all_chars no_space s ≡ true → lstrip s ≡ s
unfolding lstrip
lstrip_of_no_space [] h = refl
lstrip_of_no_space (c ∷ s) h = ground arith

rstrip_of_no_space : (s : Text) → all_chars no_space s ≡ true → rstrip s ≡ s
unfolding rstrip
rstrip_of_no_space [] h = refl
rstrip_of_no_space (c ∷ s) h = ground (arith, rstrip_of_no_space s)

-- Facts about each of the 36 characters, by evaluation.
abbrev all_below : ℕ → (ℕ → Bool) → Bool
all_below zero p = true
all_below (suc n) p = p n && all_below n p

all_below_sound : (n : ℕ) (p : ℕ → Bool) (i : ℕ) → all_below n p ≡ true → i < n → p i ≡ true
all_below_sound zero p i h lt = absurd (omega arith)
all_below_sound (suc n) p i h lt = ground (arith, all_below_sound n p i)

-- What the characters of the alphabet all have, a drawn code has.
draw_code-all :
    (p : ℕ → Bool) (choice : ℕ → ℕ) (i n : ℕ)
    → ((c : ℕ) → c < 36 → p (nth alphabet c) ≡ true)
    → ((j : ℕ) → choice j < 36)
    → all_chars p (draw_code choice i n) ≡ true
unfolding draw_code
draw_code-all p choice i zero k h = refl
draw_code-all p choice i (suc n) k h =
    ground (arith, k (choice i) (h i), draw_code-all p choice (i + 1) n k h)

alphabet-code_char : (c : ℕ) → c < 36 → is_code_char (nth alphabet c) ≡ true
alphabet-code_char c h = all_below_sound 36 (λ i. is_code_char (nth alphabet i)) c refl h

alphabet-no_space : (c : ℕ) → c < 36 → no_space (nth alphabet c) ≡ true
unfolding is_space
alphabet-no_space c h = all_below_sound 36 (λ i. no_space (nth alphabet i)) c refl h

-- What `str.upper` does to a text of capital letters and digits.
abbrev pub is_upper_alnum : ℕ → Bool
is_upper_alnum c = (leb b'A' c && leb c b'Z') || is_digit c

abbrev pub FixesUpper : (Text → Text) → Type 0
FixesUpper upper = (s : Text) → all_chars is_upper_alnum s ≡ true → upper s ≡ s

alphabet-upper_alnum : (c : ℕ) → c < 36 → is_upper_alnum (nth alphabet c) ≡ true
alphabet-upper_alnum c h = all_below_sound 36 (λ i. is_upper_alnum (nth alphabet i)) c refl h

module _ (choice : ℕ → ℕ) (h : (j : ℕ) → choice j < 36) (n : ℕ) (lo : 4 ≤ n) (hi : n ≤ 24) where
  abbrev drawn : Text
  drawn = draw_code choice 0 n

  strip-drawn : strip drawn ≡ drawn
  unfolding strip
  strip-drawn =
      let ns = draw_code-all no_space choice 0 n alphabet-no_space h in
      rw (lstrip_of_no_space drawn ns) (rstrip_of_no_space drawn ns)

  is_empty-drawn : is_empty drawn ≡ false
  is_empty-drawn = go drawn (omega (arith, length-draw_code choice 0 n))
    where
      go : (s : Text) → 0 < length s → is_empty s ≡ false
      go [] k = absurd (omega arith)
      go (c ∷ s) k = refl

  detect-drawn : detect_code_type drawn ≡ (if all_chars is_digit drawn then booking else voucher)
  unfolding detect_code_type detect_stripped
  detect-drawn = ground (
    arith,
    strip-drawn,
    is_empty-drawn,
    length-draw_code choice 0 n,
    draw_code-all is_code_char choice 0 n alphabet-code_char h,
  )

  -- A generated voucher code of any admitted length comes through the guest's form unchanged; it is
  -- taken for a voucher code if one of its characters is a letter, and for a booking code if all are
  -- digits.
  pub validate_code-drawn :
      (upper : Text → Text)
      → FixesUpper upper
      → validate_code upper drawn
        ≡ ok (record {
          code_type = if all_chars is_digit drawn then booking else voucher;
          normalized_code = drawn;
          original_code = drawn;
        })
  unfolding validate_code
  validate_code-drawn upper u = ground (
    arith,
    detect-drawn,
    strip-drawn,
    u drawn (draw_code-all is_upper_alnum choice 0 n alphabet-upper_alnum h),
  )
