-- ===== src/Codes.antt =====
-- addon/src/captive_portal/services/unified_code_service.py
pub mod Generated
use homeassistant_captive_po.Base.{
  ℕ, Text, is_empty, strip, Bool, true, false, ◌&&◌, ◌||◌, leb, ltb, ◌==◌, List, [], ◌∷◌, length,
  Result, ok, err, if◌then◌else◌,
}
use homeassistant_captive_po.Models.Audit.{CodeType, voucher, booking, invalid}

abbrev pub all_chars : (ℕ → Bool) → Text → Bool
all_chars p [] = true
all_chars p (c ∷ s) = p c && all_chars p s

abbrev pub is_digit : ℕ → Bool
is_digit c = leb b'0' c && leb c b'9'

-- [A-Z0-9] under re.IGNORECASE, which matches four letters outside of ASCII: İ, ı, ſ and the Kelvin
-- sign.
abbrev pub is_code_char : ℕ → Bool
is_code_char c =
    (leb b'A' c && leb c b'Z')
    || (leb b'a' c && leb c b'z')
    || is_digit c
    || c == 304
    || c == 305
    || c == 383
    || c == 8490

-- `detect_code_type` of a stripped code that is not empty. None of the characters that the first
-- pattern lets through is a `\d` other than 0 to 9.
unfoldable pub detect_stripped : Text → CodeType
detect_stripped code =
    if ltb (length code) 4 || ltb 24 (length code)
    then invalid
    else if all_chars is_code_char code
    then (if all_chars is_digit code && leb 4 (length code) then booking else voucher)
    else booking

unfoldable pub detect_code_type : Text → CodeType
unfolding detect_stripped
detect_code_type code =
    if is_empty code || is_empty (strip code) then invalid else detect_stripped (strip code)

pub record CodeValidationResult : Type 0 where
  pub code_type : CodeType
  pub normalized_code : Text
  pub original_code : Text

pub data ValueError : Type 0 where
  invalid_code : ValueError

-- `upper` is Python's `str.upper`.
abbrev normalize : (Text → Text) → CodeType → Text → Result ValueError CodeValidationResult
normalize upper invalid code = err invalid_code
normalize upper voucher code =
    ok (record { code_type = voucher; normalized_code = upper (strip code); original_code = code })
normalize upper booking code =
    ok (record { code_type = booking; normalized_code = strip code; original_code = code })

unfoldable pub validate_code : (Text → Text) → Text → Result ValueError CodeValidationResult
validate_code upper code = normalize upper (detect_code_type code) code
