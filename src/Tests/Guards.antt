-- ===== src/Tests/Guards.antt =====
-- Runs of the rate limiter, the cache, the code and VLAN validation
-- (addon/src/captive_portal/security/rate_limiter.py, services/cache_service.py,
-- services/unified_code_service.py and services/vlan_validation_service.py).
use homeassistant_captive_po.Base.{
  ℕ, ◌+◌, ◌≤◌, ◌≡◌, ◌≢◌, ◌↔◌, ◌⊎◌, text_eq, codes, true, some, List, [], ◌∷◌, refl, ok, pos, arith,
  any_where, ◌==◌,
}
use homeassistant_captive_po.Time.{DateTime, seconds}
use homeassistant_captive_po.RateLimiter.{
  RateLimiter, new, is_allowed, admit, lazy_cleanup, get_retry_after_seconds,
}
use homeassistant_captive_po.RateLimiter.Admitted.{
  TimedCall, admitted, IsWithinWindow, admitted-IsWithinWindow,
}
use homeassistant_captive_po.RateLimiter.Retry.{
  IsTold, or_zero, new-IsBounded, is_allowed-IsBounded, retry_admitted,
}
use homeassistant_captive_po.Cache.{CacheService, set}
use homeassistant_captive_po.VoucherService.Create.{draw_code}
use homeassistant_captive_po.Models.Audit.{CodeType}
use homeassistant_captive_po.Codes.{validate_code}
use homeassistant_captive_po.Codes.Generated.{validate_code-drawn}
use homeassistant_captive_po.Vlan.{validate_vlan, parse_vid, validate_vlan_iff}
use homeassistant_captive_po.Samples.{noon, phone, laptop, wifi}

-- One attempt a minute.
abbrev limiter : RateLimiter
limiter = new 1 60 noon

abbrev after_one : RateLimiter
after_one = (is_allowed phone noon noon limiter).1

-- Two attempts at noon, where each call takes a microsecond.
abbrev two_calls : List TimedCall
two_calls = (phone, noon, noon + 1) ∷ (phone, noon + 1, noon + 2) ∷ []

admitted-IsWithinWindow_example : IsWithinWindow 1 60 1 (noon ∷ [])
unfolding admitted is_allowed admit lazy_cleanup text_eq new
admitted-IsWithinWindow_example =
    admitted-IsWithinWindow phone 1 60 1 noon two_calls
      (omega arith, omega arith, (omega arith, omega arith, tt))

phone_apart : phone ≢ laptop
phone_apart e = absurd (ground (arith, e))

retry_admitted_example :
    let (answer, r'') =
      get_retry_after_seconds phone (noon + 2) (is_allowed phone noon (noon + 1) after_one).1 in
    IsTold 60 noon (noon + 2) answer
    × ((wait : ℕ) (later' : DateTime)
        → (is_allowed phone (noon + 2 + seconds (or_zero answer) + wait) later' r'').0 ≡ true)
unfolding is_allowed admit lazy_cleanup text_eq new
retry_admitted_example =
    retry_admitted phone noon (noon + 1) (noon + 2) after_one
      (is_allowed-IsBounded phone noon noon noon limiter (new-IsBounded 1 60 noon) (omega arith))
      (omega arith) refl (omega arith)

abbrev cache : CacheService ℕ
cache = set wifi 7 (some 30) noon (record { cache = []; default_ttl = 60 })

-- A voucher code of four digits.
validate_code-drawn_example :
    validate_code (λ s. s) (codes "9999")
    ≡ ok (record {
      code_type = CodeType.booking;
      normalized_code = codes "9999";
      original_code = codes "9999";
    })
unfolding draw_code
validate_code-drawn_example =
    validate_code-drawn (λ _. 35) (λ j. omega arith) 4 (omega arith) (omega arith) (λ s. s)
      (λ s h. refl)

-- A device on VLAN 5, which the list has.
abbrev vlans : List ℕ
vlans = 4 ∷ 5 ∷ []

validate_vlan_iff_example :
    ((validate_vlan (λ s. some (pos 5)) (some (codes "5")) (some vlans)).vlan_allowed ≡ true) ↔ (
      (vlans ≡ [])
      ⊎ ((vid : ℕ) × (parse_vid (λ s. some (pos 5)) (some (codes "5")) ≡ some vid)
          × (1 ≤ vid)
          × (vid ≤ 4094)
          × (any_where (λ v. v == vid) vlans ≡ true)))
validate_vlan_iff_example = validate_vlan_iff (λ s. some (pos 5)) (some (codes "5")) (some vlans)
