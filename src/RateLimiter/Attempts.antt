-- ===== src/RateLimiter/Attempts.antt =====
-- What a call records: addon/src/captive_portal/security/rate_limiter.py
use homeassistant_captive_po.Base.{
  ◌+◌, ◌≤◌, Text, text_eq, ltb, leb, List, [], ◌∷◌, arith, length, select_where, All, All-append,
  All-select_where, Bool-cases, inl, inr, length-append, length-select_where-le,
}
use native.Mathlib.Nat.{le_trans}
use homeassistant_captive_po.Time.{DateTime, seconds}
use homeassistant_captive_po.RateLimiter.{
  RateLimiter, attempts_of, is_recent, cleanup, lazy_cleanup, admit, is_allowed, cleaned, or_empty,
  cleanup_interval_seconds,
}
use homeassistant_captive_po.RateLimiter.Window.{settings-lazy_cleanup}

-- What holds of the recorded attempts, and of those that a cleanup keeps, holds after it.
pub attempts_of-lazy_cleanup-All :
    (P : List DateTime → Type 0) (ip : Text) (now now' : DateTime) (r : RateLimiter)
    → P (attempts_of ip r)
    → P (select_where (is_recent now' r.window_seconds) (attempts_of ip r))
    → P (attempts_of ip (lazy_cleanup now now' r))
unfolding lazy_cleanup cleanup
attempts_of-lazy_cleanup-All P ip now now' r whole recent =
    elim (Bool-cases (leb (r.last_cleanup + seconds cleanup_interval_seconds) now)) [
      | inl e ↦ rw e (
          or_empty-cleaned (select_where (is_recent now' r.window_seconds) (attempts_of ip r))
            recent)
      | inr e ↦ rw e whole
    ]
  where
    or_empty-cleaned : (l : List DateTime) → P l → P (or_empty (cleaned l))
    or_empty-cleaned [] h = h
    or_empty-cleaned (t ∷ ts) h = h

module _ (P : DateTime → Type 0) (caller : Text) (now : DateTime) where
  admit-All :
      (r : RateLimiter)
      → P now
      → ((ip : Text) → All P (attempts_of ip r))
      → (ip : Text) → All P (attempts_of ip (admit caller now r).1)
  unfolding admit
  admit-All r h hs ip =
      let l = select_where (is_recent now r.window_seconds) (attempts_of caller r) in
      let old : All P l =
        All-select_where P (is_recent now r.window_seconds) (attempts_of caller r) (hs caller) in
      elim (Bool-cases (text_eq caller ip)) [
        | inl same ↦ elim (Bool-cases (ltb (length l) r.max_attempts)) [
          | inl room ↦ rw (room, same) (All-append P l (now ∷ []) old (h, tt))
          | inr full ↦ rw (full, same) old
        ]
        | inr other ↦ elim (Bool-cases (ltb (length l) r.max_attempts)) [
          | inl room ↦ rw (room, other) (hs ip)
          | inr full ↦ rw (full, other) (hs ip)
        ]
      ]

  -- Only the call's own time is added to what is recorded.
  pub is_allowed-All :
      (now' : DateTime) (r : RateLimiter)
      → P now
      → ((ip : Text) → All P (attempts_of ip r))
      → (ip : Text) → All P (attempts_of ip (is_allowed caller now now' r).1)
  unfolding is_allowed
  is_allowed-All now' r h hs = admit-All (lazy_cleanup now now' r) h (λ ip.
      attempts_of-lazy_cleanup-All (All P) ip now now' r (hs ip)
        (All-select_where P (is_recent now' r.window_seconds) (attempts_of ip r) (hs ip)))

-- No address gets more recorded attempts than the maximum.
pub length-is_allowed :
    (caller : Text) (now now' : DateTime) (r : RateLimiter)
    → ((ip : Text) → length (attempts_of ip r) ≤ r.max_attempts)
    → (ip : Text) → length (attempts_of ip (is_allowed caller now now' r).1) ≤ r.max_attempts
unfolding is_allowed admit
length-is_allowed caller now now' r few ip =
    let c = lazy_cleanup now now' r in
    let (_, m) = settings-lazy_cleanup now now' r in
    let kept : (ip : Text) → length (attempts_of ip c) ≤ r.max_attempts = λ ip.
      attempts_of-lazy_cleanup-All (λ l. length l ≤ r.max_attempts) ip now now' r (few ip)
        (le_trans (length-select_where-le (is_recent now' r.window_seconds) (attempts_of ip r))
          (few ip)) in
    let l = select_where (is_recent now c.window_seconds) (attempts_of caller c) in
    ground (
      arith,
      length-append l (now ∷ []),
      kept ip,
      kept caller,
      m,
      length-select_where-le (is_recent now c.window_seconds) (attempts_of caller c),
    )
